-- ===== src/Kernel/Tests/Runs.antt =====
-- Two runs with different seeds.
use cumcm.Base.{String, ◌≡◌, refl, true, [], ◌∷◌, ◌==◌, ℕ, if◌then◌else◌}
use cumcm.Py.Exn.{raise, value_error, ok}
use cumcm.Py.Value.{Value, str, int, pos, list, dict, nil, cons, Fields, fields, texts, eq}
use cumcm.Kernel.Host.{Host}
use cumcm.Kernel.Gate.{passed}
use cumcm.Kernel.Load.{load_json}
use cumcm.Kernel.Validators.{Validators}
use cumcm.Kernel.Advance.Runs.{Ledger, empty_ledger, attempt_ok, outputs_ok, admit, admit_all}
use cumcm.Kernel.Advance.Ledger.{IsLedger, admit_all-IsLedger}
use cumcm.Kernel.Tests.{empty_host, validators}

abbrev manifest : String → ℕ → Value
manifest run_id seed = dict (
    fields (
      ("run_id", str run_id)
      ∷ (
        "configuration",
        dict (fields (("candidate_id", str "M1") ∷ ("seed", int (pos seed)) ∷ [])),
      )
      ∷ ("random_seed", int (pos seed))
      ∷ ("output_files", list nil)
      ∷ []))

abbrev two_runs : Host
two_runs = record empty_host {
  is_file = λ path. true;
  exists = λ path. true;
  relative_to_root = λ path. raise (value_error "");
  bytes = λ path. if path == "runs/a/manifest.json" then [] else 1 ∷ [];
  loads = λ b. ok (elim b [ [] ↦ manifest "a" 1 | ◌∷◌ x r ↦ manifest "b" 2 ]);
}

abbrev accepting : Validators
accepting = record validators { validate_manifest = λ m f. ok (passed "RC_MANIFEST_VALID") }

abbrev models : Value
models = list (texts ("M1" ∷ []))

abbrev seeds : Value
seeds = list (cons (int (pos 1)) (cons (int (pos 2)) nil))

abbrev both : Ledger
both = record { attempts = (str "M1", int (pos 2)) ∷ (str "M1", int (pos 1)) ∷ []; successes = 2 }

admitted :
    admit_all two_runs accepting Fields.end models seeds ("a" ∷ "b" ∷ []) empty_ledger ≡ ok both
unfolding admit_all admit attempt_ok outputs_ok load_json passed eq
admitted = refl

admit_all-IsLedger_example : IsLedger two_runs ("b" ∷ "a" ∷ []) both.attempts
admit_all-IsLedger_example =
    admit_all-IsLedger two_runs accepting Fields.end models seeds ("a" ∷ "b" ∷ []) both admitted
