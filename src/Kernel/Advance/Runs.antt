-- ===== src/Kernel/Advance/Runs.antt =====
-- The stages RUNNING and RUN_COMPLETED of `advance_once`: the ledger of run manifests must hold every
-- frozen attempt, once.
use cumcm.Base.{
  ℕ, suc, String, ◌<>◌, Bool, true, false, not, ◌&&◌, List, [], ◌∷◌, ◌++◌, leb, length, all, any,
  contains, if◌then◌else◌, map, take,
}
use cumcm.Py.Exn.{Py, ok, raise, value_error, type_error, attribute_error, ◌>>=◌, ◌>>◌, require}
use cumcm.Py.Value.{Value, null, int, str, list, dict, Items, Fields, elements, eq, is_text}
use cumcm.Py.Member.{iterate, hashable, and_then, member}
use cumcm.Py.Dict.{get, get_or, item}
use cumcm.Py.Text.{codes, starts, same_codes, path_parts}
use cumcm.Kernel.Host.{Host}
use cumcm.Kernel.Gate.{GateResult}
use cumcm.Kernel.Load.{load_json, read_content, join}
use cumcm.Kernel.Stale.{unsuccessful}
use cumcm.Kernel.Transition.{Step, record_transition}
use cumcm.Kernel.Validators.{Validators}

abbrev pub Attempt : Type 0
Attempt = Value × Value

abbrev pub same_attempt : Attempt → Attempt → Bool
same_attempt (c, s) (d, t) = eq c d && eq s t

abbrev pub recorded : List Attempt → Attempt → Bool
recorded ledger a = any (same_attempt a) ledger

-- Equality of the two sets of attempts.
abbrev pub same_attempts : List Attempt → List Attempt → Bool
same_attempts xs ys = all (recorded ys) xs && all (recorded xs) ys

abbrev attempts_of : Value → List Value → List Attempt
attempts_of c [] = []
attempts_of c (s ∷ r) = (c, s) ∷ attempts_of c r

abbrev pub frozen_attempts : List Value → List Value → List Attempt
frozen_attempts [] seeds = []
frozen_attempts (c ∷ r) seeds = attempts_of c seeds ++ frozen_attempts r seeds

abbrev pub entry : String → Value → Value
entry k (dict fs) = get k fs
entry k _ = null

abbrev is_int : Value → Bool
is_int (int z) = true
is_int _ = false

abbrev is_string : Value → Bool
is_string (str s) = true
is_string _ = false

abbrev pub attempt_of : Value → Attempt
attempt_of manifest = (
  entry "candidate_id" (entry "configuration" manifest),
  entry "seed" (entry "configuration" manifest),
)

-- The run names itself, and is a frozen attempt that the ledger does not have yet.
unfoldable pub attempt_ok : String → Value → Value → List Attempt → Value → Py Bool
attempt_ok run_id candidates seeds ledger manifest =
    let (candidate, seed) = attempt_of manifest in
    and_then (is_text (entry "run_id" manifest) run_id && is_string candidate) (
      member candidate candidates >>= λ planned. and_then (planned && is_int seed) (
        member seed seeds >>= λ seeded. ok (
          seeded
          && eq (entry "random_seed" manifest) seed
          && not (recorded ledger (candidate, seed)))))

abbrev same_parts : List (List ℕ) → List (List ℕ) → Bool
same_parts [] [] = true
same_parts (a ∷ r) (b ∷ s) = same_codes a b && same_parts r s
same_parts _ _ = false

abbrev output_ok : String → Value → Bool
output_ok run_id (dict fs) = elim (get "path" fs) [
  | str path ↦ same_parts (take 2 (path_parts (codes path))) (codes "runs" ∷ codes run_id ∷ [])
  | _ ↦ false
]
output_ok run_id _ = false

unfoldable pub outputs_ok : String → Value → Bool
outputs_ok run_id (list xs) = all (output_ok run_id) (elements xs)
outputs_ok run_id _ = false

abbrev retained_outcome : Value → Py Bool
retained_outcome (str outcome) = ok (contains unsuccessful outcome)
retained_outcome (list xs) = raise type_error
retained_outcome (dict fs) = raise type_error
retained_outcome _ = ok false

abbrev pub is_retained : Value → GateResult → Py Bool
is_retained (dict fs) result = retained_outcome (get "outcome" fs) >>= λ kept.
    ok (kept && all (λ c. starts (codes "RC_MANIFEST_NOT_SUCCESS:") (codes c)) result.reason_codes)
is_retained _ result = ok false

abbrev pub manifest_path : String → String
manifest_path run_id = "runs/" <> (run_id <> "/manifest.json")

pub record Ledger : Type 0 where
  pub attempts : List Attempt
  pub successes : ℕ

abbrev pub empty_ledger : Ledger
empty_ledger = record { attempts = []; successes = 0 }

module _ (H : Host) (V : Validators) (freezes : Fields) (candidates seeds : Value) where
  abbrev pub weigh : Value → Ledger → GateResult → Py Ledger
  weigh manifest ledger result =
      if result.accepted
      then ok (record ledger { successes = suc ledger.successes })
      else (is_retained manifest result >>= λ kept.
          require kept (value_error (join result.reason_codes)) >> ok ledger)

  -- One manifest of the loop.
  unfoldable pub admit : String → Ledger → Py Ledger
  admit run_id ledger = do
    manifest ← load_json H (manifest_path run_id)
    attempted ← attempt_ok run_id candidates seeds ledger.attempts manifest
    require attempted (value_error "RC_RUN_FROZEN_ATTEMPT_BINDING_INVALID")
    require (outputs_ok run_id (entry "output_files" manifest))
        (value_error "RC_RUN_OUTPUT_IDENTITY_INVALID")
    result ← V.validate_manifest manifest freezes
    weigh manifest (record ledger { attempts = attempt_of manifest ∷ ledger.attempts }) result

  unfoldable pub admit_all : List String → Ledger → Py Ledger
  admit_all [] ledger = ok ledger
  admit_all (r ∷ rs) ledger = admit r ledger >>= admit_all rs

abbrev output_paths : List Value → List String
output_paths [] = []
output_paths (dict fs ∷ r) = elim (get "path" fs) [
  | str path ↦ path ∷ output_paths r
  | _ ↦ output_paths r
]
output_paths (v ∷ r) = output_paths r

abbrev fields_of : Value → Py Fields
fields_of (dict fs) = ok fs
fields_of _ = raise attribute_error

unfoldable pub bound_outputs : Host → List String → Py (List String)
bound_outputs H [] = ok []
bound_outputs H (r ∷ rs) = do
  value ← load_json H (manifest_path r)
  manifest ← fields_of value
  records ← iterate (get_or "output_files" (list (Items.nil)) manifest)
  rest ← bound_outputs H rs
  ok (output_paths records ++ rest)

module _ (H : Host) (V : Validators) where
  -- The evidence of the step, once every frozen attempt is in the ledger.
  unfoldable pub run_evidence : Py (List String)
  run_evidence = do
    require (leb 1 (length H.run_ids)) (value_error "RC_RUN_MANIFEST_MISSING")
    freezes ← V.trusted_freezes
    plan ← read_content H "experiment_plan"
    candidates ← item "candidate_ids" plan
    seeds ← item "random_seeds" plan
    candidate_list ← iterate candidates
    seed_list ← iterate seeds
    require (all hashable candidate_list && all hashable seed_list) type_error
    ledger ← admit_all H V freezes candidates seeds H.run_ids empty_ledger
    require (same_attempts ledger.attempts (frozen_attempts candidate_list seed_list))
        (value_error "RC_RUN_ATTEMPT_LEDGER_NOT_EXACT")
    require (leb 2 ledger.successes) (value_error "RC_VERIFIED_RUNS_INSUFFICIENT")
    outputs ← bound_outputs H H.run_ids
    ok (map manifest_path H.run_ids ++ outputs)

module _ (H : Host) (V : Validators) (state : Fields) (check : Bool) where
  unfoldable pub from_running : Py Step
  from_running = do
    evidence ← run_evidence H V
    record_transition H state "RUN_COMPLETED" "GATE_RUN_COMPLETION" evidence check

  unfoldable pub from_run_completed : Py Step
  from_run_completed = do
    evidence ← run_evidence H V
    record_transition H state "RUN_VALIDATED" "GATE_REPRODUCIBILITY_MANIFEST" evidence check
