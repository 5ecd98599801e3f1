-- ===== src/Kernel/Advance/Late.antt =====
-- The stages of `advance_once` after the runs: comparison and robustness, final result, claims,
-- handoff.
use cumcm.Base.{String, Bool, List, [], ◌∷◌, ◌==◌, if◌then◌else◌, map}
use cumcm.Py.Exn.{Py, ok, value_error, ◌>>=◌, ◌>>◌, require}
use cumcm.Py.Value.{Value, dict, str, Fields, fields, is_text}
use cumcm.Py.Dict.{get, get_or}
use cumcm.Py.Path.{is_absolute, run_file}
use cumcm.Kernel.Host.{Host}
use cumcm.Kernel.Gate.{ContractResult}
use cumcm.Kernel.Load.{load_json, read_content, accept, join}
use cumcm.Kernel.Transition.{Step, record_transition}
use cumcm.Kernel.Contract.Selection.{validate_requirement_selection}
use cumcm.Kernel.Contract.Bundle.{validate_semantic_claim_bundle}
use cumcm.Kernel.Runtime.Eligibility.{selected_runtime_run_ids}
use cumcm.Kernel.Runtime.Compatibility.{text_of}
use cumcm.Kernel.Runtime.Finalization.{validate_runtime_finalization}
use cumcm.Kernel.Validators.{Validators}
use cumcm.Kernel.Advance.Runs.{manifest_path}

-- `if result.get("status") != "PASS": raise ValueError(";".join(result["reason_codes"]))`
abbrev pub pass : ContractResult → Py (Unit {0})
pass result = require (result.status == "PASS") (value_error (join result.reason_codes))

abbrev manifests_of : Host → List String → Py (List (String × Value))
manifests_of H [] = ok []
manifests_of H (r ∷ rs) =
    load_json H (run_file r) >>= λ manifest. manifests_of H rs >>= λ rest. ok ((r, manifest) ∷ rest)

module _ (H : Host) (V : Validators) (state : Fields) (check : Bool) where
  unfoldable pub from_run_validated : Py Step
  from_run_validated = do
    comparison ← read_content H "model_comparison"
    freezes ← V.trusted_freezes
    V.validate_comparison (dict comparison) freezes >>= accept
    selection ← read_content H "requirement_selection"
    validate_requirement_selection (dict selection) >>= pass
    robustness ← read_content H "robustness_analysis"
    V.validate_robustness (dict robustness) (dict comparison) >>= accept
    record_transition H state "ROBUSTNESS_VALIDATED" "GATE_COMPARISON_AND_ROBUSTNESS"
        ("results/model_comparison.json" ∷ "results/requirement_selection.json"
          ∷ "results/robustness.json" ∷ [])
        check

  -- The check of a final result of version 2, and the runs that it selects.
  abbrev runtime_check : Fields → Fields → Fields → Fields → Py (List String)
  runtime_check final claim selection semantic = do
    run_ids ← selected_runtime_run_ids selection
    manifests ← manifests_of H run_ids
    validate_runtime_finalization H (dict final) (dict claim) (dict selection) (dict semantic)
          (dict (fields manifests))
        >>= pass
    ok run_ids

  abbrev is_runtime : Fields → Bool
  is_runtime final = is_text (get "contract_version" final) "final-result/v2"

  abbrev final_check : Fields → Fields → Py (Unit {0})
  final_check final comparison =
      if is_runtime final
      then (read_content H "requirement_selection" >>= λ selection.
          read_content H "semantic_claim_support" >>= λ semantic.
          read_content H "claim_evidence" >>= λ claim.
          runtime_check final claim selection semantic >>= λ _. ok tt)
      else (V.validate_final_result (dict final) (dict comparison) >>= accept)

  unfoldable pub from_robustness_validated : Py Step
  from_robustness_validated = do
    final ← read_content H "final_result"
    comparison ← read_content H "model_comparison"
    final_check final comparison
    record_transition H state "FINAL_CANDIDATE" "GATE_FINAL_RUN" ("results/final_result.json" ∷ [])
        check

  -- `str(manifest_path.relative_to(case_root))`
  abbrev relative_file : String → Py String
  relative_file run_id =
      if is_absolute run_id then H.relative_to_root (run_file run_id) else ok (run_file run_id)

  -- The manifests that a claim rests on.
  abbrev claim_check : Fields → Fields → Fields → Py (List String)
  claim_check final claim semantic =
      if is_runtime final
      then (read_content H "requirement_selection" >>= λ selection.
          runtime_check final claim selection semantic >>= λ run_ids.
          ok (map manifest_path run_ids))
      else (let run_id = text_of H (get_or "run_id" (str "") claim) in
          let path = run_file run_id in
          require (H.is_file path) (value_error "RC_CLAIM_MANIFEST_MISSING")
          >> (load_json H path >>= λ manifest.
              (V.validate_claim (dict claim) manifest (dict final) state >>= accept)
              >> ((validate_semantic_claim_bundle (dict semantic) >>= pass)
                  >> (relative_file run_id >>= λ relative. ok (relative ∷ [])))))

  unfoldable pub from_final_candidate : Py Step
  from_final_candidate = do
    claim ← read_content H "claim_evidence"
    final ← read_content H "final_result"
    semantic ← read_content H "semantic_claim_support"
    manifests ← claim_check final claim semantic
    record_transition H state "EVIDENCE_VALIDATED" "GATE_CLAIM_EVIDENCE"
        ("evidence/claim_evidence.json" ∷ "evidence/semantic_claim_support.json" ∷ manifests) check

  unfoldable pub from_evidence_validated : Py Step
  from_evidence_validated = do
    handoff ← load_json H "handoff/modeling_to_paper.json"
    V.validate_handoff handoff state >>= accept
    record_transition H state "READY_FOR_PAPER_HANDOFF" "GATE_MODELING_TO_PAPER"
        ("handoff/modeling_to_paper.json" ∷ []) check
