-- ===== src/Kernel/Tests/Commands.antt =====
-- Commands on a case whose file is gone, and on a case that stands before the handoff.
use cumcm.Base.{
  ◌++◌, eqb, String, ◌≡◌, refl, true, false, none, some, [], ◌∷◌, ◌==◌, List, if◌then◌else◌,
}
use cumcm.Py.Exn.{ok, raise, value_error, os_error}
use cumcm.Py.Value.{Value, null, str, dict, Fields, fields}
use cumcm.Py.Dict.{set, update}
use cumcm.Kernel.Tables.{transition_gates}
use cumcm.Kernel.Host.{Host}
use cumcm.Kernel.Gate.{passed, sorted_set}
use cumcm.Kernel.State.Validate.{validate_case_state}
use cumcm.Kernel.Load.{load_state, load_json, read_content, validate_artifact}
use cumcm.Kernel.Stale.{dependency_mismatches, file_mismatches, manifest_bindings}
use cumcm.Kernel.Transition.{history_record, moved}
use cumcm.Kernel.Validators.{Validators}
use cumcm.Kernel.Advance.{
  advance_once, advance_state, advance_from, early_stage, run_stage, late_stage,
}
use cumcm.Kernel.Advance.Late.{from_robustness_validated, from_evidence_validated}
use cumcm.Kernel.State.{history_of}
use cumcm.Kernel.Transition.{record_transition}
use cumcm.Kernel.Host.{canonical_hash, file_hash}
use cumcm.Kernel.Boundary.{key_findings, text_findings, sensitive_findings}
use cumcm.Py.Value.{eq}
use cumcm.Kernel.CommandLine.{
  advance_from_state, validate_answer, loaded_state, Command, Externals, answer, main,
}
use cumcm.Kernel.CommandLine.Exits.{IsStepFrom, main-finalize, main-handoff}
use cumcm.Kernel.Tests.{start, zeros, validators, host_at}

abbrev externals : Externals
externals = record {
  write_templates = ok tt;
  run_smoke = raise os_error;
  execute_case_code = raise os_error;
  seal_captured_run = raise os_error;
  message = λ e. "";
  type_name = λ e. "OSError";
}

abbrev history : List Value
history =
    history_record 0 null "CREATED" "INIT" "PASS" []
    ∷ history_record 1 (str "CREATED") "INTAKE_COMPLETE" "GATE_PROBLEM_INTAKE" "PASS" []
    ∷ history_record 2 (str "INTAKE_COMPLETE") "REQUIREMENTS_VALIDATED" "GATE_REQUIREMENT_COVERAGE"
        "PASS" []
    ∷ history_record 3 (str "REQUIREMENTS_VALIDATED") "SOURCES_PLANNED" "GATE_SOURCE_PLAN" "PASS" []
    ∷ history_record 4 (str "SOURCES_PLANNED") "DATA_AUDITED" "GATE_ASSUMPTIONS_AND_DATA" "PASS" []
    ∷ history_record 5 (str "DATA_AUDITED") "MODELS_PROPOSED" "GATE_MODEL_PORTFOLIO" "PASS" []
    ∷ history_record 6 (str "MODELS_PROPOSED") "EXPERIMENT_PLAN_VALIDATED" "GATE_EXPERIMENT_PLAN"
        "PASS" []
    ∷ history_record 7 (str "EXPERIMENT_PLAN_VALIDATED") "RUNNING" "GATE_EXECUTION_AUTHORIZED"
        "PASS" []
    ∷ history_record 8 (str "RUNNING") "RUN_COMPLETED" "GATE_RUN_COMPLETION" "PASS" []
    ∷ history_record 9 (str "RUN_COMPLETED") "RUN_VALIDATED" "GATE_REPRODUCIBILITY_MANIFEST" "PASS"
        []
    ∷ history_record 10 (str "RUN_VALIDATED") "ROBUSTNESS_VALIDATED"
        "GATE_COMPARISON_AND_ROBUSTNESS" "PASS" []
    ∷ []

abbrev long_history : List Value
long_history =
    history
    ++ (history_record 11 (str "ROBUSTNESS_VALIDATED") "FINAL_CANDIDATE" "GATE_FINAL_RUN" "PASS" []
        ∷ history_record 12 (str "FINAL_CANDIDATE") "EVIDENCE_VALIDATED" "GATE_CLAIM_EVIDENCE"
            "PASS" []
        ∷ [])

abbrev robust : Fields
robust = moved start "ROBUSTNESS_VALIDATED" "GATE_COMPARISON_AND_ROBUSTNESS" (fields []) history

abbrev evidenced : Fields
evidenced = moved start "EVIDENCE_VALIDATED" "GATE_CLAIM_EVIDENCE" (fields []) long_history

robust_accepted :
    (H : Host) → validate_case_state H (dict robust) ≡ ok (passed "RC_CASE_STATE_VALID")
unfolding validate_case_state set passed cumcm.Kernel.State.Validate.state_codes
    cumcm.Kernel.Boundary.sensitive_findings cumcm.Kernel.Boundary.key_findings
    cumcm.Kernel.Boundary.text_findings cumcm.Kernel.State.identity_ok cumcm.Kernel.State.header_ok
    cumcm.Py.Text.is_case_id cumcm.Kernel.State.bindings_ok
    cumcm.Kernel.State.Validate.history_codes cumcm.Kernel.State.up_to cumcm.Py.Value.eq
    cumcm.Kernel.State.records_ok cumcm.Kernel.State.record_ok transition_gates
    cumcm.Kernel.Gate.blocked cumcm.Kernel.State.Validate.history_evidence
    cumcm.Kernel.State.records_evidence cumcm.Kernel.Host.relative_case_path cumcm.Py.Text.hex64
robust_accepted H = refl

evidenced_accepted :
    (H : Host) → validate_case_state H (dict evidenced) ≡ ok (passed "RC_CASE_STATE_VALID")
unfolding validate_case_state set passed cumcm.Kernel.State.Validate.state_codes
    cumcm.Kernel.Boundary.sensitive_findings cumcm.Kernel.Boundary.key_findings
    cumcm.Kernel.Boundary.text_findings cumcm.Kernel.State.identity_ok cumcm.Kernel.State.header_ok
    cumcm.Py.Text.is_case_id cumcm.Kernel.State.bindings_ok
    cumcm.Kernel.State.Validate.history_codes cumcm.Kernel.State.up_to cumcm.Py.Value.eq
    cumcm.Kernel.State.records_ok cumcm.Kernel.State.record_ok transition_gates
    cumcm.Kernel.Gate.blocked cumcm.Kernel.State.Validate.history_evidence
    cumcm.Kernel.State.records_evidence cumcm.Kernel.Host.relative_case_path cumcm.Py.Text.hex64
evidenced_accepted H = refl

abbrev artifact : String → Value
artifact kind = dict (
    fields (
      ("artifact_type", str kind)
      ∷ ("status", str "ACCEPTED")
      ∷ ("content_hash", str zeros)
      ∷ ("content", dict (fields (("status", str "FINAL_CANDIDATE") ∷ [])))
      ∷ []))

-- The host whose files are the state and the artifacts of the last stages.
abbrev case_at : Fields → Host
case_at state = record (host_at state) {
  is_file = λ path. true;
  exists = λ path. true;
  relative_to_root = λ path. raise (value_error "");
  bytes = λ path.
      if path == "case_state.json"
      then 1 ∷ []
      else if path == "results/final_result.json"
      then 2 ∷ []
      else 3 ∷ [];
  loads = λ b. ok (elim b [
    | [] ↦ null
    | ◌∷◌ n r ↦
        if eqb n 1
        then dict state
        else if eqb n 2
        then artifact "final_result"
        else artifact "model_comparison"
  ]);
}

abbrev agreeing : Validators
agreeing = record validators {
  validate_final_result = λ a b. ok (passed "RC_FINAL_RESULT_VALID");
  validate_handoff = λ a f. ok (passed "RC_HANDOFF_VALID");
}

robust_loaded : load_state (case_at robust) ≡ ok robust
unfolding load_state load_json passed
robust_loaded = rw (robust_accepted (case_at robust)) refl

evidenced_loaded : load_state (case_at evidenced) ≡ ok evidenced
unfolding load_state load_json passed
evidenced_loaded = rw (evidenced_accepted (case_at evidenced)) refl

robust_current : dependency_mismatches (case_at robust) agreeing robust ≡ ok []
unfolding dependency_mismatches file_mismatches manifest_bindings sorted_set set
robust_current = refl

evidenced_current : dependency_mismatches (case_at evidenced) agreeing evidenced ≡ ok []
unfolding dependency_mismatches file_mismatches manifest_bindings sorted_set set
evidenced_current = refl

abbrev final_candidate : Fields
final_candidate =
    moved robust "FINAL_CANDIDATE" "GATE_FINAL_RUN"
      (fields (("results/final_result.json", str zeros) ∷ []))
      (history
        ++ history_record 11 (str "ROBUSTNESS_VALIDATED") "FINAL_CANDIDATE" "GATE_FINAL_RUN" "PASS"
            ("results/final_result.json" ∷ [])
          ∷ [])

robust_ran :
    advance_state (case_at robust) agreeing robust false
    ≡ ok (record { updated = final_candidate; written = some final_candidate })
unfolding advance_state advance_from early_stage run_stage late_stage from_robustness_validated
    read_content load_json validate_artifact canonical_hash key_findings text_findings
    sensitive_findings passed record_transition update file_hash set eq
robust_ran = refl

robust_advanced : (advance_once (case_at robust) agreeing false).result ≡ ok final_candidate
unfolding advance_once
robust_advanced = rw (robust_loaded, robust_current, robust_ran) refl

robust_state : loaded_state (case_at robust) ≡ ok (str "ROBUSTNESS_VALIDATED")
unfolding set
robust_state = rw robust_loaded refl

finalized : (main (case_at robust) agreeing externals (Command.finalize false)).exit_code ≡ 0
unfolding main answer advance_from_state validate_answer
finalized = rw (robust_state, robust_advanced) refl

abbrev ready : Fields
ready =
    moved evidenced "READY_FOR_PAPER_HANDOFF" "GATE_MODELING_TO_PAPER"
      (fields (("handoff/modeling_to_paper.json", str zeros) ∷ []))
      (long_history
        ++ history_record 13 (str "EVIDENCE_VALIDATED") "READY_FOR_PAPER_HANDOFF"
            "GATE_MODELING_TO_PAPER" "PASS" ("handoff/modeling_to_paper.json" ∷ [])
          ∷ [])

evidenced_ran :
    advance_state (case_at evidenced) agreeing evidenced true
    ≡ ok (record { updated = ready; written = none })
unfolding advance_state advance_from early_stage run_stage late_stage from_evidence_validated
    read_content load_json validate_artifact canonical_hash key_findings text_findings
    sensitive_findings passed record_transition update file_hash set eq
evidenced_ran = refl

evidenced_advanced : (advance_once (case_at evidenced) agreeing true).result ≡ ok ready
unfolding advance_once
evidenced_advanced = rw (evidenced_loaded, evidenced_current, evidenced_ran) refl

evidenced_state : loaded_state (case_at evidenced) ≡ ok (str "EVIDENCE_VALIDATED")
unfolding set
evidenced_state = rw evidenced_loaded refl

handed : (main (case_at evidenced) agreeing externals (Command.handoff true)).exit_code ≡ 0
unfolding main answer advance_from_state validate_answer
handed = rw (evidenced_state, evidenced_advanced) refl

main-finalize_example :
    IsStepFrom
      (case_at robust)
      agreeing
      "ROBUSTNESS_VALIDATED"
      "FINAL_CANDIDATE"
      false
      (answer (case_at robust) agreeing externals (Command.finalize false)).written
main-finalize_example = main-finalize (case_at robust) agreeing externals false finalized

main-handoff_example :
    IsStepFrom
      (case_at evidenced)
      agreeing
      "EVIDENCE_VALIDATED"
      "READY_FOR_PAPER_HANDOFF"
      true
      (answer (case_at evidenced) agreeing externals (Command.handoff true)).written
main-handoff_example = main-handoff (case_at evidenced) agreeing externals true handed
