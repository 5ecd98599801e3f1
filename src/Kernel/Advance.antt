-- ===== src/Kernel/Advance.antt =====
-- `advance_once`: the gate of the current state, and the step that it allows.
pub mod Early
pub mod Runs
pub mod Late
pub mod Moves
pub mod Order
pub mod DryRun
pub mod CheckMode
pub mod Writes
pub mod Current
pub mod Ledger
pub mod Pipeline
use cumcm.Base.{
  String, Bool, true, false, not, Option, none, some, List, [], ◌∷◌, ◌==◌, if◌then◌else◌,
}
use cumcm.Py.Exn.{Exn, Py, ok, raise, value_error, ◌>>=◌}
use cumcm.Py.Value.{Value, str, Fields}
use cumcm.Py.Dict.{item}
use cumcm.Kernel.Host.{Host}
use cumcm.Kernel.Load.{load_state}
use cumcm.Kernel.Stale.{StaleCheck, dependency_mismatches, stale_check}
use cumcm.Kernel.Transition.{Step}
use cumcm.Kernel.Validators.{Validators}
use Early.{
  from_created, from_intake_complete, from_requirements_validated, from_sources_planned,
  from_data_audited, from_models_proposed, from_plan_validated,
}
use Runs.{from_running, from_run_completed}
use Late.{
  from_run_validated, from_robustness_validated, from_final_candidate, from_evidence_validated,
}

abbrev no_transition : Py Step
no_transition = raise (value_error "RC_NO_FORWARD_TRANSITION_AVAILABLE")

unfoldable pub late_stage : Host → Validators → Fields → Bool → String → Py Step
late_stage H V state check current =
    if current == "RUN_VALIDATED"
    then from_run_validated H V state check
    else if current == "ROBUSTNESS_VALIDATED"
    then from_robustness_validated H V state check
    else if current == "FINAL_CANDIDATE"
    then from_final_candidate H V state check
    else if current == "EVIDENCE_VALIDATED"
    then from_evidence_validated H V state check
    else no_transition

unfoldable pub run_stage : Host → Validators → Fields → Bool → String → Py Step
run_stage H V state check current =
    if current == "MODELS_PROPOSED"
    then from_models_proposed H V state check
    else if current == "EXPERIMENT_PLAN_VALIDATED"
    then from_plan_validated H V state check
    else if current == "RUNNING"
    then from_running H V state check
    else if current == "RUN_COMPLETED"
    then from_run_completed H V state check
    else late_stage H V state check current

unfoldable pub early_stage : Host → Validators → Fields → Bool → String → Py Step
early_stage H V state check current =
    if current == "CREATED"
    then from_created H V state check
    else if current == "INTAKE_COMPLETE"
    then from_intake_complete H V state check
    else if current == "REQUIREMENTS_VALIDATED"
    then from_requirements_validated H V state check
    else if current == "SOURCES_PLANNED"
    then from_sources_planned H V state check
    else if current == "DATA_AUDITED"
    then from_data_audited H V state check
    else run_stage H V state check current

-- The chain of tests on `state["state"]`, none of which a value that is not a text passes.
unfoldable pub advance_from : Host → Validators → Fields → Bool → Value → Py Step
advance_from H V state check (str current) = early_stage H V state check current
advance_from H V state check _ = no_transition

unfoldable pub advance_state : Host → Validators → Fields → Bool → Py Step
advance_state H V state check = item "state" state >>= advance_from H V state check

-- What the call returns or raises, and what it has written to case_state.json.
pub record Outcome : Type 0 where
  pub result : Py Fields
  pub written : Option Fields

abbrev pub failed : Exn → Outcome
failed e = record { result = raise e; written = none }

abbrev pub stale_outcome : Py StaleCheck → Outcome
stale_outcome (ok check) = record {
  result = raise (value_error "RC_UPSTREAM_DEPENDENCY_STALE");
  written = check.written;
}
stale_outcome (raise e) = failed e

abbrev pub step_outcome : Py Step → Outcome
step_outcome (ok step) = record { result = ok step.updated; written = step.written }
step_outcome (raise e) = failed e

abbrev pub advance_current : Host → Validators → Bool → Fields → Py (List String) → Outcome
advance_current H V check state (raise e) = failed e
advance_current H V check state (ok []) = step_outcome (advance_state H V state check)
advance_current H V check state (ok (c ∷ cs)) = stale_outcome (stale_check H V (not check))

abbrev pub advance_loaded : Host → Validators → Bool → Py Fields → Outcome
advance_loaded H V check (raise e) = failed e
advance_loaded H V check (ok state) =
    advance_current H V check state (dependency_mismatches H V state)

unfoldable pub advance_once : Host → Validators → Bool → Outcome
advance_once H V check = advance_loaded H V check (load_state H)
