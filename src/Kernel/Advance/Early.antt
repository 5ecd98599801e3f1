-- ===== src/Kernel/Advance/Early.antt =====
-- The stages of `advance_once` before a run: intake, requirements, sources, data audit, models,
-- experiment plan.
use cumcm.Base.{
  ℕ, String, Bool, false, ◌&&◌, ◌||◌, List, [], ◌∷◌, ◌==◌, eqb, leb, length, all, if◌then◌else◌,
  suc,
}
use cumcm.Py.Exn.{Py, ok, raise, value_error, ◌>>=◌, ◌>>◌, require}
use cumcm.Py.Value.{Value, str, list, dict, Fields, end, field, elements, eq, is_text, truthy}
use cumcm.Py.Dict.{get, get_or, item}
use cumcm.Py.Member.{iterate}
use cumcm.Kernel.Host.{Host, file_hash, relative_case_path}
use cumcm.Kernel.Gate.{sorted_set}
use cumcm.Kernel.State.{hex64_value}
use cumcm.Kernel.Load.{read_content, accept, join}
use cumcm.Kernel.Transition.{Step, record_transition}
use cumcm.Kernel.Contract.Assessment.{validate_data_sufficiency_record}
use cumcm.Kernel.Validators.{Validators}

module _ (H : Host) where
  unfoldable pub hash_matches : String → Value → Bool
  hash_matches path expected =
      relative_case_path H.below_case_root path
      && H.is_file path
      && eq (str (file_hash H path)) expected

  abbrev pub data_paths : Fields → Py (List String)
  data_paths end = ok []
  data_paths (field path expected r) =
      require (hash_matches path expected) (value_error "RC_DATA_AUDIT_HASH_MISMATCH")
      >> (data_paths r >>= λ paths. ok (path ∷ paths))

module _ (H : Host) (V : Validators) (state : Fields) (check : Bool) where
  unfoldable pub from_created : Py Step
  from_created = do
    content ← read_content H "problem_requirements"
    case_id ← item "case_id" state
    require (eq (get "case_id" content) case_id && truthy (get "requirements" content))
        (value_error "RC_INTAKE_REQUIREMENTS_INVALID")
    record_transition H state "INTAKE_COMPLETE" "GATE_PROBLEM_INTAKE"
        ("problem/problem_requirements.json" ∷ []) check

  abbrev has_requirement_id : Value → Bool
  has_requirement_id (dict fs) = truthy (get "requirement_id" fs)
  has_requirement_id _ = false

  unfoldable pub from_intake_complete : Py Step
  from_intake_complete = do
    content ← read_content H "problem_requirements"
    requirements ← item "requirements" content
    records ← iterate requirements
    require (all has_requirement_id records) (value_error "RC_REQUIREMENT_TRACE_INVALID")
    record_transition H state "REQUIREMENTS_VALIDATED" "GATE_REQUIREMENT_COVERAGE"
        ("problem/problem_requirements.json" ∷ []) check

  abbrev answer_allowed : Fields → Fields → Bool
  answer_allowed research ledger =
      is_text (get "answer_access_status" ledger) "NOT_ACCESSED"
      || (is_text (get "answer_access_status" ledger) "UNLOCKED_AFTER_FIRST_RUN"
          && is_text (get "mode" research) "DEVELOPMENT_REGRESSION"
          && hex64_value (get_or "first_run_freeze_sha256" (str "") research))

  unfoldable pub from_requirements_validated : Py Step
  from_requirements_validated = do
    research ← read_content H "research_plan"
    ledger ← read_content H "source_ledger"
    require (answer_allowed research ledger) (value_error "RC_ANSWER_ACCESS_PROHIBITED")
    record_transition H state "SOURCES_PLANNED" "GATE_SOURCE_PLAN"
        ("research/research_plan.json" ∷ "research/source_ledger.json" ∷ []) check

  abbrev data_hashes : Value → Py Fields
  data_hashes (dict fs) = ok fs
  data_hashes _ = raise (value_error "RC_DATA_AUDIT_INVALID")

  unfoldable pub from_sources_planned : Py Step
  from_sources_planned = do
    read_content H "assumptions_and_symbols" >>= λ _. ok tt
    audit ← read_content H "data_audit"
    require (truthy (get "raw_immutable" audit) && truthy (get "data_hashes" audit))
        (value_error "RC_DATA_AUDIT_INVALID")
    hashes ← data_hashes (get "data_hashes" audit)
    paths ← data_paths H hashes
    record_transition H state "DATA_AUDITED" "GATE_ASSUMPTIONS_AND_DATA"
        ("models/assumptions_and_symbols.json" ∷ "data/data_audit.json" ∷ sorted_set paths) check

  abbrev count_baselines : List Value → ℕ
  count_baselines [] = 0
  count_baselines (dict fs ∷ r) =
      let rest = count_baselines r in if truthy (get "baseline" fs) then suc rest else rest
  count_baselines (v ∷ r) = count_baselines r

  abbrev portfolio_ok : Value → Bool
  portfolio_ok (list xs) = leb 2 (length (elements xs)) && eqb (count_baselines (elements xs)) 1
  portfolio_ok _ = false

  unfoldable pub from_data_audited : Py Step
  from_data_audited = do
    requirements ← read_content H "problem_requirements"
    ledger ← read_content H "source_ledger"
    sufficiency ← read_content H "data_sufficiency"
    result ←
        validate_data_sufficiency_record H (dict sufficiency) (get "requirements" requirements)
          (get "sources" ledger)
    require (result.status == "SUFFICIENT" || result.status == "PARTIAL")
        (value_error (join result.reason_codes))
    models ← read_content H "model_candidates"
    require (portfolio_ok (get "candidates" models))
        (value_error "RC_MODEL_PORTFOLIO_OR_BASELINE_INVALID")
    record_transition H state "MODELS_PROPOSED" "GATE_MODEL_PORTFOLIO"
        ("data/data_sufficiency.json" ∷ "models/model_candidates.json" ∷ []) check

  unfoldable pub from_models_proposed : Py Step
  from_models_proposed = do
    (probe, relative) ← V.preflight_output_contract
    accept probe
    plan ← read_content H "experiment_plan"
    require (truthy (get "preregistered" plan) && truthy (get "execution_prepared" plan))
        (value_error "RC_EXPERIMENT_PLAN_NOT_PREREGISTERED")
    V.trusted_freezes >>= λ _. ok tt
    record_transition H state "EXPERIMENT_PLAN_VALIDATED" "GATE_EXPERIMENT_PLAN"
        ("experiments/experiment_plan.json" ∷ relative ∷ []) check

  unfoldable pub from_plan_validated : Py Step
  from_plan_validated =
      record_transition H state "RUNNING" "GATE_EXECUTION_AUTHORIZED"
        ("experiments/experiment_plan.json" ∷ []) check
