-- ===== src/Kernel/Contract/Assessment.antt =====
-- `validate_data_sufficiency_record`: the persisted preflight, and its explanations.
use cumcm.Base.{
  String, Bool, false, not, ◌&&◌, List, [], ◌∷◌, all, eqb, length, map, same_set, if◌then◌else◌,
}
use cumcm.Py.Exn.{Py, ok, ◌>>=◌}
use cumcm.Py.Value.{
  Value, null, list, dict, Items, Fields, elements, keys, eq, is_list, is_str, is_text,
}
use cumcm.Py.Dict.{get, get_or}
use cumcm.Py.Member.{iterate, and_then, member_text}
use cumcm.Py.Records.{dicts, set_of, any_of, count_values, same_values}
use cumcm.Kernel.Host.{Host}
use cumcm.Kernel.Gate.{ContractResult, contract_result}
use cumcm.Kernel.Contract.{role_of}
use cumcm.Kernel.Contract.Evaluate.{evaluate_data_sufficiency}

abbrev data_sufficiency_statuses : List String
data_sufficiency_statuses =
    "SUFFICIENT" ∷ "ACQUISITION_REQUIRED" ∷ "PARTIAL" ∷ "UNSATISFIABLE_WITH_CURRENT_INPUTS"
    ∷ "UNKNOWN" ∷ []

abbrev listed_fields : List String
listed_fields =
    "missing_fields" ∷ "missing_entities" ∷ "missing_time_scope" ∷ "candidate_sources"
    ∷ "allowed_substitutions" ∷ "forbidden_substitutions" ∷ "affected_downstream_stages" ∷ []

abbrev data_assessment_fields : List String
data_assessment_fields =
    "requirement_id" ∷ "data_sufficiency_status" ∷ "acquisition_cost" ∷ "acquisition_time"
    ∷ listed_fields

abbrev assessment_ok : Value → Py Bool
assessment_ok (dict item) = and_then (same_set (keys item) data_assessment_fields) (
    member_text (get "data_sufficiency_status" item) data_sufficiency_statuses >>= λ known. ok (
      known
      && all (λ key. is_list (get key item)) listed_fields
      && is_str (get "acquisition_cost" item)
      && is_str (get "acquisition_time" item)))
assessment_ok v = ok false

abbrev pub primary_of : List Fields → List Value
primary_of [] = []
primary_of (fs ∷ r) =
    let rest = primary_of r in
    if is_text (role_of fs) "PRIMARY" then get "requirement_id" fs ∷ rest else rest

unfoldable pub assessments_ok : List Value → Value → Py Bool
assessments_ok primary (list xs) = and_then (eqb (length (elements xs)) (count_values primary)) (
    set_of (map (get "requirement_id") (dicts (elements xs))) >>= λ named.
    and_then (same_values named primary) (
      any_of (λ v. assessment_ok v >>= λ good. ok (not good)) (elements xs) >>= λ bad.
      ok (not bad)))
assessments_ok primary v = ok false

abbrev block : String → Py ContractResult
block code = ok (contract_result "BLOCK" (code ∷ []))

-- `expected is not None and value != expected`
abbrev pub differs : Value → Value → Bool
differs null v = false
differs expected v = not (eq v expected)

abbrev pub recorded_outcome : Host → Fields → Py ContractResult
recorded_outcome H record' = evaluate_data_sufficiency H (dict record') >>= λ outcome.
    iterate (get_or "requirements" (list Items.nil) record') >>= λ requirements.
    set_of (primary_of (dicts requirements)) >>= λ primary.
    assessments_ok primary (get "requirement_assessments" record') >>= λ good.
    if good then ok outcome else block "RC_DATA_SUFFICIENCY_ASSESSMENT_INVALID"

-- For `None` as the requirements or the sources, `null`.
unfoldable pub validate_data_sufficiency_record : Host → Value → Value → Value → Py ContractResult
validate_data_sufficiency_record H (dict record') requirements sources =
    if not (is_text (get "contract_version" record') "data-sufficiency/v1")
    then block "RC_DATA_SUFFICIENCY_RECORD_INVALID"
    else if differs requirements (get "requirements" record')
    then block "RC_DATA_SUFFICIENCY_REQUIREMENT_BINDING_MISMATCH"
    else if differs sources (get "sources" record')
    then block "RC_DATA_SUFFICIENCY_SOURCE_BINDING_MISMATCH"
    else recorded_outcome H record'
validate_data_sufficiency_record H v requirements sources =
    block "RC_DATA_SUFFICIENCY_RECORD_INVALID"
