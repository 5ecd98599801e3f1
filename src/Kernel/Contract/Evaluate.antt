-- ===== src/Kernel/Contract/Evaluate.antt =====
-- `evaluate_data_sufficiency`: the verdict on one requirement, and on all of them.
use cumcm.Base.{
  ℕ, String, Bool, true, false, not, ◌&&◌, ◌||◌, List, [], ◌∷◌, ◌++◌, ◌==◌, all, any, contains,
  subset, length, ltb, if◌then◌else◌, inl, inr, suc,
}
use cumcm.Py.Exn.{Py, ok, ◌>>=◌}
use cumcm.Py.Value.{
  Value, list, dict, Fields, elements, eq, is_list, is_dict, is_text, is_true, is_false, truthy,
}
use cumcm.Py.Dict.{get, has}
use cumcm.Py.Records.{dicts}
use cumcm.Py.Member.{and_then, member, member_text}
use cumcm.Kernel.Host.{Host}
use cumcm.Kernel.Gate.{ContractResult, contract_result}
use cumcm.Kernel.Contract.{
  empirical_evidence_classes, strings, text_of, source_provenance_complete, requirement_terms_ok,
  role_of, is_new_name,
}
use cumcm.Kernel.Contract.Sufficiency.{
  complete_acquisition_plan, Finding, invalid, auxiliary, sufficient, acquisition, lacking, narrow,
  Coverage, covering,
}

abbrev pub is_empty : List Fields → Bool
is_empty [] = true
is_empty (x ∷ xs) = false

-- `requirement_id in (item.get("supports_requirement_ids") or [])`
abbrev pub supports : Value → Fields → Py Bool
supports name source =
    let ids = get "supports_requirement_ids" source in
    if truthy ids then member name ids else ok false

abbrev pub select : (Fields → Py Bool) → List Fields → Py (List Fields)
select test [] = ok []
select test (fs ∷ r) =
    test fs >>= λ taken. select test r >>= λ rest. ok (if taken then fs ∷ rest else rest)

abbrev plans_for : Value → List Fields → List Fields
plans_for name [] = []
plans_for name (plan ∷ r) =
    let rest = plans_for name r in if eq (get "requirement_id" plan) name then plan ∷ rest else rest

abbrev one_complete_plan : Fields → List Fields → Bool
one_complete_plan requirement (plan ∷ []) = complete_acquisition_plan plan requirement
one_complete_plan requirement _ = false

abbrev pub class_match : List String → List String → Fields → Py Bool
class_match required allowed source =
    member_text (get "evidence_class" source) required >>= λ asked.
    and_then asked (member_text (get "evidence_class" source) allowed)

abbrev any_of_class : String → List Fields → Bool
any_of_class name sources = any (λ source. is_text (get "evidence_class" source) name) sources

-- No source has a class that the requirement asks for.
abbrev pub unmatched : Fields → List Fields → List Fields → Finding
unmatched requirement [] plans =
    if not (is_true (get "external_data_required" requirement))
    then lacking "RC_REQUIREMENT_EMPIRICAL_DATA_MISSING"
    else if is_empty plans
    then lacking "RC_DATA_ACQUISITION_PLAN_MISSING"
    else if any (λ plan. is_text (get "status" plan) "PLANNED") plans
    then acquisition
    else lacking "RC_REQUIREMENT_EMPIRICAL_DATA_MISSING"
unmatched requirement (s ∷ relevant) plans =
    if any (contains empirical_evidence_classes)
        (strings (get "required_evidence_classes" requirement))
      && any_of_class "SIMULATION" (s ∷ relevant)
    then lacking "RC_SIMULATION_CANNOT_SUPPORT_EMPIRICAL_CLAIM"
    else lacking "RC_REQUIREMENT_EVIDENCE_CLASS_INSUFFICIENT"

-- `required <= set().union(...)`, and `required <= set.intersection(...)`.
abbrev pub fields_ok : Fields → List Fields → Bool
fields_ok requirement sources =
    all (λ f. any (λ source. contains (strings (get "field_schema" source)) f) sources)
      (strings (get "minimum_data_fields" requirement))

abbrev pub scope_ok : String → String → Fields → List Fields → Bool
scope_ok wanted scope requirement sources =
    all (λ source. subset (strings (get wanted requirement)) (strings (get scope source))) sources

abbrev pub scope_codes : Fields → List Fields → List String
scope_codes requirement sources =
    (if fields_ok requirement sources
      then []
      else "RC_REQUIREMENT_MINIMUM_FIELDS_INSUFFICIENT" ∷ [])
    ++ (if scope_ok "required_time_scope" "time_scope" requirement sources
        then []
        else "RC_REQUIREMENT_TIME_SCOPE_INSUFFICIENT" ∷ [])
    ++ (if scope_ok "required_entity_scope" "entity_scope" requirement sources
        then []
        else "RC_REQUIREMENT_ENTITY_SCOPE_INSUFFICIENT" ∷ [])

abbrev pub scoped : List String → Finding
scoped [] = sufficient
scoped (c ∷ cs) = narrow (c ∷ cs)

abbrev pub coverage_finding : Fields → Coverage → Finding
coverage_finding requirement (inl code) = lacking code
coverage_finding requirement (inr sources) = scoped (scope_codes requirement sources)

-- The entries of the payload, once they are lists and dictionaries.
pub record Inputs : Type 0 where
  pub sources : List Fields
  pub plans : List Fields
  pub strict : Bool
  pub modes : Fields
  pub compositions : List Fields

module _ (H : Host) (inputs : Inputs) where
  abbrev pub coverage_of : Fields → List Fields → Py Coverage
  coverage_of requirement matches =
      if inputs.strict
      then covering H inputs.sources inputs.compositions matches
          (strings (get "minimum_data_fields" requirement))
          (get (text_of (get "requirement_id" requirement)) inputs.modes)
      else ok (inr matches)

  abbrev pub matched : Fields → List Fields → List Fields → List Fields → Py Finding
  matched requirement relevant plans [] = ok (unmatched requirement relevant plans)
  matched requirement relevant plans (s ∷ matches) =
      coverage_of requirement (s ∷ matches) >>= λ c. ok (coverage_finding requirement c)

  abbrev pub weighed : Fields → List Fields → List Fields → Py Finding
  weighed requirement relevant plans =
      if inputs.strict
        && is_false (get "external_data_allowed" requirement)
        && any_of_class "ACQUIRED_EMPIRICAL" relevant
      then ok (lacking "RC_EXTERNAL_DATA_POLICY_FORBIDDEN")
      else if inputs.strict
          && is_true (get "external_data_required" requirement)
          && not (one_complete_plan requirement plans)
      then ok (lacking "RC_DATA_ACQUISITION_PLAN_INCOMPLETE")
      else if not (all source_provenance_complete relevant)
      then ok (lacking "RC_DATA_PROVENANCE_INCOMPLETE")
      else (select
            (class_match (strings (get "required_evidence_classes" requirement))
              (strings (get "allowed_evidence_classes" requirement)))
            relevant
          >>= matched requirement relevant plans)

  abbrev pub judge_primary : Fields → Py Finding
  judge_primary requirement =
      if not (requirement_terms_ok requirement)
      then ok invalid
      else (select (supports (get "requirement_id" requirement)) inputs.sources >>= λ relevant.
          weighed requirement relevant (plans_for (get "requirement_id" requirement) inputs.plans))

  -- A requirement whose name is new.
  unfoldable pub judge : Fields → Py Finding
  judge requirement =
      if is_text (role_of requirement) "PRIMARY" then judge_primary requirement else ok auxiliary

  abbrev pub judge_new : List String → Fields → Py Finding
  judge_new names requirement =
      if is_new_name names (get "requirement_id" requirement) then judge requirement else ok invalid

  abbrev pub named_too : List String → Fields → List String
  named_too names requirement =
      if is_new_name names (get "requirement_id" requirement)
      then text_of (get "requirement_id" requirement) ∷ names
      else names

  -- The finding on each requirement, in order.
  unfoldable pub judge_all : List String → List Value → Py (List (Value × Finding))
  judge_all names [] = ok []
  judge_all names (dict requirement ∷ r) = judge_new names requirement >>= λ finding.
      judge_all (named_too names requirement) r >>= λ rest. ok ((dict requirement, finding) ∷ rest)
  judge_all names (v ∷ r) = judge_all names r >>= λ rest. ok ((v, invalid) ∷ rest)

abbrev pub codes_of : Finding → List String
codes_of invalid = "RC_DATA_SUFFICIENCY_INPUT_INVALID" ∷ []
codes_of (lacking code) = code ∷ []
codes_of (narrow codes) = codes
codes_of _ = []

abbrev pub all_codes : List (Value × Finding) → List String
all_codes [] = []
all_codes ((v, finding) ∷ r) = codes_of finding ++ all_codes r

abbrev pub is_incomplete : Finding → Bool
is_incomplete acquisition = true
is_incomplete (lacking code) = true
is_incomplete (narrow codes) = true
is_incomplete _ = false

abbrev pub is_acquisition : Finding → Bool
is_acquisition acquisition = true
is_acquisition _ = false

abbrev pub incomplete : List (Value × Finding) → List Value
incomplete [] = []
incomplete ((v, finding) ∷ r) =
    let rest = incomplete r in if is_incomplete finding then v ∷ rest else rest

abbrev pub any_acquisition : List (Value × Finding) → Bool
any_acquisition [] = false
any_acquisition ((v, finding) ∷ r) = is_acquisition finding || any_acquisition r

abbrev pub hard_block : List String
hard_block =
    "RC_DATA_SUFFICIENCY_INPUT_INVALID" ∷ "RC_DATA_PROVENANCE_INCOMPLETE"
    ∷ "RC_DATA_ACQUISITION_PLAN_INVALID" ∷ "RC_DATA_ACQUISITION_PLAN_MISSING"
    ∷ "RC_DATA_ACQUISITION_PLAN_INCOMPLETE" ∷ "RC_DATA_SOURCE_COMPOSITION_INVALID"
    ∷ "RC_DATA_SOURCE_COMPOSITION_UNREGISTERED" ∷ "RC_EXTERNAL_DATA_POLICY_FORBIDDEN" ∷ []

abbrev pub may_be_partial : Value → Bool
may_be_partial (dict fs) = is_true (get "partial_completion_allowed" fs)
may_be_partial v = false

abbrev pub count_primary : List Fields → ℕ
count_primary [] = 0
count_primary (fs ∷ r) =
    let rest = count_primary r in if is_text (role_of fs) "PRIMARY" then suc rest else rest

abbrev pub aggregate : String
aggregate = "RC_AGGREGATE_PRIMARY_REQUIREMENT_INCOMPLETE"

-- The status behind the hard blocks, by what is incomplete.
abbrev pub settled : Fields → List Value → List (Value × Finding) → List Value → ContractResult
settled payload requirements findings [] = contract_result "SUFFICIENT" []
settled payload requirements findings (v ∷ vs) =
    if is_true (get "aggregate_completion_claimed" payload)
    then contract_result "BLOCK" (aggregate ∷ [])
    else if any_acquisition findings && all (λ c. c == aggregate) (all_codes findings)
    then contract_result "ACQUISITION_REQUIRED" []
    else if any may_be_partial (v ∷ vs)
        && ltb (length (v ∷ vs)) (count_primary (dicts requirements))
    then contract_result "PARTIAL" (aggregate ∷ [])
    else contract_result "UNSATISFIABLE_WITH_CURRENT_INPUTS" (all_codes findings)

unfoldable pub data_status : Fields → List Value → List (Value × Finding) → ContractResult
data_status payload requirements findings =
    if any (contains hard_block) (all_codes findings)
    then contract_result "BLOCK" (all_codes findings)
    else settled payload requirements findings (incomplete findings)

abbrev pub is_strict : Fields → Bool
is_strict payload = has "coverage_mode_by_requirement" payload || has "source_compositions" payload

abbrev pub list_of : Value → List Value
list_of (list xs) = elements xs
list_of v = []

abbrev pub fields_of : Value → Fields
fields_of (dict fs) = fs
fields_of v = Fields.end

abbrev pub inputs_of : Fields → Inputs
inputs_of payload = record {
  sources = dicts (list_of (get "sources" payload));
  plans = dicts (list_of (get "acquisition_plans" payload));
  strict = is_strict payload;
  modes = fields_of (get "coverage_mode_by_requirement" payload);
  compositions = dicts (list_of (get "source_compositions" payload));
}

unfoldable pub evaluate_data_sufficiency : Host → Value → Py ContractResult
evaluate_data_sufficiency H (dict payload) =
    let requirements = get "requirements" payload in
    if not (is_list requirements && truthy requirements && is_list (get "sources" payload))
    then ok (contract_result "BLOCK" ("RC_DATA_SUFFICIENCY_INPUT_INVALID" ∷ []))
    else if not (is_list (get "acquisition_plans" payload))
    then ok (contract_result "BLOCK" ("RC_DATA_ACQUISITION_PLAN_INVALID" ∷ []))
    else if is_strict payload
        && not (
            is_dict (get "coverage_mode_by_requirement" payload)
            && is_list (get "source_compositions" payload))
    then ok (contract_result "BLOCK" ("RC_DATA_SUFFICIENCY_INPUT_INVALID" ∷ []))
    else (judge_all H (inputs_of payload) [] (list_of requirements) >>= λ findings.
        ok (data_status payload (list_of requirements) findings))
evaluate_data_sufficiency H v =
    ok (contract_result "BLOCK" ("RC_DATA_SUFFICIENCY_INPUT_INVALID" ∷ []))
