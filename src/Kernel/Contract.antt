-- ===== src/Kernel/Contract.antt =====
-- The gates that are functions of one JSON value: what requirements and sources must be, and whether
-- the sources suffice for the requirements.
pub mod Verdict
pub mod Sufficiency
pub mod Evaluate
pub mod Chosen
pub mod Backed
pub mod Covered
pub mod Assessed
pub mod Selection
pub mod Serving
pub mod Selected
pub mod Claims
pub mod Bundle
pub mod Supported
pub mod Assessment
use cumcm.Base.{
  String, Bool, true, false, not, ◌&&◌, ◌||◌, Option, none, some, List, [], ◌∷◌, ◌++◌, ◌==◌, all,
  any, contains, subset, same_set, if◌then◌else◌,
}
use cumcm.Py.Exn.{Py, ok, raise, type_error, ◌>>=◌}
use cumcm.Py.Value.{
  Value, null, bool, str, list, dict, Items, Fields, end, field, elements, keys, is_str, is_bool,
  is_list, is_text, truthy,
}
use cumcm.Py.Dict.{get, get_or}
use cumcm.Py.Member.{hashable, and_then, member_text}
use cumcm.Kernel.Boundary.{all_texts, text_elements}
use cumcm.Kernel.State.{hex64_value}
use cumcm.Kernel.Gate.{ContractResult, contract_result}

abbrev pub empirical_evidence_classes : List String
empirical_evidence_classes = "PROVIDED_EMPIRICAL" ∷ "ACQUIRED_EMPIRICAL" ∷ "DERIVED_EMPIRICAL" ∷ []

abbrev pub evidence_classes : List String
evidence_classes =
    empirical_evidence_classes
    ++ ("SIMULATION" ∷ "THEORETICAL" ∷ "ASSUMPTION" ∷ "EXPERT_JUDGMENT" ∷ "UNKNOWN" ∷ [])

-- `isinstance(v, str) and v`
abbrev pub is_filled : Value → Bool
is_filled v = is_str v && truthy v

-- `_string_set`: the elements, if all are texts and none is empty.
unfoldable pub string_set : Value → Option (List String)
string_set (list xs) = if all is_filled (elements xs) then some (text_elements xs) else none
string_set _ = none

abbrev pub is_string_set : Value → Bool
is_string_set v = elim (string_set v) [ none ↦ false | some xs ↦ true ]

-- `_string_set(v) or set()`
abbrev pub strings : Value → List String
strings v = elim (string_set v) [ none ↦ [] | some xs ↦ xs ]

abbrev pub text_of : Value → String
text_of (str s) = s
text_of _ = ""

abbrev required_text : List String
required_text =
    "source_id" ∷ "provenance" ∷ "authority" ∷ "retrieval_time" ∷ "license_or_usage_status" ∷ "hash"
    ∷ "freshness" ∷ []

unfoldable pub source_provenance_complete : Fields → Bool
source_provenance_complete source =
    all (λ key. is_filled (get key source)) required_text
    && not (any (is_text (get "license_or_usage_status" source)) ("UNKNOWN" ∷ "PROHIBITED" ∷ []))
    && hex64_value (get "hash" source)
    && all (λ key. is_string_set (get key source))
        ("geographic_scope" ∷ "time_scope" ∷ "entity_scope" ∷ "field_schema" ∷ [])
    && is_list (get "limitations" source)

abbrev pub scope_fields : List String
scope_fields = "minimum_data_fields" ∷ "required_time_scope" ∷ "required_entity_scope" ∷ []

abbrev pub policy_flags : List String
policy_flags =
    "external_data_allowed" ∷ "external_data_required" ∷ "simulation_substitution_allowed"
    ∷ "partial_completion_allowed" ∷ []

-- `required and allowed is not None and required <= allowed <= EVIDENCE_CLASSES`
abbrev pub classes_ok : Option (List String) → Option (List String) → Bool
classes_ok (some (c ∷ cs)) (some allowed) =
    subset (c ∷ cs) allowed && subset allowed evidence_classes
classes_ok _ _ = false

-- The evidence that a requirement asks for is written out.
unfoldable pub requirement_terms_ok : Fields → Bool
requirement_terms_ok requirement =
    classes_ok (string_set (get "required_evidence_classes" requirement))
      (string_set (get "allowed_evidence_classes" requirement))
    && all (λ key. is_string_set (get key requirement)) ("dependency_requirements" ∷ scope_fields)
    && all (λ key. is_bool (get key requirement)) policy_flags
    && is_filled (get "completion_rule" requirement)

-- `requirement.get("role", "PRIMARY")`
abbrev pub role_of : Fields → Value
role_of requirement = get_or "role" (str "PRIMARY") requirement

-- A name that no earlier requirement has.
abbrev pub is_new_name : List String → Value → Bool
is_new_name names v = is_filled v && not (contains names (text_of v))

abbrev requirement_ok : List String → Fields → Py Bool
requirement_ok names requirement = and_then (is_new_name names (get "requirement_id" requirement)) (
    member_text (role_of requirement) ("PRIMARY" ∷ "AUXILIARY" ∷ []) >>= λ known.
    ok (known && requirement_terms_ok requirement))

pub record Registered : Type 0 where
  pub names : List String
  pub codes : List String

abbrev registered : Registered → String → String → Bool → Registered
registered r name code good =
    if good
    then record { names = name ∷ r.names; codes = r.codes }
    else record { names = r.names; codes = code ∷ r.codes }

unfoldable pub register_requirements : Registered → List Value → Py Registered
register_requirements r [] = ok r
register_requirements r (dict requirement ∷ rest) = requirement_ok r.names requirement >>= λ good.
    register_requirements
      (registered r (text_of (get "requirement_id" requirement)) "RC_REQUIREMENT_CONTRACT_INVALID"
        good)
      rest
register_requirements r (v ∷ rest) =
    register_requirements (registered r "" "RC_REQUIREMENT_CONTRACT_INVALID" false) rest

-- `set(dependencies) - identifiers`
abbrev unknown_dependency : List String → Value → Py Bool
unknown_dependency names (list xs) =
    if all hashable (elements xs)
    then ok (any (λ v. not (any (is_text v) names)) (elements xs))
    else raise type_error
unknown_dependency names v = ok false

abbrev dependencies_of : Value → Value
dependencies_of (dict requirement) = get "dependency_requirements" requirement
dependencies_of v = list Items.nil

unfoldable pub dependency_codes : List String → List Value → Py (List String)
dependency_codes names [] = ok []
dependency_codes names (v ∷ rest) = unknown_dependency names (dependencies_of v) >>= λ unknown.
    dependency_codes names rest >>= λ codes.
    ok (if unknown then "RC_REQUIREMENT_DEPENDENCY_UNKNOWN" ∷ codes else codes)

abbrev pub contract_of : List String → ContractResult
contract_of [] = contract_result "PASS" []
contract_of (c ∷ cs) = contract_result "BLOCK" (c ∷ cs)

-- Dependencies are looked at only if some requirement is registered.
abbrev dependencies_checked : List Value → List String → List String → Py ContractResult
dependencies_checked requirements [] codes = ok (contract_of codes)
dependencies_checked requirements (n ∷ ns) codes =
    dependency_codes (n ∷ ns) requirements >>= λ more. ok (contract_of (codes ++ more))

unfoldable pub validate_runtime_requirements : Value → Py ContractResult
validate_runtime_requirements (list (Items.cons v vs)) =
    register_requirements (record { names = []; codes = [] }) (v ∷ elements vs) >>= λ r.
    dependencies_checked (v ∷ elements vs) r.names r.codes
validate_runtime_requirements _ =
    ok (contract_result "BLOCK" ("RC_REQUIREMENT_CONTRACT_INVALID" ∷ []))

-- The registration of a source: a new name, requirements that are known, and an evidence class.
abbrev source_ok : List String → List Value → Fields → Py Bool
source_ok names known source =
    and_then
      (is_new_name names (get "source_id" source)
        && is_string_set (get "supports_requirement_ids" source)
        && all (λ s. any (λ v. is_text v s) known)
            (strings (get "supports_requirement_ids" source)))
      (member_text (get "evidence_class" source) evidence_classes)

abbrev source_registered : Registered → Fields → Bool → Registered
source_registered r source good =
    let r' =
      registered r (text_of (get "source_id" source)) "RC_SOURCE_EVIDENCE_REGISTRY_INVALID" good in
    if good && not (source_provenance_complete source)
    then record r' { codes = "RC_DATA_PROVENANCE_INCOMPLETE" ∷ r'.codes }
    else r'

unfoldable pub register_sources : List Value → Registered → List Value → Py Registered
register_sources known r [] = ok r
register_sources known r (dict source ∷ rest) = source_ok r.names known source >>= λ good.
    register_sources known (source_registered r source good) rest
register_sources known r (v ∷ rest) =
    register_sources known (registered r "" "RC_SOURCE_EVIDENCE_REGISTRY_INVALID" false) rest

unfoldable pub validate_runtime_sources : Value → Value → Py ContractResult
validate_runtime_sources (list sources) (list known) =
    if all hashable (elements known)
    then (register_sources (elements known) (record { names = []; codes = [] }) (elements sources)
        >>= λ r. ok (contract_of r.codes))
    else raise type_error
validate_runtime_sources _ _ =
    ok (contract_result "BLOCK" ("RC_SOURCE_EVIDENCE_REGISTRY_INVALID" ∷ []))
