-- ===== src/Kernel/Contract/Claims.antt =====
-- `validate_semantic_claim_support`, `validate_semantic_claim_bundle` and
-- `validate_evidence_compatibility`.
use cumcm.Base.{
  suc, String, Bool, true, false, not, ◌&&◌, ◌||◌, Option, none, some, List, [], ◌∷◌, ◌++◌, all,
  map, if◌then◌else◌,
}
use cumcm.Py.Exn.{Py, ok, raise, ◌>>=◌, attribute_error}
use cumcm.Py.Value.{
  Value, null, int, float, nonfinite, inf, pos, str, list, dict, Items, Fields, end, elements, keys,
  is_list, is_dict, is_text, is_true, truthy,
}
use cumcm.Py.Dict.{get}
use cumcm.Py.Member.{member_text}
use cumcm.Py.Records.{
  Index, dicts, index_by, index_find, field_set, set_of, any_of, map_of, same_values, subset_values,
  or_else,
}
use cumcm.Kernel.Gate.{ContractResult, contract_result}
use cumcm.Kernel.Contract.{contract_of, empirical_evidence_classes}
use cumcm.Kernel.Contract.Selection.{unless_code}

-- Tests, each with the code that is added when it fails.
abbrev pub Checks : Type 0
Checks = List (Bool × String)

abbrev pub failed : Checks → List String
failed [] = []
failed ((b, code) ∷ r) = unless_code b code ++ failed r

abbrev pub claim_types : List String
claim_types =
    "DESCRIPTIVE" ∷ "EMPIRICAL" ∷ "PREDICTIVE" ∷ "COMPARATIVE" ∷ "POLICY_EVALUATION" ∷ "FEASIBILITY"
    ∷ "OPTIMALITY" ∷ "CAUSAL" ∷ "SIMULATION_CONDITIONAL" ∷ []

-- `isinstance(v, (int, float)) and not isinstance(v, bool) and v > 0`
abbrev pub is_positive : Value → Bool
is_positive (int (pos (suc n))) = true
is_positive (float (pos (suc n)) k) = true
is_positive (nonfinite inf) = true
is_positive _ = false

abbrev is_exposed : Option Fields → Bool
is_exposed none = false
is_exposed (some run) = is_positive (get "policy_exposure" run)

abbrev pub is_found : Option Fields → Bool
is_found none = false
is_found (some fs) = true

abbrev pub some_and_all : (Option Fields → Bool) → List (Option Fields) → Bool
some_and_all test [] = false
some_and_all test (x ∷ xs) = all test (x ∷ xs)

abbrev pub found_dicts : List (Option Fields) → List Fields
found_dicts [] = []
found_dicts (none ∷ r) = found_dicts r
found_dicts (some fs ∷ r) = fs ∷ found_dicts r

-- `[index.get(item) for item in ids] if isinstance(ids, list) else []`
abbrev pub look_up : Index → Value → Py (List (Option Fields))
look_up index (list xs) = map_of (index_find index) (elements xs)
look_up index v = ok []

abbrev lacks_metric : List Value → Fields → Py Bool
lacks_metric metrics output = set_of metrics >>= λ wanted.
    field_set "metric_ids" output >>= λ held. ok (not (subset_values wanted held))

abbrev pub metrics_bound : Value → List Fields → Py Bool
metrics_bound (list xs) outputs =
    any_of (lacks_metric (elements xs)) outputs >>= λ lacking. ok (not lacking)
metrics_bound v outputs = ok true

-- `a and m`, where `m` may raise and is evaluated only if `a` holds; `not a or m`.
abbrev pub implied : Bool → Py Bool → Py Bool
implied true m = m
implied false m = ok true

abbrev not_indexed : Index → Value → Py Bool
not_indexed index v = index_find index v >>= λ found. ok (not (is_found found))

-- The comparators of the claim: a list that is not empty, of known ones.
abbrev pub comparators_known : Index → Value → Py Bool
comparators_known index (list (Items.cons v vs)) =
    any_of (not_indexed index) (v ∷ elements vs) >>= λ unknown. ok (not unknown)
comparators_known index v = ok false

abbrev keys_of : Value → Py (List Value)
keys_of (dict fs) = ok (map str (keys fs))
keys_of v = raise attribute_error

abbrev aggregate_dict : Fields → Py Bool
aggregate_dict aggregate = field_set "primary_requirement_ids" aggregate >>= λ primary.
    field_set "supported_requirement_ids" aggregate >>= λ supported.
    if same_values primary supported
    then (keys_of (or_else (get "requirement_claim_ids" aggregate) (dict end)) >>= λ claimed.
        ok (same_values claimed primary))
    else ok false

-- There is no aggregate, or it names the same requirements three times.
unfoldable pub aggregate_ok : Value → Py Bool
aggregate_ok null = ok true
aggregate_ok (dict aggregate) = aggregate_dict aggregate
aggregate_ok v = ok false

abbrev pub comparator_code : Value → String
comparator_code claim_type =
    if is_text claim_type "POLICY_EVALUATION"
    then "RC_POLICY_CLAIM_COMPARATOR_MISSING"
    else "RC_COMPARATIVE_CLAIM_COMPARATOR_MISSING"

abbrev pub is_type : Fields → String → Bool
is_type claim name = is_text (get "claim_type" claim) name

-- `predicates.get(key) is True for key in keys`
abbrev pub hold : Fields → List String → Bool
hold predicates names = all (λ key. is_true (get key predicates)) names

-- What the claim's type asks of its predicates.
abbrev pub type_checks : Fields → Fields → List (Option Fields) → Checks
type_checks claim predicates runs =
    (
      not (is_type claim "SIMULATION_CONDITIONAL")
          || hold predicates ("registered_assumptions_bound" ∷ []),
      "RC_SIMULATION_CONDITIONAL_ASSUMPTIONS_MISSING",
    )
    ∷ (
      not (is_type claim "COMPARATIVE")
          || hold predicates ("comparable_inputs" ∷ "common_metric" ∷ []),
      "RC_COMPARATIVE_CLAIM_NOT_COMPARABLE",
    )
    ∷ (
      not (is_type claim "POLICY_EVALUATION") || some_and_all is_exposed runs,
      "RC_POLICY_CLAIM_NO_POLICY_EXPOSURE",
    )
    ∷ (
      not (is_type claim "POLICY_EVALUATION")
          || hold predicates ("policy_executed" ∷ "policy_exposure_positive" ∷ []),
      "RC_POLICY_CLAIM_NO_POLICY_EXPOSURE",
    )
    ∷ (
      not (is_type claim "POLICY_EVALUATION")
          || hold predicates ("benefit_recorded" ∷ "cost_recorded" ∷ []),
      "RC_POLICY_CLAIM_BENEFIT_COST_MISSING",
    )
    ∷ (
      not (is_type claim "FEASIBILITY")
          || hold predicates ("independent_constraint_recalculation" ∷ []),
      "RC_FEASIBILITY_INDEPENDENT_RECALC_MISSING",
    )
    ∷ (
      not (is_type claim "OPTIMALITY" && is_text (get "claim_strength" claim) "GLOBAL_OPTIMUM")
          || hold predicates ("global_optimality_certificate" ∷ []),
      "RC_OPTIMALITY_CERTIFICATE_MISSING",
    )
    ∷ (
      not (is_type claim "CAUSAL") || hold predicates ("causal_identification_design" ∷ []),
      "RC_CAUSAL_IDENTIFICATION_MISSING",
    )
    ∷ (
      not (is_type claim "PREDICTIVE")
          || hold predicates ("validation_boundary_frozen" ∷ "held_out_test_valid" ∷ []),
      "RC_PREDICTIVE_VALIDATION_MISSING",
    )
    ∷ []

-- The tests that look at the claim and the validation only.
abbrev pub claim_checks : Fields → Fields → Checks
claim_checks claim validation =
    (
      not (
          is_true (get "counter_evidence_detected" validation)
          && not (truthy (get "counter_evidence" claim))),
      "RC_CLAIM_COUNTER_EVIDENCE_UNRESOLVED",
    )
    ∷ (
      is_text (get "status" claim) "SUPPORTED"
          && is_list (get "limitations" claim)
          && is_dict (get "scope" claim),
      "RC_SEMANTIC_CLAIM_INPUT_INVALID",
    )
    ∷ []

abbrev pub predicates_of : Bool → Value → Fields
predicates_of true (dict fs) = fs
predicates_of _ v = end

module _ (claim : Fields) (runs outputs comparators : List Fields) (validation : Fields)
    (aggregate : Value) where
  -- All tests of a claim, where those that may raise are evaluated.
  abbrev pub all_checks :
      Bool → List (Option Fields) → List (Option Fields) → Bool → Bool → Bool → Bool → Checks
  all_checks known selected_runs selected_outputs metrics empirical compared aggregated =
      (known && is_dict (get "support_predicates" claim), "RC_SEMANTIC_CLAIM_INPUT_INVALID")
      ∷ (some_and_all is_found selected_runs, "RC_REQUIREMENT_SELECTED_RUN_MISSING")
      ∷ (some_and_all is_found selected_outputs, "RC_REQUIREMENT_SELECTED_OUTPUT_MISSING")
      ∷ (metrics, "RC_CLAIM_METRIC_BINDING_MISMATCH")
      ∷ (empirical, "RC_SIMULATION_CANNOT_SUPPORT_EMPIRICAL_CLAIM")
      ∷ (compared, comparator_code (get "claim_type" claim))
      ∷ (aggregated, "RC_AGGREGATE_PRIMARY_REQUIREMENT_INCOMPLETE")
      ∷ (type_checks claim (predicates_of known (get "support_predicates" claim)) selected_runs
          ++ claim_checks claim validation)

  -- The tests of a claim whose type is known, or not.
  abbrev pub support_checks : Bool → Py Checks
  support_checks known =
      let policy = is_type claim "POLICY_EVALUATION" in
      index_by "run_id" runs >>= λ run_index. index_by "output_id" outputs >>= λ output_index.
      look_up run_index (get "selected_run_ids" claim) >>= λ selected_runs.
      look_up output_index (get "selected_output_ids" claim) >>= λ selected_outputs.
      metrics_bound (get "metric_ids" claim) (found_dicts selected_outputs) >>= λ metrics.
      implied (is_type claim "EMPIRICAL")
        (member_text (get "evidence_class" claim) empirical_evidence_classes)
      >>= λ empirical. index_by "comparator_id" comparators >>= λ comparator_index.
          implied (is_type claim "COMPARATIVE" || policy)
            (comparators_known comparator_index (get "comparator_ids" claim))
          >>= λ compared. aggregate_ok aggregate >>= λ aggregated. ok (
              all_checks known selected_runs selected_outputs metrics empirical compared aggregated)

  unfoldable pub support_result : Py ContractResult
  support_result = member_text (get "claim_type" claim) claim_types >>= λ known.
      support_checks known >>= λ checks. ok (contract_of (failed checks))

abbrev pub claim_invalid : Py ContractResult
claim_invalid = ok (contract_result "BLOCK" ("RC_SEMANTIC_CLAIM_INPUT_INVALID" ∷ []))

abbrev pub support_of : Value → Value → Value → Value → Value → Value → Py ContractResult
support_of (dict claim) (list runs) (list outputs) (list comparators) (dict validation) aggregate =
    support_result claim (dicts (elements runs)) (dicts (elements outputs))
      (dicts (elements comparators)) validation aggregate
support_of _ _ _ _ _ aggregate = claim_invalid

unfoldable pub validate_semantic_claim_support : Value → Py ContractResult
validate_semantic_claim_support (dict payload) =
    support_of (get "claim" payload) (get "runs" payload) (get "outputs" payload)
      (get "comparators" payload) (get "validation" payload) (get "aggregate" payload)
validate_semantic_claim_support v = claim_invalid
