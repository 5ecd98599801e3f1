-- ===== src/Kernel/Runtime/Semantic.antt =====
-- `validate_runtime_semantic_claims`: claims against requirements, runs, outputs, metrics and sources.
use cumcm.Base.{
  String, Bool, true, false, not, ◌&&◌, Option, none, some, List, [], ◌∷◌, ◌++◌, all, same_set,
  if◌then◌else◌,
}
use cumcm.Py.Exn.{Py, ok, raise, attribute_error, ◌>>=◌}
use cumcm.Py.Value.{
  Value, null, str, list, dict, Items, Fields, end, fields, elements, keys, eq, is_dict, is_true,
  is_text,
}
use cumcm.Py.Dict.{get, get_or}
use cumcm.Py.Member.{iterate, and_then, member}
use cumcm.Py.Records.{
  dicts, named, index_get, or_else, get_of, set_of, contains_value, in_field, any_of, map_of,
  get_value,
}
use cumcm.Kernel.Boundary.{strict_score, contains_strict_score}
use cumcm.Kernel.Gate.{ContractResult, contract_result}
use cumcm.Kernel.Contract.{contract_of, string_set}
use cumcm.Kernel.Contract.Selection.{unless_code}
use cumcm.Kernel.Contract.Claims.{is_positive, validate_semantic_claim_support}

-- The records and registries that a claim is checked against.
pub record Bundle : Type 0 where
  pub record_fields : Fields
  pub semantic_runs : List Fields
  pub outputs : List Fields
  pub requirement_index : List Fields
  pub selection_requirements : List Fields
  pub run_map : Value
  pub output_map : Value
  pub output_registry : Fields
  pub sources : List Value

-- `for x in v or []`
abbrev pub each : Value → Py (List Value)
each v = iterate (or_else v (list Items.nil))

-- `not a or b`, on computations.
abbrev negated : Py Bool → Py Bool
negated m = m >>= λ b. ok (not b)

module _ (B : Bundle) (name : String) where
  abbrev supports_it : Option Fields → Py Bool
  supports_it none = ok false
  supports_it (some run) = in_field (str name) "supported_requirement_ids" run

  abbrev some_and_supported : List (Option Fields) → Py Bool
  some_and_supported [] = ok false
  some_and_supported (r ∷ rs) = negated (any_of (λ run. negated (supports_it run)) (r ∷ rs))

  -- The runs of the claim are known, and support its requirement.
  unfoldable pub run_mismatch_codes : Value → Py (List String)
  run_mismatch_codes run_ids = each run_ids >>= λ ids.
      map_of (index_get "run_id" B.semantic_runs) ids >>= λ selected.
      some_and_supported selected >>= λ supported.
      ok (unless_code supported "RC_REQUIREMENT_SELECTED_RUN_SEMANTIC_MISMATCH")

  abbrev claimed_by : Value → Py Bool
  claimed_by (dict run_output) = in_field (str name) "requirement_claims" run_output
  claimed_by v = ok false

  abbrev owned : Value → Option Fields → Py Bool
  owned run_ids none = ok false
  owned run_ids (some output) =
      member (get "owner_run_id" output) (or_else run_ids (list Items.nil)) >>= λ by_run.
      if by_run && eq (get "requirement_id" output) (str name)
      then (get_value (get "owner_run_id" output) B.output_registry >>= claimed_by)
      else ok false

  -- Each output of the claim belongs to one of its runs, which claims the requirement.
  unfoldable pub output_owner_codes : Value → List Value → Py (List String)
  output_owner_codes run_ids [] = ok []
  output_owner_codes run_ids (output_id ∷ r) =
      index_get "output_id" B.outputs output_id >>= λ output. owned run_ids output >>= λ good.
      output_owner_codes run_ids r >>= λ rest.
      ok (unless_code good "RC_REQUIREMENT_SELECTED_OUTPUT_NOT_OWNED" ++ rest)

  abbrev metric_of : Option Fields → Value
  metric_of none = null
  metric_of (some requirement) = get "selection_metric" requirement

  abbrev output_has : Value → Value → Py Bool
  output_has metric output_id = index_get "output_id" B.outputs output_id >>= λ output.
      elim output [
        | none ↦ ok false
        | some fs ↦ member metric (get_or "metric_ids" (list Items.nil) fs)
      ]

  -- `{*run_output.get("validation_metrics", {}), *run_output.get("final_metrics", {})}`
  abbrev metrics_of : Value → Py (List Value)
  metrics_of (dict run_output) =
      iterate (get_or "validation_metrics" (dict end) run_output) >>= λ validation.
      iterate (get_or "final_metrics" (dict end) run_output) >>= λ final.
      set_of (validation ++ final)
  metrics_of v = raise attribute_error

  abbrev run_has : Value → Value → Py Bool
  run_has metric run_id = get_value run_id B.output_registry >>= λ run_output.
      metrics_of (or_else run_output (dict end)) >>= λ known. ok (contains_value known metric)

  abbrev metric_bound : Value → Value → Value → Value → Py Bool
  metric_bound (str metric) (list metric_ids) run_ids output_ids =
      and_then (contains_value (elements metric_ids) (str metric)) (
        (each output_ids >>= λ os. negated (any_of (λ o. negated (output_has (str metric) o)) os))
        >>= λ held.
            and_then held
              (each run_ids >>= λ rs. negated (any_of (λ r. negated (run_has (str metric) r)) rs)))
  metric_bound _ _ run_ids output_ids = ok false

  -- The metric by which the requirement selects is one of the claim, of its outputs and of its runs.
  unfoldable pub metric_codes : Value → Value → Value → Py (List String)
  metric_codes metric_ids run_ids output_ids =
      metric_bound (metric_of (named "requirement_id" name B.selection_requirements)) metric_ids
        run_ids output_ids
      >>= λ bound. ok (unless_code bound "RC_CLAIM_METRIC_BINDING_MISSING")

  abbrev supplies : Value → Value → Py Bool
  supplies evidence_class (dict source) =
      in_field (str name) "supports_requirement_ids" source >>= λ supported.
      ok (supported && eq (get "evidence_class" source) evidence_class)
  supplies evidence_class v = ok false

  -- The evidence class is allowed, and a source of that class supports the requirement.
  unfoldable pub evidence_codes : Fields → Value → Py (List String)
  evidence_codes requirement evidence_class =
      in_field evidence_class "allowed_evidence_classes" requirement >>= λ allowed.
      and_then allowed (any_of (supplies evidence_class) B.sources) >>= λ good.
      ok (unless_code good "RC_CLAIM_EVIDENCE_CLASS_INVALID")

  abbrev within : String → Value → Value
  within key (dict fs) = get key fs
  within key v = null

  abbrev policy_fields : List String
  policy_fields = "policy_exposure" ∷ "comparator_ids" ∷ "benefit" ∷ "cost" ∷ []

  -- The tests of a policy's evidence up to its benefit, in order.
  abbrev policy_shape : Value → Fields → Py Bool
  policy_shape comparator_ids evidence =
      and_then (same_set (keys evidence) policy_fields)
        (strict_score (get "policy_exposure" evidence))
      >>= λ scored. ok (
          scored
          && is_positive (get "policy_exposure" evidence)
          && eq (get "comparator_ids" evidence) comparator_ids
          && is_dict (get "benefit" evidence))

  abbrev has_exposure : Option Fields → Value → Bool
  has_exposure none exposure = false
  has_exposure (some run) exposure = eq (get "policy_exposure" run) exposure

  abbrev policy_ok : Value → Value → Option Fields → Py Bool
  policy_ok comparator_ids (dict evidence) run = policy_shape comparator_ids evidence >>= λ shaped.
      and_then shaped (contains_strict_score (get "benefit" evidence)) >>= λ gains.
      and_then (gains && is_dict (get "cost" evidence))
        (contains_strict_score (get "cost" evidence))
      >>= λ costs. ok (costs && has_exposure run (get "policy_exposure" evidence))
  policy_ok comparator_ids v run = ok false

  -- The evidence of a policy in the output of each run.
  unfoldable pub policy_codes : Value → List Value → Py (List String)
  policy_codes comparator_ids [] = ok []
  policy_codes comparator_ids (run_id ∷ r) = get_value run_id B.output_registry >>= λ run_output.
      index_get "run_id" B.semantic_runs run_id >>= λ run.
      policy_ok comparator_ids (within name (within "policy_evidence" run_output)) run >>= λ good.
      policy_codes comparator_ids r >>= λ rest.
      ok (unless_code good "RC_POLICY_OUTPUT_EVIDENCE_MISSING" ++ rest)

-- `(claim.get("support_predicates") or {}).get("scope_bounded") is True`
abbrev is_bounded : Fields → Py Bool
is_bounded claim =
    get_of "scope_bounded" (or_else (get "support_predicates" claim) (dict end)) >>= λ v.
    ok (is_true v)

-- `bool(_string_set(v))`
abbrev is_named : Value → Bool
is_named v = elim (string_set v) [
  | none ↦ false
  | some xs ↦ elim xs [ [] ↦ false | ◌∷◌ x r ↦ true ]
]

abbrev pub scope_ok : Fields → Value → Py Bool
scope_ok claim (dict scope) =
    and_then (all (λ key. is_named (get key scope)) ("fields" ∷ "time" ∷ "entities" ∷ []))
      (is_bounded claim)
scope_ok claim v = ok false

abbrev pub support_payload : Fields → Fields → Value
support_payload record' claim = dict (
    fields (
      ("claim", dict claim)
      ∷ ("runs", get "runs" record')
      ∷ ("outputs", get "outputs" record')
      ∷ ("comparators", get "comparators" record')
      ∷ ("validation", get "validation" record')
      ∷ []))

module _ (B : Bundle) where
  abbrev pub bound_codes : String → Fields → Fields → Py (List String)
  bound_codes name requirement claim =
      let run_ids = get "selected_run_ids" claim in
      let output_ids = get "selected_output_ids" claim in
      get_of name B.run_map >>= λ chosen_runs. get_of name B.output_map >>= λ chosen_outputs.
      run_mismatch_codes B name run_ids >>= λ runs. each output_ids >>= λ os.
      output_owner_codes B name run_ids os >>= λ owners.
      metric_codes B name (get "metric_ids" claim) run_ids output_ids >>= λ metrics.
      scope_ok claim (get "scope" claim) >>= λ scoped.
      evidence_codes B name requirement (get "evidence_class" claim) >>= λ classes.
      validate_semantic_claim_support (support_payload B.record_fields claim) >>= λ outcome.
      (if is_text (get "claim_type" claim) "POLICY_EVALUATION"
        then (each run_ids >>= policy_codes B name (get "comparator_ids" claim))
        else ok [])
      >>= λ policies. ok (
          unless_code (eq run_ids chosen_runs) "RC_REQUIREMENT_SELECTED_RUN_SEMANTIC_MISMATCH"
          ++ (unless_code (eq output_ids chosen_outputs) "RC_REQUIREMENT_SELECTED_OUTPUT_NOT_OWNED"
              ++ (runs
                  ++ (owners
                      ++ (metrics
                          ++ (unless_code scoped "RC_CLAIM_SCOPE_UNBOUNDED"
                              ++ (classes ++ (outcome.reason_codes ++ policies))))))))

  abbrev pub known_codes : Value → Fields → Option Fields → Py (List String)
  known_codes (str name) claim (some requirement) = bound_codes name requirement claim
  known_codes v claim _ = ok ("RC_CLAIM_REQUIREMENT_UNKNOWN" ∷ [])

  unfoldable pub semantic_claim_codes : Value → Py (List String)
  semantic_claim_codes (dict claim) =
      index_get "requirement_id" B.requirement_index (get "requirement_id" claim)
      >>= known_codes (get "requirement_id" claim) claim
  semantic_claim_codes v = ok ("RC_SEMANTIC_CLAIM_INPUT_INVALID" ∷ [])

  unfoldable pub all_claim_codes : List Value → Py (List String)
  all_claim_codes [] = ok []
  all_claim_codes (c ∷ r) =
      semantic_claim_codes c >>= λ codes. all_claim_codes r >>= λ rest. ok (codes ++ rest)

abbrev pub records_under : String → Fields → Py (List Fields)
records_under key record' = iterate (get_or key (list Items.nil) record') >>= λ xs. ok (dicts xs)

abbrev pub claims_result : Bundle → Value → Py ContractResult
claims_result B (list (Items.cons c cs)) =
    all_claim_codes B (c ∷ elements cs) >>= λ codes. ok (contract_of codes)
claims_result B v = ok (contract_result "BLOCK" ("RC_SEMANTIC_CLAIM_BUNDLE_INVALID" ∷ []))

-- `selection.get(key) or {}`
abbrev pub map_under : String → Value → Py Value
map_under key selection = get_of key selection >>= λ v. ok (or_else v (dict end))

unfoldable pub validate_runtime_semantic_claims :
    Value → Value → Value → Value → Value → Value → Py ContractResult
validate_runtime_semantic_claims (dict record') (dict selection_record) (dict manifest_registry)
      (dict output_registry) (list requirements) (list sources) =
    do
      semantic_runs ← records_under "runs" record'
      outputs ← records_under "outputs" record'
      selection_requirements ← records_under "requirements" selection_record
      run_map ←
          map_under "requirement_to_run_map" (or_else (get "selection" selection_record) (dict end))
      output_map ←
          map_under "requirement_to_output_map"
            (or_else (get "selection" selection_record) (dict end))
      claims_result
          (record {
            record_fields = record';
            semantic_runs = semantic_runs;
            outputs = outputs;
            requirement_index = dicts (elements requirements);
            selection_requirements = selection_requirements;
            run_map = run_map;
            output_map = output_map;
            output_registry = output_registry;
            sources = elements sources;
          })
          (get "claims" record')
validate_runtime_semantic_claims _ _ _ _ _ _ =
    ok (contract_result "BLOCK" ("RC_SEMANTIC_CLAIM_INPUT_INVALID" ∷ []))
