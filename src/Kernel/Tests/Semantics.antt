-- ===== src/Kernel/Tests/Semantics.antt =====
-- One claim for one requirement, bound to its run, its output, its metric and its source.
use cumcm.Base.{◌≡◌, refl, true, [], ◌∷◌}
use cumcm.Py.Exn.{ok}
use cumcm.Py.Value.{Value, bool, str, list, dict, nil, cons, Items, Fields, fields, texts}
use cumcm.Py.Dict.{get, set}
use cumcm.Kernel.Contract.{string_set}
use cumcm.Kernel.Contract.Claims.{validate_semantic_claim_support, support_result, aggregate_ok}
use cumcm.Kernel.Runtime.Semantic.{
  Bundle, run_mismatch_codes, output_owner_codes, metric_codes, evidence_codes, policy_codes,
  semantic_claim_codes, all_claim_codes, validate_runtime_semantic_claims,
}
use cumcm.Kernel.Runtime.Passing.{IsBundle, IsBound, validate_runtime_semantic_claims-IsBound}
use cumcm.Kernel.Tests.Choices.{only, choices, forecast_claim, run_items, pass, pass_status}

abbrev bound_claim : Fields
bound_claim = set "requirement_id" (str "R1") (
    set "evidence_class" (str "PROVIDED_EMPIRICAL") (
      set "scope"
        (dict (
          fields
            (("fields", only "price") ∷ ("time", only "2025") ∷ ("entities", only "market") ∷ [])))
        (set "support_predicates"
          (dict (
            fields (
              ("validation_boundary_frozen", bool true)
              ∷ ("held_out_test_valid", bool true)
              ∷ ("scope_bounded", bool true)
              ∷ [])))
          forecast_claim)))

abbrev bound_claims : Items
bound_claims = cons (dict bound_claim) nil

abbrev semantic_record : Fields
semantic_record = fields (
    ("claims", list bound_claims)
    ∷ ("runs", list run_items)
    ∷ (
      "outputs",
      list (
          cons
            (dict (
              fields (
                ("output_id", str "O1")
                ∷ ("owner_run_id", str "RUN-1")
                ∷ ("requirement_id", str "R1")
                ∷ ("metric_ids", only "rmse")
                ∷ [])))
            nil),
    )
    ∷ ("comparators", list nil)
    ∷ ("validation", dict (fields []))
    ∷ [])

abbrev output_registry : Fields
output_registry = fields (
    (
      "RUN-1",
      dict (
          fields (
            ("requirement_claims", dict (fields (("R1", str "C-R1") ∷ [])))
            ∷ ("final_metrics", dict (fields (("rmse", str "0.1") ∷ [])))
            ∷ [])),
    )
    ∷ [])

abbrev requirement_items : Items
requirement_items =
    cons
      (dict (
        fields (
          ("requirement_id", str "R1")
          ∷ ("allowed_evidence_classes", only "PROVIDED_EMPIRICAL")
          ∷ [])))
      nil

abbrev source_items : Items
source_items =
    cons
      (dict (
        fields (
          ("supports_requirement_ids", only "R1")
          ∷ ("evidence_class", str "PROVIDED_EMPIRICAL")
          ∷ [])))
      nil

all_bound :
    validate_runtime_semantic_claims
      (dict semantic_record)
      (dict choices)
      (dict (fields []))
      (dict output_registry)
      (list requirement_items)
      (list source_items)
    ≡ ok pass
unfolding validate_runtime_semantic_claims all_claim_codes semantic_claim_codes run_mismatch_codes
    output_owner_codes metric_codes evidence_codes policy_codes validate_semantic_claim_support
    support_result aggregate_ok string_set set cumcm.Py.Value.eq cumcm.Kernel.Gate.contract_result
all_bound = refl

claims_listed : get "claims" semantic_record ≡ list bound_claims
claims_listed = refl

validate_runtime_semantic_claims-IsBound_example :
    (B : Bundle) × IsBundle B semantic_record choices output_registry requirement_items source_items
    × IsBound B bound_claim
validate_runtime_semantic_claims-IsBound_example =
    validate_runtime_semantic_claims-IsBound semantic_record choices (fields []) output_registry
      requirement_items source_items bound_claims 0 bound_claim pass claims_listed refl all_bound
      pass_status
