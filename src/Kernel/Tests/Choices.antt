-- ===== src/Kernel/Tests/Choices.antt =====
-- A selection of one run for one requirement, and a claim that rests on it.
use cumcm.Base.{String, ◌≡◌, refl, true, [], ◌∷◌}
use cumcm.Py.Exn.{ok}
use cumcm.Py.Value.{lookup, eq}
use cumcm.Py.Value.{
  Value, null, bool, str, list, dict, nil, cons, Items, Fields, fields, texts, elements,
}
use cumcm.Py.Records.{dicts}
use cumcm.Kernel.Gate.{ContractResult, contract_result, sorted_set}
use cumcm.Kernel.Runtime.Eligibility.{
  eligibility_codes, selected_runtime_run_ids, validate_runtime_run_eligibility,
}
use cumcm.Kernel.Runtime.Trusted.{IsEligible, validate_runtime_run_eligibility-IsEligible}
use cumcm.Kernel.Contract.Selection.{
  validate_requirement_selection, selection_result, choose, choose_named, weigh_runs, all_run_codes,
  run_codes,
}
use cumcm.Kernel.Contract.Claims.{validate_semantic_claim_support, support_result, aggregate_ok}
use cumcm.Kernel.Contract.Selected.{AllServed, validate_requirement_selection-AllServed}
use cumcm.Kernel.Contract.Supported.{IsSupported, validate_semantic_claim_support-IsSupported}

abbrev pub only : String → Value
only s = list (texts (s ∷ []))

abbrev first_run : Fields
first_run = fields (
    ("run_id", str "RUN-1")
    ∷ ("outcome", str "SUCCESS")
    ∷ ("sealed", bool true)
    ∷ ("current", bool true)
    ∷ ("supported_requirement_ids", only "R1")
    ∷ ("metric_ids", only "rmse")
    ∷ ("selected_output_ids", only "O1")
    ∷ [])

abbrev pub run_items : Items
run_items = cons (dict first_run) nil

abbrev pub wanted : Items
wanted =
    cons (dict (fields (("requirement_id", str "R1") ∷ ("selection_metric", str "rmse") ∷ []))) nil

abbrev pub run_map : Fields
run_map = fields (("R1", only "RUN-1") ∷ [])

abbrev output_map : Fields
output_map = fields (("R1", only "O1") ∷ [])

abbrev pub selection : Fields
selection = fields (
    ("selection_mode", str "PER_REQUIREMENT")
    ∷ ("requirement_to_run_map", dict run_map)
    ∷ ("requirement_to_output_map", dict output_map)
    ∷ [])

abbrev pub choices : Fields
choices =
    fields (
      ("requirements", list wanted) ∷ ("runs", list run_items) ∷ ("selection", dict selection) ∷ [])

abbrev pub pass : ContractResult
pass = contract_result "PASS" []

pub pass_status : pass.status ≡ "PASS"
unfolding contract_result
pass_status = refl

chosen : validate_requirement_selection (dict choices) ≡ ok pass
unfolding validate_requirement_selection selection_result choose choose_named weigh_runs
    all_run_codes run_codes cumcm.Py.Value.eq
chosen = refl

validate_requirement_selection-AllServed_example :
    AllServed (dicts (elements run_items)) run_map output_map (elements wanted)
validate_requirement_selection-AllServed_example =
    validate_requirement_selection-AllServed choices selection run_map output_map wanted run_items
      pass refl refl refl refl refl chosen pass_status

abbrev pub forecast_claim : Fields
forecast_claim = fields (
    ("claim_type", str "PREDICTIVE")
    ∷ ("status", str "SUPPORTED")
    ∷ (
      "support_predicates",
      dict (
          fields
            (("validation_boundary_frozen", bool true) ∷ ("held_out_test_valid", bool true) ∷ [])),
    )
    ∷ ("selected_run_ids", only "RUN-1")
    ∷ ("selected_output_ids", only "O1")
    ∷ ("metric_ids", only "rmse")
    ∷ ("limitations", list nil)
    ∷ ("scope", dict (fields []))
    ∷ [])

abbrev claim_bundle : Fields
claim_bundle = fields (
    ("claim", dict forecast_claim)
    ∷ ("runs", list run_items)
    ∷ (
      "outputs",
      list (cons (dict (fields (("output_id", str "O1") ∷ ("metric_ids", only "rmse") ∷ []))) nil),
    )
    ∷ ("comparators", list nil)
    ∷ ("validation", dict (fields []))
    ∷ [])

supported : validate_semantic_claim_support (dict claim_bundle) ≡ ok pass
unfolding validate_semantic_claim_support support_result aggregate_ok cumcm.Py.Value.eq
supported = refl

validate_semantic_claim_support-IsSupported_example :
    IsSupported forecast_claim (dicts (elements run_items))
validate_semantic_claim_support-IsSupported_example =
    validate_semantic_claim_support-IsSupported claim_bundle forecast_claim run_items pass refl refl
      supported pass_status

abbrev registry : Fields
registry = fields (
    (
      "RUN-1",
      dict (
          fields (
            ("outcome", str "SUCCESS")
            ∷ ("trusted_capture", bool true)
            ∷ ("supersession", null)
            ∷ [])),
    )
    ∷ [])

eligible :
    validate_runtime_run_eligibility (dict choices) (dict claim_bundle) (dict registry) ≡ ok pass
unfolding validate_runtime_run_eligibility eligibility_codes
eligible = refl

named_runs : selected_runtime_run_ids choices ≡ ok ("RUN-1" ∷ [])
unfolding selected_runtime_run_ids sorted_set cumcm.Kernel.Gate.insert_text
named_runs = refl

validate_runtime_run_eligibility-IsEligible_example :
    IsEligible registry (dicts (elements run_items)) (dicts (elements run_items)) "RUN-1"
validate_runtime_run_eligibility-IsEligible_example =
    validate_runtime_run_eligibility-IsEligible choices claim_bundle registry (elements run_items)
      (elements run_items) ("RUN-1" ∷ []) "RUN-1" pass refl refl named_runs refl eligible
      pass_status
