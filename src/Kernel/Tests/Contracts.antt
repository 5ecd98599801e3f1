-- ===== src/Kernel/Tests/Contracts.antt =====
-- A requirement with one source that suffices for it.
use cumcm.Base.{String, ◌≡◌, refl, false, [], ◌∷◌}
use cumcm.Py.Exn.{ok}
use cumcm.Py.Value.{Value, bool, str, list, dict, nil, cons, Items, Fields, fields, texts}
use cumcm.Kernel.Gate.{contract_result}
use cumcm.Kernel.Contract.{string_set, source_provenance_complete, requirement_terms_ok}
use cumcm.Kernel.Contract.Evaluate.{
  judge, judge_all, data_status, inputs_of, evaluate_data_sufficiency,
}
use cumcm.Kernel.Contract.Assessment.{assessments_ok, validate_data_sufficiency_record}
use cumcm.Kernel.Contract.Assessed.{IsAssessed, validate_data_sufficiency_record-IsAssessed}
use cumcm.Kernel.Contract.Backed.{IsCovered}
use cumcm.Kernel.Contract.Covered.{evaluate_data_sufficiency-IsCovered}
use cumcm.Kernel.Tests.{zeros, empty_host}

abbrev only : String → Value
only s = list (texts (s ∷ []))

abbrev price_series : Fields
price_series = fields (
    ("source_id", str "S1")
    ∷ ("provenance", str "provided with the problem")
    ∷ ("authority", str "organiser")
    ∷ ("retrieval_time", str "2026-01-01T00:00:00Z")
    ∷ ("license_or_usage_status", str "PERMITTED")
    ∷ ("hash", str zeros)
    ∷ ("freshness", str "CURRENT")
    ∷ ("geographic_scope", only "CN")
    ∷ ("time_scope", list (texts ("2024" ∷ "2025" ∷ [])))
    ∷ ("entity_scope", only "market")
    ∷ ("field_schema", list (texts ("day" ∷ "price" ∷ [])))
    ∷ ("limitations", list nil)
    ∷ ("evidence_class", str "PROVIDED_EMPIRICAL")
    ∷ ("supports_requirement_ids", only "R1")
    ∷ [])

abbrev forecast : Fields
forecast = fields (
    ("requirement_id", str "R1")
    ∷ ("required_evidence_classes", only "PROVIDED_EMPIRICAL")
    ∷ ("allowed_evidence_classes", only "PROVIDED_EMPIRICAL")
    ∷ ("minimum_data_fields", only "price")
    ∷ ("required_time_scope", only "2025")
    ∷ ("required_entity_scope", only "market")
    ∷ ("dependency_requirements", list nil)
    ∷ ("external_data_allowed", bool false)
    ∷ ("external_data_required", bool false)
    ∷ ("simulation_substitution_allowed", bool false)
    ∷ ("partial_completion_allowed", bool false)
    ∷ ("completion_rule", str "forecast with an error bound")
    ∷ [])

abbrev wanted : Items
wanted = cons (dict forecast) nil

abbrev payload : Fields
payload = fields (
    ("requirements", list wanted)
    ∷ ("sources", list (cons (dict price_series) nil))
    ∷ ("acquisition_plans", list nil)
    ∷ [])

enough : evaluate_data_sufficiency empty_host (dict payload) ≡ ok (contract_result "SUFFICIENT" [])
unfolding evaluate_data_sufficiency judge_all judge data_status requirement_terms_ok
    source_provenance_complete string_set cumcm.Py.Text.hex64 cumcm.Py.Value.eq
enough = refl

status : (contract_result "SUFFICIENT" []).status ≡ "SUFFICIENT"
unfolding contract_result
status = refl

evaluate_data_sufficiency-IsCovered_example : IsCovered empty_host (inputs_of payload) forecast
evaluate_data_sufficiency-IsCovered_example =
    evaluate_data_sufficiency-IsCovered empty_host payload wanted (contract_result "SUFFICIENT" [])
      0 forecast enough status refl refl refl

-- The same payload as a record, with its one assessment.
abbrev assessment : Fields
assessment = fields (
    ("requirement_id", str "R1")
    ∷ ("data_sufficiency_status", str "SUFFICIENT")
    ∷ ("missing_fields", list nil)
    ∷ ("missing_entities", list nil)
    ∷ ("missing_time_scope", list nil)
    ∷ ("candidate_sources", list nil)
    ∷ ("acquisition_cost", str "NONE")
    ∷ ("acquisition_time", str "NONE")
    ∷ ("allowed_substitutions", list nil)
    ∷ ("forbidden_substitutions", list nil)
    ∷ ("affected_downstream_stages", list nil)
    ∷ [])

abbrev preflight : Fields
preflight = fields (
    ("contract_version", str "data-sufficiency/v1")
    ∷ ("requirements", list wanted)
    ∷ ("sources", list (cons (dict price_series) nil))
    ∷ ("acquisition_plans", list nil)
    ∷ ("requirement_assessments", list (cons (dict assessment) nil))
    ∷ [])

recorded :
    validate_data_sufficiency_record empty_host
      (dict preflight)
      (list wanted)
      (list (cons (dict price_series) nil))
    ≡ ok (contract_result "SUFFICIENT" [])
unfolding evaluate_data_sufficiency judge_all judge data_status requirement_terms_ok
    source_provenance_complete string_set cumcm.Py.Text.hex64 cumcm.Py.Value.eq
    validate_data_sufficiency_record assessments_ok
recorded = refl

validate_data_sufficiency_record-IsAssessed_example :
    IsAssessed empty_host preflight (list wanted) (list (cons (dict price_series) nil)) forecast
validate_data_sufficiency_record-IsAssessed_example =
    validate_data_sufficiency_record-IsAssessed empty_host preflight (list wanted)
      (list (cons (dict price_series) nil)) wanted (contract_result "SUFFICIENT" []) 0 forecast
      recorded status refl refl refl
