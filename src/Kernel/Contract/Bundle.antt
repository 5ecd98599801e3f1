-- ===== src/Kernel/Contract/Bundle.antt =====
-- `validate_semantic_claim_bundle` and `validate_evidence_compatibility`.
use cumcm.Base.{String, Bool, false, List, [], ◌∷◌, ◌++◌, all, if◌then◌else◌}
use cumcm.Py.Exn.{Py, ok, ◌>>=◌}
use cumcm.Py.Value.{Value, str, list, dict, Items, Fields, fields, elements, is_text}
use cumcm.Py.Dict.{get}
use cumcm.Py.Records.{map_of}
use cumcm.Kernel.Gate.{ContractResult, contract_result}
use cumcm.Kernel.Contract.Claims.{validate_semantic_claim_support}

-- The payload that the bundle makes for one of its claims.
abbrev pub claim_payload : Fields → Value → Value
claim_payload record' claim = dict (
    fields (
      ("claim", claim)
      ∷ ("runs", get "runs" record')
      ∷ ("outputs", get "outputs" record')
      ∷ ("comparators", get "comparators" record')
      ∷ ("validation", get "validation" record')
      ∷ ("aggregate", get "aggregate" record')
      ∷ []))

abbrev pub outcomes_of : Fields → List Value → Py (List ContractResult)
outcomes_of record' claims =
    map_of (λ claim. validate_semantic_claim_support (claim_payload record' claim)) claims

abbrev pub codes_of : List ContractResult → List String
codes_of [] = []
codes_of (r ∷ rs) = r.reason_codes ++ codes_of rs

abbrev pub is_pass : ContractResult → Bool
is_pass r = is_text (str r.status) "PASS"

abbrev bundle_result : List ContractResult → ContractResult
bundle_result outcomes =
    if all is_pass outcomes
    then contract_result "PASS" []
    else contract_result "BLOCK" (codes_of outcomes)

abbrev bundle_invalid : Py ContractResult
bundle_invalid = ok (contract_result "BLOCK" ("RC_SEMANTIC_CLAIM_BUNDLE_INVALID" ∷ []))

abbrev bundle_of : Fields → Value → Py ContractResult
bundle_of record' (list (Items.cons v vs)) =
    outcomes_of record' (v ∷ elements vs) >>= λ outcomes. ok (bundle_result outcomes)
bundle_of record' v = bundle_invalid

unfoldable pub validate_semantic_claim_bundle : Value → Py ContractResult
validate_semantic_claim_bundle (dict record') =
    if is_text (get "contract_version" record') "claim-evidence/v3"
    then bundle_of record' (get "claims" record')
    else bundle_invalid
validate_semantic_claim_bundle v = bundle_invalid

abbrev compatibility : Value → ContractResult
compatibility status =
    if is_text status "PARTIAL"
    then contract_result "PARTIAL" ("RC_AGGREGATE_PRIMARY_REQUIREMENT_INCOMPLETE" ∷ [])
    else if is_text status "COMPLETE"
    then contract_result "PASS" []
    else contract_result "BLOCK" ("RC_EVIDENCE_COMPATIBILITY_INPUT_INVALID" ∷ [])

abbrev all_success : Value → Bool
all_success (list xs) = all (λ v. is_text v "SUCCESS") (elements xs)
all_success v = false

unfoldable pub validate_evidence_compatibility : Value → ContractResult
validate_evidence_compatibility (dict payload) =
    if all_success (get "run_outcomes" payload)
    then compatibility (get "handoff_status" payload)
    else contract_result "BLOCK" ("RC_REQUIREMENT_SELECTED_RUN_INVALID_STATUS" ∷ [])
validate_evidence_compatibility v =
    contract_result "BLOCK" ("RC_EVIDENCE_COMPATIBILITY_INPUT_INVALID" ∷ [])
