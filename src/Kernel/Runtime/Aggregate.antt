-- ===== src/Kernel/Runtime/Aggregate.antt =====
-- `validate_runtime_aggregate_mapping`: one claim for each primary requirement.
use cumcm.Base.{Bool, true, false, ◌&&◌, Option, none, some, List, [], ◌∷◌, all, map, if◌then◌else◌}
use cumcm.Py.Exn.{Py, ok, raise, type_error, ◌>>=◌}
use cumcm.Py.Value.{Value, str, list, dict, Fields, end, field, elements, keys, values, eq}
use cumcm.Py.Dict.{get}
use cumcm.Py.Member.{hashable, and_then}
use cumcm.Py.Records.{dicts, set_of, same_values, distinct_values, contains_value}
use cumcm.Kernel.Gate.{ContractResult, contract_result}

-- `{claim.get("requirement_id"): claim.get("claim_id") for claim in claims}`, with repetitions.
abbrev pub ClaimMap : Type 0
ClaimMap = List (Value × Value)

abbrev pub claim_map : List Fields → Py ClaimMap
claim_map [] = ok []
claim_map (claim ∷ r) =
    if hashable (get "requirement_id" claim)
    then (claim_map r >>= λ rest. ok ((get "requirement_id" claim, get "claim_id" claim) ∷ rest))
    else raise type_error

abbrev pub claimed : Value → ClaimMap → Option Value
claimed k [] = none
claimed k ((j, v) ∷ r) = elim (claimed k r) [
  | some w ↦ some w
  | none ↦ if eq j k then some v else none
]

abbrev pub claims_it : Option Value → Value → Bool
claims_it none v = false
claims_it (some w) v = eq v w

abbrev pub matches : Fields → ClaimMap → Bool
matches end claims = true
matches (field k v r) claims = claims_it (claimed (str k) claims) v && matches r claims

-- `mapping == claim_map`
abbrev pub same_map : Fields → ClaimMap → Bool
same_map mapping claims =
    all (λ c. contains_value (map str (keys mapping)) c.0) claims && matches mapping claims

abbrev pub mapping_ok : List Value → ClaimMap → Value → Py Bool
mapping_ok expected claims (dict mapping) =
    and_then (same_values (map str (keys mapping)) expected && same_map mapping claims)
      (set_of (values mapping) >>= λ ids. ok (distinct_values ids))
mapping_ok expected claims v = ok false

module _ (expected : List Value) (claims : ClaimMap) where
  abbrev pub exact_lists : List Value → List Value → Py Bool
  exact_lists declared supported = set_of declared >>= λ ds. and_then (distinct_values ds) (
      set_of supported >>= λ ss.
      ok (distinct_values ss && same_values ds expected && same_values ss expected))

  unfoldable pub aggregate_valid : Value → Value → Value → Py Bool
  aggregate_valid (list declared) (list supported) mapping =
      exact_lists (elements declared) (elements supported) >>= λ exact.
      and_then exact (mapping_ok expected claims mapping)
  aggregate_valid _ _ mapping = ok false

abbrev pub invalid : Py ContractResult
invalid = ok (contract_result "BLOCK" ("RC_AGGREGATE_CLAIM_MAPPING_INVALID" ∷ []))

abbrev pub aggregate_result : Bool → ContractResult
aggregate_result valid =
    if valid
    then contract_result "PASS" []
    else contract_result "BLOCK" ("RC_AGGREGATE_CLAIM_MAPPING_INVALID" ∷ [])

abbrev pub aggregate_of : List Value → Value → Value → Py ContractResult
aggregate_of primary (dict aggregate) (list claims) =
    claim_map (dicts (elements claims)) >>= λ known. set_of primary >>= λ expected.
    aggregate_valid expected known (get "primary_requirement_ids" aggregate)
      (get "supported_requirement_ids" aggregate) (get "requirement_claim_ids" aggregate)
    >>= λ valid. ok (aggregate_result valid)
aggregate_of primary _ _ = invalid

unfoldable pub validate_runtime_aggregate_mapping : Value → Value → Py ContractResult
validate_runtime_aggregate_mapping (dict record') (list primary) =
    aggregate_of (elements primary) (get "aggregate" record') (get "claims" record')
validate_runtime_aggregate_mapping _ _ = invalid
