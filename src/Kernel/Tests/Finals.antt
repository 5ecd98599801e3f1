-- ===== src/Kernel/Tests/Finals.antt =====
-- A final result that follows from its manifests, and two claims for two requirements.
use cumcm.Base.{◌≡◌, refl, true, some, [], ◌∷◌}
use cumcm.Py.Exn.{Py, ok, raise}
use cumcm.Py.Value.{lookup, eq}
use cumcm.Py.Dict.{get, set}
use cumcm.Kernel.Runtime.Bound.{IsBoundRun, validate_runtime_finalization-IsBoundRun}
use cumcm.Kernel.Tests.{zeros, empty_host}
use cumcm.Kernel.Runtime.Final.{build_runtime_final_result}
use cumcm.Kernel.Runtime.Evidence.{build_runtime_claim_evidence}
use cumcm.Kernel.Runtime.Finalization.{expected, validate_runtime_finalization}
use cumcm.Py.Value.{
  Value, null, bool, str, list, dict, nil, cons, Items, Fields, fields, texts, elements,
}
use cumcm.Kernel.Gate.{ContractResult, contract_result, sorted_set}
use cumcm.Kernel.Runtime.Eligibility.{selected_runtime_run_ids}
use cumcm.Kernel.Runtime.Aggregate.{ClaimMap, aggregate_valid, validate_runtime_aggregate_mapping}
use cumcm.Kernel.Runtime.OneToOne.{IsOneToOne, validate_runtime_aggregate_mapping-IsOneToOne}
use cumcm.Kernel.Tests.Choices.{only, selection, choices, pass, pass_status}

-- A selection with its manifest, and the final result that follows.
abbrev decided : Fields
decided = fields (
    (
      "RUN-1",
      dict (
          fields (
            ("decision_hash", str zeros)
            ∷ ("input_hash", str zeros)
            ∷ ("output_hash", str zeros)
            ∷ [])),
    )
    ∷ [])

abbrev decided_selection : Fields
decided_selection = set "limitations" (list nil) selection

abbrev decided_choices : Fields
decided_choices = set "selection" (dict decided_selection) choices

abbrev decided_claims : Fields
decided_claims = fields (
    (
      "claims",
      list (
          cons
            (dict (
              fields (
                ("requirement_id", str "R1")
                ∷ ("claim_id", str "C-R1")
                ∷ ("selected_run_ids", only "RUN-1")
                ∷ [])))
            nil),
    )
    ∷ ("aggregate", dict (fields (("primary_requirement_ids", only "R1") ∷ [])))
    ∷ [])

abbrev built : Py Fields → Fields
built (ok fs) = fs
built (raise e) = fields []

abbrev final : Fields
final = built (build_runtime_final_result empty_host decided_choices decided_claims decided)

abbrev evidence : Fields
evidence = built (build_runtime_claim_evidence empty_host final decided_claims decided)

finalized :
    validate_runtime_finalization empty_host
      (dict final)
      (dict evidence)
      (dict decided_choices)
      (dict decided_claims)
      (dict decided)
    ≡ ok pass
unfolding validate_runtime_finalization expected build_runtime_final_result
    build_runtime_claim_evidence selected_runtime_run_ids set cumcm.Py.Value.eq
    cumcm.Kernel.Runtime.Final.decision_hash sorted_set cumcm.Py.Text.hex64
    cumcm.Kernel.Runtime.Final.run_bindings cumcm.Kernel.Runtime.Sorted.sorted_values
    cumcm.Kernel.Runtime.Final.requirement_results cumcm.Kernel.Runtime.Evidence.claim_bindings
    contract_result cumcm.Kernel.Host.canonical_hash
finalized = refl

chosen_run : selected_runtime_run_ids decided_choices ≡ ok ("RUN-1" ∷ [])
unfolding selected_runtime_run_ids sorted_set cumcm.Kernel.Gate.insert_text set
chosen_run = refl

final_bindings : lookup "run_bindings" final ≡ some (get "run_bindings" final)
unfolding build_runtime_final_result selected_runtime_run_ids set cumcm.Py.Value.eq
    cumcm.Kernel.Runtime.Final.decision_hash sorted_set cumcm.Py.Text.hex64
    cumcm.Kernel.Runtime.Final.run_bindings cumcm.Kernel.Runtime.Sorted.sorted_values
    cumcm.Kernel.Runtime.Final.requirement_results cumcm.Kernel.Host.canonical_hash
final_bindings = refl

validate_runtime_finalization-IsBoundRun_example :
    (bindings : Fields) × (eq (get "run_bindings" final) (dict bindings) ≡ true)
    × IsBoundRun empty_host decided bindings "RUN-1"
validate_runtime_finalization-IsBoundRun_example =
    validate_runtime_finalization-IsBoundRun empty_host final evidence decided_choices
      decided_claims decided (get "run_bindings" final) ("RUN-1" ∷ []) "RUN-1" pass chosen_run refl
      final_bindings finalized pass_status

-- Two claims for two requirements.
abbrev claim_items : Items
claim_items =
    cons (dict (fields (("requirement_id", str "R1") ∷ ("claim_id", str "C-R1") ∷ [])))
      (cons (dict (fields (("requirement_id", str "R2") ∷ ("claim_id", str "C-R2") ∷ []))) nil)

abbrev both_ids : Value
both_ids = list (texts ("R1" ∷ "R2" ∷ []))

abbrev claim_ids : Fields
claim_ids = fields (("R1", str "C-R1") ∷ ("R2", str "C-R2") ∷ [])

abbrev both_claims : Fields
both_claims = fields (
    ("primary_requirement_ids", both_ids)
    ∷ ("supported_requirement_ids", both_ids)
    ∷ ("requirement_claim_ids", dict claim_ids)
    ∷ [])

abbrev aggregated : Fields
aggregated = fields (("aggregate", dict both_claims) ∷ ("claims", list claim_items) ∷ [])

abbrev known_claims : ClaimMap
known_claims = (str "R1", str "C-R1") ∷ (str "R2", str "C-R2") ∷ []

mapped : validate_runtime_aggregate_mapping (dict aggregated) both_ids ≡ ok pass
unfolding validate_runtime_aggregate_mapping aggregate_valid cumcm.Py.Value.eq
mapped = refl

validate_runtime_aggregate_mapping-IsOneToOne_example :
    IsOneToOne (elements (texts ("R1" ∷ "R2" ∷ []))) known_claims claim_ids
validate_runtime_aggregate_mapping-IsOneToOne_example =
    validate_runtime_aggregate_mapping-IsOneToOne aggregated both_claims claim_ids
      (texts ("R1" ∷ "R2" ∷ [])) claim_items known_claims pass refl refl refl refl mapped
      pass_status
