-- ===== src/Kernel/Runtime/Eligibility.antt =====
-- `_selected_runtime_run_ids` and `validate_runtime_run_eligibility`.
use cumcm.Base.{
  String, Bool, true, false, ◌&&◌, Option, none, some, List, [], ◌∷◌, ◌++◌, if◌then◌else◌,
}
use cumcm.Py.Exn.{Py, ok, raise, value_error, ◌>>=◌}
use cumcm.Py.Value.{Value, null, list, dict, Items, Fields, values, is_text, is_true, truthy}
use cumcm.Py.Dict.{get, get_or}
use cumcm.Py.Member.{iterate}
use cumcm.Py.Records.{dicts, named, all_elements, strings_in}
use cumcm.Kernel.Gate.{ContractResult, contract_result, sorted_set}
use cumcm.Kernel.Contract.{contract_of}
use cumcm.Kernel.Contract.Selection.{is_sound}

-- The runs that a selection names, with repetitions.
abbrev pub selected_ids : Fields → List String
selected_ids run_map = strings_in (all_elements (values run_map))

abbrev pub run_map_of : Value → Option Fields
run_map_of (dict selection) = elim (get "requirement_to_run_map" selection) [
  | dict run_map ↦ some run_map
  | _ ↦ none
]
run_map_of v = none

abbrev pub sorted_ids : List String → Py (List String)
sorted_ids [] = raise (value_error "RC_REQUIREMENT_SELECTED_RUN_MISSING")
sorted_ids (s ∷ r) = ok (sorted_set (s ∷ r))

unfoldable pub selected_runtime_run_ids : Fields → Py (List String)
selected_runtime_run_ids selection_record = elim (run_map_of (get "selection" selection_record)) [
  | none ↦ raise (value_error "RC_REQUIREMENT_SELECTION_INPUT_INVALID")
  | some run_map ↦ sorted_ids (selected_ids run_map)
]

abbrev is_null : Value → Bool
is_null null = true
is_null _ = false

-- The manifest of a run that succeeded, was captured, and is not superseded.
abbrev pub is_trusted : Fields → Bool
is_trusted manifest =
    is_text (get "outcome" manifest) "SUCCESS"
    && is_true (get "trusted_capture" manifest)
    && is_null (get "supersession" manifest)

abbrev pub described : Fields → Option Fields → Option Fields → List String
described manifest (some a) (some b) =
    if is_trusted manifest && is_sound a && is_sound b
    then []
    else "RC_REQUIREMENT_SELECTED_RUN_INVALID_STATUS" ∷ []
described manifest a b = "RC_REQUIREMENT_SELECTED_RUN_MISSING" ∷ []

abbrev pub manifest_codes : Value → Option Fields → Option Fields → List String
manifest_codes (dict manifest) a b = described manifest a b
manifest_codes v a b = "RC_REQUIREMENT_SELECTED_RUN_MISSING" ∷ []

module _ (registry : Fields) (selection_runs semantic_runs : List Fields) where
  unfoldable pub eligibility_codes : List String → List String
  eligibility_codes [] = []
  eligibility_codes (run_id ∷ r) =
      manifest_codes (get run_id registry) (named "run_id" run_id selection_runs)
        (named "run_id" run_id semantic_runs)
      ++ eligibility_codes r

-- `record.get("runs", [])`
abbrev pub runs_of : Fields → Py (List Value)
runs_of record' = iterate (get_or "runs" (list Items.nil) record')

abbrev pub eligibility : Fields → Fields → Fields → Option Fields → Py ContractResult
eligibility selection_record semantic_record registry none =
    ok (contract_result "BLOCK" ("RC_REQUIREMENT_SELECTION_INPUT_INVALID" ∷ []))
eligibility selection_record semantic_record registry (some run_map) =
    runs_of selection_record >>= λ selection_runs. runs_of semantic_record >>= λ semantic_runs. ok (
      contract_of (
        eligibility_codes registry (dicts selection_runs) (dicts semantic_runs)
          (selected_ids run_map)))

abbrev pub missing : Py ContractResult
missing = ok (contract_result "BLOCK" ("RC_ACTUAL_RUN_REGISTRY_MISSING" ∷ []))

unfoldable pub validate_runtime_run_eligibility : Value → Value → Value → Py ContractResult
validate_runtime_run_eligibility (dict selection_record) (dict semantic_record) (dict registry) =
    if truthy (dict registry)
    then eligibility selection_record semantic_record registry
        (run_map_of (get "selection" selection_record))
    else missing
validate_runtime_run_eligibility _ _ _ = missing
