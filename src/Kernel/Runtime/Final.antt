-- ===== src/Kernel/Runtime/Final.antt =====
-- `build_runtime_final_result`: the final result that a selection and the manifests determine.
use cumcm.Base.{String, Option, none, some, List, [], ◌∷◌, map, if◌then◌else◌}
use cumcm.Py.Exn.{Py, ok, raise, value_error, type_error, attribute_error, ◌>>=◌, ◌>>◌, require}
use cumcm.Py.Value.{
  Value, null, str, list, dict, Items, Fields, end, field, fields, texts, items, is_list,
}
use cumcm.Py.Dict.{get, get_or, item}
use cumcm.Py.Member.{iterate, hashable, member}
use cumcm.Py.Records.{dicts, named, set_of, map_of, gather, get_of, strings_in}
use cumcm.Kernel.State.{hex64_value}
use cumcm.Kernel.Host.{Host, canonical_hash}
use cumcm.Kernel.Gate.{sorted_set}
use cumcm.Kernel.Contract.Selection.{only_value}
use cumcm.Kernel.Runtime.Eligibility.{selected_runtime_run_ids}
use cumcm.Kernel.Runtime.Sorted.{sorted_values}

-- `registry.get(run_id, {}).get("decision_hash")`
abbrev decision_of : Fields → String → Py Value
decision_of registry run_id = get_of "decision_hash" (get_or run_id (dict end) registry) >>= λ v.
    if hashable v then ok v else raise type_error

abbrev one_decision : Option Value → Py Value
one_decision none = raise (value_error "RC_FINALIZATION_DECISION_LINEAGE_INVALID")
one_decision (some v) =
    if hex64_value v then ok v else raise (value_error "RC_FINALIZATION_DECISION_LINEAGE_INVALID")

-- The one decision hash that all selected manifests have.
unfoldable pub decision_hash : Fields → List String → Py Value
decision_hash registry run_ids =
    map_of (decision_of registry) run_ids >>= λ hashes. one_decision (only_value hashes)

-- The requirements that a run is selected for.
abbrev pub served : String → Fields → Py (List String)
served run_id end = ok []
served run_id (field requirement_id ids r) = member (str run_id) ids >>= λ chosen.
    served run_id r >>= λ rest. ok (if chosen then requirement_id ∷ rest else rest)

-- `output_map.get(requirement_id, [])`
abbrev outputs_for : Value → String → Py (List Value)
outputs_for (dict output_map) requirement_id =
    iterate (get_or requirement_id (list Items.nil) output_map)
outputs_for v requirement_id = raise attribute_error

abbrev pub output_ids_for : Value → List String → Py (List Value)
output_ids_for output_map requirement_ids =
    gather (outputs_for output_map) requirement_ids >>= set_of >>= sorted_values

abbrev pub binding_of : String → Fields → Fields → List String → List Value → Fields
binding_of digest manifest declared requirement_ids output_ids = fields (
    ("manifest_hash", str digest)
    ∷ ("input_hash", get "input_hash" manifest)
    ∷ ("scenario_hash", get "scenario_hash" declared)
    ∷ ("configuration_hash", get "configuration_hash" manifest)
    ∷ ("output_hash", get "output_hash" manifest)
    ∷ ("requirement_ids", list (texts requirement_ids))
    ∷ ("output_ids", list (items output_ids))
    ∷ [])

abbrev pub run_binding : Host → Fields → Value → String → Value → Option Fields → Py Value
run_binding H run_map output_map run_id (dict manifest) (some declared) =
    served run_id run_map >>= λ chosen.
    output_ids_for output_map (sorted_set chosen) >>= λ output_ids.
    canonical_hash H (dict manifest) >>= λ digest.
    ok (dict (binding_of digest manifest declared (sorted_set chosen) output_ids))
run_binding H run_map output_map run_id _ _ = raise (value_error "RC_ACTUAL_RUN_REGISTRY_MISSING")

module _ (H : Host) (registry : Fields) (runs : List Fields) (run_map : Fields)
    (output_map : Value) where
  unfoldable pub run_bindings : List String → Py Fields
  run_bindings [] = ok end
  run_bindings (run_id ∷ r) =
      run_binding H run_map output_map run_id (get run_id registry) (named "run_id" run_id runs)
      >>= λ binding. run_bindings r >>= λ rest. ok (field run_id binding rest)

abbrev claim_id_of : Option Fields → Value
claim_id_of none = null
claim_id_of (some claim) = get "claim_id" claim

abbrev metric_of : Option Fields → Value
metric_of none = null
metric_of (some requirement) = get "selection_metric" requirement

module _ (run_map : Fields) (output_map : Value) (requirements claims : List Fields) where
  abbrev requirement_result : String → Py Value
  requirement_result name = get_of name output_map >>= λ output_ids. ok (
      dict (
        fields (
          ("selected_run_ids", get name run_map)
          ∷ ("selected_output_ids", output_ids)
          ∷ ("metric_ids", list (items (metric_of (named "requirement_id" name requirements) ∷ [])))
          ∷ ("claim_id", claim_id_of (named "requirement_id" name claims))
          ∷ [])))

  unfoldable pub requirement_results : List String → Py Fields
  requirement_results [] = ok end
  requirement_results (name ∷ r) = requirement_result name >>= λ result.
      requirement_results r >>= λ rest. ok (field name result rest)

-- The names under a key, each once and sorted.
abbrev pub names_under : String → List Fields → List String
names_under key records = sorted_set (strings_in (map (get key) records))

-- The dictionaries in `record.get(key, [])`.
abbrev pub records_in : String → Fields → Py (List Fields)
records_in key record' = iterate (get_or key (list Items.nil) record') >>= λ xs. ok (dicts xs)

abbrev pub final_result : Fields → Value → List String → Fields → Fields → Value → Fields
final_result selection decision run_ids bindings results limitations = fields (
    ("contract_version", str "final-result/v2")
    ∷ ("status", str "FINAL_CANDIDATE")
    ∷ ("selection_mode", get "selection_mode" selection)
    ∷ ("decision_hash", decision)
    ∷ ("selected_run_ids", list (texts run_ids))
    ∷ ("run_bindings", dict bindings)
    ∷ ("requirement_results", dict results)
    ∷ ("aggregate_status", str "COMPLETE")
    ∷ ("limitations", limitations)
    ∷ [])

abbrev pub limitations_of : Fields → Py Value
limitations_of selection =
    require (is_list (get "limitations" selection))
      (value_error "RC_FINALIZATION_LIMITATIONS_INVALID")
    >> ok (get "limitations" selection)

module _ (H : Host) (selection_record semantic_record registry : Fields) where
  abbrev pub build_from : List String → Fields → Fields → Py Fields
  build_from run_ids selection run_map = do
    output_map ← item "requirement_to_output_map" selection
    runs ← records_in "runs" selection_record
    requirements ← records_in "requirements" selection_record
    claims ← records_in "claims" semantic_record
    decision ← decision_hash registry run_ids
    bindings ← run_bindings H registry runs run_map output_map run_ids
    results ←
        requirement_results run_map output_map requirements claims
          (names_under "requirement_id" requirements)
    limitations ← limitations_of selection
    ok (final_result selection decision run_ids bindings results limitations)

  -- The selection is a dictionary with a map of runs, since it names runs.
  abbrev pub build_with : List String → Value → Py Fields
  build_with run_ids (dict selection) = elim (get "requirement_to_run_map" selection) [
    | dict run_map ↦ build_from run_ids selection run_map
    | _ ↦ raise (value_error "RC_REQUIREMENT_SELECTION_INPUT_INVALID")
  ]
  build_with run_ids v = raise (value_error "RC_REQUIREMENT_SELECTION_INPUT_INVALID")

  unfoldable pub build_runtime_final_result : Py Fields
  build_runtime_final_result = selected_runtime_run_ids selection_record >>= λ run_ids.
      build_with run_ids (get "selection" selection_record)
