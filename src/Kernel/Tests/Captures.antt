-- ===== src/Kernel/Tests/Captures.antt =====
-- A selection of one run that was captured in the scenario.
use cumcm.Base.{◌≡◌, refl, [], ◌∷◌}
use cumcm.Py.Exn.{ok}
use cumcm.Py.Value.{Value, str, list, dict, nil, cons, Items, Fields, fields, texts, elements}
use cumcm.Py.Dict.{get, set}
use cumcm.Py.Records.{dicts}
use cumcm.Kernel.Runtime.Compatibility.{
  capture_all, compatibility_codes, bridge_codes, compatibility_result,
  validate_runtime_selection_compatibility,
}
use cumcm.Kernel.Runtime.Captured.{IsCaptured, validate_runtime_selection_compatibility-IsCaptured}
use cumcm.Kernel.Tests.{zeros, empty_host}
use cumcm.Kernel.Tests.Choices.{only, selection, wanted, run_map, pass, pass_status}

abbrev hashes : Fields
hashes = fields (
    ("input_hash", str zeros)
    ∷ ("scenario_hash", str zeros)
    ∷ ("configuration_hash", str zeros)
    ∷ [])

abbrev captured_items : Items
captured_items = cons (dict (set "run_id" (str "RUN-1") hashes)) nil

abbrev portfolio : Fields
portfolio = set "cross_requirement_constraints" (list nil) (
    set "dependency_bridges" (list nil) (
      set "compatibility"
        (dict (
          fields (
            ("kind", str "SINGLE_RUN_V1")
            ∷ ("version", str "compatibility/v1")
            ∷ ("ordered_ids", only "R1")
            ∷ ("permuted_ids", only "R1")
            ∷ [])))
        selection))

abbrev portfolio_record : Fields
portfolio_record = fields (
    ("requirements", list wanted)
    ∷ ("runs", list captured_items)
    ∷ ("selection", dict portfolio)
    ∷ [])

abbrev manifests : Fields
manifests = fields (("RUN-1", dict hashes) ∷ [])

compatible :
    validate_runtime_selection_compatibility empty_host
      (dict portfolio_record)
      (dict manifests)
      (str zeros)
    ≡ ok pass
unfolding validate_runtime_selection_compatibility compatibility_result capture_all
    compatibility_codes bridge_codes set cumcm.Py.Value.eq cumcm.Py.Text.hex64
compatible = refl

portfolio_runs : get "requirement_to_run_map" portfolio ≡ dict run_map
unfolding set
portfolio_runs = refl

validate_runtime_selection_compatibility-IsCaptured_example :
    IsCaptured (str zeros) (dicts (elements captured_items)) manifests "RUN-1"
validate_runtime_selection_compatibility-IsCaptured_example =
    validate_runtime_selection_compatibility-IsCaptured empty_host portfolio_record portfolio
      manifests run_map (str zeros) wanted captured_items "RUN-1" pass refl refl refl portfolio_runs
      refl compatible pass_status
