-- ===== src/Kernel/Runtime/Compatibility.antt =====
-- `validate_runtime_selection_compatibility`: selected portfolios against the sealed manifests.
use cumcm.Base.{
  String, Bool, true, false, not, ◌&&◌, Option, some, List, [], ◌∷◌, ◌++◌, all, same_set,
  if◌then◌else◌,
}
use cumcm.Py.Exn.{Py, ok, ◌>>=◌}
use cumcm.Py.Value.{
  Value, str, list, dict, Items, Fields, elements, keys, eq, is_list, is_text, truthy,
}
use cumcm.Py.Dict.{get}
use cumcm.Py.Member.{iterate, and_then, or_then, member_text}
use cumcm.Py.Records.{
  dicts, named, without, set_of, same_values, distinct_values, or_else, get_value,
}
use cumcm.Kernel.State.{hex64_value}
use cumcm.Kernel.Host.{Host, canonical_hash}
use cumcm.Kernel.Gate.{ContractResult, contract_result}
use cumcm.Kernel.Contract.{contract_of}
use cumcm.Kernel.Contract.Selection.{selection_modes, unless_code, conflict}
use cumcm.Kernel.Runtime.Eligibility.{selected_ids}

-- `str(v)`
abbrev pub text_of : Host → Value → String
text_of H (str s) = s
text_of H v = H.str_of v

abbrev bridge_fields : List String
bridge_fields =
    "dependency_requirement_id" ∷ "dependent_requirement_id" ∷ "upstream_run_ids"
    ∷ "downstream_run_ids" ∷ "input_hash" ∷ "scenario_hash" ∷ "lineage_hash" ∷ []

-- `_valid_dependency_bridge`
unfoldable pub valid_dependency_bridge : Host → Value → Value → Value → Value → Value → Py Bool
valid_dependency_bridge H dependency dependent upstream downstream (dict bridge) =
    and_then
      (same_set (keys bridge) bridge_fields
        && eq (get "dependency_requirement_id" bridge) dependency
        && eq (get "dependent_requirement_id" bridge) dependent
        && eq (get "upstream_run_ids" bridge) upstream
        && eq (get "downstream_run_ids" bridge) downstream
        && hex64_value (get "input_hash" bridge)
        && hex64_value (get "scenario_hash" bridge))
      (canonical_hash H (dict (without "lineage_hash" bridge)) >>= λ actual.
        ok (eq (get "lineage_hash" bridge) (str actual)))
valid_dependency_bridge H dependency dependent upstream downstream v = ok false

-- `any(test(bridge) for bridge in bridges)`
abbrev any_bridge : (Value → Py Bool) → List Value → Py Bool
any_bridge test [] = ok false
any_bridge test (bridge ∷ r) = test bridge >>= λ valid. or_then valid (any_bridge test r)

-- What the selected runs show: codes, and the hashes of their manifests.
pub record Capture : Type 0 where
  pub codes : List String
  pub inputs : List Value
  pub scenarios : List Value

abbrev pub uncaptured : String → Capture
uncaptured code = record { codes = code ∷ []; inputs = []; scenarios = [] }

abbrev pub has_hashes : Fields → Bool
has_hashes declared =
    all (λ key. hex64_value (get key declared))
      ("input_hash" ∷ "scenario_hash" ∷ "configuration_hash" ∷ [])

-- The declared hashes are those of the manifest.
abbrev pub is_declared : Fields → Fields → Bool
is_declared declared manifest =
    all (λ key. eq (get key declared) (get key manifest))
      ("input_hash" ∷ "scenario_hash" ∷ "configuration_hash" ∷ [])

abbrev pub both : Capture → Capture → Capture
both a b = record {
  codes = a.codes ++ b.codes;
  inputs = a.inputs ++ b.inputs;
  scenarios = a.scenarios ++ b.scenarios;
}

module _ (H : Host) (scenario_hash : Value) where
  abbrev pub shown : Fields → Fields → Capture
  shown declared manifest = record {
    codes =
        unless_code (is_declared declared manifest) "RC_SELECTION_PORTFOLIO_HASH_MISMATCH"
        ++ unless_code (eq (get "scenario_hash" manifest) scenario_hash)
            "RC_SELECTION_SCENARIO_NOT_CAPTURE_BOUND";
    inputs = str (text_of H (get "input_hash" manifest)) ∷ [];
    scenarios = str (text_of H (get "scenario_hash" manifest)) ∷ [];
  }

  abbrev pub capture_of : Fields → Fields → Capture
  capture_of declared manifest =
      if not (has_hashes declared)
      then uncaptured "RC_SELECTION_PORTFOLIO_HASHES_MISSING"
      else if not (hex64_value (get "scenario_hash" manifest))
      then uncaptured "RC_SELECTION_SCENARIO_NOT_CAPTURE_BOUND"
      else shown declared manifest

  abbrev pub captured : Option Fields → Value → Capture
  captured (some declared) (dict manifest) = capture_of declared manifest
  captured _ _ = uncaptured "RC_ACTUAL_RUN_REGISTRY_MISSING"

  unfoldable pub capture_all : List Fields → Fields → List String → Capture
  capture_all runs registry [] = record { codes = []; inputs = []; scenarios = [] }
  capture_all runs registry (run_id ∷ r) =
      both (captured (named "run_id" run_id runs) (get run_id registry))
        (capture_all runs registry r)

-- The hashes that a joint portfolio shares.
unfoldable pub shared_codes : Capture → Value → Value → List String
shared_codes capture (list (Items.cons i is)) (list (Items.cons s ss)) =
    if not (all hex64_value ((i ∷ elements is) ++ (s ∷ elements ss)))
    then "RC_SELECTION_PORTFOLIO_HASHES_MISSING" ∷ []
    else unless_code
        (same_values (i ∷ elements is) capture.inputs
          && same_values (s ∷ elements ss) capture.scenarios)
        "RC_SELECTION_PORTFOLIO_HASH_MISMATCH"
shared_codes capture _ _ = "RC_SELECTION_PORTFOLIO_HASHES_MISSING" ∷ []

abbrev is_permutation : Value → Value → Py Bool
is_permutation (list ordered) (list permuted) = set_of (elements ordered) >>= λ os.
    and_then (distinct_values os)
      (set_of (elements permuted) >>= λ ps. ok (distinct_values ps && same_values os ps))
is_permutation _ _ = ok false

unfoldable pub compatibility_codes : Value → Py (List String)
compatibility_codes (dict compatibility) =
    member_text (get "kind" compatibility)
      ("RUN_PORTFOLIO_V1" ∷ "REQUIREMENT_ORDER_PERMUTATION_V1" ∷ "SINGLE_RUN_V1" ∷ [])
    >>= λ kind. member_text (get "version" compatibility) ("compatibility/v1" ∷ []) >>= λ version.
        is_permutation (get "ordered_ids" compatibility) (get "permuted_ids" compatibility)
        >>= λ permutation. ok (
            unless_code kind "RC_EVIDENCE_COMPATIBILITY_KIND_INVALID"
            ++ (unless_code version "RC_EVIDENCE_COMPATIBILITY_VERSION_INVALID"
                ++ unless_code permutation "RC_EVIDENCE_COMPATIBILITY_PERMUTATION_INVALID"))
compatibility_codes v = ok ("RC_EVIDENCE_COMPATIBILITY_KIND_INVALID" ∷ [])

module _ (H : Host) (run_map : Fields) (bridges : List Value) where
  abbrev bridged : Value → Value → Value → Value → Py Bool
  bridged dependency dependent (list us) (list ds) =
      or_then (eq (list us) (list ds))
        (any_bridge (valid_dependency_bridge H dependency dependent (list us) (list ds)) bridges)
  bridged dependency dependent _ _ = ok true

  abbrev dependency_codes : Value → Value → List Value → Py (List String)
  dependency_codes dependent downstream [] = ok []
  dependency_codes dependent downstream (d ∷ r) = get_value d run_map >>= λ upstream.
      bridged d dependent upstream downstream >>= λ found.
      dependency_codes dependent downstream r >>= λ rest.
      ok (unless_code found "RC_SELECTION_DEPENDENCY_BRIDGE_MISSING" ++ rest)

  unfoldable pub bridge_codes : List Fields → Py (List String)
  bridge_codes [] = ok []
  bridge_codes (requirement ∷ r) =
      get_value (get "requirement_id" requirement) run_map >>= λ downstream.
      iterate (or_else (get "dependency_requirements" requirement) (list Items.nil))
      >>= λ dependencies.
          dependency_codes (get "requirement_id" requirement) downstream dependencies >>= λ codes.
          bridge_codes r >>= λ rest. ok (codes ++ rest)

abbrev pub bridges_of : Value → List Value
bridges_of (list xs) = elements xs
bridges_of v = []

module _ (H : Host) (selection registry : Fields) (scenario_hash : Value)
    (requirements runs : List Fields) (run_map : Fields) where
  unfoldable pub compatibility_result : Py ContractResult
  compatibility_result =
      let capture = capture_all H scenario_hash runs registry (selected_ids run_map) in
      let bridges = get "dependency_bridges" selection in
      compatibility_codes (get "compatibility" selection) >>= λ kinds.
      bridge_codes H run_map (bridges_of bridges) requirements >>= λ missing. ok (
        contract_of (
          capture.codes
          ++ ((if is_text (get "selection_mode" selection) "JOINT_PORTFOLIO"
                then shared_codes capture (get "shared_input_hashes" selection)
                    (get "shared_scenario_hashes" selection)
                else [])
              ++ (kinds
                  ++ (unless_code (is_list bridges) "RC_SELECTION_DEPENDENCY_BRIDGE_MISSING"
                      ++ (missing
                          ++ unless_code
                              (not (conflict (get "cross_requirement_constraints" selection)))
                              "RC_PORTFOLIO_CROSS_REQUIREMENT_INCONSISTENT"))))))

abbrev block : String → Py ContractResult
block code = ok (contract_result "BLOCK" (code ∷ []))

abbrev pub with_maps :
    Host → Fields → Fields → Value → List Fields → List Fields → Value → Value → Py ContractResult
with_maps H selection registry scenario requirements runs (dict run_map) (dict output_map) =
    compatibility_result H selection registry scenario requirements runs run_map
with_maps H selection registry scenario requirements runs _ _ =
    block "RC_REQUIREMENT_SELECTION_INPUT_INVALID"

abbrev pub with_parts : Host → Fields → Value → Value → Value → Value → Py ContractResult
with_parts H registry scenario (list (Items.cons v vs)) (list runs) (dict selection) =
    if truthy (dict registry)
    then (member_text (get "selection_mode" selection) selection_modes >>= λ known.
        if known
        then with_maps H selection registry scenario (dicts (v ∷ elements vs))
            (dicts (elements runs)) (get "requirement_to_run_map" selection)
            (get "requirement_to_output_map" selection)
        else block "RC_REQUIREMENT_SELECTION_MODE_INVALID")
    else block "RC_ACTUAL_RUN_REGISTRY_MISSING"
with_parts H registry scenario _ _ _ = block "RC_ACTUAL_RUN_REGISTRY_MISSING"

unfoldable pub validate_runtime_selection_compatibility :
    Host → Value → Value → Value → Py ContractResult
validate_runtime_selection_compatibility H (dict selection_record) (dict registry) scenario =
    with_parts H registry scenario (get "requirements" selection_record)
      (get "runs" selection_record) (get "selection" selection_record)
validate_runtime_selection_compatibility H _ _ scenario =
    block "RC_REQUIREMENT_SELECTION_INPUT_INVALID"
