-- ===== src/Kernel/Contract/Selection.antt =====
-- `validate_requirement_selection`: the runs and outputs that are selected for each requirement.
use cumcm.Base.{
  String, Bool, true, false, not, ◌&&◌, ◌||◌, Option, none, some, List, [], ◌∷◌, ◌++◌, ◌==◌, any,
  map, if◌then◌else◌,
}
use cumcm.Py.Exn.{Py, ok, ◌>>=◌}
use cumcm.Py.Value.{
  Value, str, list, dict, Items, Fields, elements, values, is_list, is_text, is_true, truthy,
}
use cumcm.Py.Dict.{get}
use cumcm.Py.Member.{member_text}
use cumcm.Py.Records.{
  dicts, index_get, in_field, field_set, set_of, any_of, map_of, gather, all_elements,
  subset_values,
}
use cumcm.Kernel.Gate.{ContractResult, contract_result}
use cumcm.Kernel.Contract.{contract_of}

abbrev pub selection_modes : List String
selection_modes = "GLOBAL_JOINT" ∷ "PER_REQUIREMENT" ∷ "JOINT_PORTFOLIO" ∷ []

-- The codes of one requirement, and its runs.
pub record Choice : Type 0 where
  pub codes : List String
  pub runs : List Fields

abbrev pub refused : String → Choice
refused code = record { codes = code ∷ []; runs = [] }

-- A sealed, current and successful run.
abbrev pub is_sound : Fields → Bool
is_sound run =
    is_text (get "outcome" run) "SUCCESS"
    && is_true (get "sealed" run)
    && is_true (get "current" run)

abbrev pub all_some : List (Option Fields) → Option (List Fields)
all_some [] = some []
all_some (none ∷ r) = none
all_some (some fs ∷ r) = elim (all_some r) [ none ↦ none | some rest ↦ some (fs ∷ rest) ]

abbrev pub unless_code : Bool → String → List String
unless_code b code = if b then [] else code ∷ []

unfoldable pub run_codes : Value → Value → Bool → Fields → Py (List String)
run_codes name metric mismatch run = in_field name "supported_requirement_ids" run >>= λ supported.
    in_field metric "metric_ids" run >>= λ measured. ok (
      unless_code (is_sound run) "RC_REQUIREMENT_SELECTED_RUN_INVALID_STATUS"
      ++ (unless_code supported "RC_REQUIREMENT_SELECTED_RUN_SEMANTIC_MISMATCH"
          ++ unless_code (measured || mismatch) "RC_SELECTION_METRIC_REQUIREMENT_MISMATCH"))

unfoldable pub all_run_codes : Value → Value → Bool → List Fields → Py (List String)
all_run_codes name metric mismatch [] = ok []
all_run_codes name metric mismatch (run ∷ r) = run_codes name metric mismatch run >>= λ codes.
    all_run_codes name metric mismatch r >>= λ rest. ok (codes ++ rest)

-- The outputs that the runs have.
abbrev pub outputs_of : List Fields → Py (List Value)
outputs_of runs = gather (field_set "selected_output_ids") runs

abbrev pub output_codes : Bool → List Value → List Fields → Py (List String)
output_codes true outputs runs = ok []
output_codes false outputs runs = outputs_of runs >>= λ available. set_of outputs >>= λ wanted.
    ok (unless_code (subset_values wanted available) "RC_REQUIREMENT_SELECTED_OUTPUT_MISSING")

unfoldable pub weigh_runs : Value → Value → List Value → List Fields → Py Choice
weigh_runs name metric outputs runs =
    any_of (λ run. in_field name "supported_requirement_ids" run >>= λ b. ok (not b)) runs
    >>= λ mismatch. all_run_codes name metric mismatch runs >>= λ codes.
        output_codes mismatch outputs runs >>= λ more.
        ok (record { codes = codes ++ more; runs = runs })

abbrev pub found_runs : Value → Value → List Value → Option (List Fields) → Py Choice
found_runs name metric outputs none = ok (refused "RC_REQUIREMENT_SELECTED_RUN_MISSING")
found_runs name metric outputs (some runs) = weigh_runs name metric outputs runs

module _ (runs : List Fields) (run_map output_map : Fields) where
  -- A requirement with this name.
  unfoldable pub choose_named : String → Value → Py Choice
  choose_named name metric =
      let run_ids = get name run_map in
      let output_ids = get name output_map in
      if not (is_list run_ids && truthy run_ids)
      then ok (refused "RC_REQUIREMENT_SELECTED_RUN_MISSING")
      else if not (is_list output_ids && truthy output_ids)
      then ok (refused "RC_REQUIREMENT_SELECTED_OUTPUT_MISSING")
      else (map_of (index_get "run_id" runs) (all_elements (run_ids ∷ [])) >>= λ found.
          found_runs (str name) metric (all_elements (output_ids ∷ [])) (all_some found))

  abbrev pub choose_by : Value → Value → Py Choice
  choose_by (str name) metric = choose_named name metric
  choose_by _ metric = ok (refused "RC_REQUIREMENT_SELECTION_INPUT_INVALID")

  unfoldable pub choose : Value → Py Choice
  choose (dict requirement) =
      choose_by (get "requirement_id" requirement) (get "selection_metric" requirement)
  choose _ = ok (refused "RC_REQUIREMENT_SELECTION_INPUT_INVALID")

abbrev pub choice_codes : List Choice → List String
choice_codes [] = []
choice_codes (c ∷ r) = c.codes ++ choice_codes r

abbrev pub chosen_runs : List Choice → List Fields
chosen_runs [] = []
chosen_runs (c ∷ r) = c.runs ++ chosen_runs r

abbrev pub names_of : List Value → List Value
names_of [] = []
names_of (dict requirement ∷ r) = elim (get "requirement_id" requirement) [
  | str name ↦ str name ∷ names_of r
  | _ ↦ names_of r
]
names_of (v ∷ r) = names_of r

-- The one value of a set, if it has just one.
abbrev pub only_value : List Value → Option Value
only_value [] = none
only_value (v ∷ r) = if subset_values r (v ∷ []) then some v else none

abbrev is_covering : List Value → List Value → Fields → Py Bool
is_covering names outputs run = field_set "supported_requirement_ids" run >>= λ supported.
    if subset_values names supported
    then (field_set "selected_output_ids" run >>= λ held. ok (subset_values outputs held))
    else ok false

abbrev covers : List Value → List Value → Option Fields → Py Bool
covers names outputs none = ok false
covers names outputs (some run) = is_covering names outputs run

abbrev pub global_run_covers : List Fields → Fields → Fields → List Value → Py Bool
global_run_covers runs run_map output_map names = set_of (all_elements (values run_map)) >>= λ ids.
    elim (only_value ids) [
      | none ↦ ok false
      | some v ↦ index_get "run_id" runs v >>= λ run.
          set_of (all_elements (values output_map)) >>= λ outputs. covers names outputs run
    ]

abbrev without_missing : List String → List String
without_missing [] = []
without_missing (c ∷ r) =
    let rest = without_missing r in
    if c == "RC_REQUIREMENT_SELECTED_OUTPUT_MISSING" then rest else c ∷ rest

abbrev pub uncovered : Option Value → List String → List String
uncovered none codes = "RC_GLOBAL_SELECTION_REQUIREMENT_COVERAGE_INSUFFICIENT" ∷ codes
uncovered (some v) codes =
    "RC_GLOBAL_SELECTION_REQUIREMENT_COVERAGE_INSUFFICIENT" ∷ without_missing codes

-- A constraint across requirements that is no dictionary, or that reports a conflict.
abbrev conflicting : Value → Bool
conflicting (dict fs) = is_text (get "status" fs) "CONFLICT"
conflicting _ = true

abbrev pub conflict : Value → Bool
conflict (list xs) = any conflicting (elements xs)
conflict _ = true

abbrev is_some : Option Value → Bool
is_some none = false
is_some (some v) = true

abbrev pub one_hash : String → List Fields → Py Bool
one_hash key runs = set_of (map (get key) runs) >>= λ hashes. ok (is_some (only_value hashes))

module _ (payload selection : Fields) (requirements : List Value) (runs : List Fields)
    (run_map output_map : Fields) where
  -- GLOBAL_JOINT: one run for all.
  abbrev pub global_codes : List String → Py (List String)
  global_codes codes = global_run_covers runs run_map output_map (names_of requirements) >>= λ good.
      ok (if good then codes else uncovered (only_value (all_elements (values run_map))) codes)

  -- JOINT_PORTFOLIO: the runs have the same input and the same scenario.
  abbrev pub portfolio_codes : List Fields → List String → Py (List String)
  portfolio_codes chosen codes = one_hash "input_hash" chosen >>= λ inputs.
      one_hash "scenario_hash" chosen >>= λ scenarios. ok (
        codes
        ++ unless_code
            (inputs && scenarios && not (conflict (get "cross_requirement_constraints" selection)))
            "RC_PORTFOLIO_CROSS_REQUIREMENT_INCONSISTENT")

  abbrev pub mode_codes : List Choice → Py (List String)
  mode_codes choices =
      let mode = get "selection_mode" selection in
      if is_text mode "GLOBAL_JOINT"
      then global_codes (choice_codes choices)
      else if is_text mode "JOINT_PORTFOLIO"
          && not (is_text (get "contract_version" payload) "requirement-selection/v1")
      then portfolio_codes (chosen_runs choices) (choice_codes choices)
      else ok (choice_codes choices)

  unfoldable pub selection_result : Py ContractResult
  selection_result = map_of (choose runs run_map output_map) requirements >>= λ choices.
      mode_codes choices >>= λ codes. ok (contract_of codes)

abbrev pub input_invalid : Py ContractResult
input_invalid = ok (contract_result "BLOCK" ("RC_REQUIREMENT_SELECTION_INPUT_INVALID" ∷ []))

abbrev pub select_with :
    Fields → Fields → List Value → List Value → Value → Value → Py ContractResult
select_with payload selection requirements runs (dict run_map) (dict output_map) =
    selection_result payload selection requirements (dicts runs) run_map output_map
select_with payload selection requirements runs _ _ = input_invalid

abbrev pub select_in : Fields → Value → Value → Value → Py ContractResult
select_in payload (list (Items.cons v vs)) (list runs) (dict selection) =
    member_text (get "selection_mode" selection) selection_modes >>= λ known.
    if known
    then select_with payload selection (v ∷ elements vs) (elements runs)
        (get "requirement_to_run_map" selection) (get "requirement_to_output_map" selection)
    else ok (contract_result "BLOCK" ("RC_REQUIREMENT_SELECTION_MODE_INVALID" ∷ []))
select_in payload _ _ _ = input_invalid

unfoldable pub validate_requirement_selection : Value → Py ContractResult
validate_requirement_selection (dict payload) =
    select_in payload (get "requirements" payload) (get "runs" payload) (get "selection" payload)
validate_requirement_selection _ = input_invalid
