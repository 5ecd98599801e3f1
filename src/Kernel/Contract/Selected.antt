-- ===== src/Kernel/Contract/Selected.antt =====
-- What PASS of `validate_requirement_selection` means for each requirement.
use cumcm.Base.{
  String, ◌≡◌, refl, Bool, true, false, not, ◌&&◌, Option, none, some, List, [], ◌∷◌, if◌then◌else◌,
  append-eq-nil, Bool-cases, inl, inr, and-eq-true,
}
use cumcm.Py.Exn.{Py, ok}
use cumcm.Py.Value.{
  Value, str, list, dict, Items, nil, cons, Fields, elements, is_list, is_text, truthy,
}
use cumcm.Py.Dict.{get}
use cumcm.Py.Member.{member_text}
use cumcm.Py.Records.{dicts, index_get, map_of, all_elements, subset_values}
use cumcm.Py.Returns.{Returns, Returns-ok, Returns-bind, Returns-bind_eq, Returns-if, Returns-then}
use cumcm.Kernel.Gate.{ContractResult, contract_result}
use cumcm.Kernel.Contract.Verdict.{contract_of-pass, blocked-not_pass}
use cumcm.Kernel.Contract.Serving.{AllServing, weigh_runs-IsWeighed}
use cumcm.Kernel.Contract.Selection.{
  Choice, all_some, outputs_of, choose_named, choose_by, choose, choice_codes, mode_codes,
  selection_result, select_with, select_in, selection_modes, validate_requirement_selection,
  found_runs, refused, uncovered, global_run_covers, names_of, one_hash, chosen_runs,
}

-- The runs that the selection names for the requirement are there and serve it, and have all outputs
-- that it names.
pub record IsServed (runs : List Fields) (run_map output_map : Fields) (v : Value) : Type 0 where
  pub requirement : Fields
  pub name : String
  pub is_requirement : v ≡ dict requirement
  pub named : get "requirement_id" requirement ≡ str name
  pub some_runs : truthy (get name run_map) ≡ true
  pub some_outputs : truthy (get name output_map) ≡ true
  pub found : List (Option Fields)
  pub looked_up : map_of (index_get "run_id" runs) (all_elements (get name run_map ∷ [])) ≡ ok found
  pub chosen : List Fields
  pub complete : all_some found ≡ some chosen
  pub serving : AllServing name chosen
  pub available : List Value
  pub offered : outputs_of chosen ≡ ok available
  pub held : subset_values (all_elements (get name output_map ∷ [])) available ≡ true

module _ (runs : List Fields) (run_map output_map : Fields) where
  -- Whatever a choice without codes shows.
  abbrev Shows : Type 0 → Py Choice → Type 0
  Shows T m = Returns (λ (c : Choice). c.codes ≡ [] → T) m

  refused-Shows : (T : Type 0) (code : String) → Shows T (ok (refused code))
  refused-Shows T code = Returns-ok _ λ h. cc

  served :
      (requirement : Fields) (name : String)
      → get "requirement_id" requirement ≡ str name
      → truthy (get name run_map) ≡ true
      → truthy (get name output_map) ≡ true
      → (found : List (Option Fields))
      → map_of (index_get "run_id" runs) (all_elements (get name run_map ∷ [])) ≡ ok found
      → (chosen : Option (List Fields)) → all_some found ≡ chosen
      → Shows (IsServed runs run_map output_map (dict requirement)) (
          found_runs
            (str name)
            (get "selection_metric" requirement)
            (all_elements (get name output_map ∷ []))
            chosen)
  served requirement name e r o found ef none ec =
      refused-Shows _ "RC_REQUIREMENT_SELECTED_RUN_MISSING"
  served requirement name e r o found ef (some chosen) ec = record {
    at = λ c ew h.
        let w =
          (weigh_runs-IsWeighed name (get "selection_metric" requirement)
              (all_elements (get name output_map ∷ [])) chosen).at
            c ew h in
        record {
          requirement = requirement;
          name = name;
          is_requirement = refl;
          named = e;
          some_runs = r;
          some_outputs = o;
          found = found;
          looked_up = ef;
          chosen = chosen;
          complete = ec;
          serving = w.serving;
          available = w.offering.available;
          offered = w.offering.offered;
          held = w.offering.held;
        };
  }

  named-IsServed :
      (requirement : Fields) (name : String)
      → get "requirement_id" requirement ≡ str name
      → Shows
          (IsServed runs run_map output_map (dict requirement))
          (choose_named runs run_map output_map name (get "selection_metric" requirement))
  unfolding choose_named
  named-IsServed requirement name e =
      let metric = get "selection_metric" requirement in
      let T = IsServed runs run_map output_map (dict requirement) in
      let wanted = all_elements (get name output_map ∷ []) in
      elim (Bool-cases (is_list (get name run_map) && truthy (get name run_map))) [
        | inr n ↦ rw n (refused-Shows T "RC_REQUIREMENT_SELECTED_RUN_MISSING")
        | inl r ↦
            rw r
              (elim (Bool-cases (is_list (get name output_map) && truthy (get name output_map))) [
                | inr n ↦ rw n (refused-Shows T "RC_REQUIREMENT_SELECTED_OUTPUT_MISSING")
                | inl o ↦ rw o (
                    Returns-bind_eq
                      (map_of (index_get "run_id" runs) (all_elements (get name run_map ∷ []))) _
                      λ found ef.
                        served requirement name e (and-eq-true _ _ r).1 (and-eq-true _ _ o).1 found
                          ef (all_some found) refl)
              ])
      ]

  by-IsServed :
      (requirement : Fields) (v : Value)
      → get "requirement_id" requirement ≡ v
      → Shows
          (IsServed runs run_map output_map (dict requirement))
          (choose_by runs run_map output_map v (get "selection_metric" requirement))
  by-IsServed requirement (str name) e = named-IsServed requirement name e
  by-IsServed requirement _ e = refused-Shows _ "RC_REQUIREMENT_SELECTION_INPUT_INVALID"

  choose-IsServed :
      (v : Value) → Shows (IsServed runs run_map output_map v) (choose runs run_map output_map v)
  unfolding choose
  choose-IsServed (dict requirement) =
      by-IsServed requirement (get "requirement_id" requirement) refl
  choose-IsServed _ = refused-Shows _ "RC_REQUIREMENT_SELECTION_INPUT_INVALID"

  abbrev pub AllServed : List Value → Type 0
  AllServed [] = Unit
  AllServed (v ∷ vs) = IsServed runs run_map output_map v × AllServed vs

  all-AllServed :
      (vs : List Value)
      → Returns
          (λ (cs : List Choice). choice_codes cs ≡ [] → AllServed vs)
          (map_of (choose runs run_map output_map) vs)
  all-AllServed [] = Returns-ok [] λ h. tt
  all-AllServed (v ∷ vs) =
      Returns-then (choose runs run_map output_map v) _ (choose-IsServed v) λ c hc.
        Returns-then (map_of (choose runs run_map output_map) vs) _ (all-AllServed vs) λ cs hcs.
          Returns-ok _ λ h. let (a, b) = append-eq-nil c.codes (choice_codes cs) h in (hc a, hcs b)

uncovered-not_nil : (v : Option Value) (codes : List String) → uncovered v codes ≡ [] → ⊥
uncovered-not_nil none codes h = cc
uncovered-not_nil (some v) codes h = cc

global-lem :
    (good : Bool) (v : Option Value) (codes : List String)
    → (if good then codes else uncovered v codes) ≡ []
    → codes ≡ []
global-lem true v codes h = h
global-lem false v codes h = absurd (uncovered-not_nil v codes h)

module _ (payload selection : Fields) (requirements : List Value) (runs : List Fields)
    (run_map output_map : Fields) where
  mode-no_codes :
      (choices : List Choice)
      → Returns
          (λ (codes : List String). codes ≡ [] → choice_codes choices ≡ [])
          (mode_codes payload selection requirements runs run_map output_map choices)
  mode-no_codes choices =
      Returns-if (is_text (get "selection_mode" selection) "GLOBAL_JOINT") _ _
        (Returns-bind (global_run_covers runs run_map output_map (names_of requirements)) _
          λ good. Returns-ok _ (global-lem good _ (choice_codes choices)))
        (Returns-if
          (is_text (get "selection_mode" selection) "JOINT_PORTFOLIO"
            && not (is_text (get "contract_version" payload) "requirement-selection/v1"))
          _ _
          (Returns-bind (one_hash "input_hash" (chosen_runs choices)) _ λ inputs.
            Returns-bind (one_hash "scenario_hash" (chosen_runs choices)) _
              λ scenarios. Returns-ok _ λ h. (append-eq-nil (choice_codes choices) _ h).0)
          (Returns-ok _ λ h. h))

  result-AllServed :
      Returns
        (λ (r : ContractResult). r.status ≡ "PASS" → AllServed runs run_map output_map requirements)
        (selection_result payload selection requirements runs run_map output_map)
  unfolding selection_result
  result-AllServed =
      Returns-then (map_of (choose runs run_map output_map) requirements) _
        (all-AllServed runs run_map output_map requirements)
        λ choices hc.
          Returns-then (mode_codes payload selection requirements runs run_map output_map choices) _
            (mode-no_codes choices) λ codes hm. Returns-ok _ λ h. hc (hm (contract_of-pass codes h))

select_with-AllServed :
    (payload selection : Fields) (requirements runs : List Value) (run_map output_map : Value)
    (maps outputs : Fields)
    → run_map ≡ dict maps
    → output_map ≡ dict outputs
    → Returns
        (λ (r : ContractResult).
          r.status ≡ "PASS" → AllServed (dicts runs) maps outputs requirements)
        (select_with payload selection requirements runs run_map output_map)
select_with-AllServed payload selection requirements runs run_map output_map maps outputs e f =
    rw (e, f) (result-AllServed payload selection requirements (dicts runs) maps outputs)

module _ (payload selection maps outputs : Fields)
    (m : get "requirement_to_run_map" selection ≡ dict maps)
    (o : get "requirement_to_output_map" selection ≡ dict outputs) where
  known-AllServed :
      (requirements runs : List Value) (known : Bool)
      → Returns
          (λ (r : ContractResult).
            r.status ≡ "PASS" → AllServed (dicts runs) maps outputs requirements)
          (if known
            then select_with payload selection requirements runs
                (get "requirement_to_run_map" selection)
                (get "requirement_to_output_map" selection)
            else ok (contract_result "BLOCK" ("RC_REQUIREMENT_SELECTION_MODE_INVALID" ∷ [])))
  known-AllServed requirements runs true =
      select_with-AllServed payload selection requirements runs _ _ maps outputs m o
  known-AllServed requirements runs false = Returns-ok _ λ h. absurd (blocked-not_pass _ h)

  in-AllServed :
      (requirements runs : Items)
      → Returns
          (λ (r : ContractResult).
            r.status ≡ "PASS"
            → AllServed (dicts (elements runs)) maps outputs (elements requirements))
          (select_in payload (list requirements) (list runs) (dict selection))
  in-AllServed nil runs = Returns-ok _ λ h. absurd (blocked-not_pass _ h)
  in-AllServed (cons v vs) runs =
      Returns-bind (member_text (get "selection_mode" selection) selection_modes) _
        λ known. known-AllServed (v ∷ elements vs) (elements runs) known

-- If `validate_requirement_selection` passes a payload, then for each of its requirements the runs that
-- the selection names are all there, each of them is sealed, current, successful and supports the
-- requirement, and all outputs that the selection names are outputs of these runs.
pub validate_requirement_selection-AllServed :
    (payload selection maps outputs : Fields) (requirements runs : Items) (r : ContractResult)
    → get "requirements" payload ≡ list requirements
    → get "runs" payload ≡ list runs
    → get "selection" payload ≡ dict selection
    → get "requirement_to_run_map" selection ≡ dict maps
    → get "requirement_to_output_map" selection ≡ dict outputs
    → validate_requirement_selection (dict payload) ≡ ok r
    → r.status ≡ "PASS"
    → AllServed (dicts (elements runs)) maps outputs (elements requirements)
unfolding validate_requirement_selection
validate_requirement_selection-AllServed payload selection maps outputs requirements runs r er eu es
      m o h p =
    (in-AllServed payload selection maps outputs m o requirements runs).at r (rw (er, eu, es) at h)
      p
