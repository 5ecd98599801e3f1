-- ===== src/Kernel/Runtime/Captured.antt =====
-- What holds of the runs of a selection that `validate_runtime_selection_compatibility` passes.
use cumcm.Base.{
  String, ◌≡◌, refl, sym, Bool, true, false, not, Option, none, some, List, [], ◌∷◌, ◌==◌, contains,
  eq_iff, append-eq-nil, Bool-cases, inl, inr, if◌then◌else◌, arith,
}
use mathlib.Core.Path.{subst}
use cumcm.Py.Exn.{ok}
use cumcm.Py.Value.{Value, list, dict, Items, cons, nil, Fields, elements, eq, truthy}
use cumcm.Py.Dict.{get}
use cumcm.Py.Member.{member_text}
use cumcm.Py.Records.{dicts, named}
use cumcm.Py.Returns.{Returns, Returns-ok, Returns-bind, Returns-if}
use cumcm.Kernel.State.{hex64_value}
use cumcm.Kernel.Host.{Host}
use cumcm.Kernel.Gate.{ContractResult}
use cumcm.Kernel.Contract.Verdict.{contract_of-pass, blocked-not_pass}
use cumcm.Kernel.Contract.Selection.{unless_code, selection_modes}
use cumcm.Kernel.Contract.Serving.{unless-eq-nil}
use cumcm.Kernel.Runtime.Eligibility.{selected_ids}
use cumcm.Kernel.Runtime.Compatibility.{
  Capture, uncaptured, has_hashes, shown, is_declared, captured, capture_all, compatibility_codes,
  bridge_codes, bridges_of, compatibility_result, with_maps, with_parts,
  validate_runtime_selection_compatibility,
}

-- A run whose declared hashes are those of its manifest, which was captured in the scenario.
pub record IsCaptured (scenario : Value) (runs : List Fields) (registry : Fields) (run_id : String)
    : Type 0 where
  pub declared : Fields
  pub listed : named "run_id" run_id runs ≡ some declared
  pub manifest : Fields
  pub registered : get run_id registry ≡ dict manifest
  pub same_hashes : is_declared declared manifest ≡ true
  pub in_scenario : eq (get "scenario_hash" manifest) scenario ≡ true

one_code : (c : String) → (c ∷ []) ≡ [] → ⊥
one_code c h = cc

if_codes_lem :
    (a b : Bool) (m n k : Capture)
    → ((if a then m else if b then n else k).codes ≡ [])
    → (m.codes ≡ [] → ⊥)
    → (n.codes ≡ [] → ⊥)
    → k.codes ≡ []
if_codes_lem true b m n k h hm hn = absurd (hm h)
if_codes_lem false true m n k h hm hn = absurd (hn h)
if_codes_lem false false m n k h hm hn = h

module _ (H : Host) (scenario : Value) (runs : List Fields) (registry : Fields) where
  captured-IsCaptured :
      (run_id : String) (d : Option Fields) (v : Value)
      → named "run_id" run_id runs ≡ d
      → get run_id registry ≡ v
      → (captured H scenario d v).codes ≡ []
      → IsCaptured scenario runs registry run_id
  captured-IsCaptured run_id (some declared) (dict manifest) ed ev h =
      let codes =
        if_codes_lem (not (has_hashes declared)) (not (hex64_value (get "scenario_hash" manifest)))
          (uncaptured "RC_SELECTION_PORTFOLIO_HASHES_MISSING")
          (uncaptured "RC_SELECTION_SCENARIO_NOT_CAPTURE_BOUND")
          (shown H scenario declared manifest) h (one_code "RC_SELECTION_PORTFOLIO_HASHES_MISSING")
          (one_code "RC_SELECTION_SCENARIO_NOT_CAPTURE_BOUND") in
      let (a, b) =
        append-eq-nil
          (unless_code (is_declared declared manifest) "RC_SELECTION_PORTFOLIO_HASH_MISMATCH")
          (unless_code (eq (get "scenario_hash" manifest) scenario)
            "RC_SELECTION_SCENARIO_NOT_CAPTURE_BOUND")
          codes in
      record {
        declared = declared;
        listed = ed;
        manifest = manifest;
        registered = ev;
        same_hashes = unless-eq-nil (is_declared declared manifest) _ a;
        in_scenario = unless-eq-nil (eq (get "scenario_hash" manifest) scenario) _ b;
      }
  captured-IsCaptured run_id none v ed ev h = cc
  captured-IsCaptured run_id (some declared) _ ed ev h = cc

  capture_all-IsCaptured :
      (ids : List String) (run_id : String)
      → (capture_all H scenario runs registry ids).codes ≡ []
      → contains ids run_id ≡ true
      → IsCaptured scenario runs registry run_id
  unfolding capture_all
  capture_all-IsCaptured [] run_id h k = cc
  capture_all-IsCaptured (i ∷ r) run_id h k =
      let first = captured H scenario (named "run_id" i runs) (get i registry) in
      let (here, there) =
        append-eq-nil first.codes (capture_all H scenario runs registry r).codes h in
      elim (Bool-cases (i == run_id)) [
        | inl e ↦
            let same : i ≡ run_id = ground (arith, eq_iff i run_id) in
            subst (IsCaptured scenario runs registry) same
              (captured-IsCaptured i (named "run_id" i runs) (get i registry) refl refl here)
        | inr n ↦ capture_all-IsCaptured r run_id there (ground arith)
      ]

module _ (H : Host) (scenario : Value) (registry : Fields) (run_map : Fields) (run_id : String)
    (known : contains (selected_ids run_map) run_id ≡ true) where
  result-IsCaptured :
      (selection : Fields) (requirements runs : List Fields)
      → Returns
          (λ (r : ContractResult). r.status ≡ "PASS" → IsCaptured scenario runs registry run_id)
          (compatibility_result H selection registry scenario requirements runs run_map)
  unfolding compatibility_result
  result-IsCaptured selection requirements runs =
      Returns-bind (compatibility_codes (get "compatibility" selection)) _ λ kinds.
        Returns-bind
          (bridge_codes H run_map (bridges_of (get "dependency_bridges" selection)) requirements) _
          λ missing. Returns-ok _ λ h.
            let codes = (capture_all H scenario runs registry (selected_ids run_map)).codes in
            let (here, _) = append-eq-nil codes _ (contract_of-pass _ h) in
            capture_all-IsCaptured H scenario runs registry (selected_ids run_map) run_id here known

  maps-IsCaptured :
      (selection : Fields) (requirements runs : List Fields) (outputs : Value)
      → Returns
          (λ (r : ContractResult). r.status ≡ "PASS" → IsCaptured scenario runs registry run_id)
          (with_maps H selection registry scenario requirements runs (dict run_map) outputs)
  maps-IsCaptured selection requirements runs (dict outputs) =
      result-IsCaptured selection requirements runs
  maps-IsCaptured selection requirements runs _ = Returns-ok _ λ h. absurd (blocked-not_pass _ h)

  parts-IsCaptured :
      (selection : Fields) (requirements runs : Items)
      → get "requirement_to_run_map" selection ≡ dict run_map
      → Returns
          (λ (r : ContractResult).
            r.status ≡ "PASS" → IsCaptured scenario (dicts (elements runs)) registry run_id)
          (with_parts H registry scenario (list requirements) (list runs) (dict selection))
  parts-IsCaptured selection nil runs e = Returns-ok _ λ h. absurd (blocked-not_pass _ h)
  parts-IsCaptured selection (cons v vs) runs e =
      Returns-if (truthy (dict registry)) _ _
        (Returns-bind (member_text (get "selection_mode" selection) selection_modes) _ λ mode.
          Returns-if mode _ _
            (subst
              (λ m.
                Returns
                  (λ (r : ContractResult).
                    r.status ≡ "PASS" → IsCaptured scenario (dicts (elements runs)) registry run_id)
                  (with_maps H selection registry scenario (dicts (v ∷ elements vs))
                    (dicts (elements runs)) m (get "requirement_to_output_map" selection)))
              (sym e)
              (maps-IsCaptured selection (dicts (v ∷ elements vs)) (dicts (elements runs))
                (get "requirement_to_output_map" selection)))
            (Returns-ok _ λ h. absurd (blocked-not_pass _ h)))
        (Returns-ok _ λ h. absurd (blocked-not_pass _ h))

-- If `validate_runtime_selection_compatibility` passes a selection, then each run that the selection names is
-- listed with hashes that are those of its manifest in the registry, and this manifest was captured in the
-- given scenario.
pub validate_runtime_selection_compatibility-IsCaptured :
    (H : Host) (selection_record selection registry run_map : Fields) (scenario : Value)
    (requirements runs : Items) (run_id : String) (r : ContractResult)
    → get "requirements" selection_record ≡ list requirements
    → get "runs" selection_record ≡ list runs
    → get "selection" selection_record ≡ dict selection
    → get "requirement_to_run_map" selection ≡ dict run_map
    → contains (selected_ids run_map) run_id ≡ true
    → validate_runtime_selection_compatibility H (dict selection_record) (dict registry) scenario
      ≡ ok r
    → r.status ≡ "PASS"
    → IsCaptured scenario (dicts (elements runs)) registry run_id
unfolding validate_runtime_selection_compatibility
validate_runtime_selection_compatibility-IsCaptured H selection_record selection registry run_map
      scenario requirements runs run_id r er eu es em k h p =
    (parts-IsCaptured H scenario registry run_map run_id k selection requirements runs em).at r
      (rw (er, eu, es) at h) p
