-- ===== src/Kernel/Stale.antt =====
-- `dependency_mismatches` and `stale_check`: a case is STALE once a file that it is bound to differs.
pub mod Detect
use cumcm.Base.{
  ℕ, String, ◌<>◌, Bool, true, false, not, ◌&&◌, ◌||◌, Option, none, some, List, [], ◌∷◌, ◌++◌,
  ◌==◌, length, contains, same_set, if◌then◌else◌,
}
use cumcm.Py.Exn.{
  Exn, Py, ok, raise, value_error, type_error, key_error, attribute_error, os_error, json_error,
  overflow_error, file_exists_error, ◌>>=◌,
}
use cumcm.Py.Value.{
  Value, str, list, dict, Fields, end, field, fields, texts, items, eq, is_text, keys,
}
use cumcm.Py.Dict.{get, item, set}
use cumcm.Py.Text.{codes, same_codes, path_parts}
use cumcm.Kernel.Host.{Host, file_hash}
use cumcm.Kernel.Gate.{GateResult, passed, sorted_set}
use cumcm.Kernel.Boundary.{text_elements}
use cumcm.Kernel.Load.{load_json, load_state, as_fields}
use cumcm.Kernel.Transition.{history_record, as_list}
use cumcm.Kernel.Validators.{Validators}

-- The bound path is no file, or its digest is not the one that was bound.
unfoldable pub is_mismatch : Host → String → Value → Bool
is_mismatch H path expected = not (H.is_file path) || not (eq (str (file_hash H path)) expected)

unfoldable pub file_mismatches : Host → Fields → List String
file_mismatches H end = []
file_mismatches H (field path expected r) =
    (if is_mismatch H path expected then path ∷ [] else []) ++ file_mismatches H r

-- Three parts, the first "runs" and the last "manifest.json".
abbrev is_manifest_parts : List (List ℕ) → Bool
is_manifest_parts (a ∷ b ∷ c ∷ []) =
    same_codes a (codes "runs") && same_codes c (codes "manifest.json")
is_manifest_parts _ = false

unfoldable pub is_manifest_path : String → Bool
unfolding path_parts
is_manifest_path path = is_manifest_parts (path_parts (codes path))

unfoldable pub manifest_bindings : List String → List String
manifest_bindings [] = []
manifest_bindings (p ∷ r) =
    let rest = manifest_bindings r in if is_manifest_path p then p ∷ rest else rest

abbrev pub unsuccessful : List String
unsuccessful = "FAILED" ∷ "PARTIAL" ∷ "SUPERSEDED" ∷ "STALE" ∷ "INFEASIBLE" ∷ []

abbrev outcome_only : Value → GateResult → Bool
outcome_only (str outcome) result =
    contains unsuccessful outcome
    && same_set result.reason_codes (("RC_MANIFEST_NOT_SUCCESS:" <> outcome) ∷ [])
outcome_only _ result = false

abbrev non_success_only : Value → GateResult → Bool
non_success_only (dict fs) result = outcome_only (get "outcome" fs) result
non_success_only _ result = false

-- `except (OSError, TypeError, ValueError, json.JSONDecodeError)`, and `KeyError` too for the
-- registry.
abbrev caught : Exn → Bool
caught (value_error m) = true
caught type_error = true
caught os_error = true
caught json_error = true
caught file_exists_error = true
caught key_error = false
caught attribute_error = false
caught overflow_error = false

abbrev caught_freezes : Exn → Bool
caught_freezes key_error = true
caught_freezes attribute_error = false
caught_freezes overflow_error = false
caught_freezes _ = true

abbrev manifest_fails : Value → GateResult → Bool
manifest_fails manifest result = not result.accepted && not (non_success_only manifest result)

abbrev check_manifest : Host → Validators → Fields → String → Py Bool
check_manifest H V freezes path = load_json H path >>= λ manifest.
    V.validate_manifest manifest freezes >>= λ result. ok (manifest_fails manifest result)

abbrev handle : Py Bool → Py Bool
handle (ok b) = ok b
handle (raise e) = if caught e then ok true else raise e

abbrev manifest_mismatch : Host → Validators → Option Fields → String → Py Bool
manifest_mismatch H V none path = ok true
manifest_mismatch H V (some freezes) path =
    if H.is_file path then handle (check_manifest H V freezes path) else ok true

unfoldable pub manifest_mismatches :
    Host → Validators → Option Fields → List String → Py (List String)
manifest_mismatches H V freezes [] = ok []
manifest_mismatches H V freezes (p ∷ r) = manifest_mismatch H V freezes p >>= λ bad.
    manifest_mismatches H V freezes r >>= λ rest. ok (if bad then p ∷ rest else rest)

abbrev pub freezes_or_mismatch : Py Fields → Py (Option Fields × List String)
freezes_or_mismatch (ok freezes) = ok (some freezes, [])
freezes_or_mismatch (raise e) =
    if caught_freezes e then ok (none, "experiments/experiment_plan.json" ∷ []) else raise e

abbrev pub bindings_items : Value → Py Fields
bindings_items (dict bs) = ok bs
bindings_items _ = raise attribute_error

abbrev pub mismatches_of : Host → Validators → Fields → List String → Py (List String)
mismatches_of H V bs [] = ok (sorted_set (file_mismatches H bs))
mismatches_of H V bs (m ∷ ms) = freezes_or_mismatch V.trusted_freezes >>= λ (freezes, plan).
    manifest_mismatches H V freezes (m ∷ ms) >>= λ bad.
    ok (sorted_set (file_mismatches H bs ++ (plan ++ bad)))

-- The state is one that `load_state` returned, so its bindings are a dictionary.
unfoldable pub dependency_mismatches : Host → Validators → Fields → Py (List String)
dependency_mismatches H V state = bindings_items (get "evidence_bindings" state) >>= λ bs.
    mismatches_of H V bs (manifest_bindings (keys bs))

pub record StaleCheck : Type 0 where
  pub result : GateResult
  pub written : Option Fields

abbrev pub stale_result : List String → GateResult
stale_result chain = record {
  status = "STALE";
  reason_codes = "RC_UPSTREAM_DEPENDENCY_STALE" ∷ [];
  accepted = false;
  final = false;
  dependency_chain = chain;
}

abbrev pub chain_mismatch : List String → GateResult
chain_mismatch chain = record {
  status = "BLOCK";
  reason_codes = "RC_CASE_STATE_STALE_CHAIN_MISMATCH" ∷ [];
  accepted = false;
  final = false;
  dependency_chain = chain;
}

abbrev pub stale_entry : List String → Value
stale_entry chain = dict (
    fields (
      ("reason_code", str "RC_UPSTREAM_DEPENDENCY_STALE")
      ∷ ("dependency_chain", list (texts chain))
      ∷ []))

-- The state that `stale_check` writes.
abbrev pub marked : Fields → Value → List Value → List String → Fields
marked state previous history chain =
    set "history"
      (list (
        items (
          history
          ++ history_record (length history) previous "STALE" "GATE_STALE_PROPAGATION" "BLOCK" chain
            ∷ [])))
      (set "stale" (stale_entry chain)
        (set "last_gate" (str "GATE_STALE_PROPAGATION") (set "state" (str "STALE") state)))

abbrev chain_of : Value → Py (List String)
chain_of (list xs) = ok (text_elements xs)
chain_of _ = raise type_error

abbrev same_texts : List String → List String → Bool
same_texts [] [] = true
same_texts (a ∷ r) (b ∷ s) = a == b && same_texts r s
same_texts _ _ = false

abbrev pub recheck : List String → List String → StaleCheck
recheck stored current = record {
  result = if same_texts stored current then stale_result stored else chain_mismatch current;
  written = none;
}

abbrev pub stored_chain : Fields → Py (List String)
stored_chain state =
    item "stale" state >>= as_fields >>= λ stale. item "dependency_chain" stale >>= chain_of

abbrev pub mark : Fields → Bool → List String → Py StaleCheck
mark state mutate [] =
    ok (record { result = passed "RC_DEPENDENCY_HASHES_CURRENT"; written = none })
mark state mutate (c ∷ cs) = (item "history" state >>= as_list) >>= λ history.
    item "state" state >>= λ previous. ok (record {
      result = stale_result (sorted_set (c ∷ cs));
      written = if mutate then some (marked state previous history (sorted_set (c ∷ cs))) else none;
    })

-- `stale_check` on a loaded state.
unfoldable pub stale_check_of : Host → Validators → Fields → Bool → Py StaleCheck
stale_check_of H V state mutate =
    if is_text (get "state" state) "STALE"
    then (stored_chain state >>= λ stored.
        dependency_mismatches H V state >>= λ current. ok (recheck stored current))
    else (dependency_mismatches H V state >>= λ mismatches. mark state mutate mismatches)

unfoldable pub stale_check : Host → Validators → Bool → Py StaleCheck
stale_check H V mutate = load_state H >>= λ state. stale_check_of H V state mutate
