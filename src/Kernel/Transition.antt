-- ===== src/Kernel/Transition.antt =====
-- `record_transition`: one step of a case along `STATES`, and the state that `initialize_case`
-- writes.
pub mod Inversion
pub mod Moved
pub mod Walk
pub mod Running
pub mod Keeps
pub mod Initial
pub mod Trace
use cumcm.Base.{
  ℕ, zero, suc, String, Bool, true, false, not, ◌&&◌, Option, none, some, List, [], ◌∷◌, ◌++◌, ◌==◌,
  length, get_elem?, contains, all, if◌then◌else◌, map,
}
use cumcm.Py.Exn.{Py, ok, raise, value_error, attribute_error, ◌>>=◌, ◌>>◌, require}
use cumcm.Py.Value.{
  Value, null, int, pos, str, list, dict, Items, nil, cons, Fields, fields, texts, elements, items,
  is_text,
}
use cumcm.Py.Dict.{get, item, set, update}
use cumcm.Py.Text.{is_case_id}
use cumcm.Kernel.Tables.{version, capability, architecture, states}
use cumcm.Kernel.Host.{Host, file_hash}

-- What the caller gets, and what was written to case_state.json.
pub record Step : Type 0 where
  pub updated : Fields
  pub written : Option Fields

abbrev pub index_of : String → List String → ℕ
index_of s [] = 0
index_of s (t ∷ r) = if t == s then 0 else suc (index_of s r)

-- `index < len(STATES) and STATES[index] == next_state`
abbrev pub is_at : Option String → String → Bool
is_at none next = false
is_at (some t) next = t == next

abbrev pub state_name : Value → Py String
state_name (str s) =
    if contains states s
    then ok s
    else raise (value_error "RC_TERMINAL_STATE_TRANSITION_PROHIBITED")
state_name _ = raise (value_error "RC_TERMINAL_STATE_TRANSITION_PROHIBITED")

abbrev pub as_dict : Value → Py Fields
as_dict (dict fs) = ok fs
as_dict _ = raise attribute_error

abbrev pub as_list : Value → Py (List Value)
as_list (list xs) = ok (elements xs)
as_list _ = raise attribute_error

abbrev pub history_record : ℕ → Value → String → String → String → List String → Value
history_record sequence previous next gate status evidence = dict (
    fields (
      ("sequence", int (pos sequence))
      ∷ ("from", previous)
      ∷ ("to", str next)
      ∷ ("gate", str gate)
      ∷ ("status", str status)
      ∷ ("evidence", list (texts evidence))
      ∷ []))

abbrev pub hashes : Host → List String → List (String × Value)
hashes H = map (λ path. (path, str (file_hash H path)))

-- `state` with the four entries that a step changes.
abbrev pub moved : Fields → String → String → Fields → List Value → Fields
moved state next gate bindings history = set "history" (list (items history)) (
    set "evidence_bindings" (dict bindings)
      (set "last_gate" (str gate) (set "state" (str next) state)))

-- The step itself, once its checks are passed.
abbrev pub step_of :
    Host → Fields → String → String → List String → Bool → String → Fields → List Value → Step
step_of H state next gate evidence check previous bindings history =
    let record' = history_record (length history) (str previous) next gate "PASS" evidence in
    let updated =
      moved state next gate (update bindings (hashes H evidence)) (history ++ record' ∷ []) in
    record { updated = updated; written = if check then none else some updated }

-- `deepcopy`, and the three entries of the copy that are changed in place.
abbrev pub change : Host → Fields → String → String → List String → Bool → String → Py Step
change H state next gate evidence check previous =
    (item "evidence_bindings" state >>= as_dict) >>= λ bindings.
    (item "history" state >>= as_list) >>= λ history.
    ok (step_of H state next gate evidence check previous bindings history)

unfoldable pub record_transition : Host → Fields → String → String → List String → Bool → Py Step
record_transition H state next gate evidence check = do
  previous ← item "state" state >>= state_name
  require (is_at (get_elem? states (suc (index_of previous states))) next)
      (value_error "RC_STATE_TRANSITION_INVALID")
  require (all H.is_file evidence) (value_error "RC_TRANSITION_EVIDENCE_MISSING")
  change H state next gate evidence check previous

abbrev pub first_state : String → String → Fields
first_state case_id kind = fields (
    ("schema_version", str "1.0.0")
    ∷ ("case_id", str case_id)
    ∷ ("case_kind", str kind)
    ∷ ("skill_version", str version)
    ∷ ("capability", str capability)
    ∷ ("architecture", str architecture)
    ∷ ("state", str "CREATED")
    ∷ ("last_gate", str "INIT")
    ∷ ("evidence_bindings", dict (fields []))
    ∷ ("history", list (items (history_record 0 null "CREATED" "INIT" "PASS" [] ∷ [])))
    ∷ [])

abbrev pub kinds : List String
kinds = "prediction" ∷ "optimization" ∷ "general" ∷ []

-- The state that `initialize_case` builds. Writing it and the templates is input and output.
unfoldable pub initialize_case : Host → String → String → Py Fields
initialize_case H case_id kind = do
  require (is_case_id case_id) (value_error "RC_CASE_ID_INVALID")
  require (contains kinds kind) (value_error "RC_CASE_KIND_INVALID")
  require (not (H.exists "case_state.json")) (value_error "RC_CASE_ALREADY_INITIALIZED")
  ok (first_state case_id kind)
