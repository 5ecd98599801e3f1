-- ===== src/Kernel/Advance/Writes.antt =====
-- What `advance_once` writes to case_state.json.
use cumcm.Base.{
  String, ◌≡◌, refl, sym, ap, ◌∙◌, Bool, true, false, none, some, List, [], ◌∷◌, if◌then◌else◌, ◌⊎◌,
  inl, inr,
}
use cumcm.Py.Exn.{Exn, Py, ok, raise, value_error, ◌>>=◌, ok-injective}
use cumcm.Py.Value.{Value, Fields, str}
use cumcm.Py.Dict.{get, item, get-set}
use cumcm.Kernel.Host.{Host}
use cumcm.Kernel.Load.{load_state}
use cumcm.Kernel.Stale.{
  StaleCheck, dependency_mismatches, stale_check, stale_check_of, mark, recheck, marked,
}
use cumcm.Kernel.Transition.{Step, as_list, as_dict, record_transition, change}
use cumcm.Kernel.Validators.{Validators}
use cumcm.Kernel.Advance.{
  Outcome, advance_once, advance_loaded, advance_current, advance_state, step_outcome,
  stale_outcome,
}
use cumcm.Kernel.Advance.Moves.{advance_state-IsMove}
use cumcm.Py.Returns.{Returns, Returns-bind, Returns-if, Returns-ok}

IsWritten : Bool → Step → Type 0
IsWritten check step = step.written ≡ (if check then none else some step.updated)

-- A stale check writes nothing or a state that is STALE.
IsMark : StaleCheck → Type 0
IsMark check = (fs : Fields) → check.written ≡ some fs → get "state" fs ≡ str "STALE"

some_inj : (a b : Fields) → some a ≡ some b → a ≡ b
some_inj a b e = cc

change-IsWritten :
    (H : Host) (state : Fields) (next gate : String) (evidence : List String) (check : Bool)
    (previous : String)
    → Returns (IsWritten check) (change H state next gate evidence check previous)
unfolding IsWritten
change-IsWritten H state next gate evidence check previous =
    Returns-bind (item "evidence_bindings" state >>= as_dict) _
      λ bindings. Returns-bind (item "history" state >>= as_list) _ λ history. Returns-ok _ refl

record_transition-IsWritten :
    (H : Host) (state : Fields) (next gate : String) (evidence : List String) (check : Bool)
    → Returns (IsWritten check) (record_transition H state next gate evidence check)
unfolding record_transition
record_transition-IsWritten H state next gate evidence check =
    search (Returns-bind, change-IsWritten)

recheck-IsMark : (a b : List String) → IsMark (recheck a b)
unfolding IsMark
recheck-IsMark a b fs e = cc

marked-state :
    (state : Fields) (previous : Value) (history : List Value) (chain : List String)
    → get "state" (marked state previous history chain) ≡ str "STALE"
marked-state state previous history chain = simp get-set

mark-IsMark :
    (state : Fields) (mutate : Bool) (ms : List String) → Returns IsMark (mark state mutate ms)
unfolding IsMark
mark-IsMark state mutate [] = Returns-ok _ λ fs e. cc
mark-IsMark state false (m ∷ ms) =
    Returns-bind (item "history" state >>= as_list) _
      λ history. Returns-bind (item "state" state) _ λ previous. Returns-ok _ λ fs e. cc
mark-IsMark state true (m ∷ ms) = Returns-bind (item "history" state >>= as_list) _ λ history.
    Returns-bind (item "state" state) _ λ previous.
      Returns-ok _
        λ fs e. ap (get "state") (sym (some_inj _ fs e)) ∙ marked-state state previous history _

recheck-Returns : (a b : List String) → Returns IsMark (ok (recheck a b))
recheck-Returns a b = Returns-ok _ (recheck-IsMark a b)

stale_check-IsMark :
    (H : Host) (V : Validators) (mutate : Bool) → Returns IsMark (stale_check H V mutate)
unfolding stale_check stale_check_of
stale_check-IsMark H V mutate =
    search (Returns-bind, Returns-if, recheck-Returns, mark-IsMark) depth 10

-- What a call without check mode may write, by what it returns or raises.
abbrev pub IsSaved : Py Fields → Fields → Type 0
IsSaved result fs =
    (result ≡ ok fs)
    ⊎ ((result ≡ raise (value_error "RC_UPSTREAM_DEPENDENCY_STALE"))
        × (get "state" fs ≡ str "STALE"))

abbrev IsSound : Outcome → Type 0
IsSound o =
    ((fs : Fields) → o.written ≡ some fs → IsSaved o.result fs)
    × ((fs : Fields) → o.result ≡ ok fs → o.written ≡ some fs)

failed-IsSound : (e : Exn) → IsSound (record { result = raise e; written = none })
failed-IsSound e = (λ fs h. cc, λ fs h. cc)

step-IsSound : (r : Py Step) → Returns (IsWritten false) r → IsSound (step_outcome r)
unfolding IsWritten
step-IsSound (raise e) w = failed-IsSound e
step-IsSound (ok step) w =
    let h = w.at step refl in
    (
      λ fs e. inl (ap ok (some_inj step.updated fs (sym h ∙ e))),
      λ fs e. h ∙ ap some (ok-injective step.updated fs e),
    )

stale-IsSound : (r : Py StaleCheck) → Returns IsMark r → IsSound (stale_outcome r)
unfolding IsMark
stale-IsSound (raise e) m = failed-IsSound e
stale-IsSound (ok check) m = (λ fs e. inr (refl, m.at check refl fs e), λ fs e. cc)

advance_state-IsWritten :
    (H : Host) (V : Validators) (state : Fields)
    → Returns (IsWritten false) (advance_state H V state false)
advance_state-IsWritten H V state = record {
  at = λ step e.
      let m = (advance_state-IsMove H V state false).at step e in
      (record_transition-IsWritten H state m.next m.gate m.evidence false).at step m.moved;
}

current-IsSound :
    (H : Host) (V : Validators) (state : Fields) (ms : Py (List String))
    → IsSound (advance_current H V false state ms)
current-IsSound H V state (raise e) = failed-IsSound e
current-IsSound H V state (ok []) =
    step-IsSound (advance_state H V state false) (advance_state-IsWritten H V state)
current-IsSound H V state (ok (m ∷ ms)) =
    stale-IsSound (stale_check H V true) (stale_check-IsMark H V true)

loaded-IsSound :
    (H : Host) (V : Validators) (state : Py Fields) → IsSound (advance_loaded H V false state)
loaded-IsSound H V (raise e) = failed-IsSound e
loaded-IsSound H V (ok state) = current-IsSound H V state (dependency_mismatches H V state)

-- What `advance_once` writes is the state that it returns, or else a state marked STALE while it
-- raises RC_UPSTREAM_DEPENDENCY_STALE. On any other exception nothing is written.
pub advance_once-written :
    (H : Host) (V : Validators) (fs : Fields)
    → (advance_once H V false).written ≡ some fs
    → IsSaved (advance_once H V false).result fs
unfolding advance_once
advance_once-written H V = (loaded-IsSound H V (load_state H)).0

-- A state that `advance_once` returns without check mode has been written.
pub advance_once-saves :
    (H : Host) (V : Validators) (fs : Fields)
    → (advance_once H V false).result ≡ ok fs
    → (advance_once H V false).written ≡ some fs
unfolding advance_once
advance_once-saves H V = (loaded-IsSound H V (load_state H)).1
