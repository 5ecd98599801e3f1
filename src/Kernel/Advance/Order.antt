-- ===== src/Kernel/Advance/Order.antt =====
-- What a call of `advance_once` that returns has done: one step forward in `STATES`, from an accepted
-- state whose dependencies are current, to an accepted state.
use cumcm.Base.{
  suc, String, ◌≡◌, ◌≢◌, refl, sym, ap, ◌∙◌, Bool, true, not, Option, none, some, List, [], ◌∷◌,
  get_elem?, contains, last?, last?-snoc,
}
use mathlib.Core.Path.{subst}
use cumcm.Py.Exn.{
  Py, ok, raise, value_error, ◌>>=◌, >>=-eq-ok, ok-injective, ◌>>◌, require, require-eq-ok,
}
use cumcm.Py.Value.{Value, str, dict, Fields}
use cumcm.Py.Dict.{get}
use cumcm.Kernel.Tables.{states}
use cumcm.Kernel.Host.{Host}
use cumcm.Kernel.Gate.{GateResult, passed}
use cumcm.Kernel.Load.{load_state, load_json, accept, accept_state, as_fields}
use cumcm.Kernel.State.{history_of, record_evidence}
use cumcm.Kernel.State.Validate.{validate_case_state}
use cumcm.Kernel.Stale.{StaleCheck, dependency_mismatches, stale_check}
use cumcm.Kernel.Transition.{Step, index_of}
use cumcm.Kernel.Transition.Inversion.{Stepped, record_transition-Stepped}
use cumcm.Kernel.Transition.Moved.{moved-state, moved-history}
use cumcm.Kernel.Transition.Walk.{text_elements-texts}
use cumcm.Kernel.Transition.Keeps.{IsSha256, Bindable, elements-items, record_transition-accepted}
use cumcm.Kernel.Validators.{Validators}
use cumcm.Kernel.Advance.{
  advance_state, advance_once, advance_loaded, advance_current, step_outcome, stale_outcome,
}
use cumcm.Kernel.Advance.Moves.{advance_state-IsMove}

-- `t` follows `s` in `STATES`.
abbrev pub IsNext : String → String → Type 0
IsNext s t = (contains states s ≡ true) × (get_elem? states (suc (index_of s states)) ≡ some t)

abbrev last_evidence_of : Option Value → List String
last_evidence_of none = []
last_evidence_of (some r) = record_evidence r

-- The evidence of the last record of the history.
unfoldable pub last_evidence : Fields → List String
last_evidence fs = last_evidence_of (last? (history_of (get "history" fs)))

record Returned (H : Host) (V : Validators) (check : Bool) (fs' : Fields) : Type 0 where
  pub before : Fields
  pub loaded : load_state H ≡ ok before
  pub current : dependency_mismatches H V before ≡ ok []
  pub step : Step
  pub stepped : advance_state H V before check ≡ ok step
  pub result : step.updated ≡ fs'

returned_step :
    (r : Py Step) (fs' : Fields)
    → (step_outcome r).result ≡ ok fs'
    → (step : Step) × (r ≡ ok step) × (step.updated ≡ fs')
returned_step (ok step) fs' h = (step, refl, ok-injective _ fs' h)
returned_step (raise e) fs' h = cc

stale_never_returns : (r : Py StaleCheck) (fs' : Fields) → (stale_outcome r).result ≢ ok fs'
stale_never_returns (ok s) fs' h = cc
stale_never_returns (raise e) fs' h = cc

Returned-current :
    (H : Host) (V : Validators) (check : Bool) (before fs' : Fields) (m : Py (List String))
    → load_state H ≡ ok before
    → dependency_mismatches H V before ≡ m
    → (advance_current H V check before m).result ≡ ok fs'
    → Returned H V check fs'
Returned-current H V check before fs' (raise e) l d h = cc
Returned-current H V check before fs' (ok []) l d h =
    let (step, e, u) = returned_step (advance_state H V before check) fs' h in
    record { before = before; loaded = l; current = d; step = step; stepped = e; result = u }
Returned-current H V check before fs' (ok (c ∷ cs)) l d h =
    absurd (stale_never_returns (stale_check H V (not check)) fs' h)

Returned-loaded :
    (H : Host) (V : Validators) (check : Bool) (fs' : Fields) (l : Py Fields)
    → load_state H ≡ l
    → (advance_loaded H V check l).result ≡ ok fs'
    → Returned H V check fs'
Returned-loaded H V check fs' (raise e) l h = cc
Returned-loaded H V check fs' (ok before) l h =
    Returned-current H V check before fs' (dependency_mismatches H V before) l refl h

returned :
    (H : Host) (V : Validators) (check : Bool) (fs' : Fields)
    → (advance_once H V check).result ≡ ok fs'
    → Returned H V check fs'
unfolding advance_once
returned H V check fs' h = Returned-loaded H V check fs' (load_state H) refl h

-- A call of `advance_once` that returns started at a loaded state whose dependencies are current,
-- and returns a state that stands directly behind it in `STATES`: no place of it is jumped over, and a case
-- does not leave a terminal state or the last state of the pipeline.
pub advance_once-IsNext :
    (H : Host) (V : Validators) (check : Bool) (fs' : Fields)
    → (advance_once H V check).result ≡ ok fs'
    → (fs : Fields) × (s : String) × (t : String) × (load_state H ≡ ok fs)
      × (dependency_mismatches H V fs ≡ ok [])
      × (get "state" fs ≡ str s)
      × (get "state" fs' ≡ str t)
      × IsNext s t
advance_once-IsNext H V check fs' h =
    let r = returned H V check fs' h in
    let m = (advance_state-IsMove H V r.before check).at r.step r.stepped in
    let st = record_transition-Stepped H r.before m.next m.gate m.evidence check r.step m.moved in
    (
      r.before,
      st.previous,
      m.next,
      r.loaded,
      r.current,
      st.from_state,
      ap (get "state") (sym r.result ∙ st.result) ∙ moved-state r.before m.next m.gate _ _,
      (st.known, st.adjacent),
    )

last_evidence-Stepped :
    (H : Host) (fs : Fields) (next gate : String) (evidence : List String) (check : Bool)
    (step : Step)
    → Stepped H fs next gate evidence check step
    → last_evidence step.updated ≡ evidence
unfolding last_evidence
last_evidence-Stepped H fs next gate evidence check step st =
    rw (st.result, moved-history, elements-items, last?-snoc) (text_elements-texts evidence)

as_fields-eq-ok : (v : Value) (fs : Fields) → as_fields v ≡ ok fs → v ≡ dict fs
as_fields-eq-ok (dict gs) fs h = ap dict (ok-injective gs fs h)
as_fields-eq-ok _ fs h = cc

accept_state-accepted :
    (H : Host) (value : Value) (fs : Fields)
    → accept_state H value ≡ ok fs
    → (g : GateResult) × (validate_case_state H (dict fs) ≡ ok g) × (g.accepted ≡ true)
accept_state-accepted H value fs h =
    let (g, valid, h1) =
      >>=-eq-ok (validate_case_state H value) (λ result. accept result >> as_fields value) h in
    let (u, taken, h2) = >>=-eq-ok (accept g) (λ _. as_fields value) h1 in
    (
      g,
      subst (λ v. validate_case_state H v ≡ ok g) (as_fields-eq-ok value fs h2) valid,
      require-eq-ok g.accepted _ taken,
    )

load_state-accepted :
    (H : Host) (fs : Fields)
    → load_state H ≡ ok fs
    → (g : GateResult) × (validate_case_state H (dict fs) ≡ ok g) × (g.accepted ≡ true)
unfolding load_state
load_state-accepted H fs h =
    let (u, _, h1) =
      >>=-eq-ok (require (H.is_file "case_state.json") (value_error "RC_CASE_STATE_MISSING"))
        (λ _. load_json H "case_state.json" >>= accept_state H) h in
    let (value, _, h2) = >>=-eq-ok (load_json H "case_state.json") (accept_state H) h1 in
    accept_state-accepted H value fs h2

-- A call of `advance_once` that returns gives a state that `validate_case_state` accepts again, so
-- that the next call can load it, provided that digests are SHA-256 digests and that the paths which
-- the step has bound are relative and hold nothing that `sensitive_findings` rejects.
pub advance_once-accepted :
    (H : Host) (V : Validators) (check : Bool) (fs' : Fields)
    → IsSha256 H
    → Bindable H (last_evidence fs')
    → (advance_once H V check).result ≡ ok fs'
    → validate_case_state H (dict fs') ≡ ok (passed "RC_CASE_STATE_VALID")
advance_once-accepted H V check fs' sha safe h =
    let r = returned H V check fs' h in
    let m = (advance_state-IsMove H V r.before check).at r.step r.stepped in
    let st = record_transition-Stepped H r.before m.next m.gate m.evidence check r.step m.moved in
    let e : last_evidence fs' ≡ m.evidence =
      rw (← r.result) (last_evidence-Stepped H r.before m.next m.gate m.evidence check r.step st) in
    let (g, valid, accepted) = load_state-accepted H r.before r.loaded in
    rw (← r.result) (
      record_transition-accepted H r.before m.next m.gate m.evidence check r.step g sha
        (rw e at safe) valid accepted m.gated m.moved)
