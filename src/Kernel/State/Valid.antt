-- ===== src/Kernel/State/Valid.antt =====
-- Acceptance by `validate_case_state`, taken apart into one fact for each check, and put together.
use cumcm.Base.{
  String, ◌≡◌, refl, Bool, true, false, List, [], ◌∷◌, last?, subset, same_set, append-eq-nil, ap,
  ◌∙◌,
}
use cumcm.Py.Exn.{ok, >>=-eq-ok, ok-injective}
use cumcm.Py.Value.{Value, dict, Fields, keys}
use cumcm.Py.Dict.{get}
use cumcm.Kernel.Gate.{GateResult, passed, blocked}
use cumcm.Kernel.Boundary.{sensitive_findings, code_unless, verdict}
use cumcm.Kernel.Host.{Host}
use cumcm.Kernel.State.{
  identity_ok, bindings_of, bindings_codes, history_of, last_gate_ok, allowed_fields,
  stale_gate_codes, terminal_record,
}
use cumcm.Kernel.State.Validate.{
  history_codes, history_evidence, stale_codes, state_codes, validate_case_state,
}

abbrev current_of : Fields → Value
current_of fs = get "state" fs

abbrev records_of : Fields → List Value
records_of fs = history_of (get "history" fs)

pub record IsValid (H : Host) (fs : Fields) : Type 0 where
  pub clean : sensitive_findings (dict fs) ≡ []
  pub named : same_set (keys fs) (allowed_fields (get "state" fs)) ≡ true
  pub identity : identity_ok fs ≡ true
  pub bound : bindings_codes H (get "evidence_bindings" fs) ≡ []
  pub walked : history_codes (get "state" fs) (history_of (get "history" fs)) ≡ []
  pub gated :
      stale_gate_codes
        (get "state" fs)
        (terminal_record (get "state" fs) (history_of (get "history" fs)))
      ≡ ok []
  pub covered :
      subset
        (history_evidence (get "state" fs) (history_of (get "history" fs)))
        (keys (bindings_of (get "evidence_bindings" fs)))
      ≡ true
  pub last_gate : last_gate_ok (get "last_gate" fs) (last? (history_of (get "history" fs))) ≡ true
  pub stale : stale_codes H (get "state" fs) (history_of (get "history" fs)) fs ≡ []

code_unless-eq-nil : (b : Bool) (c : String) → code_unless b c ≡ [] → b ≡ true
code_unless-eq-nil true c h = refl
code_unless-eq-nil false c h = cc

verdict-accepted : (cs : List String) (c : String) → (verdict cs c).accepted ≡ true → cs ≡ []
unfolding passed blocked
verdict-accepted [] c h = refl
verdict-accepted (x ∷ cs) c h = cc

pub accept_of_IsValid :
    {H : Host} {fs : Fields}
    → IsValid H fs
    → validate_case_state H (dict fs) ≡ ok (passed "RC_CASE_STATE_VALID")
unfolding validate_case_state state_codes
accept_of_IsValid {H} {fs} v =
    rw (v.gated, v.clean, v.named, v.identity, v.bound, v.walked, v.covered, v.last_gate, v.stale)

state_codes-eq-nil :
    (H : Host) (fs : Fields) (gate_codes : List String)
    → stale_gate_codes
        (get "state" fs)
        (terminal_record (get "state" fs) (history_of (get "history" fs)))
      ≡ ok gate_codes
    → state_codes H fs gate_codes ≡ []
    → IsValid H fs
unfolding state_codes
state_codes-eq-nil H fs gate_codes e h =
    let (clean, h1) = append-eq-nil _ _ h in
    let (named, h2) = append-eq-nil _ _ h1 in
    let (identity, h3) = append-eq-nil _ _ h2 in
    let (bound, h4) = append-eq-nil _ _ h3 in
    let (walked, h5) = append-eq-nil _ _ h4 in
    let (gated, h6) = append-eq-nil _ _ h5 in
    let (covered, h7) = append-eq-nil _ _ h6 in
    let (last_gate, stale) = append-eq-nil _ _ h7 in
    record {
      clean = clean;
      named = code_unless-eq-nil _ _ named;
      identity = code_unless-eq-nil _ _ identity;
      bound = bound;
      walked = walked;
      gated = e ∙ ap ok gated;
      covered = code_unless-eq-nil _ _ covered;
      last_gate = code_unless-eq-nil _ _ last_gate;
      stale = stale;
    }

result-accepted : (r g : GateResult) → ok r ≡ ok g → g.accepted ≡ true → r.accepted ≡ true
result-accepted r g h a = rw (ok-injective r g h) a

pub IsValid-of_accept :
    {H : Host} {fs : Fields} (g : GateResult)
    → validate_case_state H (dict fs) ≡ ok g
    → g.accepted ≡ true
    → IsValid H fs
unfolding validate_case_state
IsValid-of_accept {H} {fs} g h accepted =
    let gates =
      stale_gate_codes (get "state" fs)
        (terminal_record (get "state" fs) (history_of (get "history" fs))) in
    let rest = λ (gc : List String). ok (verdict (state_codes H fs gc) "RC_CASE_STATE_VALID") in
    let (gc, e, h') = >>=-eq-ok gates rest h in
    let r = verdict (state_codes H fs gc) "RC_CASE_STATE_VALID" in
    state_codes-eq-nil H fs gc e (
      verdict-accepted (state_codes H fs gc) "RC_CASE_STATE_VALID"
        (result-accepted r g h' accepted))
