-- ===== src/Kernel/Transition/Running.antt =====
-- What acceptance by `validate_case_state` says of a case whose state is in `STATES`: `Running`
-- lists it without the branches that concern a terminal state.
use cumcm.Base.{
  String, ◌≡◌, ◌∙◌, true, false, List, [], contains, subset, same_set, last?, arith, or-eq-false,
}
use mathlib.Core.List.{append-nil}
use cumcm.Py.Exn.{ok}
use cumcm.Py.Value.{Value, str, list, dict, Items, Fields, elements, keys, is_text}
use cumcm.Py.Dict.{get}
use cumcm.Kernel.Tables.{states, state_fields}
use cumcm.Kernel.Host.{Host}
use cumcm.Kernel.Boundary.{sensitive_findings, sensitive_findings_fields}
use cumcm.Kernel.State.{
  bindings_codes, bindings_ok, identity_ok, allowed_fields, stale_gate_codes, terminal_record,
  last_gate_ok,
}
use cumcm.Kernel.State.Validate.{history_codes, history_evidence, stale_codes}
use cumcm.Kernel.State.Valid.{IsValid}
use cumcm.Kernel.State.Pipeline.{records_evidence-all, all_evidence}
use cumcm.Kernel.Transition.Moved.{pipeline_not_terminal}
use cumcm.Kernel.Transition.Walk.{Walked-of_codes, expected_states-Walked}

pub record Running (H : Host) (fs : Fields) (s : String) (bs : Fields) (xs : Items) : Type 0 where
  pub at : get "state" fs ≡ str s
  pub known : contains states s ≡ true
  pub clean : sensitive_findings_fields fs ≡ []
  pub named : same_set (keys fs) state_fields ≡ true
  pub identity : identity_ok fs ≡ true
  pub bound_as : get "evidence_bindings" fs ≡ dict bs
  pub bound : bindings_ok H bs ≡ true
  pub past : get "history" fs ≡ list xs
  pub walked : history_codes (str s) (elements xs) ≡ []
  pub covered : subset (all_evidence (elements xs)) (keys bs) ≡ true
  pub last_gate : last_gate_ok (get "last_gate" fs) (last? (elements xs)) ≡ true

pub not_stale_of_known : (s : String) → contains states s ≡ true → is_text (str s) "STALE" ≡ false
not_stale_of_known s known =
    (or-eq-false (is_text (str s) "STALE") _ (pipeline_not_terminal s known)).0

bindings_ok_of_codes :
    (H : Host) (bs : Fields) → bindings_codes H (dict bs) ≡ [] → bindings_ok H bs ≡ true
bindings_ok_of_codes H bs h = ground arith

allowed-known : (s : String) → contains states s ≡ true → allowed_fields (str s) ≡ state_fields
allowed-known s known = rw (not_stale_of_known s known)

evidence-walked :
    (s : String) (l : List Value)
    → contains states s ≡ true
    → history_codes (str s) l ≡ []
    → history_evidence (str s) l ≡ all_evidence l
unfolding history_evidence
evidence-walked s l known h =
    let w = Walked-of_codes s l known h in
    rw (pipeline_not_terminal s known, expected_states-Walked s l known w)
      (append-nil _ ∙ records_evidence-all _ 0 l w.matched)

gated-known :
    (s : String) (l : List Value)
    → contains states s ≡ true
    → stale_gate_codes (str s) (terminal_record (str s) l) ≡ ok []
gated-known s l known = rw (pipeline_not_terminal s known)

stale-known :
    (H : Host) (s : String) (l : List Value) (fs : Fields)
    → contains states s ≡ true
    → stale_codes H (str s) l fs ≡ []
stale-known H s l fs known = rw (not_stale_of_known s known)

pub IsValid-of_Running :
    {H : Host} {fs : Fields} {s : String} {bs : Fields} {xs : Items}
    → Running H fs s bs xs
    → IsValid H fs
IsValid-of_Running {H} {fs} {s} {bs} {xs} r = record {
  clean = unfold sensitive_findings in r.clean;
  named = rw (r.at, allowed-known s r.known) r.named;
  identity = r.identity;
  bound = rw (r.bound_as, r.bound);
  walked = rw (r.at, r.past) r.walked;
  gated = rw (r.at, r.past) (gated-known s (elements xs) r.known);
  covered =
      rw (r.at, r.past, r.bound_as, evidence-walked s (elements xs) r.known r.walked) r.covered;
  last_gate = rw r.past r.last_gate;
  stale = rw (r.at, r.past) (stale-known H s (elements xs) fs r.known);
}

pub Running_of_IsValid :
    {H : Host} {fs : Fields} {s : String} {bs : Fields} {xs : Items}
    → IsValid H fs
    → get "state" fs ≡ str s
    → contains states s ≡ true
    → get "evidence_bindings" fs ≡ dict bs
    → get "history" fs ≡ list xs
    → Running H fs s bs xs
Running_of_IsValid {H} {fs} {s} {bs} {xs} v here known bound_as past =
    let walked : history_codes (str s) (elements xs) ≡ [] = rw (here, past) at v.walked in
    record {
      at = here;
      known = known;
      clean = unfold sensitive_findings in v.clean;
      named = rw (here, allowed-known s known) at v.named;
      identity = v.identity;
      bound_as = bound_as;
      bound = bindings_ok_of_codes H bs (rw bound_as at v.bound);
      past = past;
      walked = walked;
      covered =
          rw (here, past, bound_as, evidence-walked s (elements xs) known walked) at v.covered;
      last_gate = rw past at v.last_gate;
    }
