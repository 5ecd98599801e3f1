-- ===== src/Kernel/Transition/Initial.antt =====
-- The state of `initialize_case` is one that `validate_case_state` accepts.
use cumcm.Base.{String, ◌≡◌, refl, ◌∙◌, true, [], ◌∷◌, contains}
use cumcm.Py.Exn.{ok, value_error, ◌>>=◌, >>=-eq-ok, require, require-eq-ok, ok-injective}
use cumcm.Py.Value.{str, dict, Fields, end, eq}
use cumcm.Py.Text.{is_case_id}
use cumcm.Kernel.Host.{Host}
use cumcm.Kernel.Gate.{passed}
use cumcm.Kernel.Boundary.{sensitive_findings, key_findings, text_findings}
use cumcm.Kernel.Boundary.Plain.{case_id-clean}
use cumcm.Kernel.State.{identity_ok, header_ok, bindings_ok, records_ok, record_ok, up_to}
use cumcm.Kernel.State.Validate.{validate_case_state, history_codes}
use cumcm.Kernel.State.Valid.{accept_of_IsValid}
use cumcm.Kernel.Boundary.{sensitive_findings_fields}
use cumcm.Kernel.Boundary.Names.{texts_clean, AllCleanTexts-of_check, clean_of_contains}
use cumcm.Py.Value.{items, null}
use cumcm.Base.{not}
use cumcm.Kernel.Transition.{first_state, kinds, history_record, initialize_case}
use cumcm.Kernel.Transition.Moved.{text_in-str}
use cumcm.Kernel.Transition.Running.{Running, IsValid-of_Running}
use cumcm.Kernel.Tables.{transition_gates}

kinds_clean : texts_clean kinds ≡ true
unfolding text_findings
kinds_clean = refl

first-clean :
    (case_id kind : String)
    → text_findings case_id ≡ []
    → text_findings kind ≡ []
    → sensitive_findings_fields (first_state case_id kind) ≡ []
unfolding sensitive_findings key_findings text_findings
first-clean case_id kind hc hk = rw (hc, hk)

first-identity :
    (case_id kind : String)
    → is_case_id case_id ≡ true
    → contains kinds kind ≡ true
    → identity_ok (first_state case_id kind) ≡ true
unfolding identity_ok header_ok
first-identity case_id kind hc hk = rw (hc, text_in-str kinds kind ∙ hk)

first-walked :
    history_codes (str "CREATED") (history_record 0 null "CREATED" "INIT" "PASS" [] ∷ []) ≡ []
unfolding history_codes records_ok record_ok up_to transition_gates eq
first-walked = refl

first-Running :
    (H : Host) (case_id kind : String)
    → is_case_id case_id ≡ true
    → contains kinds kind ≡ true
    → Running H
        (first_state case_id kind)
        "CREATED"
        end
        (items (history_record 0 null "CREATED" "INIT" "PASS" [] ∷ []))
unfolding bindings_ok eq
first-Running H case_id kind hc hk = record {
  at = refl;
  known = refl;
  clean =
      first-clean case_id kind (case_id-clean case_id hc)
        (clean_of_contains kinds kind (AllCleanTexts-of_check kinds kinds_clean) hk);
  named = refl;
  identity = first-identity case_id kind hc hk;
  bound_as = refl;
  bound = refl;
  past = refl;
  walked = first-walked;
  covered = refl;
  last_gate = refl;
}

pub first_state-accepted :
    (H : Host) (case_id kind : String)
    → is_case_id case_id ≡ true
    → contains kinds kind ≡ true
    → validate_case_state H (dict (first_state case_id kind)) ≡ ok (passed "RC_CASE_STATE_VALID")
first_state-accepted H case_id kind hc hk =
    accept_of_IsValid (IsValid-of_Running (first-Running H case_id kind hc hk))

-- Whenever `initialize_case` returns, `validate_case_state` accepts the state that it returns.
pub initialize_case-accepted :
    (H : Host) (case_id kind : String) (fs : Fields)
    → initialize_case H case_id kind ≡ ok fs
    → validate_case_state H (dict fs) ≡ ok (passed "RC_CASE_STATE_VALID")
unfolding initialize_case
initialize_case-accepted H case_id kind fs h =
    let last = λ (_ : Unit {0}). ok (first_state case_id kind) in
    let third = λ (_ : Unit {0}).
      require (not (H.exists "case_state.json")) (value_error "RC_CASE_ALREADY_INITIALIZED")
      >>= last in
    let second = λ (_ : Unit {0}).
      require (contains kinds kind) (value_error "RC_CASE_KIND_INVALID") >>= third in
    let (_, hc, h1) =
      >>=-eq-ok (require (is_case_id case_id) (value_error "RC_CASE_ID_INVALID")) second h in
    let (_, hk, h2) =
      >>=-eq-ok (require (contains kinds kind) (value_error "RC_CASE_KIND_INVALID")) third h1 in
    let (_, _, h3) =
      >>=-eq-ok
        (require (not (H.exists "case_state.json")) (value_error "RC_CASE_ALREADY_INITIALIZED"))
        last h2 in
    rw (← ok-injective (first_state case_id kind) fs h3)
      (first_state-accepted H case_id kind (require-eq-ok _ _ hc) (require-eq-ok _ _ hk))
