-- ===== src/Kernel/Transition/Keeps.antt =====
-- A step of `record_transition` from an accepted state is to an accepted state.
use cumcm.Base.{
  ℕ, suc, String, ◌≡◌, refl, ap, Bool, true, some, List, [], ◌∷◌, ◌++◌, eq_refl, length, contains,
  subset, same_set, all, Bool-cases, inl, inr, subset-contains, last?-snoc, and-eq-true,
  contains-append, subset-of-contains, subset_trans,
}
use cumcm.Py.Exn.{ok}
use cumcm.Py.Value.{Value, str, list, dict, Items, Fields, eq, elements, items, keys}
use cumcm.Py.Dict.{update, has-update}
use cumcm.Py.Text.{hex64}
use cumcm.Kernel.Tables.{states, transition_gates, state_fields}
use cumcm.Kernel.Host.{Host, file_hash, relative_case_path}
use cumcm.Kernel.Gate.{GateResult, passed}
use cumcm.Kernel.Boundary.{
  sensitive_findings, sensitive_findings_fields, sensitive_findings_items, text_findings,
  key_findings,
}
use cumcm.Kernel.Boundary.Clean.{
  AllCleanTexts, AllCleanKeys, texts-clean, append-clean, set-clean, get-clean, update-clean,
}
use cumcm.Kernel.State.Validate.{validate_case_state}
use cumcm.Kernel.State.Valid.{IsValid, accept_of_IsValid, IsValid-of_accept}
use cumcm.Kernel.State.Pipeline.{contains_of_get_elem?, all_evidence, all_evidence-append}
use cumcm.Kernel.Transition.{Step, index_of, history_record, hashes, moved, record_transition}
use cumcm.Kernel.Transition.Inversion.{Stepped, record_transition-Stepped}
use cumcm.Kernel.Transition.Moved.{
  moved-state, moved-last_gate, moved-bindings, moved-history, keys-moved, identity_ok-moved,
  bindings_ok-update, has-update_self,
}
use cumcm.Kernel.Transition.Running.{Running, IsValid-of_Running, Running_of_IsValid}
use mathlib.Core.List.{append-nil}
use cumcm.Kernel.Boundary.Plain.{hex64-clean}
use cumcm.Kernel.Boundary.Names.{state-clean, gate-clean}
use cumcm.Kernel.Transition.Walk.{
  text_elements-texts, Walked, Walked-of_codes, codes_of_Walked, length-stepped, matched-stepped,
}

-- Paths that a case may bind: relative, and with nothing that the state's own check rejects.
pub record Bindable (H : Host) (evidence : List String) : Type 0 where
  pub relative : all (relative_case_path H.below_cwd) evidence ≡ true
  pub clean_keys : AllCleanKeys evidence
  pub clean_texts : AllCleanTexts evidence

-- The digests of `hashlib.sha256` are 64 lower-case hexadecimal digits.
pub record IsSha256 (H : Host) : Type 0 where
  pub hex : (b : List ℕ) → hex64 (H.sha256 b) ≡ true

pub elements-items : (xs : List Value) → elements (items xs) ≡ xs
elements-items [] = refl
elements-items (x ∷ xs) = ap (λ l. x ∷ l) (elements-items xs)

there :
    (ks : List String)
    → same_set ks state_fields ≡ true
    → subset ("state" ∷ "last_gate" ∷ "evidence_bindings" ∷ "history" ∷ []) ks ≡ true
there ks h =
    subset_trans ("state" ∷ "last_gate" ∷ "evidence_bindings" ∷ "history" ∷ []) state_fields ks refl
      (and-eq-true (subset ks state_fields) _ h).1

dict-clean : (fs : Fields) → sensitive_findings_fields fs ≡ [] → sensitive_findings (dict fs) ≡ []
unfolding sensitive_findings
dict-clean fs h = h

history_record-clean :
    (n : ℕ) (s next gate : String) (evidence : List String)
    → text_findings s ≡ []
    → text_findings next ≡ []
    → text_findings gate ≡ []
    → AllCleanTexts evidence
    → sensitive_findings (history_record n (str s) next gate "PASS" evidence) ≡ []
unfolding sensitive_findings key_findings text_findings
history_record-clean n s next gate evidence hs hn hg he = rw (hs, hn, hg, texts-clean evidence he)

str-clean : (s : String) → text_findings s ≡ [] → sensitive_findings (str s) ≡ []
unfolding sensitive_findings
str-clean s h = h

list-clean : (xs : Items) → sensitive_findings_items xs ≡ [] → sensitive_findings (list xs) ≡ []
unfolding sensitive_findings
list-clean xs h = h

name-clean :
    (key_findings "state" ≡ [])
    × (key_findings "last_gate" ≡ [])
    × (key_findings "evidence_bindings" ≡ [])
    × (key_findings "history" ≡ [])
unfolding key_findings
name-clean = (refl, refl, refl, refl)

moved-clean :
    (fs : Fields) (next gate : String) (bs : Fields) (h : List Value)
    → sensitive_findings_fields fs ≡ []
    → text_findings next ≡ []
    → text_findings gate ≡ []
    → sensitive_findings_fields bs ≡ []
    → sensitive_findings_items (items h) ≡ []
    → sensitive_findings_fields (moved fs next gate bs h) ≡ []
moved-clean fs next gate bs h hf hn hg hb hh =
    set-clean "history" (list (items h)) _ name-clean.3 (list-clean _ hh) (
      set-clean "evidence_bindings" (dict bs) _ name-clean.2 (dict-clean bs hb) (
        set-clean "last_gate" (str gate) _ name-clean.1 (str-clean gate hg)
          (set-clean "state" (str next) fs name-clean.0 (str-clean next hn) hf)))

-- What was bound, and the new paths, are bound afterwards.
covered-update :
    (H : Host) (bs : Fields) (old new : List String)
    → subset old (keys bs) ≡ true
    → subset (old ++ (new ++ [])) (keys (update bs (hashes H new))) ≡ true
covered-update H bs old new h = subset-of-contains (old ++ (new ++ [])) _ λ p m.
    elim (Bool-cases (contains old p)) [
      | inl o ↦ has-update bs (hashes H new) p (subset-contains old (keys bs) p h o)
      | inr o ↦ has-update_self H bs new p (rw (contains-append, o, append-nil) at m)
    ]

module _ (H : Host) (fs : Fields) (next gate : String) (evidence : List String) (check : Bool)
    (step : Step) (sha : IsSha256 H) (safe : Bindable H evidence) (v : IsValid H fs)
    (g : transition_gates next ≡ some gate) (st : Stepped H fs next gate evidence check step) where
  abbrev bs' : Fields
  bs' = update st.bindings (hashes H evidence)

  abbrev past : List Value
  past = elements st.history

  abbrev record' : Value
  record' = history_record (length past) (str st.previous) next gate "PASS" evidence

  before : Running H fs st.previous st.bindings st.history
  before = Running_of_IsValid v st.from_state st.known st.bound st.past

  next_known : contains states next ≡ true
  next_known = contains_of_get_elem? states (suc (index_of st.previous states)) next st.adjacent

  walk : Walked st.previous past
  walk = Walked-of_codes st.previous past st.known before.walked

  bindings-clean : sensitive_findings_fields st.bindings ≡ []
  unfolding sensitive_findings
  bindings-clean = rw st.bound at (get-clean "evidence_bindings" fs before.clean)

  past-clean : sensitive_findings_items st.history ≡ []
  unfolding sensitive_findings
  past-clean = rw st.past at (get-clean "history" fs before.clean)

  record'-clean : sensitive_findings record' ≡ []
  record'-clean =
      history_record-clean (length past) st.previous next gate evidence
        (state-clean st.previous st.known) (state-clean next next_known) (gate-clean next gate g)
        safe.clean_texts

  after-Running :
      Running H
        (moved fs next gate bs' (past ++ record' ∷ []))
        next
        bs'
        (items (past ++ record' ∷ []))
  unfolding eq file_hash
  after-Running = record {
    at = moved-state fs next gate bs' (past ++ record' ∷ []);
    known = next_known;
    clean =
        moved-clean fs next gate bs' (past ++ record' ∷ []) before.clean
          (state-clean next next_known) (gate-clean next gate g)
          (update-clean st.bindings evidence (file_hash H) bindings-clean safe.clean_keys
            (λ p. hex64-clean (H.sha256 (H.bytes p)) (sha.hex (H.bytes p))))
          (append-clean st.history record' past-clean record'-clean);
    named =
        rw (keys-moved fs next gate bs' (past ++ record' ∷ []) (there (keys fs) before.named))
          before.named;
    identity = identity_ok-moved fs next gate bs' (past ++ record' ∷ []) before.identity next_known;
    bound_as = moved-bindings fs next gate bs' (past ++ record' ∷ []);
    bound = bindings_ok-update H st.bindings evidence sha.hex safe.relative before.bound;
    past = moved-history fs next gate bs' (past ++ record' ∷ []);
    walked = rw elements-items (
        codes_of_Walked next past _ next_known refl
          (length-stepped st.previous next gate evidence past st.known st.adjacent g walk)
          (matched-stepped st.previous next gate evidence past st.known st.adjacent g walk));
    covered =
        rw (elements-items, all_evidence-append, text_elements-texts)
          (covered-update H st.bindings (all_evidence past) evidence before.covered);
    last_gate = rw (elements-items, moved-last_gate, last?-snoc) (eq_refl gate);
  }

  after-IsValid : IsValid H step.updated
  after-IsValid = rw st.result (IsValid-of_Running after-Running)

-- From a state that `validate_case_state` accepts, a step of `record_transition` that returns, made
-- with the gate of `TRANSITION_GATES` for its target, returns a state that `validate_case_state`
-- accepts, provided that digests are SHA-256 digests and that the paths of the evidence are relative
-- and hold nothing that `sensitive_findings` rejects.
pub record_transition-accepted :
    (H : Host) (fs : Fields) (next gate : String) (evidence : List String) (check : Bool)
    (step : Step) (result : GateResult)
    → IsSha256 H
    → Bindable H evidence
    → validate_case_state H (dict fs) ≡ ok result
    → result.accepted ≡ true
    → transition_gates next ≡ some gate
    → record_transition H fs next gate evidence check ≡ ok step
    → validate_case_state H (dict step.updated) ≡ ok (passed "RC_CASE_STATE_VALID")
record_transition-accepted H fs next gate evidence check step result sha safe valid accepted g h =
    accept_of_IsValid (
      after-IsValid H fs next gate evidence check step sha safe
        (IsValid-of_accept result valid accepted) g
        (record_transition-Stepped H fs next gate evidence check step h))
