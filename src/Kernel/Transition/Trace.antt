-- ===== src/Kernel/Transition/Trace.antt =====
-- What the history of an accepted case in the pipeline is: the states from the first up to the
-- current one, each with its own gate and its place.
use cumcm.Base.{
  ℕ, zero, suc, ◌+◌, String, ◌≡◌, refl, ap, ◌∙◌, true, false, Option, none, some, List, [], ◌∷◌,
  ◌==◌, length, get_elem?, contains, Bool-cases, inl, inr, arith, and-eq-true, eq_iff,
}
use Prim.Native.Nat.{pred}
use cumcm.Py.Exn.{ok}
use cumcm.Py.Value.{
  Value, null, bool, int, float, nonfinite, nan, inf, neg_inf, pos, str, dict, Fields, eq, is_text,
}
use cumcm.Py.Dict.{get}
use cumcm.Kernel.Tables.{states, transition_gates}
use cumcm.Kernel.Host.{Host}
use cumcm.Kernel.Gate.{GateResult}
use cumcm.Kernel.State.{
  up_to, records_ok, record_ok, previous_of, text_or_null, gate_of, history_of, is_text_list,
}
use cumcm.Kernel.State.Validate.{validate_case_state, history_codes}
use cumcm.Kernel.State.Valid.{IsValid-of_accept}
use cumcm.Kernel.State.Pipeline.{records_ok-cons}
use cumcm.Kernel.Transition.{index_of}
use cumcm.Kernel.Transition.Walk.{Walked-of_codes, eq-str}
use cumcm.Kernel.Advance.Runs.{entry}

eq-null : (v : Value) → eq v null ≡ true → v ≡ null
unfolding eq
eq-null null h = refl
eq-null (bool true) h = cc
eq-null (bool false) h = cc
eq-null (int z) h = cc
eq-null (float m k) h = cc
eq-null (nonfinite nan) h = cc
eq-null (nonfinite inf) h = cc
eq-null (nonfinite neg_inf) h = cc
eq-null _ h = cc

eq-text_or_null :
    (v : Value) (o : Option String) → eq v (text_or_null o) ≡ true → v ≡ text_or_null o
eq-text_or_null v none h = eq-null v h
eq-text_or_null v (some s) h = eq-str v s h

-- The record at place `n` is that of the state `t`.
record IsRecordOf (n : ℕ) (t : String) (r : Value) : Type 0 where
  pub sequence : eq (entry "sequence" r) (int (pos n)) ≡ true
  pub to : entry "to" r ≡ str t
  pub gate : entry "gate" r ≡ text_or_null (transition_gates t)
  pub status : entry "status" r ≡ str "PASS"

is_text-eq : (v : Value) (s : String) → is_text v s ≡ true → v ≡ str s
is_text-eq (str t) s h = ground (arith, eq_iff t s)
is_text-eq _ s h = cc

record_ok-some :
    (previous : Option String) (t : String) (n : ℕ) (r : Value)
    → record_ok previous (some t) n r ≡ true
    → IsRecordOf n t r
unfolding record_ok
record_ok-some previous t n (dict fs) h =
    let (h1, _) = and-eq-true _ (is_text_list (get "evidence" fs)) h in
    let (h2, status) = and-eq-true _ (is_text (get "status" fs) "PASS") h1 in
    let (h3, gate) = and-eq-true _ (eq (get "gate" fs) (gate_of (some t))) h2 in
    let (h4, to) = and-eq-true _ (eq (get "to" fs) (str t)) h3 in
    let (h5, _) = and-eq-true _ (eq (get "from" fs) (text_or_null previous)) h4 in
    let (_, sequence) = and-eq-true _ (eq (get "sequence" fs) (int (pos n))) h5 in
    record {
      sequence = sequence;
      to = eq-str (get "to" fs) t to;
      gate = eq-text_or_null (get "gate" fs) (transition_gates t) gate;
      status = is_text-eq (get "status" fs) "PASS" status;
    }
record_ok-some previous t n _ h = cc

some_inj : (a b : Value) → some a ≡ some b → a ≡ b
some_inj a b e = cc

records_ok-at :
    (es : List String) (i : ℕ) (rs : List Value) (n : ℕ) (r : Value)
    → records_ok es i rs ≡ true
    → get_elem? rs n ≡ some r
    → record_ok (previous_of es (n + i)) (get_elem? es (n + i)) (n + i) r ≡ true
records_ok-at es i [] n r h e = cc
records_ok-at es i (q ∷ rs) zero r h e =
    let (here, _) = records_ok-cons es i q rs h in
    let z : 0 + i ≡ i = omega arith in let same : q ≡ r = some_inj q r e in rw (z, ← same) here
records_ok-at es i (q ∷ rs) (suc n) r h e =
    let (_, there) = records_ok-cons es i q rs h in
    let z : suc n + i ≡ n + suc i = omega arith in rw z (records_ok-at es (suc i) rs n r there e)

length-up_to :
    (xs : List String) (s : String)
    → contains xs s ≡ true
    → length (up_to s xs) ≡ suc (index_of s xs)
unfolding up_to
length-up_to [] s m = cc
length-up_to (t ∷ r) s m = ground (arith, length-up_to r s)

one_record : (rs : List Value) (n : ℕ) (r : Value) → length rs ≡ 0 → get_elem? rs n ≡ some r → ⊥
one_record [] n r l e = cc
one_record (q ∷ rs) n r l e = omega arith

get_elem?-of_up_to :
    (xs : List String) (s : String) (n : ℕ) (r : Value) (rs : List Value)
    → length rs ≡ length (up_to s xs)
    → get_elem? rs n ≡ some r
    → (t : String) × (get_elem? (up_to s xs) n ≡ some t) × (get_elem? xs n ≡ some t)
unfolding up_to
get_elem?-of_up_to [] s n r [] l e = cc
get_elem?-of_up_to [] s n r (q ∷ rs) l e = absurd (omega arith)
get_elem?-of_up_to (x ∷ xs) s n r [] l e = cc
get_elem?-of_up_to (x ∷ xs) s zero r (q ∷ rs) l e = elim (Bool-cases (x == s)) [
  | inl m ↦ rw m (x, refl, refl)
  | inr m ↦ rw m (x, refl, refl)
]
get_elem?-of_up_to (x ∷ xs) s (suc n) r (q ∷ rs) l e = elim (Bool-cases (x == s)) [
  | inl m ↦ absurd (one_record rs n r (ap pred (rw m at l)) e)
  | inr m ↦ rw m (get_elem?-of_up_to xs s n r rs (ap pred (rw m at l)) e)
]

-- Of a case that `validate_case_state` accepts in a state `s` of `STATES`, the history has as many
-- records as there are states up to `s`, and its record at place `n` is numbered `n`, leads to the
-- state at place `n` of `STATES`, names the gate that `TRANSITION_GATES` has for it, and has the status
-- PASS.
pub accepted_history :
    (H : Host) (fs : Fields) (result : GateResult) (s : String) (n : ℕ) (r : Value)
    → validate_case_state H (dict fs) ≡ ok result
    → result.accepted ≡ true
    → get "state" fs ≡ str s
    → contains states s ≡ true
    → get_elem? (history_of (get "history" fs)) n ≡ some r
    → (t : String) × (length (history_of (get "history" fs)) ≡ suc (index_of s states))
      × (get_elem? states n ≡ some t)
      × (eq (entry "sequence" r) (int (pos n)) ≡ true)
      × (entry "to" r ≡ str t)
      × (entry "gate" r ≡ text_or_null (transition_gates t))
      × (entry "status" r ≡ str "PASS")
accepted_history H fs result s n r valid accepted at_s known e =
    let v = IsValid-of_accept result valid accepted in
    let history = history_of (get "history" fs) in
    let walked : history_codes (str s) history ≡ [] = rw at_s at v.walked in
    let w = Walked-of_codes s history known walked in
    let (t, here, there) = get_elem?-of_up_to states s n r history w.counted e in
    let z : n + 0 ≡ n = omega arith in
    let ok_at = records_ok-at (up_to s states) 0 history n r w.matched e in
    let fits = record_ok-some (previous_of (up_to s states) n) t n r (rw here at (rw z at ok_at)) in
    (
      t,
      w.counted ∙ length-up_to states s known,
      there,
      fits.sequence,
      fits.to,
      fits.gate,
      fits.status,
    )
