-- ===== src/Kernel/Transition/Walk.antt =====
-- The history of an accepted case is a walk along `STATES`, and a step prolongs the walk.
use cumcm.Base.{
  ℕ, suc, ◌+◌, String, ◌≡◌, refl, sym, ap, ◌∙◌, Bool, true, false, not, ◌&&◌, Option, none, some,
  List, [], ◌∷◌, ◌++◌, eq_iff, eq_refl, arith, length, get_elem?, contains, last?, length-append,
  last?-snoc, eqb, eqb_refl, and-eq-true,
}
use cumcm.Py.Value.{
  Value, bool, int, float, nonfinite, nan, inf, neg_inf, str, dict, Fields, eq, texts,
}
use cumcm.Py.Dict.{get}
use cumcm.Kernel.Tables.{states, transition_gates}
use cumcm.Kernel.Boundary.{code_unless, all_texts, text_elements}
use cumcm.Kernel.State.{
  up_to, record_ok, records_ok, previous_of, expected_states, expected_from, to_of, last_is_current,
}
use cumcm.Kernel.State.Validate.{history_codes, is_nil}
use cumcm.Kernel.State.Pipeline.{
  up_to-next, get_elem?-up_to, get_elem?-append, get_elem?-snoc, records_ok-append, records_ok-snoc,
}
use cumcm.Kernel.Transition.{index_of, history_record}
use cumcm.Kernel.Transition.Moved.{pipeline_not_terminal}

pub eq-str : (v : Value) (s : String) → eq v (str s) ≡ true → v ≡ str s
unfolding eq
eq-str (str t) s h = ap str ((eq_iff t s).0 h)
eq-str (bool true) s h = cc
eq-str (bool false) s h = cc
eq-str (int z) s h = cc
eq-str (float m k) s h = cc
eq-str (nonfinite nan) s h = cc
eq-str (nonfinite inf) s h = cc
eq-str (nonfinite neg_inf) s h = cc
eq-str _ s h = cc

-- What acceptance says of the history of a case that is in the pipeline.
pub record Walked (s : String) (history : List Value) : Type 0 where
  pub last_is : (r : Value) × (last? history ≡ some r) × (to_of r ≡ str s)
  pub counted : length history ≡ length (up_to s states)
  pub matched : records_ok (up_to s states) 0 history ≡ true

last_is_current-str :
    (s : String) (o : Option Value)
    → last_is_current (str s) o ≡ true
    → (r : Value) × (o ≡ some r) × (to_of r ≡ str s)
last_is_current-str s none h = cc
last_is_current-str s (some (dict fs)) h = (dict fs, refl, eq-str (get "to" fs) s h)
last_is_current-str s (some _) h = cc

abbrev pipeline_ok : String → List Value → Bool
pipeline_ok s history =
    not (is_nil history)
    && eqb (length history) (length (expected_states (last? history)))
    && last_is_current (str s) (last? history)
    && records_ok (expected_states (last? history)) 0 history

history_codes-pipeline :
    (s : String) (history : List Value)
    → contains states s ≡ true
    → history_codes (str s) history
      ≡ code_unless (pipeline_ok s history) "RC_CASE_STATE_HISTORY_INVALID" ++ []
unfolding history_codes
history_codes-pipeline s history known = rw (pipeline_not_terminal s known)

code_unless-append-nil : (b : Bool) (c : String) → code_unless b c ++ [] ≡ [] → b ≡ true
code_unless-append-nil true c h = refl
code_unless-append-nil false c h = cc

expected_from-known :
    (s : String) → contains states s ≡ true → expected_from (str s) ≡ up_to s states
expected_from-known s known = rw known

eqb-eq : (a b : ℕ) → eqb a b ≡ true → a ≡ b
eqb-eq a b h = ground arith

pub Walked-of_codes :
    (s : String) (history : List Value)
    → contains states s ≡ true
    → history_codes (str s) history ≡ []
    → Walked s history
Walked-of_codes s history known h =
    let ok =
      code_unless-append-nil (pipeline_ok s history) "RC_CASE_STATE_HISTORY_INVALID"
        (sym (history_codes-pipeline s history known) ∙ h) in
    let (front, matched) =
      and-eq-true _ (records_ok (expected_states (last? history)) 0 history) ok in
    let (front', last_ok) = and-eq-true _ (last_is_current (str s) (last? history)) front in
    let (_, counted) = and-eq-true (not (is_nil history)) _ front' in
    let (r, e, t) = last_is_current-str s (last? history) last_ok in
    let expected : expected_states (last? history) ≡ up_to s states =
      rw (e, t) (expected_from-known s known) in
    record {
      last_is = (r, e, t);
      counted = eqb-eq _ _ counted ∙ ap length expected;
      matched = rw expected at matched;
    }

pub expected_states-Walked :
    (s : String) (history : List Value)
    → contains states s ≡ true
    → Walked s history
    → expected_states (last? history) ≡ up_to s states
expected_states-Walked s history known w =
    let (r, e, t) = w.last_is in rw (e, t) (expected_from-known s known)

is_nil-snoc : (xs : List Value) (r : Value) → is_nil (xs ++ r ∷ []) ≡ false
is_nil-snoc [] r = refl
is_nil-snoc (x ∷ xs) r = refl

-- A history that is walked to a state of the pipeline passes.
pub codes_of_Walked :
    (s : String) (xs : List Value) (fs : Fields)
    → contains states s ≡ true
    → get "to" fs ≡ str s
    → length (xs ++ dict fs ∷ []) ≡ length (up_to s states)
    → records_ok (up_to s states) 0 (xs ++ dict fs ∷ []) ≡ true
    → history_codes (str s) (xs ++ dict fs ∷ []) ≡ []
unfolding eq
codes_of_Walked s xs fs known to counted matched =
    let last_ok : last_is_current (str s) (last? (xs ++ dict fs ∷ [])) ≡ true =
      rw (last?-snoc xs (dict fs), to) (eq_refl s) in
    let expected : expected_states (last? (xs ++ dict fs ∷ [])) ≡ up_to s states =
      rw (last?-snoc xs (dict fs), to) (expected_from-known s known) in
    history_codes-pipeline s (xs ++ dict fs ∷ []) known
    ∙ rw (is_nil-snoc xs (dict fs), last_ok, expected, counted, eqb_refl, matched)

all_texts-texts : (xs : List String) → all_texts (texts xs) ≡ true
all_texts-texts [] = refl
all_texts-texts (x ∷ xs) = all_texts-texts xs

pub text_elements-texts : (xs : List String) → text_elements (texts xs) ≡ xs
text_elements-texts [] = refl
text_elements-texts (x ∷ xs) = ap (λ l. x ∷ l) (text_elements-texts xs)

pub record_ok-history_record :
    (n : ℕ) (previous next gate : String) (evidence : List String)
    → transition_gates next ≡ some gate
    → record_ok
        (some previous)
        (some next)
        n
        (history_record n (str previous) next gate "PASS" evidence)
      ≡ true
unfolding record_ok eq
record_ok-history_record n previous next gate evidence g =
    rw (g, eqb_refl, eq_refl previous, eq_refl next, eq_refl gate, all_texts-texts evidence)

-- The history after a step: one record more, and walked to the next state.
module _ (s next gate : String) (evidence : List String) (history : List Value)
    (known : contains states s ≡ true)
    (adjacent : get_elem? states (suc (index_of s states)) ≡ some next)
    (g : transition_gates next ≡ some gate) (w : Walked s history) where
  abbrev new_record : Value
  new_record = history_record (length history) (str s) next gate "PASS" evidence

  longer : up_to next states ≡ up_to s states ++ next ∷ []
  longer = up_to-next states s next refl known adjacent

  pub length-stepped : length (history ++ new_record ∷ []) ≡ length (up_to next states)
  length-stepped =
      length-append history (new_record ∷ [])
      ∙ ap (λ n. n + 1) w.counted
      ∙ sym (ap length longer ∙ length-append (up_to s states) (next ∷ []))

  record_fits :
      record_ok
        (previous_of (up_to s states ++ next ∷ []) (length history))
        (get_elem? (up_to s states ++ next ∷ []) (length history))
        (length history)
        new_record
      ≡ true
  record_fits =
      let (m, l, at_m) = get_elem?-up_to states s known in
      let n : length history ≡ suc m = w.counted ∙ l in
      let here : get_elem? (up_to s states ++ next ∷ []) (length history) ≡ some next =
        rw w.counted (get_elem?-snoc (up_to s states) next) in
      let before : previous_of (up_to s states ++ next ∷ []) (length history) ≡ some s =
        rw n (get_elem?-append (up_to s states) (next ∷ []) m (omega (arith, l)) ∙ at_m) in
      rw (here, before) (record_ok-history_record (length history) s next gate evidence g)

  pub matched-stepped : records_ok (up_to next states) 0 (history ++ new_record ∷ []) ≡ true
  matched-stepped =
      let zero : 0 + length history ≡ length history = omega arith in
      rw longer (
        records_ok-snoc (up_to s states ++ next ∷ []) 0 history new_record
          (records_ok-append (up_to s states) (next ∷ []) 0 history (omega (arith, w.counted))
            w.matched)
          (rw zero record_fits))
