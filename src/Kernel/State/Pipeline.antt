-- ===== src/Kernel/State/Pipeline.antt =====
-- The order of the states: what stands before and after a name in a list without repetitions, and
-- how the history loop of `validate_case_state` sees a longer list.
use cumcm.Base.{
  ℕ, zero, suc, ◌+◌, ◌≤◌, ◌<◌, String, ◌≡◌, refl, sym, ap, true, false, some, List, [], ◌∷◌, ◌++◌,
  ◌==◌, eq_iff, eq_refl, arith, length, get_elem?, contains, Bool-cases, inl, inr, and-eq-true,
}
use mathlib.Core.Path.{subst}
use mathlib.Core.List.{append_assoc}
use cumcm.Py.Value.{Value}
use cumcm.Kernel.Boundary.{no_repeats}
use cumcm.Kernel.State.{
  up_to, record_ok, records_ok, previous_of, records_evidence, record_evidence,
}
use cumcm.Kernel.Transition.{index_of}

pub contains_of_get_elem? :
    (xs : List String) (i : ℕ) (s : String) → get_elem? xs i ≡ some s → contains xs s ≡ true
contains_of_get_elem? [] i s h = cc
contains_of_get_elem? (x ∷ xs) zero s h = ground (arith, eq_iff x s)
contains_of_get_elem? (x ∷ xs) (suc i) s h = ground (arith, contains_of_get_elem? xs i s h)

up_to_head : (s : String) (r : List String) → up_to s (s ∷ r) ≡ s ∷ []
unfolding up_to
up_to_head s r = rw eq_refl

up_to_tail : (s t : String) (r : List String) → (t == s) ≡ false → up_to s (t ∷ r) ≡ t ∷ up_to s r
unfolding up_to
up_to_tail s t r h = rw h

no_repeats_tail : (t : String) (r : List String) → no_repeats (t ∷ r) ≡ true → no_repeats r ≡ true
no_repeats_tail t r n = ground arith

head_fresh :
    (t : String) (r : List String) (next : String)
    → no_repeats (t ∷ r) ≡ true
    → contains r next ≡ true
    → (t == next) ≡ false
head_fresh t r next n m = ground (arith, eq_iff t next)

up_to-next_here :
    (t : String) (r : List String) (s next : String)
    → no_repeats (t ∷ r) ≡ true
    → (t == s) ≡ true
    → get_elem? r 0 ≡ some next
    → up_to next (t ∷ r) ≡ up_to s (t ∷ r) ++ next ∷ []
unfolding up_to
up_to-next_here t [] s next n e h = cc
up_to-next_here t (u ∷ r) s next n e h = ground (arith, eq_iff t next, eq_iff u next)

-- The states up to the next one are those up to this one, and the next.
pub up_to-next :
    (xs : List String) (s next : String)
    → no_repeats xs ≡ true
    → contains xs s ≡ true
    → get_elem? xs (suc (index_of s xs)) ≡ some next
    → up_to next xs ≡ up_to s xs ++ next ∷ []
up_to-next [] s next n m h = cc
up_to-next (t ∷ r) s next n m h = elim (Bool-cases (t == s)) [
  | inl e ↦ up_to-next_here t r s next n e (rw e at h)
  | inr e ↦
      let h' : get_elem? r (suc (index_of s r)) ≡ some next = rw e at h in
      let m' : contains r s ≡ true = rw e at m in
      let there = contains_of_get_elem? r (suc (index_of s r)) next h' in
      let fresh : (t == next) ≡ false = head_fresh t r next n there in
      rw (up_to_tail next t r fresh, up_to_tail s t r e)
        (ap (λ l. t ∷ l) (up_to-next r s next (no_repeats_tail t r n) m' h'))
]

-- The last of the states up to a name is that name.
pub get_elem?-up_to :
    (xs : List String) (s : String)
    → contains xs s ≡ true
    → (n : ℕ) × (length (up_to s xs) ≡ suc n) × (get_elem? (up_to s xs) n ≡ some s)
get_elem?-up_to [] s m = cc
get_elem?-up_to (t ∷ r) s m = elim (Bool-cases (t == s)) [
  | inl e ↦ let p = (eq_iff t s).0 e in rw (p, up_to_head s r) (0, refl, refl)
  | inr e ↦
      let m' : contains r s ≡ true = rw e at m in
      let (n, l, g) = get_elem?-up_to r s m' in rw (up_to_tail s t r e) (suc n, ap suc l, g)
]

module _ {ℓ} {A : Type ℓ} where
  pub get_elem?-append :
      (xs ys : List A) (i : ℕ) → i < length xs → get_elem? (xs ++ ys) i ≡ get_elem? xs i
  get_elem?-append [] ys i h = elim h [ ]
  get_elem?-append (x ∷ xs) ys zero h = refl
  get_elem?-append (x ∷ xs) ys (suc i) h = get_elem?-append xs ys i (omega arith)

  pub get_elem?-snoc : (xs : List A) (y : A) → get_elem? (xs ++ y ∷ []) (length xs) ≡ some y
  get_elem?-snoc [] y = refl
  get_elem?-snoc (x ∷ xs) y = get_elem?-snoc xs y

previous_of-append :
    (es fs : List String) (i : ℕ) → i < length es → previous_of (es ++ fs) i ≡ previous_of es i
previous_of-append es fs zero h = refl
previous_of-append es fs (suc i) h = get_elem?-append es fs i (omega arith)

pub records_ok-cons :
    (es : List String) (i : ℕ) (r : Value) (rs : List Value)
    → records_ok es i (r ∷ rs) ≡ true
    → (record_ok (previous_of es i) (get_elem? es i) i r ≡ true) × (records_ok es (suc i) rs ≡ true)
unfolding records_ok
records_ok-cons es i r rs h = and-eq-true _ _ h

-- Records that are as expected stay so when more states are expected behind them.
pub records_ok-append :
    (es fs : List String) (i : ℕ) (rs : List Value)
    → i + length rs ≤ length es
    → records_ok es i rs ≡ true
    → records_ok (es ++ fs) i rs ≡ true
unfolding records_ok
records_ok-append es fs i [] b h = refl
records_ok-append es fs i (r ∷ rs) b h =
    let i_lt : i < length es = omega arith in
    let (here, there) = records_ok-cons es i r rs h in
    rw (
      previous_of-append es fs i i_lt,
      get_elem?-append es fs i i_lt,
      here,
      records_ok-append es fs (suc i) rs (omega arith) there,
    )

pub records_ok-snoc :
    (es : List String) (i : ℕ) (rs : List Value) (r : Value)
    → records_ok es i rs ≡ true
    → record_ok (previous_of es (i + length rs)) (get_elem? es (i + length rs)) (i + length rs) r
      ≡ true
    → records_ok es i (rs ++ r ∷ []) ≡ true
unfolding records_ok
records_ok-snoc es i [] r h k =
    let e : i + 0 ≡ i = omega arith in
    let k' : record_ok (previous_of es i) (get_elem? es i) i r ≡ true =
      subst (λ n. record_ok (previous_of es n) (get_elem? es n) n r ≡ true) e k in
    rw k'
records_ok-snoc es i (q ∷ rs) r h k =
    let (here, there) = records_ok-cons es i q rs h in
    let e : i + suc (length rs) ≡ suc i + length rs = omega arith in
    let k' = subst (λ n. record_ok (previous_of es n) (get_elem? es n) n r ≡ true) e k in
    rw (here, records_ok-snoc es (suc i) rs r there k')

-- The evidence of a history whose records are all as expected.
abbrev pub all_evidence : List Value → List String
all_evidence [] = []
all_evidence (r ∷ rs) = record_evidence r ++ all_evidence rs

pub records_evidence-all :
    (es : List String) (i : ℕ) (rs : List Value)
    → records_ok es i rs ≡ true
    → records_evidence es i rs ≡ all_evidence rs
unfolding records_ok records_evidence
records_evidence-all es i [] h = refl
records_evidence-all es i (r ∷ rs) h =
    let (here, there) = records_ok-cons es i r rs h in
    rw (here, records_evidence-all es (suc i) rs there)

pub all_evidence-append :
    (rs qs : List Value) → all_evidence (rs ++ qs) ≡ all_evidence rs ++ all_evidence qs
all_evidence-append [] qs = refl
all_evidence-append (r ∷ rs) qs =
    rw (all_evidence-append rs qs) (sym (append_assoc (record_evidence r) _ _))
