-- ===== src/Kernel/Gate/Canonical.antt =====
-- The order of `sorted(set(codes))`, and the code list of `blocked`.
use cumcm.Base.{
  String, ◌≡◌, refl, sym, ap, ◌∙◌, Bool, true, false, ◌&&◌, ◌||◌, List, [], ◌∷◌, arith, ◌==◌,
  eq_iff, eq_refl, contains, same_set, Bool-cases, inl, inr, subset-contains,
}
use cumcm.Kernel.Gate.{lt_text, insert_text, sorted_set, blocked}
use cumcm.Kernel.Gate.Order.{lt_text_irrefl, lt_text_trans, lt_text_total}

abbrev pub below : String → List String → Bool
below s [] = true
below s (t ∷ r) = lt_text s t && below s r

abbrev pub is_sorted : List String → Bool
is_sorted [] = true
is_sorted (s ∷ r) = below s r && is_sorted r

below_trans :
    (s t : String) (r : List String) → lt_text s t ≡ true → below t r ≡ true → below s r ≡ true
below_trans s t [] h k = refl
below_trans s t (u ∷ r) h k = ground (arith, lt_text_trans s t u, below_trans s t r)

below-insert_text :
    (u s : String) (r : List String)
    → lt_text u s ≡ true
    → below u r ≡ true
    → below u (insert_text s r) ≡ true
unfolding insert_text
below-insert_text u s [] h k = ground arith
below-insert_text u s (t ∷ r) h k = ground (arith, below-insert_text u s r)

insert_text-is_sorted :
    (s : String) (r : List String) → is_sorted r ≡ true → is_sorted (insert_text s r) ≡ true
unfolding insert_text
insert_text-is_sorted s [] h = refl
insert_text-is_sorted s (t ∷ r) h = ground (
  arith,
  eq_iff s t,
  lt_text_total s t,
  below_trans s t r,
  below-insert_text t s r,
  insert_text-is_sorted s r,
)

pub sorted_set-is_sorted : (xs : List String) → is_sorted (sorted_set xs) ≡ true
unfolding sorted_set
sorted_set-is_sorted [] = refl
sorted_set-is_sorted (s ∷ r) = insert_text-is_sorted s (sorted_set r) (sorted_set-is_sorted r)

contains-insert_text :
    (s u : String) (r : List String) → contains (insert_text s r) u ≡ (s == u || contains r u)
unfolding insert_text
contains-insert_text s u [] = refl
contains-insert_text s u (t ∷ r) =
    ground (arith, eq_iff s t, eq_iff t u, eq_iff s u, contains-insert_text s u r)

pub contains-sorted_set :
    (xs : List String) (u : String) → contains (sorted_set xs) u ≡ contains xs u
unfolding sorted_set
contains-sorted_set [] u = refl
contains-sorted_set (s ∷ r) u =
    ground (arith, contains-insert_text s u (sorted_set r), contains-sorted_set r u)

contains-below :
    (s u : String) (r : List String) → below s r ≡ true → contains r u ≡ true → lt_text s u ≡ true
contains-below s u [] h m = cc
contains-below s u (t ∷ r) h m = ground (arith, eq_iff t u, contains-below s u r)

-- A member of a sorted list that heads another is not below its own head.
heads_eq :
    (s t : String) (r q : List String)
    → below s r ≡ true
    → below t q ≡ true
    → contains (t ∷ q) s ≡ true
    → contains (s ∷ r) t ≡ true
    → s ≡ t
heads_eq s t r q hs ht ms mt = ground (
  arith,
  eq_iff t s,
  eq_iff s t,
  contains-below t s q,
  contains-below s t r,
  lt_text_trans s t s,
  lt_text_irrefl s,
)

tails_agree :
    (s u : String) (r q : List String)
    → below s r ≡ true
    → below s q ≡ true
    → contains (s ∷ r) u ≡ contains (s ∷ q) u
    → contains r u ≡ contains q u
tails_agree s u r q hr hq h =
    ground (arith, eq_iff s u, contains-below s u r, contains-below s u q, lt_text_irrefl s)

contains-head : (s : String) (r : List String) → contains (s ∷ r) s ≡ true
contains-head s r = ground (arith, eq_refl s)

sorted-eq :
    (xs ys : List String)
    → is_sorted xs ≡ true
    → is_sorted ys ≡ true
    → ((u : String) → contains xs u ≡ contains ys u)
    → xs ≡ ys
sorted-eq [] [] hx hy h = refl
sorted-eq [] (t ∷ q) hx hy h = cc (h t, contains-head t q)
sorted-eq (s ∷ r) [] hx hy h = cc (h s, contains-head s r)
sorted-eq (s ∷ r) (t ∷ q) hx hy h =
    let hs : below s r ≡ true = ground arith in
    let ht : below t q ≡ true = ground arith in
    let e : s ≡ t =
      heads_eq s t r q hs ht (sym (h s) ∙ contains-head s r) (h t ∙ contains-head t q) in
    let hq : below s q ≡ true = rw e ht in
    let same : (u : String) → contains r u ≡ contains q u =
      λ u. tails_agree s u r q hs hq (h u ∙ ap (λ z. contains (z ∷ q) u) (sym e)) in
    cc (e, sorted-eq r q (ground arith) (ground arith) same)

contains_of_same_set :
    (xs ys : List String) (u : String) → same_set xs ys ≡ true → contains xs u ≡ contains ys u
contains_of_same_set xs ys u h = elim (Bool-cases (contains xs u)) [
  | inl m ↦ m ∙ sym (subset-contains xs ys u (ground arith) m)
  | inr n ↦ elim (Bool-cases (contains ys u)) [
    | inl m ↦ subset-contains ys xs u (ground arith) m ∙ sym m ∙ refl
    | inr o ↦ n ∙ sym o
  ]
]

sorted_set_canonical : (xs ys : List String) → same_set xs ys ≡ true → sorted_set xs ≡ sorted_set ys
sorted_set_canonical xs ys h =
    sorted-eq (sorted_set xs) (sorted_set ys) (sorted_set-is_sorted xs) (sorted_set-is_sorted ys)
      λ u.
        contains-sorted_set xs u ∙ contains_of_same_set xs ys u h ∙ sym (contains-sorted_set ys u)

-- The code list is empty only if no code was reported.
pub sorted_set-eq-nil : (xs : List String) → sorted_set xs ≡ [] → xs ≡ []
sorted_set-eq-nil [] h = refl
sorted_set-eq-nil (s ∷ r) h =
    cc (contains-sorted_set (s ∷ r) s, contains-head s r, ap (λ z. contains z s) h)

-- If two lists have the same codes, in whatever order and with whatever repetition, `blocked` gives the
-- same result for both; its codes are in strictly ascending order and are just the codes reported, and
-- it is not accepted.
pub blocked-canonical :
    (xs ys : List String) (s : String)
    → same_set xs ys ≡ true
    → (blocked xs ≡ blocked ys)
      × (is_sorted (blocked xs).reason_codes ≡ true)
      × (contains (blocked xs).reason_codes s ≡ contains xs s)
      × ((blocked xs).accepted ≡ false)
unfolding blocked
blocked-canonical xs ys s h = (
  ap
      (λ codes. record {
        status = "BLOCK";
        reason_codes = codes;
        accepted = false;
        final = false;
        dependency_chain = [];
      })
      (sorted_set_canonical xs ys h),
  sorted_set-is_sorted xs,
  contains-sorted_set xs s,
  refl,
)
