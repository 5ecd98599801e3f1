-- ===== src/Kernel/Gate/Order.antt =====
-- The order by code points is a strict total order on texts.
use Prim.Native.Nat.{compare, Ordering}
use text.Mathlib.TextEquality.{codes_equal}
use cumcm.Base.{ℕ, String, ◌≡◌, refl, true, false, List, [], ◌∷◌, arith}
use cumcm.Py.Text.{codes}
use cumcm.Kernel.Gate.{lt_codes, lt_text}

lt_codes_irrefl : (cs : List ℕ) → lt_codes cs cs ≡ false
unfolding lt_codes
lt_codes_irrefl [] = refl
lt_codes_irrefl (c ∷ cs) = ground (arith, lt_codes_irrefl cs)

lt_codes_trans :
    (xs ys cs : List ℕ) → lt_codes xs ys ≡ true → lt_codes ys cs ≡ true → lt_codes xs cs ≡ true
unfolding lt_codes
lt_codes_trans xs ys [] h k = cc
lt_codes_trans xs [] (c ∷ cs) h k = cc
lt_codes_trans [] (b ∷ ys) (c ∷ cs) h k = refl
lt_codes_trans (a ∷ xs) (b ∷ ys) (c ∷ cs) h k = ground (arith, lt_codes_trans xs ys cs)

lt_codes_total : (xs ys : List ℕ) → lt_codes xs ys ≡ false → lt_codes ys xs ≡ false → xs ≡ ys
unfolding lt_codes
lt_codes_total [] [] h k = refl
lt_codes_total [] (b ∷ ys) h k = cc
lt_codes_total (a ∷ xs) [] h k = cc
lt_codes_total (a ∷ xs) (b ∷ ys) h k = ground (arith, lt_codes_total xs ys)

compare_of_eq : (m n : ℕ) → m ≡ n → compare m n ≡ Ordering.eq
compare_of_eq m n h = ground arith

head_eq : (a b : ℕ) (r s : List ℕ) → ◌≡◌ {A = List ℕ} (a ∷ r) (b ∷ s) → a ≡ b
head_eq a b r s h = cc

tail_eq : (a b : ℕ) (r s : List ℕ) → ◌≡◌ {A = List ℕ} (a ∷ r) (b ∷ s) → r ≡ s
tail_eq a b r s h = cc

codes-injective : (s t : String) → codes s ≡ codes t → s ≡ t
codes-injective String.[] String.[] h = refl
codes-injective String.[] (String.◌∷◌ d t) h = cc
codes-injective (String.◌∷◌ c s) String.[] h = cc
codes-injective (String.◌∷◌ c s) (String.◌∷◌ d t) h = cc (
  codes_equal c d (compare_of_eq _ _ (head_eq _ _ _ _ h)),
  codes-injective s t (tail_eq _ _ _ _ h),
)

pub lt_text_irrefl : (s : String) → lt_text s s ≡ false
unfolding lt_text
lt_text_irrefl s = lt_codes_irrefl (codes s)

pub lt_text_trans : (r s t : String) → lt_text r s ≡ true → lt_text s t ≡ true → lt_text r t ≡ true
unfolding lt_text
lt_text_trans r s t h k = lt_codes_trans (codes r) (codes s) (codes t) h k

pub lt_text_total : (s t : String) → lt_text s t ≡ false → lt_text t s ≡ false → s ≡ t
unfolding lt_text
lt_text_total s t h k = codes-injective s t (lt_codes_total (codes s) (codes t) h k)
