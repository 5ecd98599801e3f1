-- ===== src/Kernel/Runtime/Sorted.antt =====
-- `sorted` of a set of JSON values: texts by code points, numbers by size; others cannot be compared.
use cumcm.Base.{
  ℕ, Bool, true, false, List, [], ◌∷◌, ltb, all, map, if◌then◌else◌, Option, none, some,
}
use cumcm.Py.Exn.{Py, ok, raise, type_error}
use cumcm.Py.Value.{Value, ℤ, pos, negsuc, nonfinite, inf, neg_inf, str, is_str, number, scale}
use cumcm.Py.Records.{contains_value, strings_in}
use cumcm.Kernel.Gate.{sorted_set}

abbrev lt_ℤ : ℤ → ℤ → Bool
lt_ℤ (pos a) (pos b) = ltb a b
lt_ℤ (pos a) (negsuc b) = false
lt_ℤ (negsuc a) (pos b) = true
lt_ℤ (negsuc a) (negsuc b) = ltb b a

abbrev lt_number : Option (ℤ × ℕ) → Option (ℤ × ℕ) → Bool
lt_number (some (m, j)) (some (n, k)) = lt_ℤ (scale m k) (scale n j)
lt_number _ _ = false

-- `v < w` of numbers.
abbrev lt_value : Value → Value → Bool
lt_value (nonfinite neg_inf) (nonfinite inf) = true
lt_value (nonfinite a) (nonfinite b) = false
lt_value (nonfinite neg_inf) w = true
lt_value (nonfinite a) w = false
lt_value v (nonfinite inf) = true
lt_value v (nonfinite b) = false
lt_value v w = lt_number (number v) (number w)

abbrev is_numeric : Value → Bool
is_numeric (nonfinite a) = true
is_numeric v = elim (number v) [ none ↦ false | some n ↦ true ]

abbrev insert_number : Value → List Value → List Value
insert_number v [] = v ∷ []
insert_number v (w ∷ r) =
    let rest = insert_number v r in if lt_value v w then v ∷ w ∷ r else w ∷ rest

abbrev sort_numbers : List Value → List Value
sort_numbers [] = []
sort_numbers (v ∷ r) = insert_number v (sort_numbers r)

-- The elements of a set: the first of those that are equal stays.
abbrev pub elements_of_set : List Value → List Value → List Value
elements_of_set seen [] = []
elements_of_set seen (v ∷ r) =
    let skipped = elements_of_set seen r in
    let kept = elements_of_set (v ∷ seen) r in if contains_value seen v then skipped else v ∷ kept

abbrev sort_distinct : List Value → Py (List Value)
sort_distinct [] = ok []
sort_distinct (v ∷ []) = ok (v ∷ [])
sort_distinct (v ∷ w ∷ r) =
    if all is_str (v ∷ w ∷ r)
    then ok (map str (sorted_set (strings_in (v ∷ w ∷ r))))
    else if all is_numeric (v ∷ w ∷ r)
    then ok (sort_numbers (v ∷ w ∷ r))
    else raise type_error

-- `sorted(set(xs))` of values that can be hashed.
unfoldable pub sorted_values : List Value → Py (List Value)
sorted_values xs = sort_distinct (elements_of_set [] xs)
