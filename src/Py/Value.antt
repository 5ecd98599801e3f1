-- ===== src/Py/Value.antt =====
-- JSON values as Python has them: dictionaries with text keys in insertion order, integers without
-- bound, and floats. A finite float is `m / 2 ^ k`; `load_json` returns an infinity for 1e999.
use cumcm.Base.{
  ℕ, suc, ◌-◌, ◌*◌, ◌^◌, String, Bool, true, false, not, ◌&&◌, Option, none, some, List, [], ◌∷◌,
  ◌==◌, ◌≡◌, eqb, if◌then◌else◌, length,
}

-- `negsuc n` is -(n + 1).
pub data ℤ : Type 0 where
  pos : ℕ → ℤ
  negsuc : ℕ → ℤ

-- The floats that are not finite.
pub data Special : Type 0 where
  nan inf neg_inf : Special

mutual
  pub data Value : Type 0 where
    null : Value
    bool : Bool → Value
    int : ℤ → Value
    float : ℤ → ℕ → Value
    nonfinite : Special → Value
    str : String → Value
    list : Items → Value
    dict : Fields → Value

  pub data Items : Type 0 where
    nil : Items
    cons : Value → Items → Items

  pub data Fields : Type 0 where
    end : Fields
    field : String → Value → Fields → Fields

abbrev pub elements : Items → List Value
elements nil = []
elements (cons x xs) = x ∷ elements xs

abbrev pub items : List Value → Items
items [] = nil
items (x ∷ xs) = cons x (items xs)

abbrev pub keys : Fields → List String
keys end = []
keys (field k v r) = k ∷ keys r

abbrev pub values : Fields → List Value
values end = []
values (field k v r) = v ∷ values r

abbrev pub fields : List (String × Value) → Fields
fields [] = end
fields ((k, v) ∷ r) = field k v (fields r)

abbrev pub texts : List String → Items
texts [] = nil
texts (s ∷ r) = cons (str s) (texts r)

-- `d[k]` where the key is there.
abbrev pub lookup : String → Fields → Option Value
lookup k end = none
lookup k (field j v r) = if j == k then some v else lookup k r

-- `m / 2 ^ k` for bools, ints and floats, which Python compares as numbers.
abbrev pub number : Value → Option (ℤ × ℕ)
number (bool true) = some (pos 1, 0)
number (bool false) = some (pos 0, 0)
number (int z) = some (z, 0)
number (float m k) = some (m, k)
number _ = none

abbrev pub scale : ℤ → ℕ → ℤ
scale (pos n) k = pos (n * 2 ^ k)
scale (negsuc n) k = negsuc (suc n * 2 ^ k - 1)

abbrev pub eq_ℤ : ℤ → ℤ → Bool
eq_ℤ (pos a) (pos b) = eqb a b
eq_ℤ (negsuc a) (negsuc b) = eqb a b
eq_ℤ _ _ = false

abbrev pub eq_number : Option (ℤ × ℕ) → Option (ℤ × ℕ) → Bool
eq_number (some (m, j)) (some (n, k)) = eq_ℤ (scale m k) (scale n j)
eq_number _ _ = false

abbrev pub eq_null : Value → Bool
eq_null null = true
eq_null _ = false

-- A NaN is equal to nothing.
abbrev pub eq_special : Special → Value → Bool
eq_special inf (nonfinite inf) = true
eq_special neg_inf (nonfinite neg_inf) = true
eq_special _ _ = false

-- `==`: lists by position, dictionaries whatever the order of their keys, and numbers across types.
unfoldable mutual
  pub eq : Value → Value → Bool
  eq null w = eq_null w
  eq (bool b) w = eq_number (number (bool b)) (number w)
  eq (int z) w = eq_number (number (int z)) (number w)
  eq (float m k) w = eq_number (number (float m k)) (number w)
  eq (nonfinite a) w = eq_special a w
  eq (str s) w = elim w [ str t ↦ s == t | _ ↦ false ]
  eq (list xs) w = elim w [ list ys ↦ eq_items xs ys | _ ↦ false ]
  eq (dict fs) w = elim w [
    | dict gs ↦ eqb (length (keys fs)) (length (keys gs)) && eq_fields fs gs
    | _ ↦ false
  ]

  pub eq_items : Items → Items → Bool
  eq_items nil ys = elim ys [ nil ↦ true | cons _ _ ↦ false ]
  eq_items (cons x xs) ys = elim ys [ nil ↦ false | cons y r ↦ eq x y && eq_items xs r ]

  pub eq_fields : Fields → Fields → Bool
  eq_fields end gs = true
  eq_fields (field k v r) gs =
      elim (lookup k gs) [ none ↦ false | some w ↦ eq v w ] && eq_fields r gs

-- `isinstance` tests.
abbrev pub is_str : Value → Bool
is_str (str s) = true
is_str _ = false

abbrev pub is_bool : Value → Bool
is_bool (bool b) = true
is_bool _ = false

abbrev pub is_list : Value → Bool
is_list (list xs) = true
is_list _ = false

abbrev pub is_dict : Value → Bool
is_dict (dict fs) = true
is_dict _ = false

-- `isinstance(v, (int, float)) and not isinstance(v, bool)`
abbrev pub is_number : Value → Bool
is_number (int z) = true
is_number (float m k) = true
is_number (nonfinite a) = true
is_number _ = false

-- `v is True`, `v is False`, `v == "s"`
abbrev pub is_true : Value → Bool
is_true (bool b) = b
is_true _ = false

abbrev pub is_false : Value → Bool
is_false (bool b) = not b
is_false _ = false

abbrev pub is_text : Value → String → Bool
is_text (str s) t = s == t
is_text _ t = false

-- `bool(v)`
abbrev pub truthy : Value → Bool
truthy null = false
truthy (bool b) = b
truthy (int z) = not (eq_ℤ z (pos 0))
truthy (float m k) = not (eq_ℤ m (pos 0))
truthy (nonfinite a) = true
truthy (str s) = not (s == "")
truthy (list nil) = false
truthy (list (cons x xs)) = true
truthy (dict end) = false
truthy (dict (field k v r)) = true

pub str-injective : (s t : String) → str s ≡ str t → s ≡ t
str-injective s t h = cc
