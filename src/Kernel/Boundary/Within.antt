-- ===== src/Kernel/Boundary/Within.antt =====
-- The searches of the boundary against the values that stand anywhere inside another.
use cumcm.Base.{String, ◌≡◌, refl, Bool, true, false, if◌then◌else◌}
use cumcm.Py.Exn.{Py, ok, raise, overflow_error, ◌>>=◌}
use cumcm.Py.Member.{or_then}
use cumcm.Py.Value.{
  Value, null, bool, int, float, nonfinite, ℤ, str, list, dict, Items, nil, cons, Fields, end,
  field,
}
use cumcm.Kernel.Boundary.{
  contains_strict_score, contains_strict_score_items, contains_strict_score_fields, strict_score,
  exceeds_float,
}

-- `w` is `v`, or stands in it at any depth.
mutual
  pub data Within : Value → Value → Type 0 where
    here : {v : Value} → Within v v
    in_list : {w : Value} {xs : Items} → WithinItems w xs → Within w (list xs)
    in_dict : {w : Value} {fs : Fields} → WithinFields w fs → Within w (dict fs)

  pub data WithinItems : Value → Items → Type 0 where
    item_here : {w x : Value} {xs : Items} → Within w x → WithinItems w (cons x xs)
    item_later : {w x : Value} {xs : Items} → WithinItems w xs → WithinItems w (cons x xs)

  pub data WithinFields : Value → Fields → Type 0 where
    field_here :
        {w v : Value} {k : String} {fs : Fields} → Within w v → WithinFields w (field k v fs)
    field_later :
        {w v : Value} {k : String} {fs : Fields} → WithinFields w fs → WithinFields w (field k v fs)

-- What `contains_strict_score` may answer of a value: there is a score in it, at whatever depth; there
-- is none, and no integer in it is too large for a float; or there is such an integer, and this is raised.
abbrev pub IsAnswer : Value → Py Bool → Type 0
IsAnswer v (ok true) = (w : Value) × Within w v × (strict_score w ≡ ok true)
IsAnswer v (ok false) = (w : Value) → Within w v → strict_score w ≡ ok false
IsAnswer v (raise e) = (z : ℤ) × Within (int z) v × (exceeds_float z ≡ true) × (e ≡ overflow_error)

abbrev IsItemsAnswer : Items → Py Bool → Type 0
IsItemsAnswer xs (ok true) = (w : Value) × WithinItems w xs × (strict_score w ≡ ok true)
IsItemsAnswer xs (ok false) = (w : Value) → WithinItems w xs → strict_score w ≡ ok false
IsItemsAnswer xs (raise e) =
    (z : ℤ) × WithinItems (int z) xs × (exceeds_float z ≡ true) × (e ≡ overflow_error)

abbrev IsFieldsAnswer : Fields → Py Bool → Type 0
IsFieldsAnswer fs (ok true) = (w : Value) × WithinFields w fs × (strict_score w ≡ ok true)
IsFieldsAnswer fs (ok false) = (w : Value) → WithinFields w fs → strict_score w ≡ ok false
IsFieldsAnswer fs (raise e) =
    (z : ℤ) × WithinFields (int z) fs × (exceeds_float z ≡ true) × (e ≡ overflow_error)

list_none :
    (xs : Items)
    → ((w : Value) → WithinItems w xs → strict_score w ≡ ok false)
    → (w : Value) → Within w (list xs)
    → strict_score w ≡ ok false
unfolding strict_score
list_none xs f _ here = refl
list_none xs f w (in_list p) = f w p

dict_none :
    (fs : Fields)
    → ((w : Value) → WithinFields w fs → strict_score w ≡ ok false)
    → (w : Value) → Within w (dict fs)
    → strict_score w ≡ ok false
unfolding strict_score
dict_none fs f _ here = refl
dict_none fs f w (in_dict p) = f w p

cons_none :
    (x : Value) (xs : Items)
    → ((w : Value) → Within w x → strict_score w ≡ ok false)
    → ((w : Value) → WithinItems w xs → strict_score w ≡ ok false)
    → (w : Value) → WithinItems w (cons x xs)
    → strict_score w ≡ ok false
cons_none x xs f g w (item_here p) = f w p
cons_none x xs f g w (item_later p) = g w p

field_none :
    (k : String) (v : Value) (r : Fields)
    → ((w : Value) → Within w v → strict_score w ≡ ok false)
    → ((w : Value) → WithinFields w r → strict_score w ≡ ok false)
    → (w : Value) → WithinFields w (field k v r)
    → strict_score w ≡ ok false
field_none k v r f g w (field_here p) = f w p
field_none k v r f g w (field_later p) = g w p

list-IsAnswer : (xs : Items) (m : Py Bool) → IsItemsAnswer xs m → IsAnswer (list xs) m
unfolding strict_score
list-IsAnswer xs (ok true) (w, p, h) = (w, in_list p, h)
list-IsAnswer xs (ok false) f = list_none xs f
list-IsAnswer xs (raise e) (z, p, h, q) = (z, in_list p, h, q)

dict-IsAnswer : (fs : Fields) (m : Py Bool) → IsFieldsAnswer fs m → IsAnswer (dict fs) m
unfolding strict_score
dict-IsAnswer fs (ok true) (w, p, h) = (w, in_dict p, h)
dict-IsAnswer fs (ok false) f = dict_none fs f
dict-IsAnswer fs (raise e) (z, p, h, q) = (z, in_dict p, h, q)

items_or :
    (x : Value) (xs : Items) (m n : Py Bool)
    → IsAnswer x m
    → IsItemsAnswer xs n
    → IsItemsAnswer (cons x xs) (m >>= λ found. or_then found n)
items_or x xs (ok true) n (w, p, h) k = (w, item_here p, h)
items_or x xs (ok false) (ok true) f (w, p, h) = (w, item_later p, h)
items_or x xs (ok false) (ok false) f g = cons_none x xs f g
items_or x xs (ok false) (raise e) f (z, p, h, q) = (z, item_later p, h, q)
items_or x xs (raise e) n (z, p, h, q) k = (z, item_here p, h, q)

fields_or :
    (k : String) (v : Value) (r : Fields) (m n : Py Bool)
    → IsAnswer v m
    → IsFieldsAnswer r n
    → IsFieldsAnswer (field k v r) (m >>= λ found. or_then found n)
fields_or k v r (ok true) n (w, p, h) l = (w, field_here p, h)
fields_or k v r (ok false) (ok true) f (w, p, h) = (w, field_later p, h)
fields_or k v r (ok false) (ok false) f g = field_none k v r f g
fields_or k v r (ok false) (raise e) f (z, p, h, q) = (z, field_later p, h, q)
fields_or k v r (raise e) n (z, p, h, q) l = (z, field_here p, h, q)

int-IsAnswer :
    (z : ℤ) (b : Bool)
    → exceeds_float z ≡ b
    → IsAnswer (int z) (if b then raise overflow_error else ok true)
unfolding strict_score
int-IsAnswer z true h = (z, here, h, refl)
int-IsAnswer z false h = (int z, here, rw h refl)

abbrev is_leaf : Value → Bool
is_leaf (list xs) = false
is_leaf (dict fs) = false
is_leaf v = true

leaf_none :
    (v : Value)
    → is_leaf v ≡ true
    → strict_score v ≡ ok false
    → (w : Value) → Within w v
    → strict_score w ≡ ok false
leaf_none v h e _ here = e
leaf_none _ h e w (in_list p) = cc
leaf_none _ h e w (in_dict p) = cc

no_item : (w : Value) → WithinItems w nil → strict_score w ≡ ok false
no_item w p = elim p [ ]

no_field : (w : Value) → WithinFields w end → strict_score w ≡ ok false
no_field w p = elim p [ ]

mutual
  unfolding contains_strict_score strict_score

  answer_lem : (v : Value) → IsAnswer v (contains_strict_score v)
  answer_lem null = leaf_none null refl refl
  answer_lem (bool b) = leaf_none (bool b) refl refl
  answer_lem (int z) = int-IsAnswer z (exceeds_float z) refl
  answer_lem (float m k) = (float m k, here, refl)
  answer_lem (nonfinite a) = leaf_none (nonfinite a) refl refl
  answer_lem (str s) = leaf_none (str s) refl refl
  answer_lem (list xs) = list-IsAnswer xs _ (items_answer xs)
  answer_lem (dict fs) = dict-IsAnswer fs _ (fields_answer fs)

  items_answer : (xs : Items) → IsItemsAnswer xs (contains_strict_score_items xs)
  items_answer nil = no_item
  items_answer (cons x xs) = items_or x xs _ _ (answer_lem x) (items_answer xs)

  fields_answer : (fs : Fields) → IsFieldsAnswer fs (contains_strict_score_fields fs)
  fields_answer end = no_field
  fields_answer (field k v r) = fields_or k v r _ _ (answer_lem v) (fields_answer r)
