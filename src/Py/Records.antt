-- ===== src/Py/Records.antt =====
-- Lists of dictionaries, and the indexes that comprehensions make of them.
use cumcm.Base.{
  ℕ, suc, false, String, Bool, true, not, ◌&&◌, Option, none, some, List, [], ◌∷◌, ◌++◌, ◌==◌,
  contains, any, all, if◌then◌else◌,
}
use cumcm.Py.Exn.{Py, ok, raise, type_error, attribute_error, ◌>>=◌}
use cumcm.Py.Value.{
  null, list, elements, Items, Value, str, dict, Fields, end, field, is_text, eq, truthy,
}
use cumcm.Py.Dict.{get}
use cumcm.Py.Member.{hashable, iterate, member}

abbrev pub dicts : List Value → List Fields
dicts [] = []
dicts (dict fs ∷ r) = fs ∷ dicts r
dicts (v ∷ r) = dicts r

-- The last record that has this name under the key.
abbrev pub named : String → String → List Fields → Option Fields
named key name [] = none
named key name (fs ∷ r) = elim (named key name r) [
  | some gs ↦ some gs
  | none ↦ if is_text (get key fs) name then some fs else none
]

-- `index.get(v)`
abbrev pub index_get : String → List Fields → Value → Py (Option Fields)
index_get key records (str name) = ok (named key name records)
index_get key records v = if hashable v then ok none else raise type_error

abbrev pub without : String → Fields → Fields
without key end = end
without key (field k v r) = let rest = without key r in if k == key then rest else field k v rest

abbrev pub no_doubles : List String → Bool
no_doubles [] = true
no_doubles (s ∷ r) = not (contains r s) && no_doubles r

-- `v or d`
abbrev pub or_else : Value → Value → Value
or_else v d = if truthy v then v else d

-- `v.get(key)`
abbrev pub get_of : String → Value → Py Value
get_of key (dict fs) = ok (get key fs)
get_of key _ = raise attribute_error

-- `set(xs)`, as the list of its elements, with repetitions.
abbrev pub set_of : List Value → Py (List Value)
set_of xs = if all hashable xs then ok xs else raise type_error

-- `set(v)`
abbrev pub set_from : Value → Py (List Value)
set_from v = iterate v >>= set_of

abbrev pub contains_value : List Value → Value → Bool
contains_value xs v = any (λ x. eq x v) xs

-- `set(xs) <= set(ys)` and `set(xs) == set(ys)`
abbrev pub subset_values : List Value → List Value → Bool
subset_values xs ys = all (contains_value ys) xs

abbrev pub same_values : List Value → List Value → Bool
same_values xs ys = subset_values xs ys && subset_values ys xs

-- `len(xs) == len(set(xs))`
abbrev pub distinct_values : List Value → Bool
distinct_values [] = true
distinct_values (x ∷ xs) = not (contains_value xs x) && distinct_values xs

-- `{item.get(key): item for item in xs if isinstance(item, dict)}`: the later entry counts.
abbrev pub Index : Type 0
Index = List (Value × Fields)

abbrev pub index_by : String → List Fields → Py Index
index_by key [] = ok []
index_by key (fs ∷ r) =
    if hashable (get key fs)
    then (index_by key r >>= λ rest. ok ((get key fs, fs) ∷ rest))
    else raise type_error

abbrev pub index_lookup : Index → Value → Option Fields
index_lookup [] v = none
index_lookup ((w, fs) ∷ r) v = elim (index_lookup r v) [
  | some gs ↦ some gs
  | none ↦ if eq w v then some fs else none
]

-- `index.get(v)`
abbrev pub index_find : Index → Value → Py (Option Fields)
index_find index v = if hashable v then ok (index_lookup index v) else raise type_error

-- `name in (item.get(key) or [])`
abbrev pub in_field : Value → String → Fields → Py Bool
in_field v key item = let held = get key item in if truthy held then member v held else ok false

-- `set(item.get(key) or [])`
abbrev pub field_set : String → Fields → Py (List Value)
field_set key item = set_from (or_else (get key item) (list Items.nil))

-- `any(test(x) for x in xs)`
abbrev pub any_of {ℓ} : {A : Type ℓ} → (A → Py Bool) → List A → Py Bool
any_of test [] = ok false
any_of test (x ∷ xs) = let rest = any_of test xs in test x >>= λ b. if b then ok true else rest

-- `[f(x) for x in xs]`
abbrev pub map_of {ℓ κ} : {A : Type ℓ} {B : Type κ} → (A → Py B) → List A → Py (List B)
map_of f [] = ok []
map_of f (x ∷ xs) = f x >>= λ y. map_of f xs >>= λ ys. ok (y ∷ ys)

-- `{y for x in xs for y in f(x)}`
abbrev pub gather {ℓ} : {A : Type ℓ} → (A → Py (List Value)) → List A → Py (List Value)
gather f [] = ok []
gather f (x ∷ xs) = f x >>= λ y. gather f xs >>= λ ys. ok (y ++ ys)

-- The elements of the values that are lists.
abbrev pub all_elements : List Value → List Value
all_elements [] = []
all_elements (list xs ∷ r) = elements xs ++ all_elements r
all_elements (v ∷ r) = all_elements r

-- `[x for x in xs if isinstance(x, str)]`
abbrev pub strings_in : List Value → List String
strings_in [] = []
strings_in (str s ∷ r) = s ∷ strings_in r
strings_in (v ∷ r) = strings_in r

-- `len(set(xs))`
abbrev pub count_values : List Value → ℕ
count_values [] = 0
count_values (x ∷ xs) = let rest = count_values xs in if contains_value xs x then rest else suc rest

-- `d.get(key)` of a dictionary with text keys, for any key.
abbrev pub get_value : Value → Fields → Py Value
get_value (str key) fs = ok (get key fs)
get_value v fs = if hashable v then ok null else raise type_error
