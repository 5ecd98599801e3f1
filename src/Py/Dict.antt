-- ===== src/Py/Dict.antt =====
-- Dictionaries: `d.get(k)`, `d[k] = v`, `d.update`, and their laws.
use cumcm.Base.{
  String, ◌≡◌, refl, Bool, true, ◌||◌, Option, none, some, List, [], ◌∷◌, ◌==◌, eq_iff,
  if◌then◌else◌, contains, arith,
}
use cumcm.Py.Exn.{Py, ok, raise, key_error}
use cumcm.Py.Value.{Value, null, Fields, end, field, keys, lookup}

abbrev pub or_null : Option Value → Value
or_null none = null
or_null (some v) = v

-- `d.get(k)`
abbrev pub get : String → Fields → Value
get k fs = or_null (lookup k fs)

-- `d.get(k, default)`
abbrev pub get_or : String → Value → Fields → Value
get_or k d fs = elim (lookup k fs) [ none ↦ d | some v ↦ v ]

-- `d[k]`
abbrev pub item : String → Fields → Py Value
item k fs = elim (lookup k fs) [ none ↦ raise key_error | some v ↦ ok v ]

-- `k in d`
abbrev pub has : String → Fields → Bool
has k fs = contains (keys fs) k

-- `d[k] = v`: a key that is there keeps its place.
unfoldable pub set : String → Value → Fields → Fields
set k v end = field k v end
set k v (field j w r) = if j == k then field j v r else field j w (set k v r)

-- `d.update(pairs)`
unfoldable pub update : Fields → List (String × Value) → Fields
update fs [] = fs
update fs ((k, v) ∷ r) = update (set k v fs) r

pub lookup-set :
    (k j : String) (v : Value) (fs : Fields)
    → lookup j (set k v fs) ≡ (if k == j then some v else lookup j fs)
unfolding set
lookup-set k j v end = refl
lookup-set k j v (field i w r) =
    ground (arith, eq_iff k j, eq_iff i k, eq_iff i j, lookup-set k j v r)

pub get-set :
    (k j : String) (v : Value) (fs : Fields) → get j (set k v fs) ≡ (if k == j then v else get j fs)
get-set k j v fs = ground (arith, lookup-set k j v fs)

pub keys-set_of_has :
    (k : String) (v : Value) (fs : Fields) → has k fs ≡ true → keys (set k v fs) ≡ keys fs
unfolding set
keys-set_of_has k v end h = cc
keys-set_of_has k v (field j w r) h = ground (arith, eq_iff j k, keys-set_of_has k v r)

pub has-set : (k j : String) (v : Value) (fs : Fields) → has j (set k v fs) ≡ (k == j || has j fs)
unfolding set
has-set k j v end = refl
has-set k j v (field i w r) = ground (arith, eq_iff k j, eq_iff i k, eq_iff i j, has-set k j v r)

pub has-update :
    (fs : Fields) (ps : List (String × Value)) (j : String)
    → has j fs ≡ true
    → has j (update fs ps) ≡ true
unfolding update
has-update fs [] j h = h
has-update fs ((k, v) ∷ r) j h = has-update (set k v fs) r j (ground (arith, has-set k j v fs))

pub has_of_lookup : (k : String) (fs : Fields) (v : Value) → lookup k fs ≡ some v → has k fs ≡ true
has_of_lookup k end v h = cc
has_of_lookup k (field j w r) v h = ground (arith, has_of_lookup k r v)
