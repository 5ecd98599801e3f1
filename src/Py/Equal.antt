-- ===== src/Py/Equal.antt =====
-- Dictionaries that are equal in the sense of `==` have equal values under each key.
use cumcm.Base.{
  String, ◌≡◌, refl, sym, ap, ◌∙◌, Bool, true, false, Option, none, some, ◌==◌, eqb, length, eq_iff,
  and-eq-true, if◌then◌else◌, arith,
}
use mathlib.Core.Path.{subst}
use cumcm.Py.Value.{Value, str, dict, Fields, end, field, lookup, keys, eq, eq_fields}
use cumcm.Py.Dict.{get, or_null}

-- The value under a key of the other dictionary.
pub record IsMatched (v : Value) (found : Option Value) : Type 0 where
  pub partner : Value
  pub there : found ≡ some partner
  pub same : eq v partner ≡ true

found-IsMatched :
    (v : Value) (found : Option Value)
    → elim found [ none ↦ false | some w ↦ eq v w ] ≡ true
    → IsMatched v found
found-IsMatched v none h = cc
found-IsMatched v (some w) h = record { partner = w; there = refl; same = h }

field_lem :
    (u v : Value) (r gs : Fields) (j k : String) (b : Bool)
    → (j == k) ≡ b
    → elim (lookup j gs) [ none ↦ false | some w ↦ eq u w ] ≡ true
    → (if b then some u else lookup k r) ≡ some v
    → (lookup k r ≡ some v → IsMatched v (lookup k gs))
    → IsMatched v (lookup k gs)
field_lem u v r gs j k true e h l ih =
    let jk : j ≡ k = ground (arith, eq_iff j k) in
    let uv : u ≡ v = cc in
    subst (λ x. IsMatched x (lookup k gs)) uv
      (subst (λ x. IsMatched u (lookup x gs)) jk (found-IsMatched u (lookup j gs) h))
field_lem u v r gs j k false e h l ih = ih l

eq_fields-IsMatched :
    (fs gs : Fields) (k : String) (v : Value)
    → eq_fields fs gs ≡ true
    → lookup k fs ≡ some v
    → IsMatched v (lookup k gs)
unfolding eq
eq_fields-IsMatched end gs k v h l = cc
eq_fields-IsMatched (field j u r) gs k v h l =
    let (here, rest) =
      and-eq-true (elim (lookup j gs) [ none ↦ false | some w ↦ eq u w ]) (eq_fields r gs) h in
    field_lem u v r gs j k (j == k) refl here l (eq_fields-IsMatched r gs k v rest)

pub eq-IsMatched :
    (fs gs : Fields) (k : String) (v : Value)
    → eq (dict fs) (dict gs) ≡ true
    → lookup k fs ≡ some v
    → IsMatched v (lookup k gs)
unfolding eq
eq-IsMatched fs gs k v h l =
    let (_, e) = and-eq-true (eqb (length (keys fs)) (length (keys gs))) (eq_fields fs gs) h in
    eq_fields-IsMatched fs gs k v e l

eq_text : (s : String) (w : Value) → eq (str s) w ≡ true → w ≡ str s
unfolding eq
eq_text s (str t) h = ground (arith, eq_iff s t)
eq_text s _ h = cc

looked_up : (found : Option Value) (s : String) → or_null found ≡ str s → found ≡ some (str s)
looked_up none s h = cc
looked_up (some v) s h = ap some h

-- Equal dictionaries have equal texts under each key.
pub eq-get :
    (fs gs : Fields) (k s : String)
    → eq (dict fs) (dict gs) ≡ true
    → get k fs ≡ str s
    → get k gs ≡ str s
eq-get fs gs k s h g =
    let m = eq-IsMatched fs gs k (str s) h (looked_up (lookup k fs) s g) in
    ap or_null m.there ∙ eq_text s m.partner m.same

some_lem : (v w : Value) → some v ≡ some w → v ≡ w
some_lem v w h = cc

pub eq-lookup :
    (fs gs : Fields) (k : String) (v w : Value)
    → eq (dict fs) (dict gs) ≡ true
    → lookup k fs ≡ some v
    → lookup k gs ≡ some w
    → eq v w ≡ true
eq-lookup fs gs k v w h l m =
    let f = eq-IsMatched fs gs k v h l in
    subst (λ x. eq v x ≡ true) (some_lem f.partner w (sym f.there ∙ m)) f.same
