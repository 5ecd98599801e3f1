-- ===== src/Kernel/Boundary/Accepted.antt =====
-- What `boundary_validate` accepts.
use cumcm.Base.{
  String, ◌≡◌, refl, Bool, true, false, ◌&&◌, List, [], ◌∷◌, ◌++◌, ◌↔◌, append-eq-nil, and-eq-true,
  arith,
}
use cumcm.Py.Value.{
  Value, null, bool, int, float, nonfinite, Special, str, list, dict, Items, nil, cons, Fields, end,
  field, keys, is_dict,
}
use cumcm.Kernel.Gate.{passed, blocked}
use cumcm.Kernel.Host.{json_safe, json_safe_items, json_safe_fields}
use cumcm.Kernel.Boundary.{
  sensitive_findings, sensitive_findings_items, sensitive_findings_fields, text_findings,
  code_unless, context_codes, boundary_validate, boundary_codes, payload_codes, verdict,
}
use cumcm.Kernel.Boundary.Clean.{AllCleanKeys}
use cumcm.Kernel.Boundary.Within.{
  Within, here, in_list, in_dict, WithinItems, item_here, item_later, WithinFields, field_here,
  field_later,
}

-- A text that is no secret and no private path; a dictionary without a sensitive key.
abbrev pub IsPublic : Value → Type 0
IsPublic (str s) = text_findings s ≡ []
IsPublic (dict fs) = AllCleanKeys (keys fs)
IsPublic _ = Unit

mutual
  unfolding sensitive_findings

  here-IsPublic : (v : Value) → sensitive_findings v ≡ [] → IsPublic v
  here-IsPublic (str s) h = h
  here-IsPublic (dict fs) h = clean_keys fs h
  here-IsPublic null h = tt
  here-IsPublic (bool b) h = tt
  here-IsPublic (int z) h = tt
  here-IsPublic (float m k) h = tt
  here-IsPublic (nonfinite a) h = tt
  here-IsPublic (list xs) h = tt

  clean_keys : (fs : Fields) → sensitive_findings_fields fs ≡ [] → AllCleanKeys (keys fs)
  clean_keys end h = tt
  clean_keys (field k v r) h =
      let (hk, h1) = append-eq-nil _ _ h in
      let (_, hr) = append-eq-nil _ _ h1 in (hk, clean_keys r hr)

mutual
  unfolding sensitive_findings

  Within-IsPublic : {w v : Value} → Within w v → sensitive_findings v ≡ [] → IsPublic w
  Within-IsPublic {w = w} here h = here-IsPublic w h
  Within-IsPublic (in_list p) h = within-IsPublic_items p h
  Within-IsPublic (in_dict p) h = within-IsPublic_fields p h

  within-IsPublic_items :
      {w : Value} {xs : Items} → WithinItems w xs → sensitive_findings_items xs ≡ [] → IsPublic w
  within-IsPublic_items (item_here p) h = Within-IsPublic p (append-eq-nil _ _ h).0
  within-IsPublic_items (item_later p) h = within-IsPublic_items p (append-eq-nil _ _ h).1

  within-IsPublic_fields :
      {w : Value} {fs : Fields} → WithinFields w fs → sensitive_findings_fields fs ≡ [] → IsPublic w
  within-IsPublic_fields (field_here p) h =
      Within-IsPublic p (append-eq-nil _ _ (append-eq-nil _ _ h).1).0
  within-IsPublic_fields (field_later p) h =
      within-IsPublic_fields p (append-eq-nil _ _ (append-eq-nil _ _ h).1).1

nil-append : (xs ys : List String) → xs ≡ [] → ys ≡ [] → xs ++ ys ≡ []
nil-append [] ys h k = k
nil-append (x ∷ xs) ys h k = cc

mutual
  unfolding sensitive_findings

  clean_of_IsPublic :
      (v : Value) → ((w : Value) → Within w v → IsPublic w) → sensitive_findings v ≡ []
  clean_of_IsPublic (str s) f = f (str s) here
  clean_of_IsPublic (list xs) f = clean_of_IsPublic_items xs λ w p. f w (in_list p)
  clean_of_IsPublic (dict fs) f =
      clean_of_IsPublic_fields fs (f (dict fs) here) λ w p. f w (in_dict p)
  clean_of_IsPublic _ f = refl

  clean_of_IsPublic_items :
      (xs : Items)
      → ((w : Value) → WithinItems w xs → IsPublic w)
      → sensitive_findings_items xs ≡ []
  clean_of_IsPublic_items nil f = refl
  clean_of_IsPublic_items (cons x xs) f =
      nil-append _ _ (clean_of_IsPublic x λ w p. f w (item_here p))
        (clean_of_IsPublic_items xs λ w p. f w (item_later p))

  clean_of_IsPublic_fields :
      (fs : Fields)
      → AllCleanKeys (keys fs)
      → ((w : Value) → WithinFields w fs → IsPublic w)
      → sensitive_findings_fields fs ≡ []
  clean_of_IsPublic_fields end k f = refl
  clean_of_IsPublic_fields (field j v r) (hj, hr) f = nil-append _ _ hj (
      nil-append _ _ (clean_of_IsPublic v λ w p. f w (field_here p))
        (clean_of_IsPublic_fields r hr λ w p. f w (field_later p)))

-- No number at any depth is an infinity or a NaN.
abbrev pub AllFinite : Value → Type 0
AllFinite v = (a : Special) → Within (nonfinite a) v → ⊥

mutual
  unfolding json_safe

  json_safe-finite : {a : Special} {v : Value} → Within (nonfinite a) v → json_safe v ≡ true → ⊥
  json_safe-finite here h = cc
  json_safe-finite (in_list p) h = json_safe-finite_items p h
  json_safe-finite (in_dict p) h = json_safe-finite_fields p h

  json_safe-finite_items :
      {a : Special} {xs : Items} → WithinItems (nonfinite a) xs → json_safe_items xs ≡ true → ⊥
  json_safe-finite_items (item_here p) h = json_safe-finite p (and-eq-true _ _ h).0
  json_safe-finite_items (item_later p) h = json_safe-finite_items p (and-eq-true _ _ h).1

  json_safe-finite_fields :
      {a : Special} {fs : Fields} → WithinFields (nonfinite a) fs → json_safe_fields fs ≡ true → ⊥
  json_safe-finite_fields (field_here p) h = json_safe-finite p (and-eq-true _ _ h).0
  json_safe-finite_fields (field_later p) h = json_safe-finite_fields p (and-eq-true _ _ h).1

true-and : (a b : Bool) → a ≡ true → b ≡ true → (a && b) ≡ true
true-and a b h k = ground arith

mutual
  unfolding json_safe

  safe_of_AllFinite : (v : Value) → AllFinite v → json_safe v ≡ true
  safe_of_AllFinite (nonfinite a) f = absurd (f a here)
  safe_of_AllFinite (list xs) f = safe_of_AllFinite_items xs λ a p. f a (in_list p)
  safe_of_AllFinite (dict fs) f = safe_of_AllFinite_fields fs λ a p. f a (in_dict p)
  safe_of_AllFinite null f = refl
  safe_of_AllFinite (bool b) f = refl
  safe_of_AllFinite (int z) f = refl
  safe_of_AllFinite (float m k) f = refl
  safe_of_AllFinite (str s) f = refl

  safe_of_AllFinite_items :
      (xs : Items) → ((a : Special) → WithinItems (nonfinite a) xs → ⊥) → json_safe_items xs ≡ true
  safe_of_AllFinite_items nil f = refl
  safe_of_AllFinite_items (cons x xs) f =
      true-and _ _ (safe_of_AllFinite x λ a p. f a (item_here p))
        (safe_of_AllFinite_items xs λ a p. f a (item_later p))

  safe_of_AllFinite_fields :
      (fs : Fields)
      → ((a : Special) → WithinFields (nonfinite a) fs → ⊥)
      → json_safe_fields fs ≡ true
  safe_of_AllFinite_fields end f = refl
  safe_of_AllFinite_fields (field k v r) f =
      true-and _ _ (safe_of_AllFinite v λ a p. f a (field_here p))
        (safe_of_AllFinite_fields r λ a p. f a (field_later p))

code_unless-eq-nil : (b : Bool) (c : String) → code_unless b c ≡ [] → b ≡ true
code_unless-eq-nil true c h = refl
code_unless-eq-nil false c h = cc

safe_codes :
    (payload context : Value)
    → AllFinite payload
    → AllFinite context
    → code_unless (json_safe payload && json_safe context) "RC_BOUNDARY_NONFINITE_OR_NONJSON" ≡ []
safe_codes payload context f g = rw (safe_of_AllFinite payload f, safe_of_AllFinite context g) refl

-- A dictionary in a fitting context, with nothing in it that must not leave the case.
pub record IsAdmissible (payload context : Value) : Type 0 where
  pub dictionary : is_dict payload ≡ true
  pub fitting : context_codes context ≡ []
  pub finite : AllFinite payload
  pub finite_context : AllFinite context
  pub public : (w : Value) → Within w payload → IsPublic w

payload-is_dict : (payload : Value) → payload_codes payload ≡ [] → is_dict payload ≡ true
payload-is_dict (dict fs) h = refl
payload-is_dict _ h = cc

payload-no_codes : (payload : Value) → is_dict payload ≡ true → payload_codes payload ≡ []
payload-no_codes (dict fs) h = refl
payload-no_codes _ h = cc

verdict-accepted : (cs : List String) (c : String) → (verdict cs c).accepted ≡ true → cs ≡ []
unfolding passed blocked
verdict-accepted [] c h = refl
verdict-accepted (x ∷ cs) c h = cc

admissible :
    (payload context : Value)
    → (boundary_validate payload context).accepted ≡ true
    → IsAdmissible payload context
unfolding boundary_validate
admissible payload context h =
    let codes = verdict-accepted (boundary_codes payload context) "RC_BOUNDARY_VALID" h in
    let (f, h0) = append-eq-nil _ _ codes in
    let (p, h1) = append-eq-nil _ _ h0 in
    let (c, s) = append-eq-nil _ _ h1 in
    let (fp, fc) = and-eq-true (json_safe payload) (json_safe context) (code_unless-eq-nil _ _ f) in
    record {
      finite = λ a q. json_safe-finite q fp;
      finite_context = λ a q. json_safe-finite q fc;
      dictionary = payload-is_dict payload p;
      fitting = c;
      public = λ w q. Within-IsPublic q s;
    }

accepted :
    (payload context : Value)
    → IsAdmissible payload context
    → (boundary_validate payload context).accepted ≡ true
unfolding boundary_validate passed
accepted payload context a =
    let codes : boundary_codes payload context ≡ [] =
      nil-append _ _ (safe_codes payload context a.finite a.finite_context) (
        nil-append _ _ (payload-no_codes payload a.dictionary)
          (nil-append _ _ a.fitting (clean_of_IsPublic payload a.public))) in
    rw codes refl

-- `boundary_validate` accepts just the dictionaries, in a context of the named fields, stages and
-- components, in which no text at any depth is a secret or a private path, and no dictionary at any
-- depth has a sensitive key, and in which no number at any depth, of the context neither, is an
-- infinity or a NaN.
pub boundary_validate-IsAdmissible :
    (payload context : Value)
    → ((boundary_validate payload context).accepted ≡ true) ↔ IsAdmissible payload context
boundary_validate-IsAdmissible payload context =
    (admissible payload context, accepted payload context)
