-- ===== src/Kernel/Boundary/Clean.antt =====
-- Values in which `sensitive_findings` finds nothing, and what keeps them so.
use cumcm.Base.{
  String, ◌≡◌, refl, Bool, true, false, List, [], ◌∷◌, ◌++◌, ◌==◌, append-eq-nil, map,
  if◌then◌else◌, some,
}
use cumcm.Py.Value.{
  Value, str, Items, nil, cons, Fields, end, field, texts, items, elements, lookup,
}
use cumcm.Py.Dict.{set, update, get, or_null}
use cumcm.Kernel.Boundary.{
  key_findings, text_findings, sensitive_findings, sensitive_findings_items,
  sensitive_findings_fields,
}

-- A text that may stand as a value.
abbrev pub IsCleanText : String → Type 0
IsCleanText s = text_findings s ≡ []

abbrev pub AllCleanTexts : List String → Type 0
AllCleanTexts [] = Unit
AllCleanTexts (s ∷ r) = (text_findings s ≡ []) × AllCleanTexts r

abbrev pub AllCleanKeys : List String → Type 0
AllCleanKeys [] = Unit
AllCleanKeys (k ∷ r) = (key_findings k ≡ []) × AllCleanKeys r

nil-append : (xs ys : List String) → xs ≡ [] → ys ≡ [] → xs ++ ys ≡ []
nil-append [] ys h k = k
nil-append (x ∷ xs) ys h k = cc

pub texts-clean : (xs : List String) → AllCleanTexts xs → sensitive_findings_items (texts xs) ≡ []
unfolding sensitive_findings
texts-clean [] h = refl
texts-clean (s ∷ r) (h, k) = nil-append _ _ h (texts-clean r k)

pub append-clean :
    (xs : Items) (v : Value)
    → sensitive_findings_items xs ≡ []
    → sensitive_findings v ≡ []
    → sensitive_findings_items (items (elements xs ++ v ∷ [])) ≡ []
unfolding sensitive_findings
append-clean nil v h k = nil-append _ _ k refl
append-clean (cons x xs) v h k =
    let (hx, hr) = append-eq-nil _ _ h in nil-append _ _ hx (append-clean xs v hr k)

set-clean_at :
    (k : String) (v : Value) (j : String) (w : Value) (r : Fields) (same : Bool)
    → key_findings j ≡ []
    → sensitive_findings w ≡ []
    → sensitive_findings_fields r ≡ []
    → sensitive_findings v ≡ []
    → sensitive_findings_fields (set k v r) ≡ []
    → sensitive_findings_fields (if same then field j v r else field j w (set k v r)) ≡ []
unfolding sensitive_findings
set-clean_at k v j w r true hj hw hr hv ih = nil-append _ _ hj (nil-append _ _ hv hr)
set-clean_at k v j w r false hj hw hr hv ih = nil-append _ _ hj (nil-append _ _ hw ih)

pub set-clean :
    (k : String) (v : Value) (fs : Fields)
    → key_findings k ≡ []
    → sensitive_findings v ≡ []
    → sensitive_findings_fields fs ≡ []
    → sensitive_findings_fields (set k v fs) ≡ []
unfolding sensitive_findings set
set-clean k v end hk hv h = nil-append _ _ hk (nil-append _ _ hv refl)
set-clean k v (field j w r) hk hv h =
    let (hj, h1) = append-eq-nil (key_findings j) _ h in
    let (hw, hr) = append-eq-nil (sensitive_findings w) _ h1 in
    set-clean_at k v j w r (j == k) hj hw hr hv (set-clean k v r hk hv hr)

get-clean_at :
    (k : String) (w : Value) (r : Fields) (same : Bool)
    → sensitive_findings w ≡ []
    → sensitive_findings (get k r) ≡ []
    → sensitive_findings (or_null (if same then some w else lookup k r)) ≡ []
get-clean_at k w r true hw ih = hw
get-clean_at k w r false hw ih = ih

pub get-clean :
    (k : String) (fs : Fields)
    → sensitive_findings_fields fs ≡ []
    → sensitive_findings (get k fs) ≡ []
unfolding sensitive_findings
get-clean k end e = refl
get-clean k (field j w r) e =
    let (hj, h1) = append-eq-nil (key_findings j) _ e in
    let (hw, hr) = append-eq-nil (sensitive_findings w) _ h1 in
    get-clean_at k w r (j == k) hw (get-clean k r hr)

-- An update by clean keys and texts.
pub update-clean :
    (fs : Fields) (paths : List String) (value : String → String)
    → sensitive_findings_fields fs ≡ []
    → AllCleanKeys paths
    → ((p : String) → text_findings (value p) ≡ [])
    → sensitive_findings_fields (update fs (map (λ p. (p, str (value p))) paths)) ≡ []
unfolding update
update-clean fs [] value h hk hv = h
update-clean fs (p ∷ r) value h (hp, hr) hv =
    update-clean (set p (str (value p)) fs) r value
      (set-clean p (str (value p)) fs hp (unfold sensitive_findings in hv p) h) hr hv
