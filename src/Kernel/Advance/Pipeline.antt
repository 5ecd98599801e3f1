-- ===== src/Kernel/Advance/Pipeline.antt =====
-- A series of calls of `advance_once`: each loads what the one before it has returned.
use cumcm.Base.{
  ℕ, zero, suc, String, ◌≡◌, refl, sym, ap, ◌∙◌, Bool, true, leb, some, List, [], ◌∷◌, get_elem?,
  contains, length, ◌+◌, eq_iff, arith,
}
use mathlib.Core.Path.{subst}
use cumcm.Py.Exn.{ok, ok-injective}
use cumcm.Py.Value.{str, str-injective, dict, Fields, eq}
use cumcm.Py.Dict.{get}
use cumcm.Py.Equal.{eq-get}
use cumcm.Py.Records.{no_doubles}
use cumcm.Kernel.Tables.{states}
use cumcm.Kernel.Host.{Host}
use cumcm.Kernel.State.Pipeline.{contains_of_get_elem?}
use cumcm.Kernel.Load.{load_state}
use cumcm.Kernel.Transition.{index_of}
use cumcm.Kernel.Validators.{Validators}
use cumcm.Kernel.Advance.{advance_once}
use cumcm.Kernel.Advance.Order.{IsNext, advance_once-IsNext}

-- One call: it loads a state that equals `before`, and returns `after`.
pub record Call (before after : Fields) : Type 0 where
  pub host : Host
  pub validators : Validators
  pub check : Bool
  pub loaded : Fields
  pub load : load_state host ≡ ok loaded
  pub same : eq (dict before) (dict loaded) ≡ true
  pub returned : (advance_once host validators check).result ≡ ok after

pub data Calls : ℕ → Fields → Fields → Type 0 where
  done : (fs : Fields) → Calls 0 fs fs
  more : (n : ℕ) (fs gs hs : Fields) → Call fs gs → Calls n gs hs → Calls (suc n) fs hs

index_of-get_elem? :
    (xs : List String) (n : ℕ) (t : String)
    → no_doubles xs ≡ true
    → get_elem? xs n ≡ some t
    → index_of t xs ≡ n
index_of-get_elem? [] n t d h = cc
index_of-get_elem? (x ∷ r) zero t d h = ground (arith, eq_iff x t)
index_of-get_elem? (x ∷ r) (suc m) t d h =
    ground (arith, eq_iff x t, index_of-get_elem? r m t, contains_of_get_elem? r m t h)

-- The number of a state in `STATES`.
unfoldable pub place : String → ℕ
place s = index_of s states

place_next : (s t : String) → IsNext s t → (place t ≡ suc (place s)) × (contains states t ≡ true)
unfolding place
place_next s t (known, next) = (
  index_of-get_elem? states (suc (index_of s states)) t refl next,
  contains_of_get_elem? states (suc (index_of s states)) t next,
)

-- A call goes from a state to the one behind it.
Call-place :
    (fs gs : Fields) (s t : String)
    → Call fs gs
    → get "state" fs ≡ str s
    → get "state" gs ≡ str t
    → (place t ≡ suc (place s)) × (contains states t ≡ true)
Call-place fs gs s t c es et =
    let (before, s', t', loaded, _, from, to, next) =
      advance_once-IsNext c.host c.validators c.check gs c.returned in
    let same : before ≡ c.loaded = ok-injective before c.loaded (sym loaded ∙ c.load) in
    let from' : get "state" before ≡ str s =
      subst (λ x. get "state" x ≡ str s) (sym same) (eq-get fs c.loaded "state" s c.same es) in
    let ss : s' ≡ s = str-injective s' s (sym from ∙ from') in
    let tt' : t' ≡ t = str-injective t' t (sym to ∙ et) in
    place_next s t (subst (λ x. IsNext x t) ss (subst (λ x. IsNext s' x) tt' next))

Call-state : (fs gs : Fields) → Call fs gs → (t : String) × (get "state" gs ≡ str t)
Call-state fs gs c =
    let (_, _, t, _, _, _, to, _) = advance_once-IsNext c.host c.validators c.check gs c.returned in
    (t, to)

index_of-length :
    (xs : List String) (s : String)
    → contains xs s ≡ true
    → leb (suc (index_of s xs)) (length xs) ≡ true
index_of-length [] s h = cc
index_of-length (x ∷ r) s h = ground (arith, index_of-length r s)

leb_of_suc : (n : ℕ) → leb (suc n) 14 ≡ true → leb n 13 ≡ true
leb_of_suc n h = ground arith

place-bound : (s : String) → contains states s ≡ true → leb (place s) 13 ≡ true
unfolding place
place-bound s k = leb_of_suc (index_of s states) (index_of-length states s k)

-- A series of `n` calls that return, each of which loads a state that equals what the one before it
-- has returned, moves a case that stands in `STATES` just `n` places forward there, and not behind the last
-- of its 14 states: from CREATED there are at most 13 such calls.
pub Calls-place :
    (n : ℕ) (fs gs : Fields) (s t : String)
    → Calls n fs gs
    → get "state" fs ≡ str s
    → get "state" gs ≡ str t
    → contains states s ≡ true
    → (place t ≡ n + place s) × (leb (n + place s) 13 ≡ true)
Calls-place zero fs gs s t (done fs') es et k =
    let e : place t ≡ place s = ap place (str-injective t s (sym et ∙ es)) in
    let b = place-bound s k in (omega arith, ground arith)
Calls-place (suc n) fs hs s t (more n' fs' gs hs' c rest) es et k =
    let (u, eu) = Call-state fs gs c in
    let (next, known) = Call-place fs gs s u c es eu in
    let (e, b) = Calls-place n gs hs u t rest eu et known in (omega arith, ground arith)
