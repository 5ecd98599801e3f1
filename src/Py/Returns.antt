-- ===== src/Py/Returns.antt =====
-- What holds of every value that a computation returns, by rules that follow its code.
use cumcm.Base.{◌≡◌, Bool, true, false, if◌then◌else◌}
use mathlib.Core.Path.{subst}
use cumcm.Py.Exn.{Exn, Py, ok, raise, ◌>>=◌, >>=-eq-ok, ok-injective}

-- `m` returns only values with `P`.
pub record Returns {ℓ κ} {A : Type ℓ} (P : A → Type κ) (m : Py A) : Type (ℓ ⊔ κ) where
  pub at : (a : A) → m ≡ ok a → P a

pub Returns-raise {ℓ κ} : {A : Type ℓ} {P : A → Type κ} (e : Exn) → Returns P (raise e)
Returns-raise e = record { at = λ a h. cc }

pub Returns-bind {ℓ κ μ} :
    {A : Type ℓ} {B : Type κ} {P : B → Type μ} (m : Py A) (f : A → Py B)
    → ((a : A) → Returns P (f a))
    → Returns P (m >>= f)
Returns-bind m f h = record { at = λ b e. let (a, ea, eb) = >>=-eq-ok m f e in (h a).at b eb }

pub Returns-if {ℓ κ} :
    {A : Type ℓ} {P : A → Type κ} (b : Bool) (m n : Py A)
    → Returns P m
    → Returns P n
    → Returns P (if b then m else n)
Returns-if true m n hm hn = hm
Returns-if false m n hm hn = hn

pub Returns-ok {ℓ κ} : {A : Type ℓ} {P : A → Type κ} (a : A) → P a → Returns P (ok a)
Returns-ok {P = P} a p = record { at = λ b e. subst P (ok-injective a b e) p }

-- The first part of a chain, with the equation for its value.
pub Returns-bind_eq {ℓ κ μ} :
    {A : Type ℓ} {B : Type κ} {P : B → Type μ} (m : Py A) (f : A → Py B)
    → ((a : A) → m ≡ ok a → Returns P (f a))
    → Returns P (m >>= f)
Returns-bind_eq m f h = record { at = λ b e. let (a, ea, eb) = >>=-eq-ok m f e in (h a ea).at b eb }

-- The first part of a chain, with what holds of its value.
pub Returns-then {ℓ κ μ ν} :
    {A : Type ℓ} {B : Type κ} {P : A → Type μ} {Q : B → Type ν} (m : Py A) (f : A → Py B)
    → Returns P m
    → ((a : A) → P a → Returns Q (f a))
    → Returns Q (m >>= f)
Returns-then m f hm h = record {
  at = λ b e. let (a, ea, eb) = >>=-eq-ok m f e in (h a (hm.at a ea)).at b eb;
}
