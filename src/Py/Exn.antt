-- ===== src/Py/Exn.antt =====
-- Exceptions. `value_error` keeps the message, which the kernel fills with reason codes.
use cumcm.Base.{String, ◌≡◌, refl, ap, Bool, true, false}

pub data Exn : Type 0 where
  value_error : String → Exn
  type_error key_error attribute_error os_error : Exn
  -- `json.JSONDecodeError`, which is a ValueError, and FileExistsError, which is an OSError.
  json_error file_exists_error : Exn
  -- OverflowError, which is an ArithmeticError.
  overflow_error : Exn

pub data Py {ℓ} (A : Type ℓ) : Type ℓ where
  ok : A → Py A
  raise : Exn → Py A

infixl 5 ◌>>=◌ ◌>>◌
abbrev pub ◌>>=◌ {ℓ κ} : {A : Type ℓ} {B : Type κ} → Py A → (A → Py B) → Py B
ok a >>= f = f a
raise e >>= f = raise e

abbrev pub ◌>>◌ {ℓ} : {B : Type ℓ} → Py (Unit {0}) → Py B → Py B
m >> k = m >>= λ _. k

-- `if not b: raise e`
abbrev pub require : Bool → Exn → Py (Unit {0})
require true e = ok tt
require false e = raise e

-- A chain that returns has a first part that returns.
pub >>=-eq-ok {ℓ κ} :
    {A : Type ℓ} {B : Type κ} (first : Py A) (next : A → Py B) {result : B}
    → (first >>= next) ≡ ok result
    → (value : A) × (first ≡ ok value) × (next value ≡ ok result)
>>=-eq-ok (raise e) next returned = cc
>>=-eq-ok (ok value) next returned = (value, refl, returned)

pub require-eq-ok : (b : Bool) (e : Exn) {u : Unit {0}} → require b e ≡ ok u → b ≡ true
require-eq-ok true e h = refl
require-eq-ok false e h = cc

abbrev from_ok {ℓ} : {A : Type ℓ} → A → Py A → A
from_ok d (ok a) = a
from_ok d (raise e) = d

pub ok-injective {ℓ} : {A : Type ℓ} (a b : A) → ok a ≡ ok b → a ≡ b
ok-injective a b h = ap (from_ok a) h
