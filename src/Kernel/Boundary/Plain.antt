-- ===== src/Kernel/Boundary/Plain.antt =====
-- Texts of letters, digits, `_` and `-`, as case ids and digests are: `sensitive_findings` finds
-- nothing in them.
use cumcm.Base.{
  ℕ, String, ◌≡◌, refl, ap, Bool, true, false, not, ◌&&◌, ◌||◌, List, [], ◌∷◌, arith, eqb, leb, all,
  and-eq-true, Bool-cases, inl, inr, length,
}
use cumcm.Py.Text.{
  codes, starts, slashes, split, same_codes, is_letter, is_upper, is_digit, is_space, is_hex,
  is_case_char, case_id_codes, hex64, is_case_id,
}
use cumcm.Kernel.Boundary.{text_findings}
use cumcm.Kernel.Boundary.Patterns.{
  is_windows_absolute, is_env_path, is_credential_url, scheme_rest, has_secret_value, starts_fold,
  drop_literal, spaces_token, lower, private_key,
}

abbrev pub is_plain : ℕ → Bool
is_plain c = is_letter c || is_digit c || eqb c b'_' || eqb c b'-'

abbrev all_plain : List ℕ → Bool
all_plain = all is_plain

eqb-eq : (a b : ℕ) → eqb a b ≡ true → a ≡ b
eqb-eq a b h = ground arith

plain-ne : (k c : ℕ) → is_plain k ≡ false → is_plain c ≡ true → eqb c k ≡ false
plain-ne k c hk hc = elim (Bool-cases (eqb c k)) [
  | inl e ↦ cc (ap is_plain (eqb-eq c k e), hk, hc)
  | inr e ↦ e
]

and-false : (a b : Bool) → (a && false) ≡ false
and-false true b = refl
and-false false b = refl

and-false-and : (a b : Bool) → (a && false && b) ≡ false
and-false-and true b = refl
and-false-and false b = refl

no-match : (a b : Bool) → (((a && false) || (false && b)) || false) ≡ false
no-match true b = refl
no-match false b = refl

plain_not_space : (c : ℕ) → is_plain c ≡ true → is_space c ≡ false
plain_not_space c h = ground arith

lower_not_blank : (p c : ℕ) → is_plain c ≡ true → eqb p (lower c) ≡ true → eqb p b' ' ≡ false
lower_not_blank p c h e = ground arith

starts-plain :
    (p : ℕ) (ps cs : List ℕ) → is_plain p ≡ false → all_plain cs ≡ true → starts (p ∷ ps) cs ≡ false
starts-plain p ps [] hp h = refl
starts-plain p ps (c ∷ cs) hp h =
    let (hc, _) = and-eq-true (is_plain c) _ h in
    elim (Bool-cases (eqb p c)) [ inl e ↦ cc (eqb-eq p c e, hp, hc) | inr e ↦ rw e ]

slashes-plain : (cs : List ℕ) → all_plain cs ≡ true → slashes cs ≡ cs
slashes-plain [] h = refl
slashes-plain (c ∷ cs) h =
    let (hc, hr) = and-eq-true (is_plain c) _ h in
    let e : eqb c 92 ≡ false = plain-ne 92 c refl hc in rw e (ap (λ l. c ∷ l) (slashes-plain cs hr))

windows-plain : (cs : List ℕ) → all_plain cs ≡ true → is_windows_absolute cs ≡ false
unfolding is_windows_absolute
windows-plain [] h = refl
windows-plain (a ∷ []) h = refl
windows-plain (a ∷ b ∷ []) h = refl
windows-plain (a ∷ b ∷ c ∷ cs) h =
    let (_, h1) = and-eq-true (is_plain a) _ h in
    let (hb, _) = and-eq-true (is_plain b) _ h1 in
    rw (plain-ne b':' b refl hb) (and-false-and (is_letter a) _)

env-plain : (cs : List ℕ) → all_plain cs ≡ true → is_env_path cs ≡ false
unfolding is_env_path
env-plain [] h = refl
env-plain (c ∷ cs) h =
    let (hc, _) = and-eq-true (is_plain c) _ h in
    rw (plain-ne b'$' c refl hc, plain-ne b'%' c refl hc)

split-plain : (cs : List ℕ) → all_plain cs ≡ true → split b'/' cs ≡ cs ∷ []
unfolding split
split-plain [] h = refl
split-plain (c ∷ cs) h =
    let (hc, hr) = and-eq-true (is_plain c) _ h in rw (plain-ne b'/' c refl hc, split-plain cs hr)

dots-plain : (cs : List ℕ) → all_plain cs ≡ true → same_codes (b'.' ∷ b'.' ∷ []) cs ≡ false
dots-plain [] h = refl
dots-plain (c ∷ cs) h =
    let (hc, _) = and-eq-true (is_plain c) _ h in
    elim (Bool-cases (eqb b'.' c)) [ inl e ↦ cc (ap is_plain (eqb-eq b'.' c e), hc) | inr e ↦ rw e ]

scheme-plain : (cs : List ℕ) → all_plain cs ≡ true → scheme_rest cs ≡ false
unfolding scheme_rest
scheme-plain [] h = refl
scheme-plain (c ∷ cs) h =
    let (hc, hr) = and-eq-true (is_plain c) _ h in
    rw (plain-ne b':' c refl hc, scheme-plain cs hr) (and-false _ true)

credential-plain : (cs : List ℕ) → all_plain cs ≡ true → is_credential_url cs ≡ false
unfolding is_credential_url
credential-plain [] h = refl
credential-plain (c ∷ cs) h =
    let (hc, hr) = and-eq-true (is_plain c) _ h in rw (scheme-plain cs hr) (and-false _ true)

drop-plain : (ps cs : List ℕ) → all_plain cs ≡ true → all_plain (drop_literal ps cs) ≡ true
drop-plain [] cs h = h
drop-plain (p ∷ ps) [] h = refl
drop-plain (p ∷ ps) (c ∷ cs) h = drop-plain ps cs (and-eq-true (is_plain c) _ h).1

spaces-plain : (cs : List ℕ) → all_plain cs ≡ true → spaces_token cs ≡ false
spaces-plain [] h = refl
spaces-plain (c ∷ cs) h = let (hc, _) = and-eq-true (is_plain c) _ h in rw (plain_not_space c hc)

starts_fold-plain :
    (ps cs : List ℕ)
    → all_plain cs ≡ true
    → starts_fold ps cs ≡ true
    → all (λ p. not (eqb p b' ')) ps ≡ true
starts_fold-plain [] cs h e = refl
starts_fold-plain (p ∷ ps) [] h e = cc
starts_fold-plain (p ∷ ps) (c ∷ cs) h e =
    let (hc, hr) = and-eq-true (is_plain c) _ h in
    let (ec, er) = and-eq-true (eqb p (lower c)) _ e in
    rw (lower_not_blank p c hc ec) (starts_fold-plain ps cs hr er)

begin-plain : (cs : List ℕ) → all_plain cs ≡ true → starts_fold (codes "-----begin ") cs ≡ false
begin-plain cs h = elim (Bool-cases (starts_fold (codes "-----begin ") cs)) [
  | inl e ↦ cc (starts_fold-plain (codes "-----begin ") cs h e)
  | inr e ↦ e
]

secret-plain : (cs : List ℕ) → all_plain cs ≡ true → has_secret_value cs ≡ false
unfolding has_secret_value
secret-plain [] h = refl
secret-plain (c ∷ cs) h =
    let (hc, hr) = and-eq-true (is_plain c) _ h in
    rw
      (
        spaces-plain _ (drop-plain (codes "bearer") (c ∷ cs) h),
        begin-plain (c ∷ cs) h,
        secret-plain cs hr,
      )
      (no-match (starts_fold (codes "bearer") (c ∷ cs))
        (private_key (drop_literal (codes "-----begin ") (c ∷ cs))))

-- Nothing is found in a text of letters, digits, `_` and `-`.
pub plain-clean : (s : String) → all is_plain (codes s) ≡ true → text_findings s ≡ []
unfolding text_findings
plain-clean s h = rw (
  slashes-plain (codes s) h,
  starts-plain b'/' [] (codes s) refl h,
  starts-plain b'~' [] (codes s) refl h,
  starts-plain 92 (92 ∷ []) (codes s) refl h,
  starts-plain b'/' (b'/' ∷ []) (codes s) refl h,
  windows-plain (codes s) h,
  env-plain (codes s) h,
  split-plain (codes s) h,
  dots-plain (codes s) h,
  credential-plain (codes s) h,
  secret-plain (codes s) h,
)

plain_of_all :
    (p : ℕ → Bool) (cs : List ℕ)
    → ((c : ℕ) → p c ≡ true → is_plain c ≡ true)
    → all p cs ≡ true
    → all is_plain cs ≡ true
plain_of_all p [] f h = refl
plain_of_all p (c ∷ cs) f h =
    let (hc, hr) = and-eq-true (p c) _ h in rw (f c hc, plain_of_all p cs f hr)

hex_plain : (c : ℕ) → is_hex c ≡ true → is_plain c ≡ true
hex_plain c h = ground arith

case_plain : (c : ℕ) → is_case_char c ≡ true → is_plain c ≡ true
case_plain c h = ground arith

-- A digest is clean.
pub hex64-clean : (s : String) → hex64 s ≡ true → text_findings s ≡ []
unfolding hex64
hex64-clean s h =
    plain-clean s
      (plain_of_all is_hex (codes s) hex_plain (and-eq-true _ (all is_hex (codes s)) h).1)

first_plain : (c : ℕ) → (is_upper c || is_digit c) ≡ true → is_plain c ≡ true
first_plain c h = ground arith

case_id-plain : (cs : List ℕ) → case_id_codes cs ≡ true → all is_plain cs ≡ true
case_id-plain [] h = refl
case_id-plain (c ∷ cs) h =
    let (h1, _) = and-eq-true _ (leb (length cs) 63) h in
    let (h2, _) = and-eq-true _ (leb 2 (length cs)) h1 in
    let (hc, hr) = and-eq-true (is_upper c || is_digit c) (all is_case_char cs) h2 in
    rw (first_plain c hc, plain_of_all is_case_char cs case_plain hr)

-- A case id is clean.
pub case_id-clean : (s : String) → is_case_id s ≡ true → text_findings s ≡ []
unfolding is_case_id
case_id-clean s h = plain-clean s (case_id-plain (codes s) h)
