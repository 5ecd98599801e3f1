-- ===== src/Kernel/Boundary/Patterns.antt =====
-- The regular expressions `WINDOWS_ABS`, `ENV_PATH`, `CREDENTIAL_URL` and the secret-value search of
-- `sensitive_findings`, as matchers over code points. Under `(?i)` the classes [a-z] and [A-Z] also
-- match U+0130, U+0131, U+017F and U+212A.
use cumcm.Base.{
  ℕ, zero, suc, ◌+◌, Bool, true, false, not, ◌&&◌, ◌||◌, List, [], ◌∷◌, eqb, if◌then◌else◌,
}
use cumcm.Py.Text.{codes, is_letter, is_word, is_digit, is_upper, is_lower, is_space}

unfoldable pub is_windows_absolute : List ℕ → Bool
is_windows_absolute (c ∷ colon ∷ slash ∷ cs) =
    is_letter c && eqb colon b':' && (eqb slash 92 || eqb slash b'/')
is_windows_absolute _ = false

abbrev is_name_start : ℕ → Bool
is_name_start c = is_letter c || eqb c b'_'

abbrev drop_brace : List ℕ → List ℕ
drop_brace [] = []
drop_brace (c ∷ cs) = if eqb c b'{' then cs else c ∷ cs

abbrev starts_name : List ℕ → Bool
starts_name [] = false
starts_name (c ∷ cs) = is_name_start c

-- `[A-Za-z0-9_]*%`
unfoldable pub ends_percent : List ℕ → Bool
ends_percent [] = false
ends_percent (c ∷ cs) = eqb c b'%' || (is_word c && ends_percent cs)

unfoldable pub is_env_path : List ℕ → Bool
unfolding ends_percent
is_env_path [] = false
is_env_path (c ∷ cs) =
    (eqb c b'$' && starts_name (drop_brace cs)) || (eqb c b'%' && starts_name cs && ends_percent cs)

abbrev is_scheme : ℕ → Bool
is_scheme c = is_letter c || is_digit c || eqb c b'+' || eqb c b'.' || eqb c b'-'

-- `[^/@\s]`
abbrev is_login : ℕ → Bool
is_login c = not (eqb c b'/' || eqb c b'@' || is_space c)

-- `[^/@\s]+@`, after the colon
unfoldable pub password_at : Bool → List ℕ → Bool
password_at some_read [] = false
password_at some_read (c ∷ cs) = (some_read && eqb c b'@') || (is_login c && password_at true cs)

-- `[^/@\s]+:[^/@\s]+@`: any colon behind the first character may be the separator.
unfoldable pub login_at : Bool → List ℕ → Bool
unfolding password_at
login_at some_read [] = false
login_at some_read (c ∷ cs) =
    (some_read && eqb c b':' && password_at false cs) || (is_login c && login_at true cs)

abbrev after_slashes : List ℕ → Bool
after_slashes (a ∷ b ∷ cs) = eqb a b'/' && eqb b b'/' && login_at false cs
after_slashes _ = false

-- `[a-zA-Z0-9+.-]*://` and what follows it
unfoldable pub scheme_rest : List ℕ → Bool
unfolding login_at
scheme_rest [] = false
scheme_rest (c ∷ cs) = (eqb c b':' && after_slashes cs) || (is_scheme c && scheme_rest cs)

unfoldable pub is_credential_url : List ℕ → Bool
unfolding scheme_rest
is_credential_url [] = false
is_credential_url (c ∷ cs) = is_letter c && scheme_rest cs

-- The simple lower case that `(?i)` compares by.
abbrev pub lower : ℕ → ℕ
lower c =
    if is_upper c
    then c + 32
    else if eqb c 0x130 || eqb c 0x131
    then b'i'
    else if eqb c 0x17f
    then b's'
    else if eqb c 0x212a
    then b'k'
    else c

-- A match of a lower-case literal under `(?i)`; what follows it.
abbrev pub drop_literal : List ℕ → List ℕ → List ℕ
drop_literal [] cs = cs
drop_literal (p ∷ ps) [] = []
drop_literal (p ∷ ps) (c ∷ cs) = drop_literal ps cs

abbrev pub starts_fold : List ℕ → List ℕ → Bool
starts_fold [] cs = true
starts_fold (p ∷ ps) [] = false
starts_fold (p ∷ ps) (c ∷ cs) = eqb p (lower c) && starts_fold ps cs

abbrev is_token : ℕ → Bool
is_token c = is_lower (lower c) || is_digit c || eqb c b'.' || eqb c b'_' || eqb c b'-'

-- `[a-z0-9._-]{n,}`
abbrev token_run : ℕ → List ℕ → Bool
token_run zero cs = true
token_run (suc n) [] = false
token_run (suc n) (c ∷ cs) = is_token c && token_run n cs

-- `\s*[a-z0-9._-]{8,}`
unfoldable pub space_token : List ℕ → Bool
space_token [] = false
space_token (c ∷ cs) = (is_space c && space_token cs) || token_run 8 (c ∷ cs)

-- `\s+[a-z0-9._-]{8,}`
abbrev pub spaces_token : List ℕ → Bool
spaces_token [] = false
spaces_token (c ∷ cs) = is_space c && space_token cs

-- `[A-Z ]*PRIVATE KEY-----`
unfoldable pub private_key : List ℕ → Bool
private_key [] = false
private_key (c ∷ cs) =
    starts_fold (codes "private key-----") (c ∷ cs)
    || ((is_lower (lower c) || eqb c b' ') && private_key cs)

abbrev secret_here : List ℕ → Bool
secret_here cs =
    (starts_fold (codes "bearer") cs && spaces_token (drop_literal (codes "bearer") cs))
    || (starts_fold (codes "-----begin ") cs && private_key (drop_literal (codes "-----begin ") cs))

-- `re.search` tries every place of the text.
unfoldable pub has_secret_value : List ℕ → Bool
unfolding space_token private_key
has_secret_value [] = false
has_secret_value (c ∷ cs) = secret_here (c ∷ cs) || has_secret_value cs
