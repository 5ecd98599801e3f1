-- ===== src/Kernel/Boundary.antt =====
-- The boundary of the kernel: `normalize_key`, `sensitive_findings`, `boundary_validate`, and the
-- search for numeric scores, `strict_score` and `contains_strict_score`.
pub mod Patterns
pub mod Clean
pub mod Names
pub mod Plain
pub mod Within
pub mod Safe
pub mod Accepted
use cumcm.Base.{
  ℕ, suc, ◌+◌, ◌-◌, ◌^◌, String, Bool, true, false, not, ◌&&◌, ◌||◌, List, [], ◌∷◌, ◌++◌, map, eqb,
  leb, length, if◌then◌else◌, any, all, contains, same_set, ◌==◌,
}
use cumcm.Py.Text.{
  codes, same_codes, starts, slashes, has_parent_part, split, is_digit, is_lower, is_upper,
}
use cumcm.Py.Value.{
  Value, null, bool, int, float, ℤ, pos, negsuc, str, list, dict, Items, nil, cons, Fields, end,
  field, is_text, is_str, truthy, elements, keys,
}
use cumcm.Py.Dict.{get}
use cumcm.Py.Exn.{Py, ok, raise, overflow_error, ◌>>=◌}
use cumcm.Py.Member.{or_then}
use cumcm.Kernel.Host.{json_safe}
use cumcm.Kernel.Tables.{sensitive_keys, stages, component_ids}
use cumcm.Kernel.Gate.{GateResult, passed, blocked}
use Patterns.{is_windows_absolute, is_env_path, is_credential_url, has_secret_value}

abbrev fold_ligature : ℕ → List ℕ
fold_ligature c =
    if eqb c 0xfb00
    then b'f' ∷ b'f' ∷ []
    else if eqb c 0xfb01
    then b'f' ∷ b'i' ∷ []
    else if eqb c 0xfb02
    then b'f' ∷ b'l' ∷ []
    else if eqb c 0xfb03
    then b'f' ∷ b'f' ∷ b'i' ∷ []
    else if eqb c 0xfb04
    then b'f' ∷ b'f' ∷ b'l' ∷ []
    else if eqb c 0xfb05 || eqb c 0xfb06
    then b's' ∷ b't' ∷ []
    else []

-- The letters a-z and digits that the case folding of a character has. No other character folds to
-- a text with one of them.
abbrev fold_key : ℕ → List ℕ
fold_key c =
    if is_lower c || is_digit c
    then c ∷ []
    else if is_upper c
    then (c + 32) ∷ []
    else if eqb c 0xdf || eqb c 0x1e9e
    then b's' ∷ b's' ∷ []
    else if eqb c 0x130
    then b'i' ∷ []
    else if eqb c 0x149
    then b'n' ∷ []
    else if eqb c 0x17f
    then b's' ∷ []
    else if eqb c 0x1f0
    then b'j' ∷ []
    else if eqb c 0x1e96
    then b'h' ∷ []
    else if eqb c 0x1e97
    then b't' ∷ []
    else if eqb c 0x1e98
    then b'w' ∷ []
    else if eqb c 0x1e99
    then b'y' ∷ []
    else if eqb c 0x1e9a
    then b'a' ∷ []
    else if eqb c 0x212a
    then b'k' ∷ []
    else fold_ligature c

abbrev fold_codes : List ℕ → List ℕ
fold_codes [] = []
fold_codes (c ∷ cs) = fold_key c ++ fold_codes cs

-- `re.sub(r"[^a-z0-9]", "", value.casefold())`
unfoldable pub normalize_key : String → List ℕ
normalize_key s = fold_codes (codes s)

unfoldable pub key_findings : String → List String
unfolding normalize_key
key_findings k =
    if any (λ s. same_codes (codes s) (normalize_key k)) sensitive_keys
    then "RC_SECRET_FIELD_REJECTED" ∷ []
    else []

abbrev is_private_path : List ℕ → Bool
is_private_path cs =
    starts (b'/' ∷ []) cs
    || starts (b'~' ∷ []) cs
    || starts (92 ∷ 92 ∷ []) cs
    || starts (b'/' ∷ b'/' ∷ []) (slashes cs)
    || is_windows_absolute cs
    || is_env_path cs
    || has_parent_part (slashes cs)

unfoldable pub text_findings : String → List String
unfolding is_windows_absolute is_env_path is_credential_url has_secret_value split
text_findings s =
    let cs = codes s in
    (if is_private_path cs then "RC_PRIVATE_ABSOLUTE_PATH_REJECTED" ∷ [] else [])
    ++ (if is_credential_url cs then "RC_CREDENTIAL_URL_REJECTED" ∷ [] else [])
    ++ (if has_secret_value cs then "RC_SECRET_VALUE_REJECTED" ∷ [] else [])

-- The codes that the walk adds, in its order; the set is what the callers use.
unfoldable mutual
  pub sensitive_findings : Value → List String
  sensitive_findings (str s) = text_findings s
  sensitive_findings (list xs) = sensitive_findings_items xs
  sensitive_findings (dict fs) = sensitive_findings_fields fs
  sensitive_findings _ = []

  pub sensitive_findings_items : Items → List String
  sensitive_findings_items nil = []
  sensitive_findings_items (cons x xs) = sensitive_findings x ++ sensitive_findings_items xs

  pub sensitive_findings_fields : Fields → List String
  sensitive_findings_fields end = []
  sensitive_findings_fields (field k v r) =
      key_findings k ++ (sensitive_findings v ++ sensitive_findings_fields r)

-- `math.isfinite(z)` converts the integer to a float, which rounds to even: from here on it overflows.
unfoldable pub exceeds_float : ℤ → Bool
exceeds_float (pos n) = leb (2 ^ 1024 - 2 ^ 970) n
exceeds_float (negsuc n) = leb (2 ^ 1024 - 2 ^ 970) (suc n)

unfoldable pub strict_score : Value → Py Bool
unfolding exceeds_float
strict_score (int z) = if exceeds_float z then raise overflow_error else ok true
strict_score (float m k) = ok true
strict_score v = ok false

unfoldable mutual
  unfolding strict_score

  pub contains_strict_score : Value → Py Bool
  contains_strict_score (list xs) = contains_strict_score_items xs
  contains_strict_score (dict fs) = contains_strict_score_fields fs
  contains_strict_score v = strict_score v

  pub contains_strict_score_items : Items → Py Bool
  contains_strict_score_items nil = ok false
  contains_strict_score_items (cons x xs) =
      contains_strict_score x >>= λ found. or_then found (contains_strict_score_items xs)

  pub contains_strict_score_fields : Fields → Py Bool
  contains_strict_score_fields end = ok false
  contains_strict_score_fields (field k v r) =
      contains_strict_score v >>= λ found. or_then found (contains_strict_score_fields r)

-- `[item for item in xs]` if all are texts.
abbrev pub all_texts : Items → Bool
all_texts nil = true
all_texts (cons (str s) xs) = all_texts xs
all_texts (cons _ xs) = false

abbrev pub text_elements : Items → List String
text_elements nil = []
text_elements (cons (str s) xs) = s ∷ text_elements xs
text_elements (cons _ xs) = text_elements xs

-- `len(set(xs)) == len(xs)`
abbrev pub no_repeats : List String → Bool
no_repeats [] = true
no_repeats (s ∷ r) = not (contains r s) && no_repeats r

abbrev components_ok : Value → Bool
components_ok (list xs) =
    let names = text_elements xs in
    truthy (list xs)
    && all_texts xs
    && all (λ s. not (s == "")) names
    && no_repeats names
    && all (contains component_ids) names
components_ok _ = false

abbrev text_in : Value → List String → Bool
text_in v xs = any (is_text v) xs

abbrev pub code_unless : Bool → String → List String
code_unless b c = if b then [] else c ∷ []

unfoldable pub context_codes : Value → List String
context_codes (dict context) =
    code_unless (same_set (keys context) ("stage" ∷ "enabled_components" ∷ "execution_scope" ∷ []))
      "RC_CONTEXT_FIELDS_INVALID"
    ++ code_unless (text_in (get "stage" context) stages) "RC_CONTEXT_STAGE_INVALID"
    ++ code_unless (components_ok (get "enabled_components" context))
        "RC_CONTEXT_ENABLED_COMPONENTS_INVALID"
    ++ code_unless (is_text (get "execution_scope" context) "CASE")
        "RC_CONTEXT_EXECUTION_SCOPE_PROHIBITED"
context_codes _ = "RC_CONTEXT_INVALID" ∷ []

abbrev pub payload_codes : Value → List String
payload_codes (dict fs) = []
payload_codes _ = "RC_BOUNDARY_PAYLOAD_INVALID" ∷ []

abbrev pub boundary_codes : Value → Value → List String
boundary_codes payload context =
    code_unless (json_safe payload && json_safe context) "RC_BOUNDARY_NONFINITE_OR_NONJSON"
    ++ (payload_codes payload ++ (context_codes context ++ sensitive_findings payload))

abbrev pub verdict : List String → String → GateResult
verdict [] code = passed code
verdict (c ∷ cs) code = blocked (c ∷ cs)

unfoldable pub boundary_validate : Value → Value → GateResult
boundary_validate payload context = verdict (boundary_codes payload context) "RC_BOUNDARY_VALID"
