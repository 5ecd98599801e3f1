-- ===== src/Py/Text.antt =====
-- Text as code points, and the matchers that stand for the kernel's regular expressions.
use Prim.Native.Char.{code}
use cumcm.Base.{
  ℕ, String, Bool, true, false, ◌&&◌, ◌||◌, List, [], ◌∷◌, map, eqb, leb, if◌then◌else◌, all, any,
  length,
}

abbrev pub codes : String → List ℕ
codes String.[] = []
codes (String.◌∷◌ c s) = code c ∷ codes s

abbrev pub same_codes : List ℕ → List ℕ → Bool
same_codes [] [] = true
same_codes (a ∷ r) (b ∷ s) = eqb a b && same_codes r s
same_codes _ _ = false

-- `text.startswith(prefix)`
abbrev pub starts : List ℕ → List ℕ → Bool
starts [] cs = true
starts (p ∷ ps) [] = false
starts (p ∷ ps) (c ∷ cs) = eqb p c && starts ps cs

abbrev pub is_digit : ℕ → Bool
is_digit c = leb b'0' c && leb c b'9'

abbrev pub is_lower : ℕ → Bool
is_lower c = leb b'a' c && leb c b'z'

abbrev pub is_upper : ℕ → Bool
is_upper c = leb b'A' c && leb c b'Z'

abbrev pub is_letter : ℕ → Bool
is_letter c = is_lower c || is_upper c

abbrev pub is_word : ℕ → Bool
is_word c = is_letter c || is_digit c || eqb c b'_'

-- `\s` on text: the characters of `str.isspace`.
abbrev pub is_space : ℕ → Bool
is_space c =
    (leb 9 c && leb c 13)
    || (leb 0x1c c && leb c 0x20)
    || eqb c 0x85
    || eqb c 0xa0
    || eqb c 0x1680
    || (leb 0x2000 c && leb c 0x200a)
    || eqb c 0x2028
    || eqb c 0x2029
    || eqb c 0x202f
    || eqb c 0x205f
    || eqb c 0x3000

abbrev cons_head : ℕ → List (List ℕ) → List (List ℕ)
cons_head c [] = (c ∷ []) ∷ []
cons_head c (w ∷ ws) = (c ∷ w) ∷ ws

-- `text.split(sep)` for one character.
unfoldable pub split : ℕ → List ℕ → List (List ℕ)
split sep [] = [] ∷ []
split sep (c ∷ cs) = let rest = split sep cs in if eqb c sep then [] ∷ rest else cons_head c rest

-- `text.replace("\\", "/")`
abbrev pub slashes : List ℕ → List ℕ
slashes = map (λ c. if eqb c 92 then b'/' else c)

-- `".." in text.split("/")`
abbrev pub has_parent_part : List ℕ → Bool
has_parent_part cs = any (same_codes (b'.' ∷ b'.' ∷ [])) (split b'/' cs)

-- `^[0-9a-f]{64}$` by `fullmatch`.
abbrev pub is_hex : ℕ → Bool
is_hex c = is_digit c || (leb b'a' c && leb c b'f')

unfoldable pub hex64 : String → Bool
hex64 s = eqb (length (codes s)) 64 && all is_hex (codes s)

-- `[A-Z0-9][A-Z0-9_-]{2,63}` by `fullmatch`.
abbrev pub is_case_char : ℕ → Bool
is_case_char c = is_upper c || is_digit c || eqb c b'_' || eqb c b'-'

abbrev pub case_id_codes : List ℕ → Bool
case_id_codes [] = false
case_id_codes (c ∷ cs) =
    (is_upper c || is_digit c) && all is_case_char cs && leb 2 (length cs) && leb (length cs) 63

unfoldable pub is_case_id : String → Bool
is_case_id s = case_id_codes (codes s)

abbrev is_current : List ℕ → Bool
is_current part = same_codes part [] || same_codes part (b'.' ∷ [])

abbrev drop_current : List (List ℕ) → List (List ℕ)
drop_current [] = []
drop_current (p ∷ ps) = let rest = drop_current ps in if is_current p then rest else p ∷ rest

-- `Path(text).parts`
unfoldable pub path_parts : List ℕ → List (List ℕ)
unfolding split
path_parts cs =
    let parts = drop_current (split b'/' cs) in
    if starts (b'/' ∷ []) cs then (b'/' ∷ []) ∷ parts else parts

-- The characters of a text, each as a text.
abbrev pub characters : String → List String
characters String.[] = []
characters (String.◌∷◌ c s) = (String.◌∷◌ c String.[]) ∷ characters s

-- `part in text`
abbrev pub has_part : List ℕ → List ℕ → Bool
has_part part [] = starts part []
has_part part (c ∷ cs) = starts part (c ∷ cs) || has_part part cs
