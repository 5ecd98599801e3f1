-- ===== src/Py/Path.antt =====
-- Paths of `pathlib` as texts, on a system whose paths are separated by "/".
use Prim.Native.Char.{Char, code}
use cumcm.Base.{String, ◌<>◌, Bool, false, not, ◌&&◌, List, [], ◌∷◌, ◌==◌, eqb, if◌then◌else◌}

abbrev put_char : Char → List String → List String
put_char c [] = (String.◌∷◌ c String.[]) ∷ []
put_char c (p ∷ ps) = (String.◌∷◌ c p) ∷ ps

-- `text.split("/")`
abbrev components : String → List String
components String.[] = "" ∷ []
components (String.◌∷◌ c s) =
    let rest = components s in if eqb (code c) b'/' then "" ∷ rest else put_char c rest

-- A path has no empty component and no ".".
abbrev kept : List String → List String
kept [] = []
kept (p ∷ ps) = let rest = kept ps in if not (p == "") && not (p == ".") then p ∷ rest else rest

abbrev slashed : List String → String
slashed [] = ""
slashed (p ∷ []) = p
slashed (p ∷ q ∷ r) = p <> ("/" <> slashed (q ∷ r))

abbrev pub is_absolute : String → Bool
is_absolute String.[] = false
is_absolute (String.◌∷◌ c s) = eqb (code c) b'/'

-- `str(Path("runs") / run_id / "manifest.json")`: an absolute run id replaces what stands before it.
unfoldable pub run_file : String → String
run_file run_id =
    if is_absolute run_id
    then "/" <> slashed (kept (components (run_id <> "/manifest.json")))
    else slashed (kept (components ("runs/" <> (run_id <> "/manifest.json"))))
