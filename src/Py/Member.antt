-- ===== src/Py/Member.antt =====
-- `in`, which may raise, and the Boolean operators around it.
use cumcm.Base.{String, Bool, true, false, List, any, map, if◌then◌else◌}
use cumcm.Py.Exn.{Py, ok, raise, type_error}
use cumcm.Py.Value.{Value, str, list, dict, elements, keys, eq, is_text}
use cumcm.Py.Text.{codes, has_part, characters}

abbrev pub hashable : Value → Bool
hashable (list xs) = false
hashable (dict fs) = false
hashable _ = true

-- `a and b`, where `b` is evaluated only if `a` holds.
abbrev pub and_then : Bool → Py Bool → Py Bool
and_then true m = m
and_then false m = ok false

-- `a or b`, where `b` is evaluated only if `a` fails.
abbrev pub or_then : Bool → Py Bool → Py Bool
or_then true m = ok true
or_then false m = m

-- `v in container`
abbrev pub member : Value → Value → Py Bool
member v (list xs) = ok (any (λ x. eq x v) (elements xs))
member (list ys) (dict fs) = raise type_error
member (dict gs) (dict fs) = raise type_error
member v (dict fs) = ok (any (is_text v) (keys fs))
member (str s) (str t) = ok (has_part (codes s) (codes t))
member v _ = raise type_error

-- `v in {"a", "b"}`
abbrev pub member_text : Value → List String → Py Bool
member_text v xs = if hashable v then ok (any (is_text v) xs) else raise type_error

-- `for item in value`
abbrev pub iterate : Value → Py (List Value)
iterate (list xs) = ok (elements xs)
iterate (dict fs) = ok (map str (keys fs))
iterate (str s) = ok (map str (characters s))
iterate _ = raise type_error
