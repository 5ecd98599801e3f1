-- ===== src/Kernel/Boundary/Safe.antt =====
-- `json_safe` against `assert_json_safe`, and what `canonical_hash` returns.
use cumcm.Base.{ℕ, suc, String, ◌<>◌, ◌≡◌, refl, Bool, true, false, ◌&&◌}
use cumcm.Py.Exn.{Py, ok, raise, ◌>>◌}
use cumcm.Py.Value.{
  Value, null, bool, int, float, nonfinite, pos, str, list, dict, Items, nil, cons, Fields, end,
  field,
}
use cumcm.Kernel.Host.{
  Host, json_safe, json_safe_items, json_safe_fields, assert_json_safe, assert_json_safe_items,
  assert_json_safe_fields,
}

abbrev pub is_ok : Py (Unit {0}) → Bool
is_ok (ok u) = true
is_ok (raise e) = false

then-is_ok :
    (m n : Py (Unit {0})) (a b : Bool) → is_ok m ≡ a → is_ok n ≡ b → is_ok (m >> n) ≡ (a && b)
then-is_ok (ok u) n a b h k = rw (← h) k
then-is_ok (raise e) n a b h k = rw (← h) refl

mutual
  unfolding json_safe assert_json_safe

  -- `assert_json_safe` returns just for the values that are `json_safe`.
  pub assert_json_safe-is_ok :
      (H : Host) (location : String) (v : Value)
      → is_ok (assert_json_safe H location v) ≡ json_safe v
  assert_json_safe-is_ok H location null = refl
  assert_json_safe-is_ok H location (bool b) = refl
  assert_json_safe-is_ok H location (int z) = refl
  assert_json_safe-is_ok H location (float m k) = refl
  assert_json_safe-is_ok H location (nonfinite a) = refl
  assert_json_safe-is_ok H location (str s) = refl
  assert_json_safe-is_ok H location (list xs) = items-is_ok H location 0 xs
  assert_json_safe-is_ok H location (dict fs) = fields-is_ok H location fs

  items-is_ok :
      (H : Host) (location : String) (i : ℕ) (xs : Items)
      → is_ok (assert_json_safe_items H location i xs) ≡ json_safe_items xs
  items-is_ok H location i nil = refl
  items-is_ok H location i (cons x xs) =
      then-is_ok _ _ _ _
        (assert_json_safe-is_ok H (location <> ("[" <> (H.str_of (int (pos i)) <> "]"))) x)
        (items-is_ok H location (suc i) xs)

  fields-is_ok :
      (H : Host) (location : String) (fs : Fields)
      → is_ok (assert_json_safe_fields H location fs) ≡ json_safe_fields fs
  fields-is_ok H location end = refl
  fields-is_ok H location (field k v r) =
      then-is_ok _ _ _ _ (assert_json_safe-is_ok H (location <> ("." <> k)) v)
        (fields-is_ok H location r)
