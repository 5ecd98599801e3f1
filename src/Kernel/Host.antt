-- ===== src/Kernel/Host.antt =====
-- What the kernel takes from its surroundings: the files of one case directory, path resolution,
-- `hashlib.sha256` and the `json` module. `loads` and `dumps` are those of json, on bytes.
use cumcm.Base.{ℕ, suc, String, ◌<>◌, Bool, true, false, not, ◌&&◌, List, [], ◌∷◌, ◌==◌}
use cumcm.Py.Exn.{Py, ok, raise, value_error, ◌>>=◌, ◌>>◌}
use cumcm.Py.Value.{Value, int, pos, nonfinite, list, dict, Items, nil, cons, Fields, end, field}
use cumcm.Py.Text.{codes, starts, has_parent_part}

pub record Host : Type 0 where
  -- `(case_root / path).is_file()`, and the bytes of that file.
  pub is_file : String → Bool
  -- `(case_root / path).exists()`: a file, or a directory.
  pub exists : String → Bool
  pub bytes : String → List ℕ
  pub sha256 : List ℕ → String
  pub loads : List ℕ → Py Value
  pub dumps : Value → List ℕ
  -- `str(v)` of a value that is not a text.
  pub str_of : Value → String
  -- The names of the directories that `runs/*/manifest.json` matches, in the order of the paths.
  pub run_ids : List String
  -- `str(path.relative_to(case_root))` of an absolute path, which may raise ValueError.
  pub relative_to_root : String → Py String
  -- `(root / path).resolve()` stays below `root.resolve()`, for the case root and for ".".
  pub below_case_root : String → Bool
  pub below_cwd : String → Bool

unfoldable pub file_hash : Host → String → String
file_hash H path = H.sha256 (H.bytes path)

-- Whether `assert_json_safe` returns. Keys are texts, and values are JSON values.
unfoldable mutual
  pub json_safe : Value → Bool
  json_safe (nonfinite a) = false
  json_safe (list xs) = json_safe_items xs
  json_safe (dict fs) = json_safe_fields fs
  json_safe v = true

  pub json_safe_items : Items → Bool
  json_safe_items nil = true
  json_safe_items (cons x xs) = json_safe x && json_safe_items xs

  pub json_safe_fields : Fields → Bool
  json_safe_fields end = true
  json_safe_fields (field k v r) = json_safe v && json_safe_fields r

-- `assert_json_safe(value, location)`
unfoldable mutual
  pub assert_json_safe : Host → String → Value → Py (Unit {0})
  assert_json_safe H location (nonfinite a) =
      raise (value_error ("non-finite number at " <> location))
  assert_json_safe H location (list xs) = assert_json_safe_items H location 0 xs
  assert_json_safe H location (dict fs) = assert_json_safe_fields H location fs
  assert_json_safe H location v = ok tt

  pub assert_json_safe_items : Host → String → ℕ → Items → Py (Unit {0})
  assert_json_safe_items H location i nil = ok tt
  assert_json_safe_items H location i (cons x xs) =
      assert_json_safe H (location <> ("[" <> (H.str_of (int (pos i)) <> "]"))) x
      >> assert_json_safe_items H location (suc i) xs

  pub assert_json_safe_fields : Host → String → Fields → Py (Unit {0})
  assert_json_safe_fields H location end = ok tt
  assert_json_safe_fields H location (field k v r) =
      assert_json_safe H (location <> ("." <> k)) v >> assert_json_safe_fields H location r

unfoldable pub canonical_hash : Host → Value → Py String
unfolding assert_json_safe
canonical_hash H v = assert_json_safe H "$" v >>= λ _. ok (H.sha256 (H.dumps v))

-- `relative_case_path(root, value) is not None`, where `below` resolves against that root.
unfoldable pub relative_case_path : (String → Bool) → String → Bool
relative_case_path below s =
    not (s == "")
    && not (starts (b'/' ∷ []) (codes s))
    && not (has_parent_part (codes s))
    && below s
