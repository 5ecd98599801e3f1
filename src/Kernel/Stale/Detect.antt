-- ===== src/Kernel/Stale/Detect.antt =====
-- A changed dependency is found: what no mismatch means for each bound file.
use cumcm.Base.{
  String, ◌≡◌, sym, ap, ◌∙◌, true, ◌||◌, Option, some, List, [], ◌∷◌, ◌++◌, contains,
  contains-append, arith, eq_iff,
}
use cumcm.Py.Exn.{ok, ◌>>=◌, >>=-eq-ok, ok-injective}
use cumcm.Py.Value.{Value, Fields, end, field, dict, keys, lookup}
use cumcm.Py.Dict.{get}
use cumcm.Kernel.Host.{Host}
use cumcm.Kernel.Gate.{sorted_set}
use cumcm.Kernel.Gate.Canonical.{contains-sorted_set}
use cumcm.Kernel.Validators.{Validators}
use cumcm.Kernel.Stale.{
  is_mismatch, file_mismatches, dependency_mismatches, mismatches_of, manifest_bindings,
  manifest_mismatches, freezes_or_mismatch,
}

file_mismatches-contains :
    (H : Host) (bs : Fields) (path : String) (expected : Value)
    → lookup path bs ≡ some expected
    → is_mismatch H path expected ≡ true
    → contains (file_mismatches H bs) path ≡ true
unfolding file_mismatches
file_mismatches-contains H end path expected h m = cc
file_mismatches-contains H (field p v r) path expected h m =
    grind (arith, eq_iff p path, contains-append, file_mismatches-contains H r path expected)

-- `sorted(set(mismatches))` keeps what the first list holds.
kept :
    (xs ys : List String) (path : String)
    → contains xs path ≡ true
    → contains (sorted_set (xs ++ ys)) path ≡ true
kept xs ys path h =
    contains-sorted_set (xs ++ ys) path
    ∙ contains-append xs ys path
    ∙ ap (λ b. b || contains ys path) h

mismatches_of-contains :
    (H : Host) (V : Validators) (bs : Fields) (ms chain : List String) (path : String)
    → contains (file_mismatches H bs) path ≡ true
    → mismatches_of H V bs ms ≡ ok chain
    → contains chain path ≡ true
mismatches_of-contains H V bs [] chain path h e =
    ap (λ c. contains c path) (sym (ok-injective (sorted_set (file_mismatches H bs)) chain e))
    ∙ contains-sorted_set (file_mismatches H bs) path
    ∙ h
mismatches_of-contains H V bs (m ∷ ms) chain path h e =
    let rest = λ (p : Option Fields × List String). manifest_mismatches H V p.0 (m ∷ ms) >>= λ bad.
    ok (sorted_set (file_mismatches H bs ++ (p.1 ++ bad))) in
    let (p, _, e1) = >>=-eq-ok (freezes_or_mismatch V.trusted_freezes) rest e in
    let (bad, _, e2) =
      >>=-eq-ok (manifest_mismatches H V p.0 (m ∷ ms))
        (λ bad. ok (sorted_set (file_mismatches H bs ++ (p.1 ++ bad)))) e1 in
    ap (λ c. contains c path) (sym (ok-injective _ chain e2))
    ∙ kept (file_mismatches H bs) (p.1 ++ bad) path h

-- A bound path that is no file, or whose digest is not the bound one, is in the chain that
-- `dependency_mismatches` returns.
pub dependency_mismatches-contains :
    (H : Host) (V : Validators) (fs bs : Fields) (chain : List String) (path : String)
    (expected : Value)
    → get "evidence_bindings" fs ≡ dict bs
    → lookup path bs ≡ some expected
    → is_mismatch H path expected ≡ true
    → dependency_mismatches H V fs ≡ ok chain
    → contains chain path ≡ true
unfolding dependency_mismatches
dependency_mismatches-contains H V fs bs chain path expected b l m e =
    mismatches_of-contains H V bs (manifest_bindings (keys bs)) chain path
      (file_mismatches-contains H bs path expected l m) (rw b at e)
