-- ===== src/Kernel/Advance/Current.antt =====
-- No step is made on evidence that has changed.
use cumcm.Base.{String, ◌≡◌, sym, ◌∙◌, Bool, true, false, some, [], Bool-cases, inl, inr, arith}
use cumcm.Py.Exn.{ok, ok-injective}
use cumcm.Py.Value.{Value, Fields, str, dict, lookup, eq}
use cumcm.Py.Dict.{get}
use cumcm.Kernel.Host.{Host, file_hash}
use cumcm.Kernel.Load.{load_state}
use cumcm.Kernel.Stale.{is_mismatch, dependency_mismatches}
use cumcm.Kernel.Stale.Detect.{dependency_mismatches-contains}
use cumcm.Kernel.Validators.{Validators}
use cumcm.Kernel.Advance.{advance_once}
use cumcm.Kernel.Advance.Order.{advance_once-IsNext}

is_match :
    (H : Host) (path : String) (expected : Value)
    → is_mismatch H path expected ≡ false
    → (H.is_file path ≡ true) × (eq (str (file_hash H path)) expected ≡ true)
unfolding is_mismatch
is_match H path expected h = (ground arith, ground arith)

no_mismatch :
    (H : Host) (V : Validators) (fs bs : Fields) (path : String) (expected : Value)
    → get "evidence_bindings" fs ≡ dict bs
    → lookup path bs ≡ some expected
    → dependency_mismatches H V fs ≡ ok []
    → is_mismatch H path expected ≡ false
no_mismatch H V fs bs path expected b l d = elim (Bool-cases (is_mismatch H path expected)) [
  | inl m ↦ cc (dependency_mismatches-contains H V fs bs [] path expected b l m d)
  | inr n ↦ n
]

-- When `advance_once` returns, every path that the loaded state binds is a file, and its digest is
-- the bound one.
pub advance_once-current :
    (H : Host) (V : Validators) (check : Bool) (fs fs' bs : Fields) (path : String)
    (expected : Value)
    → load_state H ≡ ok fs
    → get "evidence_bindings" fs ≡ dict bs
    → lookup path bs ≡ some expected
    → (advance_once H V check).result ≡ ok fs'
    → (H.is_file path ≡ true) × (eq (str (file_hash H path)) expected ≡ true)
advance_once-current H V check fs fs' bs path expected loaded b l h =
    let (before, s, t, loaded', current, _, _, _) = advance_once-IsNext H V check fs' h in
    let same : before ≡ fs = ok-injective before fs (sym loaded' ∙ loaded) in
    is_match H path expected (no_mismatch H V fs bs path expected b l (rw same at current))
