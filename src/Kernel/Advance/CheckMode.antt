-- ===== src/Kernel/Advance/CheckMode.antt =====
-- The check mode of `advance_once` against the call that writes.
use cumcm.Base.{String, ◌≡◌, refl, ap, ◌∙◌, Bool, true, false, none, List, [], ◌∷◌, if◌then◌else◌}
use cumcm.Py.Exn.{Exn, Py, ok, raise, ◌>>=◌}
use cumcm.Py.Value.{Fields}
use cumcm.Py.Dict.{item}
use cumcm.Kernel.Host.{Host}
use cumcm.Kernel.Load.{load_state}
use cumcm.Kernel.Stale.{
  StaleCheck, dependency_mismatches, stale_check, stale_check_of, mark, recheck,
}
use cumcm.Kernel.Transition.{Step, as_list}
use cumcm.Kernel.Validators.{Validators}
use cumcm.Kernel.Advance.{
  Outcome, advance_once, advance_loaded, advance_current, advance_state, step_outcome,
  stale_outcome,
}
use cumcm.Kernel.Advance.DryRun.{dry, advance_state-IsDry}

abbrev unwritten : Outcome → Outcome
unwritten o = record { result = o.result; written = none }

record IsChecked (m n : Py StaleCheck) : Type 0 where
  pub same : stale_outcome m ≡ unwritten (stale_outcome n)

IsChecked-raise : (e : Exn) → IsChecked (raise e) (raise e)
IsChecked-raise e = record { same = refl }

IsChecked-bind {ℓ} :
    {A : Type ℓ} (m : Py A) (f g : A → Py StaleCheck)
    → ((a : A) → IsChecked (f a) (g a))
    → IsChecked (m >>= f) (m >>= g)
IsChecked-bind (ok a) f g h = h a
IsChecked-bind (raise e) f g h = IsChecked-raise e

IsChecked-if :
    (b : Bool) (m m' n n' : Py StaleCheck)
    → IsChecked m n
    → IsChecked m' n'
    → IsChecked (if b then m else m') (if b then n else n')
IsChecked-if true m m' n n' h k = h
IsChecked-if false m m' n n' h k = k

recheck-IsChecked : (a b : List String) → IsChecked (ok (recheck a b)) (ok (recheck a b))
recheck-IsChecked a b = record { same = refl }

mark-IsChecked :
    (state : Fields) (ms : List String) → IsChecked (mark state false ms) (mark state true ms)
mark-IsChecked state [] = record { same = refl }
mark-IsChecked state (m ∷ ms) =
    IsChecked-bind (item "history" state >>= as_list) _ _
      λ history. IsChecked-bind (item "state" state) _ _ λ previous. record { same = refl }

stale_check-IsChecked :
    (H : Host) (V : Validators) → IsChecked (stale_check H V false) (stale_check H V true)
unfolding stale_check stale_check_of
stale_check-IsChecked H V =
    search (IsChecked-bind, IsChecked-if, recheck-IsChecked, mark-IsChecked) depth 10

step_outcome-dry : (r : Py Step) → step_outcome (dry r) ≡ unwritten (step_outcome r)
unfolding dry
step_outcome-dry (ok step) = refl
step_outcome-dry (raise e) = refl

current-unwritten :
    (H : Host) (V : Validators) (state : Fields) (ms : Py (List String))
    → advance_current H V true state ms ≡ unwritten (advance_current H V false state ms)
current-unwritten H V state (raise e) = refl
current-unwritten H V state (ok []) =
    ap step_outcome (advance_state-IsDry H V state).same
    ∙ step_outcome-dry (advance_state H V state false)
current-unwritten H V state (ok (m ∷ ms)) = (stale_check-IsChecked H V).same

loaded-unwritten :
    (H : Host) (V : Validators) (state : Py Fields)
    → advance_loaded H V true state ≡ unwritten (advance_loaded H V false state)
loaded-unwritten H V (raise e) = refl
loaded-unwritten H V (ok state) = current-unwritten H V state (dependency_mismatches H V state)

pub advance_once-check :
    (H : Host) (V : Validators)
    → ((advance_once H V true).result ≡ (advance_once H V false).result)
      × ((advance_once H V true).written ≡ none)
unfolding advance_once
advance_once-check H V =
    let e = loaded-unwritten H V (load_state H) in (ap (λ o. o.result) e, ap (λ o. o.written) e)
