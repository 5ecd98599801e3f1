-- ===== src/Kernel/CommandLine/Exits.antt =====
-- What the exit code 0 of `finalize` and of `handoff` means.
use cumcm.Base.{
  suc, String, ◌≡◌, ◌≢◌, refl, sym, ap, ◌∙◌, Bool, true, false, Option, none, some, [], get_elem?,
  eq_iff, if◌then◌else◌, arith,
}
use mathlib.Core.Path.{subst}
use cumcm.Py.Exn.{
  Exn, Py, ok, raise, value_error, type_error, key_error, attribute_error, os_error, json_error,
  overflow_error, file_exists_error, >>=-eq-ok, ok-injective,
}
use cumcm.Py.Value.{Value, str, str-injective, Fields, is_text, lookup}
use cumcm.Py.Dict.{get, item, or_null}
use cumcm.Kernel.Tables.{states}
use cumcm.Kernel.Host.{Host}
use cumcm.Kernel.Load.{load_state}
use cumcm.Kernel.Stale.{dependency_mismatches}
use cumcm.Kernel.Transition.{index_of}
use cumcm.Kernel.Validators.{Validators}
use cumcm.Kernel.Advance.{advance_once}
use cumcm.Kernel.Advance.Order.{advance_once-IsNext}
use cumcm.Kernel.Advance.CheckMode.{advance_once-check}
use cumcm.Kernel.Advance.Writes.{advance_once-saves}
use cumcm.Kernel.CommandLine.{
  Command, Externals, Report, error_report, handled, answer, main, advance_at, advance_from_state,
  validate_answer, loaded_state, unwritten,
}

error_report-exit : (X : Externals) (e : Exn) → (error_report X e).exit_code ≢ 0
unfolding error_report
error_report-exit X (value_error m) h = omega arith
error_report-exit X type_error h = omega arith
error_report-exit X key_error h = omega arith
error_report-exit X attribute_error h = omega arith
error_report-exit X overflow_error h = omega arith
error_report-exit X os_error h = omega arith
error_report-exit X json_error h = omega arith
error_report-exit X file_exists_error h = omega arith

-- A command with the exit code 0 has raised nothing.
handled-ok :
    (X : Externals) (m : Py Report) → (handled X m).exit_code ≡ 0 → (r : Report) × (m ≡ ok r)
handled-ok X (ok r) h = (r, refl)
handled-ok X (raise e) h = absurd (error_report-exit X e h)

is_text-eq : (v : Value) (s : String) → is_text v s ≡ true → v ≡ str s
is_text-eq (str t) s h = ground (arith, eq_iff t s)
is_text-eq _ s h = cc

item_lem :
    (found : Option Value) (v : Value)
    → elim found [ none ↦ raise key_error | some w ↦ ok w ] ≡ ok v
    → or_null found ≡ v
item_lem none v h = cc
item_lem (some w) v h = ok-injective w v h

item-get : (k : String) (fs : Fields) (v : Value) → item k fs ≡ ok v → get k fs ≡ v
item-get k fs v h = item_lem (lookup k fs) v h

-- A step that was made from the state `required` to the state `next`.
pub record IsStepFrom (H : Host) (V : Validators) (required next : String) (check : Bool)
    (written : Option Fields) : Type 0 where
  pub before : Fields
  pub after : Fields
  pub loaded : load_state H ≡ ok before
  pub current : dependency_mismatches H V before ≡ ok []
  pub returned : (advance_once H V check).result ≡ ok after
  pub from : get "state" before ≡ str required
  pub to : get "state" after ≡ str next
  pub saved : written ≡ (if check then none else some after)

module _ (H : Host) (V : Validators) (required next code : String) where
  written_lem :
      (check : Bool) (after : Fields)
      → (advance_once H V check).result ≡ ok after
      → (advance_once H V check).written ≡ (if check then none else some after)
  written_lem true after h = (advance_once-check H V).1
  written_lem false after h = advance_once-saves H V after h

  next_lem : (t : String) → some t ≡ some next → t ≡ next
  next_lem t h = cc

  validate_answer-IsStepFrom :
      (check : Bool) (before : Fields) (state : Value) (r : Report)
      → load_state H ≡ ok before
      → get "state" before ≡ state
      → is_text state required ≡ true
      → (validate_answer H V check).report ≡ ok r
      → get_elem? states (suc (index_of required states)) ≡ some next
      → IsStepFrom H V required next check (validate_answer H V check).written
  unfolding validate_answer
  validate_answer-IsStepFrom check before state r l g q h n =
      let (after, made, _) = >>=-eq-ok (advance_once H V check).result _ h in
      let (before', s, t, l', current, from, to, (_, follows)) =
        advance_once-IsNext H V check after made in
      let same : before' ≡ before = ok-injective before' before (sym l' ∙ l) in
      let at' : get "state" before ≡ str required = g ∙ is_text-eq state required q in
      let ss : s ≡ required = str-injective s required (sym from ∙ ap (get "state") same ∙ at') in
      let tt' : t ≡ next =
        next_lem t (sym follows ∙ ap (λ x. get_elem? states (suc (index_of x states))) ss ∙ n) in
      record {
        before = before;
        after = after;
        loaded = l;
        current = subst (λ x. dependency_mismatches H V x ≡ ok []) same current;
        returned = made;
        from = at';
        to = to ∙ ap str tt';
        saved = written_lem check after made;
      }

  branch-IsStepFrom :
      (check : Bool) (before : Fields) (state : Value) (r : Report) (b : Bool)
      → load_state H ≡ ok before
      → get "state" before ≡ state
      → is_text state required ≡ b
      → (if b then validate_answer H V check else unwritten (raise (value_error code))).report
        ≡ ok r
      → get_elem? states (suc (index_of required states)) ≡ some next
      → IsStepFrom H V required next check
          (if b then validate_answer H V check else unwritten (raise (value_error code))).written
  branch-IsStepFrom check before state r true l g q h n =
      validate_answer-IsStepFrom check before state r l g q h n
  branch-IsStepFrom check before state r false l g q h n = cc

  advance_at-IsStepFrom :
      (check : Bool) (m : Py Value) (r : Report)
      → loaded_state H ≡ m
      → (advance_at H V required code check m).report ≡ ok r
      → get_elem? states (suc (index_of required states)) ≡ some next
      → IsStepFrom H V required next check (advance_at H V required code check m).written
  advance_at-IsStepFrom check (raise e) r l h n = cc
  advance_at-IsStepFrom check (ok state) r l h n =
      let (before, lb, i) = >>=-eq-ok (load_state H) (item "state") l in
      branch-IsStepFrom check before state r (is_text state required) lb
        (item-get "state" before state i) refl h n

-- When the command `finalize` exits with 0, the case stood at ROBUSTNESS_VALIDATED with current
-- dependencies, a step has led it to FINAL_CANDIDATE, and the new state is written, or nothing in check mode.
pub main-finalize :
    (H : Host) (V : Validators) (X : Externals) (check : Bool)
    → (main H V X (Command.finalize check)).exit_code ≡ 0
    → IsStepFrom H V "ROBUSTNESS_VALIDATED" "FINAL_CANDIDATE" check
        (answer H V X (Command.finalize check)).written
unfolding main answer advance_from_state
main-finalize H V X check h =
    let (r, e) = handled-ok X (answer H V X (Command.finalize check)).report h in
    advance_at-IsStepFrom H V "ROBUSTNESS_VALIDATED" "FINAL_CANDIDATE" "RC_FINALIZE_STATE_INVALID"
      check (loaded_state H) r refl e refl

-- When the command `handoff` exits with 0, the case stood at EVIDENCE_VALIDATED with current dependencies,
-- a step has led it to READY_FOR_PAPER_HANDOFF, and the new state is written, or nothing in check mode.
pub main-handoff :
    (H : Host) (V : Validators) (X : Externals) (check : Bool)
    → (main H V X (Command.handoff check)).exit_code ≡ 0
    → IsStepFrom H V "EVIDENCE_VALIDATED" "READY_FOR_PAPER_HANDOFF" check
        (answer H V X (Command.handoff check)).written
unfolding main answer advance_from_state
main-handoff H V X check h =
    let (r, e) = handled-ok X (answer H V X (Command.handoff check)).report h in
    advance_at-IsStepFrom H V "EVIDENCE_VALIDATED" "READY_FOR_PAPER_HANDOFF"
      "RC_HANDOFF_STATE_INVALID" check (loaded_state H) r refl e refl
