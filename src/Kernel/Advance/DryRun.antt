-- ===== src/Kernel/Advance/DryRun.antt =====
-- `advance_once` in check mode: it writes nothing, and tells what the call without it would do.
use cumcm.Base.{String, ◌≡◌, refl, Bool, true, false, none, List, if◌then◌else◌}
use cumcm.Py.Exn.{Exn, Py, ok, raise, ◌>>=◌}
use cumcm.Py.Value.{Value, Fields, str}
use cumcm.Py.Dict.{item}
use cumcm.Kernel.Host.{Host}
use cumcm.Kernel.Transition.{Step, record_transition, change, step_of, as_dict, as_list}
use cumcm.Kernel.Validators.{Validators}
use cumcm.Kernel.Advance.Early.{
  from_created, from_intake_complete, from_requirements_validated, from_sources_planned,
  from_data_audited, from_models_proposed, from_plan_validated,
}
use cumcm.Kernel.Advance.Runs.{from_running, from_run_completed}
use cumcm.Kernel.Advance.Late.{
  from_run_validated, from_robustness_validated, from_final_candidate, from_evidence_validated,
}
use cumcm.Kernel.Advance.{late_stage, run_stage, early_stage, advance_from, advance_state}

abbrev pub dry_step : Step → Step
dry_step step = record { updated = step.updated; written = none }

-- The same answer, but nothing is written.
unfoldable pub dry : Py Step → Py Step
dry (ok step) = ok (dry_step step)
dry (raise e) = raise e

pub record IsDry (m n : Py Step) : Type 0 where
  pub same : m ≡ dry n

IsDry-raise : (e : Exn) → IsDry (raise e) (raise e)
unfolding dry
IsDry-raise e = record { same = refl }

IsDry-ok : (step : Step) → IsDry (ok (dry_step step)) (ok step)
unfolding dry
IsDry-ok step = record { same = refl }

IsDry-bind {ℓ} :
    {A : Type ℓ} (m : Py A) (f g : A → Py Step)
    → ((a : A) → IsDry (f a) (g a))
    → IsDry (m >>= f) (m >>= g)
IsDry-bind (ok a) f g h = h a
IsDry-bind (raise e) f g h = IsDry-raise e

IsDry-if :
    (b : Bool) (m m' n n' : Py Step)
    → IsDry m n
    → IsDry m' n'
    → IsDry (if b then m else m') (if b then n else n')
IsDry-if true m m' n n' h k = h
IsDry-if false m m' n n' h k = k

module _ (H : Host) (V : Validators) (state : Fields) where
  step_of-IsDry :
      (next gate : String) (evidence : List String) (previous : String) (bindings : Fields)
      (history : List Value)
      → IsDry
          (ok (step_of H state next gate evidence true previous bindings history))
          (ok (step_of H state next gate evidence false previous bindings history))
  step_of-IsDry next gate evidence previous bindings history =
      IsDry-ok (step_of H state next gate evidence false previous bindings history)

  change-IsDry :
      (next gate : String) (evidence : List String) (previous : String)
      → IsDry
          (change H state next gate evidence true previous)
          (change H state next gate evidence false previous)
  change-IsDry next gate evidence previous =
      IsDry-bind (item "evidence_bindings" state >>= as_dict) _ _ λ bindings.
        IsDry-bind (item "history" state >>= as_list) _ _
          λ history. step_of-IsDry next gate evidence previous bindings history

  move-IsDry :
      (next gate : String) (evidence : List String)
      → IsDry
          (record_transition H state next gate evidence true)
          (record_transition H state next gate evidence false)
  unfolding record_transition
  move-IsDry next gate evidence = search (IsDry-bind, change-IsDry)

  ruleset dry_rules = (IsDry-raise, IsDry-bind, IsDry-if, move-IsDry)

  from_created-IsDry : IsDry (from_created H V state true) (from_created H V state false)
  unfolding from_created
  from_created-IsDry = search dry_rules depth 12

  from_intake_complete-IsDry :
      IsDry (from_intake_complete H V state true) (from_intake_complete H V state false)
  unfolding from_intake_complete
  from_intake_complete-IsDry = search dry_rules depth 12

  from_requirements_validated-IsDry :
      IsDry
        (from_requirements_validated H V state true)
        (from_requirements_validated H V state false)
  unfolding from_requirements_validated
  from_requirements_validated-IsDry = search dry_rules depth 12

  from_sources_planned-IsDry :
      IsDry (from_sources_planned H V state true) (from_sources_planned H V state false)
  unfolding from_sources_planned
  from_sources_planned-IsDry = search dry_rules depth 12

  from_data_audited-IsDry :
      IsDry (from_data_audited H V state true) (from_data_audited H V state false)
  unfolding from_data_audited
  from_data_audited-IsDry = search dry_rules depth 12

  from_models_proposed-IsDry :
      IsDry (from_models_proposed H V state true) (from_models_proposed H V state false)
  unfolding from_models_proposed
  from_models_proposed-IsDry = search dry_rules depth 12

  from_plan_validated-IsDry :
      IsDry (from_plan_validated H V state true) (from_plan_validated H V state false)
  unfolding from_plan_validated
  from_plan_validated-IsDry = search dry_rules depth 12

  from_running-IsDry : IsDry (from_running H V state true) (from_running H V state false)
  unfolding from_running
  from_running-IsDry = search dry_rules depth 12

  from_run_completed-IsDry :
      IsDry (from_run_completed H V state true) (from_run_completed H V state false)
  unfolding from_run_completed
  from_run_completed-IsDry = search dry_rules depth 12

  from_run_validated-IsDry :
      IsDry (from_run_validated H V state true) (from_run_validated H V state false)
  unfolding from_run_validated
  from_run_validated-IsDry = search dry_rules depth 12

  from_robustness_validated-IsDry :
      IsDry (from_robustness_validated H V state true) (from_robustness_validated H V state false)
  unfolding from_robustness_validated
  from_robustness_validated-IsDry = search dry_rules depth 12

  from_final_candidate-IsDry :
      IsDry (from_final_candidate H V state true) (from_final_candidate H V state false)
  unfolding from_final_candidate
  from_final_candidate-IsDry = search dry_rules depth 12

  from_evidence_validated-IsDry :
      IsDry (from_evidence_validated H V state true) (from_evidence_validated H V state false)
  unfolding from_evidence_validated
  from_evidence_validated-IsDry = search dry_rules depth 12

  late_stage-IsDry :
      (s : String) → IsDry (late_stage H V state true s) (late_stage H V state false s)
  unfolding late_stage
  late_stage-IsDry s = IsDry-if _ _ _ _ _ from_run_validated-IsDry (
      IsDry-if _ _ _ _ _ from_robustness_validated-IsDry (
        IsDry-if _ _ _ _ _ from_final_candidate-IsDry
          (IsDry-if _ _ _ _ _ from_evidence_validated-IsDry (IsDry-raise _))))

  run_stage-IsDry : (s : String) → IsDry (run_stage H V state true s) (run_stage H V state false s)
  unfolding run_stage
  run_stage-IsDry s = IsDry-if _ _ _ _ _ from_models_proposed-IsDry (
      IsDry-if _ _ _ _ _ from_plan_validated-IsDry (
        IsDry-if _ _ _ _ _ from_running-IsDry
          (IsDry-if _ _ _ _ _ from_run_completed-IsDry (late_stage-IsDry s))))

  early_stage-IsDry :
      (s : String) → IsDry (early_stage H V state true s) (early_stage H V state false s)
  unfolding early_stage
  early_stage-IsDry s = IsDry-if _ _ _ _ _ from_created-IsDry (
      IsDry-if _ _ _ _ _ from_intake_complete-IsDry (
        IsDry-if _ _ _ _ _ from_requirements_validated-IsDry (
          IsDry-if _ _ _ _ _ from_sources_planned-IsDry
            (IsDry-if _ _ _ _ _ from_data_audited-IsDry (run_stage-IsDry s)))))

  advance_from-IsDry :
      (v : Value) → IsDry (advance_from H V state true v) (advance_from H V state false v)
  unfolding advance_from
  advance_from-IsDry (str s) = early_stage-IsDry s
  advance_from-IsDry _ = IsDry-raise _

  pub advance_state-IsDry : IsDry (advance_state H V state true) (advance_state H V state false)
  unfolding advance_state
  advance_state-IsDry = IsDry-bind _ _ _ advance_from-IsDry
