-- ===== src/Kernel/Advance/Moves.antt =====
-- Every stage of `advance_once` that returns has made one step of `record_transition`, with the gate
-- that `TRANSITION_GATES` has for its target.
use cumcm.Base.{String, ◌≡◌, Bool, some, List}
use cumcm.Py.Exn.{ok}
use cumcm.Py.Returns.{Returns, Returns-raise, Returns-bind, Returns-if}
use cumcm.Py.Value.{Value, Fields, str}
use cumcm.Kernel.Tables.{transition_gates}
use cumcm.Kernel.Host.{Host}
use cumcm.Kernel.Transition.{Step, record_transition}
use cumcm.Kernel.Validators.{Validators}
use cumcm.Kernel.Advance.Early.{
  from_created, from_intake_complete, from_requirements_validated, from_sources_planned,
  from_data_audited, from_models_proposed, from_plan_validated,
}
use cumcm.Kernel.Advance.Runs.{from_running, from_run_completed}
use cumcm.Kernel.Advance.Late.{
  from_run_validated, from_robustness_validated, from_final_candidate, from_evidence_validated,
}
use cumcm.Kernel.Advance.{late_stage, run_stage, early_stage, advance_from, advance_state}

module _ (H : Host) (state : Fields) (check : Bool) where
  pub record IsMove (step : Step) : Type 0 where
    pub next : String
    pub gate : String
    pub evidence : List String
    pub gated : transition_gates next ≡ some gate
    pub moved : record_transition H state next gate evidence check ≡ ok step

  move :
      (next gate : String) (evidence : List String)
      → transition_gates next ≡ some gate
      → Returns IsMove (record_transition H state next gate evidence check)
  move next gate evidence g = record {
    at = λ step h. record { next = next; gate = gate; evidence = evidence; gated = g; moved = h };
  }

ruleset stage_rules = (Returns-raise, Returns-bind, Returns-if, move)

module _ (H : Host) (V : Validators) (state : Fields) (check : Bool) where
  from_created-IsMove : Returns (IsMove H state check) (from_created H V state check)
  unfolding from_created transition_gates
  from_created-IsMove = search stage_rules depth 12

  from_intake_complete-IsMove :
      Returns (IsMove H state check) (from_intake_complete H V state check)
  unfolding from_intake_complete transition_gates
  from_intake_complete-IsMove = search stage_rules depth 12

  from_requirements_validated-IsMove :
      Returns (IsMove H state check) (from_requirements_validated H V state check)
  unfolding from_requirements_validated transition_gates
  from_requirements_validated-IsMove = search stage_rules depth 12

  from_sources_planned-IsMove :
      Returns (IsMove H state check) (from_sources_planned H V state check)
  unfolding from_sources_planned transition_gates
  from_sources_planned-IsMove = search stage_rules depth 12

  from_data_audited-IsMove : Returns (IsMove H state check) (from_data_audited H V state check)
  unfolding from_data_audited transition_gates
  from_data_audited-IsMove = search stage_rules depth 12

  from_models_proposed-IsMove :
      Returns (IsMove H state check) (from_models_proposed H V state check)
  unfolding from_models_proposed transition_gates
  from_models_proposed-IsMove = search stage_rules depth 12

  from_plan_validated-IsMove : Returns (IsMove H state check) (from_plan_validated H V state check)
  unfolding from_plan_validated transition_gates
  from_plan_validated-IsMove = search stage_rules depth 12

  from_running-IsMove : Returns (IsMove H state check) (from_running H V state check)
  unfolding from_running transition_gates
  from_running-IsMove = search stage_rules depth 12

  from_run_completed-IsMove : Returns (IsMove H state check) (from_run_completed H V state check)
  unfolding from_run_completed transition_gates
  from_run_completed-IsMove = search stage_rules depth 12

  from_run_validated-IsMove : Returns (IsMove H state check) (from_run_validated H V state check)
  unfolding from_run_validated transition_gates
  from_run_validated-IsMove = search stage_rules depth 12

  from_robustness_validated-IsMove :
      Returns (IsMove H state check) (from_robustness_validated H V state check)
  unfolding from_robustness_validated transition_gates
  from_robustness_validated-IsMove = search stage_rules depth 12

  from_final_candidate-IsMove :
      Returns (IsMove H state check) (from_final_candidate H V state check)
  unfolding from_final_candidate transition_gates
  from_final_candidate-IsMove = search stage_rules depth 12

  from_evidence_validated-IsMove :
      Returns (IsMove H state check) (from_evidence_validated H V state check)
  unfolding from_evidence_validated transition_gates
  from_evidence_validated-IsMove = search stage_rules depth 12

  late_stage-IsMove : (s : String) → Returns (IsMove H state check) (late_stage H V state check s)
  unfolding late_stage
  late_stage-IsMove s =
      search
        (
          Returns-raise, Returns-if, from_run_validated-IsMove, from_robustness_validated-IsMove,
          from_final_candidate-IsMove, from_evidence_validated-IsMove,
        )
        depth 8

  run_stage-IsMove : (s : String) → Returns (IsMove H state check) (run_stage H V state check s)
  unfolding run_stage
  run_stage-IsMove s = Returns-if _ _ _ from_models_proposed-IsMove (
      Returns-if _ _ _ from_plan_validated-IsMove (
        Returns-if _ _ _ from_running-IsMove
          (Returns-if _ _ _ from_run_completed-IsMove (late_stage-IsMove s))))

  early_stage-IsMove : (s : String) → Returns (IsMove H state check) (early_stage H V state check s)
  unfolding early_stage
  early_stage-IsMove s = Returns-if _ _ _ from_created-IsMove (
      Returns-if _ _ _ from_intake_complete-IsMove (
        Returns-if _ _ _ from_requirements_validated-IsMove (
          Returns-if _ _ _ from_sources_planned-IsMove
            (Returns-if _ _ _ from_data_audited-IsMove (run_stage-IsMove s)))))

  advance_from-IsMove :
      (v : Value) → Returns (IsMove H state check) (advance_from H V state check v)
  unfolding advance_from
  advance_from-IsMove (str s) = early_stage-IsMove s
  advance_from-IsMove _ = Returns-raise _

  pub advance_state-IsMove : Returns (IsMove H state check) (advance_state H V state check)
  unfolding advance_state
  advance_state-IsMove = search (Returns-bind, advance_from-IsMove)
