-- ===== src/Kernel/Validators.antt =====
-- The gates that a case passes and that have no definition here yet: those over run manifests,
-- comparisons, robustness, final results, claims and the handoff. The models of `advance_once` and
-- `dependency_mismatches` hold for every choice of them.
use cumcm.Base.{String}
use cumcm.Py.Exn.{Py}
use cumcm.Py.Value.{Value, Fields}
use cumcm.Kernel.Gate.{GateResult}

pub record Validators : Type 0 where
  pub trusted_freezes : Py Fields
  pub validate_manifest : Value → Fields → Py GateResult
  -- `preflight_output_contract`, with the relative path of the probe.
  pub preflight_output_contract : Py (GateResult × String)
  pub validate_comparison : Value → Fields → Py GateResult
  pub validate_robustness : Value → Value → Py GateResult
  pub validate_final_result : Value → Value → Py GateResult
  pub validate_claim : Value → Value → Value → Fields → Py GateResult
  pub validate_handoff : Value → Fields → Py GateResult
