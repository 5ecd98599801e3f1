-- ===== src/Kernel/Runtime/Finalization.antt =====
-- `validate_runtime_finalization`: the final result and the claim evidence are those that follow.
use cumcm.Base.{◌++◌, [], ◌∷◌}
use cumcm.Py.Exn.{
  Py, ok, raise, attribute_error, overflow_error, os_error, file_exists_error, ◌>>=◌,
}
use cumcm.Py.Value.{Value, dict, Fields, eq}
use cumcm.Kernel.Host.{Host}
use cumcm.Kernel.Gate.{ContractResult, contract_result}
use cumcm.Kernel.Contract.{contract_of}
use cumcm.Kernel.Contract.Selection.{unless_code}
use cumcm.Kernel.Runtime.Final.{build_runtime_final_result}
use cumcm.Kernel.Runtime.Evidence.{build_runtime_claim_evidence}

abbrev artifact_invalid : Py ContractResult
artifact_invalid =
    ok (contract_result "BLOCK" ("RC_FINALIZATION_AUTHORITATIVE_ARTIFACT_INVALID" ∷ []))

-- What the two builders give.
unfoldable pub expected : Host → Fields → Fields → Fields → Py (Fields × Fields)
expected H selection_record semantic_record registry =
    build_runtime_final_result H selection_record semantic_record registry >>= λ final.
    build_runtime_claim_evidence H final semantic_record registry >>= λ claim. ok (final, claim)

-- `except (KeyError, TypeError, ValueError)`
abbrev pub compared : Fields → Fields → Py (Fields × Fields) → Py ContractResult
compared final claim (ok (expected_final, expected_claim)) = ok (
    contract_of (
      unless_code (eq (dict final) (dict expected_final))
        "RC_FINAL_RESULT_PORTFOLIO_BINDING_INVALID"
      ++ unless_code (eq (dict claim) (dict expected_claim)) "RC_CLAIM_RUNTIME_BINDING_INVALID"))
compared final claim (raise attribute_error) = raise attribute_error
compared final claim (raise overflow_error) = raise overflow_error
compared final claim (raise os_error) = raise os_error
compared final claim (raise file_exists_error) = raise file_exists_error
compared final claim (raise e) = artifact_invalid

unfoldable pub validate_runtime_finalization :
    Host → Value → Value → Value → Value → Value → Py ContractResult
validate_runtime_finalization H (dict final) (dict claim) (dict selection_record)
      (dict semantic_record) (dict registry) =
    compared final claim (expected H selection_record semantic_record registry)
validate_runtime_finalization H _ _ _ _ _ = artifact_invalid
