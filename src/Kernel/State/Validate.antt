-- ===== src/Kernel/State/Validate.antt =====
-- `validate_case_state`: which contents of case_state.json the kernel accepts.
use cumcm.Base.{
  String, Bool, true, false, not, ◌&&◌, ◌||◌, List, [], ◌∷◌, ◌++◌, eqb, length, last?, subset,
  same_set,
}
use cumcm.Py.Exn.{Py, ok, ◌>>=◌}
use cumcm.Py.Value.{Value, dict, Fields, keys, is_text}
use cumcm.Py.Dict.{get}
use cumcm.Kernel.Gate.{GateResult, blocked}
use cumcm.Kernel.Boundary.{sensitive_findings, code_unless, verdict}
use cumcm.Kernel.Host.{Host}
use cumcm.Kernel.State.{
  identity_ok, bindings_of, bindings_codes, history_of, is_terminal, normal_history,
  expected_states, records_ok, records_evidence, terminal_record, terminal_codes, terminal_evidence,
  stale_gate_codes, last_is_current, last_gate_ok, stale_ok, allowed_fields, option_list,
}

abbrev pub is_nil : List Value → Bool
is_nil [] = true
is_nil (x ∷ xs) = false

-- The checks of the history that do not look at its last record's gate.
unfoldable pub history_codes : Value → List Value → List String
history_codes current history =
    let normal = normal_history current history in
    let expected = expected_states (last? normal) in
    code_unless
      (not (is_nil history)
        && eqb (length normal) (length expected)
        && (is_terminal current || last_is_current current (last? normal))
        && records_ok expected 0 normal)
      "RC_CASE_STATE_HISTORY_INVALID"
    ++ terminal_codes current history (terminal_record current history)

unfoldable pub history_evidence : Value → List Value → List String
history_evidence current history =
    let normal = normal_history current history in
    records_evidence (expected_states (last? normal)) 0 normal
    ++ option_list (terminal_evidence current history (terminal_record current history))

abbrev pub stale_codes : Host → Value → List Value → Fields → List String
stale_codes H current history fs =
    code_unless
      (not (is_text current "STALE")
        || stale_ok H (terminal_evidence current history (terminal_record current history))
            (get "stale" fs))
      "RC_CASE_STATE_STALE_RECORD_INVALID"

unfoldable pub state_codes : Host → Fields → List String → List String
state_codes H fs gate_codes =
    let current = get "state" fs in
    let bindings = get "evidence_bindings" fs in
    let history = history_of (get "history" fs) in
    sensitive_findings (dict fs)
    ++ (code_unless (same_set (keys fs) (allowed_fields current)) "RC_CASE_STATE_FIELDS_INVALID"
        ++ (code_unless (identity_ok fs) "RC_CASE_STATE_IDENTITY_INVALID"
            ++ (bindings_codes H bindings
                ++ (history_codes current history
                    ++ (gate_codes
                        ++ (code_unless
                              (subset (history_evidence current history)
                                (keys (bindings_of bindings)))
                              "RC_CASE_STATE_EVIDENCE_CHAIN_INCOMPLETE"
                            ++ (code_unless (last_gate_ok (get "last_gate" fs) (last? history))
                                  "RC_CASE_STATE_LAST_GATE_INVALID"
                                ++ stale_codes H current history fs)))))))

unfoldable pub validate_case_state : Host → Value → Py GateResult
validate_case_state H (dict fs) =
    let current = get "state" fs in
    let history = history_of (get "history" fs) in
    stale_gate_codes current (terminal_record current history) >>= λ gate_codes.
    ok (verdict (state_codes H fs gate_codes) "RC_CASE_STATE_VALID")
validate_case_state H _ = ok (blocked ("RC_CASE_STATE_INVALID" ∷ []))
