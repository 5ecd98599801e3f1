-- ===== src/Kernel/CommandLine.antt =====
-- `main`, `emit` and `command_result`: what each command reports, its exit code, and what it has
-- written to case_state.json. The parser of the arguments and the printed text are left out.
pub mod Exits
use Prim.Native.Char.{code}
use cumcm.Base.{
  ℕ, String, ◌<>◌, Bool, true, false, not, Option, none, some, List, [], ◌∷◌, ◌==◌, eqb, any,
  contains, if◌then◌else◌,
}
use cumcm.Py.Exn.{
  Exn, Py, ok, raise, value_error, type_error, key_error, attribute_error, os_error, json_error,
  overflow_error, file_exists_error, ◌>>=◌, ◌>>◌, require,
}
use cumcm.Py.Value.{Value, null, str, dict, Fields, is_text}
use cumcm.Py.Path.{run_file}
use cumcm.Py.Dict.{get, get_or, item, has}
use cumcm.Kernel.Host.{Host}
use cumcm.Kernel.Gate.{GateResult, ContractResult, blocked, sorted_set}
use cumcm.Kernel.Load.{load_state, load_json, read_content, path_of, validate_artifact}
use cumcm.Kernel.Transition.{initialize_case}
use cumcm.Kernel.Stale.{StaleCheck, stale_check}
use cumcm.Kernel.Contract.Selection.{validate_requirement_selection}
use cumcm.Kernel.Contract.Bundle.{validate_semantic_claim_bundle}
use cumcm.Kernel.Contract.Assessment.{validate_data_sufficiency_record}
use cumcm.Kernel.Runtime.Compatibility.{text_of}
use cumcm.Kernel.Validators.{Validators}
use cumcm.Kernel.Advance.{advance_once}
use cumcm.Kernel.Advance.Runs.{manifest_path}

abbrev pub exit_ok : ℕ
exit_ok = 0

abbrev pub exit_gate : ℕ
exit_gate = 3

abbrev pub exit_stale : ℕ
exit_stale = 4

abbrev pub exit_io : ℕ
exit_io = 6

pub data Command : Type 0 where
  -- The identifier of the case, its kind, and `--dry-run`.
  init : String → String → Bool → Command
  show_status : Command
  -- The Boolean is `--check`.
  validate check_stale finalize handoff : Bool → Command
  check_manifest : String → Command
  -- The path, if one is given.
  check_data check_selection check_semantic check_comparison check_claim : Option String → Command
  preflight_output smoke execute seal_run : Command

-- The commands that run other programs, the templates that `initialize_case` writes, and the text of
-- an exception: `str(exc)` where it has no message here, and the name of its type.
pub record Externals : Type 0 where
  pub write_templates : Py (Unit {0})
  pub run_smoke : Py (Unit {0})
  pub execute_case_code : Py (Unit {0})
  pub seal_captured_run : Py (Unit {0})
  pub message : Exn → String
  pub type_name : Exn → String

-- What is printed of the result, and the exit code.
pub record Report : Type 0 where
  pub status : String
  pub reason_codes : List String
  pub exit_code : ℕ

-- What a command answers or raises, and what it has written.
pub record Answer : Type 0 where
  pub report : Py Report
  pub written : Option Fields

abbrev pub pass_report : Report
pass_report = record { status = "PASS"; reason_codes = []; exit_code = exit_ok }

-- `command_result`
unfoldable pub command_result : GateResult → Report
command_result result = record {
  status = result.status;
  reason_codes = result.reason_codes;
  exit_code =
      if result.accepted
      then exit_ok
      else if result.status == "STALE"
      then exit_stale
      else exit_gate;
}

-- The report on a contract that is accepted with these statuses.
unfoldable pub contract_report : List String → ContractResult → Report
contract_report accepted outcome = record {
  status = outcome.status;
  reason_codes = outcome.reason_codes;
  exit_code = if contains accepted outcome.status then exit_ok else exit_gate;
}

-- `text.split(";")`
abbrev split_into : String → String → List String
split_into part String.[] = part ∷ []
split_into part (String.◌∷◌ c rest) =
    let longer = split_into (part <> String.◌∷◌ c String.[]) rest in
    let fresh = split_into "" rest in if eqb (code c) b';' then part ∷ fresh else longer

abbrev pub codes_of_text : String → List String
codes_of_text text = if text == "" then "RC_INPUT_INVALID" ∷ [] else sorted_set (split_into "" text)

abbrev block_report : List String → ℕ → Report
block_report codes exit = record { status = "BLOCK"; reason_codes = codes; exit_code = exit }

-- The handlers of `main`, by the type of the exception.
unfoldable pub error_report : Externals → Exn → Report
error_report X file_exists_error = block_report ("RC_IMMUTABLE_OUTPUT_ALREADY_EXISTS" ∷ []) exit_io
error_report X os_error =
    block_report (("RC_IO_OR_JSON_ERROR:" <> X.type_name os_error) ∷ []) exit_io
error_report X json_error =
    block_report (("RC_IO_OR_JSON_ERROR:" <> X.type_name json_error) ∷ []) exit_io
error_report X (value_error m) = block_report (codes_of_text m) exit_gate
error_report X type_error = block_report (codes_of_text (X.message type_error)) exit_gate
error_report X key_error = block_report ("RC_INTERNAL_VALIDATION_ERROR" ∷ []) exit_gate
error_report X attribute_error = block_report ("RC_INTERNAL_VALIDATION_ERROR" ∷ []) exit_gate
error_report X overflow_error = block_report ("RC_INTERNAL_VALIDATION_ERROR" ∷ []) exit_gate

abbrev pub unwritten : Py Report → Answer
unwritten report = record { report = report; written = none }

-- A command that has no more to say than that it has run.
abbrev pub ran : Py (Unit {0}) → Answer
ran work = unwritten (work >> ok pass_report)

abbrev init_answer : Externals → Bool → Py Fields → Answer
init_answer X dry_run (raise e) = unwritten (raise e)
init_answer X true (ok state) = unwritten (ok pass_report)
init_answer X false (ok state) = record {
  report = X.write_templates >> ok pass_report;
  written = some state;
}

abbrev pub handled : Externals → Py Report → Report
handled X (ok report) = report
handled X (raise e) = error_report X e

abbrev wrapper : List String
wrapper = "artifact_type" ∷ "status" ∷ "content_hash" ∷ "content" ∷ []

-- `load_state(case_root)["state"]`
abbrev pub loaded_state : Host → Py Value
loaded_state H = load_state H >>= item "state"

module _ (H : Host) (V : Validators) where
  unfoldable pub validate_answer : Bool → Answer
  validate_answer check =
      let outcome = advance_once H V check in
      record { report = outcome.result >>= λ state. ok pass_report; written = outcome.written }

  abbrev stale_answer : Py StaleCheck → Answer
  stale_answer (raise e) = unwritten (raise e)
  stale_answer (ok checked) = record {
    report = ok (command_result checked.result);
    written = checked.written;
  }

  abbrev pub advance_at : String → String → Bool → Py Value → Answer
  advance_at required code check (raise e) = unwritten (raise e)
  advance_at required code check (ok current) =
      if is_text current required
      then validate_answer check
      else unwritten (raise (value_error code))

  -- `finalize` and `handoff`: a step from one state only.
  unfoldable pub advance_from_state : String → String → Bool → Answer
  advance_from_state required code check = advance_at required code check (loaded_state H)

  abbrev pub path_or : String → Option String → Py String
  path_or key none = path_of key
  path_or key (some path) = ok path

  abbrev wrapped : List String → Value → Bool
  wrapped names (dict fs) = any (λ name. has name fs) names
  wrapped names v = false

  abbrev content_of : Value → Value
  content_of (dict fs) = get "content" fs
  content_of v = v

  -- The content of an artifact, or the report on a wrapper that is not valid, or a value without wrapper.
  unfoldable pub with_content :
      String → List String → Option String → (Value → Py Report) → Py Report
  with_content key names path next = path_or key path >>= load_json H >>= λ value.
      if wrapped names value
      then (let result = validate_artifact H value key in
          if result.accepted then next (content_of value) else ok (command_result result))
      else next value

  abbrev data_report : Value → Py Report
  data_report value = do
    requirements ← read_content H "problem_requirements"
    ledger ← read_content H "source_ledger"
    outcome ←
        validate_data_sufficiency_record H value (get "requirements" requirements)
          (get "sources" ledger)
    ok (contract_report ("SUFFICIENT" ∷ "PARTIAL" ∷ []) outcome)

  abbrev comparison_report : Value → Py Report
  comparison_report value = V.trusted_freezes >>= λ freezes.
      V.validate_comparison value freezes >>= λ result. ok (command_result result)

  abbrev claim_manifest : String → Py Value
  claim_manifest path = if H.is_file path then load_json H path else ok null

  abbrev claim_report : Value → Py Report
  claim_report (dict claim) = do
    final ← read_content H "final_result"
    manifest ← claim_manifest (run_file (text_of H (get_or "run_id" (str "") claim)))
    state ← load_state H
    result ← V.validate_claim (dict claim) manifest (dict final) state
    ok (command_result result)
  claim_report v = ok (command_result (blocked ("RC_CLAIM_INVALID" ∷ [])))

  abbrev manifest_report : String → Py Report
  manifest_report path = load_json H path >>= λ manifest. V.trusted_freezes >>= λ freezes.
      V.validate_manifest manifest freezes >>= λ result. ok (command_result result)

module _ (H : Host) (V : Validators) (X : Externals) where
  -- The command inside the `try` of `main`.
  unfoldable pub answer : Command → Answer
  answer (init case_id kind dry_run) = init_answer X dry_run (initialize_case H case_id kind)
  answer show_status = unwritten (load_state H >>= λ state. ok pass_report)
  answer (validate check) = validate_answer H V check
  answer (check_stale check) = stale_answer H V (stale_check H V (not check))
  answer (finalize check) =
      advance_from_state H V "ROBUSTNESS_VALIDATED" "RC_FINALIZE_STATE_INVALID" check
  answer (handoff check) =
      advance_from_state H V "EVIDENCE_VALIDATED" "RC_HANDOFF_STATE_INVALID" check
  answer (check_manifest path) = unwritten (manifest_report H V path)
  answer (check_data path) =
      unwritten (with_content H V "data_sufficiency" ("content" ∷ []) path (data_report H V))
  answer (check_selection path) = unwritten (
      with_content H V "requirement_selection" ("content" ∷ []) path λ value.
        validate_requirement_selection value >>= λ outcome.
        ok (contract_report ("PASS" ∷ []) outcome))
  answer (check_semantic path) = unwritten (
      with_content H V "semantic_claim_support" ("content" ∷ []) path λ value.
        validate_semantic_claim_bundle value >>= λ outcome.
        ok (contract_report ("PASS" ∷ []) outcome))
  answer (check_comparison path) =
      unwritten (with_content H V "model_comparison" wrapper path (comparison_report H V))
  answer (check_claim path) =
      unwritten (with_content H V "claim_evidence" wrapper path (claim_report H V))
  answer preflight_output =
      unwritten (V.preflight_output_contract >>= λ (result, relative). ok (command_result result))
  answer smoke = ran X.run_smoke
  answer execute = ran X.execute_case_code
  answer seal_run = ran X.seal_captured_run

  unfoldable pub main : Command → Report
  main command = handled X (answer command).report
