-- ===== src/Kernel/Tests/Modes.antt =====
-- The boundary, check mode, and a second step, at concrete inputs.
use cumcm.Base.{◌≡◌, refl, true, false, some, [], ◌∷◌, ◌↔◌, ◌^◌, contains}
use cumcm.Py.Exn.{ok, raise, overflow_error}
use cumcm.Py.Value.{
  Value, null, str, int, pos, nonfinite, inf, list, dict, nil, cons, Fields, fields, eq,
}
use cumcm.Py.Dict.{get, set, update}
use cumcm.Kernel.Tables.{transition_gates}
use cumcm.Kernel.Host.{file_hash, canonical_hash}
use cumcm.Kernel.Gate.{sorted_set, passed, blocked}
use cumcm.Kernel.Boundary.{
  key_findings, text_findings, sensitive_findings, context_codes, boundary_validate,
  contains_strict_score, exceeds_float,
}
use cumcm.Kernel.Boundary.Accepted.{IsAdmissible, boundary_validate-IsAdmissible}
use cumcm.Kernel.State.Validate.{validate_case_state}
use cumcm.Kernel.Load.{load_state, load_json, read_content, validate_artifact}
use cumcm.Kernel.Stale.{dependency_mismatches, file_mismatches, manifest_bindings, is_mismatch}
use cumcm.Kernel.Stale.Detect.{dependency_mismatches-contains}
use cumcm.Kernel.Transition.{record_transition, history_record, moved}
use cumcm.Kernel.Transition.Keeps.{record_transition-accepted}
use cumcm.Kernel.Advance.{advance_once, advance_state, advance_from, early_stage}
use cumcm.Kernel.Advance.Early.{from_intake_complete}
use cumcm.Kernel.Advance.Writes.{IsSaved, advance_once-written, advance_once-saves}
use cumcm.Kernel.Advance.Current.{advance_once-current}
use cumcm.Kernel.Tests.{
  zeros, requirements_path, start, intake, intake_record, host, host_at, empty_host, validators,
  digests, bindable, start_accepted, loaded, current, ran, advanced,
}

abbrev bound : Fields
bound = fields ((requirements_path, str zeros) ∷ [])

abbrev next_record : Value
next_record =
    history_record 2 (str "INTAKE_COMPLETE") "REQUIREMENTS_VALIDATED" "GATE_REQUIREMENT_COVERAGE"
      "PASS" (requirements_path ∷ [])

-- The state behind the requirements gate.
abbrev pub covered : Fields
covered =
    moved intake "REQUIREMENTS_VALIDATED" "GATE_REQUIREMENT_COVERAGE" bound
      (history_record 0 null "CREATED" "INIT" "PASS" [] ∷ intake_record ∷ next_record ∷ [])

next_stepped :
    record_transition
      (host_at intake)
      start
      "INTAKE_COMPLETE"
      "GATE_PROBLEM_INTAKE"
      (requirements_path ∷ [])
      false
    ≡ ok (record { updated = intake; written = some intake })
unfolding record_transition update file_hash set
next_stepped = refl

intake_accepted :
    validate_case_state (host_at intake) (dict intake) ≡ ok (passed "RC_CASE_STATE_VALID")
unfolding transition_gates passed
intake_accepted =
    record_transition-accepted (host_at intake) start "INTAKE_COMPLETE" "GATE_PROBLEM_INTAKE"
      (requirements_path ∷ []) false (record { updated = intake; written = some intake })
      (passed "RC_CASE_STATE_VALID") (digests intake) (bindable intake) (start_accepted intake) refl
      refl next_stepped

pub next_loaded : load_state (host_at intake) ≡ ok intake
unfolding load_state load_json passed
next_loaded = rw intake_accepted refl

next_current : dependency_mismatches (host_at intake) validators intake ≡ ok []
unfolding dependency_mismatches file_mismatches manifest_bindings sorted_set is_mismatch file_hash
    set eq cumcm.Kernel.Stale.is_manifest_path
next_current = refl

next_ran :
    advance_state (host_at intake) validators intake false
    ≡ ok (record { updated = covered; written = some covered })
unfolding advance_state advance_from early_stage from_intake_complete read_content load_json
    validate_artifact canonical_hash key_findings text_findings sensitive_findings passed
    record_transition update file_hash set eq
next_ran = refl

pub next_advanced : (advance_once (host_at intake) validators false).result ≡ ok covered
unfolding advance_once
next_advanced = rw (next_loaded, next_current, next_ran) refl

saved : (advance_once host validators false).written ≡ some intake
unfolding advance_once
saved = rw (loaded, current, ran) refl

advance_once-written_example : IsSaved (advance_once host validators false).result intake
advance_once-written_example = advance_once-written host validators intake saved

advance_once-saves_example : (advance_once host validators false).written ≡ some intake
advance_once-saves_example = advance_once-saves host validators intake advanced

get_bound : get "evidence_bindings" intake ≡ dict bound
unfolding set
get_bound = refl

advance_once-current_example :
    ((host_at intake).is_file requirements_path ≡ true)
    × (eq (str (file_hash (host_at intake) requirements_path)) (str zeros) ≡ true)
advance_once-current_example =
    advance_once-current (host_at intake) validators false intake covered bound requirements_path
      (str zeros) next_loaded get_bound refl next_advanced

-- Without its files the same state has a mismatch.
lost : dependency_mismatches empty_host validators intake ≡ ok (requirements_path ∷ [])
unfolding dependency_mismatches file_mismatches manifest_bindings sorted_set is_mismatch set
    cumcm.Kernel.Stale.is_manifest_path cumcm.Kernel.Gate.insert_text
lost = refl

is_lost : is_mismatch empty_host requirements_path (str zeros) ≡ true
unfolding is_mismatch
is_lost = refl

dependency_mismatches-contains_example : contains (requirements_path ∷ []) requirements_path ≡ true
dependency_mismatches-contains_example =
    dependency_mismatches-contains empty_host validators intake bound (requirements_path ∷ [])
      requirements_path (str zeros) get_bound refl is_lost lost

abbrev report : Value
report = dict (fields (("name", str "run") ∷ ("scores", list (cons (int (pos 3)) nil)) ∷ []))

-- The score 3 is found, 10 ^ 400 is too large for a float, and an infinity is no score.
report_scored : contains_strict_score report ≡ ok true
unfolding contains_strict_score exceeds_float
report_scored = refl

huge_raises : contains_strict_score (int (pos (10 ^ 400))) ≡ raise overflow_error
unfolding contains_strict_score exceeds_float
huge_raises = refl

infinity_unscored : contains_strict_score (list (cons (nonfinite inf) nil)) ≡ ok false
unfolding contains_strict_score
infinity_unscored = refl

abbrev context : Value
context = dict (
    fields (
      ("stage", str "DATA_AUDIT")
      ∷ ("enabled_components", list (cons (str "claim-evidence-support-gate") nil))
      ∷ ("execution_scope", str "CASE")
      ∷ []))

boundary_validate-IsAdmissible_example :
    ((boundary_validate report context).accepted ≡ true) ↔ IsAdmissible report context
boundary_validate-IsAdmissible_example = boundary_validate-IsAdmissible report context

report_accepted : (boundary_validate report context).accepted ≡ true
unfolding boundary_validate context_codes key_findings text_findings sensitive_findings passed
    cumcm.Kernel.Host.json_safe
report_accepted = refl

infinity_rejected :
    (boundary_validate (dict (fields (("score", nonfinite inf) ∷ []))) context).accepted ≡ false
unfolding boundary_validate context_codes key_findings text_findings sensitive_findings blocked
    cumcm.Kernel.Host.json_safe
infinity_rejected = refl
