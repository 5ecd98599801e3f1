-- ===== src/Kernel/Tests.antt =====
-- A case on a small host, and the theorems of the kernel at it.
mod Modes
mod Contracts
mod Choices
mod Finals
mod Semantics
mod Captures
mod Commands
mod Series
mod Runs
use cumcm.Base.{
  ℕ, String, ◌≡◌, refl, sym, ◌∙◌, Bool, true, false, ◌||◌, eqb, Option, none, some, List, suc, [],
  ◌∷◌, ◌==◌, same_set, get_elem?, length, contains, if◌then◌else◌,
}
use cumcm.Py.Exn.{Py, ok, raise, value_error, os_error}
use cumcm.Py.Value.{Value, null, str, int, pos, list, dict, nil, cons, Fields, end, fields, eq}
use cumcm.Py.Dict.{get, set, update}
use cumcm.Kernel.Tables.{states, transition_gates}
use cumcm.Kernel.Host.{Host, file_hash, canonical_hash}
use cumcm.Kernel.Gate.{GateResult, ContractResult, sorted_set, passed, blocked}
use cumcm.Kernel.Gate.Canonical.{is_sorted, blocked-canonical}
use cumcm.Kernel.State.{text_or_null, history_of}
use cumcm.Kernel.State.Validate.{validate_case_state}
use cumcm.Kernel.Load.{load_state, load_json, read_content, validate_artifact}
use cumcm.Kernel.Validators.{Validators}
use cumcm.Kernel.Stale.{dependency_mismatches}
use cumcm.Kernel.Transition.{
  Step, index_of, history_record, moved, first_state, initialize_case, record_transition,
}
use cumcm.Kernel.Transition.Keeps.{IsSha256, Bindable, record_transition-accepted}
use cumcm.Kernel.Transition.Initial.{first_state-accepted, initialize_case-accepted}
use cumcm.Kernel.Transition.Trace.{accepted_history}
use cumcm.Kernel.Advance.{advance_once, advance_state, advance_from, early_stage}
use cumcm.Kernel.Advance.Early.{from_created}
use cumcm.Kernel.Boundary.{key_findings, text_findings, sensitive_findings}
use cumcm.Kernel.Advance.Runs.{entry}
use cumcm.Kernel.Advance.Order.{IsNext, last_evidence, advance_once-IsNext, advance_once-accepted}

abbrev zeros : String
zeros = "0000000000000000000000000000000000000000000000000000000000000000"

abbrev requirements_path : String
requirements_path = "problem/problem_requirements.json"

abbrev requirements : Value
requirements = dict (
    fields (
      ("artifact_type", str "problem_requirements")
      ∷ ("status", str "ACCEPTED")
      ∷ ("content_hash", str zeros)
      ∷ (
        "content",
        dict (
            fields (
              ("case_id", str "CASE-001")
              ∷ (
                "requirements",
                list (cons (dict (fields (("requirement_id", str "R1") ∷ []))) nil),
              )
              ∷ [])),
      )
      ∷ []))

abbrev start : Fields
start = first_state "CASE-001" "prediction"

abbrev file_bytes : String → List ℕ
file_bytes path = if path == "case_state.json" then 1 ∷ [] else 2 ∷ []

abbrev parse : Fields → List ℕ → Py Value
parse state [] = raise (value_error "JSONDecodeError")
parse state (b ∷ r) = if eqb b 1 then ok (dict state) else ok requirements

abbrev empty_host : Host
empty_host = record {
  is_file = λ path. false;
  exists = λ path. false;
  relative_to_root = λ path. raise (value_error "");
  bytes = file_bytes;
  sha256 = λ b. zeros;
  loads = parse start;
  dumps = λ v. [];
  str_of = λ v. "";
  run_ids = [];
  below_case_root = λ path. true;
  below_cwd = λ path. true;
}

-- The host whose case_state.json holds the state.
abbrev host_at : Fields → Host
host_at state = record {
  is_file = λ path. path == "case_state.json" || path == requirements_path;
  exists = λ path. path == "case_state.json" || path == requirements_path;
  relative_to_root = λ path. raise (value_error "");
  bytes = file_bytes;
  sha256 = λ b. zeros;
  loads = parse state;
  dumps = λ v. [];
  str_of = λ v. "";
  run_ids = [];
  below_case_root = λ path. true;
  below_cwd = λ path. true;
}

abbrev host : Host
host = host_at start

abbrev no_gate : Py GateResult
no_gate = raise os_error

abbrev validators : Validators
validators = record {
  trusted_freezes = raise os_error;
  validate_manifest = λ m f. no_gate;
  preflight_output_contract = raise os_error;
  validate_comparison = λ a f. no_gate;
  validate_robustness = λ a b. no_gate;
  validate_final_result = λ a b. no_gate;
  validate_claim = λ a b c f. no_gate;
  validate_handoff = λ a f. no_gate;
}

abbrev started : List Value
started = history_record 0 null "CREATED" "INIT" "PASS" [] ∷ []

abbrev intake_record : Value
intake_record =
    history_record 1 (str "CREATED") "INTAKE_COMPLETE" "GATE_PROBLEM_INTAKE" "PASS"
      (requirements_path ∷ [])

-- The state behind the intake gate.
abbrev intake : Fields
intake =
    moved start "INTAKE_COMPLETE" "GATE_PROBLEM_INTAKE"
      (fields ((requirements_path, str zeros) ∷ []))
      (history_record 0 null "CREATED" "INIT" "PASS" [] ∷ intake_record ∷ [])

initialized : initialize_case empty_host "CASE-001" "prediction" ≡ ok start
unfolding initialize_case cumcm.Py.Text.is_case_id
initialized = refl

digests : (state : Fields) → IsSha256 (host_at state)
unfolding cumcm.Py.Text.hex64
digests state = record { hex = λ b. refl }

bindable : (state : Fields) → Bindable (host_at state) (requirements_path ∷ [])
unfolding cumcm.Kernel.Host.relative_case_path cumcm.Kernel.Boundary.key_findings
    cumcm.Kernel.Boundary.text_findings
bindable state = record { relative = refl; clean_keys = (refl, tt); clean_texts = (refl, tt) }

stepped :
    record_transition host start "INTAKE_COMPLETE" "GATE_PROBLEM_INTAKE"
      (requirements_path ∷ [])
      false
    ≡ ok (record { updated = intake; written = some intake })
unfolding record_transition cumcm.Py.Dict.update cumcm.Kernel.Host.file_hash cumcm.Py.Dict.set
stepped = refl

-- The initial state of this case is accepted on the host without files.
initialize_case-accepted_example :
    validate_case_state empty_host (dict start) ≡ ok (passed "RC_CASE_STATE_VALID")
initialize_case-accepted_example =
    initialize_case-accepted empty_host "CASE-001" "prediction" start initialized

start_accepted :
    (state : Fields)
    → validate_case_state (host_at state) (dict start) ≡ ok (passed "RC_CASE_STATE_VALID")
unfolding cumcm.Py.Text.is_case_id
start_accepted state = first_state-accepted (host_at state) "CASE-001" "prediction" refl refl

record_transition-accepted_example :
    validate_case_state host (dict intake) ≡ ok (passed "RC_CASE_STATE_VALID")
unfolding transition_gates passed
record_transition-accepted_example =
    record_transition-accepted host start "INTAKE_COMPLETE" "GATE_PROBLEM_INTAKE"
      (requirements_path ∷ []) false (record { updated = intake; written = some intake })
      (passed "RC_CASE_STATE_VALID") (digests start) (bindable start) (start_accepted start) refl
      refl stepped

loaded : load_state host ≡ ok start
unfolding load_state cumcm.Kernel.Load.load_json passed
loaded = rw (start_accepted start) refl

current : dependency_mismatches host validators start ≡ ok []
unfolding dependency_mismatches cumcm.Kernel.Stale.file_mismatches
    cumcm.Kernel.Stale.manifest_bindings sorted_set
current = refl

ran :
    advance_state host validators start false
    ≡ ok (record { updated = intake; written = some intake })
unfolding advance_state advance_from early_stage from_created read_content load_json
    validate_artifact canonical_hash key_findings text_findings sensitive_findings passed
    record_transition update file_hash set eq
ran = refl

advanced : (advance_once host validators false).result ≡ ok intake
unfolding advance_once
advanced = rw (loaded, current, ran) refl

evidence_safe : Bindable host (last_evidence intake)
unfolding last_evidence set
evidence_safe = bindable start

advance_once-IsNext_example :
    (fs : Fields) × (s : String) × (t : String) × (load_state host ≡ ok fs)
    × (dependency_mismatches host validators fs ≡ ok [])
    × (get "state" fs ≡ str s)
    × (get "state" intake ≡ str t)
    × IsNext s t
advance_once-IsNext_example = advance_once-IsNext host validators false intake advanced

advance_once-accepted_example :
    validate_case_state host (dict intake) ≡ ok (passed "RC_CASE_STATE_VALID")
advance_once-accepted_example =
    advance_once-accepted host validators false intake (digests start) evidence_safe advanced

-- The second record of the history behind the intake gate.
accepted_history_example :
    (t : String) × (length (history_of (get "history" intake))
      ≡ suc (index_of "INTAKE_COMPLETE" states))
    × (get_elem? states 1 ≡ some t)
    × (eq (entry "sequence" intake_record) (int (pos 1)) ≡ true)
    × (entry "to" intake_record ≡ str t)
    × (entry "gate" intake_record ≡ text_or_null (transition_gates t))
    × (entry "status" intake_record ≡ str "PASS")
unfolding passed set
accepted_history_example =
    accepted_history host intake (passed "RC_CASE_STATE_VALID") "INTAKE_COMPLETE" 1 intake_record
      record_transition-accepted_example refl refl refl refl

blocked-canonical_example :
    (blocked ("B" ∷ "A" ∷ "B" ∷ []) ≡ blocked ("A" ∷ "B" ∷ []))
    × (is_sorted (blocked ("B" ∷ "A" ∷ "B" ∷ [])).reason_codes ≡ true)
    × (contains (blocked ("B" ∷ "A" ∷ "B" ∷ [])).reason_codes "B"
        ≡ contains ("B" ∷ "A" ∷ "B" ∷ []) "B")
    × ((blocked ("B" ∷ "A" ∷ "B" ∷ [])).accepted ≡ false)
blocked-canonical_example = blocked-canonical ("B" ∷ "A" ∷ "B" ∷ []) ("A" ∷ "B" ∷ []) "B" refl
