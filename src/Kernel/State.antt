-- ===== src/Kernel/State.antt =====
-- The parts of `validate_case_state`: the tests on the fields, the bindings and the history of
-- case_state.json. `Validate` puts them together, in the order of the code.
pub mod Validate
pub mod Valid
pub mod Pipeline
use cumcm.Base.{
  ℕ, zero, suc, ◌-◌, ◌^◌, String, Bool, true, false, not, ◌&&◌, ◌||◌, Option, none, some, List, [],
  ◌∷◌, ◌++◌, ◌==◌, eqb, leb, ltb, length, get_elem?, any, all, init, last?, contains, subset,
  same_set, if◌then◌else◌, map,
}
use cumcm.Py.Exn.{Py, ok, raise, attribute_error, ◌>>=◌}
use cumcm.Py.Value.{
  Value, null, bool, int, float, str, list, dict, pos, negsuc, Items, nil, cons, Fields, end, field,
  elements, keys, texts, eq, is_text, truthy,
}
use cumcm.Py.Dict.{get}
use cumcm.Py.Text.{hex64, is_case_id}
use cumcm.Kernel.Tables.{
  version, capability, architecture, states, terminal_states, state_fields, transition_gates,
}
use cumcm.Kernel.Gate.{GateResult, passed, blocked, sorted_set}
use cumcm.Kernel.Boundary.{sensitive_findings, code_unless, verdict, all_texts, text_elements}
use cumcm.Kernel.Host.{Host, relative_case_path}

abbrev pub record_fields : List String
record_fields = "sequence" ∷ "from" ∷ "to" ∷ "gate" ∷ "status" ∷ "evidence" ∷ []

abbrev pub text_in : Value → List String → Bool
text_in v xs = any (is_text v) xs

abbrev pub is_case_id_value : Value → Bool
is_case_id_value (str s) = is_case_id s
is_case_id_value _ = false

-- `HEX64.fullmatch(str(v))`: a number of 64 decimal digits passes too.
abbrev pub hex64_value : Value → Bool
hex64_value (str s) = hex64 s
hex64_value (int (pos n)) = leb (10 ^ 63) n && ltb n (10 ^ 64)
hex64_value _ = false

unfoldable pub header_ok : Fields → Bool
header_ok fs =
    is_text (get "schema_version" fs) "1.0.0"
    && is_case_id_value (get "case_id" fs)
    && text_in (get "case_kind" fs) ("prediction" ∷ "optimization" ∷ "general" ∷ [])
    && is_text (get "skill_version" fs) version
    && is_text (get "capability" fs) capability
    && is_text (get "architecture" fs) architecture

unfoldable pub identity_ok : Fields → Bool
identity_ok fs = header_ok fs && text_in (get "state" fs) (states ++ terminal_states)

unfoldable pub bindings_ok : Host → Fields → Bool
bindings_ok H end = true
bindings_ok H (field k v r) = relative_case_path H.below_cwd k && hex64_value v && bindings_ok H r

abbrev pub bindings_of : Value → Fields
bindings_of (dict bs) = bs
bindings_of _ = end

abbrev pub bindings_codes : Host → Value → List String
bindings_codes H (dict bs) =
    code_unless (bindings_ok H bs) "RC_CASE_STATE_EVIDENCE_BINDINGS_INVALID"
bindings_codes H _ = "RC_CASE_STATE_EVIDENCE_BINDINGS_INVALID" ∷ []

abbrev pub history_of : Value → List Value
history_of (list xs) = elements xs
history_of _ = []

abbrev pub is_terminal : Value → Bool
is_terminal v = text_in v terminal_states

-- `history[:-1] if terminal and history else history`
abbrev pub normal_history : Value → List Value → List Value
normal_history current history = if is_terminal current then init history else history

abbrev pub to_of : Value → Value
to_of (dict fs) = get "to" fs
to_of _ = null

-- `STATES[: STATES.index(s) + 1]`
unfoldable pub up_to : String → List String → List String
up_to s [] = []
up_to s (t ∷ r) = if t == s then t ∷ [] else t ∷ up_to s r

abbrev pub expected_from : Value → List String
expected_from (str s) = if contains states s then up_to s states else []
expected_from _ = []

abbrev pub expected_states : Option Value → List String
expected_states none = []
expected_states (some r) = expected_from (to_of r)

abbrev pub text_or_null : Option String → Value
text_or_null none = null
text_or_null (some s) = str s

abbrev pub gate_of : Option String → Value
gate_of none = null
gate_of (some s) = text_or_null (transition_gates s)

abbrev pub is_text_list : Value → Bool
is_text_list (list xs) = all_texts xs
is_text_list _ = false

abbrev pub evidence_of : Value → List String
evidence_of (list xs) = text_elements xs
evidence_of _ = []

unfoldable pub record_ok : Option String → Option String → ℕ → Value → Bool
record_ok previous target index (dict fs) =
    same_set (keys fs) record_fields
    && eq (get "sequence" fs) (int (pos index))
    && eq (get "from" fs) (text_or_null previous)
    && eq (get "to" fs) (text_or_null target)
    && eq (get "gate" fs) (gate_of target)
    && is_text (get "status" fs) "PASS"
    && is_text_list (get "evidence" fs)
record_ok previous target index _ = false

abbrev pub previous_of : List String → ℕ → Option String
previous_of expected zero = none
previous_of expected (suc i) = get_elem? expected i

abbrev pub record_evidence : Value → List String
record_evidence (dict fs) = evidence_of (get "evidence" fs)
record_evidence _ = []

-- The loop over the records before a terminal one: whether all are as expected, and the evidence of
-- those that are.
unfoldable pub records_ok : List String → ℕ → List Value → Bool
records_ok expected i [] = true
records_ok expected i (r ∷ rs) =
    record_ok (previous_of expected i) (get_elem? expected i) i r && records_ok expected (suc i) rs

unfoldable pub records_evidence : List String → ℕ → List Value → List String
records_evidence expected i [] = []
records_evidence expected i (r ∷ rs) =
    (if record_ok (previous_of expected i) (get_elem? expected i) i r
      then record_evidence r
      else [])
    ++ records_evidence expected (suc i) rs

abbrev pub last_to : List Value → Value
last_to normal = elim (last? normal) [ none ↦ null | some r ↦ to_of r ]

unfoldable pub terminal_record_ok : Value → List Value → ℕ → Value → Bool
terminal_record_ok current normal count (dict fs) =
    same_set (keys fs) record_fields
    && eq (get "sequence" fs) (int (pos (count - 1)))
    && eq (get "from" fs) (last_to normal)
    && eq (get "to" fs) current
    && is_text (get "status" fs) "BLOCK"
    && is_text_list (get "evidence" fs)
terminal_record_ok current normal count _ = false

abbrev pub terminal_record : Value → List Value → Option Value
terminal_record current history = if is_terminal current then last? history else none

abbrev pub terminal_codes : Value → List Value → Option Value → List String
terminal_codes current history none = []
terminal_codes current history (some r) =
    code_unless (terminal_record_ok current (normal_history current history) (length history) r)
      "RC_CASE_STATE_HISTORY_INVALID"

-- `terminal_record_evidence`
abbrev pub terminal_evidence : Value → List Value → Option Value → Option (List String)
terminal_evidence current history none = none
terminal_evidence current history (some r) =
    if terminal_record_ok current (normal_history current history) (length history) r
    then some (record_evidence r)
    else none

-- The gate of a STALE record is read outside the test that it is a dictionary.
abbrev pub stale_gate_codes : Value → Option Value → Py (List String)
stale_gate_codes current none = ok []
stale_gate_codes current (some (dict fs)) = ok (
    code_unless (not (is_text current "STALE") || is_text (get "gate" fs) "GATE_STALE_PROPAGATION")
      "RC_CASE_STATE_HISTORY_INVALID")
stale_gate_codes current (some _) = if is_text current "STALE" then raise attribute_error else ok []

abbrev pub last_is_current : Value → Option Value → Bool
last_is_current current (some (dict fs)) = eq (get "to" fs) current
last_is_current current _ = false

abbrev pub last_gate_ok : Value → Option Value → Bool
last_gate_ok gate none = true
last_gate_ok gate (some (dict fs)) = eq gate (get "gate" fs)
last_gate_ok gate (some _) = false

abbrev pub is_list_of : Value → List String → Bool
is_list_of v xs = eq v (list (texts xs))

abbrev pub chain_ok : Host → Option (List String) → Value → Bool
chain_ok H none chain = false
chain_ok H (some evidence) (list xs) =
    let chain = text_elements xs in
    truthy (list xs)
    && all_texts xs
    && all (relative_case_path H.below_cwd) chain
    && is_list_of (list xs) (sorted_set chain)
    && is_list_of (list xs) evidence
chain_ok H (some evidence) _ = false

abbrev pub stale_ok : Host → Option (List String) → Value → Bool
stale_ok H evidence (dict fs) =
    same_set (keys fs) ("reason_code" ∷ "dependency_chain" ∷ [])
    && is_text (get "reason_code" fs) "RC_UPSTREAM_DEPENDENCY_STALE"
    && chain_ok H evidence (get "dependency_chain" fs)
stale_ok H evidence _ = false

abbrev pub allowed_fields : Value → List String
allowed_fields current =
    if is_text current "STALE" then state_fields ++ "stale" ∷ [] else state_fields

abbrev pub option_list : Option (List String) → List String
option_list none = []
option_list (some xs) = xs
