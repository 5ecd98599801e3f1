-- ===== src/Kernel/Load.antt =====
-- Reading a case: `load_json`, `load_state`, `validate_artifact` and `read_artifact`.
use cumcm.Base.{String, ◌<>◌, not, none, some, List, [], ◌∷◌, same_set, if◌then◌else◌}
use cumcm.Py.Exn.{Py, ok, raise, value_error, type_error, key_error, os_error, ◌>>=◌, ◌>>◌, require}
use cumcm.Py.Value.{Value, dict, Fields, is_text, keys, str, eq}
use cumcm.Py.Dict.{get, item}
use cumcm.Kernel.Tables.{artifact_paths, find}
use cumcm.Kernel.Host.{Host, canonical_hash}
use cumcm.Kernel.Gate.{GateResult, blocked}
use cumcm.Kernel.Boundary.{sensitive_findings, verdict}
use cumcm.Kernel.State.Validate.{validate_case_state}

-- `load_json(case_root / path)`
unfoldable pub load_json : Host → String → Py Value
load_json H path = if H.is_file path then H.loads (H.bytes path) else raise os_error

-- `";".join(codes)`
unfoldable pub join : List String → String
join [] = ""
join (c ∷ []) = c
join (c ∷ d ∷ r) = c <> (";" <> join (d ∷ r))

-- `if not result.accepted: raise ValueError(";".join(result.reason_codes))`
abbrev pub accept : GateResult → Py (Unit {0})
accept result = require result.accepted (value_error (join result.reason_codes))

abbrev pub as_fields : Value → Py Fields
as_fields (dict fs) = ok fs
as_fields _ = raise type_error

abbrev pub accept_state : Host → Value → Py Fields
accept_state H value = validate_case_state H value >>= λ result. accept result >> as_fields value

unfoldable pub load_state : Host → Py Fields
load_state H =
    require (H.is_file "case_state.json") (value_error "RC_CASE_STATE_MISSING")
    >> (load_json H "case_state.json" >>= accept_state H)

abbrev artifact_fields : List String
artifact_fields = "artifact_type" ∷ "status" ∷ "content_hash" ∷ "content" ∷ []

abbrev content_verdict : Host → Fields → Value → GateResult
content_verdict H fs (dict content) = elim (canonical_hash H (dict content)) [
  | ok actual ↦
      if eq (get "content_hash" fs) (str actual)
      then verdict (sensitive_findings (dict fs)) "RC_ARTIFACT_ACCEPTED"
      else blocked ("RC_ARTIFACT_HASH_MISMATCH" ∷ [])
  | raise e ↦ blocked ("RC_ARTIFACT_CONTENT_NONFINITE_OR_NONJSON" ∷ [])
]
content_verdict H fs _ = blocked ("RC_ARTIFACT_CONTENT_INVALID" ∷ [])

unfoldable pub validate_artifact : Host → Value → String → GateResult
validate_artifact H (dict fs) kind =
    if not (is_text (get "artifact_type" fs) kind)
    then blocked ("RC_ARTIFACT_TYPE_MISMATCH" ∷ [])
    else if not (is_text (get "status" fs) "ACCEPTED")
    then blocked ("RC_ARTIFACT_NOT_ACCEPTED" ∷ [])
    else if not (same_set (keys fs) artifact_fields)
    then blocked ("RC_ARTIFACT_RECORD_FIELDS_INVALID" ∷ [])
    else content_verdict H fs (get "content" fs)
validate_artifact H _ kind = blocked ("RC_ARTIFACT_RECORD_INVALID" ∷ [])

abbrev pub path_of : String → Py String
path_of key = elim (find key artifact_paths) [ none ↦ raise key_error | some path ↦ ok path ]

-- `read_artifact(case_root, key)["content"]`, which is a dictionary.
unfoldable pub read_content : Host → String → Py Fields
read_content H key = do
  path ← path_of key
  value ← load_json H path
  accept (validate_artifact H value key)
  record' ← as_fields value
  content ← item "content" record'
  as_fields content
