-- ===== src/Lib.antt =====
-- The evidence kernel of the modelling Skill, .agents/skills/cumcm-modeling-evidence/scripts/cumcm_case.py.
--
-- A case is a directory with case_state.json and one artifact file for each stage. `initialize_case`
-- writes the first state; each call of `advance_once` loads the state, checks that the files it is
-- bound to are unchanged, runs the gate of the current state, and moves the case one place forward in
-- `STATES` by `record_transition`; `stale_check` marks a case STALE once a bound file differs.
--
-- Files, with the code they model:
--   Base, Base/*          Boolean tests, lists.
--   Py/Value, Py/Dict     JSON values as Python has them, `==`, dictionaries in order of insertion.
--   Py/Exn                exceptions; Py/Member `in`; Py/Text texts as lists of code points, `Path.parts`;
--                         Py/Path: the path of a run's manifest.
--   Py/Records            comprehensions over lists of dictionaries, sets of values; Py/Equal: `==` of
--                         dictionaries; Py/Returns: what holds of all values that are returned.
--   Kernel/Tables         the constants. Kernel/Gate: GateResult, passed, blocked, contract_result.
--   Kernel/Boundary       normalize_key, sensitive_findings, boundary_validate, strict_score,
--                         contains_strict_score; Boundary/Safe is about assert_json_safe;
--                         Boundary/Patterns has the regular expressions.
--   Kernel/Host           files, digests, JSON and path resolution as parameters; assert_json_safe,
--                         file_hash, canonical_hash, relative_case_path.
--   Kernel/State          validate_case_state, by its parts. State/Valid takes acceptance apart.
--   Kernel/Load           load_json, load_state, validate_artifact, read_artifact.
--   Kernel/Transition     record_transition, initialize_case.
--   Kernel/Stale          dependency_mismatches, stale_check.
--   Kernel/Advance        advance_once, its stages in Advance/Early, Advance/Runs, Advance/Late.
--   Kernel/Contract       _string_set, validate_runtime_requirements, validate_runtime_sources;
--                         Contract/Sufficiency and Contract/Evaluate: evaluate_data_sufficiency;
--                         Contract/Assessment: validate_data_sufficiency_record;
--                         Contract/Selection: validate_requirement_selection;
--                         Contract/Claims: validate_semantic_claim_support; Contract/Bundle: its bundle,
--                         and validate_evidence_compatibility.
--   Kernel/Runtime        _selected_runtime_run_ids, validate_runtime_run_eligibility,
--                         validate_runtime_selection_compatibility, validate_runtime_aggregate_mapping;
--                         Runtime/Semantic: validate_runtime_semantic_claims;
--                         Runtime/Final, Runtime/Evidence and Runtime/Finalization: the builders of a
--                         final result and of its claim evidence, and validate_runtime_finalization.
--   Kernel/CommandLine    main: each command with its exit code and what it writes; command_result.
--   Kernel/Validators     the gates over manifests, comparisons, results, claims and handoff.
--   Kernel/Tests          the theorems at a small case.
--
-- Parameters. `Host` stands for the files of one case directory while one command runs, with
-- `hashlib.sha256`, `json` and path resolution: nothing is assumed of them but where a theorem says so
-- (`IsSha256`). A file does not change during a call. `Validators` stands for the gates that
-- have no definition here; every theorem holds for each choice of them. `Externals` stands for the
-- commands that run other programs, for the templates and for the texts of exceptions.
--
-- Numbers. A Python int is an integer without bound, a finite float is `m / 2 ^ k`. `load_json` rejects
-- the tokens NaN and Infinity, but gives an infinity for a number like 1e999, so the infinities and NaN are
-- values of the model too: `json_safe` says where `assert_json_safe` returns, `canonical_hash` raises
-- ValueError on them, and `math.isfinite` of an int that is too large for a float raises OverflowError. A
-- NaN, which no file gives, equals nothing here. Texts are of Unicode scalar values. Every loop
-- runs over a list or a value, so no fuel is needed.
--
-- Not modelled: output, the templates that `initialize_case` writes, subprocesses, clocks, the parser
-- of the command line, the assertion of `write_json` that a state has only JSON values with finite
-- numbers, the deep copies that guard against mutation (a value here cannot be changed), and the
-- laboratory under src/cumcm_skill_lab.
pub mod Base
pub mod Py
pub mod Kernel
