-- ===== src/Kernel/Tables.antt =====
-- The constant tables of scripts/cumcm_case.py.
use cumcm.Base.{String, List, [], ◌∷◌, Option, none, some, ◌==◌, if◌then◌else◌}

abbrev pub version : String
version = "0.2.0-competition-rc7"

abbrev pub capability : String
capability = "COMPETITION_RC"

abbrev pub architecture : String
architecture = "ARCH-K1-THIN-SKILL-DETERMINISTIC-EVIDENCE-KERNEL"

abbrev pub stages : List String
stages =
    "PROBLEM_INTAKE" ∷ "REQUIREMENT_DECOMPOSITION" ∷ "RESEARCH_AND_SOURCE_PLANNING"
    ∷ "ASSUMPTION_AND_SYMBOL_DEFINITION" ∷ "DATA_AUDIT" ∷ "MODEL_PORTFOLIO_GENERATION"
    ∷ "BASELINE_DEFINITION" ∷ "EXPERIMENT_DESIGN" ∷ "IMPLEMENTATION_AND_EXECUTION"
    ∷ "MODEL_COMPARISON" ∷ "ROBUSTNESS_AND_SENSITIVITY" ∷ "FINAL_RUN" ∷ "CLAIM_EVIDENCE_VALIDATION"
    ∷ "MODELING_TO_PAPER_HANDOFF" ∷ []

abbrev pub component_ids : List String
component_ids =
    "accepted-versus-done-workflow-state" ∷ "claim-evidence-support-gate"
    ∷ "hash-bound-reproducibility-manifest" ∷ "leakage-safe-model-comparison-gate" ∷ []

abbrev pub states : List String
states =
    "CREATED" ∷ "INTAKE_COMPLETE" ∷ "REQUIREMENTS_VALIDATED" ∷ "SOURCES_PLANNED" ∷ "DATA_AUDITED"
    ∷ "MODELS_PROPOSED" ∷ "EXPERIMENT_PLAN_VALIDATED" ∷ "RUNNING" ∷ "RUN_COMPLETED"
    ∷ "RUN_VALIDATED" ∷ "ROBUSTNESS_VALIDATED" ∷ "FINAL_CANDIDATE" ∷ "EVIDENCE_VALIDATED"
    ∷ "READY_FOR_PAPER_HANDOFF" ∷ []

abbrev pub terminal_states : List String
terminal_states = "STALE" ∷ "REJECTED" ∷ []

abbrev pub sensitive_keys : List String
sensitive_keys =
    "apikey" ∷ "accesstoken" ∷ "bearertoken" ∷ "browserstate" ∷ "clientsecret" ∷ "credential"
    ∷ "credentials" ∷ "hiddenreasoning" ∷ "password" ∷ "passwd" ∷ "privatekey" ∷ "privatepath"
    ∷ "rawtrace" ∷ "refreshtoken" ∷ "secret" ∷ "secretkey" ∷ "token" ∷ []

abbrev pub state_fields : List String
state_fields =
    "schema_version" ∷ "case_id" ∷ "case_kind" ∷ "skill_version" ∷ "capability" ∷ "architecture"
    ∷ "state" ∷ "last_gate" ∷ "evidence_bindings" ∷ "history" ∷ []

abbrev pub find : String → List (String × String) → Option String
find k [] = none
find k ((j, v) ∷ r) = if j == k then some v else find k r

abbrev pub gates : List (String × String)
gates =
    ("CREATED", "INIT")
    ∷ ("INTAKE_COMPLETE", "GATE_PROBLEM_INTAKE")
    ∷ ("REQUIREMENTS_VALIDATED", "GATE_REQUIREMENT_COVERAGE")
    ∷ ("SOURCES_PLANNED", "GATE_SOURCE_PLAN")
    ∷ ("DATA_AUDITED", "GATE_ASSUMPTIONS_AND_DATA")
    ∷ ("MODELS_PROPOSED", "GATE_MODEL_PORTFOLIO")
    ∷ ("EXPERIMENT_PLAN_VALIDATED", "GATE_EXPERIMENT_PLAN")
    ∷ ("RUNNING", "GATE_EXECUTION_AUTHORIZED")
    ∷ ("RUN_COMPLETED", "GATE_RUN_COMPLETION")
    ∷ ("RUN_VALIDATED", "GATE_REPRODUCIBILITY_MANIFEST")
    ∷ ("ROBUSTNESS_VALIDATED", "GATE_COMPARISON_AND_ROBUSTNESS")
    ∷ ("FINAL_CANDIDATE", "GATE_FINAL_RUN")
    ∷ ("EVIDENCE_VALIDATED", "GATE_CLAIM_EVIDENCE")
    ∷ ("READY_FOR_PAPER_HANDOFF", "GATE_MODELING_TO_PAPER")
    ∷ []

-- `TRANSITION_GATES.get(target)`
unfoldable pub transition_gates : String → Option String
transition_gates target = find target gates

abbrev pub artifact_paths : List (String × String)
artifact_paths =
    ("problem_requirements", "problem/problem_requirements.json")
    ∷ ("research_plan", "research/research_plan.json")
    ∷ ("source_ledger", "research/source_ledger.json")
    ∷ ("assumptions_and_symbols", "models/assumptions_and_symbols.json")
    ∷ ("data_audit", "data/data_audit.json")
    ∷ ("data_sufficiency", "data/data_sufficiency.json")
    ∷ ("model_candidates", "models/model_candidates.json")
    ∷ ("experiment_plan", "experiments/experiment_plan.json")
    ∷ ("model_comparison", "results/model_comparison.json")
    ∷ ("requirement_selection", "results/requirement_selection.json")
    ∷ ("robustness_analysis", "results/robustness.json")
    ∷ ("claim_evidence", "evidence/claim_evidence.json")
    ∷ ("semantic_claim_support", "evidence/semantic_claim_support.json")
    ∷ ("final_result", "results/final_result.json")
    ∷ ("modeling_to_paper_handoff", "handoff/modeling_to_paper.json")
    ∷ []
