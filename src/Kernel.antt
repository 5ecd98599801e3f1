-- ===== src/Kernel.antt =====
-- .agents/skills/cumcm-modeling-evidence/scripts/cumcm_case.py, the deterministic evidence kernel.
pub mod Gate
pub mod Tables
pub mod Boundary
pub mod Host
pub mod State
pub mod Transition
pub mod Load
pub mod Validators
pub mod Contract
pub mod Stale
pub mod Runtime
pub mod Advance
pub mod CommandLine
pub mod Tests
