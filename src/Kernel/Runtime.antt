-- ===== src/Kernel/Runtime.antt =====
-- The gates that bind selections and claims to the sealed manifests of runs.
pub mod Eligibility
pub mod Compatibility
pub mod Aggregate
pub mod Trusted
pub mod Sorted
pub mod Final
pub mod Evidence
pub mod Finalization
pub mod Bound
pub mod OneToOne
pub mod Semantic
pub mod Passing
pub mod Captured
