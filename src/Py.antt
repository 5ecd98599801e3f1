-- ===== src/Py.antt =====
-- The Python values and operations that scripts/cumcm_case.py uses: JSON values as `json.loads`
-- returns them, comparison, truth, dictionaries, hashing and sets, text matching, and exceptions.
pub mod Value
pub mod Exn
pub mod Dict
pub mod Text
pub mod Path
pub mod Member
pub mod Returns
pub mod Records
pub mod Equal
