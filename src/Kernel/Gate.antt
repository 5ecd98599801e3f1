-- ===== src/Kernel/Gate.antt =====
-- `GateResult`, `passed`, `blocked` and `contract_result`: what a gate answers.
pub mod Order
pub mod Canonical
use cumcm.Base.{
  ℕ, String, Bool, true, false, ◌&&◌, ◌||◌, List, [], ◌∷◌, ◌==◌, eqb, ltb, if◌then◌else◌,
}
use cumcm.Py.Text.{codes}

pub record GateResult : Type 0 where
  pub status : String
  pub reason_codes : List String
  pub accepted : Bool
  pub final : Bool
  pub dependency_chain : List String

-- Python compares texts by code points.
unfoldable pub lt_codes : List ℕ → List ℕ → Bool
lt_codes cs [] = false
lt_codes [] (d ∷ ds) = true
lt_codes (c ∷ cs) (d ∷ ds) = ltb c d || (eqb c d && lt_codes cs ds)

unfoldable pub lt_text : String → String → Bool
unfolding lt_codes
lt_text s t = lt_codes (codes s) (codes t)

unfoldable pub insert_text : String → List String → List String
insert_text s [] = s ∷ []
insert_text s (t ∷ r) =
    if s == t then t ∷ r else if lt_text s t then s ∷ t ∷ r else t ∷ insert_text s r

-- `sorted(set(codes))`
unfoldable pub sorted_set : List String → List String
unfolding insert_text lt_text
sorted_set [] = []
sorted_set (s ∷ r) = insert_text s (sorted_set r)

unfoldable pub passed : String → GateResult
passed code = record {
  status = "PASS";
  reason_codes = code ∷ [];
  accepted = true;
  final = false;
  dependency_chain = [];
}

unfoldable pub blocked : List String → GateResult
unfolding sorted_set
blocked codes = record {
  status = "BLOCK";
  reason_codes = sorted_set codes;
  accepted = false;
  final = false;
  dependency_chain = [];
}

-- The dictionary that the pure gates return.
pub record ContractResult : Type 0 where
  pub status : String
  pub reason_codes : List String

unfoldable pub contract_result : String → List String → ContractResult
unfolding sorted_set
contract_result status codes = record { status = status; reason_codes = sorted_set codes }
