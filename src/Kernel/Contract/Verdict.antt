-- ===== src/Kernel/Contract/Verdict.antt =====
-- What the status of a result tells of its codes.
use cumcm.Base.{String, ◌≡◌, refl, List, [], ◌∷◌}
use cumcm.Kernel.Gate.{contract_result}
use cumcm.Kernel.Contract.{contract_of}

pub contract_of-pass : (codes : List String) → (contract_of codes).status ≡ "PASS" → codes ≡ []
unfolding contract_result
contract_of-pass [] h = refl
contract_of-pass (c ∷ cs) h = cc

pub blocked-not_pass : (codes : List String) → (contract_result "BLOCK" codes).status ≡ "PASS" → ⊥
unfolding contract_result
blocked-not_pass codes h = cc
