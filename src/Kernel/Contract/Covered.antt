-- ===== src/Kernel/Contract/Covered.antt =====
-- What the status SUFFICIENT of `evaluate_data_sufficiency` means.
use cumcm.Base.{
  ℕ, zero, suc, String, ◌≡◌, refl, ap, ◌∙◌, Bool, true, false, not, ◌&&◌, some, List, [], ◌∷◌, ◌++◌,
  any, contains, get_elem?, if◌then◌else◌, ◌⊎◌, inl, inr, arith, Bool-cases,
}
use mathlib.Core.Path.{subst}
use cumcm.Py.Exn.{Py, ok, ◌>>=◌, >>=-eq-ok, ok-injective}
use cumcm.Py.Value.{
  Value, list, dict, Items, Fields, elements, is_text, is_list, is_dict, is_true, truthy,
}
use cumcm.Py.Dict.{get}
use cumcm.Kernel.Host.{Host}
use cumcm.Kernel.Gate.{ContractResult, contract_result}
use cumcm.Kernel.Contract.{role_of}
use cumcm.Kernel.Contract.Sufficiency.{
  Finding, invalid, auxiliary, sufficient, acquisition, lacking, narrow,
}
use cumcm.Kernel.Contract.Backed.{IsCovered, IsBacked, IsJudged, AllJudged, judge_all-AllJudged}
use cumcm.Kernel.Contract.Evaluate.{
  judge_all, codes_of, all_codes, is_incomplete, incomplete, hard_block, settled, data_status,
  is_strict, Inputs, inputs_of, evaluate_data_sufficiency, aggregate,
}

-- A finding that neither blocks nor is incomplete.
abbrev IsGood : Finding → Type 0
IsGood finding = (finding ≡ sufficient) ⊎ (finding ≡ auxiliary)

finding-IsGood :
    (finding : Finding)
    → any (contains hard_block) (codes_of finding) ≡ false
    → is_incomplete finding ≡ false
    → IsGood finding
finding-IsGood sufficient h i = inl refl
finding-IsGood auxiliary h i = inr refl
finding-IsGood invalid h i = cc
finding-IsGood acquisition h i = cc
finding-IsGood (lacking code) h i = cc
finding-IsGood (narrow codes) h i = cc

any-append :
    (p : String → Bool) (xs ys : List String)
    → any p (xs ++ ys) ≡ false
    → (any p xs ≡ false) × (any p ys ≡ false)
any-append p [] ys h = (refl, h)
any-append p (x ∷ xs) ys h = ground (arith, any-append p xs ys)

complete :
    (v : Value) (finding : Finding) (r : List (Value × Finding))
    → incomplete ((v, finding) ∷ r) ≡ []
    → (is_incomplete finding ≡ false) × (incomplete r ≡ [])
complete v finding r h = ground arith

some_inj : (a b : Value) → some a ≡ some b → a ≡ b
some_inj a b e = cc

module _ (H : Host) (inputs : Inputs) where
  backed-IsCovered :
      (requirement : Fields) (finding : Finding)
      → IsGood finding
      → IsBacked H inputs requirement finding
      → is_text (role_of requirement) "PRIMARY" ≡ true
      → IsCovered H inputs requirement
  backed-IsCovered requirement finding (inl e) b p = b.covered e
  backed-IsCovered requirement finding (inr e) b p = cc (b.role e)

  all_covered :
      (vs : List Value) (findings : List (Value × Finding)) (n : ℕ) (requirement : Fields)
      → AllJudged H inputs vs findings
      → any (contains hard_block) (all_codes findings) ≡ false
      → incomplete findings ≡ []
      → get_elem? vs n ≡ some (dict requirement)
      → is_text (role_of requirement) "PRIMARY" ≡ true
      → IsCovered H inputs requirement
  all_covered [] findings n requirement j h i e p = cc
  all_covered (v ∷ vs) [] n requirement j h i e p = absurd j
  all_covered (v ∷ vs) ((w, finding) ∷ r) zero requirement (same, j, _) h i e p =
      let here : v ≡ dict requirement = some_inj v (dict requirement) e in
      let (h1, _) = any-append (contains hard_block) (codes_of finding) (all_codes r) h in
      let (i1, _) = complete w finding r i in
      backed-IsCovered requirement finding (finding-IsGood finding h1 i1)
        (subst (λ x. IsJudged H inputs x finding) here j) p
  all_covered (v ∷ vs) ((w, finding) ∷ r) (suc n) requirement (same, _, js) h i e p =
      let (_, h2) = any-append (contains hard_block) (codes_of finding) (all_codes r) h in
      let (_, i2) = complete w finding r i in all_covered vs r n requirement js h2 i2 e p

-- Another status.
IsOther : ContractResult → Type 0
IsOther r = r.status ≡ "SUFFICIENT" → ⊥

if-IsOther :
    (b : Bool) (r t : ContractResult) → IsOther r → IsOther t → IsOther (if b then r else t)
if-IsOther true r t hr ht = hr
if-IsOther false r t hr ht = ht

status-IsOther :
    (codes : List String)
    → IsOther (contract_result "BLOCK" codes)
      × IsOther (contract_result "ACQUISITION_REQUIRED" codes)
      × IsOther (contract_result "PARTIAL" codes)
      × IsOther (contract_result "UNSATISFIABLE_WITH_CURRENT_INPUTS" codes)
unfolding contract_result IsOther
status-IsOther codes = (λ e. cc, λ e. cc, λ e. cc, λ e. cc)

incomplete-IsOther :
    (payload : Fields) (vs : List Value) (findings : List (Value × Finding)) (x : Value)
    (xs : List Value)
    → IsOther (settled payload vs findings (x ∷ xs))
incomplete-IsOther payload vs findings x xs =
    if-IsOther (is_true (get "aggregate_completion_claimed" payload)) _ _
      (status-IsOther (aggregate ∷ [])).0
      (if-IsOther _ _ _ (status-IsOther []).1 (
        if-IsOther _ _ _ (status-IsOther (aggregate ∷ [])).2
          (status-IsOther (all_codes findings)).3))

settled-incomplete :
    (payload : Fields) (vs : List Value) (findings : List (Value × Finding)) (left : List Value)
    → (settled payload vs findings left).status ≡ "SUFFICIENT"
    → left ≡ []
unfolding IsOther
settled-incomplete payload vs findings [] h = refl
settled-incomplete payload vs findings (x ∷ xs) h =
    absurd (incomplete-IsOther payload vs findings x xs h)

data_status-good :
    (payload : Fields) (vs : List Value) (findings : List (Value × Finding))
    → (data_status payload vs findings).status ≡ "SUFFICIENT"
    → (any (contains hard_block) (all_codes findings) ≡ false) × (incomplete findings ≡ [])
unfolding data_status IsOther
data_status-good payload vs findings h =
    elim (Bool-cases (any (contains hard_block) (all_codes findings))) [
      | inl e ↦ absurd ((status-IsOther (all_codes findings)).0 (rw e at h))
      | inr e ↦ (e, settled-incomplete payload vs findings (incomplete findings) (rw e at h))
    ]

judged-IsCovered :
    (H : Host) (payload : Fields) (vs : List Value) (r : ContractResult) (n : ℕ)
    (requirement : Fields)
    → (judge_all H (inputs_of payload) [] vs >>= λ findings. ok (data_status payload vs findings))
      ≡ ok r
    → r.status ≡ "SUFFICIENT"
    → get_elem? vs n ≡ some (dict requirement)
    → is_text (role_of requirement) "PRIMARY" ≡ true
    → IsCovered H (inputs_of payload) requirement
judged-IsCovered H payload vs r n requirement e s at p =
    let (findings, e1, e2) =
      >>=-eq-ok (judge_all H (inputs_of payload) [] vs)
        (λ findings. ok (data_status payload vs findings)) e in
    let same = ok-injective (data_status payload vs findings) r e2 in
    let (h, i) = data_status-good payload vs findings (ap (λ c. c.status) same ∙ s) in
    all_covered H (inputs_of payload) vs findings n requirement
      ((judge_all-AllJudged H (inputs_of payload) [] vs).at findings e1) h i at p

-- `m`, unless a test refuses the payload.
guarded-Sufficient :
    (b : Bool) (codes : List String) (m : Py ContractResult) (r : ContractResult)
    → (if b then ok (contract_result "BLOCK" codes) else m) ≡ ok r
    → r.status ≡ "SUFFICIENT"
    → m ≡ ok r
unfolding IsOther
guarded-Sufficient true codes m r e s = absurd (
    (status-IsOther codes).0
      (ap (λ c. c.status) (ok-injective (contract_result "BLOCK" codes) r e) ∙ s))
guarded-Sufficient false codes m r e s = e

-- If `evaluate_data_sufficiency` gives SUFFICIENT, then for each requirement of the payload with the
-- role PRIMARY some sources of the payload support it with a class that it asks for, and of these the
-- chosen ones, which without registered coverage modes are all of them, together have every field
-- which the requirement asks for, and each has all times and entities that it asks for.
pub evaluate_data_sufficiency-IsCovered :
    (H : Host) (payload : Fields) (requirements : Items) (r : ContractResult) (n : ℕ)
    (requirement : Fields)
    → evaluate_data_sufficiency H (dict payload) ≡ ok r
    → r.status ≡ "SUFFICIENT"
    → get "requirements" payload ≡ list requirements
    → get_elem? (elements requirements) n ≡ some (dict requirement)
    → is_text (role_of requirement) "PRIMARY" ≡ true
    → IsCovered H (inputs_of payload) requirement
unfolding evaluate_data_sufficiency
evaluate_data_sufficiency-IsCovered H payload requirements r n requirement e s q at p =
    let input = "RC_DATA_SUFFICIENCY_INPUT_INVALID" ∷ [] in
    let e1 =
      guarded-Sufficient
        (not (
          is_list (list requirements)
          && truthy (list requirements)
          && is_list (get "sources" payload)))
        input _ r (rw q at e) s in
    let e2 =
      guarded-Sufficient (not (is_list (get "acquisition_plans" payload)))
        ("RC_DATA_ACQUISITION_PLAN_INVALID" ∷ []) _ r e1 s in
    let e3 =
      guarded-Sufficient
        (is_strict payload
          && not (
              is_dict (get "coverage_mode_by_requirement" payload)
              && is_list (get "source_compositions" payload)))
        input _ r e2 s in
    judged-IsCovered H payload (elements requirements) r n requirement e3 s at p
