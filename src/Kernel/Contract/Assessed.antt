-- ===== src/Kernel/Contract/Assessed.antt =====
-- What a data sufficiency record with the status SUFFICIENT shows.
use cumcm.Base.{
  ℕ, String, ◌≡◌, refl, Bool, true, false, not, some, List, [], ◌∷◌, get_elem?, if◌then◌else◌,
}
use cumcm.Py.Exn.{Py, ok}
use cumcm.Py.Value.{Value, list, dict, Items, Fields, elements, is_text}
use cumcm.Py.Dict.{get, get_or}
use cumcm.Py.Member.{iterate}
use cumcm.Py.Records.{dicts, set_of}
use cumcm.Py.Returns.{Returns, Returns-ok, Returns-bind_eq}
use cumcm.Kernel.Host.{Host}
use cumcm.Kernel.Gate.{ContractResult, contract_result}
use cumcm.Kernel.Contract.{role_of}
use cumcm.Kernel.Contract.Evaluate.{evaluate_data_sufficiency, inputs_of}
use cumcm.Kernel.Contract.Backed.{IsCovered}
use cumcm.Kernel.Contract.Covered.{evaluate_data_sufficiency-IsCovered}
use cumcm.Kernel.Contract.Assessment.{
  primary_of, assessments_ok, differs, recorded_outcome, validate_data_sufficiency_record,
}

-- The record is about the given requirements and sources, and explains each primary requirement.
pub record IsAssessed (H : Host) (record' : Fields) (requirements sources : Value)
    (requirement : Fields) : Type 0 where
  pub same_requirements : differs requirements (get "requirements" record') ≡ false
  pub same_sources : differs sources (get "sources" record') ≡ false
  pub recorded : List Value
  pub iterated : iterate (get_or "requirements" (list Items.nil) record') ≡ ok recorded
  pub primary : List Value
  pub collected : set_of (primary_of (dicts recorded)) ≡ ok primary
  pub explained : assessments_ok primary (get "requirement_assessments" record') ≡ ok true
  pub covered : IsCovered H (inputs_of record') requirement

not_sufficient : (codes : List String) → (contract_result "BLOCK" codes).status ≡ "SUFFICIENT" → ⊥
unfolding contract_result
not_sufficient codes h = cc

guard-Returns :
    {P : Type 0} (b : Bool) (codes : List String) (m : Py ContractResult)
    → (b ≡ false → Returns (λ (r : ContractResult). r.status ≡ "SUFFICIENT" → P) m)
    → Returns
        (λ (r : ContractResult). r.status ≡ "SUFFICIENT" → P)
        (if b then ok (contract_result "BLOCK" codes) else m)
guard-Returns true codes m h = Returns-ok _ λ s. absurd (not_sufficient codes s)
guard-Returns false codes m h = h refl

module _ (H : Host) (record' : Fields) (requirements sources : Value) (wanted : Items) (n : ℕ)
    (requirement : Fields) (listed : get "requirements" record' ≡ list wanted)
    (at_n : get_elem? (elements wanted) n ≡ some (dict requirement))
    (is_primary : is_text (role_of requirement) "PRIMARY" ≡ true)
    (rs : differs requirements (get "requirements" record') ≡ false)
    (ss : differs sources (get "sources" record') ≡ false) where
  accepted_lem :
      (outcome : ContractResult) (recorded primary : List Value) (good : Bool)
      → evaluate_data_sufficiency H (dict record') ≡ ok outcome
      → iterate (get_or "requirements" (list Items.nil) record') ≡ ok recorded
      → set_of (primary_of (dicts recorded)) ≡ ok primary
      → assessments_ok primary (get "requirement_assessments" record') ≡ ok good
      → Returns
          (λ (r : ContractResult).
            r.status ≡ "SUFFICIENT" → IsAssessed H record' requirements sources requirement)
          (if good
            then ok outcome
            else ok (contract_result "BLOCK" ("RC_DATA_SUFFICIENCY_ASSESSMENT_INVALID" ∷ [])))
  accepted_lem outcome recorded primary true eo ei ec ea = Returns-ok outcome λ s. record {
    same_requirements = rs;
    same_sources = ss;
    recorded = recorded;
    iterated = ei;
    primary = primary;
    collected = ec;
    explained = ea;
    covered =
        evaluate_data_sufficiency-IsCovered H record' wanted outcome n requirement eo s listed at_n
          is_primary;
  }
  accepted_lem outcome recorded primary false eo ei ec ea =
      Returns-ok _ λ s. absurd (not_sufficient _ s)

  recorded_outcome-IsAssessed :
      Returns
        (λ (r : ContractResult).
          r.status ≡ "SUFFICIENT" → IsAssessed H record' requirements sources requirement)
        (recorded_outcome H record')
  recorded_outcome-IsAssessed =
      Returns-bind_eq (evaluate_data_sufficiency H (dict record')) _ λ outcome eo.
        Returns-bind_eq (iterate (get_or "requirements" (list Items.nil) record')) _ λ recorded ei.
          Returns-bind_eq (set_of (primary_of (dicts recorded))) _ λ primary ec.
            Returns-bind_eq (assessments_ok primary (get "requirement_assessments" record')) _
              λ good ea. accepted_lem outcome recorded primary good eo ei ec ea

-- If `validate_data_sufficiency_record` answers SUFFICIENT, then the record was made for the requirements and
-- the sources that are given, it has one valid assessment for each primary requirement, and each of these
-- is covered by sources of the record: they support it with a class that it asks for, together have all
-- of its fields, and each has all of its times and entities.
pub validate_data_sufficiency_record-IsAssessed :
    (H : Host) (record' : Fields) (requirements sources : Value) (wanted : Items)
    (r : ContractResult) (n : ℕ) (requirement : Fields)
    → validate_data_sufficiency_record H (dict record') requirements sources ≡ ok r
    → r.status ≡ "SUFFICIENT"
    → get "requirements" record' ≡ list wanted
    → get_elem? (elements wanted) n ≡ some (dict requirement)
    → is_text (role_of requirement) "PRIMARY" ≡ true
    → IsAssessed H record' requirements sources requirement
unfolding validate_data_sufficiency_record
validate_data_sufficiency_record-IsAssessed H record' requirements sources wanted r n requirement h
      s listed at_n p =
    (guard-Returns (not (is_text (get "contract_version" record') "data-sufficiency/v1")) _ _ λ _.
        guard-Returns (differs requirements (get "requirements" record')) _ _ λ rs.
          guard-Returns (differs sources (get "sources" record')) _ _ λ ss.
            recorded_outcome-IsAssessed H record' requirements sources wanted n requirement listed
              at_n p rs ss).at
      r h s
