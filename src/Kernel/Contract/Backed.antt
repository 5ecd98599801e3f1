-- ===== src/Kernel/Contract/Backed.antt =====
-- What each finding of `judge` means, by every branch.
use cumcm.Base.{
  String, ◌≡◌, refl, Bool, true, false, List, [], ◌∷◌, ◌++◌, if◌then◌else◌, inl, inr, Bool-cases,
  not, ◌⊎◌, all, any, contains, subset,
}
use mathlib.Core.Path.{subst}
use cumcm.Py.Exn.{ok, ◌>>=◌, >>=-eq-ok, ok-injective}
use cumcm.Py.Value.{
  Value, null, bool, int, float, nonfinite, str, list, dict, Fields, is_text, truthy,
}
use cumcm.Kernel.Host.{Host}
use cumcm.Py.Returns.{Returns, Returns-if, Returns-ok, Returns-then, Returns-bind_eq}
use cumcm.Py.Dict.{get}
use cumcm.Py.Member.{member, member_text, and_then}
use cumcm.Kernel.Contract.{role_of, strings, requirement_terms_ok}
use cumcm.Kernel.Contract.Sufficiency.{
  Finding, invalid, auxiliary, sufficient, acquisition, lacking, Coverage, is_among,
}
use cumcm.Kernel.Contract.Chosen.{coverage_of-IsFrom}
use cumcm.Kernel.Contract.Evaluate.{
  Inputs, select, supports, class_match, is_empty, judge, judge_all, fields_ok, scope_ok,
  scope_codes, scoped, coverage_finding, unmatched, matched, weighed, coverage_of, judge_new,
  judge_primary, named_too,
}

-- Of the sources `inputs.sources`, `relevant` are those that support the requirement, and `matches` those
-- of them with a class that it asks for and allows. `sources` are the matching ones, or some of them, that the code
-- has chosen: together they have each field that the requirement asks for, and each of them has all of
-- its times and entities.
pub record IsCovered (H : Host) (inputs : Inputs) (requirement : Fields) : Type 0 where
  pub relevant : List Fields
  pub supporting :
      select
        (λ source.
          if truthy (get "supports_requirement_ids" source)
          then member (get "requirement_id" requirement) (get "supports_requirement_ids" source)
          else ok false)
        inputs.sources
      ≡ ok relevant
  pub matches : List Fields
  pub of_class :
      select
        (λ source.
          member_text
            (get "evidence_class" source)
            (strings (get "required_evidence_classes" requirement))
          >>= λ asked. and_then asked (
              member_text
                (get "evidence_class" source)
                (strings (get "allowed_evidence_classes" requirement))))
        relevant
      ≡ ok matches
  pub found : is_empty matches ≡ false
  pub sources : List Fields
  pub chosen : coverage_of H inputs requirement matches ≡ ok (inr sources)
  pub from : (sources ≡ matches) ⊎ (all (is_among matches) sources ≡ true)
  pub fields :
      all
        (λ f. any (λ source. contains (strings (get "field_schema" source)) f) sources)
        (strings (get "minimum_data_fields" requirement))
      ≡ true
  pub time :
      all
        (λ source.
          subset
            (strings (get "required_time_scope" requirement))
            (strings (get "time_scope" source)))
        sources
      ≡ true
  pub entities :
      all
        (λ source.
          subset
            (strings (get "required_entity_scope" requirement))
            (strings (get "entity_scope" source)))
        sources
      ≡ true

-- A finding is backed: `sufficient` by sources, and `auxiliary` by the role.
pub record IsBacked (H : Host) (inputs : Inputs) (requirement : Fields) (finding : Finding)
    : Type 0 where
  pub covered : finding ≡ sufficient → IsCovered H inputs requirement
  pub role : finding ≡ auxiliary → is_text (role_of requirement) "PRIMARY" ≡ false

three_codes-eq-nil :
    (a b c : Bool) (x y z : String)
    → (if a then [] else x ∷ []) ++ (if b then [] else y ∷ []) ++ (if c then [] else z ∷ []) ≡ []
    → (a ≡ true) × (b ≡ true) × (c ≡ true)
three_codes-eq-nil true true true x y z h = (refl, refl, refl)
three_codes-eq-nil false b c x y z h = cc
three_codes-eq-nil true false c x y z h = cc
three_codes-eq-nil true true false x y z h = cc

scoped-sufficient : (cs : List String) → scoped cs ≡ sufficient → cs ≡ []
scoped-sufficient [] h = refl
scoped-sufficient (c ∷ cs) h = cc

scoped-not_auxiliary : (cs : List String) → scoped cs ≡ auxiliary → ⊥
scoped-not_auxiliary [] h = cc
scoped-not_auxiliary (c ∷ cs) h = cc

module _ (H : Host) (inputs : Inputs) (requirement : Fields) where
  lacking-IsBacked : (code : String) → IsBacked H inputs requirement (lacking code)
  lacking-IsBacked code = record { covered = λ h. cc; role = λ h. cc }

  acquisition-IsBacked : IsBacked H inputs requirement acquisition
  acquisition-IsBacked = record { covered = λ h. cc; role = λ h. cc }

  invalid-IsBacked : IsBacked H inputs requirement invalid
  invalid-IsBacked = record { covered = λ h. cc; role = λ h. cc }

  if-IsBacked :
      (b : Bool) (f g : Finding)
      → IsBacked H inputs requirement f
      → IsBacked H inputs requirement g
      → IsBacked H inputs requirement (if b then f else g)
  if-IsBacked true f g hf hg = hf
  if-IsBacked false f g hf hg = hg

  unmatched-IsBacked :
      (relevant plans : List Fields)
      → IsBacked H inputs requirement (unmatched requirement relevant plans)
  unmatched-IsBacked [] plans = search (if-IsBacked, lacking-IsBacked, acquisition-IsBacked)
  unmatched-IsBacked (s ∷ relevant) plans = search (if-IsBacked, lacking-IsBacked)

  coverage-IsBacked :
      (relevant matches : List Fields) (c : Coverage)
      → select (supports (get "requirement_id" requirement)) inputs.sources ≡ ok relevant
      → select
          (class_match
            (strings (get "required_evidence_classes" requirement))
            (strings (get "allowed_evidence_classes" requirement)))
          relevant
        ≡ ok matches
      → is_empty matches ≡ false
      → coverage_of H inputs requirement matches ≡ ok c
      → IsBacked H inputs requirement (coverage_finding requirement c)
  coverage-IsBacked relevant matches (inl code) er em n ec = lacking-IsBacked code
  coverage-IsBacked relevant matches (inr sources) er em n ec = record {
    covered = λ h.
        let (f, t, e) =
          three_codes-eq-nil (fields_ok requirement sources)
            (scope_ok "required_time_scope" "time_scope" requirement sources)
            (scope_ok "required_entity_scope" "entity_scope" requirement sources)
            "RC_REQUIREMENT_MINIMUM_FIELDS_INSUFFICIENT" "RC_REQUIREMENT_TIME_SCOPE_INSUFFICIENT"
            "RC_REQUIREMENT_ENTITY_SCOPE_INSUFFICIENT"
            (scoped-sufficient (scope_codes requirement sources) h) in
        record {
          relevant = relevant;
          supporting = er;
          matches = matches;
          of_class = em;
          found = n;
          sources = sources;
          chosen = ec;
          from = (coverage_of-IsFrom H inputs requirement matches).at (inr sources) ec;
          fields = f;
          time = t;
          entities = e;
        };
    role = λ h. absurd (scoped-not_auxiliary (scope_codes requirement sources) h);
  }

  matched-IsBacked :
      (relevant plans matches : List Fields)
      → select (supports (get "requirement_id" requirement)) inputs.sources ≡ ok relevant
      → select
          (class_match
            (strings (get "required_evidence_classes" requirement))
            (strings (get "allowed_evidence_classes" requirement)))
          relevant
        ≡ ok matches
      → Returns
          (IsBacked H inputs requirement)
          (matched H inputs requirement relevant plans matches)
  matched-IsBacked relevant plans [] er em = Returns-ok _ (unmatched-IsBacked relevant plans)
  matched-IsBacked relevant plans (s ∷ matches) er em =
      Returns-bind_eq (coverage_of H inputs requirement (s ∷ matches)) _
        λ c ec. Returns-ok _ (coverage-IsBacked relevant (s ∷ matches) c er em refl ec)

  lacking-Returns : (code : String) → Returns (IsBacked H inputs requirement) (ok (lacking code))
  lacking-Returns code = Returns-ok _ (lacking-IsBacked code)

  selected-IsBacked :
      (relevant plans : List Fields)
      → select (supports (get "requirement_id" requirement)) inputs.sources ≡ ok relevant
      → Returns (IsBacked H inputs requirement) (
          select
            (class_match
              (strings (get "required_evidence_classes" requirement))
              (strings (get "allowed_evidence_classes" requirement)))
            relevant
          >>= matched H inputs requirement relevant plans)
  selected-IsBacked relevant plans er =
      Returns-bind_eq _ _ λ matches em. matched-IsBacked relevant plans matches er em

  weighed-IsBacked :
      (relevant plans : List Fields)
      → select (supports (get "requirement_id" requirement)) inputs.sources ≡ ok relevant
      → Returns (IsBacked H inputs requirement) (weighed H inputs requirement relevant plans)
  weighed-IsBacked relevant plans er =
      search (Returns-if, lacking-Returns, selected-IsBacked) depth 10

  auxiliary-Returns :
      is_text (role_of requirement) "PRIMARY" ≡ false
      → Returns (IsBacked H inputs requirement) (ok auxiliary)
  auxiliary-Returns h = Returns-ok _ (record { covered = λ e. cc; role = λ e. h })

  invalid-Returns : Returns (IsBacked H inputs requirement) (ok invalid)
  invalid-Returns = Returns-ok _ invalid-IsBacked

  judge_primary-IsBacked :
      Returns (IsBacked H inputs requirement) (judge_primary H inputs requirement)
  judge_primary-IsBacked =
      Returns-if (not (requirement_terms_ok requirement)) (ok invalid) _ invalid-Returns
        (Returns-bind_eq _ _ λ relevant er. weighed-IsBacked relevant _ er)

  judge-IsBacked : Returns (IsBacked H inputs requirement) (judge H inputs requirement)
  unfolding judge
  judge-IsBacked = elim (Bool-cases (is_text (role_of requirement) "PRIMARY")) [
    | inl e ↦ rw e judge_primary-IsBacked
    | inr e ↦ rw e (auxiliary-Returns e)
  ]

  judge_new-IsBacked :
      (names : List String)
      → Returns (IsBacked H inputs requirement) (judge_new H inputs names requirement)
  judge_new-IsBacked names = search (Returns-if, judge-IsBacked, invalid-Returns)

-- A finding on each value, backed where the value is a dictionary.
abbrev pub IsJudged : Host → Inputs → Value → Finding → Type 0
IsJudged H inputs (dict requirement) finding = IsBacked H inputs requirement finding
IsJudged H inputs v finding = finding ≡ invalid

abbrev pub AllJudged : Host → Inputs → List Value → List (Value × Finding) → Type 0
AllJudged H inputs [] [] = Unit
AllJudged H inputs (v ∷ vs) ((w, finding) ∷ r) =
    (w ≡ v) × IsJudged H inputs v finding × AllJudged H inputs vs r
AllJudged H inputs _ _ = ⊥

judge_rest :
    (H : Host) (inputs : Inputs) (names : List String) (v : Value) (vs : List Value)
    (finding : Finding)
    → IsJudged H inputs v finding
    → Returns (AllJudged H inputs vs) (judge_all H inputs names vs)
    → Returns
        (AllJudged H inputs (v ∷ vs))
        (judge_all H inputs names vs >>= λ rest. ok ((v, finding) ∷ rest))
judge_rest H inputs names v vs finding j ih = record {
  at = λ findings e.
      let (rest, e1, e2) =
        >>=-eq-ok (judge_all H inputs names vs) (λ rest. ok ((v, finding) ∷ rest)) e in
      subst (AllJudged H inputs (v ∷ vs)) (ok-injective ((v, finding) ∷ rest) findings e2)
        (refl, j, ih.at rest e1);
}

pub judge_all-AllJudged :
    (H : Host) (inputs : Inputs) (names : List String) (vs : List Value)
    → Returns (AllJudged H inputs vs) (judge_all H inputs names vs)
unfolding judge_all
judge_all-AllJudged H inputs names [] = Returns-ok [] tt
judge_all-AllJudged H inputs names (dict fs ∷ vs) =
    Returns-then (judge_new H inputs names fs) _ (judge_new-IsBacked H inputs fs names) λ finding b.
      judge_rest H inputs (named_too H inputs names fs) (dict fs) vs finding b
        (judge_all-AllJudged H inputs (named_too H inputs names fs) vs)
judge_all-AllJudged H inputs names (null ∷ vs) =
    judge_rest H inputs names null vs invalid refl (judge_all-AllJudged H inputs names vs)
judge_all-AllJudged H inputs names (bool b ∷ vs) =
    judge_rest H inputs names (bool b) vs invalid refl (judge_all-AllJudged H inputs names vs)
judge_all-AllJudged H inputs names (int z ∷ vs) =
    judge_rest H inputs names (int z) vs invalid refl (judge_all-AllJudged H inputs names vs)
judge_all-AllJudged H inputs names (float m k ∷ vs) =
    judge_rest H inputs names (float m k) vs invalid refl (judge_all-AllJudged H inputs names vs)
judge_all-AllJudged H inputs names (nonfinite a ∷ vs) =
    judge_rest H inputs names (nonfinite a) vs invalid refl (judge_all-AllJudged H inputs names vs)
judge_all-AllJudged H inputs names (str s ∷ vs) =
    judge_rest H inputs names (str s) vs invalid refl (judge_all-AllJudged H inputs names vs)
judge_all-AllJudged H inputs names (list xs ∷ vs) =
    judge_rest H inputs names (list xs) vs invalid refl (judge_all-AllJudged H inputs names vs)
