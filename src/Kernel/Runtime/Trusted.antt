-- ===== src/Kernel/Runtime/Trusted.antt =====
-- What holds of the runs of a selection that `validate_runtime_run_eligibility` passes.
use cumcm.Base.{
  String, ◌≡◌, refl, sym, ap, ◌∙◌, Bool, true, false, ◌&&◌, Option, none, some, List, [], ◌∷◌, ◌==◌,
  contains, eq_iff, append-eq-nil, Bool-cases, inl, inr, if◌then◌else◌, arith,
}
use cumcm.Py.Exn.{ok, raise, value_error, ok-injective}
use mathlib.Core.Path.{subst}
use cumcm.Py.Value.{Value, dict, Fields, truthy}
use cumcm.Py.Dict.{get}
use cumcm.Py.Records.{dicts, named}
use cumcm.Py.Returns.{Returns, Returns-ok, Returns-if, Returns-bind_eq}
use cumcm.Kernel.Gate.{ContractResult, sorted_set}
use cumcm.Kernel.Gate.Canonical.{contains-sorted_set}
use cumcm.Kernel.Contract.Verdict.{contract_of-pass, blocked-not_pass}
use cumcm.Kernel.Contract.Selection.{is_sound}
use cumcm.Kernel.Runtime.Eligibility.{
  run_map_of, selected_ids, selected_runtime_run_ids, sorted_ids, is_trusted, described,
  manifest_codes, eligibility_codes, runs_of, eligibility, validate_runtime_run_eligibility,
}

-- A run with a trusted manifest, and sound descriptors in both records.
pub record IsEligible (registry : Fields) (selection_runs semantic_runs : List Fields)
    (run_id : String) : Type 0 where
  pub manifest : Fields
  pub registered : get run_id registry ≡ dict manifest
  pub trusted : is_trusted manifest ≡ true
  pub selected : Fields
  pub in_selection : named "run_id" run_id selection_runs ≡ some selected
  pub selected_sound : is_sound selected ≡ true
  pub claimed : Fields
  pub in_claims : named "run_id" run_id semantic_runs ≡ some claimed
  pub claimed_sound : is_sound claimed ≡ true

if_all_lem :
    (x y z : Bool) (c : String)
    → (if x && y && z then [] else c ∷ []) ≡ []
    → (x ≡ true) × (y ≡ true) × (z ≡ true)
if_all_lem true true true c h = (refl, refl, refl)
if_all_lem true true false c h = cc
if_all_lem true false z c h = cc
if_all_lem false y z c h = cc

described_lem :
    (manifest a b : Fields)
    → described manifest (some a) (some b) ≡ []
    → (is_trusted manifest ≡ true) × (is_sound a ≡ true) × (is_sound b ≡ true)
described_lem manifest a b h = if_all_lem (is_trusted manifest) (is_sound a) (is_sound b) _ h

module _ (registry : Fields) (selection_runs semantic_runs : List Fields) where
  eligible_lem :
      (run_id : String) (v : Value) (a b : Option Fields)
      → get run_id registry ≡ v
      → named "run_id" run_id selection_runs ≡ a
      → named "run_id" run_id semantic_runs ≡ b
      → manifest_codes v a b ≡ []
      → IsEligible registry selection_runs semantic_runs run_id
  eligible_lem run_id (dict manifest) (some a) (some b) er ea eb h =
      let (t, sa, sb) = described_lem manifest a b h in
      record {
        manifest = manifest;
        registered = er;
        trusted = t;
        selected = a;
        in_selection = ea;
        selected_sound = sa;
        claimed = b;
        in_claims = eb;
        claimed_sound = sb;
      }
  eligible_lem run_id (dict manifest) none b er ea eb h = cc
  eligible_lem run_id (dict manifest) (some a) none er ea eb h = cc
  eligible_lem run_id _ a b er ea eb h = cc

  codes-IsEligible :
      (ids : List String) (run_id : String)
      → eligibility_codes registry selection_runs semantic_runs ids ≡ []
      → contains ids run_id ≡ true
      → IsEligible registry selection_runs semantic_runs run_id
  unfolding eligibility_codes
  codes-IsEligible [] run_id h k = cc
  codes-IsEligible (i ∷ r) run_id h k =
      let found =
        manifest_codes (get i registry) (named "run_id" i selection_runs)
          (named "run_id" i semantic_runs) in
      let (here, there) =
        append-eq-nil found (eligibility_codes registry selection_runs semantic_runs r) h in
      elim (Bool-cases (i == run_id)) [
        | inl e ↦
            let same : i ≡ run_id = ground (arith, eq_iff i run_id) in
            subst (IsEligible registry selection_runs semantic_runs) same (
              eligible_lem i (get i registry) (named "run_id" i selection_runs)
                (named "run_id" i semantic_runs) refl refl refl here)
        | inr n ↦ codes-IsEligible r run_id there (ground arith)
      ]

sorted_ids-contains :
    (xs ids : List String) (run_id : String)
    → sorted_ids xs ≡ ok ids
    → contains ids run_id ≡ true
    → contains xs run_id ≡ true
sorted_ids-contains [] ids run_id h k = cc
sorted_ids-contains (x ∷ r) ids run_id h k =
    sym (contains-sorted_set (x ∷ r) run_id)
    ∙ (ap (λ ys. contains ys run_id) (ok-injective (sorted_set (x ∷ r)) ids h) ∙ k)

module _ (selection_record semantic_record registry : Fields)
    (selection_runs semantic_runs : List Value) (run_id : String) where
  eligibility-IsEligible :
      (m : Option Fields) (ids : List String)
      → runs_of selection_record ≡ ok selection_runs
      → runs_of semantic_record ≡ ok semantic_runs
      → elim m [
        | none ↦ raise (value_error "RC_REQUIREMENT_SELECTION_INPUT_INVALID")
        | some run_map ↦ sorted_ids (selected_ids run_map)
      ]
        ≡ ok ids
      → contains ids run_id ≡ true
      → Returns
          (λ (r : ContractResult).
            r.status ≡ "PASS"
            → IsEligible registry (dicts selection_runs) (dicts semantic_runs) run_id)
          (eligibility selection_record semantic_record registry m)
  eligibility-IsEligible none ids es em e k = cc
  eligibility-IsEligible (some run_map) ids es em e k =
      Returns-bind_eq (runs_of selection_record) _ λ srs fs.
        Returns-bind_eq (runs_of semantic_record) _ λ mrs fm. Returns-ok _ λ h.
          let s1 : srs ≡ selection_runs = ok-injective srs selection_runs (sym fs ∙ es) in
          let s2 : mrs ≡ semantic_runs = ok-injective mrs semantic_runs (sym fm ∙ em) in
          subst (λ xs. IsEligible registry (dicts xs) (dicts semantic_runs) run_id) s1
            (subst (λ ys. IsEligible registry (dicts srs) (dicts ys) run_id) s2
              (codes-IsEligible registry (dicts srs) (dicts mrs) (selected_ids run_map) run_id
                (contract_of-pass _ h) (sorted_ids-contains (selected_ids run_map) ids run_id e k)))

-- If `validate_runtime_run_eligibility` passes a selection, then each run that `_selected_runtime_run_ids`
-- returns for it has a manifest of a successful, captured and not superseded run in the registry, and both
-- records describe it as successful, sealed and current.
pub validate_runtime_run_eligibility-IsEligible :
    (selection_record semantic_record registry : Fields) (selection_runs semantic_runs : List Value)
    (ids : List String) (run_id : String) (r : ContractResult)
    → runs_of selection_record ≡ ok selection_runs
    → runs_of semantic_record ≡ ok semantic_runs
    → selected_runtime_run_ids selection_record ≡ ok ids
    → contains ids run_id ≡ true
    → validate_runtime_run_eligibility
        (dict selection_record)
        (dict semantic_record)
        (dict registry)
      ≡ ok r
    → r.status ≡ "PASS"
    → IsEligible registry (dicts selection_runs) (dicts semantic_runs) run_id
unfolding validate_runtime_run_eligibility selected_runtime_run_ids
validate_runtime_run_eligibility-IsEligible selection_record semantic_record registry selection_runs
      semantic_runs ids run_id r es em e k h =
    (Returns-if (truthy (dict registry)) _ _
        (eligibility-IsEligible selection_record semantic_record registry selection_runs
          semantic_runs run_id (run_map_of (get "selection" selection_record)) ids es em e k)
        (Returns-ok _ λ p. absurd (blocked-not_pass _ p))).at
      r h
