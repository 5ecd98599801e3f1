-- ===== src/Kernel/Runtime/Passing.antt =====
-- What holds of the claims that `validate_runtime_semantic_claims` passes.
use cumcm.Base.{
  ℕ, zero, suc, String, ◌≡◌, refl, sym, true, Option, none, some, List, [], ◌∷◌, get_elem?,
  append-eq-nil,
}
use cumcm.Py.Exn.{ok, >>=-eq-ok}
use cumcm.Py.Value.{Value, str, list, dict, Items, nil, cons, end, elements, Fields, eq}
use cumcm.Py.Dict.{get}
use cumcm.Py.Records.{dicts, or_else, index_get, get_of}
use mathlib.Core.Path.{subst}
use cumcm.Kernel.Contract.Verdict.{contract_of-pass, blocked-not_pass}
use cumcm.Py.Returns.{Returns, Returns-ok, Returns-bind, Returns-bind_eq, Returns-then}
use cumcm.Kernel.Gate.{ContractResult}
use cumcm.Kernel.Contract.Selection.{unless_code}
use cumcm.Kernel.Contract.Claims.{validate_semantic_claim_support}
use cumcm.Kernel.Contract.Serving.{unless-eq-nil}
use cumcm.Kernel.Runtime.Semantic.{
  Bundle, each, run_mismatch_codes, output_owner_codes, scope_ok, map_under, records_under,
  claims_result, validate_runtime_semantic_claims, support_payload, bound_codes, known_codes,
  semantic_claim_codes, all_claim_codes,
}

-- A claim about a known requirement, over the runs and outputs that the selection has for it, and with
-- support predicates that report no code.
pub record IsBound (B : Bundle) (claim : Fields) : Type 0 where
  pub name : String
  pub named : get "requirement_id" claim ≡ str name
  pub requirement : Fields
  pub known : index_get "requirement_id" B.requirement_index (str name) ≡ ok (some requirement)
  pub chosen_runs : Value
  pub runs_chosen : get_of name B.run_map ≡ ok chosen_runs
  pub same_runs : eq (get "selected_run_ids" claim) chosen_runs ≡ true
  pub outcome : ContractResult
  pub supported :
      validate_semantic_claim_support (support_payload B.record_fields claim) ≡ ok outcome
  pub no_codes : outcome.reason_codes ≡ []

module _ (B : Bundle) (claim : Fields) where
  bound_codes-IsBound :
      (name : String) (requirement : Fields)
      → get "requirement_id" claim ≡ str name
      → index_get "requirement_id" B.requirement_index (str name) ≡ ok (some requirement)
      → Returns (λ codes. codes ≡ [] → IsBound B claim) (bound_codes B name requirement claim)
  bound_codes-IsBound name requirement en er =
      Returns-bind_eq (get_of name B.run_map) _ λ chosen_runs ec.
        Returns-bind (get_of name B.output_map) _ λ chosen_outputs.
          Returns-bind (run_mismatch_codes B name (get "selected_run_ids" claim)) _ λ runs.
            Returns-bind (each (get "selected_output_ids" claim)) _ λ os.
              Returns-bind (output_owner_codes B name (get "selected_run_ids" claim) os) _ λ owners.
                Returns-bind _ _ λ metrics.
                  Returns-bind (scope_ok claim (get "scope" claim)) _ λ scoped.
                    Returns-bind _ _ λ classes.
                      Returns-bind_eq
                        (validate_semantic_claim_support (support_payload B.record_fields claim)) _
                        λ outcome eo. Returns-bind _ _ λ policies. Returns-ok _ λ h.
                          let (r, h1) =
                            append-eq-nil
                              (unless_code (eq (get "selected_run_ids" claim) chosen_runs) _) _ h in
                          let (_, h2) =
                            append-eq-nil
                              (unless_code (eq (get "selected_output_ids" claim) chosen_outputs) _)
                              _ h1 in
                          let (_, h3) = append-eq-nil runs _ h2 in
                          let (_, h4) = append-eq-nil owners _ h3 in
                          let (_, h5) = append-eq-nil metrics _ h4 in
                          let (_, h6) = append-eq-nil (unless_code scoped _) _ h5 in
                          let (_, h7) = append-eq-nil classes _ h6 in
                          let (n, _) = append-eq-nil outcome.reason_codes policies h7 in
                          record {
                            name = name;
                            named = en;
                            requirement = requirement;
                            known = er;
                            chosen_runs = chosen_runs;
                            runs_chosen = ec;
                            same_runs =
                                unless-eq-nil (eq (get "selected_run_ids" claim) chosen_runs) _ r;
                            outcome = outcome;
                            supported = eo;
                            no_codes = n;
                          }

  known_codes-IsBound :
      (v : Value) (found : Option Fields)
      → get "requirement_id" claim ≡ v
      → index_get "requirement_id" B.requirement_index v ≡ ok found
      → Returns (λ codes. codes ≡ [] → IsBound B claim) (known_codes B v claim found)
  known_codes-IsBound (str name) (some requirement) en er =
      bound_codes-IsBound name requirement en er
  known_codes-IsBound (str name) none en er = Returns-ok _ λ h. cc
  known_codes-IsBound _ found en er = Returns-ok _ λ h. cc

  semantic_claim_codes-IsBound :
      Returns (λ codes. codes ≡ [] → IsBound B claim) (semantic_claim_codes B (dict claim))
  unfolding semantic_claim_codes
  semantic_claim_codes-IsBound =
      Returns-bind_eq (index_get "requirement_id" B.requirement_index (get "requirement_id" claim))
        _ λ found e. known_codes-IsBound (get "requirement_id" claim) found refl e

elem_lem : (c : Value) (claim : Fields) → some c ≡ some (dict claim) → c ≡ dict claim
elem_lem c claim h = cc

all_claim_codes-IsBound :
    (B : Bundle) (claims : List Value) (n : ℕ) (claim : Fields)
    → get_elem? claims n ≡ some (dict claim)
    → Returns (λ codes. codes ≡ [] → IsBound B claim) (all_claim_codes B claims)
unfolding all_claim_codes
all_claim_codes-IsBound B [] n claim e = cc
all_claim_codes-IsBound B (c ∷ r) zero claim e =
    Returns-then (semantic_claim_codes B c) _
      (subst (λ x. Returns (λ codes. codes ≡ [] → IsBound B claim) (semantic_claim_codes B x))
        (sym (elem_lem c claim e)) (semantic_claim_codes-IsBound B claim))
      λ codes hc.
        Returns-bind (all_claim_codes B r) _
          λ rest. Returns-ok _ λ h. let (here, _) = append-eq-nil codes rest h in hc here
all_claim_codes-IsBound B (c ∷ r) (suc m) claim e =
    Returns-bind (semantic_claim_codes B c) _ λ codes.
      Returns-then (all_claim_codes B r) _ (all_claim_codes-IsBound B r m claim e)
        λ rest hr. Returns-ok _ λ h. let (_, there) = append-eq-nil codes rest h in hr there

claims_result-IsBound :
    (B : Bundle) (claims : Items) (n : ℕ) (claim : Fields)
    → get_elem? (elements claims) n ≡ some (dict claim)
    → Returns
        (λ (r : ContractResult). r.status ≡ "PASS" → IsBound B claim)
        (claims_result B (list claims))
claims_result-IsBound B nil n claim e = Returns-ok _ λ h. absurd (blocked-not_pass _ h)
claims_result-IsBound B (cons c cs) n claim e =
    Returns-then (all_claim_codes B (c ∷ elements cs)) _
      (all_claim_codes-IsBound B (c ∷ elements cs) n claim e)
      λ codes hc. Returns-ok _ λ h. hc (contract_of-pass codes h)

-- The bundle that is made of the records.
pub record IsBundle (B : Bundle) (record' selection_record output_registry : Fields)
    (requirements sources : Items) : Type 0 where
  pub of_record : B.record_fields ≡ record'
  pub of_requirements : B.requirement_index ≡ dicts (elements requirements)
  pub of_outputs : B.output_registry ≡ output_registry
  pub of_sources : B.sources ≡ elements sources
  pub of_runs :
      map_under "requirement_to_run_map" (or_else (get "selection" selection_record) (dict end))
      ≡ ok B.run_map

-- If `validate_runtime_semantic_claims` passes a record, then each of its claims is about a requirement of
-- the list, has just the runs that the selection names for that requirement, and is checked by
-- `validate_semantic_claim_support` without any code.
pub validate_runtime_semantic_claims-IsBound :
    (record' selection_record manifest_registry output_registry : Fields)
    (requirements sources claims : Items) (n : ℕ) (claim : Fields) (r : ContractResult)
    → get "claims" record' ≡ list claims
    → get_elem? (elements claims) n ≡ some (dict claim)
    → validate_runtime_semantic_claims
        (dict record')
        (dict selection_record)
        (dict manifest_registry)
        (dict output_registry)
        (list requirements)
        (list sources)
      ≡ ok r
    → r.status ≡ "PASS"
    → (B : Bundle) × IsBundle B record' selection_record output_registry requirements sources
      × IsBound B claim
unfolding validate_runtime_semantic_claims
validate_runtime_semantic_claims-IsBound record' selection_record manifest_registry output_registry
      requirements sources claims n claim r ec e h p =
    let (semantic_runs, _, h1) = >>=-eq-ok (records_under "runs" record') _ h in
    let (outputs, _, h2) = >>=-eq-ok (records_under "outputs" record') _ h1 in
    let (selected, _, h3) = >>=-eq-ok (records_under "requirements" selection_record) _ h2 in
    let (run_map, er, h4) =
      >>=-eq-ok
        (map_under "requirement_to_run_map" (or_else (get "selection" selection_record) (dict end)))
        _ h3 in
    let (output_map, _, h5) =
      >>=-eq-ok
        (map_under "requirement_to_output_map"
          (or_else (get "selection" selection_record) (dict end)))
        _ h4 in
    let B : Bundle = record {
      record_fields = record';
      semantic_runs = semantic_runs;
      outputs = outputs;
      requirement_index = dicts (elements requirements);
      selection_requirements = selected;
      run_map = run_map;
      output_map = output_map;
      output_registry = output_registry;
      sources = elements sources;
    } in
    (
      B,
      record {
        of_record = refl;
        of_requirements = refl;
        of_outputs = refl;
        of_sources = refl;
        of_runs = er;
      },
      (claims_result-IsBound B claims n claim e).at r (subst (λ v. claims_result B v ≡ ok r) ec h5)
          p,
    )
