-- ===== src/Kernel/Contract/Supported.antt =====
-- What PASS of `validate_semantic_claim_support` means for the claim.
use cumcm.Base.{
  String, ◌≡◌, refl, ap, ◌∙◌, Bool, true, false, not, ◌&&◌, ◌||◌, Option, List, [], ◌∷◌, ◌++◌, any,
  if◌then◌else◌, append-eq-nil, and-eq-true,
}
use mathlib.Core.Path.{subst}
use cumcm.Py.Exn.{Py, ok, raise, type_error, ok-injective}
use cumcm.Py.Value.{Value, list, dict, Items, Fields, elements, is_dict, is_text}
use cumcm.Py.Dict.{get}
use cumcm.Py.Member.{member_text, hashable}
use cumcm.Py.Records.{Index, dicts, index_by}
use cumcm.Py.Returns.{Returns, Returns-ok, Returns-bind, Returns-bind_eq, Returns-then}
use cumcm.Kernel.Gate.{ContractResult}
use cumcm.Kernel.Contract.Verdict.{contract_of-pass, blocked-not_pass}
use cumcm.Kernel.Contract.{empirical_evidence_classes}
use cumcm.Kernel.Contract.Selection.{unless_code}
use cumcm.Kernel.Contract.Claims.{
  Checks, failed, claim_types, is_found, some_and_all, look_up, implied, is_type, hold, type_checks,
  claim_checks, predicates_of, all_checks, support_checks, support_result, support_of,
  claim_invalid, validate_semantic_claim_support, metrics_bound, found_dicts, comparators_known,
  aggregate_ok,
}

abbrev AllHold : Checks → Type 0
AllHold [] = Unit
AllHold ((b, code) ∷ r) = (b ≡ true) × AllHold r

unless-eq-nil : (b : Bool) (c : String) → unless_code b c ≡ [] → b ≡ true
unless-eq-nil true c h = refl
unless-eq-nil false c h = cc

failed-AllHold : (cs : Checks) → failed cs ≡ [] → AllHold cs
failed-AllHold [] h = tt
failed-AllHold ((b, code) ∷ r) h =
    let (x, y) = append-eq-nil (unless_code b code) (failed r) h in
    (unless-eq-nil b code x, failed-AllHold r y)

AllHold-append : (xs ys : Checks) → AllHold (xs ++ ys) → AllHold xs × AllHold ys
AllHold-append [] ys h = (tt, h)
AllHold-append ((b, code) ∷ r) ys (e, h) = let (x, y) = AllHold-append r ys h in ((e, x), y)

-- What a claim of each type needs among its predicates.
pub record IsBackedUp (claim predicates : Fields) : Type 0 where
  pub conditional :
      is_type claim "SIMULATION_CONDITIONAL" ≡ true
      → hold predicates ("registered_assumptions_bound" ∷ []) ≡ true
  pub comparative :
      is_type claim "COMPARATIVE" ≡ true
      → hold predicates ("comparable_inputs" ∷ "common_metric" ∷ []) ≡ true
  pub executed :
      is_type claim "POLICY_EVALUATION" ≡ true
      → hold predicates ("policy_executed" ∷ "policy_exposure_positive" ∷ []) ≡ true
  pub weighed :
      is_type claim "POLICY_EVALUATION" ≡ true
      → hold predicates ("benefit_recorded" ∷ "cost_recorded" ∷ []) ≡ true
  pub feasible :
      is_type claim "FEASIBILITY" ≡ true
      → hold predicates ("independent_constraint_recalculation" ∷ []) ≡ true
  pub optimal :
      (is_type claim "OPTIMALITY" && is_text (get "claim_strength" claim) "GLOBAL_OPTIMUM") ≡ true
      → hold predicates ("global_optimality_certificate" ∷ []) ≡ true
  pub causal :
      is_type claim "CAUSAL" ≡ true → hold predicates ("causal_identification_design" ∷ []) ≡ true
  pub predictive :
      is_type claim "PREDICTIVE" ≡ true
      → hold predicates ("validation_boundary_frozen" ∷ "held_out_test_valid" ∷ []) ≡ true

-- A supported claim of a known type, with its predicates, over runs that are all there.
pub record IsSupported (claim : Fields) (runs : List Fields) : Type 0 where
  pub known : any (is_text (get "claim_type" claim)) claim_types ≡ true
  pub status : is_text (get "status" claim) "SUPPORTED" ≡ true
  pub predicates : Fields
  pub named : get "support_predicates" claim ≡ dict predicates
  pub backed : IsBackedUp claim predicates
  pub empirical :
      is_type claim "EMPIRICAL" ≡ true
      → any (is_text (get "evidence_class" claim)) empirical_evidence_classes ≡ true
  pub index : Index
  pub indexed : index_by "run_id" runs ≡ ok index
  pub selected : List (Option Fields)
  pub looked_up : look_up index (get "selected_run_ids" claim) ≡ ok selected
  pub all_found : some_and_all is_found selected ≡ true

then_lem : (a b : Bool) → (not a || b) ≡ true → a ≡ true → b ≡ true
then_lem true b h e = h
then_lem false b h e = cc

type_checks-IsBackedUp :
    (claim predicates : Fields) (runs : List (Option Fields))
    → AllHold (type_checks claim predicates runs)
    → IsBackedUp claim predicates
type_checks-IsBackedUp claim predicates runs h =
    let (s, h1) = h in
    let (c, h2) = h1 in
    let (_, h3) = h2 in
    let (e, h4) = h3 in
    let (w, h5) = h4 in
    let (f, h6) = h5 in
    let (o, h7) = h6 in
    let (k, h8) = h7 in
    let (p, _) = h8 in
    record {
      conditional = then_lem _ _ s;
      comparative = then_lem _ _ c;
      executed = then_lem _ _ e;
      weighed = then_lem _ _ w;
      feasible = then_lem _ _ f;
      optimal = then_lem _ _ o;
      causal = then_lem _ _ k;
      predictive = then_lem _ _ p;
    }

member_text-eq_lem :
    (h : Bool) (b : Bool) → (if h then ok b else raise type_error) ≡ ok true → b ≡ true
member_text-eq_lem true b e = ok-injective b true e
member_text-eq_lem false b e = cc

member_text-eq :
    (v : Value) (xs : List String) → member_text v xs ≡ ok true → any (is_text v) xs ≡ true
member_text-eq v xs h = member_text-eq_lem (hashable v) (any (is_text v) xs) h

implied-eq : (a : Bool) (m : Py Bool) → implied a m ≡ ok true → a ≡ true → m ≡ ok true
implied-eq true m h e = h
implied-eq false m h e = cc

dict_of : (v : Value) → is_dict v ≡ true → (fs : Fields) × (v ≡ dict fs)
dict_of (dict fs) h = (fs, refl)
dict_of _ h = cc

predicates_of-dict :
    (b : Bool) (v : Value) (fs : Fields) → b ≡ true → v ≡ dict fs → predicates_of b v ≡ fs
predicates_of-dict b v fs h e = rw (h, e) refl

module _ (claim : Fields) (runs outputs comparators : List Fields) (validation : Fields)
    (aggregate : Value) where
  checked :
      (known : Bool) (run_index : Index) (selected : List (Option Fields)) (empirical : Bool)
      → member_text (get "claim_type" claim) claim_types ≡ ok known
      → index_by "run_id" runs ≡ ok run_index
      → look_up run_index (get "selected_run_ids" claim) ≡ ok selected
      → implied
          (is_type claim "EMPIRICAL")
          (member_text (get "evidence_class" claim) empirical_evidence_classes)
        ≡ ok empirical
      → (known && is_dict (get "support_predicates" claim)) ≡ true
      → some_and_all is_found selected ≡ true
      → empirical ≡ true
      → AllHold (
          type_checks claim (predicates_of known (get "support_predicates" claim)) selected
          ++ claim_checks claim validation)
      → IsSupported claim runs
  checked known run_index selected empirical ek ei es em kp all_found ee h =
      let (k, d) = and-eq-true known (is_dict (get "support_predicates" claim)) kp in
      let (predicates, named) = dict_of (get "support_predicates" claim) d in
      let (t, c) =
        AllHold-append
          (type_checks claim (predicates_of known (get "support_predicates" claim)) selected)
          (claim_checks claim validation) h in
      let (_, c1) = c in
      let (st, _) = c1 in
      let backed =
        type_checks-IsBackedUp claim (predicates_of known (get "support_predicates" claim)) selected
          t in
      record {
        known = member_text-eq (get "claim_type" claim) claim_types (ek ∙ ap ok k);
        status =
            (and-eq-true (is_text (get "status" claim) "SUPPORTED") _ (and-eq-true _ _ st).0).0;
        predicates = predicates;
        named = named;
        backed =
            subst (IsBackedUp claim)
              (predicates_of-dict known (get "support_predicates" claim) predicates k named) backed;
        empirical = λ e.
            member_text-eq (get "evidence_class" claim) empirical_evidence_classes
              (implied-eq _ _ (em ∙ ap ok ee) e);
        index = run_index;
        indexed = ei;
        selected = selected;
        looked_up = es;
        all_found = all_found;
      }

  checks-IsSupported :
      (known : Bool)
      → member_text (get "claim_type" claim) claim_types ≡ ok known
      → Returns
          (λ (cs : Checks). failed cs ≡ [] → IsSupported claim runs)
          (support_checks claim runs outputs comparators validation aggregate known)
  checks-IsSupported known ek =
      let policy = is_type claim "POLICY_EVALUATION" in
      Returns-bind_eq (index_by "run_id" runs) _ λ run_index ei.
        Returns-bind (index_by "output_id" outputs) _ λ output_index.
          Returns-bind_eq (look_up run_index (get "selected_run_ids" claim)) _ λ selected es.
            Returns-bind (look_up output_index (get "selected_output_ids" claim)) _ λ chosen.
              Returns-bind (metrics_bound (get "metric_ids" claim) (found_dicts chosen)) _
                λ metrics.
                  Returns-bind_eq
                    (implied (is_type claim "EMPIRICAL")
                      (member_text (get "evidence_class" claim) empirical_evidence_classes))
                    _
                    λ empirical em.
                      Returns-bind (index_by "comparator_id" comparators) _ λ comparator_index.
                        Returns-bind
                          (implied (is_type claim "COMPARATIVE" || policy)
                            (comparators_known comparator_index (get "comparator_ids" claim)))
                          _
                          λ compared. Returns-bind (aggregate_ok aggregate) _ λ aggregated.
                            Returns-ok _ λ h.
                              let (kp, h1) =
                                failed-AllHold
                                  (all_checks claim runs outputs comparators validation aggregate
                                    known selected chosen metrics empirical compared aggregated)
                                  h in
                              let (found, h2) = h1 in
                              let (_, h3) = h2 in
                              let (_, h4) = h3 in
                              let (ee, h5) = h4 in
                              let (_, h6) = h5 in
                              let (_, rest) = h6 in
                              checked known run_index selected empirical ek ei es em kp found ee
                                rest

  result-IsSupported :
      Returns
        (λ (r : ContractResult). r.status ≡ "PASS" → IsSupported claim runs)
        (support_result claim runs outputs comparators validation aggregate)
  unfolding support_result
  result-IsSupported =
      Returns-bind_eq (member_text (get "claim_type" claim) claim_types) _ λ known ek.
        Returns-then (support_checks claim runs outputs comparators validation aggregate known) _
          (checks-IsSupported known ek)
          λ cs hc. Returns-ok _ λ h. hc (contract_of-pass (failed cs) h)

invalid-Returns :
    (claim : Fields) (runs : List Fields)
    → Returns (λ (r : ContractResult). r.status ≡ "PASS" → IsSupported claim runs) claim_invalid
invalid-Returns claim runs = Returns-ok _ λ h. absurd (blocked-not_pass _ h)

support_of-IsSupported :
    (claim : Fields) (runs : Items) (outputs comparators validation aggregate : Value)
    → Returns
        (λ (r : ContractResult). r.status ≡ "PASS" → IsSupported claim (dicts (elements runs)))
        (support_of (dict claim) (list runs) outputs comparators validation aggregate)
support_of-IsSupported claim runs (list outputs) (list comparators) (dict validation) aggregate =
    result-IsSupported claim (dicts (elements runs)) (dicts (elements outputs))
      (dicts (elements comparators)) validation aggregate
support_of-IsSupported claim runs (list outputs) (list comparators) _ aggregate =
    invalid-Returns claim (dicts (elements runs))
support_of-IsSupported claim runs (list outputs) _ validation aggregate =
    invalid-Returns claim (dicts (elements runs))
support_of-IsSupported claim runs _ comparators validation aggregate =
    invalid-Returns claim (dicts (elements runs))

-- If `validate_semantic_claim_support` passes a payload, its claim has a known type and the status
-- SUPPORTED, the runs that it selects are all there, its predicates have what its type needs, and an
-- empirical claim has an empirical evidence class.
pub validate_semantic_claim_support-IsSupported :
    (payload claim : Fields) (runs : Items) (r : ContractResult)
    → get "claim" payload ≡ dict claim
    → get "runs" payload ≡ list runs
    → validate_semantic_claim_support (dict payload) ≡ ok r
    → r.status ≡ "PASS"
    → IsSupported claim (dicts (elements runs))
unfolding validate_semantic_claim_support
validate_semantic_claim_support-IsSupported payload claim runs r ec er h p =
    (support_of-IsSupported claim runs (get "outputs" payload) (get "comparators" payload)
        (get "validation" payload) (get "aggregate" payload)).at
      r (rw (ec, er) at h) p
