-- ===== src/Kernel/Runtime/OneToOne.antt =====
-- What an aggregate mapping that passes is: one claim of its own for each primary requirement.
use cumcm.Base.{
  ◌≡◌, refl, sym, ap, ◌∙◌, Bool, true, false, ◌&&◌, List, all, map, and-eq-true, arith, not,
}
use mathlib.Core.Path.{subst}
use cumcm.Py.Exn.{Py, ok, >>=-eq-ok, ok-injective}
use cumcm.Py.Value.{Value, str, list, dict, Items, Fields, end, field, elements, keys, values}
use cumcm.Py.Dict.{get}
use cumcm.Py.Member.{and_then}
use cumcm.Py.Records.{dicts, set_of, same_values, distinct_values, contains_value}
use cumcm.Kernel.Gate.{ContractResult}
use cumcm.Kernel.Contract.Verdict.{blocked-not_pass}
use cumcm.Kernel.Contract.Serving.{set_of-eq}
use cumcm.Kernel.Runtime.Aggregate.{
  ClaimMap, claim_map, claimed, claims_it, matches, same_map, mapping_ok, exact_lists,
  aggregate_valid, aggregate_result, aggregate_of, validate_runtime_aggregate_mapping,
}

-- Each entry is the claim that the record makes for its requirement.
abbrev pub AllClaimed : ClaimMap → Fields → Type 0
AllClaimed known end = Unit
AllClaimed known (field k v r) = (claims_it (claimed (str k) known) v ≡ true) × AllClaimed known r

-- Each entry's claim equals that of no later entry.
abbrev pub AllApart : Fields → Type 0
AllApart end = Unit
AllApart (field k v r) = (contains_value (values r) v ≡ false) × AllApart r

matches-AllClaimed :
    (mapping : Fields) (known : ClaimMap) → matches mapping known ≡ true → AllClaimed known mapping
matches-AllClaimed end known h = tt
matches-AllClaimed (field k v r) known h =
    let (here, rest) = and-eq-true (claims_it (claimed (str k) known) v) (matches r known) h in
    (here, matches-AllClaimed r known rest)

distinct_values-AllApart :
    (mapping : Fields) → distinct_values (values mapping) ≡ true → AllApart mapping
distinct_values-AllApart end h = tt
distinct_values-AllApart (field k v r) h =
    let (here, rest) =
      and-eq-true (not (contains_value (values r) v)) (distinct_values (values r)) h in
    (ground arith, distinct_values-AllApart r rest)

and_then-eq-true : (b : Bool) (m : Py Bool) → and_then b m ≡ ok true → (b ≡ true) × (m ≡ ok true)
and_then-eq-true true m h = (refl, h)
and_then-eq-true false m h = cc

-- A mapping of the expected requirements, each to its claim, with different claims.
pub record IsOneToOne (primary : List Value) (known : ClaimMap) (mapping : Fields) : Type 0 where
  pub exact : same_values (map str (keys mapping)) primary ≡ true
  pub covered : all (λ c. contains_value (map str (keys mapping)) c.0) known ≡ true
  pub claims : AllClaimed known mapping
  pub apart : AllApart mapping

module _ (primary : List Value) (known : ClaimMap) (mapping : Fields) where
  mapping_ok-IsOneToOne :
      mapping_ok primary known (dict mapping) ≡ ok true → IsOneToOne primary known mapping
  mapping_ok-IsOneToOne h =
      let (tests, more) =
        and_then-eq-true (same_values (map str (keys mapping)) primary && same_map mapping known) _
          h in
      let (exact, same) =
        and-eq-true (same_values (map str (keys mapping)) primary) (same_map mapping known) tests in
      let (covered, matching) =
        and-eq-true (all (λ c. contains_value (map str (keys mapping)) c.0) known)
          (matches mapping known) same in
      let (ids, collected, distinct) = >>=-eq-ok (set_of (values mapping)) _ more in
      let d : distinct_values (values mapping) ≡ true =
        ap distinct_values (set_of-eq (values mapping) ids collected)
        ∙ ok-injective _ true distinct in
      record {
        exact = exact;
        covered = covered;
        claims = matches-AllClaimed mapping known matching;
        apart = distinct_values-AllApart mapping d;
      }

  aggregate_valid-IsOneToOne :
      (declared supported : Value)
      → aggregate_valid primary known declared supported (dict mapping) ≡ ok true
      → IsOneToOne primary known mapping
  unfolding aggregate_valid
  aggregate_valid-IsOneToOne (list ds) (list ss) h =
      let (exact, _, h1) = >>=-eq-ok (exact_lists primary known (elements ds) (elements ss)) _ h in
      let (_, m) = and_then-eq-true exact (mapping_ok primary known (dict mapping)) h1 in
      mapping_ok-IsOneToOne m
  aggregate_valid-IsOneToOne (list ds) _ h = cc
  aggregate_valid-IsOneToOne _ _ h = cc

  result_lem :
      (declared supported : Value) (valid : Bool)
      → aggregate_valid primary known declared supported (dict mapping) ≡ ok valid
      → (aggregate_result valid).status ≡ "PASS"
      → IsOneToOne primary known mapping
  result_lem declared supported true e h = aggregate_valid-IsOneToOne declared supported e
  result_lem declared supported false e h = absurd (blocked-not_pass _ h)

-- If `validate_runtime_aggregate_mapping` passes a record whose aggregate has the mapping `mapping` and whose
-- claims make the map `known`, the keys of the mapping are just the primary requirements, every requirement
-- that a claim names is a key, each key has the claim that the record makes for it, and no two of these
-- claims are equal.
pub validate_runtime_aggregate_mapping-IsOneToOne :
    (record' aggregate mapping : Fields) (primary claims : Items) (known : ClaimMap)
    (r : ContractResult)
    → get "aggregate" record' ≡ dict aggregate
    → get "claims" record' ≡ list claims
    → get "requirement_claim_ids" aggregate ≡ dict mapping
    → claim_map (dicts (elements claims)) ≡ ok known
    → validate_runtime_aggregate_mapping (dict record') (list primary) ≡ ok r
    → r.status ≡ "PASS"
    → IsOneToOne (elements primary) known mapping
unfolding validate_runtime_aggregate_mapping
validate_runtime_aggregate_mapping-IsOneToOne record' aggregate mapping primary claims known r ea ec
      em ek h p =
    let run : aggregate_of (elements primary) (dict aggregate) (list claims) ≡ ok r =
      rw (ea, ec) at h in
    let (known', made, h1) = >>=-eq-ok (claim_map (dicts (elements claims))) _ run in
    let (expected, set_made, h2) = >>=-eq-ok (set_of (elements primary)) _ h1 in
    let declared = get "primary_requirement_ids" aggregate in
    let supported = get "supported_requirement_ids" aggregate in
    let (valid, judged, h3) =
      >>=-eq-ok
        (aggregate_valid expected known' declared supported (get "requirement_claim_ids" aggregate))
        _ h2 in
    let pass : (aggregate_result valid).status ≡ "PASS" =
      ap (λ x. x.status) (ok-injective (aggregate_result valid) r h3) ∙ p in
    let same_known : known' ≡ known = ok-injective known' known (sym made ∙ ek) in
    let same_set : elements primary ≡ expected = set_of-eq (elements primary) expected set_made in
    subst (λ xs. IsOneToOne xs known mapping) (sym same_set)
      (subst (λ c. IsOneToOne expected c mapping) same_known
        (result_lem expected known' mapping declared supported valid (rw em at judged) pass))
