-- ===== src/Kernel/Runtime/Bound.antt =====
-- What a final result binds once `validate_runtime_finalization` passes it.
use cumcm.Base.{
  String, ◌≡◌, refl, sym, ap, ◌∙◌, true, false, Option, none, some, List, [], ◌∷◌, ◌++◌, ◌==◌,
  contains, eq_iff, eq_refl, append-eq-nil, Bool-cases, inl, inr, arith,
}
use mathlib.Core.Path.{subst}
use cumcm.Py.Exn.{
  Py, ok, raise, value_error, type_error, key_error, attribute_error, os_error, json_error,
  overflow_error, file_exists_error, >>=-eq-ok, ok-injective,
}
use cumcm.Py.Value.{Value, str, dict, Fields, field, lookup, eq}
use cumcm.Py.Dict.{get, item}
use cumcm.Py.Equal.{eq-lookup}
use cumcm.Py.Records.{named}
use cumcm.Kernel.Host.{Host, canonical_hash}
use cumcm.Kernel.Gate.{ContractResult, contract_result, sorted_set}
use cumcm.Kernel.Contract.{contract_of}
use cumcm.Kernel.Contract.Verdict.{contract_of-pass, blocked-not_pass}
use cumcm.Kernel.Contract.Selection.{unless_code}
use cumcm.Kernel.Contract.Serving.{unless-eq-nil}
use cumcm.Kernel.Runtime.Eligibility.{selected_runtime_run_ids}
use cumcm.Kernel.Runtime.Final.{
  served, output_ids_for, binding_of, run_binding, run_bindings, build_from, build_with,
  final_result, records_in, names_under, limitations_of, decision_hash, requirement_results,
  build_runtime_final_result,
}
use cumcm.Kernel.Runtime.Evidence.{build_runtime_claim_evidence}
use cumcm.Kernel.Runtime.Finalization.{expected, compared, validate_runtime_finalization}

-- The entry of a run in the bindings: it carries the hashes of the run's manifest.
pub record IsBoundRun (H : Host) (registry bindings : Fields) (run_id : String) : Type 0 where
  pub manifest : Fields
  pub registered : get run_id registry ≡ dict manifest
  pub binding : Fields
  pub found : lookup run_id bindings ≡ some (dict binding)
  pub digest : String
  pub hashed : canonical_hash H (dict manifest) ≡ ok digest
  pub manifest_hash : get "manifest_hash" binding ≡ str digest
  pub input_hash : get "input_hash" binding ≡ get "input_hash" manifest
  pub output_hash : get "output_hash" binding ≡ get "output_hash" manifest

lookup_here : (s : String) (v : Value) (r : Fields) → lookup s (field s v r) ≡ some v
lookup_here s v r = rw eq_refl refl

module _ (H : Host) (registry : Fields) (runs : List Fields) (run_map : Fields) (output_map : Value)
    (run_id : String) where
  made_lem :
      (v : Value) (declared : Option Fields) (binding : Value) (rest : Fields)
      → get run_id registry ≡ v
      → run_binding H run_map output_map run_id v declared ≡ ok binding
      → lookup run_id (field run_id binding rest) ≡ some binding
      → IsBoundRun H registry (field run_id binding rest) run_id
  made_lem (dict manifest) (some declared) binding rest er h l =
      let (chosen, _, h1) = >>=-eq-ok (served run_id run_map) _ h in
      let (output_ids, _, h2) = >>=-eq-ok (output_ids_for output_map (sorted_set chosen)) _ h1 in
      let (digest, hashed, h3) = >>=-eq-ok (canonical_hash H (dict manifest)) _ h2 in
      let made = binding_of digest manifest declared (sorted_set chosen) output_ids in
      let same : dict made ≡ binding = ok-injective (dict made) binding h3 in
      record {
        manifest = manifest;
        registered = er;
        binding = made;
        found = l ∙ ap some (sym same);
        digest = digest;
        hashed = hashed;
        manifest_hash = refl;
        input_hash = refl;
        output_hash = refl;
      }
  made_lem (dict manifest) none binding rest er h l = cc
  made_lem _ declared binding rest er h l = cc

  later_lem :
      (i : String) (v : Value) (rest : Fields)
      → (i == run_id) ≡ false
      → IsBoundRun H registry rest run_id
      → IsBoundRun H registry (field i v rest) run_id
  later_lem i v rest n h = record {
    manifest = h.manifest;
    registered = h.registered;
    binding = h.binding;
    found = rw n h.found;
    digest = h.digest;
    hashed = h.hashed;
    manifest_hash = h.manifest_hash;
    input_hash = h.input_hash;
    output_hash = h.output_hash;
  }

  run_bindings-IsBoundRun :
      (ids : List String) (bindings : Fields)
      → run_bindings H registry runs run_map output_map ids ≡ ok bindings
      → contains ids run_id ≡ true
      → IsBoundRun H registry bindings run_id
  unfolding run_bindings
  run_bindings-IsBoundRun [] bindings h k = cc
  run_bindings-IsBoundRun (i ∷ r) bindings h k =
      let (binding, made, h1) =
        >>=-eq-ok (run_binding H run_map output_map i (get i registry) (named "run_id" i runs)) _
          h in
      let (rest, others, h2) = >>=-eq-ok (run_bindings H registry runs run_map output_map r) _ h1 in
      let whole : field i binding rest ≡ bindings =
        ok-injective (field i binding rest) bindings h2 in
      subst (λ bs. IsBoundRun H registry bs run_id) whole
        (elim (Bool-cases (i == run_id)) [
          | inl e ↦
              let same : i ≡ run_id = ground (arith, eq_iff i run_id) in
              subst (λ j. IsBoundRun H registry (field j binding rest) run_id) (sym same)
                (made_lem (get run_id registry) (named "run_id" run_id runs) binding rest refl
                  (subst
                    (λ j.
                      run_binding H run_map output_map j (get j registry) (named "run_id" j runs)
                      ≡ ok binding)
                    same made)
                  (lookup_here run_id binding rest))
          | inr n ↦
              later_lem i binding rest n (run_bindings-IsBoundRun r rest others (ground arith))
        ])

-- A final result that was built: its bindings have the run.
record IsBuilt (H : Host) (registry final : Fields) (run_id : String) : Type 0 where
  pub bindings : Fields
  pub held : lookup "run_bindings" final ≡ some (dict bindings)
  pub bound : IsBoundRun H registry bindings run_id

module _ (H : Host) (selection_record semantic_record registry : Fields) (run_id : String) where
  build_from-IsBuilt :
      (ids : List String) (selection run_map final : Fields)
      → contains ids run_id ≡ true
      → build_from H selection_record semantic_record registry ids selection run_map ≡ ok final
      → IsBuilt H registry final run_id
  build_from-IsBuilt ids selection run_map final k h =
      let (output_map, _, h1) = >>=-eq-ok (item "requirement_to_output_map" selection) _ h in
      let (runs, _, h2) = >>=-eq-ok (records_in "runs" selection_record) _ h1 in
      let (requirements, _, h3) = >>=-eq-ok (records_in "requirements" selection_record) _ h2 in
      let (claims, _, h4) = >>=-eq-ok (records_in "claims" semantic_record) _ h3 in
      let (decision, _, h5) = >>=-eq-ok (decision_hash registry ids) _ h4 in
      let (bindings, made, h6) =
        >>=-eq-ok (run_bindings H registry runs run_map output_map ids) _ h5 in
      let (results, _, h7) =
        >>=-eq-ok
          (requirement_results run_map output_map requirements claims
            (names_under "requirement_id" requirements))
          _ h6 in
      let (limitations, _, h8) = >>=-eq-ok (limitations_of selection) _ h7 in
      let whole =
        ok-injective (final_result selection decision ids bindings results limitations) final h8 in
      record {
        bindings = bindings;
        held = ap (lookup "run_bindings") (sym whole);
        bound =
            run_bindings-IsBoundRun H registry runs run_map output_map run_id ids bindings made k;
      }

  build_map-IsBuilt :
      (ids : List String) (selection final : Fields) (run_map : Value)
      → contains ids run_id ≡ true
      → elim run_map [
        | dict run_map ↦
            build_from H selection_record semantic_record registry ids selection run_map
        | _ ↦ raise (value_error "RC_REQUIREMENT_SELECTION_INPUT_INVALID")
      ]
        ≡ ok final
      → IsBuilt H registry final run_id
  build_map-IsBuilt ids selection final (dict run_map) k h =
      build_from-IsBuilt ids selection run_map final k h
  build_map-IsBuilt ids selection final _ k h = cc

  build_with-IsBuilt :
      (ids : List String) (v : Value) (final : Fields)
      → contains ids run_id ≡ true
      → build_with H selection_record semantic_record registry ids v ≡ ok final
      → IsBuilt H registry final run_id
  build_with-IsBuilt ids (dict selection) final k h =
      build_map-IsBuilt ids selection final (get "requirement_to_run_map" selection) k h
  build_with-IsBuilt ids _ final k h = cc

  build_runtime_final_result-IsBuilt :
      (ids : List String) (final : Fields)
      → selected_runtime_run_ids selection_record ≡ ok ids
      → contains ids run_id ≡ true
      → build_runtime_final_result H selection_record semantic_record registry ≡ ok final
      → IsBuilt H registry final run_id
  unfolding build_runtime_final_result
  build_runtime_final_result-IsBuilt ids final e k h =
      build_with-IsBuilt ids (get "selection" selection_record) final k (rw e at h)

not_invalid :
    (codes : List String) (r : ContractResult)
    → ok (contract_result "BLOCK" codes) ≡ ok r
    → r.status ≡ "PASS"
    → ⊥
not_invalid codes r h p =
    blocked-not_pass codes
      (ap (λ x. x.status) (ok-injective (contract_result "BLOCK" codes) r h) ∙ p)

-- A comparison that passes was made, and the final results are equal.
compared-eq :
    (final claim : Fields) (m : Py (Fields × Fields)) (r : ContractResult)
    → compared final claim m ≡ ok r
    → r.status ≡ "PASS"
    → (f : Fields) × (c : Fields) × (m ≡ ok (f, c)) × (eq (dict final) (dict f) ≡ true)
compared-eq final claim (ok (f, c)) r h p =
    let codes =
      unless_code (eq (dict final) (dict f)) "RC_FINAL_RESULT_PORTFOLIO_BINDING_INVALID" in
    let more = unless_code (eq (dict claim) (dict c)) "RC_CLAIM_RUNTIME_BINDING_INVALID" in
    let none_left =
      contract_of-pass (codes ++ more)
        (ap (λ x. x.status) (ok-injective (contract_of (codes ++ more)) r h) ∙ p) in
    let (here, _) = append-eq-nil codes more none_left in
    (f, c, refl, unless-eq-nil (eq (dict final) (dict f)) _ here)
compared-eq final claim (raise attribute_error) r h p = cc
compared-eq final claim (raise overflow_error) r h p = cc
compared-eq final claim (raise os_error) r h p = cc
compared-eq final claim (raise file_exists_error) r h p = cc
compared-eq final claim (raise (value_error m)) r h p = absurd (not_invalid _ r h p)
compared-eq final claim (raise type_error) r h p = absurd (not_invalid _ r h p)
compared-eq final claim (raise key_error) r h p = absurd (not_invalid _ r h p)
compared-eq final claim (raise json_error) r h p = absurd (not_invalid _ r h p)

-- If `validate_runtime_finalization` passes a final result, the value of its run_bindings equals a
-- dictionary in which each run that `_selected_runtime_run_ids` returns has an entry with the hash of the
-- run's manifest in the registry, and with the input hash and the output hash that this manifest has.
pub validate_runtime_finalization-IsBoundRun :
    (H : Host) (final claim selection_record semantic_record registry : Fields) (v : Value)
    (ids : List String) (run_id : String) (r : ContractResult)
    → selected_runtime_run_ids selection_record ≡ ok ids
    → contains ids run_id ≡ true
    → lookup "run_bindings" final ≡ some v
    → validate_runtime_finalization H
        (dict final)
        (dict claim)
        (dict selection_record)
        (dict semantic_record)
        (dict registry)
      ≡ ok r
    → r.status ≡ "PASS"
    → (bindings : Fields) × (eq v (dict bindings) ≡ true) × IsBoundRun H registry bindings run_id
unfolding validate_runtime_finalization expected
validate_runtime_finalization-IsBoundRun H final claim selection_record semantic_record registry v
      ids run_id r e k l h p =
    let (f, c, made, same) =
      compared-eq final claim (expected H selection_record semantic_record registry) r h p in
    let (f', built, h1) =
      >>=-eq-ok (build_runtime_final_result H selection_record semantic_record registry) _ made in
    let (c', _, h2) = >>=-eq-ok (build_runtime_claim_evidence H f' semantic_record registry) _ h1 in
    let ff : f' ≡ f = ap (λ x. x.0) (ok-injective (f', c') (f, c) h2) in
    let b =
      build_runtime_final_result-IsBuilt H selection_record semantic_record registry run_id ids f' e
        k built in
    (
      b.bindings,
      eq-lookup final f "run_bindings" v (dict b.bindings) same l
          (subst (λ x. lookup "run_bindings" x ≡ some (dict b.bindings)) ff b.held),
      b.bound,
    )
