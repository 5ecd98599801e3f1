-- ===== src/Kernel/Runtime/Evidence.antt =====
-- `build_runtime_claim_evidence`: the claim evidence that a final result and the manifests determine.
use Prim.Native.Char.{code}
use cumcm.Base.{ℕ, zero, suc, String, ◌<>◌, List, [], ◌∷◌, eqb, if◌then◌else◌}
use cumcm.Py.Exn.{Py, ok, raise, value_error, type_error, key_error, ◌>>=◌}
use cumcm.Py.Value.{Value, str, list, dict, Items, Fields, end, fields, elements}
use cumcm.Py.Dict.{get, get_or, item, set}
use cumcm.Py.Member.{iterate, hashable}
use cumcm.Py.Records.{get_of}
use cumcm.Kernel.Host.{Host, canonical_hash}

-- `.upper()` of a hexadecimal digit.
abbrev upper_digit : ℕ → String → String
upper_digit c s =
    if eqb c b'a'
    then "A"
    else if eqb c b'b'
    then "B"
    else if eqb c b'c'
    then "C"
    else if eqb c b'd'
    then "D"
    else if eqb c b'e'
    then "E"
    else if eqb c b'f'
    then "F"
    else s

-- `text[:n].upper()` of a text of hexadecimal digits.
abbrev pub upper_prefix : ℕ → String → String
upper_prefix zero s = ""
upper_prefix (suc n) String.[] = ""
upper_prefix (suc n) (String.◌∷◌ c s) =
    upper_digit (code c) (String.◌∷◌ c String.[]) <> upper_prefix n s

-- `{run_id: f(registry[run_id]) for run_id in run_ids}`
abbrev each_run : (Value → Py Value) → Fields → Fields → List Value → Py Fields
each_run f registry made [] = ok made
each_run f registry made (str run_id ∷ r) =
    item run_id registry >>= f >>= λ v. each_run f registry (set run_id v made) r
each_run f registry made (v ∷ r) = raise (if hashable v then key_error else type_error)

abbrev evidence_of : String → Fields → Fields → Fields → Value
evidence_of scope_hash claim manifest_hashes output_hashes = dict (
    fields (
      ("claim_id", get "claim_id" claim)
      ∷ ("requirement_id", get "requirement_id" claim)
      ∷ ("claim_type", get "claim_type" claim)
      ∷ ("selected_run_ids", get "selected_run_ids" claim)
      ∷ ("selected_output_ids", get "selected_output_ids" claim)
      ∷ ("metric_ids", get "metric_ids" claim)
      ∷ ("evidence_class", get "evidence_class" claim)
      ∷ ("scope_hash", str scope_hash)
      ∷ ("manifest_hashes", dict manifest_hashes)
      ∷ ("output_hashes", dict output_hashes)
      ∷ []))

abbrev invalid_claim : Py Fields
invalid_claim = raise (value_error "RC_SEMANTIC_CLAIM_INPUT_INVALID")

module _ (H : Host) (registry : Fields) where
  abbrev bind_claim : Fields → Fields → Value → Value → Py Fields
  bind_claim made claim (str requirement_id) (list (Items.cons v vs)) =
      canonical_hash H (get "scope" claim) >>= λ scope_hash.
      each_run (λ m. canonical_hash H m >>= λ digest. ok (str digest)) registry end
        (v ∷ elements vs)
      >>= λ manifests. each_run (get_of "output_hash") registry end (v ∷ elements vs) >>= λ outputs.
          ok (set requirement_id (evidence_of scope_hash claim manifests outputs) made)
  bind_claim made claim _ _ = invalid_claim

  abbrev add_claim : Fields → Value → Py Fields
  add_claim made (dict claim) =
      bind_claim made claim (get "requirement_id" claim) (get "selected_run_ids" claim)
  add_claim made v = invalid_claim

  unfoldable pub claim_bindings : Fields → List Value → Py Fields
  claim_bindings made [] = ok made
  claim_bindings made (v ∷ r) = add_claim made v >>= λ more. claim_bindings more r

abbrev aggregate_body : Fields → List (String × Value)
aggregate_body aggregate =
    ("primary_requirement_ids", get "primary_requirement_ids" aggregate)
    ∷ ("supported_requirement_ids", get "supported_requirement_ids" aggregate)
    ∷ ("requirement_claim_ids", get "requirement_claim_ids" aggregate)
    ∷ []

abbrev aggregate_id : Host → Fields → Py Value
aggregate_id H aggregate = canonical_hash H (dict (fields (aggregate_body aggregate))) >>= λ digest.
    ok (str ("CLAIM-AGGREGATE-" <> upper_prefix 24 digest))

abbrev evidence_with : Host → Fields → Fields → Value → Py Fields
evidence_with H final bindings (dict aggregate) = aggregate_id H aggregate >>= λ claim_id. ok (
    fields (
      ("contract_version", str "claim-evidence/runtime-v3")
      ∷ ("evidence_status", str "CURRENT")
      ∷ ("contradiction_status", str "NONE")
      ∷ ("decision_hash", get "decision_hash" final)
      ∷ ("claims", dict bindings)
      ∷ ("aggregate", dict (fields (("claim_id", claim_id) ∷ aggregate_body aggregate)))
      ∷ []))
evidence_with H final bindings v = raise (value_error "RC_AGGREGATE_CLAIM_MAPPING_INVALID")

unfoldable pub build_runtime_claim_evidence : Host → Fields → Fields → Fields → Py Fields
build_runtime_claim_evidence H final semantic_record registry =
    iterate (get_or "claims" (list Items.nil) semantic_record) >>= λ claims.
    claim_bindings H registry end claims >>= λ bindings.
    evidence_with H final bindings (get "aggregate" semantic_record)
