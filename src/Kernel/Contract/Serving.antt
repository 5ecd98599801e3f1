-- ===== src/Kernel/Contract/Serving.antt =====
-- Runs that report no code serve their requirement.
use cumcm.Base.{
  String, ◌≡◌, refl, sym, ap, ◌∙◌, Bool, true, false, not, List, [], ◌∷◌, ◌++◌, if◌then◌else◌, all,
  append-eq-nil,
}
use cumcm.Py.Exn.{Py, ok, raise, type_error, ◌>>=◌, ok-injective}
use cumcm.Py.Value.{Value, str, Fields}
use cumcm.Py.Member.{hashable}
use cumcm.Py.Records.{in_field, set_of, any_of, subset_values}
use cumcm.Py.Returns.{Returns, Returns-ok, Returns-bind, Returns-bind_eq, Returns-then}
use cumcm.Kernel.Contract.Selection.{
  Choice, is_sound, unless_code, run_codes, all_run_codes, outputs_of, weigh_runs, output_codes,
}

-- A sealed, current and successful run that supports the requirement.
pub record IsServing (name : String) (run : Fields) : Type 0 where
  pub sound : is_sound run ≡ true
  pub supporting : in_field (str name) "supported_requirement_ids" run ≡ ok true

abbrev pub AllServing : String → List Fields → Type 0
AllServing name [] = Unit
AllServing name (run ∷ r) = IsServing name run × AllServing name r

pub unless-eq-nil : (b : Bool) (c : String) → unless_code b c ≡ [] → b ≡ true
unless-eq-nil true c h = refl
unless-eq-nil false c h = cc

run_codes-IsServing :
    (name : String) (metric : Value) (mismatch : Bool) (run : Fields)
    → Returns (λ codes. codes ≡ [] → IsServing name run) (run_codes (str name) metric mismatch run)
unfolding run_codes
run_codes-IsServing name metric mismatch run =
    Returns-bind_eq (in_field (str name) "supported_requirement_ids" run) _ λ supported e.
      Returns-bind (in_field metric "metric_ids" run) _ λ measured. Returns-ok _ λ h.
        let (s, h1) =
          append-eq-nil (unless_code (is_sound run) "RC_REQUIREMENT_SELECTED_RUN_INVALID_STATUS") _
            h in
        let (p, _) =
          append-eq-nil (unless_code supported "RC_REQUIREMENT_SELECTED_RUN_SEMANTIC_MISMATCH") _
            h1 in
        record {
          sound = unless-eq-nil (is_sound run) _ s;
          supporting = e ∙ ap ok (unless-eq-nil supported _ p);
        }

all_run_codes-AllServing :
    (name : String) (metric : Value) (mismatch : Bool) (runs : List Fields)
    → Returns
        (λ codes. codes ≡ [] → AllServing name runs)
        (all_run_codes (str name) metric mismatch runs)
unfolding all_run_codes
all_run_codes-AllServing name metric mismatch [] = Returns-ok [] λ h. tt
all_run_codes-AllServing name metric mismatch (run ∷ r) =
    Returns-then (run_codes (str name) metric mismatch run) _
      (run_codes-IsServing name metric mismatch run)
      λ codes hc.
        Returns-then (all_run_codes (str name) metric mismatch r) _
          (all_run_codes-AllServing name metric mismatch r)
          λ rest hr. Returns-ok _ λ h. let (c, d) = append-eq-nil codes rest h in (hc c, hr d)

set_of-eq_lem :
    (b : Bool) (xs ys : List Value) → (if b then ok xs else raise type_error) ≡ ok ys → xs ≡ ys
set_of-eq_lem true xs ys h = ok-injective xs ys h
set_of-eq_lem false xs ys h = cc

pub set_of-eq : (xs ys : List Value) → set_of xs ≡ ok ys → xs ≡ ys
set_of-eq xs ys h = set_of-eq_lem (all hashable xs) xs ys h

-- The outputs that are wanted are among those of the runs.
pub record IsOffered (outputs : List Value) (runs : List Fields) : Type 0 where
  pub available : List Value
  pub offered : outputs_of runs ≡ ok available
  pub held : subset_values outputs available ≡ true

output_codes-IsOffered :
    (outputs : List Value) (runs : List Fields)
    → Returns (λ codes. codes ≡ [] → IsOffered outputs runs) (output_codes false outputs runs)
output_codes-IsOffered outputs runs = Returns-bind_eq (outputs_of runs) _ λ available e.
    Returns-bind_eq (set_of outputs) _ λ wanted ew. Returns-ok _ λ h. record {
      available = available;
      offered = e;
      held =
          ap (λ xs. subset_values xs available) (set_of-eq outputs wanted ew)
          ∙ unless-eq-nil (subset_values wanted available) "RC_REQUIREMENT_SELECTED_OUTPUT_MISSING"
              h;
    }

true_not_false : true ≡ false → ⊥
true_not_false e = cc

abbrev not_supporting : String → Fields → Py Bool
not_supporting name run = in_field (str name) "supported_requirement_ids" run >>= λ b. ok (not b)

no_mismatch_one : (m : Py Bool) → m ≡ ok true → (m >>= λ b. ok (not b)) ≡ ok false
no_mismatch_one m h = ap (λ x. x >>= λ b. ok (not b)) h

any_of-ok_false :
    (m rest : Py Bool)
    → m ≡ ok false
    → rest ≡ ok false
    → (m >>= λ b. if b then ok true else rest) ≡ ok false
any_of-ok_false m rest h k = ap (λ x. x >>= λ b. if b then ok true else rest) h ∙ k

no_mismatch :
    (name : String) (runs : List Fields)
    → AllServing name runs
    → any_of (not_supporting name) runs ≡ ok false
no_mismatch name [] h = refl
no_mismatch name (run ∷ r) (s, h) =
    any_of-ok_false (not_supporting name run) (any_of (not_supporting name) r)
      (no_mismatch_one (in_field (str name) "supported_requirement_ids" run) s.supporting)
      (no_mismatch name r h)

-- What the choice of runs shows once it reports no code.
pub record IsWeighed (name : String) (outputs : List Value) (runs : List Fields) : Type 0 where
  pub serving : AllServing name runs
  pub offering : IsOffered outputs runs

weighed_lem :
    (name : String) (outputs : List Value) (runs : List Fields) (mismatch : Bool)
    (codes : List String)
    → any_of (not_supporting name) runs ≡ ok mismatch
    → (codes ≡ [] → AllServing name runs)
    → Returns
        (λ (c : Choice). c.codes ≡ [] → IsWeighed name outputs runs)
        (output_codes mismatch outputs runs >>= λ more.
          ok (record { codes = codes ++ more; runs = runs }))
weighed_lem name outputs runs false codes e hs =
    Returns-then (output_codes false outputs runs) _ (output_codes-IsOffered outputs runs)
      λ more ho.
        Returns-ok _
          λ h. let (c, m) = append-eq-nil codes more h in record { serving = hs c; offering = ho m }
weighed_lem name outputs runs true codes e hs = Returns-ok _ λ h.
    let (c, _) = append-eq-nil codes [] h in
    absurd (true_not_false (ok-injective true false (sym e ∙ no_mismatch name runs (hs c))))

pub weigh_runs-IsWeighed :
    (name : String) (metric : Value) (outputs : List Value) (runs : List Fields)
    → Returns
        (λ (c : Choice). c.codes ≡ [] → IsWeighed name outputs runs)
        (weigh_runs (str name) metric outputs runs)
unfolding weigh_runs
weigh_runs-IsWeighed name metric outputs runs =
    Returns-bind_eq (any_of (not_supporting name) runs) _ λ mismatch e.
      Returns-then (all_run_codes (str name) metric mismatch runs) _
        (all_run_codes-AllServing name metric mismatch runs)
        λ codes hs. weighed_lem name outputs runs mismatch codes e hs
