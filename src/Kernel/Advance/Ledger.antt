-- ===== src/Kernel/Advance/Ledger.antt =====
-- The ledger of runs: one manifest for each attempt, and no attempt twice.
use cumcm.Base.{String, ◌≡◌, refl, sym, Bool, true, false, not, ◌&&◌, List, [], ◌∷◌, and-eq-true}
use mathlib.Core.Path.{subst}
use cumcm.Py.Exn.{Py, ok, value_error, require, require-eq-ok}
use cumcm.Py.Value.{Value, Fields}
use cumcm.Py.Member.{and_then}
use cumcm.Kernel.Host.{Host}
use cumcm.Kernel.Gate.{GateResult}
use cumcm.Kernel.Load.{load_json, join}
use cumcm.Kernel.Validators.{Validators}
use cumcm.Py.Returns.{Returns, Returns-bind, Returns-if, Returns-ok, Returns-bind_eq}
use cumcm.Kernel.Advance.Runs.{
  Attempt, recorded, attempt_of, attempt_ok, entry, manifest_path, Ledger, empty_ledger, weigh,
  admit, admit_all, is_retained, outputs_ok,
}

-- The attempts are those of the manifests, the last one first, and each is new when it is added.
abbrev pub IsLedger : Host → List String → List Attempt → Type 0
IsLedger H [] [] = Unit
IsLedger H (r ∷ rs) (a ∷ ledger) =
    ((m : Value) × (load_json H (manifest_path r) ≡ ok m) × (attempt_of m ≡ a))
    × (recorded ledger a ≡ false)
    × IsLedger H rs ledger
IsLedger H _ _ = ⊥

-- The runs in reverse, before the others.
abbrev pub onto : List String → List String → List String
onto [] done = done
onto (r ∷ rs) done = onto rs (r ∷ done)

not-eq-false : (b : Bool) → not b ≡ true → b ≡ false
not-eq-false false h = refl
not-eq-false true h = cc

module _ (ledger : List Attempt) (a : Attempt) where
  -- A test that holds only of an attempt that the ledger does not have.
  IsNew : Bool → Type 0
  IsNew b = b ≡ true → recorded ledger a ≡ false

  and_then-IsNew : (b : Bool) (m : Py Bool) → Returns IsNew m → Returns IsNew (and_then b m)
  unfolding IsNew
  and_then-IsNew true m h = h
  and_then-IsNew false m h = Returns-ok false λ e. cc

  last-IsNew : (b : Bool) → Returns IsNew (ok (b && not (recorded ledger a)))
  unfolding IsNew
  last-IsNew b =
      Returns-ok (b && not (recorded ledger a))
        λ e. not-eq-false (recorded ledger a) (and-eq-true b (not (recorded ledger a)) e).1

attempt_ok-IsNew :
    (r : String) (candidates seeds : Value) (ledger : List Attempt) (m : Value)
    → Returns (IsNew ledger (attempt_of m)) (attempt_ok r candidates seeds ledger m)
unfolding attempt_ok
attempt_ok-IsNew r candidates seeds ledger m =
    search (and_then-IsNew, Returns-bind, last-IsNew) depth 10

-- The ledger with one attempt more, that of a loaded manifest.
record IsAdmitted (H : Host) (r : String) (before after : Ledger) : Type 0 where
  pub manifest : Value
  pub loaded : load_json H (manifest_path r) ≡ ok manifest
  pub grown : after.attempts ≡ attempt_of manifest ∷ before.attempts
  pub new : recorded before.attempts (attempt_of manifest) ≡ false

module _ (H : Host) (V : Validators) (freezes : Fields) (candidates seeds : Value) where
  weigh-attempts :
      (m : Value) (l : Ledger) (g : GateResult)
      → Returns (λ after. after.attempts ≡ l.attempts) (weigh H V freezes candidates seeds m l g)
  weigh-attempts m l g = Returns-if g.accepted _ _ (Returns-ok _ refl) (
      Returns-bind (is_retained m g) _ λ kept.
        Returns-bind (require kept (value_error (join g.reason_codes))) _ λ _. Returns-ok _ refl)

  admit-IsAdmitted :
      (r : String) (l : Ledger)
      → Returns (IsAdmitted H r l) (admit H V freezes candidates seeds r l)
  unfolding admit IsNew
  admit-IsAdmitted r l = Returns-bind_eq (load_json H (manifest_path r)) _ λ m em.
      Returns-bind_eq (attempt_ok r candidates seeds l.attempts m) _ λ attempted ea.
        Returns-bind_eq (require attempted (value_error "RC_RUN_FROZEN_ATTEMPT_BINDING_INVALID")) _
          λ _ er.
            Returns-bind
              (require (outputs_ok r (entry "output_files" m))
                (value_error "RC_RUN_OUTPUT_IDENTITY_INVALID"))
              _
              λ _. Returns-bind (V.validate_manifest m freezes) _ λ g. record {
                at = λ after e. record {
                  manifest = m;
                  loaded = em;
                  grown =
                      (weigh-attempts m (record l { attempts = attempt_of m ∷ l.attempts }) g).at
                        after e;
                  new =
                      (attempt_ok-IsNew r candidates seeds l.attempts m).at attempted ea
                        (require-eq-ok attempted _ er);
                };
              }

  admit_all-onto :
      (done rs : List String) (l : Ledger)
      → IsLedger H done l.attempts
      → Returns
          (λ after. IsLedger H (onto rs done) after.attempts)
          (admit_all H V freezes candidates seeds rs l)
  unfolding admit_all
  admit_all-onto done [] l h = Returns-ok l h
  admit_all-onto done (r ∷ rs) l h =
      Returns-bind_eq (admit H V freezes candidates seeds r l) _ λ next e.
        let a = (admit-IsAdmitted r l).at next e in
        admit_all-onto (r ∷ done) rs next
          (subst (IsLedger H (r ∷ done)) (sym a.grown) ((a.manifest, a.loaded, refl), a.new, h))

-- If `admit_all` returns for some runs, its ledger has just one attempt for each of the runs, that of
-- the manifest which is loaded for the run, in reverse order, and no attempt is in it twice.
pub admit_all-IsLedger :
    (H : Host) (V : Validators) (freezes : Fields) (candidates seeds : Value) (rs : List String)
    (ledger : Ledger)
    → admit_all H V freezes candidates seeds rs empty_ledger ≡ ok ledger
    → IsLedger H (onto rs []) ledger.attempts
admit_all-IsLedger H V freezes candidates seeds rs ledger =
    (admit_all-onto H V freezes candidates seeds [] rs empty_ledger tt).at ledger
