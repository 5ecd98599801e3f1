-- ===== src/Kernel/Transition/Inversion.antt =====
-- What a step of `record_transition` that returns has found, and the state that it returns.
use cumcm.Base.{
  suc, String, ◌≡◌, refl, sym, ap, Bool, true, false, Option, none, some, List, [], ◌∷◌, ◌++◌,
  arith, length, get_elem?, contains, all, eq_iff, if◌then◌else◌,
}
use cumcm.Py.Exn.{
  Exn, Py, ok, raise, value_error, ◌>>=◌, ◌>>◌, >>=-eq-ok, ok-injective, require, require-eq-ok,
}
use cumcm.Py.Value.{Value, null, str, list, dict, Items, Fields, elements}
use cumcm.Py.Dict.{get, item, update}
use cumcm.Kernel.Tables.{states}
use cumcm.Kernel.Host.{Host}
use cumcm.Kernel.Transition.{
  Step, index_of, is_at, state_name, as_dict, as_list, history_record, hashes, moved, change,
  step_of, record_transition,
}

module _ (H : Host) (fs : Fields) (next gate : String) (evidence : List String) (check : Bool)
    (step : Step) where
  pub record Stepped : Type 0 where
    pub previous : String
    pub bindings : Fields
    pub history : Items
    pub from_state : get "state" fs ≡ str previous
    pub known : contains states previous ≡ true
    pub adjacent : get_elem? states (suc (index_of previous states)) ≡ some next
    pub present : all H.is_file evidence ≡ true
    pub bound : get "evidence_bindings" fs ≡ dict bindings
    pub past : get "history" fs ≡ list history
    pub result :
        step.updated
        ≡ moved fs next gate (update bindings (hashes H evidence)) (
            elements history
            ++ history_record (length (elements history)) (str previous) next gate "PASS" evidence
              ∷ [])
    pub write : step.written ≡ (if check then none else some step.updated)

get-item : (k : String) (fs : Fields) (v : Value) → item k fs ≡ ok v → get k fs ≡ v
get-item k fs v h = ground arith

guarded-eq-ok :
    (b : Bool) (t s : String) (e : Exn)
    → (if b then ok t else raise e) ≡ ok s
    → (t ≡ s) × (b ≡ true)
guarded-eq-ok true t s e h = (ok-injective t s h, refl)
guarded-eq-ok false t s e h = cc

state_name-eq-ok :
    (v : Value) (s : String) → state_name v ≡ ok s → (v ≡ str s) × (contains states s ≡ true)
state_name-eq-ok (str t) s h =
    let (e, m) = guarded-eq-ok (contains states t) t s _ h in (ap str e, rw (← e) m)
state_name-eq-ok null s h = cc
state_name-eq-ok _ s h = cc

as_dict-eq-ok : (v : Value) (bs : Fields) → as_dict v ≡ ok bs → v ≡ dict bs
as_dict-eq-ok (dict fs) bs h = ap dict (ok-injective fs bs h)
as_dict-eq-ok _ bs h = cc

as_list-eq-ok :
    (v : Value) (l : List Value)
    → as_list v ≡ ok l
    → (xs : Items) × (v ≡ list xs) × (elements xs ≡ l)
as_list-eq-ok (list xs) l h = (xs, refl, ok-injective _ l h)
as_list-eq-ok _ l h = cc

is_at-eq-some : (o : Option String) (next : String) → is_at o next ≡ true → o ≡ some next
is_at-eq-some none next h = cc
is_at-eq-some (some t) next h = ap some ((eq_iff t next).0 h)

get-item-bind :
    {A : Type 0} (k : String) (fs : Fields) (f : Value → Py A) (a : A)
    → (item k fs >>= f) ≡ ok a
    → f (get k fs) ≡ ok a
get-item-bind k fs f a h = let (v, e, h') = >>=-eq-ok (item k fs) f h in rw (get-item k fs v e) h'

change-Stepped :
    (H : Host) (fs : Fields) (next gate : String) (evidence : List String) (check : Bool)
    (step : Step) (previous : String)
    → get "state" fs ≡ str previous
    → contains states previous ≡ true
    → get_elem? states (suc (index_of previous states)) ≡ some next
    → all H.is_file evidence ≡ true
    → change H fs next gate evidence check previous ≡ ok step
    → Stepped H fs next gate evidence check step
change-Stepped H fs next gate evidence check step previous from_state known adjacent present h =
    let (bs, hb, h1) =
      >>=-eq-ok (item "evidence_bindings" fs >>= as_dict)
        (λ bs. (item "history" fs >>= as_list) >>= λ l.
          ok (step_of H fs next gate evidence check previous bs l))
        h in
    let (l, hl, h2) =
      >>=-eq-ok (item "history" fs >>= as_list)
        (λ l. ok (step_of H fs next gate evidence check previous bs l)) h1 in
    let (xs, past, e) =
      as_list-eq-ok (get "history" fs) l (get-item-bind "history" fs as_list l hl) in
    let done : step ≡ step_of H fs next gate evidence check previous bs (elements xs) =
      sym (ok-injective _ step (rw (← e) at h2)) in
    record {
      previous = previous;
      bindings = bs;
      history = xs;
      from_state = from_state;
      known = known;
      adjacent = adjacent;
      present = present;
      bound = as_dict-eq-ok _ bs (get-item-bind "evidence_bindings" fs as_dict bs hb);
      past = past;
      result = ap (λ s. s.updated) done;
      write = rw done refl;
    }

-- Each `raise` of the code is passed.
pub record_transition-Stepped :
    (H : Host) (fs : Fields) (next gate : String) (evidence : List String) (check : Bool)
    (step : Step)
    → record_transition H fs next gate evidence check ≡ ok step
    → Stepped H fs next gate evidence check step
unfolding record_transition
record_transition-Stepped H fs next gate evidence check step h =
    let rest = λ (previous : String).
      require (is_at (get_elem? states (suc (index_of previous states))) next)
        (value_error "RC_STATE_TRANSITION_INVALID")
      >> (require (all H.is_file evidence) (value_error "RC_TRANSITION_EVIDENCE_MISSING")
          >> change H fs next gate evidence check previous) in
    let (previous, hs, h1) = >>=-eq-ok (item "state" fs >>= state_name) rest h in
    let (from_state, known) =
      state_name-eq-ok (get "state" fs) previous
        (get-item-bind "state" fs state_name previous hs) in
    let (u, hn, h2) =
      >>=-eq-ok
        (require (is_at (get_elem? states (suc (index_of previous states))) next)
          (value_error "RC_STATE_TRANSITION_INVALID"))
        (λ _.
          require (all H.is_file evidence) (value_error "RC_TRANSITION_EVIDENCE_MISSING")
          >> change H fs next gate evidence check previous)
        h1 in
    let (w, hf, h3) =
      >>=-eq-ok (require (all H.is_file evidence) (value_error "RC_TRANSITION_EVIDENCE_MISSING"))
        (λ _. change H fs next gate evidence check previous) h2 in
    change-Stepped H fs next gate evidence check step previous from_state known
      (is_at-eq-some _ next (require-eq-ok _ _ hn)) (require-eq-ok _ _ hf) h3
