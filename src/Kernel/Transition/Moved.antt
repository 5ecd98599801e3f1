-- ===== src/Kernel/Transition/Moved.antt =====
-- The four entries that a step changes, and the others, which it leaves alone.
use cumcm.Base.{
  String, ◌≡◌, refl, ◌∙◌, true, false, List, [], ◌∷◌, ◌++◌, arith, contains, subset, ◌==◌, eq_iff,
  contains-append, not, all, subset-contains, and-eq-true, ℕ, Bool-cases, inl, inr,
}
use cumcm.Py.Value.{Value, str, list, dict, Fields, end, field, items, keys}
use cumcm.Py.Dict.{get, set, update, has, get-set, keys-set_of_has, has-set, has-update}
use cumcm.Py.Text.{hex64}
use cumcm.Kernel.Tables.{states, terminal_states}
use cumcm.Kernel.Host.{Host, file_hash, relative_case_path}
use cumcm.Kernel.State.{header_ok, identity_ok, bindings_ok, text_in, is_terminal}
use cumcm.Kernel.Transition.{moved, hashes}

pub text_in-str : (xs : List String) (s : String) → text_in (str s) xs ≡ contains xs s
text_in-str [] s = refl
text_in-str (x ∷ xs) s = ground (arith, eq_iff s x, eq_iff x s, text_in-str xs s)

state-text_in :
    (next : String)
    → contains states next ≡ true
    → text_in (str next) (states ++ terminal_states) ≡ true
state-text_in next known =
    text_in-str (states ++ terminal_states) next
    ∙ contains-append states terminal_states next
    ∙ rw known

-- A state of the pipeline is not a terminal one.
all-not_at :
    (ys xs : List String) (s : String)
    → all (λ x. not (contains ys x)) xs ≡ true
    → contains xs s ≡ true
    → contains ys s ≡ false
all-not_at ys [] s h m = cc
all-not_at ys (x ∷ xs) s h m =
    let (hx, hr) = and-eq-true (not (contains ys x)) _ h in
    ground (arith, eq_iff x s, all-not_at ys xs s hr)

pub pipeline_not_terminal : (s : String) → contains states s ≡ true → is_terminal (str s) ≡ false
pipeline_not_terminal s known =
    text_in-str terminal_states s ∙ all-not_at terminal_states states s refl known

module _ (fs : Fields) (next gate : String) (bs : Fields) (h : List Value) where
  pub moved-state : get "state" (moved fs next gate bs h) ≡ str next
  moved-state = simp get-set

  pub moved-last_gate : get "last_gate" (moved fs next gate bs h) ≡ str gate
  moved-last_gate = simp get-set

  pub moved-bindings : get "evidence_bindings" (moved fs next gate bs h) ≡ dict bs
  moved-bindings = simp get-set

  pub moved-history : get "history" (moved fs next gate bs h) ≡ list (items h)
  moved-history = simp get-set

  pub keys-moved :
      subset ("state" ∷ "last_gate" ∷ "evidence_bindings" ∷ "history" ∷ []) (keys fs) ≡ true
      → keys (moved fs next gate bs h) ≡ keys fs
  keys-moved there =
      let names = "state" ∷ "last_gate" ∷ "evidence_bindings" ∷ "history" ∷ [] in
      let has_key = λ (k : String). subset-contains names (keys fs) k there in
      let e1 = keys-set_of_has "state" (str next) fs (has_key "state" refl) in
      let e2 = keys-set_of_has "last_gate" (str gate) _ (rw e1 (has_key "last_gate" refl)) ∙ e1 in
      let e3 =
        keys-set_of_has "evidence_bindings" (dict bs) _ (rw e2 (has_key "evidence_bindings" refl))
        ∙ e2 in
      keys-set_of_has "history" (list (items h)) _ (rw e3 (has_key "history" refl)) ∙ e3

  header_ok-moved : header_ok (moved fs next gate bs h) ≡ header_ok fs
  unfolding header_ok
  header_ok-moved = simp get-set

  pub identity_ok-moved :
      identity_ok fs ≡ true
      → contains states next ≡ true
      → identity_ok (moved fs next gate bs h) ≡ true
  unfolding identity_ok
  identity_ok-moved old known =
      let (header, _) = and-eq-true (header_ok fs) _ old in
      rw (header_ok-moved, header, moved-state) (state-text_in next known)

-- Bindings that pass stay so when relative paths with digests are added.
bindings_ok-set :
    (H : Host) (k d : String) (bs : Fields)
    → relative_case_path H.below_cwd k ≡ true
    → hex64 d ≡ true
    → bindings_ok H bs ≡ true
    → bindings_ok H (set k (str d) bs) ≡ true
unfolding bindings_ok set
bindings_ok-set H k d end r x h = ground arith
bindings_ok-set H k d (field j w bs) r x h = ground (arith, bindings_ok-set H k d bs r x)

pub bindings_ok-update :
    (H : Host) (bs : Fields) (paths : List String)
    → ((b : List ℕ) → hex64 (H.sha256 b) ≡ true)
    → all (relative_case_path H.below_cwd) paths ≡ true
    → bindings_ok H bs ≡ true
    → bindings_ok H (update bs (hashes H paths)) ≡ true
unfolding update file_hash
bindings_ok-update H bs [] x r h = h
bindings_ok-update H bs (p ∷ ps) x r h =
    let (rp, rps) = and-eq-true (relative_case_path H.below_cwd p) _ r in
    bindings_ok-update H (set p (str (H.sha256 (H.bytes p))) bs) ps x rps
      (bindings_ok-set H p (H.sha256 (H.bytes p)) bs rp (x (H.bytes p)) h)

-- The paths that are bound are all there afterwards.
pub has-update_self :
    (H : Host) (bs : Fields) (paths : List String) (p : String)
    → contains paths p ≡ true
    → has p (update bs (hashes H paths)) ≡ true
unfolding update
has-update_self H bs [] p m = cc
has-update_self H bs (q ∷ ps) p m = elim (Bool-cases (q == p)) [
  | inl e ↦
      has-update (set q (str (file_hash H q)) bs) (hashes H ps) p
        (has-set q p (str (file_hash H q)) bs ∙ rw e)
  | inr e ↦ has-update_self H (set q (str (file_hash H q)) bs) ps p (rw e at m)
]
