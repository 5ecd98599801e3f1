-- ===== src/Kernel/Boundary/Names.antt =====
-- The kernel's own names, keys and gates are free of what `sensitive_findings` rejects.
use cumcm.Base.{
  String, ◌≡◌, refl, Bool, true, false, some, List, [], ◌∷◌, ◌==◌, eq_iff, arith, contains, all,
  and-eq-true, Bool-cases, inl, inr, map,
}
use cumcm.Kernel.Tables.{states, gates, find, transition_gates}
use cumcm.Kernel.Boundary.{key_findings, text_findings}
use cumcm.Kernel.Boundary.Clean.{AllCleanTexts, AllCleanKeys}

abbrev none_found : List String → Bool
none_found [] = true
none_found (c ∷ cs) = false

none_found-eq-nil : (cs : List String) → none_found cs ≡ true → cs ≡ []
none_found-eq-nil [] h = refl
none_found-eq-nil (c ∷ cs) h = cc

abbrev pub texts_clean : List String → Bool
texts_clean = all (λ s. none_found (text_findings s))

abbrev pub keys_clean : List String → Bool
keys_clean = all (λ s. none_found (key_findings s))

pub AllCleanTexts-of_check : (xs : List String) → texts_clean xs ≡ true → AllCleanTexts xs
AllCleanTexts-of_check [] h = tt
AllCleanTexts-of_check (x ∷ xs) h =
    let (hx, hr) = and-eq-true (none_found (text_findings x)) _ h in
    (none_found-eq-nil _ hx, AllCleanTexts-of_check xs hr)

pub AllCleanKeys-of_check : (xs : List String) → keys_clean xs ≡ true → AllCleanKeys xs
AllCleanKeys-of_check [] h = tt
AllCleanKeys-of_check (x ∷ xs) h =
    let (hx, hr) = and-eq-true (none_found (key_findings x)) _ h in
    (none_found-eq-nil _ hx, AllCleanKeys-of_check xs hr)

pub clean_of_contains :
    (xs : List String) (s : String) → AllCleanTexts xs → contains xs s ≡ true → text_findings s ≡ []
clean_of_contains [] s h m = cc
clean_of_contains (x ∷ xs) s (hx, hr) m = elim (Bool-cases (x == s)) [
  | inl e ↦ rw ((eq_iff x s).0 e) at hx
  | inr e ↦ clean_of_contains xs s hr (rw e at m)
]

found-contains :
    (k : String) (l : List (String × String)) (v : String)
    → find k l ≡ some v
    → contains (map (λ p. p.1) l) v ≡ true
found-contains k [] v h = cc
found-contains k ((j, w) ∷ l) v h = ground (arith, eq_iff w v, found-contains k l v)

states_clean : texts_clean states ≡ true
unfolding text_findings
states_clean = refl

gates_clean : texts_clean (map (λ p. p.1) gates) ≡ true
unfolding text_findings
gates_clean = refl

pub state-clean : (s : String) → contains states s ≡ true → text_findings s ≡ []
state-clean s m = clean_of_contains states s (AllCleanTexts-of_check states states_clean) m

pub gate-clean : (s gate : String) → transition_gates s ≡ some gate → text_findings gate ≡ []
unfolding transition_gates
gate-clean s gate h =
    clean_of_contains (map (λ p. p.1) gates) gate
      (AllCleanTexts-of_check (map (λ p. p.1) gates) gates_clean) (found-contains s gates gate h)
