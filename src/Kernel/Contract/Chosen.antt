-- ===== src/Kernel/Contract/Chosen.antt =====
-- Which sources `covering` chooses: matching ones.
use cumcm.Base.{
  String, ◌≡◌, refl, Bool, true, false, List, [], ◌∷◌, if◌then◌else◌, inl, inr, Bool-cases, ◌⊎◌,
  all, Option, none, some, arith,
}
use cumcm.Py.Exn.{ok}
use cumcm.Py.Value.{Value, dict, Fields}
use cumcm.Kernel.Host.{Host}
use cumcm.Py.Returns.{Returns, Returns-bind, Returns-if, Returns-ok}
use cumcm.Py.Dict.{get}
use cumcm.Py.Records.{index_get}
use cumcm.Kernel.Contract.Sufficiency.{
  Coverage, covering, composed, chosen_of, single_source, registered_composition,
  validated_composition_sources, is_among,
}
use cumcm.Kernel.Contract.Evaluate.{Inputs, coverage_of}

-- The sources of a coverage are the matching ones, or some of them.
abbrev pub IsFrom : List Fields → Coverage → Type 0
IsFrom matches (inl code) = Unit
IsFrom matches (inr sources) = (sources ≡ matches) ⊎ (all (is_among matches) sources ≡ true)

chosen-IsFrom :
    (matches chosen : List Fields) (b : Bool) (code : String)
    → all (is_among matches) chosen ≡ true
    → Returns (IsFrom matches) (ok (if b then inr chosen else inl code))
chosen-IsFrom matches chosen true code h = Returns-ok _ (inr h)
chosen-IsFrom matches chosen false code h = Returns-ok _ tt

module _ (H : Host) (sources compositions : List Fields) (matches : List Fields) where
  single-IsFrom :
      (found : Option Fields)
      → IsFrom matches (elim found [
        | none ↦ inl "RC_DATA_SOURCE_COMPOSITION_UNREGISTERED"
        | some source ↦
            if is_among matches source
            then inr (source ∷ [])
            else inl "RC_DATA_SOURCE_COMPOSITION_UNREGISTERED"
      ])
  single-IsFrom none = tt
  single-IsFrom (some source) = elim (Bool-cases (is_among matches source)) [
    | inl e ↦ rw e (inr (ground arith))
    | inr e ↦ rw e tt
  ]

  chosen_of-IsFrom :
      (composition : Fields) (required : List String) (o : Option (List Fields))
      → Returns (IsFrom matches) (chosen_of H sources compositions matches composition required o)
  chosen_of-IsFrom composition required none = Returns-ok _ tt
  chosen_of-IsFrom composition required (some chosen) =
      elim (Bool-cases (all (is_among matches) chosen)) [
        | inl e ↦ rw e (Returns-bind _ _ λ good. chosen-IsFrom matches chosen good _ e)
        | inr e ↦ rw e (Returns-ok _ tt)
      ]

  composed-IsFrom :
      (required : List String) (o : Option Fields)
      → Returns (IsFrom matches) (composed H sources compositions matches required o)
  composed-IsFrom required none = Returns-ok _ tt
  composed-IsFrom required (some composition) =
      Returns-bind (validated_composition_sources H (some composition) sources) _
        (chosen_of-IsFrom composition required)

  single_source-IsFrom :
      (coverage : Fields)
      → Returns (IsFrom matches) (single_source H sources compositions matches coverage)
  single_source-IsFrom coverage =
      Returns-bind (index_get "source_id" sources (get "source_id" coverage)) _
        λ found. Returns-ok _ (single-IsFrom found)

  registered-IsFrom :
      (required : List String) (coverage : Fields)
      → Returns
          (IsFrom matches)
          (registered_composition H sources compositions matches required coverage)
  registered-IsFrom required coverage =
      Returns-bind (index_get "composition_id" compositions (get "composition_id" coverage)) _
        λ o. composed-IsFrom required o

  unregistered-IsFrom :
      Returns (IsFrom matches) (ok (inl "RC_DATA_SOURCE_COMPOSITION_UNREGISTERED"))
  unregistered-IsFrom = Returns-ok _ tt

  covering-IsFrom :
      (required : List String) (v : Value)
      → Returns (IsFrom matches) (covering H sources compositions matches required v)
  unfolding covering
  covering-IsFrom required (dict coverage) =
      search (Returns-if, single_source-IsFrom, registered-IsFrom, unregistered-IsFrom)
  covering-IsFrom required _ = unregistered-IsFrom

module _ (H : Host) (inputs : Inputs) (requirement : Fields) where
  pub coverage_of-IsFrom :
      (matches : List Fields) → Returns (IsFrom matches) (coverage_of H inputs requirement matches)
  coverage_of-IsFrom matches =
      Returns-if _ _ _ (covering-IsFrom H inputs.sources inputs.compositions matches _ _)
        (Returns-ok _ (inl refl))
