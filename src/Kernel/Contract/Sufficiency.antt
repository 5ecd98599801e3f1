-- ===== src/Kernel/Contract/Sufficiency.antt =====
-- `evaluate_data_sufficiency`: whether the sources suffice for each primary requirement.
use cumcm.Base.{
  String, Bool, true, false, not, ◌&&◌, Option, none, some, List, [], ◌∷◌, ◌++◌, all, any, subset,
  same_set, if◌then◌else◌, map, ◌⊎◌, inl, inr,
}
use cumcm.Py.Exn.{Py, ok, ◌>>=◌}
use cumcm.Py.Value.{Value, str, dict, Fields, end, keys, values, eq, is_text, is_dict, truthy}
use cumcm.Py.Dict.{get}
use cumcm.Py.Records.{named, index_get, without, no_doubles}
use cumcm.Py.Member.{and_then, member_text}
use cumcm.Kernel.State.{hex64_value, text_in}
use cumcm.Kernel.Host.{Host, canonical_hash}
use cumcm.Kernel.Contract.{is_string_set, strings, text_of, is_filled}

abbrev plan_lists : List String
plan_lists =
    "required_fields" ∷ "required_time_scope" ∷ "required_entity_scope"
    ∷ "authoritative_source_candidates" ∷ []

abbrev plan_texts : List String
plan_texts =
    "acquisition_method" ∷ "provenance_plan" ∷ "license_or_usage_plan" ∷ "validation_plan"
    ∷ "time_budget" ∷ "fallback_disposition" ∷ []

abbrev same_scope : Fields → String → Fields → String → Bool
same_scope plan key requirement scope =
    same_set (strings (get key plan)) (strings (get scope requirement))

-- `_complete_acquisition_plan` for a requirement whose scopes are sets of texts.
unfoldable pub complete_acquisition_plan : Fields → Fields → Bool
complete_acquisition_plan plan requirement =
    subset ("requirement_id" ∷ (plan_lists ++ plan_texts)) (keys plan)
    && eq (get "requirement_id" plan) (get "requirement_id" requirement)
    && all (λ key. is_string_set (get key plan) && truthy (get key plan)) plan_lists
    && all (λ key. is_filled (get key plan)) plan_texts
    && same_scope plan "required_fields" requirement "minimum_data_fields"
    && same_scope plan "required_time_scope" requirement "required_time_scope"
    && same_scope plan "required_entity_scope" requirement "required_entity_scope"

abbrev composition_fields : List String
composition_fields =
    "composition_id" ∷ "source_ids" ∷ "join_keys" ∷ "join_cardinality" ∷ "entity_alignment"
    ∷ "time_alignment" ∷ "field_ownership" ∷ "deduplication_policy" ∷ "conflict_resolution"
    ∷ "provenance" ∷ "composition_hash" ∷ []

abbrev all_named : List String → List Fields → Option (List Fields)
all_named [] sources = some []
all_named (name ∷ r) sources = elim (named "source_id" name sources) [
  | none ↦ none
  | some source ↦ elim (all_named r sources) [ none ↦ none | some rest ↦ some (source ∷ rest) ]
]

unfoldable pub composition_ok : Fields → Bool
composition_ok composition =
    same_set (keys composition) composition_fields
    && is_filled (get "composition_id" composition)
    && is_string_set (get "source_ids" composition)
    && truthy (get "source_ids" composition)
    && no_doubles (strings (get "source_ids" composition))
    && is_string_set (get "join_keys" composition)
    && truthy (get "join_keys" composition)
    && is_dict (get "field_ownership" composition)
    && truthy (get "field_ownership" composition)
    && all (λ key. is_filled (get key composition))
        ("join_cardinality" ∷ "entity_alignment" ∷ "time_alignment" ∷ "deduplication_policy"
          ∷ "conflict_resolution" ∷ "provenance" ∷ [])
    && text_in (get "entity_alignment" composition) ("EXACT" ∷ "VERIFIED_CROSSWALK" ∷ [])
    && text_in (get "time_alignment" composition) ("EXACT" ∷ "VERIFIED_RESAMPLING" ∷ [])
    && hex64_value (get "composition_hash" composition)

-- The composition has the hash of its other entries.
abbrev hashed : Host → Fields → Option (List Fields) → Py (Option (List Fields))
hashed H composition none = ok none
hashed H composition (some chosen) =
    canonical_hash H (dict (without "composition_hash" composition)) >>= λ actual.
    ok (if eq (get "composition_hash" composition) (str actual) then some chosen else none)

-- `_validated_composition_sources`
unfoldable pub validated_composition_sources :
    Host → Option Fields → List Fields → Py (Option (List Fields))
validated_composition_sources H none sources = ok none
validated_composition_sources H (some composition) sources =
    if composition_ok composition
    then hashed H composition (all_named (strings (get "source_ids" composition)) sources)
    else ok none

-- What became of one requirement: whether it joins the incomplete ones, and with which codes.
pub data Finding : Type 0 where
  invalid auxiliary sufficient acquisition : Finding
  lacking : String → Finding
  -- The scopes that the sources miss.
  narrow : List String → Finding

-- `item in sources`
abbrev pub is_among : List Fields → Fields → Bool
is_among sources item = any (λ source. eq (dict source) (dict item)) sources

abbrev foreign_owner : List String → List Value → Py Bool
foreign_owner ids [] = ok false
foreign_owner ids (v ∷ r) =
    let rest = foreign_owner ids r in member_text v ids >>= λ mine. if mine then rest else ok true

abbrev owners_of : Value → Fields
owners_of (dict fs) = fs
owners_of v = end

abbrev pub Coverage : Type 0
Coverage = String ⊎ List Fields

module _ (H : Host) (sources compositions : List Fields) where
  abbrev pub single_source : List Fields → Fields → Py Coverage
  single_source matches coverage =
      index_get "source_id" sources (get "source_id" coverage) >>= λ found. ok (elim found [
        | none ↦ inl "RC_DATA_SOURCE_COMPOSITION_UNREGISTERED"
        | some source ↦
            if is_among matches source
            then inr (source ∷ [])
            else inl "RC_DATA_SOURCE_COMPOSITION_UNREGISTERED"
      ])

  abbrev pub owned : List Fields → Fields → List String → Py Coverage
  owned chosen composition required =
      let ownership = owners_of (get "field_ownership" composition) in
      and_then (same_set (keys ownership) required) (
        foreign_owner (map (λ s. text_of (get "source_id" s)) chosen) (values ownership)
        >>= λ foreign. ok (not foreign))
      >>= λ good. ok (if good then inr chosen else inl "RC_DATA_SOURCE_COMPOSITION_INVALID")

  abbrev pub chosen_of : List Fields → Fields → List String → Option (List Fields) → Py Coverage
  chosen_of matches composition required none = ok (inl "RC_DATA_SOURCE_COMPOSITION_INVALID")
  chosen_of matches composition required (some chosen) =
      if all (is_among matches) chosen
      then owned chosen composition required
      else ok (inl "RC_DATA_SOURCE_COMPOSITION_INVALID")

  abbrev pub composed : List Fields → List String → Option Fields → Py Coverage
  composed matches required none = ok (inl "RC_DATA_SOURCE_COMPOSITION_INVALID")
  composed matches required (some composition) =
      validated_composition_sources H (some composition) sources
      >>= chosen_of matches composition required

  abbrev pub registered_composition : List Fields → List String → Fields → Py Coverage
  registered_composition matches required coverage =
      index_get "composition_id" compositions (get "composition_id" coverage)
      >>= composed matches required

  -- The sources that cover the requirement, in the mode that is registered for it.
  unfoldable pub covering : List Fields → List String → Value → Py Coverage
  covering matches required (dict coverage) =
      if is_text (get "mode" coverage) "SINGLE_SOURCE"
      then single_source matches coverage
      else if is_text (get "mode" coverage) "REGISTERED_COMPOSITION"
      then registered_composition matches required coverage
      else ok (inl "RC_DATA_SOURCE_COMPOSITION_UNREGISTERED")
  covering matches required v = ok (inl "RC_DATA_SOURCE_COMPOSITION_UNREGISTERED")
