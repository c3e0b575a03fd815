-- ===== src/Common/Merging.antt =====
-- `merge_unique_strings`: the ordered union of groups.
use open_cortex.Base.{
  ◌≡◌, refl, String, Bool, not, ◌&&◌, ◌||◌, Option, none, some, List, [], ◌∷◌, ◌++◌, if◌then◌else◌,
  ◌==◌, string_eq, eq_iff, arith, Bool-cases, Option-cases, inl, inr, ◌∙◌, ◌⊎◌,
}
use open_cortex.Base.Lists.{contains, any}
use open_cortex.Base.Sets.{NoRepeats, contains-append-one, append-NoRepeats}
use open_cortex.Base.Json.{Json, truthy, Python}
use open_cortex.Common.Defs.{
  group_values, merge_value, merge_values, merge_groups, merge_unique_strings,
}

-- All values of the groups, `none` where one cannot be iterated over.
unfoldable pub all_values : List Json → Option (List Json)
all_values [] = some []
all_values (g ∷ gs) =
    let rest = all_values gs in
    if truthy g
    then elim (group_values g) [
      | none ↦ none
      | some vs ↦ elim rest [ none ↦ none | some ws ↦ some (vs ++ ws) ]
    ]
    else rest

module _ (py : Python) where
  merge_values-append :
      (vs ws : List Json) (merged : List String)
      → merge_values py (vs ++ ws) merged ≡ merge_values py ws (merge_values py vs merged)
  unfolding merge_values
  merge_values-append [] ws merged = refl
  merge_values-append (v ∷ vs) ws merged = merge_values-append vs ws (merge_value py v merged)

  -- The groups are merged as one list of values.
  merge_groups-all_values :
      (gs : List Json) (merged : List String)
      → merge_groups py gs merged ≡ (elim (all_values gs) as (λ _. Option (List String)) [
        | none ↦ none
        | some vs ↦ some (merge_values py vs merged)
      ])
  unfolding merge_groups all_values
  merge_groups-all_values [] merged = unfold merge_values in refl
  merge_groups-all_values (g ∷ gs) merged = elim (Bool-cases (truthy g)) [
    | inr f ↦ rw f (merge_groups-all_values gs merged)
    | inl t ↦ elim (Option-cases (group_values g)) [
      | inl n ↦ rw (t, n) refl
      | inr (vs, s) ↦ elim (Option-cases (all_values gs)) [
        | inl n ↦ ground (arith, t, s, n, merge_groups-all_values gs (merge_values py vs merged))
        | inr (ws, r) ↦ ground (
          arith,
          t,
          s,
          r,
          merge_groups-all_values gs (merge_values py vs merged),
          merge_values-append vs ws merged,
        )
      ]
    ]
  ]

  abbrev pub value_in : String → List Json → Bool
  value_in u vs = any (λ v. py.strip (py.show v) == u) vs

  merge_value-NoRepeats :
      (v : Json) (merged : List String) → NoRepeats merged → NoRepeats (merge_value py v merged)
  unfolding merge_value
  merge_value-NoRepeats v merged n =
      elim (Bool-cases (py.strip (py.show v) == "" || contains (py.strip (py.show v)) merged)) [
        | inl h ↦ rw h n
        | inr h ↦ rw h (append-NoRepeats (py.strip (py.show v)) merged n (ground arith))
      ]

  contains-merge_value :
      (u : String) (v : Json) (merged : List String)
      → contains u (merge_value py v merged)
        ≡ (contains u merged || (not (u == "") && (py.strip (py.show v) == u)))
  unfolding merge_value
  contains-merge_value u v merged = ground (
    arith,
    contains-append-one (py.strip (py.show v)) u merged,
    eq_iff (py.strip (py.show v)) u,
    eq_iff u "",
    eq_iff (py.strip (py.show v)) "",
  )

  merge_values-NoRepeats :
      (vs : List Json) (merged : List String)
      → NoRepeats merged
      → NoRepeats (merge_values py vs merged)
  unfolding merge_values
  merge_values-NoRepeats [] merged n = n
  merge_values-NoRepeats (v ∷ vs) merged n =
      merge_values-NoRepeats vs (merge_value py v merged) (merge_value-NoRepeats v merged n)

  contains-merge_values :
      (u : String) (vs : List Json) (merged : List String)
      → contains u (merge_values py vs merged)
        ≡ (contains u merged || (not (u == "") && value_in u vs))
  unfolding merge_values
  contains-merge_values u [] merged = ground arith
  contains-merge_values u (v ∷ vs) merged =
      ground (
        arith,
        contains-merge_values u vs (merge_value py v merged),
        contains-merge_value u v merged,
      )

  -- `merge_unique_strings` fails exactly if a group is truthy and cannot be iterated over; else no text
  -- stands twice in its result, and a text is in it exactly if it is not empty and the stripped form of
  -- a value of the groups.
  pub merge_unique_strings_lem :
      (u : String) (groups : List Json)
      → ((all_values groups ≡ none) × (merge_unique_strings py groups ≡ none))
        ⊎ ((vs : List Json) × (merged : List String) × (all_values groups ≡ some vs)
            × (merge_unique_strings py groups ≡ some merged)
            × NoRepeats merged
            × (contains u merged ≡ (not (u == "") && value_in u vs)))
  unfolding merge_unique_strings
  merge_unique_strings_lem u groups = elim (Option-cases (all_values groups)) [
    | inl n ↦ inl (n, merge_groups-all_values groups [] ∙ rw n refl)
    | inr (vs, s) ↦ inr (
      vs,
      merge_values py vs [],
      s,
      merge_groups-all_values groups [] ∙ rw s refl,
      merge_values-NoRepeats vs [] tt,
      contains-merge_values u vs [],
    )
  ]
