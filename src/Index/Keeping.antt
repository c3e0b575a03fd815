-- ===== src/Index/Keeping.antt =====
-- Which anchors, facts and entities of a record get an index.
use mathlib.Core.List.{append-nil, append_assoc}
use open_cortex.Base.{
  arith, Bool-cases, if_case, inl, inr, sym, ap, ◌∙◌, refl, ◌≤◌, ◌<◌, ◌≡◌, String, Bool, true, not,
  none, List, [], ◌∷◌, ◌++◌, map, ◌==◌, string_eq, leb,
}
use open_cortex.Base.Lists.{
  All, filter, contains, length, length-append, take, take_front, take_all, take-All,
  length-take-le, filter-All,
}
use open_cortex.Base.Sets.{NoRepeats}
use open_cortex.Base.Unique.{
  unique_by, unique_by-NoRepeats, contains-unique_by, unique_by-All, take-NoRepeats, map-take,
}
use open_cortex.Base.Json.{Python, arr, to_items}
use open_cortex.Facts.Defs.{Patterns, sorted_answerable_facts}
use open_cortex.Records.Events.{MemoryEvent}
use open_cortex.Index.Payload.{primary_record, record_abstract_json, list_at}
use open_cortex.Index.Search.{
  AnchorIndex, anchor_indexes, raw_anchors, trimmed, fact_loop, fact_indexes, max_fact_points,
  long_enough,
}

abbrev pub has_text : AnchorIndex → Bool
has_text a = not (a.text == "")

module _ (py : Python) (re : Patterns) where
  -- Each anchor of a record has one index whose text is not empty, up to case, and no other has one.
  pub anchor_indexes-NoRepeats :
      (e : MemoryEvent) (k : String)
      → NoRepeats (map (λ a. re.casefold a.text) (anchor_indexes py re e))
        × All (λ a. has_text a ≡ true) (anchor_indexes py re e)
        × (contains k (map (λ a. re.casefold a.text) (anchor_indexes py re e))
            ≡ contains k (
                map
                  (λ a. re.casefold a.text)
                  (filter has_text (map (trimmed py re) (raw_anchors py re (primary_record e))))))
  unfolding anchor_indexes
  anchor_indexes-NoRepeats e k = (
    unique_by-NoRepeats (λ a. re.casefold a.text) [] _,
    unique_by-All (λ a. re.casefold a.text) (λ a. has_text a ≡ true) [] _
        (filter-All has_text (map (trimmed py re) (raw_anchors py re (primary_record e)))),
    contains-unique_by (λ a. re.casefold a.text) k [] _,
  )

  -- The loop, with the indexes made so far, is the front of a list that it need not make.
  fact_loop-take :
      (seen indexes facts : List String)
      → length indexes < max_fact_points
      → fact_loop py re seen indexes facts
        ≡ take max_fact_points
            (indexes ++ unique_by re.casefold seen (filter (long_enough py re) facts))
  unfolding fact_loop unique_by
  fact_loop-take seen indexes [] h = sym (
      ap (take max_fact_points) (append-nil indexes)
      ∙ take_all max_fact_points indexes (omega arith))
  fact_loop-take seen indexes (fact ∷ facts) h =
      let longer = indexes ++ fact ∷ [] in
      let later =
        unique_by re.casefold (re.casefold fact ∷ seen) (filter (long_enough py re) facts) in
      let regroup = ap (take max_fact_points) (append_assoc indexes (fact ∷ []) later) in
      let grown = length-append indexes (fact ∷ []) in
      elim (Bool-cases (long_enough py re fact)) [
        | inr short ↦ rw short (fact_loop-take seen indexes facts h)
        | inl long ↦ rw long (elim (Bool-cases (contains (re.casefold fact) seen)) [
          | inl old ↦ rw old (fact_loop-take seen indexes facts h)
          | inr new ↦ rw new (
              if_case (λ xs. xs ≡ take max_fact_points (indexes ++ fact ∷ later))
                (leb max_fact_points (length longer)) _ _
                (λ e. sym (
                  sym regroup
                  ∙ take_front max_fact_points longer later (ground arith)
                  ∙ take_all max_fact_points longer (omega (arith, grown))))
                (λ e.
                  fact_loop-take (re.casefold fact ∷ seen) longer facts (ground arith) ∙ regroup))
        ])
      ]

  abbrev pub Chosen : List String → List String → Type 0
  Chosen facts indexes =
      (indexes ≡ take max_fact_points (unique_by re.casefold [] (filter (long_enough py re) facts)))
      × (length indexes ≤ max_fact_points)
      × NoRepeats (map re.casefold indexes)
      × All (λ f. long_enough py re f ≡ true) indexes

  fact_loop-Chosen : (facts : List String) → Chosen facts (fact_loop py re [] [] facts)
  unfolding max_fact_points
  fact_loop-Chosen facts =
      let long = filter (long_enough py re) facts in
      let once = unique_by re.casefold [] long in
      let split = fact_loop-take [] [] facts (omega arith) in
      rw split (
        refl,
        length-take-le max_fact_points once,
        rw (map-take re.casefold max_fact_points once) (
            take-NoRepeats max_fact_points (map re.casefold once)
              (unique_by-NoRepeats re.casefold [] long)),
        take-All (λ f. long_enough py re f ≡ true) max_fact_points once
            (unique_by-All re.casefold (λ f. long_enough py re f ≡ true) [] long
              (filter-All (long_enough py re) facts)),
      )

  -- The fact indexes are the first of the facts in their order, each once up to case, whose length is
  -- in range; there are at most 24.
  pub fact_indexes-Chosen :
      (e : MemoryEvent)
      → Chosen
          (sorted_answerable_facts py re
            (arr (to_items (list_at "fact_points" (record_abstract_json (primary_record e)))))
            none)
          (fact_indexes py re e)
  unfolding fact_indexes
  fact_indexes-Chosen e = fact_loop-Chosen (
      sorted_answerable_facts py re
        (arr (to_items (list_at "fact_points" (record_abstract_json (primary_record e))))) none)
