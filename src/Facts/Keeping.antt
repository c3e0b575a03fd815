-- ===== src/Facts/Keeping.antt =====
-- Which facts `unique_fact_points` and `merge_preserved_fact_points` keep.
use open_cortex.Base.{
  arith, Bool-cases, inl, inr, ℕ, ◌≤◌, ◌≡◌, String, List, [], ◌∷◌, ◌++◌, map, leb, if_case, ◌==◌,
  string_eq, not, ◌∙◌, ap, sym,
}
use mathlib.Core.List.{append-nil, append_assoc}
use open_cortex.Base.Lists.{length, take, take_front, length-take-le, contains, filter}
use open_cortex.Base.Sets.{NoRepeats}
use open_cortex.Base.Unique.{unique_by, unique_by-NoRepeats, contains-unique_by}
use open_cortex.Base.Json.{Json, Python}
use open_cortex.Facts.Defs.{
  Patterns, unique_fact_points, normalize_fact_text, fact_values, merge_loop,
  merge_preserved_fact_points, content_fact_candidates,
}

module _ (py : Python) (re : Patterns) where
  -- No two of the facts differ by case alone, and the keys of the facts are the keys of the values
  -- with a text that is not empty.
  pub unique_fact_points-NoRepeats :
      (points : Json) (k : String)
      → NoRepeats (map re.casefold (unique_fact_points py re points))
        × (contains k (map re.casefold (unique_fact_points py re points))
            ≡ contains k (
                map re.casefold (
                  filter
                    (λ t. not (t == ""))
                    (map (normalize_fact_text py re) (fact_values py re points)))))
  unfolding unique_fact_points
  unique_fact_points-NoRepeats points k =
      (unique_by-NoRepeats re.casefold [] _, contains-unique_by re.casefold k [] _)

  -- The early end of the loop changes only what the cut removes.
  take-merge_loop :
      (n : ℕ) (seen facts cs : List String)
      → take n (merge_loop py re n seen facts cs) ≡ take n (facts ++ unique_by re.casefold seen cs)
  unfolding merge_loop unique_by
  take-merge_loop n seen facts [] = ap (take n) (sym (append-nil facts))
  take-merge_loop n seen facts (c ∷ cs) =
      let longer = facts ++ c ∷ [] in
      let later = unique_by re.casefold (re.casefold c ∷ seen) cs in
      let regroup = append_assoc facts (c ∷ []) later in
      elim (Bool-cases (contains (re.casefold c) seen)) [
        | inl h ↦ rw h (take-merge_loop n seen facts cs)
        | inr h ↦ rw h (
            if_case (λ xs. take n xs ≡ take n (facts ++ c ∷ later)) (leb n (length longer)) _ _
              (λ e. sym (take_front n longer later (ground arith)) ∙ ap (take n) regroup)
              (λ e. take-merge_loop n (re.casefold c ∷ seen) longer cs ∙ ap (take n) regroup))
      ]

  -- The facts of a record are the first of these: the generated ones, and then the candidates of
  -- the content whose key is new; there are at most as many as asked for.
  pub merge_preserved_fact_points-take :
      (generated : Json) (content : String) (n : ℕ)
      → (merge_preserved_fact_points py re generated content n
          ≡ take n (
              unique_fact_points py re generated
              ++ unique_by re.casefold
                  (map re.casefold (unique_fact_points py re generated))
                  (content_fact_candidates py re content)))
        × (length (merge_preserved_fact_points py re generated content n) ≤ n)
  unfolding merge_preserved_fact_points
  merge_preserved_fact_points-take generated content n =
      (take-merge_loop n _ _ _, length-take-le n _)
