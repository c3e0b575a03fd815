-- ===== src/Facts/Tests.antt =====
-- Facts of a few texts, with patterns that split at blanks and read digits.
use open_cortex.Base.{
  ◌≡◌, refl, String, List, [], ◌∷◌, ◌++◌, map, none, if◌then◌else◌, ◌==◌, string_eq, nat_eq, ◌≤◌,
}
use open_cortex.Base.Lists.{filter, take, length}
use open_cortex.Base.Plain.{plain}
use open_cortex.Base.Unique.{unique_by}
use open_cortex.Base.Json.{texts}
use open_cortex.Facts.Defs.{
  Patterns, is_in, merge_preserved_fact_points, sorted_answerable_facts, unique_fact_points,
  content_fact_candidates, extract_time_refs, fact_specificity_score, is_answerable_fact, take_ref,
}
use open_cortex.Facts.Keeping.{merge_preserved_fact_points-take}
use open_cortex.Facts.Ordering.{Falls, sorted_answerable_facts-Falls}

abbrev found : String → String → List String
found part text = if is_in part text then part ∷ [] else []

-- Years 2024 and 2025 are the dates, and Ann is the only name.
abbrev pub years : Patterns
years = record {
  without_role = λ s. s;
  dates = λ s. found "2024" s ++ found "2025" s;
  numbers = λ s. [];
  paths = λ s. [];
  names = found "Ann";
  sentences = λ s. s ∷ [];
  words = λ s. s ∷ [];
  casefold = λ s. if s == "ANN WON" then "ann won" else s;
  rstrip = λ s. s;
}

abbrev told : List String
told = "Ann left" ∷ "Ann came in 2024" ∷ "Ann left" ∷ "short" ∷ "moved in 2025" ∷ []

kept_once :
    unique_fact_points plain years (texts told)
    ≡ "Ann left" ∷ "Ann came in 2024" ∷ "short" ∷ "moved in 2025" ∷ []
unfolding unique_fact_points
kept_once = refl

in_order :
    sorted_answerable_facts plain years (texts told) none
    ≡ "Ann came in 2024" ∷ "moved in 2025" ∷ "Ann left" ∷ []
unfolding sorted_answerable_facts is_in
in_order = refl

dates_found : extract_time_refs plain years "2025 after 2024" ≡ "2024" ∷ "2025" ∷ []
unfolding extract_time_refs is_in
dates_found = refl

-- A longer reference takes the place of the one inside it.
widened_date : take_ref "2024-05" ("2024" ∷ []) ≡ "2024-05" ∷ []
unfolding take_ref
widened_date = refl

merged_facts :
    merge_preserved_fact_points plain years (texts told) "Ann won in 2025" 9
    ≡ "Ann left" ∷ "Ann came in 2024" ∷ "short" ∷ "moved in 2025" ∷ "Ann won in 2025" ∷ []
unfolding merge_preserved_fact_points is_in
merged_facts = refl

merge_preserved_fact_points-take_example :
    (merge_preserved_fact_points plain years (texts told) "Ann won in 2025" 3
      ≡ take 3 (
          unique_fact_points plain years (texts told)
          ++ unique_by years.casefold
              (map years.casefold (unique_fact_points plain years (texts told)))
              (content_fact_candidates plain years "Ann won in 2025")))
    × (length (merge_preserved_fact_points plain years (texts told) "Ann won in 2025" 3) ≤ 3)
merge_preserved_fact_points-take_example =
    merge_preserved_fact_points-take plain years (texts told) "Ann won in 2025" 3

sorted_answerable_facts-Falls_example :
    Falls
      (fact_specificity_score plain years)
      (sorted_answerable_facts plain years (texts told) none)
    × (filter
          (λ f. fact_specificity_score plain years f == 5)
          (sorted_answerable_facts plain years (texts told) none)
        ≡ filter
            (λ f. fact_specificity_score plain years f == 5)
            (filter (is_answerable_fact plain years) (unique_fact_points plain years (texts told))))
sorted_answerable_facts-Falls_example = sorted_answerable_facts-Falls plain years (texts told) 5
