-- ===== src/Facts/Defs.antt =====
-- Facts by their text, the dates in a text, and the order of the facts.
use Prim.Native.String.{count}
use text.Mathlib.Text.{find?}
use open_cortex.Base.{
  ℕ, ◌+◌, min, String, Bool, true, false, not, ◌||◌, Option, none, some, List, [], ◌∷◌, ◌++◌, map,
  if◌then◌else◌, ◌==◌, string_eq, nat_eq, ltb, leb, is_some,
}
use open_cortex.Base.Lists.{length, take, filter, any, contains}
use open_cortex.Base.Unique.{unique_by}
use open_cortex.Base.Json.{Json, str, arr, items, texts, Python, text_or_empty, join}

-- What the regular expressions find in a text, and the functions on texts that only this file calls.
pub record Patterns : Type 0 where
  -- `_ROLE_PREFIX_RE.sub("", text)`
  pub without_role : String → String
  -- the matches of `_DATE_RE`, `_NUMBER_RE`, `_PATH_RE` and `_NAMED_TOKEN_RE`
  pub dates : String → List String
  pub numbers : String → List String
  pub paths : String → List String
  pub names : String → List String
  -- `_SENTENCE_SPLIT_RE.split(text)`
  pub sentences : String → List String
  -- `text.split()`, `text.casefold()` and `text.rstrip()`
  pub words : String → List String
  pub casefold : String → String
  pub rstrip : String → String

-- `part in text`
unfoldable pub is_in : String → String → Bool
is_in part text = is_some (find? text part)

unfoldable pub is_found : List String → Bool
is_found [] = false
is_found (x ∷ xs) = true

unfoldable pub max_fact_text_length : ℕ
max_fact_text_length = 240

-- The references with the first one that the value contains replaced by it.
unfoldable pub widened : String → List String → Option (List String)
unfolding is_in
widened value [] = none
widened value (r ∷ refs) =
    let rest = widened value refs in
    if is_in r value
    then some (value ∷ refs)
    else elim rest [ none ↦ none | some rs ↦ some (r ∷ rs) ]

unfoldable pub take_ref : String → List String → List String
unfolding is_in widened
take_ref value refs = if value == "" then refs else elim (widened value refs) [
  | some rs ↦ rs
  | none ↦ if any (λ r. is_in value r) refs then refs else refs ++ value ∷ []
]

unfoldable pub time_refs_loop : List String → List String → List String
unfolding take_ref
time_refs_loop refs [] = refs
time_refs_loop refs (value ∷ values) = time_refs_loop (take_ref value refs) values

-- Where a fact goes among facts in order that come after it: before those of its score.
unfoldable pub place_fact : (String → ℕ) → String → List String → List String
place_fact score x [] = x ∷ []
place_fact score x (y ∷ ys) =
    let rest = place_fact score x ys in if leb (score y) (score x) then x ∷ y ∷ ys else y ∷ rest

-- `indexed.sort(key=lambda item: (-score(item[1]), item[0]))`
unfoldable pub sort_facts : (String → ℕ) → List String → List String
unfolding place_fact
sort_facts score [] = []
sort_facts score (x ∷ xs) = place_fact score x (sort_facts score xs)

unfoldable pub or_fewer : Option ℕ → List String → List String
or_fewer none xs = xs
or_fewer (some n) xs = take n xs

module _ (py : Python) (re : Patterns) where
  unfoldable pub normalize_fact_text : Json → String
  unfolding join
  normalize_fact_text value =
      py.strip (re.without_role (join " " (re.words (text_or_empty py value))))

  unfoldable pub extract_time_refs : String → List String
  unfolding time_refs_loop
  extract_time_refs text = time_refs_loop [] (map py.strip (re.dates text))

  unfoldable pub fact_specificity_score : String → ℕ
  unfolding normalize_fact_text is_found is_in
  fact_specificity_score text =
      let value = normalize_fact_text (str text) in
      if ltb (count value) 8
      then 0
      else (if is_found (re.dates value) then 5 else 0)
        + (if is_found (re.numbers value) then 2 else 0)
        + (if is_found (re.paths value) then 2 else 0)
        + min 4 (length (re.names value))
        + (if leb 24 (count value) then 1 else 0)
        + (if any (λ s. is_in s value) (":" ∷ "：" ∷ "-" ∷ "->" ∷ []) then 1 else 0)

  unfoldable pub is_answerable_fact : String → Bool
  unfolding normalize_fact_text fact_specificity_score max_fact_text_length
  is_answerable_fact text =
      let value = normalize_fact_text (str text) in
      if ltb (count value) 8 || ltb max_fact_text_length (count value)
      then false
      else if ltb 0 (fact_specificity_score value)
      then true
      else leb 4 (length (re.words value))

  -- The values that `unique_fact_points` visits.
  unfoldable pub fact_values : Json → List Json
  fact_values (str s) = str s ∷ []
  fact_values (arr xs) = items xs
  fact_values _ = []

  unfoldable pub unique_fact_points : Json → List String
  unfolding fact_values normalize_fact_text unique_by
  unique_fact_points points =
      unique_by re.casefold []
        (filter (λ t. not (t == "")) (map normalize_fact_text (fact_values points)))

  unfoldable pub content_fact_candidates : String → List String
  unfolding normalize_fact_text is_answerable_fact unique_fact_points
  content_fact_candidates content = unique_fact_points (
      texts
        (filter is_answerable_fact (map (λ p. normalize_fact_text (str p)) (re.sentences content))))

  -- The loop over the candidates, with the facts and their keys.
  unfoldable pub merge_loop : ℕ → List String → List String → List String → List String
  merge_loop max_points seen facts [] = facts
  merge_loop max_points seen facts (c ∷ cs) =
      let known = merge_loop max_points seen facts cs in
      let longer = facts ++ c ∷ [] in
      let rest = merge_loop max_points (re.casefold c ∷ seen) longer cs in
      if contains (re.casefold c) seen
      then known
      else if leb max_points (length longer)
      then longer
      else rest

  unfoldable pub merge_preserved_fact_points : Json → String → ℕ → List String
  unfolding unique_fact_points content_fact_candidates merge_loop
  merge_preserved_fact_points generated content max_points =
      let facts = unique_fact_points generated in
      take max_points
        (merge_loop max_points (map re.casefold facts) facts (content_fact_candidates content))

  unfoldable pub sorted_answerable_facts : Json → Option ℕ → List String
  unfolding unique_fact_points is_answerable_fact fact_specificity_score sort_facts or_fewer
  sorted_answerable_facts points limit =
      or_fewer limit
        (sort_facts fact_specificity_score (filter is_answerable_fact (unique_fact_points points)))
