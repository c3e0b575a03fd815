-- ===== src/Facts/Summaries.antt =====
-- Summaries and overviews that keep the concrete facts of a content.
use Prim.Native.String.{count, ◌++◌ as ◌<>◌}
use open_cortex.Base.{
  arith, if_both, if_case, inl, inr, ℕ, ◌/◌, ◌≤◌, ◌≡◌, ◌⊎◌, refl, max, String, Bool, false, ◌||◌,
  some, List, [], ◌∷◌, ◌++◌, map, if◌then◌else◌, ◌==◌, string_eq, nat_eq, leb,
}
use open_cortex.Base.Chars.{take_chars, count-take_chars}
use open_cortex.Base.Lists.{length, filter, any}
use open_cortex.Base.Json.{
  Json, arr, obj, fields, str, texts, to_items, items, Python, Meta, at, join,
}
use open_cortex.Facts.Defs.{
  Patterns, is_in, normalize_fact_text, content_fact_candidates, sorted_answerable_facts,
}

module _ (py : Python) (re : Patterns) where
  -- The details of a fact that is casefolded already.
  abbrev required : String → List String
  required fact =
      map re.casefold (re.dates fact ++ re.numbers fact ++ re.paths fact ++ re.names fact)

  unfoldable pub concrete_overlap : String → String → Bool
  unfolding is_in
  concrete_overlap summary fact =
      let details = required (re.casefold fact) in
      let hits = filter (λ token. is_in token (re.casefold summary)) details in
      if length details == 0 then false else leb (max 1 (length details / 2)) (length hits)

  unfoldable pub merged : String → String → String
  merged text best = if text == "" then best else py.strip (text <> (" " <> best))

  -- The summary with the best fact after it, or the fact alone where that is too long.
  unfoldable pub injected : String → String → ℕ → String
  injected text best max_length =
      if leb (count (merged text best)) max_length
      then merged text best
      else re.rstrip (take_chars max_length best)

  unfoldable pub with_best : String → List String → ℕ → String
  unfolding is_in concrete_overlap injected
  with_best text [] max_length = text
  with_best text (best ∷ facts) max_length =
      if any (λ fact. is_in (re.casefold fact) (re.casefold text)) (best ∷ facts)
      then text
      else if concrete_overlap text best
      then text
      else injected text best max_length

  unfoldable pub preserve_summary_fidelity : String → String → ℕ → String
  unfolding with_best normalize_fact_text sorted_answerable_facts content_fact_candidates
  preserve_summary_fidelity summary content max_length =
      with_best (normalize_fact_text py re (str summary))
        (sorted_answerable_facts py re (texts (content_fact_candidates py re content)) (some 2))
        max_length

  unfoldable pub with_section : String → List String → String
  unfolding is_in
  with_section text [] = text
  with_section text (fact ∷ facts) =
      let section = join "\n" ("" ∷ "Facts:" ∷ map (λ f. "- " <> f) (fact ∷ facts)) in
      if is_in "Facts" text || is_in "事实" text
      then text
      else if text == ""
      then py.strip section
      else text <> section

  unfoldable pub overview_with_fact_section : String → List String → String
  unfolding with_section sorted_answerable_facts
  overview_with_fact_section overview facts =
      with_section (py.strip overview) (sorted_answerable_facts py re (texts facts) (some 6))

  abbrev list_items : Json → List Json
  list_items (arr xs) = items xs
  list_items _ = []

  -- The fact points of the abstract, where it is a dict.
  abbrev abstract_points : Json → List Json
  abstract_points (obj d) = list_items (at "fact_points" (fields d))
  abstract_points _ = []

  unfoldable pub best_of : List String → String
  best_of [] = ""
  best_of (fact ∷ facts) = fact

  unfoldable pub best_fact_point : Meta → String
  unfolding best_of sorted_answerable_facts
  best_fact_point rec =
      let points = list_items (at "fact_points" rec) ++ abstract_points (at "abstract_json" rec) in
      best_of (sorted_answerable_facts py re (arr (to_items points)) (some 1))

  -- The text itself, or a text of at most `n` characters.
  abbrev Bounded : String → ℕ → String → Type 0
  Bounded text n s = (s ≡ text) ⊎ (count s ≤ n)

  with_best-Bounded :
      (text : String) (facts : List String) (n : ℕ)
      → ((s : String) → count (re.rstrip s) ≤ count s)
      → Bounded text n (with_best text facts n)
  unfolding with_best injected
  with_best-Bounded text [] n h = inl refl
  with_best-Bounded text (best ∷ facts) n h =
      if_both (Bounded text n) (any (λ f. is_in (re.casefold f) (re.casefold text)) (best ∷ facts))
        _ _ (inl refl)
        (if_both (Bounded text n) (concrete_overlap text best) _ _ (inl refl) (
          inr (
            if_case (λ s. count s ≤ n) (leb (count (merged text best)) n) _ _ (λ e. ground arith)
              (λ e. omega (arith, h (take_chars n best), count-take_chars n best)))))

  -- The result is the compact summary, or has at most the asked number of characters.
  pub preserve_summary_fidelity_bounded :
      (summary content : String) (n : ℕ)
      → ((s : String) → count (re.rstrip s) ≤ count s)
      → (preserve_summary_fidelity summary content n ≡ normalize_fact_text py re (str summary))
        ⊎ (count (preserve_summary_fidelity summary content n) ≤ n)
  unfolding preserve_summary_fidelity
  preserve_summary_fidelity_bounded summary content n h = with_best-Bounded _ _ n h
