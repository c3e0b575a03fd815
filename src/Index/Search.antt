-- ===== src/Index/Search.antt =====
-- The anchors, facts and entities of a record, as `SearchIndexWriter` and `EntityIndexWriter` find them.
use Prim.Native.String.{count}
use open_cortex.Base.{
  ℕ, String, Bool, not, ◌||◌, none, List, [], ◌∷◌, ◌++◌, map, if◌then◌else◌, ◌==◌, string_eq, ltb,
  leb,
}
use open_cortex.Base.Lists.{filter, contains, length}
use open_cortex.Base.Unique.{unique_by}
use open_cortex.Base.Json.{
  Json, arr, obj, fields, to_items, truthy, text_or_empty, text_at, at, Meta, Python,
}
use open_cortex.Facts.Defs.{Patterns, sorted_answerable_facts}
use open_cortex.Records.Events.{MemoryEvent}
use open_cortex.Index.Payload.{primary_record, record_abstract_json, list_at, dict_at}

pub record AnchorIndex : Type 0 where
  pub text : String
  pub anchor_type : String

unfoldable pub max_fact_points : ℕ
max_fact_points = 24

unfoldable pub min_fact_length : ℕ
min_fact_length = 8

unfoldable pub max_fact_length : ℕ
max_fact_length = 240

module _ (py : Python) (re : Patterns) where
  abbrev anchor_of_dict : Json → List AnchorIndex
  anchor_of_dict (obj d) =
      let anchor = fields d in
      let shown = text_at py "text" anchor in
      let kind = text_at py "anchor_type" anchor in
      record {
        text = if truthy (at "text" anchor) then shown else text_at py "value" anchor;
        anchor_type = if truthy (at "anchor_type" anchor) then kind else "anchor";
      }
      ∷ []
  anchor_of_dict _ = []

  abbrev anchors_in : List Json → List AnchorIndex
  anchors_in [] = []
  anchors_in (a ∷ anchors) = anchor_of_dict a ++ anchors_in anchors

  unfoldable pub raw_anchors : Meta → List AnchorIndex
  unfolding record_abstract_json
  raw_anchors rec =
      let keywords = text_at py "keywords" rec in
      map (λ v. record { text = py.show v; anchor_type = "entity" }) (list_at "entities" rec)
      ++ (if keywords == ""
          then []
          else map (λ t. record { text = t; anchor_type = "keyword" }) (py.split keywords ","))
      ++ anchors_in (list_at "anchors" (record_abstract_json rec))
      ++ map (λ v. record { text = py.show v; anchor_type = "handle" })
          (list_at "anchor_handles" (dict_at "meta" rec))

  abbrev pub trimmed : AnchorIndex → AnchorIndex
  trimmed a = record a { text = py.strip a.text }

  unfoldable pub anchor_indexes : MemoryEvent → List AnchorIndex
  unfolding raw_anchors primary_record unique_by
  anchor_indexes e =
      unique_by (λ a. re.casefold a.text) []
        (filter (λ a. not (a.text == "")) (map trimmed (raw_anchors (primary_record e))))

  abbrev pub long_enough : String → Bool
  long_enough t = not (ltb (count t) min_fact_length || ltb max_fact_length (count t))

  -- The loop over the facts, which ends early once there are enough.
  unfoldable pub fact_loop : List String → List String → List String → List String
  fact_loop seen indexes [] = indexes
  fact_loop seen indexes (fact ∷ facts) =
      let skipped = fact_loop seen indexes facts in
      let longer = indexes ++ fact ∷ [] in
      let rest = fact_loop (re.casefold fact ∷ seen) longer facts in
      if not (long_enough fact) || contains (re.casefold fact) seen
      then skipped
      else if leb max_fact_points (length longer)
      then longer
      else rest

  unfoldable pub fact_indexes : MemoryEvent → List String
  unfolding primary_record record_abstract_json sorted_answerable_facts fact_loop max_fact_points
      min_fact_length max_fact_length
  fact_indexes e =
      let points = list_at "fact_points" (record_abstract_json (primary_record e)) in
      fact_loop [] [] (sorted_answerable_facts py re (arr (to_items points)) none)

  unfoldable pub normalized_entities : List Json → List String
  unfolding unique_by
  normalized_entities entities =
      unique_by re.casefold []
        (filter (λ t. not (t == "")) (map (λ v. py.strip (text_or_empty py v)) entities))
