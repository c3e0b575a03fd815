-- ===== src/Index/Projection.antt =====
-- The projection of a record for reasoned recall: `ReasonTreeIndexWriter`.
use Prim.Native.String.{◌++◌ as ◌<>◌, len, slice}
use open_cortex.Base.{
  ◌-◌, max, String, Bool, not, ◌||◌, Option, none, some, List, [], ◌∷◌, ◌++◌, map, if◌then◌else◌,
  ◌==◌, string_eq,
}
use open_cortex.Base.Lists.{length, filter}
use open_cortex.Base.Json.{
  Json, num, str, bool, arr, obj, to_items, to_fields, texts, truthy, text_at, at, update, Meta,
  Python, join,
}
use open_cortex.Namespace.{segments, parent_chain}
use open_cortex.Forget.{Call, return, raise, ◌>>=◌}
use open_cortex.Records.Events.{MemoryEvent}
use open_cortex.Index.Payload.{
  primary_record, event_uri, event_record_id, list_at, dict_at, digest, unique_strings,
  source_references,
}
use open_cortex.Index.Points.{
  reason_tree_payload, Embedding, Point, Indexing, Complaints, runtime_error, attach, lift,
  upsert_records,
}
use open_cortex.Index.Writing.{is_empty_record}
use open_cortex.Index.Building.{owner_fields}

-- The first text that is not empty.
abbrev first_of : List String → String
first_of [] = ""
first_of (t ∷ ts) = let rest = first_of ts in if t == "" then rest else t

-- The first list that is not empty.
abbrev first_list : List (List Json) → List Json
first_list [] = []
first_list ([] ∷ vs) = first_list vs
first_list ((v ∷ vs) ∷ rest) = v ∷ vs

abbrev head_or : String → List String → String
head_or d [] = d
head_or d (u ∷ us) = u

-- `source_uri.endswith("/final")`
abbrev is_final : String → Bool
is_final uri = slice uri (len uri - len "/final") (len uri) == "/final"

unfoldable pub context_window : String → Bool → String
context_window role is_leaf =
    if role == "session_final"
    then "children"
    else if role == "session_segment"
    then "parent_siblings"
    else if is_leaf
    then "self_parent"
    else "children"

abbrev pub projection_complaints : Complaints
projection_complaints = record {
  no_embedder = "ReasonTreeIndexWriter requires an embedder";
  unembedded = "Reason tree embedding returned no dense vector";
}

module _ (py : Python) (sha1 : String → String) (temporal : List Json → Meta) where
  unfoldable pub projection_role : Meta → String → String
  projection_role rec source_uri =
      let layer = text_at py "layer" (dict_at "meta" rec) in
      if layer == "immediate"
      then "session_immediate"
      else if layer == "merged"
      then "session_segment"
      else if layer == "session_final"
      then "session_final"
      else if truthy (at "is_leaf" rec)
      then "leaf"
      else if is_final source_uri
      then "session_final"
      else "section"

  unfoldable pub tree_uri : Meta → String → String → String
  unfolding parent_chain
  tree_uri rec source_uri parent_uri =
      let meta = dict_at "meta" rec in
      let chain : List String = if parent_uri == "" then [] else parent_chain py parent_uri in
      if truthy (at "source_uri" meta)
      then py.show (at "source_uri" meta)
      else if truthy (at "layer" meta) || truthy (at "source_doc_id" meta)
      then parent_uri
      else if truthy (at "session_id" rec)
      then parent_uri
      else head_or source_uri chain

  unfoldable pub reason_tree_title : Meta → Meta → String
  reason_tree_title rec meta = first_of (
      text_at py "title" rec
      ∷ text_at py "title" meta
      ∷ text_at py "section_title" meta
      ∷ text_at py "source_section_path" meta
      ∷ text_at py "abstract" rec
      ∷ text_at py "uri" rec
      ∷ [])

  unfoldable pub reason_tree_summary : Meta → String
  reason_tree_summary rec = first_of (
      text_at py "summary" rec
      ∷ text_at py "overview" rec
      ∷ text_at py "abstract" rec
      ∷ text_at py "content" rec
      ∷ [])

  -- The fact points of a record, of its abstract or of its metadata, whichever has some.
  abbrev known_facts : Meta → List Json
  known_facts rec = first_list (
      list_at "fact_points" rec
      ∷ list_at "fact_points" (dict_at "abstract_json" rec)
      ∷ list_at "fact_points" (dict_at "meta" rec)
      ∷ [])

  unfoldable pub projection_uri : String → String
  unfolding digest
  projection_uri source_uri = source_uri <> ("/reason_tree_indexes/" <> digest py sha1 source_uri)

  -- The fields of the record's place in its tree.
  unfoldable pub projected_place : MemoryEvent → Meta → Meta
  unfolding event_uri event_record_id projection_uri tree_uri segments projection_role
      context_window
  projected_place e rec =
      let source_uri = event_uri e in
      let parent_uri = text_at py "parent_uri" rec in
      let path = segments py source_uri in
      let role = projection_role rec source_uri in
      let leaf = truthy (at "is_leaf" rec) in
      ("id", str (projection_uri source_uri))
      ∷ ("uri", str (projection_uri source_uri))
      ∷ ("parent_uri", str parent_uri)
      ∷ ("source_uri", str source_uri)
      ∷ ("source_record_id", str (event_record_id py e))
      ∷ ("parent_source_uri", str parent_uri)
      ∷ ("tree_uri", str (tree_uri rec source_uri parent_uri))
      ∷ ("path", str (join "/" path))
      ∷ ("path_segments", texts path)
      ∷ ("level", num (max (length path) 1))
      ∷ ("reason_role", str role)
      ∷ ("context_window", str (context_window role leaf))
      ∷ ("is_leaf", bool leaf)
      ∷ []

  unfoldable pub projected_record : MemoryEvent → Meta
  unfolding primary_record projected_place owner_fields reason_tree_title reason_tree_summary
      unique_strings source_references update
  projected_record e =
      let rec = primary_record e in
      let meta = dict_at "meta" rec in
      let source_uri = event_uri e in
      let parent_uri = text_at py "parent_uri" rec in
      let role = projection_role rec source_uri in
      let source_uris = list_at "source_uris" meta in
      let merged_uris = list_at "merged_uris" meta in
      let facts = known_facts rec in
      let title = reason_tree_title rec meta in
      let summary = reason_tree_summary rec in
      let refs = source_references py rec meta source_uris merged_uris in
      let told_facts = filter (λ t. not (py.strip t == "")) (map py.show facts) in
      let dates = temporal (
        at "event_ts" rec
        ∷ at "event_date" rec
        ∷ at "utterance_ts" rec
        ∷ at "date_range_start" rec
        ∷ at "date_range_end" rec
        ∷ at "time_refs" rec
        ∷ str summary
        ∷ arr (to_items facts)
        ∷ []) in
      let noted =
        ("index_name", str "ReasonTreeIndex")
        ∷ ("source_uri", str source_uri)
        ∷ ("source_record_id", str (event_record_id py e))
        ∷ ("tree_uri", str (tree_uri rec source_uri parent_uri))
        ∷ ("reason_role", str role)
        ∷ ("context_window", str (context_window role (truthy (at "is_leaf" rec))))
        ∷ ("title", str title)
        ∷ ("summary", str summary)
        ∷ ("fact_points", arr (to_items facts))
        ∷ ("source_refs", texts refs)
        ∷ [] in
      update dates (
        projected_place e rec
        ++ owner_fields py sha1 temporal e rec
        ++ ("source_uris", arr (to_items source_uris))
          ∷ ("merged_uris", arr (to_items merged_uris))
          ∷ ("title", str title)
          ∷ ("summary", str summary)
          ∷ ("abstract", str (text_at py "abstract" rec))
          ∷ ("overview", str (text_at py "overview" rec))
          ∷ ("fact_points", texts told_facts)
          ∷ ("source_refs", texts refs)
          ∷ ("anchor_hits", arr (to_items (list_at "anchor_hits" rec)))
          ∷ (
            "cone_neighbors",
            texts (unique_strings py (str parent_uri ∷ source_uris ++ merged_uris)),
          )
          ∷ ("meta", obj (to_fields (update noted meta)))
          ∷ [])

  -- The text of a payload that is embedded.
  unfoldable pub projection_text : Meta → String
  projection_text payload = first_of (
      text_at py "summary" payload
      ∷ text_at py "overview" payload
      ∷ text_at py "abstract" payload
      ∷ [])

  module _ {World Vector : Type 0} (services : Indexing World Vector)
      (embed : Option (String → Call World (Embedding Vector))) where
    unfoldable pub embed_record : Meta → Call World (List (Point Vector))
    unfolding attach projection_text
    embed_record payload = elim embed [
      | none ↦ raise (runtime_error projection_complaints.no_embedder)
      | some f ↦ f (projection_text payload) >>= λ r.
          lift (attach projection_complaints.unembedded (payload ∷ []) (r ∷ []))
    ]

    -- `write` of one event; `embed` is the embedder for one text.
    unfoldable pub projection_write : MemoryEvent → Call World (Unit {0})
    unfolding primary_record is_empty_record projected_record embed_record upsert_records
    projection_write e =
        let rec = primary_record e in
        if is_empty_record rec || not (truthy (at "retrieval_ready" rec))
        then return tt
        else lift (services.make reason_tree_payload (projected_record e)) >>= λ payload.
            embed_record payload >>= upsert_records services
