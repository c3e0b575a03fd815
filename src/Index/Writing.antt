-- ===== src/Index/Writing.antt =====
-- The index records of `SearchIndexWriter` and `EntityIndexWriter`, and their `write`.
use Prim.Native.String.{◌++◌ as ◌<>◌}
use open_cortex.Base.{
  String, Bool, true, false, not, ◌&&◌, none, some, List, [], ◌∷◌, ◌++◌, map, if◌then◌else◌, ◌==◌,
  string_eq,
}
use open_cortex.Base.Json.{
  Json, str, obj, number, to_fields, texts, truthy, text_at, at, update, Meta, Python,
}
use open_cortex.Base.Dict
use open_cortex.Worker.Failure.{Result}
use open_cortex.Worker.Events.{IdentityProfile}
use open_cortex.Forget.{Call, return, ◌>>=◌}
use open_cortex.Facts.Defs.{Patterns}
use open_cortex.Records.Events.{
  MemoryEvent, memory_stored, check_update, session_turn_stored, session_merged, session_ended,
}
use open_cortex.Index.Payload.{primary_record, event_uri, event_record_id, digest, list_at, dict_at}
use open_cortex.Index.Search.{AnchorIndex, anchor_indexes, fact_indexes, normalized_entities}
use open_cortex.Index.Points.{
  PayloadClass, anchor_index_payload, fact_index_payload, entity_index_payload, Indexing,
  Complaints, all_ok, lift, index_all,
}

unfoldable pub event_profile : MemoryEvent → IdentityProfile
event_profile (memory_stored e) = e.profile
event_profile (check_update e) = e.profile
event_profile (session_turn_stored profile turn uris calls) = profile
event_profile (session_merged profile uri sources content data_) = profile
event_profile (session_ended profile uri merged content data_) = profile

unfoldable pub is_empty_record : Meta → Bool
is_empty_record [] = true
is_empty_record (f ∷ rec) = false

-- The records that get search and entity indexes.
unfoldable pub is_indexed : Meta → Bool
unfolding is_empty_record
is_indexed rec =
    not (is_empty_record rec) && (truthy (at "retrieval_ready" rec) && truthy (at "is_leaf" rec))

-- `record.get(key, default)`
abbrev get_or_default : String → Json → Meta → Json
get_or_default key v rec = elim (Dict.get key rec) [ none ↦ v | some w ↦ w ]

-- `sha1` gives the digits of a digest, and `temporal` the dates of a list of values.
module _ (py : Python) (re : Patterns) (sha1 : String → String) (temporal : List Json → Meta) where
  -- The dates that `temporal_payload_fields` finds in a record, in `time_refs` and in a text.
  abbrev dates_of : Meta → Json → String → Meta
  dates_of rec time_refs text = temporal (
      at "event_ts" rec
      ∷ at "event_date" rec
      ∷ at "utterance_ts" rec
      ∷ at "date_range_start" rec
      ∷ at "date_range_end" rec
      ∷ time_refs
      ∷ str text
      ∷ [])

  -- The fields that each index record has.
  unfoldable pub linked_fields : MemoryEvent → Meta → String → String → String → Meta
  unfolding event_uri event_record_id event_profile
  linked_fields e rec surface text uri =
      let profile = event_profile e in
      ("id", str uri)
      ∷ ("uri", str uri)
      ∷ ("parent_uri", str (event_uri e))
      ∷ ("context_type", get_or_default "context_type" (str "") rec)
      ∷ ("category", get_or_default "category" (str "") rec)
      ∷ ("abstract", str text)
      ∷ ("overview", str text)
      ∷ ("content", str text)
      ∷ ("retrieval_surface", str surface)
      ∷ ("source_uri", str (event_uri e))
      ∷ ("source_record_id", str (event_record_id py e))
      ∷ ("source_tenant_id", str profile.tenant_id)
      ∷ ("source_user_id", str profile.user_id)
      ∷ ("tenant_id", str profile.tenant_id)
      ∷ ("user_id", str profile.user_id)
      ∷ ("project_id", str profile.project_id)
      ∷ ("scope", get_or_default "scope" (str "") rec)
      ∷ ("session_id", str profile.session_id)
      ∷ ("keywords", get_or_default "keywords" (str "") rec)
      ∷ ("anchor_hits", get_or_default "anchor_hits" (texts []) rec)
      ∷ ("memory_kind", get_or_default "memory_kind" (str "") rec)
      ∷ []

  -- The metadata of a record with the names of the index.
  abbrev index_meta : MemoryEvent → Meta → String → Meta
  index_meta e rec name =
      update
        (("index_name", str name)
          ∷ ("source_uri", str (event_uri e))
          ∷ ("source_record_id", str (event_record_id py e))
          ∷ [])
        (dict_at "meta" rec)

  unfoldable pub index_base : MemoryEvent → Meta → String → String → String → String → Meta
  unfolding linked_fields update event_uri event_record_id
  index_base e rec name surface text uri =
      let kept = at "time_refs" (dict_at "meta" rec) in
      let time_refs = if truthy kept then kept else at "time_refs" rec in
      update (dates_of rec time_refs text) (
        linked_fields e rec surface text uri
        ++ ("entities", get_or_default "entities" (texts []) rec)
          ∷ ("index_score", number "1.0")
          ∷ ("meta", obj (to_fields (index_meta e rec name)))
          ∷ [])

  unfoldable pub anchor_record :
      (PayloadClass → Meta → Result Meta) → MemoryEvent → AnchorIndex → Result Meta
  unfolding index_base event_uri digest primary_record
  anchor_record make e a =
      let uri =
        event_uri e <> ("/anchor_indexes/" <> digest py sha1 (a.anchor_type <> (":" <> a.text))) in
      let kind = if a.anchor_type == "" then "term" else a.anchor_type in
      make anchor_index_payload (
        index_base e (primary_record e) "AnchorIndex" "anchor_index" a.text uri
        ++ ("anchor_type", str kind) ∷ [])

  unfoldable pub fact_record :
      (PayloadClass → Meta → Result Meta) → MemoryEvent → String → Result Meta
  unfolding index_base event_uri digest primary_record
  fact_record make e text = make fact_index_payload (
      index_base e (primary_record e) "FactIndex" "fact_index" text
        (event_uri e <> ("/fact_indexes/" <> digest py sha1 text)))

  unfoldable pub search_records :
      (PayloadClass → Meta → Result Meta) → MemoryEvent → Result (List Meta)
  unfolding anchor_record fact_record anchor_indexes fact_indexes all_ok
  search_records make e = all_ok (
      map (anchor_record make e) (anchor_indexes py re e)
      ++ map (fact_record make e) (fact_indexes py re e))

  unfoldable pub entity_record :
      (PayloadClass → Meta → Result Meta) → MemoryEvent → String → Result Meta
  unfolding linked_fields update event_uri event_record_id digest primary_record
  entity_record make e entity =
      let rec = primary_record e in
      let uri = event_uri e <> ("/entity_indexes/" <> digest py sha1 entity) in
      let meta = update (("entity_text", str entity) ∷ []) (index_meta e rec "EntityIndex") in
      make entity_index_payload (
        update (dates_of rec (at "time_refs" rec) entity) (
          linked_fields e rec "entity_index" entity uri
          ++ ("entity_text", str entity)
            ∷ ("entities", texts (entity ∷ []))
            ∷ ("meta", obj (to_fields meta))
            ∷ []))

  unfoldable pub entity_records :
      (PayloadClass → Meta → Result Meta) → MemoryEvent → Result (List Meta)
  unfolding entity_record normalized_entities primary_record all_ok
  entity_records make e = all_ok (
      map (entity_record make e)
        (normalized_entities py re (list_at "entities" (primary_record e))))

  abbrev pub index_some :
      {World Vector : Type 0}
      → Indexing World Vector
      → Complaints
      → List Meta
      → Call World (Unit {0})
  index_some services complaints [] = return tt
  index_some services complaints (r ∷ rs) =
      index_all services complaints (text_at py "overview") (r ∷ rs)

  -- Both writers: records for a leaf that is ready, and none written where there are none.
  unfoldable pub write_indexes :
      {World Vector : Type 0}
      → Indexing World Vector
      → Complaints
      → MemoryEvent
      → Result (List Meta)
      → Call World (Unit {0})
  unfolding is_indexed primary_record index_all
  write_indexes services complaints e records =
      if is_indexed (primary_record e)
      then lift records >>= index_some services complaints
      else return tt

  abbrev search_complaints : Complaints
  search_complaints = record {
    no_embedder = "SearchIndexWriter requires an embedder";
    unembedded = "Search index embedding returned no dense vector";
  }

  abbrev entity_complaints : Complaints
  entity_complaints = record {
    no_embedder = "EntityIndexWriter requires an embedder";
    unembedded = "Entity index embedding returned no dense vector";
  }

  unfoldable pub search_write :
      {World Vector : Type 0} → Indexing World Vector → MemoryEvent → Call World (Unit {0})
  unfolding write_indexes search_records
  search_write services e =
      write_indexes services search_complaints e (search_records services.make e)

  unfoldable pub entity_write :
      {World Vector : Type 0} → Indexing World Vector → MemoryEvent → Call World (Unit {0})
  unfolding write_indexes entity_records
  entity_write services e =
      write_indexes services entity_complaints e (entity_records services.make e)
