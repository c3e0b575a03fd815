-- ===== src/Index/Payload.antt =====
-- What src/opencortex/store/writer/event_payload.py reads of an event, and lists of texts.
use open_cortex.Base.{String, not, List, [], ◌∷◌, ◌++◌, map, if◌then◌else◌, ◌==◌, string_eq}
use open_cortex.Base.Chars.{take_chars}
use open_cortex.Base.Lists.{filter}
use open_cortex.Base.Unique.{unique_by}
use open_cortex.Base.Json.{Json, obj, arr, items, fields, Meta, Python, at, truthy, text_or_empty}
use open_cortex.Records.Events.{
  MemoryEvent, memory_stored, check_update, session_turn_stored, session_merged, session_ended,
}

unfoldable pub primary_record : MemoryEvent → Meta
primary_record (memory_stored e) = e.record_data
primary_record (check_update e) = e.record_data
primary_record (session_turn_stored profile turn uris calls) = []
primary_record (session_merged profile uri sources content data_) = data_
primary_record (session_ended profile uri merged content data_) = data_

unfoldable pub event_uri : MemoryEvent → String
event_uri (memory_stored e) = e.uri
event_uri (check_update e) = e.uri
event_uri (session_turn_stored profile turn uris calls) = ""
event_uri (session_merged profile uri sources content data_) = uri
event_uri (session_ended profile uri merged content data_) = uri

unfoldable pub event_content : MemoryEvent → String
event_content (memory_stored e) = e.content
event_content (check_update e) = e.content
event_content (session_turn_stored profile turn uris calls) = ""
event_content (session_merged profile uri sources content data_) = content
event_content (session_ended profile uri merged content data_) = content

-- `event.record_id`, of the classes that have one
abbrev own_record_id : MemoryEvent → String
own_record_id (memory_stored e) = e.record_id
own_record_id (check_update e) = e.record_id
own_record_id _ = ""

-- `value or []`, where the value is a list of a record.
abbrev pub list_at : String → Meta → List Json
list_at key d = elim (at key d) [ arr xs ↦ items xs | _ ↦ [] ]

-- `dict(value or {})`, where the value is a dict of a record.
abbrev pub dict_at : String → Meta → Meta
dict_at key d = elim (at key d) [ obj xs ↦ fields xs | _ ↦ [] ]

unfoldable pub record_abstract_json : Meta → Meta
record_abstract_json rec = dict_at "abstract_json" rec

module _ (py : Python) where
  unfoldable pub event_record_id : MemoryEvent → String
  unfolding primary_record
  event_record_id e =
      let id = at "id" (primary_record e) in if truthy id then py.show id else own_record_id e

  -- `sha1` gives the hexadecimal digits of a text's digest.
  unfoldable pub digest : (String → String) → String → String
  unfolding take_chars
  digest sha1 text = take_chars 16 (sha1 (py.lower (py.strip text)))

  -- `unique_strings` of the tree writer, and the loops of `source_references` and `cone_neighbors`.
  unfoldable pub unique_strings : List Json → List String
  unfolding unique_by
  unique_strings values =
      unique_by (λ t. t) []
        (filter (λ t. not (t == "")) (map (λ v. py.strip (text_or_empty py v)) values))

  unfoldable pub source_references : Meta → Meta → List Json → List Json → List String
  unfolding unique_strings
  source_references rec meta source_uris merged_uris = unique_strings (
      at "source_section_path" meta
        ∷ at "source_path" meta
        ∷ at "file_path" meta
        ∷ at "source_uri" meta
        ∷ at "uri" rec
        ∷ source_uris
      ++ merged_uris)
