-- ===== src/Records/Events.antt =====
-- The events that src/opencortex/store/event/events.py publishes, and `StoreEvents`.
use open_cortex.Base.{
  String, Option, none, some, List, [], ◌∷◌, ◌++◌, if◌then◌else◌, ◌==◌, string_eq,
}
use open_cortex.Base.Dict
use open_cortex.Base.Json.{Json, Meta, Python, text_at, truthy, null, obj, fields, at}
use open_cortex.Worker.Events.{IdentityProfile}
use open_cortex.Records.Defs.{PrimaryRecordInput, StoredRecord}

pub record RecordEvent : Type 0 where
  pub profile : IdentityProfile
  pub uri : String
  pub record_id : String
  pub context_type : String
  pub category : String
  pub layer : String
  pub content : String
  pub record_data : Meta

pub data MemoryEvent : Type 0 where
  memory_stored check_update : RecordEvent → MemoryEvent
  session_turn_stored : IdentityProfile → String → List String → List Meta → MemoryEvent
  session_merged : IdentityProfile → String → List String → String → Meta → MemoryEvent
  session_ended : IdentityProfile → String → List String → String → Meta → MemoryEvent

-- `memory_events` is None, or takes the events in order.
abbrev pub Published : Type 0
Published = Option (List MemoryEvent)

unfoldable pub publish_nowait : MemoryEvent → Published → Published
publish_nowait e none = none
publish_nowait e (some es) = some (es ++ e ∷ [])

-- `(value or {}).get(key)`; the `meta` of a stored record is a dict.
abbrev meta_at : String → Json → Json
meta_at key (obj d) = at key (fields d)
meta_at key _ = null

unfoldable pub session_turn_stored_event :
    IdentityProfile → String → List String → List Meta → Published → Published
unfolding publish_nowait
session_turn_stored_event profile turn uris calls published =
    publish_nowait (session_turn_stored profile turn uris calls) published

module _ (py : Python) where
  unfoldable pub publish_check_update :
      IdentityProfile → String → String → Meta → Published → Published
  unfolding publish_nowait
  publish_check_update profile uri content data_ published =
      publish_nowait
        (check_update (record {
          profile = profile;
          uri = uri;
          record_id = (let id = text_at py "id" data_ in if id == "" then uri else id);
          context_type = text_at py "context_type" data_;
          category = text_at py "category" data_;
          layer =
              (let layer = meta_at "layer" (at "meta" data_) in
                if truthy layer then py.show layer else "");
          content = content;
          record_data = data_;
        }))
        published

  -- The identity of a stored record, and its event.
  abbrev pub stored_profile :
      {Vector : Type 0} → PrimaryRecordInput Vector → StoredRecord → IdentityProfile
  stored_profile i s =
      let project = text_at py "project_id" s.record_data in
      record {
        tenant_id = i.tenant_id;
        user_id = i.user_id;
        project_id = if project == "" then "public" else project;
        session_id = i.session_id;
        collection = "";
      }

  abbrev pub stored_event :
      {Vector : Type 0} → PrimaryRecordInput Vector → StoredRecord → Json → RecordEvent
  stored_event i s id = record {
    profile = stored_profile i s;
    uri = s.uri;
    record_id = py.show id;
    context_type = s.context_type;
    category = s.category;
    layer = text_at py "layer" i.meta;
    content = i.content;
    record_data = s.record_data;
  }

  -- `publish_primary_record`; `none` is the KeyError of a record without an id.
  unfoldable pub memory_stored_event :
      {Vector : Type 0} → PrimaryRecordInput Vector → StoredRecord → Published → Option Published
  unfolding publish_check_update
  memory_stored_event i s none = some none
  memory_stored_event i s (some es) = elim (Dict.get "id" s.record_data) [
    | none ↦ none
    | some id ↦ some (
        publish_check_update (stored_profile i s) s.uri i.content s.record_data
          (publish_nowait (memory_stored (stored_event i s id)) (some es)))
  ]

  unfoldable pub session_merged_event :
      IdentityProfile → String → List String → String → Meta → Published → Published
  unfolding publish_check_update
  session_merged_event profile uri sources content data_ published =
      publish_check_update profile uri content data_
        (publish_nowait (session_merged profile uri sources content data_) published)

  unfoldable pub session_ended_event :
      IdentityProfile → String → List String → String → Meta → Published → Published
  unfolding publish_check_update
  session_ended_event profile uri merged content data_ published =
      publish_check_update profile uri content data_
        (publish_nowait (session_ended profile uri merged content data_) published)
