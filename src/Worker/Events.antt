-- ===== src/Worker/Events.antt =====
-- The write events of src/opencortex/store/event/events.py and their payloads in worker.py.
use open_cortex.Base.{
  List, ap, ◌∙◌, arith, ◌≡◌, refl, String, Bool, true, false, Option, none, some, if◌then◌else◌,
  ◌==◌, string_eq,
}
use open_cortex.Worker.Failure.{PyError, value, Result, ok, err, or_text}
use open_cortex.Base.Json.{Meta}
use Prim.Native.String.{◌++◌ as ◌<>◌}

pub data EventKind : Type 0 where
  memory_stored check_update session_turn_stored session_merged session_ended : EventKind

unfoldable pub event_name : EventKind → String
event_name memory_stored = "memory_stored"
event_name check_update = "check_update"
event_name session_turn_stored = "session_turn_stored"
event_name session_merged = "session_merged"
event_name session_ended = "session_ended"

-- `EVENT_TYPES.get(event_name)`
unfoldable pub event_type : String → Option EventKind
event_type name =
    if name == "memory_stored"
    then some memory_stored
    else if name == "check_update"
    then some check_update
    else if name == "session_turn_stored"
    then some session_turn_stored
    else if name == "session_merged"
    then some session_merged
    else if name == "session_ended"
    then some session_ended
    else none

-- A profile without its role, which is an argument where it is read.
pub record IdentityProfile : Type 0 where
  pub tenant_id : String
  pub user_id : String
  pub project_id : String
  pub session_id : String
  pub collection : String

-- The fields of MemoryStoredEvent and CheckUpdateEvent.
pub record RecordFields : Type 0 where
  pub uri : String
  pub record_id : String
  pub context_type : String
  pub category : String
  pub layer : String
  pub content : String
  pub record_data : Meta

-- The fields of each class: SessionTurnStoredEvent has its turn, the uris of the records and the tool
-- calls; the two last classes have a uri, the uris behind it, the content and the record.
pub data EventFields : Type 0 where
  stored_fields updated_fields : RecordFields → EventFields
  turn_fields : String → List String → List Meta → EventFields
  merged_fields ended_fields : String → List String → String → Meta → EventFields

pub record StoreWriteEvent : Type 0 where
  pub profile : Option IdentityProfile
  pub fields : EventFields

-- The class of an event.
unfoldable pub kind_of : EventFields → EventKind
kind_of (stored_fields f) = memory_stored
kind_of (updated_fields f) = check_update
kind_of (turn_fields turn uris calls) = session_turn_stored
kind_of (merged_fields uri uris content rec) = session_merged
kind_of (ended_fields uri uris content rec) = session_ended

abbrev pub kind : StoreWriteEvent → EventKind
kind e = kind_of e.fields

-- `getattr(event, "uri", "") or getattr(event, "record_id", "")`
abbrev record_uri : EventFields → String
record_uri (stored_fields f) = or_text f.uri f.record_id
record_uri (updated_fields f) = or_text f.uri f.record_id
record_uri _ = ""

-- the properties of `ProfileEvent`
unfoldable pub tenant_id : StoreWriteEvent → String
tenant_id e = elim e.profile [ none ↦ "default" | some p ↦ p.tenant_id ]

unfoldable pub user_id : StoreWriteEvent → String
user_id e = elim e.profile [ none ↦ "default" | some p ↦ p.user_id ]

unfoldable pub project_id : StoreWriteEvent → String
project_id e = elim e.profile [ none ↦ "public" | some p ↦ p.project_id ]

unfoldable pub session_id : StoreWriteEvent → String
session_id e = elim e.profile [ none ↦ "" | some p ↦ p.session_id ]

-- `getattr(profile, name, "")`
unfoldable pub profile_part : (IdentityProfile → String) → StoreWriteEvent → String
profile_part part e = elim e.profile [ none ↦ "" | some p ↦ part p ]

abbrev pub is_session : EventKind → Bool
is_session session_turn_stored = true
is_session session_merged = true
is_session session_ended = true
is_session _ = false

abbrev pub OrderingKey : Type 0
OrderingKey = String × (String × (String × (String × String)))

unfoldable pub ordering_key : StoreWriteEvent → OrderingKey
unfolding tenant_id user_id project_id session_id profile_part
ordering_key e =
    let tenant = or_text (profile_part (λ p. p.tenant_id) e) (tenant_id e) in
    let user = or_text (profile_part (λ p. p.user_id) e) (user_id e) in
    let project = or_text (profile_part (λ p. p.project_id) e) (project_id e) in
    let session = or_text (profile_part (λ p. p.session_id) e) (session_id e) in
    if is_session (kind e)
    then ("session", (tenant, (user, (project, session))))
    else ("record", (tenant, (user, (project, record_uri e.fields))))

-- pydantic: an event as JSON data, and the fields of a class of such data. `validate` may raise a
-- ValidationError, and `ids` are the legacy id fields of the data, empty where it lacks them.
pub record Codec : Type 1 where
  pub Body : Type 0
  pub dump : StoreWriteEvent → Body
  pub validate : EventKind → Body → Result StoreWriteEvent
  pub ids : Body → IdentityProfile

abbrev pub no_ids : IdentityProfile
no_ids = record { tenant_id = ""; user_id = ""; project_id = ""; session_id = ""; collection = "" }

-- What the dump of an event is: its fields can be read again, and it has no other ones.
pub record IsCodec (c : Codec) : Type 0 where
  pub validate-dump : (e : StoreWriteEvent) → c.validate (kind e) (c.dump e) ≡ ok e
  pub ids-dump : (e : StoreWriteEvent) → c.ids (c.dump e) ≡ no_ids

-- The stored dict; `event` is `none` where the value is missing or no dict.
pub record Payload (Body : Type 0) : Type 0 where
  pub event_name : String
  pub event : Option Body
  pub request_id : String

unfoldable pub value_error : String → PyError
value_error text = record { class = value; class_name = "ValueError"; text = text }

-- `build_profile`: an event without a profile gets one of the id fields.
unfoldable pub build_profile : IdentityProfile → StoreWriteEvent → StoreWriteEvent
build_profile ids e = elim e.profile [
  | some p ↦ e
  | none ↦ record e {
    profile = some (record {
      tenant_id = or_text ids.tenant_id "default";
      user_id = or_text ids.user_id "default";
      project_id = or_text ids.project_id "public";
      session_id = ids.session_id;
      collection = ids.collection;
    });
  }
]

abbrev default_profile : IdentityProfile
default_profile = record {
  tenant_id = "default";
  user_id = "default";
  project_id = "public";
  session_id = "";
  collection = "";
}

-- The event with a profile in any case.
abbrev pub with_profile : StoreWriteEvent → StoreWriteEvent
with_profile e = elim e.profile [ some p ↦ e | none ↦ record e { profile = some default_profile } ]

module _ (c : Codec) where
  unfoldable pub event_payload : StoreWriteEvent → String → Payload c.Body
  unfolding event_name
  event_payload e request = record {
    event_name = event_name (kind e);
    event = some (c.dump e);
    request_id = request;
  }

  -- `model_validate`: `build_profile` runs before the fields are read, which takes any profile it makes.
  unfoldable pub model_validate : EventKind → c.Body → Result StoreWriteEvent
  unfolding build_profile
  model_validate k body = elim (c.validate k body) [
    | err x ↦ err x
    | ok e ↦ ok (build_profile (c.ids body) e)
  ]

  unfoldable pub event_from_payload : Payload c.Body → Result StoreWriteEvent
  unfolding event_type value_error model_validate
  event_from_payload p = elim (event_type p.event_name) [
    | none ↦ err (value_error ("Unsupported store event payload: " <> p.event_name))
    | some k ↦ elim p.event [
      | none ↦ err (value_error ("Invalid store event payload: " <> p.event_name))
      | some body ↦ model_validate k body
    ]
  ]

  event_type-event_name : (k : EventKind) → event_type (event_name k) ≡ some k
  unfolding event_type event_name
  event_type-event_name memory_stored = refl
  event_type-event_name check_update = refl
  event_type-event_name session_turn_stored = refl
  event_type-event_name session_merged = refl
  event_type-event_name session_ended = refl

  default_order :
      (o : Option IdentityProfile) (f : EventFields)
      → let e : StoreWriteEvent = record { profile = o; fields = f } in
        ordering_key (with_profile e) ≡ ordering_key e
  unfolding ordering_key tenant_id user_id project_id session_id profile_part
  default_order none f = refl
  default_order (some p) f = refl

  build_profile-no_ids :
      (o : Option IdentityProfile) (f : EventFields)
      → let e : StoreWriteEvent = record { profile = o; fields = f } in
        build_profile no_ids e ≡ with_profile e
  unfolding build_profile
  build_profile-no_ids none f = refl
  build_profile-no_ids (some p) f = refl

  payload_of :
      (p : Payload c.Body) (k : EventKind) (body : c.Body) (e : StoreWriteEvent)
      → event_type p.event_name ≡ some k
      → p.event ≡ some body
      → c.validate k body ≡ ok e
      → event_from_payload p ≡ ok (build_profile (c.ids body) e)
  unfolding event_from_payload model_validate
  payload_of p k body e known present read = ground arith

  -- Where pydantic reads back what it dumped, and a dump has no legacy id fields, the event that the
  -- worker restores from a payload is the one that was stored, with the default profile if it had
  -- none, and it has the same ordering key.
  pub event_from_payload-event_payload :
      IsCodec c
      → (e : StoreWriteEvent) (request : String)
      → (event_from_payload (event_payload e request) ≡ ok (with_profile e))
        × (ordering_key (with_profile e) ≡ ordering_key e)
  unfolding event_payload
  event_from_payload-event_payload lawful e request = (
    payload_of (event_payload e request) (kind e) (c.dump e) e (event_type-event_name (kind e)) refl
          (lawful.validate-dump e)
        ∙ ap (λ ids. ok (build_profile ids e)) (lawful.ids-dump e)
        ∙ ap ok (build_profile-no_ids e.profile e.fields),
    default_order e.profile e.fields,
  )
