-- ===== src/Session/Immediate.antt =====
-- `SessionStore`: one turn of a conversation, as immediate records.
use Prim.Native.String.{◌++◌ as ◌<>◌}
use text.Mathlib.Text.{starts_with, find?}
use open_cortex.Base.{
  ℕ, String, Bool, true, false, ◌||◌, Option, none, some, List, [], ◌∷◌, map, if◌then◌else◌, ◌==◌,
  string_eq, pair_eq, is_some, ltb,
}
use open_cortex.Base.Dict
use open_cortex.Base.Json.{
  Json, num, str, arr, obj, Meta, Python, truthy, at, update, texts, to_items, to_fields, join,
}
use open_cortex.Common.{
  merge_unique_strings, build_abstract_json, memory_object_payload, ObjectPayload,
}
use open_cortex.Namespace.{session_immediate_uri, session_events_parent}
use open_cortex.Buffer.{lock, touch, next_msg_index, append, freeze_ready_chunks, should_merge}
use open_cortex.Worker.Events.{IdentityProfile}
use open_cortex.Records.{
  Context, memory, PrimaryRecordInput, RawPrimaryRecord, from_context, primary_ttl,
}
use open_cortex.Records.Events.{memory_stored_event, session_turn_stored_event}
use open_cortex.Session.Defs.{
  SessionKey, profile_key, SessionMessage, SessionMessageInput, SessionMessageResult, Services,
  Setup, M, ◌>>=◌, ◌>>◌, return, type_error, no_vector, or_raise, outcome, call, on_buffer,
  change_buffer, publish, publish_stored, draw,
}

-- A list of dicts as a value.
abbrev dicts : List Meta → Json
dicts ds = arr (to_items (map (λ d. obj (to_fields d)) ds))

-- The tool calls of a turn belong to what the assistant says.
abbrev pub calls_of : List Meta → String → List Meta
calls_of calls role = if role == "assistant" then calls else []

-- `merge_unique_strings(meta.get("topics"))` set where it is not empty
abbrev with_topics : List String → Meta → Meta
with_topics [] meta = meta
with_topics (t ∷ ts) meta = Dict.set "topics" (texts (t ∷ ts)) meta

module _ (py : Python) where
  unfoldable pub message_meta :
      SessionMessageInput → SessionMessage → ℕ → IdentityProfile → Option Meta
  unfolding merge_unique_strings update Dict.set
  message_meta i m index p = elim (merge_unique_strings py (at "topics" m.meta ∷ [])) [
    | none ↦ none
    | some topics ↦ some (
        update
          (("project_id", str p.project_id)
            ∷ ("layer", str "immediate")
            ∷ ("session_id", str i.session_id)
            ∷ ("turn_id", str i.turn_id)
            ∷ ("msg_index", num index)
            ∷ ("role", str m.role)
            ∷ ("tool_calls", dicts (calls_of i.tool_calls m.role))
            ∷ [])
          (with_topics topics m.meta))
  ]

  unfoldable pub decorate_message_text : String → Meta → Option String
  unfolding merge_unique_strings
  decorate_message_text text meta =
      elim (merge_unique_strings py (at "time_refs" meta ∷ at "event_date" meta ∷ [])) [
        | none ↦ none
        | some [] ↦ some text
        | some (r ∷ rs) ↦
            some (if is_some (find? text r) then text else "[" <> (r <> ("] " <> text)))
      ]

  unfoldable pub immediate_embed_text : String → String
  immediate_embed_text text =
      let lowered = py.lower text in
      if starts_with lowered "user:"
      then "[user] " <> text
      else if starts_with lowered "assistant:"
      then "[assistant] " <> text
      else if starts_with lowered "system:"
      then "[system] " <> text
      else text

module _ {Vector World : Type 0} (setup : Setup) (services : Services Vector World) where
  -- The record and the context that the preparation leaves.
  unfoldable pub prepare_immediate_ready_payload :
      RawPrimaryRecord Vector
      → Context Vector
      → Meta
      → M World (RawPrimaryRecord Vector × Context Vector)
  unfolding merge_unique_strings build_abstract_json memory_object_payload immediate_embed_text join
  prepare_immediate_ready_payload raw ctx meta = do
    entities ← or_raise type_error (merge_unique_strings setup.py (at "entities" meta ∷ []))
    keywords ← or_raise type_error (merge_unique_strings setup.py (at "topics" meta ∷ []))
    abstract ← or_raise type_error (
        build_abstract_json setup.py raw.uri "memory" "events" raw.content "" raw.content entities
          meta keywords raw.parent_uri raw.session_id)
    let object : ObjectPayload = memory_object_payload setup.py abstract true
    let ctx' : Context Vector = record ctx {
      abstract = raw.content;
      overview = "";
      vectorize = some (immediate_embed_text setup.py raw.content);
    }
    embedding ← call (services.embed ctx')
    vector ← or_raise no_vector embedding.0
    return (
      record raw {
        abstract = raw.content;
        overview = "";
        entities = entities;
        keywords = join ", " keywords;
        abstract_json = some (record abstract { fact_points = some (raw.content ∷ []) });
        retrieval_ready = true;
        derive_status = "ready";
        meta = meta;
        memory_kind = object.memory_kind;
        anchor_hits = object.anchor_hits;
        merge_signature = object.merge_signature;
        mergeable = object.mergeable;
        retrieval_surface = object.retrieval_surface;
        anchor_surface = object.anchor_surface;
        vector = some vector;
        sparse_vector = if truthy embedding.1 then embedding.1 else raw.sparse_vector;
      },
      record ctx' { vector = some vector },
    )

  unfoldable pub build_immediate_record :
      SessionMessageInput
      → SessionMessage
      → ℕ
      → IdentityProfile
      → M World (PrimaryRecordInput Vector)
  unfolding session_immediate_uri session_events_parent message_meta decorate_message_text
      from_context primary_ttl prepare_immediate_ready_payload
  build_immediate_record i m index p = do
    uuid ← draw setup.uuid
    meta ← or_raise type_error (message_meta setup.py i m index p)
    content ← or_raise type_error (decorate_message_text setup.py m.content meta)
    let ctx : Context Vector = record {
      uri = session_immediate_uri setup.py p uuid;
      parent_uri = session_events_parent setup.py i.session_id p;
      is_leaf = true;
      abstract = "";
      overview = "";
      context_type = memory;
      category = "events";
      related_uri = [];
      meta = meta;
      session_id = i.session_id;
      profile = p;
      vector = none;
      vectorize = none;
    }
    raw ← outcome (
        from_context setup.py setup.effective_project ctx content "events" p.tenant_id p.user_id
          p.project_id i.session_id meta
          (primary_ttl setup.immediate_ttl setup.merged_ttl memory "events" "immediate"))
    prepared ← prepare_immediate_ready_payload raw ctx meta
    return (record {
      ctx = prepared.1;
      payload = prepared.0;
      effective_category = raw.category;
      meta = meta;
      context_type = memory;
      session_id = i.session_id;
      tenant_id = p.tenant_id;
      user_id = p.user_id;
      content = content;
    })

  -- One message of the loop of `message`: the uri of its record, and whether a chunk was frozen.
  unfoldable pub store_message :
      SessionKey → SessionMessageInput → IdentityProfile → SessionMessage → M World (String × Bool)
  unfolding build_immediate_record memory_stored_event
  store_message key i p m = do
    index ← on_buffer (next_msg_index key)
    record_input ← build_immediate_record i m index p
    stored ← call (services.write record_input)
    publish_stored setup.py record_input stored
    change_buffer (append key record_input.content stored.uri (some (calls_of i.tool_calls m.role)))
    frozen ← on_buffer (freeze_ready_chunks key)
    return (stored.uri, ltb 0 frozen)

  -- The loop over the messages.
  unfoldable pub store_messages :
      SessionKey
      → SessionMessageInput
      → IdentityProfile
      → List SessionMessage
      → M World (List String × Bool)
  unfolding store_message
  store_messages key i p [] = return ([], false)
  store_messages key i p (m ∷ ms) = do
    first ← store_message key i p m
    rest ← store_messages key i p ms
    return (first.0 ∷ rest.0, first.1 || rest.1)

  -- `SessionStore.message` for the profile of the request; `now` is read when the lock is taken.
  unfoldable pub message :
      String → ℕ → IdentityProfile → SessionMessageInput → M World SessionMessageResult
  unfolding profile_key store_messages
  message resolved now p i = do
    let key : SessionKey = profile_key resolved p
    change_buffer (lock key now)
    change_buffer (touch key (some p.project_id) now)
    written ← store_messages key i p i.messages
    publish (session_turn_stored_event p i.turn_id written.0 i.tool_calls)
    due ← on_buffer (λ b. (should_merge key b, b))
    return (record {
      turn_id = i.turn_id;
      written_uris = written.0;
      merge_requested = written.1 || due;
    })
