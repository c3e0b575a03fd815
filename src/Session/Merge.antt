-- ===== src/Session/Merge.antt =====
-- `SessionMerger`: one chunk of the buffer becomes a merged record.
use open_cortex.Base.{
  ℕ, ◌+◌, ◌-◌, String, true, Option, none, some, List, [], ◌∷◌, pair_eq, string_eq,
}
use open_cortex.Base.Lists.{length}
use open_cortex.Base.Json.{num, str, arr, Meta, texts, to_items, join}
use open_cortex.Namespace.{session_merged_uri, session_events_parent}
use open_cortex.Buffer.{SessionBuffer, SessionBufferSnapshot, pop_merge_chunk, snapshot}
use open_cortex.Worker.Events.{IdentityProfile}
use open_cortex.Records.{
  Context, memory, PrimaryRecordInput, StoredRecord, from_context, primary_ttl,
}
use open_cortex.Records.Events.{session_merged_event}
use open_cortex.Session.Defs.{
  SessionKey, Services, Setup, M, ◌>>=◌, ◌>>◌, return, outcome, call, on_buffer, publish,
}

-- `pop_merge_chunk(key) or snapshot(key)`
unfoldable pub next_chunk :
    SessionKey
    → SessionBuffer SessionKey Meta
    → Option (SessionBufferSnapshot Meta) × SessionBuffer SessionKey Meta
unfolding pop_merge_chunk snapshot
next_chunk key b =
    let r = pop_merge_chunk key b in elim r.0 [ some c ↦ (some c, r.1) | none ↦ snapshot key r.1 ]

module _ {Vector World : Type 0} (setup : Setup) (services : Services Vector World) where
  unfoldable pub build_merged_record :
      IdentityProfile → String → ℕ → ℕ → List String → M World (PrimaryRecordInput Vector)
  unfolding session_merged_uri session_events_parent from_context primary_ttl
  build_merged_record p content first last source_uris = do
    let parent_uri : String = session_events_parent setup.py p.session_id p
    let meta : Meta =
        ("project_id", str p.project_id)
        ∷ ("layer", str "merged")
        ∷ ("session_id", str p.session_id)
        ∷ ("msg_range", arr (to_items (num first ∷ num last ∷ [])))
        ∷ ("source_uri", str parent_uri)
        ∷ ("recomposition_stage", str "online_tail")
        ∷ ("source_uris", texts source_uris)
        ∷ []
    let ctx : Context Vector = record {
      uri = session_merged_uri setup.py p.session_id first last p;
      parent_uri = parent_uri;
      is_leaf = true;
      abstract = "";
      overview = "";
      context_type = memory;
      category = "events";
      related_uri = [];
      meta = meta;
      session_id = p.session_id;
      profile = p;
      vector = none;
      vectorize = none;
    }
    raw ← outcome (
        from_context setup.py setup.effective_project ctx content "events" p.tenant_id p.user_id
          p.project_id p.session_id meta
          (primary_ttl setup.immediate_ttl setup.merged_ttl memory "events" "merged"))
    return (record {
      ctx = ctx;
      payload = raw;
      effective_category = raw.category;
      meta = meta;
      context_type = memory;
      session_id = p.session_id;
      tenant_id = p.tenant_id;
      user_id = p.user_id;
      content = content;
    })

  -- What `merge_unmerged` does with its chunk.
  unfoldable pub merge_chunk :
      IdentityProfile → SessionBufferSnapshot Meta → M World (Option StoredRecord)
  unfolding build_merged_record session_merged_event join
  merge_chunk p c = do
    let content : String = join "\n\n" c.messages
    record_input ←
        build_merged_record p content c.start_msg_index (c.start_msg_index + length c.messages - 1)
          c.immediate_uris
    stored ← call (services.write record_input)
    publish (session_merged_event setup.py p stored.uri c.immediate_uris content stored.record_data)
    return (some stored)

  unfoldable pub merge_unmerged : SessionKey → IdentityProfile → M World (Option StoredRecord)
  unfolding merge_chunk next_chunk
  merge_unmerged key p = do
    chunk ← on_buffer (next_chunk key)
    elim chunk [ none ↦ return none | some c ↦ merge_chunk p c ]
