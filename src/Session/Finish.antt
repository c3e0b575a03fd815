-- ===== src/Session/Finish.antt =====
-- `SessionEnder`: the end of a session.
use text.Mathlib.Text.{starts_with}
use open_cortex.Base.{
  ℕ, zero, suc, String, Bool, false, not, Option, none, some, List, [], ◌∷◌, ◌++◌, map,
  if◌then◌else◌, ◌==◌, pair_eq, string_eq,
}
use open_cortex.Base.Lists.{length, contains, any}
use open_cortex.Base.Sets.{add}
use open_cortex.Base.Dict
use open_cortex.Base.Json.{str, Meta, Python, truthy, at, texts, text_or_empty, join}
use open_cortex.Namespace.{session_final_uri, session_events_parent}
use open_cortex.Buffer.{lock, touch, freeze_all_chunks, has_pending_merge, drop_key, chunks}
use open_cortex.Worker.Failure.{ok}
use open_cortex.Worker.Events.{IdentityProfile}
use open_cortex.Records.{Context, memory, PrimaryRecordInput, StoredRecord, from_context}
use open_cortex.Records.Events.{session_ended_event}
use open_cortex.Session.Defs.{
  SessionKey, profile_key, SessionEndResult, Services, Setup, M, ◌>>=◌, ◌>>◌, return, outcome, call,
  on_buffer, change_buffer, publish,
}
use open_cortex.Session.Merge.{merge_unmerged}

-- `str(record.get("uri", ""))`
abbrev pub uri_text : Python → Meta → String
uri_text py d = elim (Dict.get "uri" d) [ none ↦ "" | some v ↦ py.show v ]

-- The loop that adds the new records that the store did not return.
unfoldable pub add_new_records : Python → List Meta → List String → List Meta → List Meta
add_new_records py [] known found = found
add_new_records py (r ∷ rs) known found =
    let uri = uri_text py r in
    let fresh = not (uri == "") in
    let with_it = add_new_records py rs (add uri known) (found ++ r ∷ []) in
    let without = add_new_records py rs known found in
    if fresh then (if contains uri known then without else with_it) else without

-- `str(record.get("content") or record.get("abstract") or "")`
abbrev content_of : Python → Meta → String
content_of py d =
    if truthy (at "content" d) then py.show (at "content" d) else text_or_empty py (at "abstract" d)

unfoldable pub should_parse_session_tree : Python → String → Bool
should_parse_session_tree py content =
    any (λ line. starts_with (py.strip line) "#") (py.splitlines content)

-- `dict(merged.record)` of a merge that returned a record
abbrev pub record_of : Option StoredRecord → List Meta
record_of none = []
record_of (some r) = r.record_data ∷ []

module _ {Vector World : Type 0} (setup : Setup) (services : Services Vector World) where
  -- `while has_pending_merge(key)`, on fuel.
  unfoldable pub merge_pending : ℕ → SessionKey → IdentityProfile → M World (List Meta)
  unfolding merge_unmerged has_pending_merge
  merge_pending zero key p s = (ok [], s)
  merge_pending (suc fuel) key p s =
      let round : M World (List Meta) = (do
        merged ← merge_unmerged setup services key p
        rest ← merge_pending fuel key p
        return (record_of merged ++ rest)) in
      if has_pending_merge key s.buffer then round s else (ok [], s)

  unfoldable pub build_session_end_record :
      IdentityProfile → List Meta → M World (PrimaryRecordInput Vector)
  unfolding session_final_uri session_events_parent from_context join
  build_session_end_record p merged = do
    let parent_uri : String = session_events_parent setup.py p.session_id p
    let content : String = join "\n\n" (map (content_of setup.py) merged)
    let meta : Meta =
        ("project_id", str p.project_id)
        ∷ ("layer", str "session_final")
        ∷ ("session_id", str p.session_id)
        ∷ ("source_uri", str parent_uri)
        ∷ ("recomposition_stage", str "final_full")
        ∷ ("merged_uris", texts (map (uri_text setup.py) merged))
        ∷ []
    let ctx : Context Vector = record {
      uri = session_final_uri setup.py p.session_id p;
      parent_uri = parent_uri;
      is_leaf = false;
      abstract = "";
      overview = "";
      context_type = memory;
      category = "events";
      related_uri = [];
      meta = meta;
      session_id = p.session_id;
      profile = p;
      vector = none;
      vectorize = none;
    }
    raw ← outcome (
        from_context setup.py setup.effective_project ctx content "events" p.tenant_id p.user_id
          p.project_id p.session_id meta "")
    return (record {
      ctx = ctx;
      payload = raw;
      effective_category = raw.category;
      meta = meta;
      context_type = memory;
      session_id = p.session_id;
      tenant_id = p.tenant_id;
      user_id = p.user_id;
      content = content;
    })

  -- The document tree of the final record, where there is one and the content has headings.
  unfoldable pub write_tree : PrimaryRecordInput Vector → M World (Unit {0})
  unfolding should_parse_session_tree
  write_tree i s = elim services.tree [
    | none ↦ (ok tt, s)
    | some tree ↦
        if should_parse_session_tree setup.py i.content
        then (let r = tree i s.world s.published in
            (r.0, record s { world = r.1; published = r.2 }))
        else (ok tt, s)
  ]

  -- What `end` does with the merged records.
  unfoldable pub finish : SessionKey → IdentityProfile → List Meta → M World SessionEndResult
  unfolding build_session_end_record write_tree session_ended_event drop_key
  finish key p [] = do
    change_buffer (drop_key key)
    return (record {
      write_status = "empty";
      session_id = p.session_id;
      merged_uris = [];
      final_uri = "";
    })
  finish key p (r ∷ rs) = do
    record_input ← build_session_end_record p (r ∷ rs)
    stored ← call (services.write record_input)
    write_tree record_input
    change_buffer (drop_key key)
    let merged_uris : List String = map (uri_text setup.py) (r ∷ rs)
    publish (
        session_ended_event setup.py p stored.uri merged_uris record_input.content
          stored.record_data)
    return (record {
      write_status = "ok";
      session_id = p.session_id;
      merged_uris = merged_uris;
      final_uri = stored.uri;
    })

  -- The body of `end` under the lock. Each round of the loop takes a chunk.
  unfoldable pub end_locked : SessionKey → IdentityProfile → M World SessionEndResult
  unfolding merge_pending add_new_records finish
  end_locked key p = do
    count ← on_buffer (freeze_all_chunks key)
    merged ← (λ s. merge_pending (suc (length (chunks key s.buffer))) key p s)
    found ← call (services.load_merged p.session_id)
    finish key p (add_new_records setup.py merged (map (uri_text setup.py) found) found)

  -- `SessionEnder.end` for the profile of the request.
  unfoldable pub end : String → ℕ → IdentityProfile → M World SessionEndResult
  unfolding profile_key end_locked
  end resolved now p = do
    let key : SessionKey = profile_key resolved p
    change_buffer (lock key now)
    change_buffer (touch key (some p.project_id) now)
    end_locked key p
