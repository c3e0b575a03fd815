-- ===== src/Store/Announcing.antt =====
-- The events that a store announces.
use open_cortex.Base.Json.{Python, text_at}
use open_cortex.Worker.Events.{IdentityProfile}
use open_cortex.Base.{
  if◌then◌else◌, ◌==◌, ◌≡◌, refl, ap, true, string_eq, String, Option, none, some, List, [], ◌∷◌,
  ◌++◌, Option-cases, inl, inr,
}
use mathlib.Core.List.{append_assoc}
use open_cortex.Base.Dict
use open_cortex.Worker.Failure.{Result, ok, err}
use open_cortex.Records.{Context, PrimaryRecordInput, StoredRecord, memory, RawPrimaryRecord}
use open_cortex.Records.Events.{
  MemoryEvent, RecordEvent, memory_stored, check_update, memory_stored_event, publish_check_update,
  publish_nowait, stored_event,
}
use open_cortex.Document.{Formats, Writing, write_one, after_write, after_event}
use open_cortex.Document.Announcing.{stored_by_id, stored_without_id}
use open_cortex.Store.Resolve.{
  StoreInput, StoreTarget, Request, resolve_target, store_context, store_record, with_raw,
}
use open_cortex.Store.Flow.{created_result, store_made, store_target, memory_store}

-- The owner of an event: the tenant, the user and the session of the write, the project of the stored
-- record or "public", and no collection.
abbrev pub owner_of : Python → String → String → String → StoredRecord → IdentityProfile
owner_of py tenant user session stored =
    let project = text_at py "project_id" stored.record_data in
    record {
      tenant_id = tenant;
      user_id = user;
      project_id = if project == "" then "public" else project;
      session_id = session;
      collection = "";
    }

-- After a stored record the two events of its uri, its content, its data and its owner are the last
-- ones; after an error there is no new event.
abbrev pub Announced :
    {World : Type 0}
    → Python
    → String
    → String
    → String
    → String
    → List MemoryEvent
    → Result StoredRecord × Writing World
    → Type 0
Announced py tenant user session content es (ok stored, state) =
    (event : RecordEvent) × (update : RecordEvent) × (state.1
      ≡ some (es ++ memory_stored event ∷ check_update update ∷ []))
    × (event.uri ≡ stored.uri)
    × (update.uri ≡ stored.uri)
    × (event.content ≡ content)
    × (update.content ≡ content)
    × (event.record_data ≡ stored.record_data)
    × (update.record_data ≡ stored.record_data)
    × (event.profile ≡ owner_of py tenant user session stored)
    × (update.profile ≡ owner_of py tenant user session stored)
Announced py tenant user session content es (err e, state) = state.1 ≡ some es

module _ {Vector World : Type 0} (lib : Formats) (effective_project : String)
    (write : PrimaryRecordInput Vector → World → Result StoredRecord × World) where
  one-Announced :
      (i : PrimaryRecordInput Vector) (world : World) (es : List MemoryEvent)
      → Announced lib.py i.tenant_id i.user_id i.session_id i.content es
          (created_result (write_one lib effective_project write i (world, some es)))
  unfolding write_one after_write publish_check_update publish_nowait
  one-Announced i world es = outcome (write i world).0 (write i world).1
    where
      event :
          (s : StoredRecord) (w : World)
          → Announced lib.py i.tenant_id i.user_id i.session_id i.content es (
              created_result (after_event w (some es) s (memory_stored_event lib.py i s (some es))))
      event s w = elim (Option-cases (Dict.get "id" s.record_data)) [
        | inl h ↦ rw (stored_without_id lib.py i s es h) refl
        | inr (id, h) ↦ rw (stored_by_id lib.py i s es id h) (
          stored_event lib.py i s id,
          _,
          ap some (append_assoc es _ _),
          refl,
          refl,
          refl,
          refl,
          refl,
          refl,
          refl,
          refl,
        )
      ]

      outcome :
          (r : Result StoredRecord) (w : World)
          → Announced lib.py i.tenant_id i.user_id i.session_id i.content es
              (created_result (after_write lib i (some es) r w))
      outcome (err e) w = refl
      outcome (ok s) w = event s w

module _ {Vector World : Type 0} (lib : Formats) (request : Request)
    (write : PrimaryRecordInput Vector → World → Result StoredRecord × World) where
  abbrev Ours : String → List MemoryEvent → Result StoredRecord × Writing World → Type 0
  Ours = Announced lib.py request.profile.tenant_id request.profile.user_id ""

  raw-Announced :
      (ctx : Context Vector) (content : String) (raw : Result (RawPrimaryRecord Vector))
      (world : World) (es : List MemoryEvent)
      → Ours content es
          (store_made lib request write (with_raw lib request ctx content raw) (world, some es))
  unfolding with_raw
  raw-Announced ctx content (err x) world es = refl
  raw-Announced ctx content (ok raw) world es =
      one-Announced lib request.profile.project_id write _ world es

  record-Announced :
      (ctx : Context Vector) (content : String) (world : World) (es : List MemoryEvent)
      → Ours content es
          (store_made lib request write (store_record lib request ctx content) (world, some es))
  unfolding store_record
  record-Announced ctx content world es = raw-Announced ctx content _ world es

  target-Announced :
      (input : StoreInput) (target : Option StoreTarget) (world : World) (es : List MemoryEvent)
      → Ours input.content es (store_target lib request write input target (world, some es))
  target-Announced input none world es = refl
  target-Announced input (some target) world es =
      record-Announced (store_context lib request memory input target true) input.content world es

  -- A memory that is stored is announced by two events, both with its uri, its content, its data, the
  -- tenant and the user of the request and the project of the stored record ("public" without one);
  -- where the store fails, also after the write, nothing is announced.
  pub memory_store-Announced :
      (input : StoreInput) (world : World) (es : List MemoryEvent)
      → Ours input.content es (memory_store lib request write input (world, some es))
  unfolding memory_store
  memory_store-Announced input world es =
      target-Announced input (resolve_target lib request memory input "") world es
