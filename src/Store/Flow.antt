-- ===== src/Store/Flow.antt =====
-- `MemoryStore.store` and `ResourceStore.store` of src/opencortex/store/store.py.
use open_cortex.Base.{
  String, Bool, true, false, Option, none, some, List, [], ◌∷◌, if◌then◌else◌, ◌==◌, string_eq,
}
use open_cortex.Base.Dict
use open_cortex.Base.Json.{str}
use open_cortex.Worker.Failure.{Result, ok, err}
use open_cortex.Records.{Context, memory, resource, PrimaryRecordInput, StoredRecord}
use open_cortex.Session.{type_error}
use open_cortex.Document.{
  Formats, DocumentChunk, is_tree, document_chunks, Writing, write_one, write_tree_of,
}
use open_cortex.Markdown.{ParsedChunk}
use open_cortex.Store.Resolve.{
  StoreInput, StoreTarget, Request, document_root_meta, source_path, format_of, resolve_target,
  store_context, store_record, prepare,
}

-- The result of a store, which is noted as created.
abbrev pub created : StoredRecord → StoredRecord
created s = record s { meta = Dict.set "dedup_action" (str "created") s.meta }

abbrev pub created_result : {S : Type 0} → Result StoredRecord × S → Result StoredRecord × S
created_result (ok stored, state) = (ok (created stored), state)
created_result (err e, state) = (err e, state)

-- The record of a resource after its tree.
abbrev after_tree :
    {S : Type 0} → StoredRecord → Result (List StoredRecord) × S → Result StoredRecord × S
after_tree stored (ok written, state) = (ok (created stored), state)
after_tree stored (err e, state) = (err e, state)

module _ (lib : Formats) (request : Request) where
  module _ {Vector World : Type 0}
      (write : PrimaryRecordInput Vector → World → Result StoredRecord × World) where
    abbrev pub one : PrimaryRecordInput Vector → Writing World → Result StoredRecord × Writing World
    one = write_one lib request.profile.project_id write

    abbrev pub store_made :
        Result (PrimaryRecordInput Vector) → Writing World → Result StoredRecord × Writing World
    store_made (err x) state = (err x, state)
    store_made (ok record_input) state = created_result (one record_input state)

    abbrev pub store_target :
        StoreInput → Option StoreTarget → Writing World → Result StoredRecord × Writing World
    store_target input none state = (err type_error, state)
    store_target input (some target) state =
        store_made
          (store_record lib request (store_context lib request memory input target true)
            input.content)
          state

    -- `MemoryStore.store`
    unfoldable pub memory_store : StoreInput → Writing World → Result StoredRecord × Writing World
    unfolding resolve_target store_context store_record write_one
    memory_store input state = store_target input (resolve_target lib request memory input "") state

    -- The tree of a resource whose record is stored.
    abbrev pub grow_tree :
        PrimaryRecordInput Vector
        → String
        → List DocumentChunk
        → Result StoredRecord × Writing World
        → Result StoredRecord × Writing World
    grow_tree root path [] r = created_result r
    grow_tree root path (c ∷ chunks) (err e, state) = (err e, state)
    grow_tree root path (c ∷ chunks) (ok stored, state) = after_tree stored (
        write_tree_of lib request.profile.project_id write root path "document_section" (c ∷ chunks)
          state)

    abbrev pub resource_made :
        String
        → List DocumentChunk
        → Result (PrimaryRecordInput Vector)
        → Writing World
        → Result StoredRecord × Writing World
    resource_made path chunks (err x) state = (err x, state)
    resource_made path chunks (ok root) state = grow_tree root path chunks (one root state)

    abbrev pub no_chunks : List DocumentChunk → Bool
    no_chunks [] = true
    no_chunks (c ∷ chunks) = false

    abbrev pub rooted_context : StoreInput → List DocumentChunk → StoreTarget → Context Vector
    rooted_context input chunks target =
        let ctx = store_context lib request resource input target (no_chunks chunks) in
        let role = if no_chunks chunks then "resource" else "document_root" in
        record ctx { meta = document_root_meta request.profile ctx.meta ctx.uri role }

    abbrev pub resource_target :
        StoreInput
        → List DocumentChunk
        → Option StoreTarget
        → Writing World
        → Result StoredRecord × Writing World
    resource_target input chunks none state = (err type_error, state)
    resource_target input chunks (some target) state =
        resource_made (source_path lib input.meta) chunks
          (store_record lib request (rooted_context input chunks target) input.content) state

    -- `parse_chunks`: no document tree, or what the parser gives for a content, a path and a format.
    unfoldable pub parse_chunks :
        Option (String → String → String → List ParsedChunk) → StoreInput → List DocumentChunk
    unfolding document_chunks is_tree source_path format_of
    parse_chunks none input = []
    parse_chunks (some parse) input =
        let format = format_of lib request.extension input.meta in
        let chunks =
          document_chunks lib (parse input.content (source_path lib input.meta) format) in
        if is_tree chunks then chunks else []

    -- `ResourceStore.store`
    unfoldable pub resource_store :
        Option (String → String → String → List ParsedChunk)
        → StoreInput
        → Writing World
        → Result StoredRecord × Writing World
    unfolding prepare resolve_target store_context store_record write_one document_root_meta
        parse_chunks
    resource_store parser input state =
        let normalized = prepare lib request input in
        let path = source_path lib normalized.meta in
        let abstract = if path == "" then "resource" else path in
        resource_target normalized (parse_chunks parser normalized)
          (resolve_target lib request resource normalized abstract) state
