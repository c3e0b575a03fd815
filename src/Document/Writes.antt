-- ===== src/Document/Writes.antt =====
-- `write_children`: the records of the chunks are written one after the other.
use open_cortex.Base.{
  ℕ, ◌+◌, String, Bool, false, not, Option, none, some, List, [], ◌∷◌, if◌then◌else◌, ◌==◌,
  string_eq, nat_eq,
}
use open_cortex.Base.Lists.{any}
use open_cortex.Worker.Failure.{PyError, other, Result, ok, err}
use open_cortex.Markdown.{ParsedChunk}
use open_cortex.Records.{PrimaryRecordInput, StoredRecord}
use open_cortex.Records.Events.{Published, memory_stored_event}
use open_cortex.Session.{key_error}
use open_cortex.Document.Defs.{
  Formats, DocumentChunk, is_tree, document_chunks, chunk_uris, parent_uri_of, chunk_record_input,
}

abbrev pub index_error : PyError
index_error = record { class = other; class_name = "IndexError"; text = "list index out of range" }

-- Whether an index is a parent of one of the chunks.
abbrev pub has_child : ℕ → List DocumentChunk → Bool
has_child index chunks =
    any (λ c. elim c.parent_index [ none ↦ false | some i ↦ i == index ]) chunks

-- What a call changes: the world behind the writer, and the events.
abbrev pub Writing : Type 0 → Type 0
Writing World = World × Published

module _ {World : Type 0} where
  -- What follows the event of a stored record; `none` is that it raised.
  abbrev pub after_event :
      World → Published → StoredRecord → Option Published → Result StoredRecord × Writing World
  after_event world published stored none = (err key_error, (world, published))
  after_event world published stored (some events) = (ok stored, (world, events))

  -- A stored record before what the later rounds give.
  abbrev pub with_rest :
      StoredRecord
      → Result (List StoredRecord) × Writing World
      → Result (List StoredRecord) × Writing World
  with_rest stored (ok written, state) = (ok (stored ∷ written), state)
  with_rest stored (err e, state) = (err e, state)

  -- The later rounds, after a record.
  abbrev pub after_one :
      (Writing World → Result (List StoredRecord) × Writing World)
      → Result StoredRecord × Writing World
      → Result (List StoredRecord) × Writing World
  after_one rest (ok stored, state) = with_rest stored (rest state)
  after_one rest (err e, state) = (err e, state)

module _ {Vector World : Type 0} where
  -- What follows the write of a record.
  unfoldable pub after_write :
      Formats
      → PrimaryRecordInput Vector
      → Published
      → Result StoredRecord
      → World
      → Result StoredRecord × Writing World
  unfolding memory_stored_event
  after_write lib record_input published (err e) world = (err e, (world, published))
  after_write lib record_input published (ok stored) world =
      after_event world published stored (memory_stored_event lib.py record_input stored published)

module _ {Vector World : Type 0} (lib : Formats) (effective_project : String)
    (write : PrimaryRecordInput Vector → World → Result StoredRecord × World) where
  -- A record is written and announced.
  unfoldable pub write_one :
      PrimaryRecordInput Vector → Writing World → Result StoredRecord × Writing World
  unfolding after_write
  write_one record_input (world, published) =
      let r = write record_input world in after_write lib record_input published r.0 r.1

  module _ (root : PrimaryRecordInput Vector) (source_path chunk_role : String)
      (chunks : List DocumentChunk) where
    abbrev uris : List String
    uris = chunk_uris lib root.ctx.uri chunks

    -- The record of a chunk, or what the source raises.
    unfoldable pub input_of : ℕ → DocumentChunk → String → Result (PrimaryRecordInput Vector)
    unfolding chunk_uris parent_uri_of chunk_record_input
    input_of index chunk uri = elim (parent_uri_of root.ctx.uri uris chunk) [
      | none ↦ err index_error
      | some parent_uri ↦
          chunk_record_input lib effective_project root chunk index uri parent_uri
            (not (has_child index chunks)) source_path chunk_role
    ]

    -- One round of the loop, from the record of its chunk.
    unfoldable pub write_round :
        (Writing World → Result (List StoredRecord) × Writing World)
        → Result (PrimaryRecordInput Vector)
        → Writing World
        → Result (List StoredRecord) × Writing World
    unfolding write_one
    write_round rest (ok record_input) state = after_one rest (write_one record_input state)
    write_round rest (err e) state = (err e, state)

    -- The loop over the chunks from an index, with their uris.
    unfoldable pub write_loop :
        ℕ
        → List DocumentChunk
        → List String
        → Writing World
        → Result (List StoredRecord) × Writing World
    unfolding input_of write_round
    write_loop index [] _ state = (ok [], state)
    write_loop index (chunk ∷ rest) [] state = (ok [], state)
    write_loop index (chunk ∷ rest) (uri ∷ later) state =
        write_round (write_loop (index + 1) rest later) (input_of index chunk uri) state

    unfoldable pub write_tree_of : Writing World → Result (List StoredRecord) × Writing World
    unfolding is_tree write_loop chunk_uris
    write_tree_of state = if is_tree chunks then write_loop 0 chunks uris state else (ok [], state)

  -- `write_children` without chunks of its own: those that the parser returns for the content.
  unfoldable pub write_children :
      PrimaryRecordInput Vector
      → String
      → String
      → (String → List ParsedChunk)
      → Writing World
      → Result (List StoredRecord) × Writing World
  unfolding document_chunks write_tree_of
  write_children root source_path chunk_role parse state =
      write_tree_of root source_path chunk_role (document_chunks lib (parse root.content)) state

  abbrev pub without_records : Result (List StoredRecord) → Result (Unit {0})
  without_records (ok written) = ok tt
  without_records (err e) = err e

  -- The tree writer as the end of a session calls it.
  unfoldable pub session_tree :
      (String → List ParsedChunk)
      → PrimaryRecordInput Vector
      → World
      → Published
      → Result (Unit {0}) × World × Published
  unfolding write_children
  session_tree parse record_input world published =
      let r = write_children record_input "" "session_final_section" parse (world, published) in
      (without_records r.0, r.1.0, r.1.1)
