-- ===== src/Document/Announcing.antt =====
-- `write_children` announces no merge, so that the end of a session may use it.
use mathlib.Core.Path.{subst}
use mathlib.Core.List.{append-nil}
use open_cortex.Base.{
  ℕ, ◌+◌, ◌≡◌, refl, sym, ap, ◌∙◌, arith, string_eq, String, Option, none, some, List, [], ◌∷◌,
  if_both, Option-cases, inl, inr,
}
use open_cortex.Base.Dict
use open_cortex.Base.Json.{Json, Python}
use open_cortex.Worker.Failure.{Result, ok, err}
use open_cortex.Markdown.{ParsedChunk}
use open_cortex.Records.{PrimaryRecordInput, StoredRecord}
use open_cortex.Records.Events.{
  Published, MemoryEvent, publish_check_update, stored_profile, stored_event, memory_stored,
  publish_nowait, memory_stored_event,
}
use open_cortex.Session.Draining.{
  Announces, merged_sources, publish-Announces, check_update-Announces,
}
use open_cortex.Session.{Services}
use open_cortex.Session.Ending.{TreeKeeps}
use open_cortex.Document.Defs.{Formats, DocumentChunk, is_tree, document_chunks, chunk_uris}
use open_cortex.Document.Writes.{
  Writing, after_event, after_write, with_rest, after_one, write_round, write_one, input_of,
  write_loop, write_tree_of, write_children, session_tree,
}

-- Also where the event raises, the events before it stay.
or_before : Published → Option Published → Published
or_before before none = before
or_before before (some after) = after

-- The events of a record with an id, and of one without.
pub stored_by_id :
    {Vector : Type 0} (py : Python) (i : PrimaryRecordInput Vector) (s : StoredRecord)
    (es : List MemoryEvent) (id : Json)
    → Dict.get "id" s.record_data ≡ some id
    → memory_stored_event py i s (some es)
      ≡ some (
          publish_check_update py
            (stored_profile py i s)
            s.uri
            i.content
            s.record_data
            (publish_nowait (memory_stored (stored_event py i s id)) (some es)))
unfolding memory_stored_event
stored_by_id py i s es id h = rw (memory_stored_event, h) refl

pub stored_without_id :
    {Vector : Type 0} (py : Python) (i : PrimaryRecordInput Vector) (s : StoredRecord)
    (es : List MemoryEvent)
    → Dict.get "id" s.record_data ≡ none
    → memory_stored_event py i s (some es) ≡ none
unfolding memory_stored_event
stored_without_id py i s es h = rw (memory_stored_event, h) refl

stored-Announces :
    {Vector : Type 0} (py : Python) (us : List String) (i : PrimaryRecordInput Vector)
    (s : StoredRecord) (published after : Published)
    → memory_stored_event py i s published ≡ some after
    → Announces us published
    → Announces us after
unfolding or_before merged_sources
stored-Announces py us i s none after e a = ground (arith, a.taken)
stored-Announces py us i s (some es) after e a = elim (Option-cases (Dict.get "id" s.record_data)) [
  | inl h ↦ ground (arith, sym (stored_without_id py i s es h) ∙ e)
  | inr h ↦
      (let event = memory_stored (stored_event py i s h.0) in
        let same = ap (or_before none) (sym (stored_by_id py i s es h.0 h.1) ∙ e) in
        subst (Announces us) same (
          check_update-Announces py us (stored_profile py i s) s.uri i.content s.record_data
            (publish_nowait event (some es))
            (subst (λ t. Announces t (publish_nowait event (some es))) (append-nil us)
              (publish-Announces us event (some es) a))))
]

module _ {Vector World : Type 0} (lib : Formats) (effective_project : String)
    (write : PrimaryRecordInput Vector → World → Result StoredRecord × World) where
  write_one-Announces :
      (us : List String) (i : PrimaryRecordInput Vector) (state : Writing World)
      → Announces us state.1
      → Announces us (write_one lib effective_project write i state).1.1
  unfolding write_one
  write_one-Announces us i (world, published) a = outcome (write i world).0 (write i world).1
    where
      event :
          (s : StoredRecord) (w : World) (o : Option Published)
          → memory_stored_event lib.py i s published ≡ o
          → Announces us (after_event w published s o).1.1
      event s w none e = a
      event s w (some after) e = stored-Announces lib.py us i s published after e a

      outcome :
          (r : Result StoredRecord) (w : World) → Announces us (after_write lib i published r w).1.1
      outcome (err e) w = a
      outcome (ok s) w = event s w (memory_stored_event lib.py i s published) refl

  module _ (root : PrimaryRecordInput Vector) (source_path chunk_role : String)
      (chunks : List DocumentChunk) where
    rest-Announces :
        (us : List String) (stored : StoredRecord) (r : Result (List StoredRecord))
        (t : Writing World)
        → Announces us t.1
        → Announces us (with_rest stored (r, t)).1.1
    rest-Announces us stored (ok written) t a = a
    rest-Announces us stored (err e) t a = a

    one-Announces :
        (us : List String) (rest : Writing World → Result (List StoredRecord) × Writing World)
        → ((t : Writing World) → Announces us t.1 → Announces us (rest t).1.1)
        → (r : Result StoredRecord) (t : Writing World) → Announces us t.1
        → Announces us (after_one rest (r, t)).1.1
    one-Announces us rest k (ok stored) t a = rest-Announces us stored (rest t).0 (rest t).1 (k t a)
    one-Announces us rest k (err e) t a = a

    round-Announces :
        (us : List String) (rest : Writing World → Result (List StoredRecord) × Writing World)
        → ((t : Writing World) → Announces us t.1 → Announces us (rest t).1.1)
        → (i : Result (PrimaryRecordInput Vector)) (t : Writing World) → Announces us t.1
        → Announces us
            (write_round lib effective_project write root source_path chunk_role chunks rest i
              t).1.1
    unfolding write_round
    round-Announces us rest k (err e) t a = a
    round-Announces us rest k (ok i) t a =
        let one = write_one lib effective_project write i t in
        one-Announces us rest k one.0 one.1 (write_one-Announces us i t a)

    write_loop-Announces :
        (us : List String) (index : ℕ) (cs : List DocumentChunk) (later : List String)
        (state : Writing World)
        → Announces us state.1
        → Announces us
            (write_loop lib effective_project write root source_path chunk_role chunks index cs
              later state).1.1
    unfolding write_loop
    write_loop-Announces us index [] later state a = a
    write_loop-Announces us index (c ∷ cs) [] state a = a
    write_loop-Announces us index (c ∷ cs) (uri ∷ later) state a =
        round-Announces us
          (write_loop lib effective_project write root source_path chunk_role chunks (index + 1) cs
            later)
          (λ t b. write_loop-Announces us (index + 1) cs later t b)
          (input_of lib effective_project write root source_path chunk_role chunks index c uri)
          state a

  pub write_children-Announces :
      (root : PrimaryRecordInput Vector) (source_path chunk_role : String)
      (parse : String → List ParsedChunk) (us : List String) (state : Writing World)
      → Announces us state.1
      → Announces us
          (write_children lib effective_project write root source_path chunk_role parse state).1.1
  unfolding write_children write_tree_of
  write_children-Announces root source_path chunk_role parse us state a =
      let cs = document_chunks lib (parse root.content) in
      let loop =
        write_loop lib effective_project write root source_path chunk_role cs 0 cs
          (chunk_uris lib root.ctx.uri cs) state in
      if_both (λ r. Announces us r.1.1) (is_tree cs) loop (ok [], state)
        (write_loop-Announces root source_path chunk_role cs us 0 cs
          (chunk_uris lib root.ctx.uri cs) state a)
        a

  session_tree-Announces :
      (parse : String → List ParsedChunk) (i : PrimaryRecordInput Vector) (w : World)
      (published : Published) (us : List String)
      → Announces us published
      → Announces us (session_tree lib effective_project write parse i w published).2
  unfolding session_tree
  session_tree-Announces parse i w published us a =
      write_children-Announces i "" "session_final_section" parse us (w, published) a

  -- What the end of a session asks of a tree writer holds of this one.
  pub session_tree-TreeKeeps :
      (parse : String → List ParsedChunk) (services : Services Vector World)
      → services.tree ≡ some (session_tree lib effective_project write parse)
      → TreeKeeps services
  session_tree-TreeKeeps parse services h tree i w published us e a =
      let same = ap (λ o. chosen o i w published) (sym h ∙ e) in
      subst (λ r. Announces us r.2) same (session_tree-Announces parse i w published us a)
    where
      chosen :
          Option
            (PrimaryRecordInput Vector → World → Published → Result (Unit {0}) × World × Published)
          → PrimaryRecordInput Vector
          → World
          → Published
          → Result (Unit {0}) × World × Published
      chosen (some t) = t
      chosen none = tree
