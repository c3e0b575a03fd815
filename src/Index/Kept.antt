-- ===== src/Index/Kept.antt =====
-- The four index writers together, and what they leave in the store.
use open_cortex.Base.{
  arith, if_both, Option-cases, inl, inr, ◌≡◌, String, Option, some, List, [], ◌∷◌, ◌||◌, not,
}
use open_cortex.Base.Lists.{All}
use open_cortex.Base.Json.{Json, Meta, Python, truthy, at}
use open_cortex.Forget.{Call, ◌>>=◌}
use open_cortex.Facts.Defs.{Patterns}
use open_cortex.Records.Events.{MemoryEvent}
use open_cortex.Index.Payload.{primary_record}
use open_cortex.Index.Points.{Embedding, Indexing, reason_tree_payload, attach, upsert_records}
use open_cortex.Index.Writing.{is_empty_record, search_write, entity_write}
use open_cortex.Index.Building.{TreeBuilding, build_write}
use open_cortex.Index.Projection.{
  projection_complaints, projection_text, projected_record, embed_record, projection_write,
}
use open_cortex.Index.Armed.{HasVector, attach-Armed}
use open_cortex.Index.Vectors.{
  Gives, Keeps, as_Gives, continue-Gives, Gives-kept, continue_kept, Armed-Gives,
  upsert_records-kept, search_write-kept, entity_write-kept, build_write-kept,
}

module _ {World : Type 0} (P : World → Type 0) {Vector : Type 0} (services : Indexing World Vector)
    (embed : Option (String → Call World (Embedding Vector)))
    (embeds : (f : String → Call World (Embedding Vector))
      → embed ≡ some f
      → (t : String) (w : World) → P w
      → P (f t w).1)
    (py : Python) (sha1 : String → String) (temporal : List Json → Meta) where
  embed_record-Gives :
      (payload : Meta) (w : World)
      → P w
      → Gives P
          (All HasVector)
          (embed_record py sha1 temporal services embed payload w).0
          (embed_record py sha1 temporal services embed payload w).1
  unfolding embed_record
  embed_record-Gives payload w k = elim (Option-cases embed) [
    | inl e ↦ rw e (k, tt)
    | inr (f, e) ↦ rw e (
        continue-Gives P (λ r. Unit) (All HasVector) _ _ _
          (as_Gives P _ _ (embeds f e (projection_text py sha1 temporal payload) w k))
          (λ r w' k' q.
            Armed-Gives P services (payload ∷ [])
              (attach projection_complaints.unembedded (payload ∷ []) (r ∷ [])) w' k'
              (attach-Armed projection_complaints.unembedded (payload ∷ []) (r ∷ [])
                (omega arith))))
  ]

  pub projection_write-kept :
      (keeps : Keeps P services) (e : MemoryEvent) (w : World)
      → P w
      → P (projection_write py sha1 temporal services embed e w).1
  unfolding projection_write
  projection_write-kept keeps e w k =
      let rec = primary_record e in
      if_both {A = Call World (Unit {0})} (λ c. P (c w).1)
        (is_empty_record rec || not (truthy (at "retrieval_ready" rec))) _ _ k
        (continue_kept P
          (λ payload.
            embed_record py sha1 temporal services embed payload >>= upsert_records services)
          (services.make reason_tree_payload (projected_record py sha1 temporal e)) w k
          (λ payload w' k'.
            Gives-kept P (λ u. Unit) _ _
              (continue-Gives P (All HasVector) (λ u. Unit) (upsert_records services) _ _
                (embed_record-Gives payload w' k')
                (λ ps w'' k'' h.
                  as_Gives P _ _ (upsert_records-kept P services keeps ps w'' h k'')))))

module _ {World : Type 0} (P : World → Type 0) {Vector : Type 0}
    (services : TreeBuilding World Vector) (keeps : Keeps P services.indexing) where
  -- A property of the world that the language model and the embedder for one text keep, that the
  -- embedder of a list keeps while it gives as many results as texts, and that storing points keeps if
  -- each has a vector, is kept by the search writer, the entity writer, the tree writer and the writer
  -- of the projection, also where they fail.
  pub writers-kept :
      (embed : Option (String → Call World (Embedding Vector)))
      → ((f : String → Call World (Embedding Vector))
          → embed ≡ some f
          → (t : String) (w : World) → P w
          → P (f t w).1)
      → (py : Python) (re : Patterns) (sha1 : String → String) (temporal : List Json → Meta)
        (e : MemoryEvent) (w : World)
      → ((rec : Meta) (content : String) (w : World) → P w → P (services.build e rec content w).1)
      → P w
      → P (search_write py re sha1 temporal services.indexing e w).1
        × P (entity_write py re sha1 temporal services.indexing e w).1
        × P (build_write py sha1 temporal services e w).1
        × P (projection_write py sha1 temporal services.indexing embed e w).1
  writers-kept embed embeds py re sha1 temporal e w build k = (
    search_write-kept P services.indexing keeps py re sha1 temporal e w k,
    entity_write-kept P services.indexing keeps py re sha1 temporal e w k,
    build_write-kept P services keeps py sha1 temporal e w build k,
    projection_write-kept P services.indexing embed embeds py sha1 temporal keeps e w k,
  )
