-- ===== src/Index/Vectors.antt =====
-- The vectors of the points that the index writers put into the store.
use open_cortex.Base.{
  arith, if_both, Option-cases, inl, inr, ◌≤◌, ◌≡◌, String, some, List, [], ◌∷◌, map, if◌then◌else◌,
  not, ◌==◌, string_eq,
}
use open_cortex.Base.Lists.{All, length, length-map}
use open_cortex.Base.Json.{Json, Meta, Python, text_at, truthy, at}
use open_cortex.Worker.Failure.{Result, ok, err}
use open_cortex.Forget.{Call, continue, ◌>>=◌}
use open_cortex.Facts.Defs.{Patterns}
use open_cortex.Records.Events.{MemoryEvent}
use open_cortex.Index.Payload.{primary_record, event_content}
use open_cortex.Index.Tree.{should_build}
use open_cortex.Index.Points.{
  Embedding, Point, Indexing, Complaints, attach, embed_records, upsert_each, upsert_records,
  index_all, lift,
}
use open_cortex.Index.Writing.{write_indexes, is_indexed, search_write, entity_write}
use open_cortex.Index.Building.{TreeBuilding, tree_complaints, tree_text, build_write, index_tree}
use open_cortex.Index.Armed.{HasVector, Armed, attach-Armed}

module _ {World : Type 0} (P : World → Type 0) where
  -- The world has the property after a call, and a result has `Q`.
  abbrev pub Gives {ℓ} : {A : Type 0} → (A → Type ℓ) → Result A → World → Type ℓ
  Gives Q (ok a) w = P w × Q a
  Gives Q (err e) w = P w × Unit

  pub continue-Gives :
      {A B : Type 0} (Q : A → Type 0) (R : B → Type 0) (f : A → Call World B) (r : Result A)
      (w : World)
      → Gives Q r w
      → ((a : A) (w' : World) → P w' → Q a → Gives R (f a w').0 (f a w').1)
      → Gives R (continue f r w).0 (continue f r w).1
  continue-Gives Q R f (ok a) w h k = k a w h.0 h.1
  continue-Gives Q R f (err e) w h k = h

  pub as_Gives : {A : Type 0} (r : Result A) (w : World) → P w → Gives (λ a. Unit {0}) r w
  as_Gives (ok a) w h = (h, tt)
  as_Gives (err e) w h = (h, tt)

  pub Gives-kept : {A : Type 0} (Q : A → Type 0) (r : Result A) (w : World) → Gives Q r w → P w
  Gives-kept Q (ok a) w h = h.0
  Gives-kept Q (err e) w h = h.0

  pub continue_kept :
      {A B : Type 0} (f : A → Call World B) (r : Result A) (w : World)
      → P w
      → ((a : A) (w : World) → P w → P (f a w).1)
      → P (continue f r w).1
  continue_kept f (ok a) w k h = h a w k
  continue_kept f (err e) w k h = k

  module _ {Vector : Type 0} (services : Indexing World Vector) where
    -- The calls of the embedder keep the property and give as many results as texts; storing a point
    -- that has a vector keeps it.
    pub record Keeps : Type 0 where
      pub embed_keeps :
          (embed : List String → Call World (List (Embedding Vector)))
          → services.embed_batch ≡ some embed
          → (xs : List String) (w : World) → P w
          → Gives (λ es. length xs ≤ length es) (embed xs w).0 (embed xs w).1
      pub many_keeps :
          (many : List (Point Vector) → Call World (Unit {0}))
          → services.upsert_many ≡ some many
          → (ps : List (Point Vector)) (w : World) → All HasVector ps
          → P w
          → P (many ps w).1
      pub upsert_keeps :
          (p : Point Vector) (w : World) → HasVector p → P w → P (services.upsert p w).1

    pub Armed-Gives :
        (rs : List Meta) (r : Result (List (Point Vector))) (w : World)
        → P w
        → Armed rs r
        → Gives (All HasVector) r w
    Armed-Gives rs (ok ps) w k h = (k, h.0)
    Armed-Gives rs (err e) w k h = (k, tt)

    module _ (keeps : Keeps) where
      upsert_each-kept :
          (ps : List (Point Vector)) (w : World)
          → All HasVector ps
          → P w
          → P (upsert_each services ps w).1
      unfolding upsert_each
      upsert_each-kept [] w h k = k
      upsert_each-kept (p ∷ ps) w h k =
          Gives-kept (λ u. Unit) _ _
            (continue-Gives (λ u. Unit) (λ u. Unit) (λ u. upsert_each services ps) _ _
              (as_Gives (services.upsert p w).0 (services.upsert p w).1
                (keeps.upsert_keeps p w h.0 k))
              (λ u w' k' q. as_Gives _ _ (upsert_each-kept ps w' h.1 k')))

      pub upsert_records-kept :
          (ps : List (Point Vector)) (w : World)
          → All HasVector ps
          → P w
          → P (upsert_records services ps w).1
      unfolding upsert_records
      upsert_records-kept ps w h k = elim (Option-cases services.upsert_many) [
        | inl e ↦ rw e (upsert_each-kept ps w h k)
        | inr (many, e) ↦ rw e (keeps.many_keeps many e ps w h k)
      ]

      embed_records-Gives :
          (complaints : Complaints) (text : Meta → String) (rs : List Meta) (w : World)
          → P w
          → Gives
              (All HasVector)
              (embed_records services complaints text rs w).0
              (embed_records services complaints text rs w).1
      unfolding embed_records
      embed_records-Gives complaints text rs w k = elim (Option-cases services.embed_batch) [
        | inl e ↦ rw e (k, tt)
        | inr (embed, e) ↦ rw e (
            continue-Gives (λ es. length (map text rs) ≤ length es) (All HasVector) _ _ _
              (keeps.embed_keeps embed e (map text rs) w k)
              (λ es w' k' q.
                Armed-Gives rs (attach complaints.unembedded rs es) w' k'
                  (attach-Armed complaints.unembedded rs es (omega (arith, length-map text rs)))))
      ]

      pub index_all-kept :
          (complaints : Complaints) (text : Meta → String) (rs : List Meta) (w : World)
          → P w
          → P (index_all services complaints text rs w).1
      unfolding index_all
      index_all-kept complaints text rs w k =
          Gives-kept (λ u. Unit) _ _
            (continue-Gives (All HasVector) (λ u. Unit) (upsert_records services) _ _
              (embed_records-Gives complaints text rs w k)
              (λ ps w' k' h. as_Gives _ _ (upsert_records-kept ps w' h k')))

      write_indexes-kept :
          (py : Python) (re : Patterns) (sha1 : String → String) (temporal : List Json → Meta)
          (complaints : Complaints) (e : MemoryEvent) (records : Result (List Meta)) (w : World)
          → P w
          → P (write_indexes py re sha1 temporal services complaints e records w).1
      unfolding write_indexes
      write_indexes-kept py re sha1 temporal complaints e (err x) w k =
          if_both {A = Call World (Unit {0})} (λ c. P (c w).1) (is_indexed (primary_record e)) _ _ k
            k
      write_indexes-kept py re sha1 temporal complaints e (ok []) w k =
          if_both {A = Call World (Unit {0})} (λ c. P (c w).1) (is_indexed (primary_record e)) _ _ k
            k
      write_indexes-kept py re sha1 temporal complaints e (ok (r ∷ rs)) w k =
          if_both {A = Call World (Unit {0})} (λ c. P (c w).1) (is_indexed (primary_record e)) _ _
            (index_all-kept complaints (text_at py "overview") (r ∷ rs) w k) k

      pub search_write-kept :
          (py : Python) (re : Patterns) (sha1 : String → String) (temporal : List Json → Meta)
          (e : MemoryEvent) (w : World)
          → P w
          → P (search_write py re sha1 temporal services e w).1
      unfolding search_write
      search_write-kept py re sha1 temporal e w k = write_indexes-kept py re sha1 temporal _ e _ w k

      pub entity_write-kept :
          (py : Python) (re : Patterns) (sha1 : String → String) (temporal : List Json → Meta)
          (e : MemoryEvent) (w : World)
          → P w
          → P (entity_write py re sha1 temporal services e w).1
      unfolding entity_write
      entity_write-kept py re sha1 temporal e w k = write_indexes-kept py re sha1 temporal _ e _ w k

      index_results :
          (complaints : Complaints) (text : Meta → String) (rs : Result (List Meta)) (w : World)
          → P w
          → P ((lift rs >>= index_all services complaints text) w).1
      index_results complaints text (err x) w k = k
      index_results complaints text (ok rs) w k = index_all-kept complaints text rs w k

  module _ {Vector : Type 0} (services : TreeBuilding World Vector)
      (keeps : Keeps services.indexing) where
    pub build_write-kept :
        (py : Python) (sha1 : String → String) (temporal : List Json → Meta) (e : MemoryEvent)
        (w : World)
        → ((rec : Meta) (content : String) (w : World) → P w → P (services.build e rec content w).1)
        → P w
        → P (build_write py sha1 temporal services e w).1
    unfolding build_write index_tree
    build_write-kept py sha1 temporal e w build k =
        let rec = primary_record e in
        let content =
          if truthy (at "content" rec) then py.show (at "content" rec) else event_content e in
        if_both {A = Call World (Unit {0})} (λ c. P (c w).1) (not (should_build py rec)) _ _ k
          (if_both {A = Call World (Unit {0})} (λ c. P (c w).1) (content == "") _ _ k
            (continue_kept (index_tree py sha1 temporal services e)
              (services.build e rec content w).0 (services.build e rec content w).1
              (build rec content w k)
              (λ output w' k'.
                index_results services.indexing keeps tree_complaints (tree_text py sha1 temporal) _
                  w' k')))
