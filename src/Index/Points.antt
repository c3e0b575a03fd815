-- ===== src/Index/Points.antt =====
-- The points that the index writers embed and put into the vector store.
use open_cortex.Base.{String, Option, none, some, List, [], ◌∷◌, map}
use open_cortex.Base.Json.{Json, Meta}
use open_cortex.Worker.Failure.{PyError, value, other, Result, ok, err}
use open_cortex.Forget.{Call, return, raise, ◌>>=◌}

-- What the embedder gives for a text; an empty vector is `none`.
pub record Embedding (Vector : Type 0) : Type 0 where
  pub dense_vector : Option Vector
  pub sparse_vector : Option Json

pub record Point (Vector : Type 0) : Type 0 where
  pub payload : Meta
  pub vector : Option Vector
  pub sparse_vector : Option Json

-- The classes of vector/payloads that the writers make.
pub data PayloadClass : Type 0 where
  anchor_index_payload fact_index_payload entity_index_payload reason_tree_payload : PayloadClass

-- The embedder, if there is one, and the vector store at the writer's collection. `upsert_many` is
-- `none` for a store without it. `make` is a pydantic model made of its fields and dumped.
pub record Indexing (World Vector : Type 0) : Type 0 where
  pub embed_batch : Option (List String → Call World (List (Embedding Vector)))
  pub upsert_many : Option (List (Point Vector) → Call World (Unit {0}))
  pub upsert : Point Vector → Call World (Unit {0})
  pub make : PayloadClass → Meta → Result Meta

-- The texts of a writer's two errors.
pub record Complaints : Type 0 where
  pub no_embedder : String
  pub unembedded : String

abbrev pub runtime_error : String → PyError
runtime_error text = record { class = other; class_name = "RuntimeError"; text = text }

abbrev pub vector_error : String → PyError
vector_error text = record { class = value; class_name = "ValueError"; text = text }

-- The first error of a list of results, or all of the values.
unfoldable pub all_ok : {A : Type 0} → List (Result A) → Result (List A)
all_ok [] = ok []
all_ok (err e ∷ rs) = err e
all_ok (ok a ∷ rs) = elim (all_ok rs) [ err e ↦ err e | ok as' ↦ ok (a ∷ as') ]

abbrev pub lift : {W A : Type 0} → Result A → Call W A
lift r w = (r, w)

module _ {Vector : Type 0} where
  abbrev pub bare : Meta → Point Vector
  bare r = record { payload = r; vector = none; sparse_vector = none }

  -- A record with its vectors, before the points of the others.
  unfoldable pub with_vector :
      String
      → Meta
      → Option Json
      → Option Vector
      → Result (List (Point Vector))
      → Result (List (Point Vector))
  with_vector text r sparse none rest = err (vector_error text)
  with_vector text r sparse (some v) (err e) = err e
  with_vector text r sparse (some v) (ok ps) =
      ok (record { payload = r; vector = some v; sparse_vector = sparse } ∷ ps)

  -- `zip(records, results)`; records past the last result stay bare.
  unfoldable pub attach :
      String → List Meta → List (Embedding Vector) → Result (List (Point Vector))
  unfolding with_vector
  attach text [] es = ok []
  attach text (r ∷ rs) [] = ok (map bare (r ∷ rs))
  attach text (r ∷ rs) (e ∷ es) =
      with_vector text r e.sparse_vector e.dense_vector (attach text rs es)

module _ {World Vector : Type 0} where
  module _ (services : Indexing World Vector) where
    unfoldable pub upsert_each : List (Point Vector) → Call World (Unit {0})
    upsert_each [] = return tt
    upsert_each (p ∷ ps) = services.upsert p >>= λ u. upsert_each ps

    unfoldable pub upsert_records : List (Point Vector) → Call World (Unit {0})
    unfolding upsert_each
    upsert_records points = elim services.upsert_many [
      | none ↦ upsert_each points
      | some many ↦ many points
    ]

  module _ (services : Indexing World Vector) (complaints : Complaints) where
    unfoldable pub embed_records : (Meta → String) → List Meta → Call World (List (Point Vector))
    unfolding attach
    embed_records text records = elim services.embed_batch [
      | none ↦ raise (runtime_error complaints.no_embedder)
      | some embed ↦ embed (map text records) >>= λ results.
          lift (attach complaints.unembedded records results)
    ]

    unfoldable pub index_all : (Meta → String) → List Meta → Call World (Unit {0})
    unfolding embed_records upsert_records
    index_all text records = embed_records text records >>= upsert_records services
