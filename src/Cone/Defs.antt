-- ===== src/Cone/Defs.antt =====
-- The data and the functions of src/opencortex/vector/retrieval/cone.py, up to the sort by time.
use open_cortex.Base.{
  ℕ, String, not, ◌&&◌, none, some, List, [], ◌∷◌, ◌++◌, if◌then◌else◌, ◌==◌, string_eq, map,
}
use open_cortex.Base.Lists.{contains, filter, take}
use open_cortex.Base.Sets.{add}
use open_cortex.Base.Dict
use open_cortex.Base.Dict.{Dict}

pub record RetrievalHit : Type 0 where
  pub source_uri : String
  pub cone_neighbors : List String

-- `neighbors` and `seen`
pub record Found : Type 0 where
  pub neighbors : List String
  pub seen : List String

-- `set(uris)`
unfoldable pub set_of : List String → List String → List String
set_of [] seen = seen
set_of (u ∷ us) seen = set_of us (add u seen)

-- `{hit.source_uri: hit for hit in hits if hit.source_uri}`
unfoldable pub by_uri : List RetrievalHit → Dict String RetrievalHit → Dict String RetrievalHit
by_uri [] d = d
by_uri (h ∷ hs) d = by_uri hs (if h.source_uri == "" then d else Dict.set h.source_uri h d)

-- The uris of the first `max_seeds` hits that have one.
unfoldable pub seed_uris : ℕ → List RetrievalHit → List String
seed_uris max_seeds hits =
    filter (λ u. not (u == "")) (map (λ (h : RetrievalHit). h.source_uri) (take max_seeds hits))

module _ (strip : String → String) where
  unfoldable pub append_unique_neighbor : String → Found → Found
  append_unique_neighbor uri f =
      if not (strip uri == "") && not (contains (strip uri) f.seen)
      then record { neighbors = f.neighbors ++ strip uri ∷ []; seen = add (strip uri) f.seen }
      else f

  unfoldable pub append_all : List String → Found → Found
  unfolding append_unique_neighbor
  append_all [] f = f
  append_all (u ∷ us) f = append_all us (append_unique_neighbor u f)

  module _ (relations : String → List String) where
    -- The body of the loop for one seed.
    unfoldable pub append_seed : Dict String RetrievalHit → String → Found → Found
    unfolding append_all
    append_seed hits seed f =
        append_all (relations seed)
          (elim (Dict.get seed hits) [ none ↦ f | some h ↦ append_all h.cone_neighbors f ])

    unfoldable pub append_seeds : Dict String RetrievalHit → List String → Found → Found
    unfolding append_seed
    append_seeds hits [] f = f
    append_seeds hits (s ∷ ss) f = append_seeds hits ss (append_seed hits s f)

    unfoldable pub neighbor_uris : List String → List RetrievalHit → List String
    unfolding append_seeds by_uri set_of
    neighbor_uris seeds hits =
        (append_seeds (by_uri hits []) seeds
          (record { neighbors = []; seen = set_of seeds [] })).neighbors
