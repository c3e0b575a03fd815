-- ===== src/Cone/Tests.antt =====
-- The neighbours of two seeds.
use open_cortex.Base.{◌≡◌, refl, String, List, [], ◌∷◌, not, ◌&&◌, ◌==◌, string_eq}
use open_cortex.Base.Lists.{contains, any}
use open_cortex.Base.Sets.{NoRepeats, add}
use open_cortex.Base.Dict
use open_cortex.Cone.Defs.{RetrievalHit, seed_uris, neighbor_uris, by_uri}
use open_cortex.Cone.Neighbors.{candidates, neighbor_uris_once}

abbrev strip : String → String
strip s = s

abbrev relations : String → List String
relations s = "n2" ∷ s ∷ "" ∷ []

abbrev hits : List RetrievalHit
hits =
    record { source_uri = "a"; cone_neighbors = "n1" ∷ "b" ∷ [] }
    ∷ record { source_uri = ""; cone_neighbors = "n3" ∷ [] }
    ∷ record { source_uri = "b"; cone_neighbors = "n1" ∷ [] }
    ∷ []

seeds_run : seed_uris 3 hits ≡ "a" ∷ "b" ∷ []
unfolding seed_uris
seeds_run = refl

neighbors_run : neighbor_uris strip relations ("a" ∷ "b" ∷ []) hits ≡ "n1" ∷ "n2" ∷ []
unfolding neighbor_uris Dict.get Dict.set add
neighbors_run = refl

abbrev candidate : String
candidate = "n2"

abbrev no_text : String
no_text = ""

neighbor_uris_once_example :
    NoRepeats (neighbor_uris strip relations ("a" ∷ "b" ∷ []) hits)
    × (contains candidate (neighbor_uris strip relations ("a" ∷ "b" ∷ []) hits) ≡ (
        not (candidate == no_text)
        && not (contains candidate ("a" ∷ "b" ∷ []))
        && any
            (λ c. strip c == candidate)
            (candidates relations (by_uri hits []) ("a" ∷ "b" ∷ []))))
neighbor_uris_once_example = neighbor_uris_once strip relations ("a" ∷ "b" ∷ []) hits candidate
