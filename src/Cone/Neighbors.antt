-- ===== src/Cone/Neighbors.antt =====
-- `neighbor_uris`: each neighbour once, no seed, and all there are.
use open_cortex.Base.{
  ◌≡◌, refl, String, Bool, true, false, not, ◌&&◌, ◌||◌, none, some, List, [], ◌∷◌, ◌++◌, ◌==◌,
  string_eq, eq_iff, arith, Bool-cases, Option-cases, inl, inr, ◌∙◌, sym, ap,
}
use open_cortex.Base.Lists.{contains, any}
use open_cortex.Base.Sets.{add, NoRepeats, contains-add, contains-append-one, append-NoRepeats}
use open_cortex.Base.Dict
use open_cortex.Base.Dict.{Dict}
use open_cortex.Cone.Defs.{
  RetrievalHit, Found, set_of, by_uri, append_unique_neighbor, append_all, append_seed,
  append_seeds, neighbor_uris,
}

-- The uris that the loop tries for the seeds, in order.
unfoldable pub candidates :
    (String → List String) → Dict String RetrievalHit → List String → List String
candidates relations hits [] = []
candidates relations hits (s ∷ ss) = elim (Dict.get s hits) [
  | none ↦ relations s ++ candidates relations hits ss
  | some h ↦ h.cone_neighbors ++ (relations s ++ candidates relations hits ss)
]

module _ (strip : String → String) where
  -- A neighbour stands once and is seen.
  pub record IsFound (f : Found) : Type 0 where
    pub once : NoRepeats f.neighbors
    pub seen : (u : String) → contains u f.neighbors ≡ true → contains u f.seen ≡ true

  append_all-append :
      (us vs : List String) (f : Found)
      → append_all strip (us ++ vs) f ≡ append_all strip vs (append_all strip us f)
  unfolding append_all
  append_all-append [] vs f = refl
  append_all-append (u ∷ us) vs f = append_all-append us vs (append_unique_neighbor strip u f)

  append_seeds-candidates :
      (relations : String → List String) (hits : Dict String RetrievalHit) (seeds : List String)
      (f : Found)
      → append_seeds strip relations hits seeds f
        ≡ append_all strip (candidates relations hits seeds) f
  unfolding append_seeds candidates append_all append_seed
  append_seeds-candidates relations hits [] f = refl
  append_seeds-candidates relations hits (s ∷ ss) f = elim (Option-cases (Dict.get s hits)) [
    | inl h ↦
        append_seeds-candidates relations hits ss (append_seed strip relations hits s f)
        ∙ rw (candidates, h)
            (sym (append_all-append (relations s) (candidates relations hits ss) f))
    | inr (x, h) ↦
        append_seeds-candidates relations hits ss (append_seed strip relations hits s f)
        ∙ rw (candidates, h)
            (sym (
              append_all-append x.cone_neighbors (relations s ++ candidates relations hits ss) f
              ∙ append_all-append (relations s) (candidates relations hits ss)
                  (append_all strip x.cone_neighbors f)))
  ]

  -- The uri is a new one.
  fresh : String → Found → Bool
  fresh u f = not (strip u == "") && not (contains (strip u) f.seen)

  extended : String → Found → Found
  extended u f = record { neighbors = f.neighbors ++ strip u ∷ []; seen = add (strip u) f.seen }

  extended-IsFound :
      (u : String) (f : Found) → fresh u f ≡ true → IsFound f → IsFound (extended u f)
  unfolding fresh extended
  extended-IsFound u f h i =
      let absent : contains (strip u) f.neighbors ≡ false = ground (arith, h, i.seen (strip u)) in
      record {
        once = append-NoRepeats (strip u) f.neighbors i.once absent;
        seen = λ v c. ground (
          arith,
          contains-append-one (strip u) v f.neighbors,
          contains-add (strip u) v f.seen,
          i.seen v,
          c,
        );
      }

  one-fresh :
      (u : String) (f : Found) → fresh u f ≡ true → append_unique_neighbor strip u f ≡ extended u f
  unfolding append_unique_neighbor fresh extended
  one-fresh u f h = rw h refl

  one_stale : (u : String) (f : Found) → fresh u f ≡ false → append_unique_neighbor strip u f ≡ f
  unfolding append_unique_neighbor fresh
  one_stale u f h = rw h refl

  one-IsFound : (u : String) (f : Found) → IsFound f → IsFound (append_unique_neighbor strip u f)
  unfolding append_unique_neighbor fresh extended
  one-IsFound u f i = elim (Bool-cases (fresh u f)) [
    | inl h ↦ rw h (extended-IsFound u f h i)
    | inr h ↦ rw h i
  ]

  all-IsFound : (us : List String) (f : Found) → IsFound f → IsFound (append_all strip us f)
  unfolding append_all
  all-IsFound [] f i = i
  all-IsFound (u ∷ us) f i = all-IsFound us (append_unique_neighbor strip u f) (one-IsFound u f i)

  after : String → List String → Found → Bool
  after u us f =
      contains u f.neighbors
      || (not (u == "") && not (contains u f.seen) && any (λ c. strip c == u) us)

  step_in :
      (u c : String) (us : List String) (f : Found)
      → fresh c f ≡ true
      → after u us (extended c f) ≡ after u (c ∷ us) f
  unfolding fresh extended after
  step_in u c us f h = ground (
    arith,
    h,
    contains-append-one (strip c) u f.neighbors,
    contains-add (strip c) u f.seen,
    eq_iff (strip c) u,
  )

  step_out :
      (u c : String) (us : List String) (f : Found)
      → fresh c f ≡ false
      → after u us f ≡ after u (c ∷ us) f
  unfolding fresh after
  step_out u c us f h = ground (arith, h, eq_iff (strip c) u)

  -- Which uris are neighbours after the loop.
  contains-append_all :
      (u : String) (us : List String) (f : Found)
      → IsFound f
      → contains u (append_all strip us f).neighbors ≡ after u us f
  unfolding append_all append_unique_neighbor fresh extended after
  contains-append_all u [] f i = ground arith
  contains-append_all u (c ∷ us) f i = elim (Bool-cases (fresh c f)) [
    | inl h ↦
        ap (λ g. contains u (append_all strip us g).neighbors) (one-fresh c f h)
        ∙ contains-append_all u us (extended c f) (extended-IsFound c f h i)
        ∙ step_in u c us f h
    | inr h ↦
        ap (λ g. contains u (append_all strip us g).neighbors) (one_stale c f h)
        ∙ contains-append_all u us f i
        ∙ step_out u c us f h
  ]

  module _ (relations : String → List String) (seeds : List String) (hits : List RetrievalHit) where
    set_of-contains :
        (u : String) (us seen : List String)
        → contains u (set_of us seen) ≡ (contains u us || contains u seen)
    unfolding set_of
    set_of-contains u [] seen = refl
    set_of-contains u (v ∷ us) seen =
        ground (arith, set_of-contains u us (add v seen), contains-add v u seen, eq_iff v u)

    abbrev start : Found
    start = record { neighbors = []; seen = set_of seeds [] }

    neighbor_uris-append_all :
        neighbor_uris strip relations seeds hits
        ≡ (append_all strip (candidates relations (by_uri hits []) seeds) start).neighbors
    unfolding neighbor_uris
    neighbor_uris-append_all =
        ap (λ (f : Found). f.neighbors)
          (append_seeds-candidates relations (by_uri hits []) seeds start)

    start-IsFound : IsFound start
    start-IsFound = record { once = tt; seen = λ v c. ground arith }

    -- No neighbour stands twice, and a uri is a neighbour exactly if it is not empty, no seed, and
    -- the stripped form of a cone neighbour or a relation of a seed.
    pub neighbor_uris_once :
        (u : String)
        → NoRepeats (neighbor_uris strip relations seeds hits)
          × (contains u (neighbor_uris strip relations seeds hits) ≡ (
              not (u == "")
              && not (contains u seeds)
              && any (λ c. strip c == u) (candidates relations (by_uri hits []) seeds)))
    unfolding after
    neighbor_uris_once u =
        let us = candidates relations (by_uri hits []) seeds in
        rw (neighbor_uris-append_all) (
          (all-IsFound us start start-IsFound).once,
          contains-append_all u us start start-IsFound ∙ ground (arith, set_of-contains u seeds []),
        )
