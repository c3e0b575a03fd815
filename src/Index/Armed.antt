-- ===== src/Index/Armed.antt =====
-- The vectors that `attach` gives to records.
use open_cortex.Base.{
  arith, refl, ap, ◌≤◌, ◌≡◌, String, Option, none, some, List, [], ◌∷◌, map, string_eq,
}
use open_cortex.Base.Lists.{All, length}
use open_cortex.Base.Json.{Json, Meta}
use open_cortex.Worker.Failure.{Result, ok, err}
use open_cortex.Index.Points.{Embedding, Point, attach, with_vector}

module _ {Vector : Type 0} where
  abbrev pub HasVector : Point Vector → Type 0
  HasVector p = (v : Vector) × (p.vector ≡ some v)

  -- The points of a successful result are those of the records, each with a vector.
  abbrev pub Armed : List Meta → Result (List (Point Vector)) → Type 0
  Armed rs (ok ps) = All HasVector ps × (map (λ p. p.payload) ps ≡ rs)
  Armed rs (err e) = Unit {0}

  with_vector-Armed :
      (text : String) (r : Meta) (rs : List Meta) (sparse : Option Json) (dense : Option Vector)
      (rest : Result (List (Point Vector)))
      → Armed rs rest
      → Armed (r ∷ rs) (with_vector text r sparse dense rest)
  unfolding with_vector
  with_vector-Armed text r rs sparse none rest h = tt
  with_vector-Armed text r rs sparse (some v) (err e) h = tt
  with_vector-Armed text r rs sparse (some v) (ok ps) h = (((v, refl), h.0), ap (λ t. r ∷ t) h.1)

  pub attach-Armed :
      (text : String) (rs : List Meta) (es : List (Embedding Vector))
      → length rs ≤ length es
      → Armed rs (attach text rs es)
  unfolding attach
  attach-Armed text [] es h = (tt, refl)
  attach-Armed text (r ∷ rs) [] h = absurd (omega arith)
  attach-Armed text (r ∷ rs) (e ∷ es) h =
      with_vector-Armed text r rs e.sparse_vector e.dense_vector (attach text rs es)
        (attach-Armed text rs es (omega arith))
