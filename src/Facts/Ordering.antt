-- ===== src/Facts/Ordering.antt =====
-- The order of the facts.
use open_cortex.Base.{
  arith, ℕ, ◌≤◌, ◌≡◌, refl, String, List, [], ◌∷◌, leb, if_case, ◌==◌, nat_eq, none,
}
use open_cortex.Base.Lists.{All, filter}
use open_cortex.Base.Json.{Json, Python}
use open_cortex.Facts.Defs.{
  Patterns, unique_fact_points, is_answerable_fact, place_fact, sort_facts, sorted_answerable_facts,
  fact_specificity_score,
}

module _ (score : String → ℕ) where
  -- Each score is at least those that follow.
  abbrev pub Falls : List String → Type 0
  Falls [] = Unit
  Falls (x ∷ xs) = All (λ y. score y ≤ score x) xs × Falls xs

  All-below :
      (m n : ℕ) (xs : List String) → All (λ y. score y ≤ m) xs → m ≤ n → All (λ y. score y ≤ n) xs
  All-below m n [] h k = tt
  All-below m n (x ∷ xs) h k = (omega arith, All-below m n xs h.1 k)

  place-All :
      (n : ℕ) (x : String) (xs : List String)
      → score x ≤ n
      → All (λ y. score y ≤ n) xs
      → All (λ y. score y ≤ n) (place_fact score x xs)
  unfolding place_fact
  place-All n x [] h k = (h, tt)
  place-All n x (y ∷ ys) h k =
      if_case (All (λ z. score z ≤ n)) (leb (score y) (score x)) _ _ (λ e. (h, k))
        (λ e. (k.0, place-All n x ys h k.1))

  place-Falls : (x : String) (xs : List String) → Falls xs → Falls (place_fact score x xs)
  unfolding place_fact
  place-Falls x [] f = (tt, tt)
  place-Falls x (y ∷ ys) f =
      if_case Falls (leb (score y) (score x)) _ _
        (λ e. ((ground arith, All-below (score y) (score x) ys f.0 (ground arith)), f))
        (λ e. (place-All (score y) x ys (ground arith) f.0, place-Falls x ys f.1))

  sort-Falls : (xs : List String) → Falls (sort_facts score xs)
  unfolding sort_facts
  sort-Falls [] = tt
  sort-Falls (x ∷ xs) = place-Falls x _ (sort-Falls xs)

  filter-place :
      (n : ℕ) (x : String) (xs : List String)
      → filter (λ y. score y == n) (place_fact score x xs) ≡ filter (λ y. score y == n) (x ∷ xs)
  unfolding place_fact
  filter-place n x [] = refl
  filter-place n x (y ∷ ys) = ground (arith, filter-place n x ys)

  filter-sort :
      (n : ℕ) (xs : List String)
      → filter (λ y. score y == n) (sort_facts score xs) ≡ filter (λ y. score y == n) xs
  unfolding sort_facts
  filter-sort n [] = refl
  filter-sort n (x ∷ xs) = ground (arith, filter-place n x (sort_facts score xs), filter-sort n xs)

module _ (py : Python) (re : Patterns) where
  -- The facts stand in falling order of their score, and those of a score are the answerable ones of
  -- the unique facts that have it, in their order.
  pub sorted_answerable_facts-Falls :
      (points : Json) (n : ℕ)
      → Falls (fact_specificity_score py re) (sorted_answerable_facts py re points none)
        × (filter
              (λ f. fact_specificity_score py re f == n)
              (sorted_answerable_facts py re points none)
            ≡ filter
                (λ f. fact_specificity_score py re f == n)
                (filter (is_answerable_fact py re) (unique_fact_points py re points)))
  unfolding sorted_answerable_facts
  sorted_answerable_facts-Falls points n =
      let facts = filter (is_answerable_fact py re) (unique_fact_points py re points) in
      let score = fact_specificity_score py re in
      (sort-Falls score facts, filter-sort score n facts)
