-- ===== src/Base/Dict.antt =====
-- Python's `dict` in insertion order: an assignment to a present key keeps its place.
use mathlib.Core.Path.{◌≡◌, refl}
use mathlib.Core.Option.{Option, none, some}
use mathlib.Core.List.{List, [], ◌∷◌}
use native.Mathlib.Omega.{arith}
use mathlib.Core.Logic.{inl, inr}
use open_cortex.Base.Tests.{if◌then◌else◌, Bool-cases}
use open_cortex.Base.Equality.{PyEq, ◌==◌}

abbrev pub Dict {ℓ κ} : Type ℓ → Type κ → Type (ℓ ⊔ κ)
Dict K V = List (K × V)

module _ {ℓ κ} {K : Type ℓ} {V : Type κ} ⦃e : PyEq K⦄ where
  -- `d.get(k)`
  unfoldable pub get : K → Dict K V → Option V
  get k [] = none
  get k ((j, v) ∷ d) = if j == k then some v else get k d

  -- `d[k] = v`
  unfoldable pub set : K → V → Dict K V → Dict K V
  set k v [] = (k, v) ∷ []
  set k v ((j, w) ∷ d) = if j == k then (j, v) ∷ d else (j, w) ∷ set k v d

  -- `d.pop(k, None)`
  unfoldable pub pop : K → Dict K V → Dict K V
  pop k [] = []
  pop k ((j, v) ∷ d) = let rest = pop k d in if j == k then rest else (j, v) ∷ rest

  pub get-set :
      (k j : K) (v : V) (d : Dict K V) → get j (set k v d) ≡ (if k == j then some v else get j d)
  unfolding get set
  get-set k j v [] = refl
  get-set k j v ((i, w) ∷ d) =
      ground (arith, e.equals_iff k j, e.equals_iff i k, e.equals_iff i j, get-set k j v d)

  pub get-pop : (k j : K) (d : Dict K V) → get j (pop k d) ≡ (if k == j then none else get j d)
  unfolding get pop
  get-pop k j [] = ground arith
  get-pop k j ((i, w) ∷ d) =
      ground (arith, e.equals_iff k j, e.equals_iff i k, e.equals_iff i j, get-pop k j d)

  -- The keys of a dict are distinct.
  abbrev pub UniqueKeys : Dict K V → Type κ
  UniqueKeys [] = Unit
  UniqueKeys ((k, v) ∷ d) = (get k d ≡ none) × UniqueKeys d

  pub set-UniqueKeys : (k : K) (v : V) (d : Dict K V) → UniqueKeys d → UniqueKeys (set k v d)
  unfolding set
  set-UniqueKeys k v [] u = (unfold get in refl, tt)
  set-UniqueKeys k v ((j, w) ∷ d) u = elim (Bool-cases (j == k)) [
    | inl h ↦ rw h u
    | inr h ↦ rw h (
      ground (arith, get-set k j v d, e.equals_iff j k, e.equals_iff k j),
      set-UniqueKeys k v d u.1,
    )
  ]

  pub pop-UniqueKeys : (k : K) (d : Dict K V) → UniqueKeys d → UniqueKeys (pop k d)
  unfolding pop
  pop-UniqueKeys k [] u = tt
  pop-UniqueKeys k ((j, w) ∷ d) u = elim (Bool-cases (j == k)) [
    | inl h ↦ rw h (pop-UniqueKeys k d u.1)
    | inr h ↦
        rw h (
          ground (arith, get-pop k j d, e.equals_iff j k, e.equals_iff k j),
          pop-UniqueKeys k d u.1,
        )
  ]
