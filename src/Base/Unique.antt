-- ===== src/Base/Unique.antt =====
-- Loops that keep the values whose key was not seen before.
use mathlib.Core.Path.{◌≡◌, refl, ap}
use mathlib.Core.Bool.{false}
use mathlib.Core.List.{List, [], ◌∷◌, map}
use Prim.Native.Nat.{ℕ, zero, suc}
use Prim.Native.String.{String}
use native.Mathlib.Omega.{arith}
use open_cortex.Base.Tests.{if◌then◌else◌, Bool-cases, if_case}
use open_cortex.Base.Equality.{string_eq}
use open_cortex.Base.Lists.{contains, All, take}
use open_cortex.Base.Sets.{NoRepeats}
use mathlib.Core.Logic.{inl, inr}
use text.Mathlib.TextEquality.{eq_iff}

module _ {ℓ} {A : Type ℓ} (key : A → String) where
  -- `for x in xs: if key(x) not in seen: seen.add(key(x)); result.append(x)`
  unfoldable pub unique_by : List String → List A → List A
  unique_by seen [] = []
  unique_by seen (x ∷ xs) =
      let old = unique_by seen xs in
      let new = unique_by (key x ∷ seen) xs in if contains (key x) seen then old else x ∷ new

  -- The keys of the result are those of the values that were not seen.
  pub contains-unique_by :
      (k : String) (seen : List String) (xs : List A)
      → contains k (map key (unique_by seen xs))
        ≡ (if contains k seen then false else contains k (map key xs))
  unfolding unique_by
  contains-unique_by k seen [] =
      if_case (λ b. false ≡ b) (contains k seen) _ _ (λ h. refl) (λ h. refl)
  contains-unique_by k seen (x ∷ xs) = elim (Bool-cases (contains (key x) seen)) [
    | inl h ↦ rw h (ground (arith, eq_iff (key x) k, contains-unique_by k seen xs, h))
    | inr h ↦ rw h (ground (arith, eq_iff (key x) k, contains-unique_by k (key x ∷ seen) xs, h))
  ]

  pub unique_by-NoRepeats :
      (seen : List String) (xs : List A) → NoRepeats (map key (unique_by seen xs))
  unfolding unique_by
  unique_by-NoRepeats seen [] = tt
  unique_by-NoRepeats seen (x ∷ xs) =
      if_case (λ ys. NoRepeats (map key ys)) (contains (key x) seen) _ _
        (λ h. unique_by-NoRepeats seen xs)
        (λ h. (
          ground (arith, eq_iff (key x) (key x), contains-unique_by (key x) (key x ∷ seen) xs),
          unique_by-NoRepeats (key x ∷ seen) xs,
        ))

  pub unique_by-All {κ} :
      (P : A → Type κ) (seen : List String) (xs : List A) → All P xs → All P (unique_by seen xs)
  unfolding unique_by
  unique_by-All P seen [] h = tt
  unique_by-All P seen (x ∷ xs) h =
      if_case (All P) (contains (key x) seen) _ _ (λ e. unique_by-All P seen xs h.1)
        (λ e. (h.0, unique_by-All P (key x ∷ seen) xs h.1))

-- A shorter front has no new key.
contains-take :
    (k : String) (n : ℕ) (xs : List String) → contains k xs ≡ false → contains k (take n xs) ≡ false
contains-take k zero xs h = refl
contains-take k (suc n) [] h = refl
contains-take k (suc n) (x ∷ xs) h = ground (arith, contains-take k n xs)

pub take-NoRepeats : (n : ℕ) (xs : List String) → NoRepeats xs → NoRepeats (take n xs)
take-NoRepeats zero xs u = tt
take-NoRepeats (suc n) [] u = tt
take-NoRepeats (suc n) (x ∷ xs) u = (contains-take x n xs u.0, take-NoRepeats n xs u.1)

pub map-take {ℓ} :
    {A : Type ℓ} (f : A → String) (n : ℕ) (xs : List A) → map f (take n xs) ≡ take n (map f xs)
map-take f zero xs = refl
map-take f (suc n) [] = refl
map-take f (suc n) (x ∷ xs) = ap (λ t. f x ∷ t) (map-take f n xs)
