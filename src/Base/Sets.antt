-- ===== src/Base/Sets.antt =====
-- Python's `set` as a list without duplicates.
use Prim.Native.Nat.{◌+◌}
use mathlib.Core.Path.{◌≡◌, refl}
use mathlib.Core.Logic.{inl, inr}
use mathlib.Core.Bool.{true, false}
use mathlib.Core.List.{List, [], ◌∷◌, ◌++◌}
use native.Mathlib.Omega.{arith}
use open_cortex.Base.Tests.{if◌then◌else◌, Bool-cases}
use open_cortex.Base.Equality.{PyEq, ◌==◌}
use open_cortex.Base.Lists.{contains, length, length-append}

module _ {ℓ} {A : Type ℓ} ⦃e : PyEq A⦄ where
  -- `s.add(a)`
  unfoldable pub add : A → List A → List A
  add a xs = if contains a xs then xs else xs ++ a ∷ []

  -- `s.remove(a)` and `s.discard(a)` of a member
  unfoldable pub discard : A → List A → List A
  discard a [] = []
  discard a (x ∷ xs) = let rest = discard a xs in if x == a then rest else x ∷ rest

  abbrev pub NoRepeats : List A → Type 0
  NoRepeats [] = Unit
  NoRepeats (x ∷ xs) = (contains x xs ≡ false) × NoRepeats xs

  pub contains-append-one :
      (a b : A) (xs : List A) → contains b (xs ++ a ∷ []) ≡ (if a == b then true else contains b xs)
  contains-append-one a b [] = ground arith
  contains-append-one a b (x ∷ xs) = ground (arith, contains-append-one a b xs)

  pub contains-add :
      (a b : A) (xs : List A) → contains b (add a xs) ≡ (if a == b then true else contains b xs)
  unfolding add
  contains-add a b xs = elim (Bool-cases (contains a xs)) [
    | inl h ↦ rw h (ground (arith, h, e.equals_iff a b))
    | inr h ↦ rw h (contains-append-one a b xs)
  ]

  pub contains-discard :
      (a b : A) (xs : List A)
      → contains b (discard a xs) ≡ (if a == b then false else contains b xs)
  unfolding discard
  contains-discard a b [] = ground arith
  contains-discard a b (x ∷ xs) =
      ground (arith, e.equals_iff x a, e.equals_iff x b, e.equals_iff a b, contains-discard a b xs)

  pub append-NoRepeats :
      (a : A) (xs : List A) → NoRepeats xs → contains a xs ≡ false → NoRepeats (xs ++ a ∷ [])
  append-NoRepeats a [] u h = (refl, tt)
  append-NoRepeats a (x ∷ xs) u h = (
    ground (arith, contains-append-one a x xs, e.equals_iff x a, e.equals_iff a x),
    append-NoRepeats a xs u.1 (ground arith),
  )

  pub add-NoRepeats : (a : A) (xs : List A) → NoRepeats xs → NoRepeats (add a xs)
  unfolding add
  add-NoRepeats a xs u = elim (Bool-cases (contains a xs)) [
    | inl h ↦ rw h u
    | inr h ↦ rw h (append-NoRepeats a xs u h)
  ]

  discard_absent : (a : A) (xs : List A) → contains a xs ≡ false → discard a xs ≡ xs
  unfolding discard
  discard_absent a [] h = refl
  discard_absent a (x ∷ xs) h = ground (arith, discard_absent a xs)

  pub discard-NoRepeats : (a : A) (xs : List A) → NoRepeats xs → NoRepeats (discard a xs)
  unfolding discard
  discard-NoRepeats a [] u = tt
  discard-NoRepeats a (x ∷ xs) u = elim (Bool-cases (x == a)) [
    | inl h ↦ rw h (discard-NoRepeats a xs u.1)
    | inr h ↦ rw h (ground (arith, contains-discard a x xs), discard-NoRepeats a xs u.1)
  ]

  -- A member stands once, so that removing it shortens the set by one.
  pub length-discard :
      (a : A) (xs : List A)
      → NoRepeats xs
      → length xs ≡ length (discard a xs) + (if contains a xs then 1 else 0)
  unfolding discard
  length-discard a [] u = omega arith
  length-discard a (x ∷ xs) u =
      ground (arith, length-discard a xs u.1, e.equals_iff x a, discard_absent a xs)

  pub length-add :
      (a : A) (xs : List A) → length (add a xs) ≡ length xs + (if contains a xs then 0 else 1)
  unfolding add
  length-add a xs = elim (Bool-cases (contains a xs)) [
    | inl h ↦ rw h (omega arith)
    | inr h ↦ rw h (length-append xs (a ∷ []))
  ]
