-- ===== src/Base/Equality.antt =====
-- Python's `==` on the types that key a dict or a set: an instance for each such type.
use Prim.Native.Nat.{ℕ, compare, Ordering}
use Prim.Native.String.{String}
use mathlib.Core.Path.{◌≡◌}
use mathlib.Core.Logic.{◌↔◌}
use mathlib.Core.Bool.{Bool, true, false, ◌&&◌}
use native.Mathlib.Omega.{arith}
use text.Mathlib.Text.{◌==◌ as text_equals}
use text.Mathlib.TextEquality.{eq_iff}

pub record PyEq {ℓ} (K : Type ℓ) : Type ℓ where
  pub equals : K → K → Bool
  pub equals_iff : (j k : K) → (equals j k ≡ true) ↔ (j ≡ k)

abbrev number_equals : ℕ → ℕ → Bool
number_equals m n = elim (compare m n) [ Ordering.eq ↦ true | _ ↦ false ]

pub number_equals_iff : (m n : ℕ) → (number_equals m n ≡ true) ↔ (m ≡ n)
number_equals_iff m n = ground arith

infix 50 ◌==◌
abbrev pub ◌==◌ {ℓ} : {K : Type ℓ} ⦃e : PyEq K⦄ → K → K → Bool
◌==◌ ⦃e⦄ = e.equals

instance abbrev pub string_eq : PyEq String
string_eq = record { equals = text_equals; equals_iff = eq_iff }

instance abbrev pub nat_eq : PyEq ℕ
nat_eq = record { equals = number_equals; equals_iff = number_equals_iff }

-- Tuples of keys are compared part by part.
module _ {ℓ κ} {J : Type ℓ} {K : Type κ} ⦃e : PyEq J⦄ ⦃f : PyEq K⦄ where
  abbrev pub pair_equals : J × K → J × K → Bool
  pair_equals (j, k) (j', k') = e.equals j j' && f.equals k k'

  pub pair_equals_iff : (p q : J × K) → (pair_equals p q ≡ true) ↔ (p ≡ q)
  pair_equals_iff (j, k) (j', k') = (
    λ h. ground (arith, e.equals_iff j j', f.equals_iff k k'),
    λ h. ground (arith, e.equals_iff j j', f.equals_iff k k'),
  )

  instance abbrev pub pair_eq : PyEq (J × K)
  pair_eq = record { equals = pair_equals; equals_iff = pair_equals_iff }
