-- ===== src/Base/Chars.antt =====
-- Texts by their characters, as Python's positions count them.
use Prim.Native.Nat.{ℕ, zero, suc, ◌-◌}
use Prim.Native.Char.{Char}
use Prim.Native.String.{String, [], ◌∷◌, ◌++◌, count}
use Prim.Native.Nat.{◌≤◌}
use mathlib.Core.Bool.{Bool}
use mathlib.Core.Path.{◌≡◌, ap, ◌∙◌}
use native.Mathlib.Omega.{arith}
use text.Mathlib.TextLemmas.{nil-append, cons-append, length-nil, length-cons}
use open_cortex.Base.Tests.{if◌then◌else◌}
use text.Mathlib.Text.{◌==◌}

unfoldable pub take_chars : ℕ → String → String
take_chars zero s = []
take_chars (suc n) [] = []
take_chars (suc n) (c ∷ s) = c ∷ take_chars n s

unfoldable pub drop_chars : ℕ → String → String
drop_chars zero s = s
drop_chars (suc n) [] = []
drop_chars (suc n) (c ∷ s) = drop_chars n s

-- `text[a:b]`
unfoldable pub slice_chars : String → ℕ → ℕ → String
unfolding take_chars drop_chars
slice_chars text a b = take_chars (b - a) (drop_chars a text)

-- `text.rstrip("/")`
unfoldable pub rstrip_slashes : String → String
rstrip_slashes [] = []
rstrip_slashes (c ∷ s) = let rest = rstrip_slashes s in if c ∷ rest == "/" then [] else c ∷ rest

-- The number of characters that pass a test.
unfoldable pub count_where : (Char → Bool) → String → ℕ
count_where p [] = 0
count_where p (c ∷ s) = let rest = count_where p s in if p c then suc rest else rest

pub take_chars-drop_chars : (n : ℕ) (s : String) → take_chars n s ++ drop_chars n s ≡ s
unfolding take_chars drop_chars
take_chars-drop_chars zero s = nil-append s
take_chars-drop_chars (suc n) [] = nil-append []
take_chars-drop_chars (suc n) (c ∷ s) =
    cons-append c (take_chars n s) (drop_chars n s) ∙ ap (λ t. c ∷ t) (take_chars-drop_chars n s)

pub count-drop_chars : (n : ℕ) (s : String) → count (drop_chars n s) ≡ count s - n
unfolding drop_chars
count-drop_chars zero s = omega arith
count-drop_chars (suc n) [] = omega (arith, length-nil)
count-drop_chars (suc n) (c ∷ s) = omega (arith, count-drop_chars n s, length-cons c s)

pub count-take_chars : (n : ℕ) (s : String) → count (take_chars n s) ≤ n
unfolding take_chars
count-take_chars zero s = omega (arith, length-nil)
count-take_chars (suc n) [] = omega (arith, length-nil)
count-take_chars (suc n) (c ∷ s) =
    omega (arith, count-take_chars n s, length-cons c (take_chars n s))
