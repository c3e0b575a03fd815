-- ===== src/Markdown/Pieces.antt =====
-- Pieces of a text: paragraphs that stay together, and paragraphs that are cut by length.
use Prim.Native.String.{◌++◌ as ◌<>◌, count}
use mathlib.Core.List.{append_assoc}
use text.Mathlib.TextLemmas.{length-append as count-append, length-eq-zero_iff}
use open_cortex.Base.{
  if_case, Bool-cases, inl, inr, ℕ, zero, suc, ◌+◌, ◌*◌, ◌≤◌, ◌<◌, ◌≡◌, refl, sym, ap, ◌∙◌, String,
  true, List, [], ◌∷◌, ◌++◌, map, ◌==◌, string_eq, eq_iff, arith,
}
use open_cortex.Base.Lists.{All}
use open_cortex.Base.Chars.{
  take_chars, drop_chars, take_chars-drop_chars, count-drop_chars, count-take_chars,
}
use open_cortex.Markdown.Defs.{Library, estimate_tokens}
use open_cortex.Markdown.Split.{slices, flushed, joined}

-- Paragraphs that stay together, or one that is cut by length.
pub data Piece : Type 0 where
  together : List String → Piece
  cut : String → Piece

abbrev pub paragraphs_of : List Piece → List String
paragraphs_of [] = []
paragraphs_of (together ps ∷ pieces) = ps ++ paragraphs_of pieces
paragraphs_of (cut p ∷ pieces) = p ∷ paragraphs_of pieces

-- The text of paragraphs that stay together, after a text.
unfoldable pub text_after : String → List String → String
text_after current [] = current
text_after current (p ∷ ps) = text_after (joined current p) ps

pub text_after-append :
    (current : String) (ps : List String) (q : String)
    → text_after current (ps ++ q ∷ []) ≡ joined (text_after current ps) q
unfolding text_after
text_after-append current [] q = refl
text_after-append current (p ∷ ps) q = text_after-append (joined current p) ps q

-- Texts one after the other.
abbrev pub glue : List String → String
glue [] = ""
glue (t ∷ ts) = t <> glue ts

-- The slices of a text give the text, and none is longer than the size.
abbrev pub IsSliced : ℕ → String → List String → Type 0
IsSliced size text ts = (glue ts ≡ text) × All (λ t. count t ≤ size) ts

pub slices-IsSliced :
    (fuel size : ℕ) (text : String)
    → 0 < size
    → count text ≤ fuel
    → IsSliced size text (slices fuel size text)
unfolding slices
slices-IsSliced zero size text l m =
    (sym ((length-eq-zero_iff {l = text}).0 (omega (arith, m))), tt)
slices-IsSliced (suc fuel) size text l m =
    let rest = slices fuel size (drop_chars size text) in
    let smaller : count (drop_chars size text) ≤ fuel =
      omega (arith, l, m, count-drop_chars size text) in
    let later = slices-IsSliced fuel size (drop_chars size text) l smaller in
    if_case (IsSliced size text) (text == "") [] (take_chars size text ∷ rest)
      (λ e. (sym ((eq_iff text "").0 e), tt))
      (λ e. (
        ap (λ t. take_chars size text <> t) later.0 ∙ take_chars-drop_chars size text,
        (count-take_chars size text, later.1),
      ))

pub paragraphs_of-append :
    (xs ys : List Piece) → paragraphs_of (xs ++ ys) ≡ paragraphs_of xs ++ paragraphs_of ys
paragraphs_of-append [] ys = refl
paragraphs_of-append (together ps ∷ xs) ys =
    ap (λ t. ps ++ t) (paragraphs_of-append xs ys)
    ∙ sym (append_assoc ps (paragraphs_of xs) (paragraphs_of ys))
paragraphs_of-append (cut p ∷ xs) ys = ap (λ t. p ∷ t) (paragraphs_of-append xs ys)

pub joined-empty :
    (current p : String) → (joined current p == "") ≡ true → (current ≡ "") × (p ≡ "")
joined-empty current p h = elim (Bool-cases (current == "")) [
  | inl e ↦ ground (arith, e, h, eq_iff current "", eq_iff p "")
  | inr e ↦
      (let long = current <> ("\n\n" <> p) in
        let eq : long ≡ "" = ground (arith, e, h, eq_iff long "") in
        absurd
          (omega (arith, ap count eq, count-append current ("\n\n" <> p), count-append "\n\n" p)))
]

module _ (lib : Library) (max_size : ℕ) where
  unfoldable pub total : List String → ℕ
  total [] = 0
  total (p ∷ ps) = estimate_tokens lib p + total ps

  pub total-append :
      (ps : List String) (q : String) → total (ps ++ q ∷ []) ≡ total ps + estimate_tokens lib q
  unfolding total
  total-append [] q = omega arith
  total-append (p ∷ ps) q = omega (arith, total-append ps q)

  -- What stays together has no more tokens than the maximum, and what is cut has more; its slices
  -- give all of it.
  abbrev pub IsSmall : Piece → Type 0
  IsSmall (together ps) = total ps ≤ max_size
  IsSmall (cut p) =
      (max_size < estimate_tokens lib p)
      × IsSliced (max_size * 3) p (slices (count p) (max_size * 3) p)

  -- The parts of the pieces.
  abbrev pub parts_of : List Piece → List String
  parts_of [] = []
  parts_of (together ps ∷ pieces) = flushed lib (text_after "" ps) ++ parts_of pieces
  parts_of (cut p ∷ pieces) =
      map lib.py.strip (slices (count p) (max_size * 3) p) ++ parts_of pieces

  pub parts_of-append : (xs ys : List Piece) → parts_of (xs ++ ys) ≡ parts_of xs ++ parts_of ys
  parts_of-append [] ys = refl
  parts_of-append (together ps ∷ xs) ys =
      ap (λ t. flushed lib (text_after "" ps) ++ t) (parts_of-append xs ys)
      ∙ sym (append_assoc (flushed lib (text_after "" ps)) (parts_of xs) (parts_of ys))
  parts_of-append (cut p ∷ xs) ys =
      let front = map lib.py.strip (slices (count p) (max_size * 3) p) in
      ap (λ t. front ++ t) (parts_of-append xs ys)
      ∙ sym (append_assoc front (parts_of xs) (parts_of ys))
