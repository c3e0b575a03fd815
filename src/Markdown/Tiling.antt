-- ===== src/Markdown/Tiling.antt =====
-- Which part of the text the sections cover.
use Prim.Native.String.{count}
use open_cortex.Base.{
  ℕ, ◌+◌, ◌≤◌, ◌≡◌, refl, String, Bool, true, false, List, [], ◌∷◌, ◌++◌, map, if◌then◌else◌,
  string_eq, nat_eq, min, arith,
}
use open_cortex.Base.Lists.{All, length}
use open_cortex.Markdown.Defs.{Heading, Place, Section, Entry, given, heading_idx, Library}
use open_cortex.Markdown.Sections.{
  section_end, children_at, places_at, direct_end, get_section_info, min_level,
  build_top_level_sections,
}

-- The sections of these headings lie end to end, from a position to another; the first number is
-- the end of the text.
unfoldable pub Tiles : ℕ → List Place → ℕ → ℕ → Type 0
Tiles last [] a b = a ≡ b
Tiles last (p ∷ ps) a b =
    (p.heading.start ≡ a) × Tiles last ps (section_end last p.heading.level p.later) b

-- The section of a child ends where the next child starts, or where the section ends.
section_end-child :
    (last l : ℕ) (hs : List Heading)
    → section_end last (l + 1) hs ≡ direct_end (section_end last l hs) (children_at (l + 1) l hs)
unfolding section_end children_at
section_end-child last l [] = refl
section_end-child last l (h ∷ hs) = ground (arith, section_end-child last l hs)

children-Tiles :
    (last l : ℕ) (hs : List Heading)
    → let cs = children_at (l + 1) l hs in
      let stop = section_end last l hs in Tiles last cs (direct_end stop cs) stop
unfolding section_end children_at Tiles
children-Tiles last l [] = refl
children-Tiles last l (h ∷ hs) =
    ground (arith, children-Tiles last l hs, section_end-child last l hs)

-- The children of a heading are one level below it.
pub children-level :
    (m l : ℕ) (hs : List Heading) → All (λ p. p.heading.level ≡ m) (children_at m l hs)
unfolding children_at
children-level m l [] = tt
children-level m l (h ∷ hs) = ground (arith, children-level m l hs)

-- The sections of the children of a heading lie end to end, from the end of its direct text to the
-- end of its section, and each child is one level below it.
pub get_section_info-Tiles :
    (lib : Library) (content : String) (place : Place)
    → let cs = (get_section_info lib content place).child_indices in
      let stop = section_end (count content) place.heading.level place.later in
      Tiles (count content) cs (direct_end stop cs) stop
      × All (λ p. p.heading.level ≡ place.heading.level + 1) cs
unfolding get_section_info
get_section_info-Tiles lib content place = (
  children-Tiles (count content) place.heading.level place.later,
  children-level (place.heading.level + 1) place.heading.level place.later,
)

-- The first of the headings of a level, or the end of the text.
abbrev pub first_start : ℕ → List Place → ℕ
first_start last [] = last
first_start last (p ∷ ps) = p.heading.start

section_end-least :
    (last m : ℕ) (hs : List Heading)
    → All (λ h. m ≤ h.level) hs
    → section_end last m hs ≡ first_start last (places_at m hs)
unfolding section_end places_at
section_end-least last m [] a = refl
section_end-least last m (h ∷ hs) a = ground (arith, a, section_end-least last m hs a.1)

places-Tiles :
    (last m : ℕ) (hs : List Heading)
    → All (λ h. m ≤ h.level) hs
    → Tiles last (places_at m hs) (first_start last (places_at m hs)) last
unfolding Tiles places_at
places-Tiles last m [] a = refl
places-Tiles last m (h ∷ hs) a =
    ground (arith, a, places-Tiles last m hs a.1, section_end-least last m hs a.1)

All-le :
    (m n : ℕ) (hs : List Heading) → m ≤ n → All (λ h. n ≤ h.level) hs → All (λ h. m ≤ h.level) hs
All-le m n [] l a = tt
All-le m n (h ∷ hs) l a = (omega (arith, l, a.0), All-le m n hs l a.1)

min_level-All : (h : Heading) (hs : List Heading) → All (λ k. min_level h hs ≤ k.level) (h ∷ hs)
unfolding min_level
min_level-All h [] = (omega arith, tt)
min_level-All h (k ∷ hs) =
    let n = min_level k hs in
    (omega arith, All-le (min h.level n) n (k ∷ hs) (omega arith) (min_level-All k hs))

preamble_cases :
    (b c : Bool) (s : Section) (es : List Entry)
    → (preamble : List Section) × ((if b then (if c then es else given s ∷ es) else es)
        ≡ map given preamble ++ es)
      × (length preamble ≤ 1)
preamble_cases false c s es = ([], refl, omega arith)
preamble_cases true true s es = ([], refl, omega arith)
preamble_cases true false s es = (s ∷ [], refl, omega arith)

-- The entries of a document with headings are at most a preamble and then the headings of the
-- least level; their sections lie end to end, from the first of these headings to the end of the
-- text.
pub build_top_level_sections-Tiles :
    (lib : Library) (content : String) (h : Heading) (hs : List Heading)
    → (preamble : List Section) × (top : List Place) × (build_top_level_sections lib content h hs
        ≡ map given preamble ++ map heading_idx top)
      × (top ≡ places_at (min_level h hs) (h ∷ hs))
      × (length preamble ≤ 1)
      × Tiles (count content) top (first_start (count content) top) (count content)
unfolding build_top_level_sections
build_top_level_sections-Tiles lib content h hs =
    let top = places_at (min_level h hs) (h ∷ hs) in
    let x = preamble_cases _ _ _ (map heading_idx top) in
    (
      x.0,
      top,
      x.1,
      refl,
      x.2,
      places-Tiles (count content) (min_level h hs) (h ∷ hs) (min_level-All h hs),
    )
