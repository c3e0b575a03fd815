-- ===== src/Document/Rooting.antt =====
-- The tree that a document is written as: every parent is the root, or a chunk written before.
use open_cortex.Base.{
  ℕ, zero, suc, ◌+◌, ◌≤◌, ◌<◌, ◌≡◌, ◌⊎◌, inl, inr, refl, String, Bool, false, Option, none, some,
  List, [], ◌∷◌, ◌==◌, string_eq, arith, Option-cases,
}
use open_cortex.Base.Lists.{All, length}
use open_cortex.Base.Sets.{NoRepeats}
use open_cortex.Common.{get_elem?}
use open_cortex.Markdown.{ParsedChunk, ParserConfig, Library, parse_content}
use open_cortex.Markdown.Hierarchy.{Attached, Placed}
use open_cortex.Markdown.Trees.{parse_content-Attached}
use open_cortex.Document.Defs.{
  Formats, DocumentChunk, parent_or_root, from_parsed, document_chunks, chunk_uris, parent_uri_of,
}
use open_cortex.Document.Uris.{chunk_uris-NoRepeats}

-- Every parent index is before the chunk's own; the first chunk has this index.
abbrev Earlier : ℕ → List DocumentChunk → Type 0
Earlier k [] = Unit
Earlier k (c ∷ cs) = ((i : ℕ) → c.parent_index ≡ some i → i < k) × Earlier (suc k) cs

-- Every parent uri is the root's, or the uri of an earlier chunk; the first chunk has this index.
abbrev pub Rooted : String → List String → ℕ → List DocumentChunk → Type 0
Rooted root uris k [] = Unit
Rooted root uris k (c ∷ cs) =
    ((parent_uri_of root uris c ≡ some root)
      ⊎ ((i : ℕ) × (u : String) × (i < k)
          × (get_elem? uris i ≡ some u)
          × (parent_uri_of root uris c ≡ some u)))
    × Rooted root uris (suc k) cs

get_elem?-some :
    {A : Type 0} (xs : List A) (i : ℕ) → i < length xs → (x : A) × (get_elem? xs i ≡ some x)
unfolding get_elem?
get_elem?-some [] i l = absurd (omega (arith, l))
get_elem?-some (x ∷ xs) zero l = (x, refl)
get_elem?-some (x ∷ xs) (suc i) l = get_elem?-some xs i (omega (arith, l))

Earlier-Rooted :
    (root : String) (uris : List String) (k : ℕ) (cs : List DocumentChunk)
    → k + length cs ≤ length uris
    → Earlier k cs
    → Rooted root uris k cs
unfolding parent_uri_of
Earlier-Rooted root uris k [] l e = tt
Earlier-Rooted root uris k (c ∷ cs) l e = (
  elim (Option-cases c.parent_index) [
    | inl h ↦ inl (rw h refl)
    | inr h ↦
        (let found = get_elem?-some uris h.0 (omega (arith, l, e.0 h.0 h.1)) in
          inr (h.0, found.0, e.0 h.0 h.1, found.1, rw h.1 found.1))
  ],
  Earlier-Rooted root uris (suc k) cs (omega (arith, l)) e.1,
)

-- A parent that is placed before a chunk stays before it, or becomes the root.
parent_or_root-lt :
    (p : Option ℕ) (k i : ℕ) → ((j : ℕ) → p ≡ some j → j < k) → parent_or_root p ≡ some i → i < k
parent_or_root-lt none k i h e = ground (arith, e)
parent_or_root-lt (some zero) k i h e = ground (arith, e)
parent_or_root-lt (some (suc j)) k i h e = h i e

Placed-lt : (k i : ℕ) (c : ParsedChunk) → Placed none 0 k c → c.parent_index ≡ some i → i < k
Placed-lt k i c (inl h) e = ground (arith, h, e)
Placed-lt k i c (inr (j, h, l, m)) e = ground (arith, h, e, m)

module _ (formats : Formats) where
  -- The chunk is not dropped as an empty one.
  abbrev pub NotBlank : ParsedChunk → Type 0
  NotBlank c = (formats.py.strip c.content == "") ≡ false

  document_chunks-Earlier :
      (k : ℕ) (cs : List ParsedChunk)
      → All NotBlank cs
      → Attached none 0 k cs
      → Earlier k (document_chunks formats cs)
  unfolding document_chunks Attached from_parsed
  document_chunks-Earlier k [] b a = tt
  document_chunks-Earlier k (c ∷ cs) b a = rw b.0 (
    (λ i e. parent_or_root-lt c.parent_index k i (λ j h. Placed-lt k j c a.0 h) e),
    document_chunks-Earlier (suc k) cs b.1 a.1,
  )

  -- The chunks of a document without blank ones have a uri each, all different, and the uri of a
  -- chunk's parent is always found: it is the root's, or the uri of an earlier chunk.
  pub document_chunks-Rooted :
      (lib : Library) (config : ParserConfig) (extracts : Bool) (source : String)
      (source_path : Option String) (root_uri : String)
      → All NotBlank (parse_content lib config extracts source source_path)
      → let cs = document_chunks formats (parse_content lib config extracts source source_path) in
        let uris = chunk_uris formats root_uri cs in
        (length uris ≡ length cs) × NoRepeats uris × Rooted root_uri uris 0 cs
  document_chunks-Rooted lib config extracts source source_path root_uri b =
      let parsed = parse_content lib config extracts source source_path in
      let cs = document_chunks formats parsed in
      let uris = chunk_uris formats root_uri cs in
      let u = chunk_uris-NoRepeats formats root_uri cs in
      let e =
        document_chunks-Earlier 0 parsed b
          (parse_content-Attached lib config extracts source source_path) in
      (u.0, u.1, Earlier-Rooted root_uri uris 0 cs (omega (arith, u.0)) e)
