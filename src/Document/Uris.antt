-- ===== src/Document/Uris.antt =====
-- The uris of the chunks.
use Prim.Native.String.{◌++◌ as ◌<>◌, count}
use text.Mathlib.TextLemmas.{length-append as count-append}
use open_cortex.Base.{
  ℕ, zero, suc, ◌+◌, ◌≤◌, ◌<◌, ◌≡◌, refl, ap, String, true, false, List, [], ◌∷◌, string_eq, eq_iff,
  arith,
}
use open_cortex.Base.Lists.{All, contains, length}
use open_cortex.Base.Sets.{add, NoRepeats, contains-add}
use open_cortex.Base.Json.{num}
use open_cortex.Document.Defs.{
  Formats, DocumentChunk, max_count, free_uri, next_uri, uris_loop, chunk_uris,
}

contains-count : (u : String) (xs : List String) → contains u xs ≡ true → count u ≤ max_count xs
unfolding max_count
contains-count u [] h = ground (arith, h)
contains-count u (x ∷ xs) h = ground (arith, h, eq_iff u x, eq_iff x u, contains-count u xs)

module _ (lib : Formats) where
  -- The loop over candidates ends on one that is not used.
  free_uri-contains :
      (fuel : ℕ) (used : List String) (candidate : String)
      → max_count used < count candidate + fuel
      → contains (free_uri lib fuel used candidate) used ≡ false
  unfolding free_uri
  free_uri-contains zero used candidate l = ground (arith, l, contains-count candidate used)
  free_uri-contains (suc fuel) used candidate l =
      let longer = candidate <> ("-" <> lib.py.show (num (length used + 1))) in
      let grows : count candidate < count longer = omega (
        arith,
        count-append candidate ("-" <> lib.py.show (num (length used + 1))),
        count-append "-" (lib.py.show (num (length used + 1))),
      ) in
      ground (arith, free_uri-contains fuel used longer (omega (arith, l, grows)))

  next_uri-contains :
      (root_uri : String) (used : List String) (index : ℕ) (c : DocumentChunk)
      → contains (next_uri lib root_uri used index c) used ≡ false
  unfolding next_uri
  next_uri-contains root_uri used index c =
      free_uri-contains (suc (max_count used)) used _ (omega arith)

  pub uris_loop-length :
      (root_uri : String) (used : List String) (index : ℕ) (chunks : List DocumentChunk)
      → length (uris_loop lib root_uri used index chunks) ≡ length chunks
  unfolding uris_loop
  uris_loop-length root_uri used index [] = refl
  uris_loop-length root_uri used index (c ∷ cs) =
      ap suc
        (uris_loop-length root_uri (add (next_uri lib root_uri used index c) used) (index + 1) cs)

  -- None of these is used.
  abbrev Fresh : List String → List String → Type 0
  Fresh used = All (λ u. contains u used ≡ false)

  Fresh-add :
      (x : String) (used us : List String)
      → Fresh (add x used) us
      → (contains x us ≡ false) × Fresh used us
  Fresh-add x used [] f = (refl, tt)
  Fresh-add x used (u ∷ us) f =
      let rest = Fresh-add x used us f.1 in
      (
        ground (arith, f.0, contains-add x u used, eq_iff x u, eq_iff u x, rest.0),
        (ground (arith, f.0, contains-add x u used), rest.1),
      )

  uris_loop-NoRepeats :
      (root_uri : String) (used : List String) (index : ℕ) (chunks : List DocumentChunk)
      → Fresh used (uris_loop lib root_uri used index chunks)
        × NoRepeats (uris_loop lib root_uri used index chunks)
  unfolding uris_loop
  uris_loop-NoRepeats root_uri used index [] = (tt, tt)
  uris_loop-NoRepeats root_uri used index (c ∷ cs) =
      let uri = next_uri lib root_uri used index c in
      let later = uris_loop lib root_uri (add uri used) (index + 1) cs in
      let rest = uris_loop-NoRepeats root_uri (add uri used) (index + 1) cs in
      let fresh = Fresh-add uri used later rest.0 in
      ((next_uri-contains root_uri used index c, fresh.1), (fresh.0, rest.1))

  -- Each chunk has a uri of its own; so the loop over candidates ends on one that is not used.
  pub chunk_uris-NoRepeats :
      (root_uri : String) (chunks : List DocumentChunk)
      → (length (chunk_uris lib root_uri chunks) ≡ length chunks)
        × NoRepeats (chunk_uris lib root_uri chunks)
  unfolding chunk_uris
  chunk_uris-NoRepeats root_uri chunks =
      (uris_loop-length root_uri [] 0 chunks, (uris_loop-NoRepeats root_uri [] 0 chunks).1)
