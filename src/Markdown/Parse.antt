-- ===== src/Markdown/Parse.antt =====
-- `parse_content`: the front matter, the headings, and one of three ways to cut a document.
use Prim.Native.String.{count, len, slice}
use text.Mathlib.Text.{find?}
use open_cortex.Base.{
  ℕ, ◌+◌, String, Bool, Option, none, some, List, [], ◌∷◌, if◌then◌else◌, leb, ltb, ◌==◌, string_eq,
}
use open_cortex.Base.Lists.{length}
use open_cortex.Base.Chars.{slice_chars}
use open_cortex.Base.Dict
use open_cortex.Base.Json.{str, obj, Meta, to_fields}
use open_cortex.Markdown.Defs.{
  ParsedChunk, ParserConfig, max_section_size, Heading, Library, estimate_tokens, find_headings,
}
use open_cortex.Markdown.Sections.{build_top_level_sections}
use open_cortex.Markdown.Split.{smart_split_content}
use open_cortex.Markdown.Chunks.{chunk, part_chunks, process_sections_to_chunks}

abbrev pub small_doc_threshold : ℕ
small_doc_threshold = 4000

-- Headings have at most six levels, so that seven calls within each other are enough.
abbrev pub deepest : ℕ
deepest = 7

-- What a document says of itself: its front matter, where there is one.
abbrev pub frontmatter_meta : Meta → Meta
frontmatter_meta [] = []
frontmatter_meta (e ∷ es) = ("frontmatter", obj (to_fields (e ∷ es))) ∷ []

module _ (lib : Library) where
  -- The entries of the front matter, line by line.
  unfoldable pub frontmatter_entries : List String → Meta → Meta
  unfolding Dict.set
  frontmatter_entries [] found = found
  frontmatter_entries (raw ∷ lines) found =
      let line = lib.py.strip raw in
      frontmatter_entries lines (elim (find? line ":") [
        | none ↦ found
        | some i ↦
            Dict.set (lib.py.strip (slice line 0 i))
              (str (lib.py.strip (slice line (i + 1) (len line)))) found
      ])

  -- The content without the front matter, and the front matter; empty where there is none.
  unfoldable pub extract_frontmatter : String → String × Meta
  unfolding frontmatter_entries slice_chars
  extract_frontmatter content = elim (lib.frontmatter_match content) [
    | none ↦ (content, [])
    | some m ↦
        (slice_chars content m.1 (count content), frontmatter_entries (lib.py.split m.0 "\n") [])
  ]

  -- `meta.get("frontmatter", {}).get("title", ...)`; all entries are texts.
  unfoldable pub doc_title : Meta → Option String → String
  doc_title frontmatter source_path = elim (Dict.get "title" frontmatter) [
    | some title ↦ lib.py.show title
    | none ↦ elim source_path [
      | none ↦ "Document"
      | some p ↦ if p == "" then "Document" else lib.stem p
    ]
  ]

  module _ (config : ParserConfig) where
    -- The chunks of a content with these headings.
    unfoldable pub chunks_of : String → String → Meta → List Heading → List ParsedChunk
    unfolding smart_split_content part_chunks process_sections_to_chunks build_top_level_sections
        estimate_tokens
    chunks_of content title meta [] =
        let parts = smart_split_content lib (max_section_size config) content in
        if leb (estimate_tokens lib content) small_doc_threshold
        then chunk content title 0 none meta ∷ []
        else part_chunks lib title (ltb 1 (length parts)) 0 none [] 1 parts
    chunks_of content title meta (h ∷ hs) =
        process_sections_to_chunks lib content config deepest
          (build_top_level_sections lib content h hs) none "" []

    unfoldable pub parse_content : Bool → String → Option String → List ParsedChunk
    unfolding extract_frontmatter doc_title find_headings chunks_of
    parse_content extracts source source_path =
        let split : String × Meta = if extracts then extract_frontmatter source else (source, []) in
        let frontmatter = split.1 in
        chunks_of split.0 (doc_title frontmatter source_path) (frontmatter_meta frontmatter)
          (find_headings lib split.0)
