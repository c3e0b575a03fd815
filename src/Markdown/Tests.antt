-- ===== src/Markdown/Tests.antt =====
-- A document of three headings, and the theorems at it.
use Prim.Native.String.{count}
use open_cortex.Base.{
  ◌+◌, ◌≤◌, ◌≡◌, refl, String, true, none, some, List, [], ◌∷◌, ◌++◌, map, arith,
}
use open_cortex.Base.Lists.{All, length}
use open_cortex.Base.Plain.{plain}
use open_cortex.Markdown.Defs.{
  ParsedChunk, ParserConfig, Heading, Place, Section, given, heading_idx, Library, find_headings,
}
use open_cortex.Markdown.Sections.{places_at, min_level, get_section_info, build_top_level_sections}
use open_cortex.Markdown.Chunks.{merge_sections, process_sections_to_chunks, sum_tokens}
use open_cortex.Markdown.Parse.{chunks_of, parse_content}
use open_cortex.Markdown.Tiling.{Tiles, first_start, build_top_level_sections-Tiles}
use open_cortex.Markdown.Hierarchy.{Attached}
use open_cortex.Markdown.Trees.{parse_content-Attached}
use open_cortex.Markdown.Grouping.{Group, members, Fits, put, merge_sections-Fits}
use open_cortex.Markdown.Split.{smart_split_content, or_content}
use open_cortex.Markdown.Pieces.{Piece, together, paragraphs_of, IsSmall, parts_of, text_after}
use open_cortex.Markdown.Splitting.{last_part, smart_split_content-IsSmall}
use open_cortex.Markdown.Depth.{chunks_of-deepest}

abbrev text : String
text = "# A\nx\n## B\ny\n# C\nz"

-- An estimate that counts characters, and the matches of this text.
abbrev library : Library
library = record {
  py = plain;
  weigh = λ cjk rest. cjk + rest;
  code_blocks = λ t. [];
  html_comments = λ t. [];
  indented_code = λ t. [];
  heading_matches = λ t. (0, (3, (1, "A"))) ∷ (6, (10, (2, "B"))) ∷ (13, (16, (1, "C"))) ∷ [];
  frontmatter_match = λ t. none;
  stem = λ t. t;
}

abbrev config : ParserConfig
config = record { less_one = 9; min_section_tokens = 4 }

abbrev first : Heading
first = record { start = 0; stop = 3; title = "A"; level = 1 }

abbrev later : List Heading
later =
    record { start = 6; stop = 10; title = "B"; level = 2 }
    ∷ record { start = 13; stop = 16; title = "C"; level = 1 }
    ∷ []

headings_run : find_headings library text ≡ first ∷ later
unfolding find_headings
headings_run = refl

-- The first section is a chunk with two chunks below it.
parents_run :
    map (λ c. c.parent_index) (parse_content library config true text none)
    ≡ none ∷ some 0 ∷ some 0 ∷ none ∷ []
unfolding parse_content
parents_run = refl

parse_content-Attached_example : Attached none 0 0 (parse_content library config true text none)
parse_content-Attached_example = parse_content-Attached library config true text none

chunks_of-deepest_example :
    chunks_of library config text "Document" [] (first ∷ later)
    ≡ process_sections_to_chunks library text config 9
        (build_top_level_sections library text first later)
        none
        ""
        []
chunks_of-deepest_example =
    chunks_of-deepest library text config 9 "Document" [] first later (omega arith)
      (omega arith, (omega arith, (omega arith, tt)))

abbrev place : Place
place = record { heading = first; later = later }

build_top_level_sections-Tiles_example :
    (preamble : List Section) × (top : List Place) × (build_top_level_sections library text first
        later
      ≡ map given preamble ++ map heading_idx top)
    × (top ≡ places_at (min_level first later) (first ∷ later))
    × (length preamble ≤ 1)
    × Tiles (count text) top (first_start (count text) top) (count text)
build_top_level_sections-Tiles_example = build_top_level_sections-Tiles library text first later

abbrev sections : List Section
sections = map (get_section_info library text) (place ∷ place ∷ [])

abbrev save : Section → List ParsedChunk → List ParsedChunk
save s chunks = chunks

merge_sections-Fits_example :
    (groups : List Group) × (members groups ≡ [] ++ sections)
    × All (Fits 10 4) groups
    × (merge_sections library save 10 4 none sections ([], [])
        ≡ put library save 10 4 none groups [])
unfolding sum_tokens
merge_sections-Fits_example =
    merge_sections-Fits library save 10 4 none sections [] [] (omega arith) (omega arith)

abbrev long_text : String
long_text = "aaaaaaaaaabbbbbbbbbbccccccccccdddddddddd"

smart_split_content-IsSmall_example :
    (pieces : List Piece) × (opened : List String) × (paragraphs_of pieces ++ opened
      ≡ long_text ∷ [])
    × All (IsSmall library 10) pieces
    × IsSmall library 10 (together opened)
    × (smart_split_content library 10 long_text
        ≡ or_content library 10 long_text
            (parts_of library 10 pieces ++ last_part library 10 (text_after "" opened)))
smart_split_content-IsSmall_example =
    smart_split_content-IsSmall library 10 long_text refl (omega arith)
