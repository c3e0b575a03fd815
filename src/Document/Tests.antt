-- ===== src/Document/Tests.antt =====
-- A document of three headings as a tree below a root.
use open_cortex.Base.{◌+◌, ◌≡◌, refl, String, true, none, List, [], ◌∷◌, map, string_eq}
use open_cortex.Base.Lists.{length}
use open_cortex.Base.Sets.{NoRepeats}
use open_cortex.Base.Plain.{plain}
use open_cortex.Markdown.{Library, ParserConfig, parse_content}
use open_cortex.Document.Defs.{
  Formats, DocumentChunk, document_chunks, chunk_uris, normalize_format,
}
use open_cortex.Document.Rooting.{Rooted, document_chunks-Rooted}

abbrev formats : Formats
formats = record {
  py = plain;
  rstrip_slashes = λ t. t;
  four_digits = λ n. "0001";
  suffix = λ t. "";
  lstrip_dots = λ t. t;
}

abbrev text : String
text = "# A\nx\n## B\ny\n# C\nz"

-- An estimate that counts characters, and the matches of this text.
abbrev library : Library
library = record {
  py = plain;
  weigh = λ cjk rest. cjk + rest;
  code_blocks = λ t. [];
  html_comments = λ t. [];
  indented_code = λ t. [];
  heading_matches = λ t. (0, (3, (1, "A"))) ∷ (6, (10, (2, "B"))) ∷ (13, (16, (1, "C"))) ∷ [];
  frontmatter_match = λ t. none;
  stem = λ t. t;
}

abbrev config : ParserConfig
config = record { less_one = 9; min_section_tokens = 4 }

abbrev document : List DocumentChunk
document = document_chunks formats (parse_content library config true text none)

-- The parser gives the second and the third chunk the first one as their parent, and the
-- conversion takes it away.
parents_lost : map (λ c. c.parent_index) document ≡ none ∷ none ∷ none ∷ none ∷ []
unfolding document_chunks parse_content
parents_lost = refl

format_run : normalize_format formats "text/plain" "" ≡ "text"
unfolding normalize_format
format_run = refl

document_chunks-Rooted_example :
    let uris = chunk_uris formats "opencortex://acme/doc" document in
    (length uris ≡ length document)
    × NoRepeats uris
    × Rooted "opencortex://acme/doc" uris 0 document
unfolding parse_content
document_chunks-Rooted_example =
    document_chunks-Rooted formats library config true text none "opencortex://acme/doc"
      (refl, (refl, (refl, (refl, tt))))
