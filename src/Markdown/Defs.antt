-- ===== src/Markdown/Defs.antt =====
-- Headings, sections and chunks, and what the parser uses of Python.
use Prim.Native.Char.{code}
use Prim.Native.String.{count}
use open_cortex.Base.{
  ℕ, suc, ◌-◌, String, Bool, not, ◌&&◌, Option, List, ◌++◌, map, ◌==◌, string_eq, nat_eq, leb, ltb,
}
use open_cortex.Base.Lists.{filter, any}
use open_cortex.Base.Chars.{slice_chars, count_where}
use open_cortex.Base.Json.{Meta, Python}

-- A parent is the index of a chunk; `none` is -1.
pub record ParsedChunk : Type 0 where
  pub content : String
  pub title : String
  pub level : ℕ
  pub parent_index : Option ℕ
  pub source_format : String
  pub meta : Meta

-- The maximum of a section is positive: it is one more than `less_one`.
pub record ParserConfig : Type 0 where
  pub less_one : ℕ
  pub min_section_tokens : ℕ

abbrev pub max_section_size : ParserConfig → ℕ
max_section_size config = suc config.less_one

pub record Heading : Type 0 where
  pub start : ℕ
  pub stop : ℕ
  pub title : String
  pub level : ℕ

-- An index into the list of headings: the heading at it, and the headings after it.
pub record Place : Type 0 where
  pub heading : Heading
  pub later : List Heading

-- A section, once its heading is looked up.
pub record Section : Type 0 where
  pub name : String
  pub content : String
  pub tokens : ℕ
  pub has_children : Bool
  pub direct_content : String
  pub child_indices : List Place
  pub level : ℕ
  pub section_path : String

-- An entry of a list of sections: a section, or a heading that is looked up later.
pub data Entry : Type 0 where
  given : Section → Entry
  heading_idx : Place → Entry

-- The library: the regular expressions, as the matches they find in a text, the rounding of an
-- estimate from floating point, and the stem of a path.
pub record Library : Type 0 where
  pub py : Python
  -- `int(cjk * 0.7 + other * 0.3)`
  pub weigh : ℕ → ℕ → ℕ
  pub code_blocks : String → List (ℕ × ℕ)
  pub html_comments : String → List (ℕ × ℕ)
  pub indented_code : String → List (ℕ × ℕ)
  -- start, end, `len(group(1))` and `group(2)`
  pub heading_matches : String → List (ℕ × (ℕ × (ℕ × String)))
  -- `group(1)` and the end
  pub frontmatter_match : String → Option (String × ℕ)
  -- `Path(source_path).stem`
  pub stem : String → String

module _ (lib : Library) where
  unfoldable pub estimate_tokens : String → ℕ
  unfolding count_where
  estimate_tokens text =
      let cjk = count_where (λ c. leb 19968 (code c) && leb (code c) 40959) text in
      lib.weigh cjk (count text - cjk)

  -- `start <= pos < end`
  abbrev pub in_range : ℕ → ℕ × ℕ → Bool
  in_range pos (start, end) = leb start pos && ltb pos end

  -- A match that is a heading: not in an excluded range, and not after a backslash.
  unfoldable pub is_heading : String → List (ℕ × ℕ) → ℕ → Bool
  unfolding slice_chars
  is_heading content excluded_ranges pos =
      not (any (in_range pos) excluded_ranges)
      && not (ltb 0 pos && slice_chars content (pos - 1) pos == "\\")

  abbrev pub heading_of : ℕ × (ℕ × (ℕ × String)) → Heading
  heading_of (start, (stop, (level, title))) = record {
    start = start;
    stop = stop;
    title = lib.py.strip title;
    level = level;
  }

  unfoldable pub find_headings : String → List Heading
  unfolding is_heading
  find_headings content =
      let excluded_ranges =
        lib.code_blocks content ++ lib.html_comments content ++ lib.indented_code content in
      map heading_of
        (filter (λ h. is_heading content excluded_ranges h.0) (lib.heading_matches content))
