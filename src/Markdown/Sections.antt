-- ===== src/Markdown/Sections.antt =====
-- The sections of a document: where they end, and which headings are their children.
use Prim.Native.String.{◌++◌ as ◌<>◌, count}
use open_cortex.Base.{
  ℕ, zero, suc, ◌+◌, String, Bool, true, false, not, List, [], ◌∷◌, map, if◌then◌else◌, ◌==◌,
  string_eq, nat_eq, leb, ltb, min,
}
use open_cortex.Base.Chars.{slice_chars}
use open_cortex.Markdown.Defs.{
  Heading, Place, Section, Entry, given, heading_idx, Library, estimate_tokens,
}

-- Where the section of a heading of this level ends, given the headings after it and the end of
-- the text.
unfoldable pub section_end : ℕ → ℕ → List Heading → ℕ
section_end stop level [] = stop
section_end stop level (h ∷ hs) =
    let rest = section_end stop level hs in if leb h.level level then h.start else rest

-- The indices of the headings of a level, among the first of these headings that go deeper than
-- another level.
unfoldable pub children_at : ℕ → ℕ → List Heading → List Place
children_at level above [] = []
children_at level above (h ∷ hs) =
    let rest = children_at level above hs in
    let found = record { heading = h; later = hs } ∷ rest in
    if leb h.level above then [] else if h.level == level then found else rest

-- The indices of all headings of a level.
unfoldable pub places_at : ℕ → List Heading → List Place
places_at level [] = []
places_at level (h ∷ hs) =
    let rest = places_at level hs in
    if h.level == level then record { heading = h; later = hs } ∷ rest else rest

-- The start of the first child, or the end of the section.
abbrev pub direct_end : ℕ → List Place → ℕ
direct_end stop [] = stop
direct_end stop (p ∷ ps) = p.heading.start

-- `"#" * level`
unfoldable pub hashes : ℕ → String
hashes zero = ""
hashes (suc n) = "#" <> hashes n

abbrev pub is_empty : {A : Type 0} → List A → Bool
is_empty [] = true
is_empty (x ∷ xs) = false

-- `min(h[3] for h in headings)`, of headings that are not none.
unfoldable pub min_level : Heading → List Heading → ℕ
min_level h [] = h.level
min_level h (k ∷ hs) = min h.level (min_level k hs)

module _ (lib : Library) (content : String) where
  unfoldable pub get_section_info : Place → Section
  unfolding section_end children_at hashes slice_chars estimate_tokens
  get_section_info place =
      let h = place.heading in
      let stop = section_end (count content) h.level place.later in
      let child_indices = children_at (h.level + 1) h.level place.later in
      let title_line = hashes h.level <> (" " <> (h.title <> "\n\n")) in
      let full_content = title_line <> lib.py.strip (slice_chars content h.stop stop) in
      let direct_text = lib.py.strip (slice_chars content h.stop (direct_end stop child_indices)) in
      let has_children = not (is_empty child_indices) in
      record {
        name = h.title;
        content = full_content;
        tokens = estimate_tokens lib full_content;
        has_children = has_children;
        direct_content =
            if has_children
            then (if direct_text == "" then "" else title_line <> direct_text)
            else "";
        child_indices = child_indices;
        level = h.level;
        section_path = "";
      }

  -- What stands before the first heading.
  abbrev pub preamble : String → Section
  preamble pre_content = record {
    name = "preamble";
    content = pre_content;
    tokens = estimate_tokens lib pre_content;
    has_children = false;
    direct_content = "";
    child_indices = [];
    level = 0;
    section_path = "";
  }

  -- The sections of the least level, after what stands before the first heading.
  unfoldable pub build_top_level_sections : Heading → List Heading → List Entry
  unfolding min_level places_at slice_chars
  build_top_level_sections first rest =
      let pre_content = lib.py.strip (slice_chars content 0 first.start) in
      let top = map heading_idx (places_at (min_level first rest) (first ∷ rest)) in
      if ltb 0 first.start
      then (if pre_content == "" then top else given (preamble pre_content) ∷ top)
      else top
