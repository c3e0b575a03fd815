-- ===== src/Markdown/Chunks.antt =====
-- `_process_sections_to_chunks`: small sections are merged, large ones are cut or descended into.
use Prim.Native.String.{◌++◌ as ◌<>◌}
use open_cortex.Base.{
  ℕ, zero, suc, ◌+◌, String, Bool, false, not, ◌&&◌, Option, some, List, [], ◌∷◌, ◌++◌, map,
  if◌then◌else◌, ◌==◌, string_eq, leb, ltb,
}
use open_cortex.Base.Lists.{length}
use open_cortex.Base.Json.{str, num, Meta, join}
use open_cortex.Markdown.Defs.{
  ParsedChunk, ParserConfig, max_section_size, Section, Entry, given, heading_idx, Library,
  estimate_tokens,
}
use open_cortex.Markdown.Sections.{get_section_info, is_empty}
use open_cortex.Markdown.Split.{smart_split_content}

-- `sum(s["tokens"] for s in sections)`
unfoldable pub sum_tokens : List Section → ℕ
sum_tokens [] = 0
sum_tokens (s ∷ ss) = s.tokens + sum_tokens ss

abbrev pub chunk : String → String → ℕ → Option ℕ → Meta → ParsedChunk
chunk content title level parent_index meta = record {
  content = content;
  title = title;
  level = level;
  parent_index = parent_index;
  source_format = "markdown";
  meta = meta;
}

abbrev pub path_meta : String → Meta
path_meta section_path = if section_path == "" then [] else ("section_path", str section_path) ∷ []

abbrev pub can_merge : List Section → ℕ → ℕ → Bool → Bool
can_merge pending tokens max_size has_children =
    leb (sum_tokens pending + tokens) max_size && not has_children

-- The path of a section below a path.
abbrev pub path_below : String → String → String
path_below parent_path name = if parent_path == "" then name else parent_path <> (" > " <> name)

module _ (lib : Library) where
  abbrev pub merged_title : String → List Section → String
  merged_title name [] = name
  merged_title name (s ∷ ss) = name <> (" (+" <> (lib.py.show (num (length (s ∷ ss))) <> " more)"))

  -- The chunk of merged sections, the first of them apart.
  unfoldable pub merged_chunk : Section → List Section → Option ℕ → ParsedChunk
  unfolding join
  merged_chunk first rest parent_index =
      chunk (join "\n\n" (map (λ s. s.content) (first ∷ rest))) (merged_title first.name rest)
        first.level parent_index (path_meta first.section_path)

  -- `_flush_pending`, and `_save_merged_chunks` of sections that are not none
  unfoldable pub flush_pending : List Section → Option ℕ → List ParsedChunk → List ParsedChunk
  unfolding merged_chunk
  flush_pending [] parent_index chunks = chunks
  flush_pending (s ∷ ss) parent_index chunks = chunks ++ merged_chunk s ss parent_index ∷ []

  -- `_try_add_to_pending`: the sections that wait, and the chunks.
  unfoldable pub try_add_to_pending :
      List Section → Section → ℕ → List ParsedChunk → Option ℕ → List Section × List ParsedChunk
  unfolding flush_pending sum_tokens
  try_add_to_pending pending sec max_size chunks parent_index =
      if ltb max_size (sum_tokens pending + sec.tokens)
      then (sec ∷ [], flush_pending pending parent_index chunks)
      else (pending ++ sec ∷ [], chunks)

  module _ (save : Section → List ParsedChunk → List ParsedChunk) (max_size min_size : ℕ)
      (parent_index : Option ℕ) where
    -- One section of the loop: the sections that wait, and the chunks; `save` is
    -- `_save_section_chunk`.
    unfoldable pub section_step :
        Section → List Section × List ParsedChunk → List Section × List ParsedChunk
    unfolding try_add_to_pending flush_pending sum_tokens
    section_step sec (pending, chunks) =
        if ltb sec.tokens min_size
        then try_add_to_pending pending sec max_size chunks parent_index
        else if not (is_empty pending) && can_merge pending sec.tokens max_size sec.has_children
        then ([], flush_pending (pending ++ sec ∷ []) parent_index chunks)
        else ([], save sec (flush_pending pending parent_index chunks))

    -- The loop, and the flush after it.
    unfoldable pub merge_sections :
        List Section → List Section × List ParsedChunk → List ParsedChunk
    unfolding section_step flush_pending
    merge_sections [] (pending, chunks) = flush_pending pending parent_index chunks
    merge_sections (sec ∷ secs) state = merge_sections secs (section_step sec state)

  -- The parts of a section that is cut by paragraphs; the first has this number.
  unfoldable pub part_chunks :
      String → Bool → ℕ → Option ℕ → Meta → ℕ → List String → List ParsedChunk
  part_chunks name several level parent_index meta i [] = []
  part_chunks name several level parent_index meta i (part ∷ parts) =
      chunk part (if several then name <> (" (part " <> (lib.py.show (num i) <> ")")) else name)
        level parent_index meta
      ∷ part_chunks name several level parent_index meta (suc i) parts

  module _ (content : String) (config : ParserConfig) where
    abbrev maximum : ℕ
    maximum = max_section_size config

    -- The section of an entry, with its path.
    unfoldable pub expand : String → Entry → Section
    unfolding get_section_info
    expand parent_path (given s) = record s { section_path = path_below parent_path s.name }
    expand parent_path (heading_idx place) =
        let s = get_section_info lib content place in
        record s { section_path = path_below parent_path s.name }

    -- What a section that is too large says before its children.
    abbrev pub direct_section : Section → Section
    direct_section sec = record {
      name = sec.name;
      content = sec.direct_content;
      tokens = estimate_tokens lib sec.direct_content;
      has_children = false;
      direct_content = "";
      child_indices = [];
      level = sec.level + 1;
      section_path = "";
    }

    -- The entries below such a section.
    abbrev pub children : Section → List Entry
    children sec =
        (if sec.direct_content == "" then [] else given (direct_section sec) ∷ [])
        ++ map heading_idx sec.child_indices

    -- `_save_section_chunk`; `below` processes the entries below a section.
    unfoldable pub save_section_chunk :
        (List Entry → Option ℕ → String → List ParsedChunk → List ParsedChunk)
        → Option ℕ
        → Section
        → List ParsedChunk
        → List ParsedChunk
    unfolding smart_split_content part_chunks
    save_section_chunk below parent_index sec chunks =
        let chunk_meta = path_meta sec.section_path in
        let parts = smart_split_content lib maximum sec.content in
        let dir_content = if sec.direct_content == "" then sec.name else sec.direct_content in
        if leb sec.tokens maximum
        then chunks ++ chunk sec.content sec.name sec.level parent_index chunk_meta ∷ []
        else if sec.has_children
        then below (children sec) (some (length chunks)) sec.section_path
            (chunks ++ chunk dir_content sec.name sec.level parent_index chunk_meta ∷ [])
        else chunks
          ++ part_chunks sec.name (ltb 1 (length parts)) sec.level parent_index chunk_meta 1 parts

    -- `_process_sections_to_chunks`, on fuel: a level of headings for each call within a call.
    unfoldable pub process_sections_to_chunks :
        ℕ → List Entry → Option ℕ → String → List ParsedChunk → List ParsedChunk
    unfolding merge_sections save_section_chunk expand
    process_sections_to_chunks zero entries parent_index parent_path chunks = chunks
    process_sections_to_chunks (suc fuel) entries parent_index parent_path chunks =
        merge_sections (save_section_chunk (process_sections_to_chunks fuel) parent_index) maximum
          config.min_section_tokens parent_index (map (expand parent_path) entries) ([], chunks)
