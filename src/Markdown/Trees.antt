-- ===== src/Markdown/Trees.antt =====
-- `_process_sections_to_chunks` and `parse_content` attach every chunk to an earlier one.
use mathlib.Core.Path.{subst}
use open_cortex.Base.{
  if_both, ℕ, zero, suc, ◌+◌, ◌≡◌, refl, sym, String, Bool, not, ◌&&◌, Option, none, some, List, [],
  ◌∷◌, ◌++◌, map, if◌then◌else◌, ◌==◌, string_eq, nat_eq, leb, ltb,
}
use open_cortex.Base.Lists.{All, length}
use open_cortex.Base.Json.{Meta}
use open_cortex.Markdown.Defs.{
  ParsedChunk, ParserConfig, max_section_size, Heading, Section, Entry, Library, estimate_tokens,
  find_headings,
}
use open_cortex.Markdown.Sections.{is_empty, build_top_level_sections}
use open_cortex.Markdown.Split.{smart_split_content}
use open_cortex.Markdown.Chunks.{
  chunk, path_meta, can_merge, sum_tokens, merged_chunk, flush_pending, try_add_to_pending,
  section_step, merge_sections, part_chunks, save_section_chunk, process_sections_to_chunks, expand,
  children,
}
use open_cortex.Markdown.Parse.{
  chunks_of, parse_content, extract_frontmatter, doc_title, frontmatter_meta, small_doc_threshold,
  deepest,
}
use open_cortex.Markdown.Hierarchy.{Attached, Added, Added-nil, Added-All, Added-then, Added-below}

module _ (lib : Library) where
  part_chunks-parent :
      (name : String) (several : Bool) (level : ℕ) (p : Option ℕ) (meta : Meta) (i : ℕ)
      (parts : List String)
      → All (λ c. c.parent_index ≡ p) (part_chunks lib name several level p meta i parts)
  unfolding part_chunks
  part_chunks-parent name several level p meta i [] = tt
  part_chunks-parent name several level p meta i (part ∷ parts) =
      (refl, part_chunks-parent name several level p meta (suc i) parts)

  flush-Added :
      (pending : List Section) (p : Option ℕ) (chunks : List ParsedChunk)
      → Added p chunks (flush_pending lib pending p chunks)
  unfolding flush_pending merged_chunk
  flush-Added [] p chunks = Added-nil p chunks
  flush-Added (s ∷ ss) p chunks = Added-All p chunks (merged_chunk lib s ss p ∷ []) (refl, tt)

  module _ (p : Option ℕ) (max_size min_size : ℕ)
      (save : Section → List ParsedChunk → List ParsedChunk)
      (saved : (sec : Section) (chunks : List ParsedChunk) → Added p chunks (save sec chunks)) where
    step-Added :
        (sec : Section) (pending : List Section) (chunks : List ParsedChunk)
        → Added p chunks (section_step lib save max_size min_size p sec (pending, chunks)).1
    unfolding section_step try_add_to_pending
    step-Added sec pending chunks =
        let P : List Section × List ParsedChunk → Type 0 = λ r. Added p chunks r.1 in
        let flushed = flush_pending lib pending p chunks in
        let small : P (try_add_to_pending lib pending sec max_size chunks p) =
          if_both P (ltb max_size (sum_tokens pending + sec.tokens)) (sec ∷ [], flushed)
            (pending ++ sec ∷ [], chunks) (flush-Added pending p chunks) (Added-nil p chunks) in
        let merged = flush_pending lib (pending ++ sec ∷ []) p chunks in
        let merges =
          not (is_empty pending) && can_merge pending sec.tokens max_size sec.has_children in
        let alone =
          Added-then p chunks flushed (save sec flushed) (flush-Added pending p chunks)
            (saved sec flushed) in
        if_both P (ltb sec.tokens min_size) (try_add_to_pending lib pending sec max_size chunks p)
          (if merges then ([], merged) else ([], save sec flushed)) small
          (if_both P merges ([], merged) ([], save sec flushed)
            (flush-Added (pending ++ sec ∷ []) p chunks) alone)

    merge_sections-Added :
        (secs pending : List Section) (chunks : List ParsedChunk)
        → Added p chunks (merge_sections lib save max_size min_size p secs (pending, chunks))
    unfolding merge_sections
    merge_sections-Added [] pending chunks = flush-Added pending p chunks
    merge_sections-Added (sec ∷ secs) pending chunks =
        let r = section_step lib save max_size min_size p sec (pending, chunks) in
        Added-then p chunks r.1 (merge_sections lib save max_size min_size p secs r)
          (step-Added sec pending chunks) (merge_sections-Added secs r.0 r.1)

  module _ (content : String) (config : ParserConfig) where
    save-Added :
        (below : List Entry → Option ℕ → String → List ParsedChunk → List ParsedChunk)
        (p : Option ℕ)
        → ((entries : List Entry) (q : Option ℕ) (path : String) (cs : List ParsedChunk)
            → Added q cs (below entries q path cs))
        → (sec : Section) (chunks : List ParsedChunk)
        → Added p chunks (save_section_chunk lib content config below p sec chunks)
    unfolding save_section_chunk
    save-Added below p added sec chunks =
        let P = Added p chunks in
        let maximum = max_section_size config in
        let parts = smart_split_content lib maximum sec.content in
        let meta = path_meta sec.section_path in
        let dir =
          chunk (if sec.direct_content == "" then sec.name else sec.direct_content) sec.name
            sec.level p meta in
        let whole = chunks ++ chunk sec.content sec.name sec.level p meta ∷ [] in
        let tree =
          below (children lib content config sec) (some (length chunks)) sec.section_path
            (chunks ++ dir ∷ []) in
        let cut = part_chunks lib sec.name (ltb 1 (length parts)) sec.level p meta 1 parts in
        if_both P (leb sec.tokens maximum) whole (if sec.has_children then tree else chunks ++ cut)
          (Added-All p chunks (chunk sec.content sec.name sec.level p meta ∷ []) (refl, tt))
          (if_both P sec.has_children tree (chunks ++ cut)
            (Added-below p chunks tree dir refl (
              added (children lib content config sec) (some (length chunks)) sec.section_path
                (chunks ++ dir ∷ [])))
            (Added-All p chunks cut
              (part_chunks-parent sec.name (ltb 1 (length parts)) sec.level p meta 1 parts)))

    -- Every chunk that is added for these sections has the parent that is given, or a parent among
    -- the chunks added before it.
    pub process_sections_to_chunks-Added :
        (fuel : ℕ) (entries : List Entry) (p : Option ℕ) (parent_path : String)
        (chunks : List ParsedChunk)
        → Added p chunks
            (process_sections_to_chunks lib content config fuel entries p parent_path chunks)
    unfolding process_sections_to_chunks
    process_sections_to_chunks-Added zero entries p parent_path chunks = Added-nil p chunks
    process_sections_to_chunks-Added (suc fuel) entries p parent_path chunks =
        let below = process_sections_to_chunks lib content config fuel in
        merge_sections-Added p (max_section_size config) config.min_section_tokens
          (save_section_chunk lib content config below p)
          (save-Added below p (process_sections_to_chunks-Added fuel))
          (map (expand lib content config parent_path) entries) [] chunks

  Added-Attached : (r : List ParsedChunk) → Added none [] r → Attached none 0 0 r
  Added-Attached r a = subst (Attached none 0 0) (sym a.split) a.attached

  chunks_of-Added :
      (config : ParserConfig) (content title : String) (meta : Meta) (hs : List Heading)
      → Added none [] (chunks_of lib config content title meta hs)
  unfolding chunks_of
  chunks_of-Added config content title meta [] =
      let parts = smart_split_content lib (max_section_size config) content in
      let whole = chunk content title 0 none meta ∷ [] in
      let cut = part_chunks lib title (ltb 1 (length parts)) 0 none [] 1 parts in
      if_both (Added none []) (leb (estimate_tokens lib content) small_doc_threshold) whole cut
        (Added-All none [] whole (refl, tt))
        (Added-All none [] cut (part_chunks-parent title (ltb 1 (length parts)) 0 none [] 1 parts))
  chunks_of-Added config content title meta (h ∷ hs) =
      process_sections_to_chunks-Added content config deepest
        (build_top_level_sections lib content h hs) none "" []

  -- Every chunk of a document has no parent, or an earlier chunk as its parent.
  pub parse_content-Attached :
      (config : ParserConfig) (extracts : Bool) (source : String) (source_path : Option String)
      → Attached none 0 0 (parse_content lib config extracts source source_path)
  unfolding parse_content
  parse_content-Attached config extracts source source_path =
      let split : String × Meta =
        if extracts then extract_frontmatter lib source else (source, []) in
      Added-Attached (parse_content lib config extracts source source_path) (
        chunks_of-Added config split.0 (doc_title lib split.1 source_path)
          (frontmatter_meta split.1) (find_headings lib split.0))
