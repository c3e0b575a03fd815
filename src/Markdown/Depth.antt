-- ===== src/Markdown/Depth.antt =====
-- Seven calls within each other are enough for headings of six levels.
use open_cortex.Base.{
  if_both, ℕ, zero, suc, ◌+◌, ◌-◌, ◌≤◌, ◌<◌, ◌≡◌, refl, sym, ap, ◌∙◌, String, Bool, true, false,
  not, Option, none, some, List, [], ◌∷◌, ◌++◌, map, if◌then◌else◌, ◌==◌, string_eq, nat_eq, leb,
  ltb, arith,
}
use open_cortex.Base.Json.{Meta}
use open_cortex.Markdown.Parse.{chunks_of, deepest}
use open_cortex.Base.Chars.{slice_chars}
use open_cortex.Base.Lists.{All, length}
use open_cortex.Markdown.Defs.{
  ParsedChunk, ParserConfig, max_section_size, Heading, Section, Entry, given, heading_idx, Library,
}
use open_cortex.Markdown.Sections.{
  is_empty, children_at, get_section_info, places_at, min_level, preamble, build_top_level_sections,
}
use open_cortex.Markdown.Split.{smart_split_content}
use open_cortex.Markdown.Chunks.{
  chunk, path_meta, flush_pending, section_step, merge_sections, part_chunks, save_section_chunk,
  process_sections_to_chunks, expand, children, direct_section,
}

-- As the pattern `#{1,6}` finds it.
abbrev pub Shallow : Heading → Type 0
Shallow h = h.level ≤ 6

-- An entry at this level or below, all of whose headings are shallow.
unfoldable pub Deep : ℕ → Entry → Type 0
Deep l (given s) = s.has_children ≡ false
Deep l (heading_idx p) = (l ≤ p.heading.level) × Shallow p.heading × All Shallow p.later

children-Deep :
    (m above : ℕ) (hs : List Heading)
    → All Shallow hs
    → All (Deep m) (map heading_idx (children_at m above hs))
unfolding children_at Deep
children-Deep m above [] a = tt
children-Deep m above (h ∷ hs) a = ground (arith, a, children-Deep m above hs a.1)

children-Shallow :
    (m above : ℕ) (hs : List Heading)
    → All Shallow hs
    → not (is_empty (children_at m above hs)) ≡ true
    → m ≤ 6
unfolding children_at
children-Shallow m above [] a e = ground (arith, e)
children-Shallow m above (h ∷ hs) a e = ground (arith, a, e, children-Shallow m above hs a.1)

module _ (lib : Library) (content : String) (config : ParserConfig) where
  children_of_section :
      (l : ℕ) (path : String) (e : Entry)
      → Deep l e
      → (expand lib content config path e).has_children ≡ true
      → let sec = expand lib content config path e in
        (l ≤ sec.level)
        × (sec.level < 6)
        × All (Deep (sec.level + 1)) (children lib content config sec)
  unfolding expand Deep get_section_info
  children_of_section l path (given s) d h = ground (arith, d, h)
  children_of_section l path (heading_idx p) d h =
      let m = p.heading.level + 1 in
      let sec = expand lib content config path (heading_idx p) in
      let own = map heading_idx (children_at m p.heading.level p.later) in
      (
        d.0,
        omega (arith, children-Shallow m p.heading.level p.later d.2 h),
        if_both (λ es. All (Deep m) (es ++ own)) (sec.direct_content == "") []
            (given (direct_section lib content config sec) ∷ [])
            (children-Deep m p.heading.level p.later d.2)
            (refl, children-Deep m p.heading.level p.later d.2),
      )

  if_ap :
      {A : Type 0} (b : Bool) (x y z : A)
      → (b ≡ true → y ≡ z)
      → (if b then y else x) ≡ (if b then z else x)
  if_ap true x y z h = h refl
  if_ap false x y z h = refl

  -- Two ways to process the entries below a section make no difference where it has none.
  save-children :
      (below other : List Entry → Option ℕ → String → List ParsedChunk → List ParsedChunk)
      (p : Option ℕ) (sec : Section) (cs : List ParsedChunk)
      → (sec.has_children ≡ true
          → (q : Option ℕ) (path : String) (ds : List ParsedChunk)
          → below (children lib content config sec) q path ds
            ≡ other (children lib content config sec) q path ds)
      → save_section_chunk lib content config below p sec cs
        ≡ save_section_chunk lib content config other p sec cs
  unfolding save_section_chunk
  save-children below other p sec cs h =
      let meta = path_meta sec.section_path in
      let maximum = max_section_size config in
      let parts = smart_split_content lib maximum sec.content in
      let dir =
        chunk (if sec.direct_content == "" then sec.name else sec.direct_content) sec.name sec.level
          p meta in
      let whole = cs ++ chunk sec.content sec.name sec.level p meta ∷ [] in
      let cut = cs ++ part_chunks lib sec.name (ltb 1 (length parts)) sec.level p meta 1 parts in
      let entries = children lib content config sec in
      let first = below entries (some (length cs)) sec.section_path (cs ++ dir ∷ []) in
      let second = other entries (some (length cs)) sec.section_path (cs ++ dir ∷ []) in
      ap (λ t. if leb sec.tokens maximum then whole else t)
        (if_ap sec.has_children cut first second
          (λ e. h e (some (length cs)) sec.section_path (cs ++ dir ∷ [])))

  step-save :
      (save other : Section → List ParsedChunk → List ParsedChunk) (max_size min_size : ℕ)
      (p : Option ℕ) (sec : Section) (state : List Section × List ParsedChunk)
      → ((cs : List ParsedChunk) → save sec cs ≡ other sec cs)
      → section_step lib save max_size min_size p sec state
        ≡ section_step lib other max_size min_size p sec state
  unfolding section_step
  step-save save other max_size min_size p sec (pending, chunks) h =
      rw (h (flush_pending lib pending p chunks)) refl

  merge_sections-save :
      (save other : Section → List ParsedChunk → List ParsedChunk) (max_size min_size : ℕ)
      (p : Option ℕ) (secs : List Section) (state : List Section × List ParsedChunk)
      → All (λ sec. (cs : List ParsedChunk) → save sec cs ≡ other sec cs) secs
      → merge_sections lib save max_size min_size p secs state
        ≡ merge_sections lib other max_size min_size p secs state
  unfolding merge_sections
  merge_sections-save save other max_size min_size p [] state a = refl
  merge_sections-save save other max_size min_size p (sec ∷ secs) state a =
      ap (merge_sections lib save max_size min_size p secs)
        (step-save save other max_size min_size p sec state a.0)
      ∙ merge_sections-save save other max_size min_size p secs
          (section_step lib other max_size min_size p sec state) a.1

  -- With this fuel one call more makes no difference for entries at this level.
  Enough : ℕ → ℕ → Type 0
  Enough fuel l =
      (entries : List Entry) (p : Option ℕ) (path : String) (chunks : List ParsedChunk)
      → All (Deep l) entries
      → process_sections_to_chunks lib content config fuel entries p path chunks
        ≡ process_sections_to_chunks lib content config (suc fuel) entries p path chunks

  saves :
      (fuel l : ℕ) (p : Option ℕ) (path : String) (entries : List Entry)
      → ((m : ℕ) → l < m → m ≤ 6 → Enough fuel m)
      → All (Deep l) entries
      → All
          (λ sec.
            (cs : List ParsedChunk)
            → save_section_chunk lib content config
                (process_sections_to_chunks lib content config fuel)
                p
                sec
                cs
              ≡ save_section_chunk lib content config
                  (process_sections_to_chunks lib content config (suc fuel))
                  p
                  sec
                  cs)
          (map (expand lib content config path) entries)
  unfolding Enough
  saves fuel l p path [] e a = tt
  saves fuel l p path (x ∷ xs) e a = (
    (λ cs.
        let sec = expand lib content config path x in
        save-children (process_sections_to_chunks lib content config fuel)
          (process_sections_to_chunks lib content config (suc fuel)) p sec cs
          (λ h q t ds.
            let d = children_of_section l path x a.0 h in
            e (sec.level + 1) (omega (arith, d.0)) (omega (arith, d.1))
              (children lib content config sec) q t ds d.2)),
    saves fuel l p path xs e a.1,
  )

  fuel-Enough : (fuel l : ℕ) → 7 ≤ l + suc fuel → Enough (suc fuel) l
  unfolding Enough process_sections_to_chunks
  fuel-Enough zero l le entries p path chunks a =
      merge_sections-save _ _ _ _ p _ _
        (saves zero l p path entries (λ m s t. absurd (omega (arith, le, s, t))) a)
  fuel-Enough (suc n) l le entries p path chunks a =
      merge_sections-save _ _ _ _ p _ _
        (saves (suc n) l p path entries (λ m s t. fuel-Enough n m (omega (arith, le, s))) a)

  seven_and_more :
      (k : ℕ) (entries : List Entry) (p : Option ℕ) (path : String) (chunks : List ParsedChunk)
      → All (Deep 0) entries
      → process_sections_to_chunks lib content config (suc (k + 6)) entries p path chunks
        ≡ process_sections_to_chunks lib content config 7 entries p path chunks
  unfolding Enough
  seven_and_more zero entries p path chunks a = refl
  seven_and_more (suc k) entries p path chunks a =
      let e : suc k + 6 ≡ suc (k + 6) = omega arith in
      ap (λ n. process_sections_to_chunks lib content config (suc n) entries p path chunks) e
      ∙ sym (fuel-Enough (k + 6) 0 (omega arith) entries p path chunks a)
      ∙ seven_and_more k entries p path chunks a

  more-fuel :
      (n : ℕ) (entries : List Entry) (p : Option ℕ) (path : String) (chunks : List ParsedChunk)
      → 7 ≤ n
      → All (Deep 0) entries
      → process_sections_to_chunks lib content config n entries p path chunks
        ≡ process_sections_to_chunks lib content config 7 entries p path chunks
  more-fuel n entries p path chunks l a =
      let e : n ≡ suc ((n - 7) + 6) = omega (arith, l) in
      ap (λ n. process_sections_to_chunks lib content config n entries p path chunks) e
      ∙ seven_and_more (n - 7) entries p path chunks a

  places-Deep :
      (m : ℕ) (hs : List Heading) → All Shallow hs → All (Deep 0) (map heading_idx (places_at m hs))
  unfolding places_at Deep
  places-Deep m [] a = tt
  places-Deep m (h ∷ hs) a = ground (arith, a, places-Deep m hs a.1)

  entries-Deep :
      (h : Heading) (hs : List Heading)
      → All Shallow (h ∷ hs)
      → All (Deep 0) (build_top_level_sections lib content h hs)
  unfolding build_top_level_sections Deep
  entries-Deep h hs a =
      let top = map heading_idx (places_at (min_level h hs) (h ∷ hs)) in
      let deep = places-Deep (min_level h hs) (h ∷ hs) a in
      let pre = lib.py.strip (slice_chars content 0 h.start) in
      let with_pre : List Entry = given (preamble lib content pre) ∷ top in
      if_both (All (Deep 0)) (ltb 0 h.start) (if pre == "" then top else with_pre) top
        (if_both (All (Deep 0)) (pre == "") top with_pre deep (refl, deep)) deep

  document :
      (title : String) (meta : Meta) (h : Heading) (hs : List Heading)
      → chunks_of lib config content title meta (h ∷ hs)
        ≡ process_sections_to_chunks lib content config 7
            (build_top_level_sections lib content h hs)
            none
            ""
            []
  unfolding chunks_of
  document title meta h hs = refl

  -- The chunks of a document whose headings have at most six levels are those of any greater fuel.
  pub chunks_of-deepest :
      (n : ℕ) (title : String) (meta : Meta) (h : Heading) (hs : List Heading)
      → deepest ≤ n
      → All Shallow (h ∷ hs)
      → chunks_of lib config content title meta (h ∷ hs)
        ≡ process_sections_to_chunks lib content config n
            (build_top_level_sections lib content h hs)
            none
            ""
            []
  chunks_of-deepest n title meta h hs l a =
      document title meta h hs
      ∙ sym (
          more-fuel n (build_top_level_sections lib content h hs) none "" [] l
            (entries-Deep h hs a))
