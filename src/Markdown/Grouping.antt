-- ===== src/Markdown/Grouping.antt =====
-- The loop over the sections as groups: no section is lost, and what is merged stays small.
use mathlib.Core.List.{append_assoc, append-nil}
use open_cortex.Base.{
  if_case, ℕ, ◌+◌, ◌≤◌, ◌<◌, ◌≡◌, refl, sym, ap, ◌∙◌, not, ◌&&◌, Option, List, [], ◌∷◌, ◌++◌,
  if◌then◌else◌, ltb, arith,
}
use open_cortex.Base.Lists.{All, All-append}
use open_cortex.Markdown.Defs.{ParsedChunk, Section, Library}
use open_cortex.Markdown.Sections.{is_empty}
use open_cortex.Markdown.Chunks.{
  can_merge, sum_tokens, flush_pending, try_add_to_pending, section_step, merge_sections,
}

-- Sections that are merged into a chunk, the first apart, or one that is saved by itself.
pub data Group : Type 0 where
  together : Section → List Section → Group
  alone : Section → Group

abbrev pub members : List Group → List Section
members [] = []
members (together s ss ∷ gs) = (s ∷ ss) ++ members gs
members (alone s ∷ gs) = s ∷ members gs

-- What is merged is within the maximum, and what is saved by itself is not small.
abbrev pub Fits : ℕ → ℕ → Group → Type 0
Fits max_size min_size (together s ss) = sum_tokens (s ∷ ss) ≤ max_size
Fits max_size min_size (alone s) = min_size ≤ s.tokens

members-append : (gs hs : List Group) → members (gs ++ hs) ≡ members gs ++ members hs
members-append [] hs = refl
members-append (together s ss ∷ gs) hs =
    ap (λ t. s ∷ ss ++ t) (members-append gs hs)
    ∙ sym (append_assoc (s ∷ ss) (members gs) (members hs))
members-append (alone s ∷ gs) hs = ap (λ t. s ∷ t) (members-append gs hs)

-- The sections that wait, as a group, if there are any.
abbrev group_of : List Section → List Group
group_of [] = []
group_of (s ∷ ss) = together s ss ∷ []

members-group_of : (ss : List Section) → members (group_of ss) ≡ ss
members-group_of [] = refl
members-group_of (s ∷ ss) = append-nil (s ∷ ss)

sum_tokens-append :
    (ss : List Section) (s : Section) → sum_tokens (ss ++ s ∷ []) ≡ sum_tokens ss + s.tokens
unfolding sum_tokens
sum_tokens-append [] s = omega arith
sum_tokens-append (x ∷ ss) s = omega (arith, sum_tokens-append ss s)

module _ (lib : Library) (save : Section → List ParsedChunk → List ParsedChunk)
    (max_size min_size : ℕ) (parent_index : Option ℕ) where
  -- The chunks of the groups, in their order.
  abbrev pub put : List Group → List ParsedChunk → List ParsedChunk
  put [] chunks = chunks
  put (together s ss ∷ gs) chunks = put gs (flush_pending lib (s ∷ ss) parent_index chunks)
  put (alone s ∷ gs) chunks = put gs (save s chunks)

  put-append :
      (gs hs : List Group) (chunks : List ParsedChunk)
      → put (gs ++ hs) chunks ≡ put hs (put gs chunks)
  put-append [] hs chunks = refl
  put-append (together s ss ∷ gs) hs chunks =
      put-append gs hs (flush_pending lib (s ∷ ss) parent_index chunks)
  put-append (alone s ∷ gs) hs chunks = put-append gs hs (save s chunks)

  put-group_of :
      (ss : List Section) (chunks : List ParsedChunk)
      → put (group_of ss) chunks ≡ flush_pending lib ss parent_index chunks
  unfolding flush_pending
  put-group_of [] chunks = refl
  put-group_of (s ∷ ss) chunks = refl

  group_of-Fits :
      (ss : List Section) → sum_tokens ss ≤ max_size → All (Fits max_size min_size) (group_of ss)
  group_of-Fits [] l = tt
  group_of-Fits (s ∷ ss) l = (l, tt)

  -- A step of the loop puts some groups, and leaves sections that wait.
  record Stepped (before : List Section) (chunks : List ParsedChunk)
      (state : List Section × List ParsedChunk) : Type 0 where
    groups : List Group
    puts : state.1 ≡ put groups chunks
    keeps : members groups ++ state.0 ≡ before
    fits : All (Fits max_size min_size) groups
    small : sum_tokens state.0 ≤ max_size

  module _ (min_max : min_size ≤ max_size) (sec : Section) (pending : List Section)
      (chunks : List ParsedChunk) (l : sum_tokens pending ≤ max_size) where
    flushed_before : List ParsedChunk
    flushed_before = flush_pending lib pending parent_index chunks

    Flushed-Stepped :
        sec.tokens < min_size → Stepped (pending ++ sec ∷ []) chunks (sec ∷ [], flushed_before)
    unfolding flushed_before sum_tokens
    Flushed-Stepped h = record {
      groups = group_of pending;
      puts = sym (put-group_of pending chunks);
      keeps = ap (λ t. t ++ sec ∷ []) (members-group_of pending);
      fits = group_of-Fits pending l;
      small = omega (arith, h, min_max);
    }

    Waiting-Stepped :
        sum_tokens pending + sec.tokens ≤ max_size
        → Stepped (pending ++ sec ∷ []) chunks (pending ++ sec ∷ [], chunks)
    Waiting-Stepped h = record {
      groups = [];
      puts = refl;
      keeps = refl;
      fits = tt;
      small = omega (arith, h, sum_tokens-append pending sec);
    }

    Merged-Stepped :
        sum_tokens pending + sec.tokens ≤ max_size
        → Stepped
            (pending ++ sec ∷ [])
            chunks
            ([], flush_pending lib (pending ++ sec ∷ []) parent_index chunks)
    unfolding sum_tokens
    Merged-Stepped h = record {
      groups = group_of (pending ++ sec ∷ []);
      puts = sym (put-group_of (pending ++ sec ∷ []) chunks);
      keeps = append-nil _ ∙ members-group_of (pending ++ sec ∷ []);
      fits = group_of-Fits (pending ++ sec ∷ []) (omega (arith, h, sum_tokens-append pending sec));
      small = omega arith;
    }

    Alone-Stepped :
        min_size ≤ sec.tokens → Stepped (pending ++ sec ∷ []) chunks ([], save sec flushed_before)
    unfolding flushed_before sum_tokens
    Alone-Stepped h = record {
      groups = group_of pending ++ alone sec ∷ [];
      puts = sym (
          put-append (group_of pending) (alone sec ∷ []) chunks
          ∙ ap (save sec) (put-group_of pending chunks));
      keeps =
          append-nil _
          ∙ members-append (group_of pending) (alone sec ∷ [])
          ∙ ap (λ t. t ++ sec ∷ []) (members-group_of pending);
      fits =
          All-append (Fits max_size min_size) (group_of pending) (alone sec ∷ [])
            (group_of-Fits pending l) (h, tt);
      small = omega arith;
    }

    step-Stepped :
        Stepped
          (pending ++ sec ∷ [])
          chunks
          (section_step lib save max_size min_size parent_index sec (pending, chunks))
    unfolding section_step try_add_to_pending flushed_before
    step-Stepped =
        let P : List Section × List ParsedChunk → Type 0 = Stepped (pending ++ sec ∷ []) chunks in
        let merged = flush_pending lib (pending ++ sec ∷ []) parent_index chunks in
        let merges =
          not (is_empty pending) && can_merge pending sec.tokens max_size sec.has_children in
        let overflows = ltb max_size (sum_tokens pending + sec.tokens) in
        if_case P (ltb sec.tokens min_size)
          (if overflows then (sec ∷ [], flushed_before) else (pending ++ sec ∷ [], chunks))
          (if merges then ([], merged) else ([], save sec flushed_before))
          (λ s.
            if_case P overflows (sec ∷ [], flushed_before) (pending ++ sec ∷ [], chunks)
              (λ e. Flushed-Stepped (ground (arith, s))) (λ e. Waiting-Stepped (ground (arith, e))))
          (λ s.
            if_case P merges ([], merged) ([], save sec flushed_before)
              (λ e. Merged-Stepped (ground (arith, e))) (λ e. Alone-Stepped (ground (arith, s))))

  -- The loop puts groups of the sections, in order and each in one group: sections that are merged
  -- have no more tokens together than the maximum, and one that is saved by itself is not small.
  pub merge_sections-Fits :
      (secs pending : List Section) (chunks : List ParsedChunk)
      → min_size ≤ max_size
      → sum_tokens pending ≤ max_size
      → (groups : List Group) × (members groups ≡ pending ++ secs)
        × All (Fits max_size min_size) groups
        × (merge_sections lib save max_size min_size parent_index secs (pending, chunks)
            ≡ put groups chunks)
  unfolding merge_sections
  merge_sections-Fits [] pending chunks m l = (
    group_of pending,
    members-group_of pending ∙ sym (append-nil pending),
    group_of-Fits pending l,
    sym (put-group_of pending chunks),
  )
  merge_sections-Fits (sec ∷ secs) pending chunks m l =
      let state = section_step lib save max_size min_size parent_index sec (pending, chunks) in
      let first = step-Stepped m sec pending chunks l in
      let rest = merge_sections-Fits secs state.0 state.1 m first.small in
      (
        first.groups ++ rest.0,
        members-append first.groups rest.0
            ∙ ap (λ t. members first.groups ++ t) rest.1
            ∙ sym (append_assoc (members first.groups) state.0 secs)
            ∙ ap (λ t. t ++ secs) first.keeps
            ∙ append_assoc pending (sec ∷ []) secs,
        All-append (Fits max_size min_size) first.groups rest.0 first.fits rest.2,
        rest.3 ∙ ap (put rest.0) first.puts ∙ sym (put-append first.groups rest.0 chunks),
      )
