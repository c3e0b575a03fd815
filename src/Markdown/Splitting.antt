-- ===== src/Markdown/Splitting.antt =====
-- `_smart_split_content` as pieces: no paragraph is lost, and the pieces stay small.
use Prim.Native.String.{count}
use mathlib.Core.Path.{subst}
use mathlib.Core.List.{append_assoc, append-nil}
use open_cortex.Base.{
  if_case, Bool-cases, inl, inr, ℕ, ◌+◌, ◌*◌, ◌≤◌, ◌<◌, ◌≡◌, refl, sym, ap, ◌∙◌, String, true,
  false, not, ◌&&◌, List, [], ◌∷◌, ◌++◌, map, if◌then◌else◌, ◌==◌, string_eq, eq_iff, ltb, arith,
}
use open_cortex.Base.Lists.{All, All-append}
use open_cortex.Markdown.Defs.{Library, estimate_tokens}
use open_cortex.Markdown.Split.{
  slices, flushed, joined, split_step, split_loop, smart_split_content, or_content,
}
use open_cortex.Markdown.Pieces.{
  Piece, together, cut, paragraphs_of, paragraphs_of-append, text_after, text_after-append,
  slices-IsSliced, total, total-append, IsSmall, parts_of, parts_of-append, joined-empty,
}

module _ (lib : Library) (max_size : ℕ) where
  -- The state of the loop after some paragraphs: pieces, and paragraphs that are open.
  pub record Split (before : List String) (state : List String × (String × ℕ)) : Type 0 where
    pub pieces : List Piece
    pub opened : List String
    pub keeps : paragraphs_of pieces ++ opened ≡ before
    pub parts : state.0 ≡ parts_of lib max_size pieces
    pub current : state.1.0 ≡ text_after "" opened
    pub tokens : state.1.1 ≡ total lib max_size opened
    pub small : total lib max_size opened ≤ max_size
    pub nothing : (text_after "" opened == "") ≡ true → total lib max_size opened ≡ 0
    pub smalls : All (IsSmall lib max_size) pieces

  module _ (zero_weigh : lib.weigh 0 0 ≡ 0) (positive : 0 < max_size) (para : String)
      (before parts : List String) (current : String) (tokens : ℕ)
      (s : Split before (parts, (current, tokens))) where
    empty_tokens : estimate_tokens lib "" ≡ 0
    unfolding estimate_tokens
    empty_tokens = zero_weigh

    sliced : List String
    sliced = map lib.py.strip (slices (count para) (max_size * 3) para)

    cut-Split :
        max_size < estimate_tokens lib para
        → Split (before ++ para ∷ []) (parts ++ flushed lib current ++ sliced, ("", 0))
    unfolding sliced total text_after
    cut-Split h =
        let added = together s.opened ∷ cut para ∷ [] in
        record {
          pieces = s.pieces ++ added;
          opened = [];
          keeps =
              append-nil _
              ∙ paragraphs_of-append s.pieces added
              ∙ sym (append_assoc (paragraphs_of s.pieces) s.opened (para ∷ []))
              ∙ ap (λ t. t ++ para ∷ []) s.keeps;
          parts =
              rw
                (s.parts, s.current, parts_of-append lib max_size s.pieces added, append-nil sliced)
                (append_assoc (parts_of lib max_size s.pieces)
                  (flushed lib (text_after "" s.opened)) sliced);
          current = refl;
          tokens = refl;
          small = omega arith;
          nothing = λ e. refl;
          smalls = All-append (IsSmall lib max_size) s.pieces added s.smalls (
            s.small,
            (
              (
                h,
                slices-IsSliced (count para) (max_size * 3) para (omega (arith, positive))
                    (omega arith),
              ),
              tt,
            ),
          );
        }

    flush-Split :
        (current == "") ≡ false
        → estimate_tokens lib para ≤ max_size
        → Split
            (before ++ para ∷ [])
            (parts ++ lib.py.strip current ∷ [], (para, estimate_tokens lib para))
    unfolding total text_after
    flush-Split h l =
        let added = together s.opened ∷ [] in
        record {
          pieces = s.pieces ++ added;
          opened = para ∷ [];
          keeps =
              ap (λ t. t ++ para ∷ [])
                (paragraphs_of-append s.pieces added
                  ∙ ap (λ t. paragraphs_of s.pieces ++ t) (append-nil s.opened)
                  ∙ s.keeps);
          parts =
              ap (λ t. parts ++ t) (sym (ap (λ b. if b then [] else lib.py.strip current ∷ []) h))
              ∙ ap (λ t. t ++ flushed lib current) s.parts
              ∙ ap (λ t. parts_of lib max_size s.pieces ++ flushed lib t) s.current
              ∙ ap (λ t. parts_of lib max_size s.pieces ++ t)
                  (sym (append-nil (flushed lib (text_after "" s.opened))))
              ∙ sym (parts_of-append lib max_size s.pieces added);
          current = refl;
          tokens = omega arith;
          small = omega (arith, l);
          nothing = λ e.
              (let blank : para ≡ "" = ground (arith, e, eq_iff para "") in
                omega (arith, ap (estimate_tokens lib) blank, empty_tokens));
          smalls = All-append (IsSmall lib max_size) s.pieces added s.smalls (s.small, tt);
        }

    longer-Split :
        (ltb max_size (tokens + estimate_tokens lib para) && not (current == "")) ≡ false
        → estimate_tokens lib para ≤ max_size
        → Split
            (before ++ para ∷ [])
            (parts, (joined current para, tokens + estimate_tokens lib para))
    longer-Split h l = record {
      pieces = s.pieces;
      opened = s.opened ++ para ∷ [];
      keeps =
          sym (append_assoc (paragraphs_of s.pieces) s.opened (para ∷ []))
          ∙ ap (λ t. t ++ para ∷ []) s.keeps;
      parts = s.parts;
      current = ap (λ t. joined t para) s.current ∙ sym (text_after-append "" s.opened para);
      tokens = omega (arith, s.tokens, total-append lib max_size s.opened para);
      small = elim (Bool-cases (current == "")) [
        | inl e ↦ omega (
          arith,
          l,
          total-append lib max_size s.opened para,
          s.nothing (ap (λ t. t == "") (sym s.current) ∙ e),
        )
        | inr e ↦ ground (arith, h, e, s.tokens, total-append lib max_size s.opened para)
      ];
      nothing = λ e.
          (let both =
              joined-empty (text_after "" s.opened) para
                (ap (λ t. t == "") (sym (text_after-append "" s.opened para)) ∙ e) in
            omega (
              arith,
              total-append lib max_size s.opened para,
              s.nothing (ap (λ t. t == "") both.0),
              ap (estimate_tokens lib) both.1,
              empty_tokens,
            ));
      smalls = s.smalls;
    }

    step-Split :
        Split (before ++ para ∷ []) (split_step lib max_size para (parts, (current, tokens)))
    unfolding split_step sliced
    step-Split =
        let P : List String × (String × ℕ) → Type 0 = Split (before ++ para ∷ []) in
        let n = estimate_tokens lib para in
        let flush = ltb max_size (tokens + n) && not (current == "") in
        let flushes : List String × (String × ℕ) =
          (parts ++ lib.py.strip current ∷ [], (para, n)) in
        let longer : List String × (String × ℕ) = (parts, (joined current para, tokens + n)) in
        if_case P (ltb max_size n) (parts ++ flushed lib current ++ sliced, ("", 0))
          (if flush then flushes else longer) (λ h. cut-Split (ground (arith, h)))
          (λ h.
            if_case P flush flushes longer
              (λ e. flush-Split (ground (arith, e)) (ground (arith, h)))
              (λ e. longer-Split e (ground (arith, h))))

  loop-Split :
      lib.weigh 0 0 ≡ 0
      → 0 < max_size
      → (paras before : List String) (state : List String × (String × ℕ)) → Split before state
      → Split (before ++ paras) (split_loop lib max_size paras state)
  unfolding split_loop
  loop-Split z l [] before state s = subst (λ t. Split t state) (sym (append-nil before)) s
  loop-Split z l (para ∷ paras) before state s =
      let next = split_step lib max_size para state in
      subst (λ t. Split t (split_loop lib max_size paras next))
        (append_assoc before (para ∷ []) paras)
        (loop-Split z l paras (before ++ para ∷ []) next
          (step-Split z l para before state.0 state.1.0 state.1.1 s))

  -- What is left open at the end, unless it is blank.
  abbrev pub last_part : String → List String
  last_part text = if lib.py.strip text == "" then [] else lib.py.strip text ∷ []

  -- The parts are those of pieces and of a last group, which have the paragraphs of the content in
  -- order: paragraphs that stay together have no more tokens than the maximum; one that is cut by
  -- length has more, and its slices give all of it.
  pub smart_split_content-IsSmall :
      (content : String)
      → lib.weigh 0 0 ≡ 0
      → 0 < max_size
      → (pieces : List Piece) × (opened : List String) × (paragraphs_of pieces ++ opened
          ≡ lib.py.split content "\n\n")
        × All (IsSmall lib max_size) pieces
        × IsSmall lib max_size (together opened)
        × (smart_split_content lib max_size content
            ≡ or_content lib max_size content
                (parts_of lib max_size pieces ++ last_part (text_after "" opened)))
  unfolding smart_split_content text_after total
  smart_split_content-IsSmall content z l =
      let start : Split [] ([], ("", 0)) = record {
        pieces = [];
        opened = [];
        keeps = refl;
        parts = refl;
        current = refl;
        tokens = refl;
        small = omega arith;
        nothing = λ e. refl;
        smalls = tt;
      } in
      let s = loop-Split z l (lib.py.split content "\n\n") [] ([], ("", 0)) start in
      (s.pieces, s.opened, s.keeps, s.smalls, s.small, rw (s.parts, s.current) refl)
