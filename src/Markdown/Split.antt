-- ===== src/Markdown/Split.antt =====
-- `_smart_split_content`: an oversized text is cut between paragraphs, or else by length.
use Prim.Native.String.{◌++◌ as ◌<>◌, count}
use open_cortex.Base.{
  ℕ, zero, suc, ◌+◌, ◌*◌, String, not, ◌&&◌, List, [], ◌∷◌, ◌++◌, map, if◌then◌else◌, ◌==◌,
  string_eq, ltb,
}
use open_cortex.Base.Chars.{take_chars, drop_chars}
use open_cortex.Markdown.Defs.{Library, estimate_tokens}

-- The slices of a size, on fuel: as many as there are characters are enough, since the size is
-- positive.
unfoldable pub slices : ℕ → ℕ → String → List String
unfolding take_chars drop_chars
slices zero size text = []
slices (suc fuel) size text =
    let rest = slices fuel size (drop_chars size text) in
    if text == "" then [] else take_chars size text ∷ rest

-- A text that is not empty, as a part.
abbrev pub flushed : Library → String → List String
flushed lib current = if current == "" then [] else lib.py.strip current ∷ []

-- `current + "\n\n" + para if current else para`
abbrev pub joined : String → String → String
joined current para = if current == "" then para else current <> ("\n\n" <> para)

module _ (lib : Library) (max_size : ℕ) where
  -- One paragraph: the parts so far, the text that is open, and its tokens.
  unfoldable pub split_step : String → List String × (String × ℕ) → List String × (String × ℕ)
  unfolding slices estimate_tokens
  split_step para (parts, (current, current_tokens)) =
      let para_tokens = estimate_tokens lib para in
      if ltb max_size para_tokens
      then (
        parts ++ flushed lib current ++ map lib.py.strip (slices (count para) (max_size * 3) para),
        ("", 0),
      )
      else if ltb max_size (current_tokens + para_tokens) && not (current == "")
      then (parts ++ lib.py.strip current ∷ [], (para, para_tokens))
      else (parts, (joined current para, current_tokens + para_tokens))

  unfoldable pub split_loop : List String → List String × (String × ℕ) → List String × (String × ℕ)
  unfolding split_step
  split_loop [] state = state
  split_loop (para ∷ paragraphs) state = split_loop paragraphs (split_step para state)

  -- The parts, or the content where there are none.
  abbrev pub or_content : String → List String → List String
  or_content content [] = content ∷ []
  or_content content (p ∷ ps) = p ∷ ps

  unfoldable pub smart_split_content : String → List String
  unfolding split_loop
  smart_split_content content =
      let state = split_loop (lib.py.split content "\n\n") ([], ("", 0)) in
      let last = lib.py.strip state.1.0 in
      or_content content (state.0 ++ (if last == "" then [] else last ∷ []))
