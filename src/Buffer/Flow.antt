-- ===== src/Buffer/Flow.antt =====
-- What the buffer of a session holds, chunks and active messages, and that no message is lost,
-- repeated or moved.
use Prim.Native.Nat.{suc}
use mathlib.Core.Path.{subst}
use mathlib.Core.List.{append_assoc, append-nil}
use open_cortex.Base.{
  ℕ, ◌+◌, ◌<◌, ◌≡◌, ◌⊎◌, refl, ap, sym, ◌∙◌, String, Bool, true, false, List, [], ◌∷◌, ◌++◌, arith,
  PyEq,
}
use open_cortex.Base.Lists.{
  length, length-zero, length-take, take, drop, All, All-append, take-append-drop,
}
use open_cortex.Buffer.Conversation.{SessionBufferSnapshot, chunk_of, rest_of, freezable}
use open_cortex.Buffer.Defs.{
  SessionBuffer, active, chunks, freeze_loop, freeze_all_chunks, freeze_ready_chunks,
}
use open_cortex.Buffer.Step.{IsAligned, size, size_bounds, over_all, over_ready, rest_of-IsAligned}
use open_cortex.Buffer.Loop.{
  IsChunk, IsContiguous, IsContiguous-append, chunk_of-IsChunk, frozen, freeze-active,
  freeze-chunks, loop_keeps, loop_stops,
}

module _ {C : Type 0} where
  -- The messages of chunks, in order.
  unfoldable pub texts : List (SessionBufferSnapshot C) → List String
  texts [] = []
  texts (s ∷ ss) = s.messages ++ texts ss

  -- Their uris, in order.
  unfoldable pub uris_of : List (SessionBufferSnapshot C) → List String
  uris_of [] = []
  uris_of (s ∷ ss) = s.immediate_uris ++ uris_of ss

  pub texts-append :
      (ss ts : List (SessionBufferSnapshot C)) → texts (ss ++ ts) ≡ texts ss ++ texts ts
  unfolding texts
  texts-append [] ts = refl
  texts-append (s ∷ ss) ts =
      ap (λ t. s.messages ++ t) (texts-append ss ts)
      ∙ sym (append_assoc s.messages (texts ss) (texts ts))

  pub uris_of-append :
      (ss ts : List (SessionBufferSnapshot C)) → uris_of (ss ++ ts) ≡ uris_of ss ++ uris_of ts
  unfolding uris_of
  uris_of-append [] ts = refl
  uris_of-append (s ∷ ss) ts =
      ap (λ t. s.immediate_uris ++ t) (uris_of-append ss ts)
      ∙ sym (append_assoc s.immediate_uris (uris_of ss) (uris_of ts))

-- The state of one key is well formed: its buffer is aligned, its chunks are whole and bounded, and
-- they and the buffer number the messages without a gap.
pub record IsKeyValid {K C : Type 0} ⦃e : PyEq K⦄ (key : K) (b : SessionBuffer K C) : Type 0 where
  pub aligned : IsAligned (active key b)
  pub whole : All (IsChunk b.merge_token_budget) (chunks key b)
  pub contiguous : (a : ℕ) × IsContiguous a (chunks key b) (active key b).start_msg_index

-- Everything a key holds, in order: its chunks and then its active messages.
unfoldable pub held_messages : {K C : Type 0} → ⦃e : PyEq K⦄ → K → SessionBuffer K C → List String
held_messages key b = texts (chunks key b) ++ (active key b).messages

unfoldable pub held_uris : {K C : Type 0} → ⦃e : PyEq K⦄ → K → SessionBuffer K C → List String
held_uris key b = uris_of (chunks key b) ++ (active key b).immediate_uris

module _ {K C : Type 0} ⦃e : PyEq K⦄ (key : K) (force : Bool) (b : SessionBuffer K C) where
  abbrev count : ℕ
  count = size b.merge_token_budget force (active key b)

  pub frozen-messages : held_messages key (frozen key force b) ≡ held_messages key b
  unfolding held_messages texts chunk_of rest_of
  frozen-messages =
      let x = active key b in
      rw
        (
          freeze-active key force b,
          freeze-chunks key force b,
          texts-append (chunks key b) (chunk_of count x ∷ []),
          append_assoc (texts (chunks key b)) (take count x.messages ++ []) (drop count x.messages),
          append-nil (take count x.messages),
          take-append-drop count x.messages,
        )
        refl

  frozen-uris : held_uris key (frozen key force b) ≡ held_uris key b
  unfolding held_uris uris_of chunk_of rest_of
  frozen-uris =
      let x = active key b in
      rw
        (
          freeze-active key force b,
          freeze-chunks key force b,
          uris_of-append (chunks key b) (chunk_of count x ∷ []),
          append_assoc (uris_of (chunks key b)) (take count x.immediate_uris ++ [])
              (drop count x.immediate_uris),
          append-nil (take count x.immediate_uris),
          take-append-drop count x.immediate_uris,
        )
        refl

  pub frozen-IsKeyValid :
      IsKeyValid key b
      → freezable b.merge_token_budget force (active key b) ≡ true
      → IsKeyValid key (frozen key force b)
  unfolding frozen chunk_of rest_of
  frozen-IsKeyValid v h =
      let x = active key b in
      let s = size_bounds b.merge_token_budget force x h in
      let c =
        IsContiguous-append v.contiguous.0 x.start_msg_index (chunks key b) (chunk_of count x)
          v.contiguous.1 refl in
      record {
        aligned =
            rw (freeze-active key force b)
              (rest_of-IsAligned b.merge_token_budget force x v.aligned h);
        whole = rw (freeze-chunks key force b) (
            All-append (IsChunk b.merge_token_budget) (chunks key b) (chunk_of count x ∷ []) v.whole
              (chunk_of-IsChunk b.merge_token_budget force x v.aligned h, tt));
        contiguous = (
          v.contiguous.0,
          rw (freeze-active key force b, freeze-chunks key force b)
              (subst
                (λ k.
                  IsContiguous v.contiguous.0 (chunks key b ++ chunk_of count x ∷ [])
                    (x.start_msg_index + k))
                (length-take count x.messages s.1) c),
        );
      }

module _ {K C : Type 0} ⦃e : PyEq K⦄ (key : K) (b : SessionBuffer K C) where
  -- What holds of a key after a freezing loop.
  pub record IsFrozen (r : SessionBuffer K C) : Type 0 where
    pub budget : r.merge_token_budget ≡ b.merge_token_budget
    pub messages : held_messages key r ≡ held_messages key b
    pub uris : held_uris key r ≡ held_uris key b
    pub valid : IsKeyValid key r

  loop-IsFrozen :
      (force : Bool) (fuel : ℕ) → IsKeyValid key b → IsFrozen (freeze_loop fuel key force b).1
  unfolding frozen
  loop-IsFrozen force fuel v =
      loop_keeps key force IsFrozen
        (λ r p h. record {
          budget = p.budget;
          messages = frozen-messages key force r ∙ p.messages;
          uris = frozen-uris key force r ∙ p.uris;
          valid = frozen-IsKeyValid key force r p.valid h;
        })
        fuel b (record { budget = refl; messages = refl; uris = refl; valid = v })

  all_result :
      (fuel : ℕ)
      → length (active key b).messages < fuel
      → IsKeyValid key b
      → let r = (freeze_loop fuel key true b).1 in
        IsFrozen r
        × ((active key r).messages ≡ [])
        × (texts (chunks key r) ≡ held_messages key b)
        × (uris_of (chunks key r) ≡ held_uris key b)
  unfolding held_messages held_uris
  all_result fuel l v =
      let r = (freeze_loop fuel key true b).1 in
      let i = loop-IsFrozen true fuel v in
      let empty = over_all r.merge_token_budget (active key r) (loop_stops key true fuel b l) in
      let no_uri =
        length-zero (active key r).immediate_uris (i.valid.aligned.uris ∙ ap length empty) in
      (
        i,
        empty,
        sym (append-nil (texts (chunks key r)))
            ∙ ap (λ t. texts (chunks key r) ++ t) (sym empty)
            ∙ i.messages,
        sym (append-nil (uris_of (chunks key r)))
            ∙ ap (λ t. uris_of (chunks key r) ++ t) (sym no_uri)
            ∙ i.uris,
      )

  -- `freeze_all_chunks` empties the active buffer into chunks: all messages and uris that the key
  -- held are in its chunks, in their order, and each chunk is within the budget or one message.
  pub freeze_all_chunks-IsFrozen :
      IsKeyValid key b
      → let r = (freeze_all_chunks key b).1 in
        IsFrozen r
        × ((active key r).messages ≡ [])
        × (texts (chunks key r) ≡ held_messages key b)
        × (uris_of (chunks key r) ≡ held_uris key b)
  unfolding freeze_all_chunks
  freeze_all_chunks-IsFrozen v = all_result (suc (length (active key b).messages)) (omega arith) v

  ready_result :
      (fuel : ℕ)
      → length (active key b).messages < fuel
      → IsKeyValid key b
      → let r = (freeze_loop fuel key false b).1 in
        IsFrozen r
        × (((active key r).messages ≡ []) ⊎ ((active key r).token_count < b.merge_token_budget))
  ready_result fuel l v =
      let r = (freeze_loop fuel key false b).1 in
      let i = loop-IsFrozen false fuel v in
      (
        i,
        subst (λ k. ((active key r).messages ≡ []) ⊎ ((active key r).token_count < k)) i.budget
            (over_ready r.merge_token_budget (active key r) (loop_stops key false fuel b l)),
      )

  -- `freeze_ready_chunks` leaves less than the budget in the active buffer, and keeps the messages,
  -- the uris and their order.
  pub freeze_ready_chunks-IsFrozen :
      IsKeyValid key b
      → let r = (freeze_ready_chunks key b).1 in
        IsFrozen r
        × (((active key r).messages ≡ []) ⊎ ((active key r).token_count < b.merge_token_budget))
  unfolding freeze_ready_chunks
  freeze_ready_chunks-IsFrozen v =
      let fuel = suc (length (active key b).messages) in ready_result fuel (omega arith) v
