-- ===== src/Buffer/Loop.antt =====
-- The loops of `freeze_ready_chunks` and `freeze_all_chunks`: what they keep and when they stop.
use Prim.Native.Nat.{zero, suc}
use open_cortex.Base.{
  ℕ, ◌+◌, ◌≤◌, ◌<◌, ◌≡◌, ◌⊎◌, refl, Bool, true, false, List, [], ◌∷◌, ◌++◌, arith, if◌then◌else◌,
  PyEq, Option-cases, Bool-cases, inl, inr,
}
use open_cortex.Base.Lists.{length, length-take, length-drop}
use open_cortex.Base.Dict
use open_cortex.Buffer.Conversation.{
  total_tokens, ConversationBuffer, SessionBufferSnapshot, chunk_of, rest_of, freezable,
}
use open_cortex.Buffer.Defs.{SessionBuffer, active, chunks, freeze_merge_chunk, freeze_loop}
use open_cortex.Buffer.Step.{IsAligned, size, size_bounds, size_budget}

-- A chunk has a message, an uri and a list of tool calls for each one, the tokens of its messages,
-- and is within the budget or a single message.
pub record IsChunk {C : Type 0} (budget : ℕ) (s : SessionBufferSnapshot C) : Type 0 where
  pub nonempty : 0 < length s.messages
  pub uris : length s.immediate_uris ≡ length s.messages
  pub calls : length s.tool_calls_per_turn ≡ length s.messages
  pub tokens : s.token_count ≡ total_tokens s.messages
  pub bounded : (length s.messages ≡ 1) ⊎ (s.token_count ≤ budget)

-- The chunks number their messages from `a` on without a gap, up to `z`.
unfoldable pub IsContiguous : {C : Type 0} → ℕ → List (SessionBufferSnapshot C) → ℕ → Type 0
IsContiguous a [] z = a ≡ z
IsContiguous a (s ∷ ss) z = (s.start_msg_index ≡ a) × IsContiguous (a + length s.messages) ss z

pub IsContiguous-append :
    {C : Type 0} (a z : ℕ) (ss : List (SessionBufferSnapshot C)) (s : SessionBufferSnapshot C)
    → IsContiguous a ss z
    → s.start_msg_index ≡ z
    → IsContiguous a (ss ++ s ∷ []) (z + length s.messages)
unfolding IsContiguous
IsContiguous-append a z [] s h e = omega (arith, h, e)
IsContiguous-append a z (t ∷ ss) s h e =
    (h.0, IsContiguous-append (a + length t.messages) z ss s h.1 e)

module _ {C : Type 0} (budget : ℕ) (force : Bool) (x : ConversationBuffer C) where
  pub chunk_of-IsChunk :
      IsAligned x
      → freezable budget force x ≡ true
      → IsChunk budget (chunk_of (size budget force x) x)
  unfolding chunk_of
  chunk_of-IsChunk a h =
      let n = size budget force x in
      let b = size_bounds budget force x h in
      let l = length-take n x.messages b.1 in
      record {
        nonempty = omega (arith, l, b.0);
        uris = omega (arith, l, length-take n x.immediate_uris (omega (arith, b.1, a.uris)));
        calls = omega (arith, l, length-take n x.tool_calls_per_turn (omega (arith, b.1, a.calls)));
        tokens = refl;
        bounded = grind (arith, l, size_budget budget force x a h);
      }

-- What one round of the loop does to its key.
module _ {K C : Type 0} ⦃e : PyEq K⦄ (key : K) (force : Bool) (b : SessionBuffer K C) where
  abbrev pub now : ConversationBuffer C
  now = active key b

  abbrev pub n : ℕ
  n = size b.merge_token_budget force (active key b)

  unfoldable pub frozen : SessionBuffer K C
  frozen = record b {
    buffers = Dict.set key (rest_of n now) b.buffers;
    pending_merges = Dict.set key (chunks key b ++ chunk_of n now ∷ []) b.pending_merges;
  }

  pub freeze_lem :
      freeze_merge_chunk key force b
      ≡ (if freezable b.merge_token_budget force now then (true, frozen) else (false, b))
  unfolding freeze_merge_chunk freezable active frozen
  freeze_lem = elim (Option-cases (Dict.get key b.buffers)) [
    | inl h ↦ ground (arith, h)
    | inr (x, h) ↦ ground (arith, h)
  ]

  pub freeze-active : active key frozen ≡ rest_of n now
  unfolding active frozen
  freeze-active =
      ground (arith, e.equals_iff key key, Dict.get-set key key (rest_of n now) b.buffers)

  pub freeze-chunks : chunks key frozen ≡ chunks key b ++ chunk_of n now ∷ []
  unfolding active chunks frozen
  freeze-chunks = ground (
    arith,
    e.equals_iff key key,
    Dict.get-set key key (chunks key b ++ chunk_of n now ∷ []) b.pending_merges,
  )

module _ {K C : Type 0} ⦃e : PyEq K⦄ (key : K) (force : Bool) where
  -- The loop is over.
  abbrev pub IsOver : SessionBuffer K C → Type 0
  IsOver b = freezable b.merge_token_budget force (active key b) ≡ false

  -- What each frozen chunk keeps, the loop keeps.
  pub loop_keeps {κ} :
      (P : SessionBuffer K C → Type κ)
      → ((b : SessionBuffer K C)
          → P b
          → freezable b.merge_token_budget force (active key b) ≡ true
          → P (frozen key force b))
      → (fuel : ℕ) (b : SessionBuffer K C) → P b
      → P (freeze_loop fuel key force b).1
  unfolding freeze_loop
  loop_keeps P step zero b p = p
  loop_keeps P step (suc fuel) b p =
      elim (Bool-cases (freezable b.merge_token_budget force (active key b))) [
        | inl h ↦
            rw (freeze_lem key force b, h)
              (loop_keeps P step fuel (frozen key force b) (step b p h))
        | inr h ↦ rw (freeze_lem key force b, h) p
      ]

  frozen-shorter :
      (b : SessionBuffer K C)
      → freezable b.merge_token_budget force (active key b) ≡ true
      → length (active key (frozen key force b)).messages < length (active key b).messages
  unfolding rest_of
  frozen-shorter b h =
      let x = active key b in
      let s = size_bounds b.merge_token_budget force x h in
      rw (freeze-active key force b)
        (omega (arith, s.0, s.1, length-drop (size b.merge_token_budget force x) x.messages))

  -- A round more than there are messages is enough fuel.
  pub loop_stops :
      (fuel : ℕ) (b : SessionBuffer K C)
      → length (active key b).messages < fuel
      → IsOver (freeze_loop fuel key force b).1
  unfolding freeze_loop
  loop_stops zero b l = ground (arith, l)
  loop_stops (suc fuel) b l =
      elim (Bool-cases (freezable b.merge_token_budget force (active key b))) [
        | inl h ↦
            rw (freeze_lem key force b, h)
              (loop_stops fuel (frozen key force b) (omega (arith, l, frozen-shorter b h)))
        | inr h ↦ rw (freeze_lem key force b, h) h
      ]
