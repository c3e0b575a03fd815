-- ===== src/Buffer/Calls.antt =====
-- What each method does to what its key holds.
use mathlib.Core.Path.{subst}
use mathlib.Core.List.{append_assoc}
use open_cortex.Base.{
  ℕ, ◌+◌, ◌≡◌, ◌⊎◌, refl, sym, ◌∙◌, String, Bool, true, Option, none, some, List, [], ◌∷◌, ◌++◌,
  arith, if◌then◌else◌, PyEq, Bool-cases, inl, inr,
}
use open_cortex.Base.Lists.{length, All, length-append}
use open_cortex.Base.Dict
use open_cortex.Buffer.Conversation.{
  total_tokens, SessionBufferSnapshot, freezable, or_else, appended,
}
use open_cortex.Buffer.Defs.{
  SessionBuffer, init, active, chunks, freeze_merge_chunk, append, pop_merge_chunk, snapshot,
  next_msg_index,
}
use open_cortex.Buffer.Step.{total_tokens-append}
use open_cortex.Buffer.Loop.{IsChunk, IsContiguous, freeze_lem}
use open_cortex.Buffer.Flow.{
  IsKeyValid, texts, held_messages, held_uris, uris_of, frozen-IsKeyValid, frozen-messages,
}

List-cases {ℓ} : {A : Type ℓ} (xs : List A) → (xs ≡ []) ⊎ ((x : A) × (ys : List A) × (xs ≡ x ∷ ys))
List-cases [] = inl refl
List-cases (x ∷ xs) = inr (x, xs, refl)

-- The messages of the chunk that a call returns, none without one.
unfoldable pub returned : {C : Type 0} → Option (SessionBufferSnapshot C) → List String
returned none = []
returned (some s) = s.messages

pub init-held :
    {K : Type 0} (C : Type 0)
    → ⦃e : PyEq K⦄ → (key : K) (budget idle_ttl : ℕ)
    → held_messages {C = C} key (init budget idle_ttl) ≡ []
unfolding held_messages active chunks Dict.get init texts
init-held C key budget idle_ttl = refl

module _ {K C : Type 0} ⦃e : PyEq K⦄ (key : K) (b : SessionBuffer K C) where
  pub pop-nil : chunks key b ≡ [] → pop_merge_chunk key b ≡ (none, b)
  unfolding pop_merge_chunk chunks
  pop-nil h = ground (arith, h)

  abbrev pub popped : SessionBuffer K C
  popped = (pop_merge_chunk key b).1

  module _ (s : SessionBufferSnapshot C) (ss : List (SessionBufferSnapshot C))
      (h : chunks key b ≡ s ∷ ss) where
    pub pop-some : (pop_merge_chunk key b).0 ≡ some s
    unfolding pop_merge_chunk chunks
    pop-some = ground (arith, h)

    pub pop-active : active key popped ≡ active key b
    unfolding pop_merge_chunk active chunks
    pop-active = ground (arith, h)

    pop-budget : popped.merge_token_budget ≡ b.merge_token_budget
    unfolding pop_merge_chunk chunks
    pop-budget = ground (arith, h)

  pub pop-chunks :
      (s : SessionBufferSnapshot C) (ss : List (SessionBufferSnapshot C))
      → chunks key b ≡ s ∷ ss
      → chunks key popped ≡ ss
  unfolding pop_merge_chunk chunks
  pop-chunks s [] h = ground (arith, h, e.equals_iff key key, Dict.get-pop key key b.pending_merges)
  pop-chunks s (t ∷ ss) h =
      ground (arith, h, e.equals_iff key key, Dict.get-set key key (t ∷ ss) b.pending_merges)

  append-active :
      (text uri : String) (calls : Option (List C))
      → active key (append key text uri calls b) ≡ appended text uri calls (active key b)
  unfolding append active
  append-active text uri calls = ground (
    arith,
    e.equals_iff key key,
    Dict.get-set key key (appended text uri calls (active key b)) b.buffers,
  )

  append-chunks :
      (text uri : String) (calls : Option (List C))
      → chunks key (append key text uri calls b) ≡ chunks key b
  unfolding append chunks
  append-chunks text uri calls = refl

  append-budget :
      (text uri : String) (calls : Option (List C))
      → (append key text uri calls b).merge_token_budget ≡ b.merge_token_budget
  unfolding append
  append-budget text uri calls = refl

  snapshot-some :
      (s : SessionBufferSnapshot C) (ss : List (SessionBufferSnapshot C))
      → chunks key b ≡ s ∷ ss
      → snapshot key b ≡ pop_merge_chunk key b
  unfolding snapshot pop_merge_chunk chunks
  snapshot-some s ss h = ground (arith, h)

  snapshot-nil :
      chunks key b ≡ []
      → snapshot key b ≡ (
          if (freeze_merge_chunk key true b).0
          then pop_merge_chunk key (freeze_merge_chunk key true b).1
          else (none, b))
  unfolding snapshot
  snapshot-nil h = rw (snapshot, pop-nil h) refl

  next-active : active key (next_msg_index key b).1 ≡ active key b
  unfolding next_msg_index active
  next-active = ground (arith, e.equals_iff key key, Dict.get-set key key (active key b) b.buffers)

  next-budget : (next_msg_index key b).1.merge_token_budget ≡ b.merge_token_budget
  unfolding next_msg_index
  next-budget = refl

  next-chunks : chunks key (next_msg_index key b).1 ≡ chunks key b
  unfolding next_msg_index chunks
  next-chunks = refl

module _ {K C : Type 0} ⦃e : PyEq K⦄ (key : K) where
  -- A call takes the oldest chunk out.
  pub pop_step :
      (b : SessionBuffer K C)
      → IsKeyValid key b
      → let r = pop_merge_chunk key b in
        IsKeyValid key r.1 × (held_messages key b ≡ returned r.0 ++ held_messages key r.1)
  unfolding held_messages texts returned IsContiguous
  pop_step b v = elim (List-cases (chunks key b)) [
    | inl h ↦ rw (pop-nil key b h) (v, refl)
    | inr (s, ss, h) ↦
        let w = subst (All (IsChunk b.merge_token_budget)) h v.whole in
        let c =
          subst (λ ts. IsContiguous v.contiguous.0 ts (active key b).start_msg_index) h
            v.contiguous.1 in
        (
          record {
            aligned = rw (pop-active key b s ss h) v.aligned;
            whole = rw (pop-chunks key b s ss h, pop-budget key b s ss h) w.1;
            contiguous = (
              v.contiguous.0 + length s.messages,
              rw (pop-chunks key b s ss h, pop-active key b s ss h) c.1,
            );
          },
          rw (pop-some key b s ss h, pop-chunks key b s ss h, pop-active key b s ss h, h)
              (append_assoc s.messages (texts ss) (active key b).messages),
        )
  ]

  pub freeze_step :
      (force : Bool) (b : SessionBuffer K C)
      → IsKeyValid key b
      → let r = (freeze_merge_chunk key force b).1 in
        IsKeyValid key r × (held_messages key r ≡ held_messages key b)
  freeze_step force b v = elim (Bool-cases (freezable b.merge_token_budget force (active key b))) [
    | inl h ↦
        rw (freeze_lem key force b, h)
          (frozen-IsKeyValid key force b v h, frozen-messages key force b)
    | inr h ↦ rw (freeze_lem key force b, h) (v, refl)
  ]

  pub append_step :
      (text uri : String) (calls : Option (List C)) (b : SessionBuffer K C)
      → IsKeyValid key b
      → let r = append key text uri calls b in
        IsKeyValid key r
        × (held_messages key r ≡ held_messages key b ++ text ∷ [])
        × (held_uris key r ≡ held_uris key b ++ uri ∷ [])
  unfolding held_messages held_uris appended total_tokens
  append_step text uri calls b v =
      let x = active key b in
      (
        record {
          aligned = rw (append-active key b text uri calls) (record {
            uris = omega (
              arith,
              length-append x.immediate_uris (uri ∷ []),
              length-append x.messages (text ∷ []),
              v.aligned.uris,
            );
            calls = omega (
              arith,
              length-append x.tool_calls_per_turn (or_else [] calls ∷ []),
              length-append x.messages (text ∷ []),
              v.aligned.calls,
            );
            tokens = omega (arith, total_tokens-append x.messages (text ∷ []), v.aligned.tokens);
          });
          whole =
              rw (append-chunks key b text uri calls, append-budget key b text uri calls) v.whole;
          contiguous = (
            v.contiguous.0,
            rw (append-chunks key b text uri calls, append-active key b text uri calls)
                v.contiguous.1,
          );
        },
        rw (append-chunks key b text uri calls, append-active key b text uri calls)
            (sym (append_assoc (texts (chunks key b)) x.messages (text ∷ []))),
        rw (append-chunks key b text uri calls, append-active key b text uri calls)
            (sym (append_assoc (uris_of (chunks key b)) x.immediate_uris (uri ∷ []))),
      )

  pub next_step :
      (b : SessionBuffer K C)
      → IsKeyValid key b
      → let r = (next_msg_index key b).1 in
        IsKeyValid key r
        × (held_messages key r ≡ held_messages key b)
        × (held_uris key r ≡ held_uris key b)
  unfolding held_messages held_uris
  next_step b v = (
    record {
      aligned = rw (next-active key b) v.aligned;
      whole = rw (next-chunks key b, next-budget key b) v.whole;
      contiguous = (v.contiguous.0, rw (next-chunks key b, next-active key b) v.contiguous.1);
    },
    rw (next-chunks key b, next-active key b) refl,
    rw (next-chunks key b, next-active key b) refl,
  )

  pub snapshot_step :
      (b : SessionBuffer K C)
      → IsKeyValid key b
      → let r = snapshot key b in
        IsKeyValid key r.1 × (held_messages key b ≡ returned r.0 ++ held_messages key r.1)
  unfolding returned
  snapshot_step b v = elim (List-cases (chunks key b)) [
    | inr (s, ss, h) ↦ rw (snapshot-some key b s ss h) (pop_step b v)
    | inl h ↦ rw (snapshot-nil key b h) (elim (Bool-cases (freeze_merge_chunk key true b).0) [
      | inr f ↦ rw f (v, refl)
      | inl f ↦
          let w = freeze_step true b v in
          let p = pop_step (freeze_merge_chunk key true b).1 w.0 in rw f (p.0, sym w.1 ∙ p.1)
    ])
  ]

  pub init-IsKeyValid : (budget idle_ttl : ℕ) → IsKeyValid {C = C} key (init budget idle_ttl)
  unfolding active chunks Dict.get init total_tokens IsContiguous
  init-IsKeyValid budget idle_ttl = record {
    aligned = record { uris = refl; calls = refl; tokens = refl };
    whole = tt;
    contiguous = (0, refl);
  }
