-- ===== src/Buffer/Defs.antt =====
-- The class SessionBuffer of src/opencortex/store/session/buffer.py and its methods.
use open_cortex.Base.{
  ℕ, zero, suc, ◌+◌, max, String, Bool, true, false, not, Option, none, some, List, [], ◌∷◌, ◌++◌,
  leb, if◌then◌else◌, PyEq, nat_eq, string_eq,
}
use open_cortex.Base.Lists.{length}
use open_cortex.Base.Sets.{add, discard}
use open_cortex.Base.Dict
use open_cortex.Base.Dict.{Dict}
use open_cortex.Buffer.Conversation.{
  ConversationBuffer, SessionBufferSnapshot, empty_buffer, or_else, is_nil, merge_chunk_size,
  chunk_of, rest_of, appended, freezable,
}

pub record SessionBuffer (K C : Type 0) : Type 0 where
  pub merge_token_budget : ℕ
  pub idle_ttl : ℕ
  pub locks : List K
  pub activity : Dict K ℕ
  pub project_ids : Dict K String
  pub buffers : Dict K (ConversationBuffer C)
  pub pending_merges : Dict K (List (SessionBufferSnapshot C))

abbrev second : ℕ
second = 1000000

unfoldable pub init : {K C : Type 0} → ℕ → ℕ → SessionBuffer K C
init budget idle_ttl = record {
  merge_token_budget = max 1 budget;
  idle_ttl = max second idle_ttl;
  locks = [];
  activity = [];
  project_ids = [];
  buffers = [];
  pending_merges = [];
}

unfoldable pub stale_keys : {K : Type 0} → ℕ → ℕ → Dict K ℕ → List K
stale_keys idle_ttl now [] = []
stale_keys idle_ttl now ((key, seen) ∷ d) =
    let rest = stale_keys idle_ttl now d in if leb (seen + idle_ttl) now then key ∷ rest else rest

module _ {K C : Type 0} ⦃e : PyEq K⦄ where
  unfoldable pub touch : K → Option String → ℕ → SessionBuffer K C → SessionBuffer K C
  touch key project now b = record b {
    activity = Dict.set key now b.activity;
    project_ids = elim project [ none ↦ b.project_ids | some p ↦ Dict.set key p b.project_ids ];
  }

  -- The active buffer of a key, an empty one where there is none.
  unfoldable pub active : K → SessionBuffer K C → ConversationBuffer C
  active key b = or_else empty_buffer (Dict.get key b.buffers)

  -- The frozen chunks of a key, oldest first.
  unfoldable pub chunks : K → SessionBuffer K C → List (SessionBufferSnapshot C)
  chunks key b = or_else [] (Dict.get key b.pending_merges)

  unfoldable pub next_msg_index : K → SessionBuffer K C → ℕ × SessionBuffer K C
  unfolding active
  next_msg_index key b = (
    (active key b).start_msg_index + length (active key b).messages,
    record b { buffers = Dict.set key (active key b) b.buffers },
  )

  unfoldable pub append :
      K → String → String → Option (List C) → SessionBuffer K C → SessionBuffer K C
  unfolding active appended
  append key text uri calls b = record b {
    buffers = Dict.set key (appended text uri calls (active key b)) b.buffers;
  }

  unfoldable pub should_merge : K → SessionBuffer K C → Bool
  should_merge key b = elim (Dict.get key b.buffers) [
    | none ↦ false
    | some x ↦ leb b.merge_token_budget x.token_count
  ]

  unfoldable pub freeze_merge_chunk : K → Bool → SessionBuffer K C → Bool × SessionBuffer K C
  unfolding freezable chunk_of rest_of chunks
  freeze_merge_chunk key force b = elim (Dict.get key b.buffers) [
    | none ↦ (false, b)
    | some x ↦
        let n = merge_chunk_size b.merge_token_budget x force in
        if freezable b.merge_token_budget force x
        then (
          true,
          record b {
            buffers = Dict.set key (rest_of n x) b.buffers;
            pending_merges = Dict.set key (chunks key b ++ chunk_of n x ∷ []) b.pending_merges;
          },
        )
        else (false, b)
  ]

  -- `while self.freeze_merge_chunk(key, force): frozen += 1`, on fuel
  unfoldable pub freeze_loop : ℕ → K → Bool → SessionBuffer K C → ℕ × SessionBuffer K C
  freeze_loop zero key force b = (0, b)
  freeze_loop (suc fuel) key force b =
      let (frozen, b') = freeze_merge_chunk key force b in
      let rest = freeze_loop fuel key force b' in if frozen then (suc rest.0, rest.1) else (0, b)

  -- Each chunk takes a message, so one round more than there are messages is enough.
  unfoldable pub freeze_ready_chunks : K → SessionBuffer K C → ℕ × SessionBuffer K C
  unfolding freeze_loop active
  freeze_ready_chunks key b = freeze_loop (suc (length (active key b).messages)) key false b

  unfoldable pub freeze_all_chunks : K → SessionBuffer K C → ℕ × SessionBuffer K C
  unfolding freeze_loop active
  freeze_all_chunks key b = freeze_loop (suc (length (active key b).messages)) key true b

  unfoldable pub pop_merge_chunk :
      K → SessionBuffer K C → Option (SessionBufferSnapshot C) × SessionBuffer K C
  unfolding chunks
  pop_merge_chunk key b = elim (chunks key b) [
    | [] ↦ (none, b)
    | x ∷ xs ↦ (
      some x,
      record b {
        pending_merges =
            if is_nil xs then Dict.pop key b.pending_merges else Dict.set key xs b.pending_merges;
      },
    )
  ]

  unfoldable pub snapshot :
      K → SessionBuffer K C → Option (SessionBufferSnapshot C) × SessionBuffer K C
  unfolding pop_merge_chunk freeze_merge_chunk
  snapshot key b =
      let (waiting, b₁) = pop_merge_chunk key b in
      elim waiting [
        | some x ↦ (some x, b₁)
        | none ↦
            let (frozen, b₂) = freeze_merge_chunk key true b in
            if frozen then pop_merge_chunk key b₂ else (none, b)
      ]

  unfoldable pub has_pending_merge : K → SessionBuffer K C → Bool
  unfolding chunks
  has_pending_merge key b = not (is_nil (chunks key b))

  unfoldable pub drop_key : K → SessionBuffer K C → SessionBuffer K C
  drop_key key b = record b {
    locks = discard key b.locks;
    activity = Dict.pop key b.activity;
    project_ids = Dict.pop key b.project_ids;
    buffers = Dict.pop key b.buffers;
    pending_merges = Dict.pop key b.pending_merges;
  }

  unfoldable pub drop_keys : List K → SessionBuffer K C → SessionBuffer K C
  unfolding drop_key
  drop_keys [] b = b
  drop_keys (k ∷ ks) b = drop_keys ks (drop_key k b)

  unfoldable pub prune_idle : ℕ → SessionBuffer K C → SessionBuffer K C × ℕ
  unfolding stale_keys drop_keys
  prune_idle now b =
      let stale = stale_keys b.idle_ttl now b.activity in (drop_keys stale b, length stale)

  unfoldable pub lock : K → ℕ → SessionBuffer K C → SessionBuffer K C
  unfolding prune_idle
  lock key now b = let (b', pruned) = prune_idle now b in record b' { locks = add key b'.locks }

  unfoldable pub clear : SessionBuffer K C → SessionBuffer K C
  clear b = record b {
    locks = [];
    activity = [];
    project_ids = [];
    buffers = [];
    pending_merges = [];
  }
