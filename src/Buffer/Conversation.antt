-- ===== src/Buffer/Conversation.antt =====
-- The messages of one key in src/opencortex/store/session/buffer.py and how a chunk is cut off them.
use Prim.Native.String.{count as char_count}
use open_cortex.Base.{
  ℕ, ◌+◌, ◌/◌, max, String, Bool, true, false, not, ◌&&◌, ◌||◌, Option, none, some, List, [], ◌∷◌,
  ◌++◌, ltb, leb, if◌then◌else◌, nat_eq, string_eq,
}
use open_cortex.Base.Lists.{length, take, drop}

-- utils/text.py
unfoldable pub estimate_tokens : String → ℕ
estimate_tokens text = max 1 (char_count text / 4)

unfoldable pub total_tokens : List String → ℕ
total_tokens [] = 0
total_tokens (x ∷ xs) = estimate_tokens x + total_tokens xs

pub record ConversationBuffer (C : Type 0) : Type 0 where
  pub messages : List String
  pub token_count : ℕ
  pub start_msg_index : ℕ
  pub immediate_uris : List String
  pub tool_calls_per_turn : List (List C)

pub record SessionBufferSnapshot (C : Type 0) : Type 0 where
  pub messages : List String
  pub token_count : ℕ
  pub start_msg_index : ℕ
  pub immediate_uris : List String
  pub tool_calls_per_turn : List (List C)

abbrev pub empty_buffer : {C : Type 0} → ConversationBuffer C
empty_buffer = record {
  messages = [];
  token_count = 0;
  start_msg_index = 0;
  immediate_uris = [];
  tool_calls_per_turn = [];
}

-- The loop of `merge_chunk_size`: how many messages fit, the first one always.
unfoldable pub chunk_loop : ℕ → ℕ → ℕ → List String → ℕ
chunk_loop budget count tokens [] = count
chunk_loop budget count tokens (x ∷ xs) =
    let rest = chunk_loop budget (count + 1) (tokens + estimate_tokens x) xs in
    if ltb 0 count && ltb budget (tokens + estimate_tokens x) then count else rest

abbrev pub or_else {ℓ} : {A : Type ℓ} → A → Option A → A
or_else d none = d
or_else d (some a) = a

abbrev pub is_nil {ℓ} : {A : Type ℓ} → List A → Bool
is_nil [] = true
is_nil (x ∷ xs) = false

module _ {C : Type 0} where
  unfoldable pub merge_chunk_size : ℕ → ConversationBuffer C → Bool → ℕ
  unfolding chunk_loop
  merge_chunk_size budget b force =
      if force && ltb b.token_count budget
      then length b.messages
      else max 1 (chunk_loop budget 0 0 b.messages)

  -- The chunk of the first `n` messages, and what stays.
  unfoldable pub chunk_of : ℕ → ConversationBuffer C → SessionBufferSnapshot C
  unfolding total_tokens
  chunk_of n b = record {
    messages = take n b.messages;
    token_count = total_tokens (take n b.messages);
    start_msg_index = b.start_msg_index;
    immediate_uris = take n b.immediate_uris;
    tool_calls_per_turn = take n b.tool_calls_per_turn;
  }

  unfoldable pub rest_of : ℕ → ConversationBuffer C → ConversationBuffer C
  unfolding total_tokens
  rest_of n b = record {
    messages = drop n b.messages;
    token_count = total_tokens (drop n b.messages);
    start_msg_index = b.start_msg_index + n;
    immediate_uris = drop n b.immediate_uris;
    tool_calls_per_turn = drop n b.tool_calls_per_turn;
  }

  unfoldable pub appended :
      String → String → Option (List C) → ConversationBuffer C → ConversationBuffer C
  appended text uri calls x = record x {
    messages = x.messages ++ text ∷ [];
    immediate_uris = x.immediate_uris ++ uri ∷ [];
    token_count = x.token_count + estimate_tokens text;
    tool_calls_per_turn = x.tool_calls_per_turn ++ or_else [] calls ∷ [];
  }

  -- The guards of `freeze_merge_chunk` on a buffer that is there.
  unfoldable pub freezable : ℕ → Bool → ConversationBuffer C → Bool
  unfolding merge_chunk_size
  freezable budget force x =
      not (is_nil x.messages)
      && (force || leb budget x.token_count)
      && ltb 0 (merge_chunk_size budget x force)
