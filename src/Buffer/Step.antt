-- ===== src/Buffer/Step.antt =====
-- One chunk: what `freeze_merge_chunk` moves out of the active buffer.
use Prim.Native.Nat.{suc}
use open_cortex.Base.{
  ℕ, ◌+◌, ◌≤◌, ◌<◌, max, ◌≡◌, ◌⊎◌, refl, String, Bool, true, false, List, [], ◌∷◌, ◌++◌, arith, ltb,
  if◌then◌else◌, nat_eq, Bool-cases, inl, inr,
}
use open_cortex.Base.Lists.{length, take, length-drop, take-length}
use open_cortex.Buffer.Conversation.{
  estimate_tokens, total_tokens, ConversationBuffer, chunk_loop, merge_chunk_size, rest_of,
  freezable, is_nil,
}

-- Every message has its uri and its tool calls, and the token count is that of the messages.
pub record IsAligned {C : Type 0} (x : ConversationBuffer C) : Type 0 where
  pub uris : length x.immediate_uris ≡ length x.messages
  pub calls : length x.tool_calls_per_turn ≡ length x.messages
  pub tokens : x.token_count ≡ total_tokens x.messages

pub total_tokens-append :
    (xs ys : List String) → total_tokens (xs ++ ys) ≡ total_tokens xs + total_tokens ys
unfolding total_tokens
total_tokens-append [] ys = omega arith
total_tokens-append (x ∷ xs) ys = omega (arith, total_tokens-append xs ys)

-- How many messages the loop still takes, once the first one is in.
more : ℕ → ℕ → List String → ℕ
more budget tokens [] = 0
more budget tokens (x ∷ xs) =
    let rest = more budget (tokens + estimate_tokens x) xs in
    if ltb budget (tokens + estimate_tokens x) then 0 else suc rest

chunk_loop-more :
    (budget count tokens : ℕ) (xs : List String)
    → 0 < count
    → chunk_loop budget count tokens xs ≡ count + more budget tokens xs
unfolding chunk_loop more
chunk_loop-more budget count tokens [] h = omega arith
chunk_loop-more budget count tokens (x ∷ xs) h =
    ground (arith, chunk_loop-more budget (count + 1) (tokens + estimate_tokens x) xs)

more-le-length : (budget tokens : ℕ) (xs : List String) → more budget tokens xs ≤ length xs
unfolding more
more-le-length budget tokens [] = omega arith
more-le-length budget tokens (x ∷ xs) =
    ground (arith, more-le-length budget (tokens + estimate_tokens x) xs)

-- What the loop takes stays in the budget, and it takes nothing on top of a first message that is
-- over the budget by itself.
more_budget :
    (budget tokens : ℕ) (xs : List String)
    → (more budget tokens xs ≡ 0)
      ⊎ (tokens + total_tokens (take (more budget tokens xs) xs) ≤ budget)
unfolding more total_tokens
more_budget budget tokens [] = inl refl
more_budget budget tokens (x ∷ xs) = elim (Bool-cases (ltb budget (tokens + estimate_tokens x))) [
  | inl e ↦ inl (rw e)
  | inr e ↦ inr (
      rw e (elim (more_budget budget (tokens + estimate_tokens x) xs) [
        | inl z ↦ rw z (ground arith)
        | inr le ↦ omega (arith, le)
      ]))
]

-- The loop on a list with a first message.
loop_first :
    (budget : ℕ) (x : String) (xs : List String)
    → max 1 (chunk_loop budget 0 0 (x ∷ xs)) ≡ suc (more budget (estimate_tokens x) xs)
unfolding chunk_loop
loop_first budget x xs =
    ground (arith, chunk_loop-more budget 1 (estimate_tokens x) xs (omega arith))

pub loop_size : ℕ → List String → ℕ
loop_size budget xs = max 1 (chunk_loop budget 0 0 xs)

pub loop_bounds :
    (budget : ℕ) (xs : List String)
    → is_nil xs ≡ false
    → (0 < loop_size budget xs) × (loop_size budget xs ≤ length xs)
unfolding loop_size
loop_bounds budget [] h = ground arith
loop_bounds budget (x ∷ xs) h =
    rw (loop_first budget x xs)
      (omega arith, omega (arith, more-le-length budget (estimate_tokens x) xs))

pub loop_budget :
    (budget : ℕ) (xs : List String)
    → is_nil xs ≡ false
    → (loop_size budget xs ≡ 1) ⊎ (total_tokens (take (loop_size budget xs) xs) ≤ budget)
unfolding loop_size total_tokens
loop_budget budget [] h = ground arith
loop_budget budget (x ∷ xs) h =
    rw (loop_first budget x xs) (elim (more_budget budget (estimate_tokens x) xs) [
      | inl z ↦ inl (rw z refl)
      | inr le ↦ inr le
    ])

module _ {C : Type 0} (budget : ℕ) (force : Bool) (x : ConversationBuffer C) where
  abbrev pub size : ℕ
  size = merge_chunk_size budget x force

  -- A chunk has at least one message and no more than there are.
  pub size_bounds : freezable budget force x ≡ true → (0 < size) × (size ≤ length x.messages)
  unfolding freezable merge_chunk_size loop_size
  size_bounds h = grind (arith, loop_bounds budget x.messages)

  -- A chunk is within the budget, or is one message.
  pub size_budget :
      IsAligned x
      → freezable budget force x ≡ true
      → (size ≡ 1) ⊎ (total_tokens (take size x.messages) ≤ budget)
  unfolding freezable merge_chunk_size loop_size
  size_budget a h = grind (arith, loop_budget budget x.messages, a.tokens, take-length x.messages)

  pub rest_of-IsAligned : IsAligned x → freezable budget force x ≡ true → IsAligned (rest_of size x)
  unfolding rest_of
  rest_of-IsAligned a h = record {
    uris = grind (arith, length-drop size x.messages, length-drop size x.immediate_uris, a.uris);
    calls =
        grind (arith, length-drop size x.messages, length-drop size x.tool_calls_per_turn, a.calls);
    tokens = refl;
  }

is_nil-empty {ℓ} : {A : Type ℓ} (xs : List A) → is_nil xs ≡ true → xs ≡ []
is_nil-empty [] h = refl
is_nil-empty (x ∷ xs) h = ground arith

module _ {C : Type 0} (budget : ℕ) (x : ConversationBuffer C) where
  -- When nothing more can be frozen by force, there is no message left.
  pub over_all : freezable budget true x ≡ false → x.messages ≡ []
  unfolding freezable merge_chunk_size loop_size
  over_all h = elim (Bool-cases (is_nil x.messages)) [
    | inl e ↦ is_nil-empty x.messages e
    | inr e ↦ grind (arith, loop_bounds budget x.messages e)
  ]

  -- When nothing more is due, there is no message left or fewer tokens than the budget.
  pub over_ready : freezable budget false x ≡ false → (x.messages ≡ []) ⊎ (x.token_count < budget)
  unfolding freezable merge_chunk_size loop_size
  over_ready h = elim (Bool-cases (is_nil x.messages)) [
    | inl e ↦ inl (is_nil-empty x.messages e)
    | inr e ↦ inr (grind (arith, loop_bounds budget x.messages e))
  ]
