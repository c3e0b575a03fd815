-- ===== src/Wait/Refinement.antt =====
-- What a tracker promises: it keeps the set of the messages that are open for each request.
use open_cortex.Base.{
  ℕ, ◌≡◌, ◌≢◌, ◌↔◌, refl, String, Bool, true, false, not, ◌&&◌, ◌||◌, Option, none, some, List, [],
  ◌∷◌, arith, if◌then◌else◌, ◌==◌, string_eq, eq_iff, Option-cases, inl, inr, is_some,
}
use open_cortex.Base.Lists.{contains}
use open_cortex.Base.Sets.{contains-add, contains-discard}
use open_cortex.Base.Dict
use open_cortex.Base.Dict.{Dict, UniqueKeys, get-set}
use open_cortex.Wait.Defs.{
  StoreWaitState, StoreWaitTracker, cleanup, keep_live, expired, is_empty, new_state,
  register_request, register_message, registered, change_state, mark_done, finished, mark_requeued,
  requeued, mark_failed, broken, is_complete, status,
}

-- `m in self._states[r].pending`
unfoldable pub tracked : String → String → StoreWaitTracker → Bool
tracked r m t = elim (Dict.get r t.states) [ none ↦ false | some s ↦ contains m s.pending ]

unfoldable pub known : String → StoreWaitTracker → Bool
known r t = is_some (Dict.get r t.states)

-- One call of a method that changes the tracker.
pub data Call : Type 0 where
  request_call : String → ℕ → Call
  register_call : String → String → ℕ → Call
  done_call : String → String → ℕ → Call
  requeue_call : String → String → ℕ → Call
  fail_call : String → String → String → ℕ → Call
  status_call : String → ℕ → Call

unfoldable pub perform : Call → StoreWaitTracker → StoreWaitTracker
perform (request_call r now) t = register_request r now t
perform (register_call r m now) t = register_message r m now t
perform (done_call r m now) t = mark_done r m now t
perform (requeue_call r m now) t = mark_requeued r m now t
perform (fail_call r m message now) t = mark_failed r m message now t
perform (status_call r now) t = (status r now t).1

-- The ids are given and are those that are looked at.
abbrev pub hits : String → String → String → String → Bool
hits r m r' m' = not (r == "" || m == "") && r == r' && m == m'

-- Whether `m'` is open for `r'` after a call, from whether it was before. `there` says whether the
-- request of the call is known.
abbrev pub open_after : Call → Bool → String → String → Bool → Bool
open_after (request_call r now) there r' m' before = before
open_after (register_call r m now) there r' m' before = if hits r m r' m' then true else before
open_after (done_call r m now) there r' m' before = if hits r m r' m' then false else before
open_after (requeue_call r m now) there r' m' before =
    if there && hits r m r' m' then true else before
open_after (fail_call r m message now) there r' m' before = if hits r m r' m' then false else before
open_after (status_call r now) there r' m' before = before

abbrev pub target : Call → String
target (request_call r now) = r
target (register_call r m now) = r
target (done_call r m now) = r
target (requeue_call r m now) = r
target (fail_call r m message now) = r
target (status_call r now) = r

abbrev drop_expired : ℕ → ℕ → Option StoreWaitState → Option StoreWaitState
drop_expired retention now none = none
drop_expired retention now (some s) = if expired retention now s then none else some s

get-keep_live :
    (retention now : ℕ) (r : String) (d : Dict String StoreWaitState)
    → UniqueKeys d
    → Dict.get r (keep_live retention now d) ≡ drop_expired retention now (Dict.get r d)
unfolding Dict.get keep_live
get-keep_live retention now r [] u = refl
get-keep_live retention now r ((j, s) ∷ d) u =
    ground (arith, get-keep_live retention now r d u.1, eq_iff j r)

pub status-state :
    (r : String) (now : ℕ) (t : StoreWaitTracker) → (status r now t).1 ≡ cleanup now t
unfolding status
status-state r now t = ground arith

module _ (r' m' : String) where
  tracked-cleanup :
      (now : ℕ) (t : StoreWaitTracker)
      → UniqueKeys t.states
      → tracked r' m' (cleanup now t) ≡ tracked r' m' t
  unfolding tracked cleanup expired
  tracked-cleanup now t u = ground (arith, get-keep_live t.retention now r' t.states u)

  tracked-change_state :
      (r m : String) (change : StoreWaitState → StoreWaitState) (t : StoreWaitTracker)
      → tracked r' m' (change_state r m change t) ≡ (
          if not (r == "" || m == "") && r == r' && known r t
          then elim (Dict.get r t.states) [ none ↦ false | some s ↦ contains m' (change s).pending ]
          else tracked r' m' t)
  unfolding tracked change_state known
  tracked-change_state r m change t = elim (Option-cases (Dict.get r t.states)) [
    | inl e ↦ ground arith
    | inr (s, e) ↦ ground (arith, get-set r r' (change s) t.states)
  ]

  tracked-register_request :
      (r : String) (now : ℕ) (t : StoreWaitTracker)
      → UniqueKeys t.states
      → tracked r' m' (register_request r now t) ≡ tracked r' m' t
  unfolding register_request tracked
  tracked-register_request r now t u =
      let live : StoreWaitTracker = cleanup now t in
      elim (Option-cases (Dict.get r live.states)) [
        | inl e ↦
            ground (
              arith,
              eq_iff r r',
              tracked-cleanup now t u,
              get-set r r' (new_state now) live.states,
            )
        | inr (s, e) ↦
            ground (arith, eq_iff r r', tracked-cleanup now t u, get-set r r' s live.states)
      ]

  pub tracked-register_message :
      (r m : String) (now : ℕ) (t : StoreWaitTracker)
      → tracked r' m' (register_message r m now t)
        ≡ (if hits r m r' m' then true else tracked r' m' t)
  unfolding tracked register_message
  tracked-register_message r m now t = elim (Option-cases (Dict.get r t.states)) [
    | inl e ↦ ground (
      arith,
      eq_iff r r',
      contains-add m m' [],
      get-set r r' (registered m now (new_state now)) t.states,
    )
    | inr (s, e) ↦ ground (
      arith,
      eq_iff r r',
      contains-add m m' s.pending,
      get-set r r' (registered m now s) t.states,
    )
  ]

  pub tracked-mark_done :
      (r m : String) (now : ℕ) (t : StoreWaitTracker)
      → tracked r' m' (mark_done r m now t) ≡ (if hits r m r' m' then false else tracked r' m' t)
  unfolding tracked mark_done known
  tracked-mark_done r m now t = elim (Option-cases (Dict.get r t.states)) [
    | inl e ↦ ground (arith, eq_iff r r', tracked-change_state r m (finished m now) t)
    | inr (s, e) ↦ ground (
      arith,
      eq_iff r r',
      contains-discard m m' s.pending,
      tracked-change_state r m (finished m now) t,
    )
  ]

  pub tracked-mark_requeued :
      (r m : String) (now : ℕ) (t : StoreWaitTracker)
      → tracked r' m' (mark_requeued r m now t)
        ≡ (if known r t && hits r m r' m' then true else tracked r' m' t)
  unfolding tracked mark_requeued known
  tracked-mark_requeued r m now t = elim (Option-cases (Dict.get r t.states)) [
    | inl e ↦ ground (arith, eq_iff r r', tracked-change_state r m (requeued m now) t)
    | inr (s, e) ↦ ground (
      arith,
      eq_iff r r',
      contains-add m m' s.pending,
      tracked-change_state r m (requeued m now) t,
    )
  ]

  pub tracked-mark_failed :
      (r m message : String) (now : ℕ) (t : StoreWaitTracker)
      → tracked r' m' (mark_failed r m message now t)
        ≡ (if hits r m r' m' then false else tracked r' m' t)
  unfolding tracked mark_failed known
  tracked-mark_failed r m message now t = elim (Option-cases (Dict.get r t.states)) [
    | inl e ↦ ground (arith, eq_iff r r', tracked-change_state r m (broken m message now) t)
    | inr (s, e) ↦ ground (
      arith,
      eq_iff r r',
      contains-discard m m' s.pending,
      tracked-change_state r m (broken m message now) t,
    )
  ]

  -- Each method changes the open messages as the set of pairs of a request and a message that it
  -- stands for: registering and requeueing put the pair in, done and failed take it out, and asking
  -- for the status, with its clean-up of old requests, changes no pair.
  pub tracked-perform :
      (c : Call) (t : StoreWaitTracker)
      → UniqueKeys t.states
      → tracked r' m' (perform c t) ≡ open_after c (known (target c) t) r' m' (tracked r' m' t)
  unfolding perform
  tracked-perform (request_call r now) t u = tracked-register_request r now t u
  tracked-perform (register_call r m now) t u = tracked-register_message r m now t
  tracked-perform (done_call r m now) t u = tracked-mark_done r m now t
  tracked-perform (requeue_call r m now) t u = tracked-mark_requeued r m now t
  tracked-perform (fail_call r m message now) t u = tracked-mark_failed r m message now t
  tracked-perform (status_call r now) t u = rw status-state (tracked-cleanup now t u)

is_empty_iff : (xs : List String) → (is_empty xs ≡ true) ↔ ((m : String) → contains m xs ≡ false)
is_empty_iff [] = (λ h m. refl, λ h. refl)
is_empty_iff (x ∷ xs) = (λ h m. cc, λ h. ground (arith, h x, eq_iff x x))

-- A request is complete exactly when no message is open for it.
pub is_complete_iff :
    (r : String) (t : StoreWaitTracker)
    → r ≢ ""
    → (is_complete r t ≡ true) ↔ ((m : String) → tracked r m t ≡ false)
unfolding is_complete tracked
is_complete_iff r t given = elim (Option-cases (Dict.get r t.states)) [
  | inl e ↦ (λ h m. ground arith, λ h. ground (arith, eq_iff r ""))
  | inr (s, e) ↦ (
    λ h m. ground (arith, eq_iff r "", (is_empty_iff s.pending).0 (ground (arith, eq_iff r "")) m),
    λ h. ground (arith, eq_iff r "", (is_empty_iff s.pending).1 (λ m. ground (arith, h m))),
  )
]

pub known_of_tracked :
    (r m : String) (t : StoreWaitTracker) → tracked r m t ≡ true → known r t ≡ true
unfolding tracked known
known_of_tracked r m t h = ground arith
