-- ===== src/Queue/Retry.antt =====
-- How often a message is tried, and that a release gives a try back.
use mathlib.Core.Option
use open_cortex.Base.{
  ℕ, suc, ◌+◌, ◌≤◌, ◌<◌, ◌≡◌, refl, String, true, none, some, arith, nat_eq, string_eq, eq_iff, ap,
  sym, ◌∙◌,
}
use open_cortex.Queue.Schema.{CfsQueue, Row, QueueMessage, pending, failed}
use open_cortex.Queue.Defs.{
  find, dequeue, fail, release, released, claimed, retried, dead, should_retry, or_one, failure,
  is_stale, claimable,
}
use open_cortex.Queue.Table.{NodupIds, find_id}
use open_cortex.Queue.Rows.{find-fail, find-release, find-recover_stale}
use open_cortex.Queue.Claim.{refreshed, dequeue_claims}

module _ {P : Type 0} (i : String) where
  -- `Tried n q p`: from `q` to `p` the message `i` was claimed and then failed with a retry `n` times;
  -- in between, also between a claim and its failure, come calls that leave its row.
  pub data Tried (q : CfsQueue P) : ℕ → CfsQueue P → Type 0 where
    start : Tried q 0 q
    others :
        {n : ℕ} {p p' : CfsQueue P} → Tried q n p → find i p'.rows ≡ find i p.rows → Tried q n p'
    again :
        {n : ℕ} {p p' : CfsQueue P} (p'' : CfsQueue P) (name : String) (now : ℕ)
        (m : QueueMessage P) (error : String) (delay later : ℕ)
        → Tried q n p
        → NodupIds p.rows
        → dequeue name now p ≡ (some m, p')
        → m.id ≡ i
        → find i p''.rows ≡ find i p'.rows
        → Tried q (suc n) (fail i error true delay later p'')

  -- What is true of the row after `n` tries.
  pub record IsTried (before : Row P) (n : ℕ) (after : Row P) : Type 0 where
    pub attempts : after.attempts ≡ before.attempts + n
    pub limit : after.max_attempts ≡ before.max_attempts
    pub open_below : before.attempts + n < or_one before.max_attempts → after.status ≡ pending
    pub failed_at : or_one before.max_attempts ≤ before.attempts + n → after.status ≡ failed
    pub bounded : before.attempts + n ≤ or_one before.max_attempts

  one_more :
      (before r : Row P) (n : ℕ) (name : String) (now : ℕ) (error : String) (delay later : ℕ)
      → IsTried before n r
      → claimable name now r ≡ true
      → IsTried before (suc n) (failure error true delay later (claimed now r))
  unfolding claimable claimed should_retry retried dead
  one_more before r n name now error delay later h open' = record {
    attempts = ground (arith, h.attempts);
    limit = ground (arith, h.limit);
    open_below = λ lt. ground (arith, h.attempts, h.limit);
    failed_at = λ le. ground (arith, h.attempts, h.limit);
    bounded = ground (arith, h.attempts, h.limit, h.failed_at, h.bounded);
  }

  -- The recovery of stale claims does not touch a row between two tries.
  still_there :
      (p : CfsQueue P) (before r : Row P) (n : ℕ) (name : String) (now : ℕ)
      → find i p.rows ≡ some r
      → IsTried before n r
      → find i (refreshed name now p).rows ≡ some r
  unfolding is_stale
  still_there p before r n name now e h =
      ground (arith, find-recover_stale p now i (some name), h.open_below, h.failed_at)

  -- If a message that was pending with attempts left was claimed and then failed with a retry `n`
  -- times, and all other calls left its row, then it has `n` attempts more, at most `max_attempts`
  -- (at least 1): it is pending below that, and failed when they are reached.
  pub retries_bounded :
      (q p : CfsQueue P) (before : Row P) (n : ℕ)
      → find i q.rows ≡ some before
      → before.status ≡ pending
      → before.attempts < or_one before.max_attempts
      → Tried q n p
      → (after : Row P) × (find i p.rows ≡ some after) × IsTried before n after
  retries_bounded q p before n e w lt start = (
    before,
    e,
    record {
      attempts = omega arith;
      limit = refl;
      open_below = λ _. w;
      failed_at = λ le. absurd (omega arith);
      bounded = omega arith;
    },
  )
  retries_bounded q p before n e w lt (others {p = p₁} t same) =
      let (r, er, tr) = retries_bounded q p₁ before n e w lt t in (r, same ∙ er, tr)
  retries_bounded q p before n e w lt
        (again {n = k} {p = p₁} {p' = p₂} p₃ name now m error delay later t u taken key left) =
      let (r, er, tr) = retries_bounded q p₁ before k e w lt t in
      let (r', _, at, free, _, claimed_at) = dequeue_claims name now p₁ m p₂ u taken in
      let here : find i (refreshed name now p₁).rows ≡ some r =
        still_there p₁ before r k name now er tr in
      let same : some r' ≡ some r =
        sym at ∙ ap (λ j. find j (refreshed name now p₁).rows) key ∙ here in
      let row : find i p₃.rows ≡ some (claimed now r') =
        left ∙ sym (ap (λ j. find j p₂.rows) key) ∙ claimed_at in
      let same' : r' ≡ r = cc in
      (
        failure error true delay later (claimed now r'),
        rw (find-fail p₃ later i error true delay)
            (ap (Option.map (failure error true delay later)) row),
        one_more before r' k name now error delay later (rw same' tr) free,
      )

-- With unique ids, a claim and at once its release leave the message's row pending and as the
-- recovery of stale claims at the claim's begin left it, with its number of attempts, except for no
-- start of processing, `available_at` after the delay, and `updated_at`.
pub release_returns :
    {P : Type 0} (name : String) (now : ℕ) (q q' : CfsQueue P) (m : QueueMessage P)
    (delay later : ℕ)
    → NodupIds q.rows
    → dequeue name now q ≡ (some m, q')
    → (r : Row P) × (find m.id (refreshed name now q).rows ≡ some r)
      × (r.status ≡ pending)
      × (find m.id (release m.id delay later q').rows
          ≡ some (record r {
            processing_started_at = none;
            available_at = later + delay;
            updated_at = later;
          }))
unfolding claimable claimed released
release_returns name now q q' m delay later u h =
    let (r, shape, at, free, _, taken) = dequeue_claims name now q m q' u h in
    let idle : r.status ≡ pending = ground arith in
    (
      r,
      at,
      idle,
      ground (
        arith,
        find-release q' later m.id m.id delay,
        eq_iff m.id m.id,
        find_id m.id (refreshed name now q).rows r,
      ),
    )
