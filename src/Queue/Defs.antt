-- ===== src/Queue/Defs.antt =====
-- The claim of a message and its end: the methods of CFSQueue that a worker calls.
use open_cortex.Base.{
  ℕ, ◌+◌, ◌-◌, max, String, Bool, true, false, ◌&&◌, Option, none, some, List, [], ◌∷◌, ◌++◌, ltb,
  leb, if◌then◌else◌, ◌==◌, nat_eq, string_eq,
}
use open_cortex.Base.Lists.{length, filter}
use open_cortex.Queue.Schema.{
  pending, processing, done, failed, is_pending, is_processing, Row, QueueMessage, CfsQueue, second,
}

-- `__init__` over an empty table: at least one second passes before a claim is stale
unfoldable pub init : {P : Type 0} → ℕ → CfsQueue P
init stale_after = record { stale_after = max second stale_after; rows = [] }

-- `processing_started_at < now - stale_after`, false on NULL
unfoldable pub started_before : ℕ → ℕ → Option ℕ → Bool
started_before stale_after now none = false
started_before stale_after now (some t) = ltb (t + stale_after) now

-- the optional `AND queue_name = ?`; an empty name is no filter
unfoldable pub covers : Option String → String → Bool
covers none name = true
covers (some wanted) name = if wanted == "" then true else name == wanted

-- `int(row["max_attempts"] or 1)`
abbrev pub or_one : ℕ → ℕ
or_one n = if n == 0 then 1 else n

module _ {P : Type 0} where
  -- SELECT … WHERE id = ?
  unfoldable pub find : String → List (Row P) → Option (Row P)
  find key [] = none
  find key (r ∷ rs) = if r.id == key then some r else find key rs

  -- UPDATE … SET change WHERE test
  unfoldable pub update_where : (Row P → Bool) → (Row P → Row P) → List (Row P) → List (Row P)
  update_where test change [] = []
  update_where test change (r ∷ rs) = (if test r then change r else r) ∷ update_where test change rs

  unfoldable pub new_row : String → ℕ → String → P → ℕ → Row P
  new_row message_id now name payload limit = record {
    id = message_id;
    queue_name = name;
    payload = payload;
    status = pending;
    attempts = 0;
    max_attempts = max 1 limit;
    available_at = now;
    processing_started_at = none;
    requeue_count = 0;
    last_error = none;
    created_at = now;
    updated_at = now;
  }

  -- INSERT fails on a primary key that is there already
  unfoldable pub enqueue : String → ℕ → String → P → ℕ → CfsQueue P → Option (CfsQueue P)
  unfolding find new_row
  enqueue message_id now name payload limit q = elim (find message_id q.rows) [
    | some _ ↦ none
    | none ↦ some (record q { rows = q.rows ++ new_row message_id now name payload limit ∷ [] })
  ]

  unfoldable pub is_stale : Option String → ℕ → ℕ → Row P → Bool
  unfolding started_before covers
  is_stale wanted stale_after now r =
      is_processing r.status
      && started_before stale_after now r.processing_started_at
      && covers wanted r.queue_name

  unfoldable pub recovered : ℕ → Row P → Row P
  recovered now r = record r {
    status = pending;
    processing_started_at = none;
    available_at = now;
    requeue_count = r.requeue_count + 1;
    updated_at = now;
  }

  unfoldable pub recover_stale : Option String → ℕ → CfsQueue P → CfsQueue P × ℕ
  unfolding update_where is_stale recovered
  recover_stale wanted now q = (
    record q { rows = update_where (is_stale wanted q.stale_after now) (recovered now) q.rows },
    length (filter (is_stale wanted q.stale_after now) q.rows),
  )

  unfoldable pub claimable : String → ℕ → Row P → Bool
  claimable name now r = r.queue_name == name && is_pending r.status && leb r.available_at now

  -- ORDER BY created_at ASC LIMIT 1
  unfoldable pub oldest : List (Row P) → Option (Row P)
  oldest [] = none
  oldest (r ∷ rs) = elim (oldest rs) [
    | none ↦ some r
    | some s ↦ if leb r.created_at s.created_at then some r else some s
  ]

  unfoldable pub claimed : ℕ → Row P → Row P
  claimed now r = record r {
    status = processing;
    attempts = r.attempts + 1;
    processing_started_at = some now;
    updated_at = now;
  }

  unfoldable pub message_of : Row P → QueueMessage P
  message_of r = record {
    id = r.id;
    queue_name = r.queue_name;
    payload = r.payload;
    attempts = r.attempts + 1;
    max_attempts = or_one r.max_attempts;
  }

  -- the rows after the claim of `r`
  unfoldable pub claim : ℕ → Row P → List (Row P) → List (Row P)
  unfolding update_where claimed
  claim now r = update_where (λ s. s.id == r.id) (claimed now)

  unfoldable pub dequeue : String → ℕ → CfsQueue P → Option (QueueMessage P) × CfsQueue P
  unfolding recover_stale claimable oldest message_of claim
  dequeue name now q =
      let fresh : CfsQueue P = (recover_stale (some name) now q).0 in
      elim (oldest (filter (claimable name now) fresh.rows)) [
        | none ↦ (none, fresh)
        | some r ↦ (some (message_of r), record fresh { rows = claim now r fresh.rows })
      ]

  unfoldable pub acked : ℕ → Row P → Row P
  acked now r = record r { status = done; processing_started_at = none; updated_at = now }

  unfoldable pub ack : String → ℕ → CfsQueue P → CfsQueue P
  unfolding update_where acked
  ack message_id now q = record q {
    rows = update_where (λ r. r.id == message_id) (acked now) q.rows;
  }

  -- `attempts - 1` stops at 0, as the CASE of the source does
  unfoldable pub released : ℕ → ℕ → Row P → Row P
  released delay now r = record r {
    status = pending;
    processing_started_at = none;
    attempts = r.attempts - 1;
    available_at = now + delay;
    updated_at = now;
  }

  unfoldable pub release : String → ℕ → ℕ → CfsQueue P → CfsQueue P
  unfolding update_where released
  release message_id delay now q = record q {
    rows =
        update_where (λ r. r.id == message_id && is_processing r.status) (released delay now)
          q.rows;
  }

  unfoldable pub retried : String → ℕ → ℕ → Row P → Row P
  retried error delay now r = record r {
    status = pending;
    processing_started_at = none;
    available_at = now + delay;
    requeue_count = r.requeue_count + 1;
    last_error = some error;
    updated_at = now;
  }

  unfoldable pub dead : String → ℕ → Row P → Row P
  dead error now r = record r {
    status = failed;
    processing_started_at = none;
    last_error = some error;
    updated_at = now;
  }

  unfoldable pub should_retry : Bool → Row P → Bool
  should_retry retry r = retry && ltb r.attempts (or_one r.max_attempts)

  -- what `fail` makes of the row that it reads and writes
  abbrev pub failure : String → Bool → ℕ → ℕ → Row P → Row P
  failure error retry delay now r =
      if should_retry retry r then retried error delay now r else dead error now r

  unfoldable pub fail : String → String → Bool → ℕ → ℕ → CfsQueue P → CfsQueue P
  unfolding find update_where retried dead should_retry
  fail message_id error retry delay now q = elim (find message_id q.rows) [
    | none ↦ q
    | some row ↦ record q {
      rows =
          update_where (λ r. r.id == message_id)
            (if should_retry retry row then retried error delay now else dead error now) q.rows;
    }
  ]
