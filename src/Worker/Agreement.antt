-- ===== src/Worker/Agreement.antt =====
-- The queue and the tracker say the same about a message: it is open for its request exactly while
-- its row is pending or processing.
use open_cortex.Base.{
  ℕ, ◌≡◌, ◌≢◌, refl, Bool, true, false, ◌&&◌, some, arith, ltb, if◌then◌else◌, ◌==◌, nat_eq,
  string_eq, eq_iff,
}
use open_cortex.Queue.{
  CfsQueue, Row, QueueMessage, Status, pending, processing, find, ack, acked, release, released,
  fail, failure, should_retry, retried, dead, or_one,
}
use open_cortex.Queue.Rows.{find-ack, find-release, find-fail}
use open_cortex.Wait.{StoreWaitTracker, mark_done, mark_requeued, mark_failed}
use open_cortex.Wait.Refinement.{
  tracked, tracked-mark_done, tracked-mark_requeued, tracked-mark_failed,
}
use open_cortex.Worker.Failure.{PyError, classify_event_failure}
use open_cortex.Worker.Events.{Payload}
use open_cortex.Worker.Defs.{
  Verdict, locked_key, interrupted, failing, succeeded, WorkerState, settle,
}

abbrev pub is_active : Status → Bool
is_active pending = true
is_active processing = true
is_active _ = false

module _ {B : Type 0} where
  -- The row that `m` was claimed from, as the claim left it.
  pub record Holds (m : QueueMessage (Payload B)) (r : Row (Payload B)) : Type 0 where
    pub id : r.id ≡ m.id
    pub payload : r.payload ≡ m.payload
    pub status : r.status ≡ processing
    pub attempts : r.attempts ≡ m.attempts
    pub limit : or_one r.max_attempts ≡ m.max_attempts

  -- The row that a verdict leaves.
  unfoldable pub settled_row : ℕ → ℕ → Verdict → Row (Payload B) → Row (Payload B)
  settled_row delay now locked_key r = released delay now r
  settled_row delay now interrupted r = r
  settled_row delay now (failing x) r =
      failure (classify_event_failure x).message (classify_event_failure x).retry
        (classify_event_failure x).delay now r
  settled_row delay now succeeded r = acked now r

  unfoldable pub settled_queue :
      ℕ → ℕ → Verdict → QueueMessage (Payload B) → CfsQueue (Payload B) → CfsQueue (Payload B)
  settled_queue delay now locked_key m q = release m.id delay now q
  settled_queue delay now interrupted m q = q
  settled_queue delay now (failing x) m q =
      fail m.id (classify_event_failure x).message (classify_event_failure x).retry
        (classify_event_failure x).delay now q
  settled_queue delay now succeeded m q = ack m.id now q

  -- The change of the tracker for a message with a request id.
  unfoldable pub settled_tracker :
      ℕ → Verdict → QueueMessage (Payload B) → StoreWaitTracker → StoreWaitTracker
  settled_tracker later locked_key m t = mark_requeued m.payload.request_id m.id later t
  settled_tracker later interrupted m t = t
  settled_tracker later (failing x) m t =
      if (classify_event_failure x).retry && ltb m.attempts m.max_attempts
      then mark_requeued m.payload.request_id m.id later t
      else mark_failed m.payload.request_id m.id (classify_event_failure x).message later t
  settled_tracker later succeeded m t = mark_done m.payload.request_id m.id later t

  module _ (delay now later : ℕ) where
    pub queue-settle :
        (v : Verdict) (m : QueueMessage (Payload B)) (s : WorkerState B)
        → (settle delay now later v m s).queue ≡ settled_queue delay now v m s.queue
    unfolding settle settled_queue
    queue-settle locked_key m s = ground arith
    queue-settle interrupted m s = refl
    queue-settle (failing x) m s = ground arith
    queue-settle succeeded m s = ground arith

    pub tracker-settle :
        (v : Verdict) (m : QueueMessage (Payload B)) (s : WorkerState B) (t : StoreWaitTracker)
        → s.tracker ≡ some t
        → (settle delay now later v m s).tracker
          ≡ some (if m.payload.request_id == "" then t else settled_tracker later v m t)
    unfolding settle settled_tracker
    tracker-settle locked_key m s t e = ground arith
    tracker-settle interrupted m s t e = ground arith
    tracker-settle (failing x) m s t e = ground arith
    tracker-settle succeeded m s t e = ground arith

    pub find-settled_queue :
        (v : Verdict) (m : QueueMessage (Payload B)) (q : CfsQueue (Payload B))
        (r : Row (Payload B))
        → find m.id q.rows ≡ some r
        → Holds m r
        → find m.id (settled_queue delay now v m q).rows ≡ some (settled_row delay now v r)
    unfolding settled_queue settled_row
    find-settled_queue locked_key m q r e h =
        ground (arith, find-release q now m.id m.id delay, eq_iff r.id m.id, h.id, h.status)
    find-settled_queue interrupted m q r e h = e
    find-settled_queue (failing x) m q r e h = ground (
      arith,
      find-fail q now m.id (classify_event_failure x).message (classify_event_failure x).retry
          (classify_event_failure x).delay,
    )
    find-settled_queue succeeded m q r e h =
        ground (arith, find-ack q now m.id m.id, eq_iff r.id m.id, h.id)

    -- A requeued message that was open is open.
    requeued_open :
        (m : QueueMessage (Payload B)) (t : StoreWaitTracker)
        → tracked m.payload.request_id m.id t ≡ true
        → tracked m.payload.request_id m.id (mark_requeued m.payload.request_id m.id later t) ≡ true
    requeued_open m t open' = ground (
      arith,
      tracked-mark_requeued m.payload.request_id m.id m.payload.request_id m.id later t,
      open',
    )

    failing_agrees :
        (x : PyError) (m : QueueMessage (Payload B)) (t : StoreWaitTracker) (r : Row (Payload B))
        → Holds m r
        → m.payload.request_id ≢ ""
        → m.id ≢ ""
        → tracked m.payload.request_id m.id t ≡ true
        → tracked m.payload.request_id m.id (settled_tracker later (failing x) m t)
          ≡ is_active (settled_row delay now (failing x) r).status
    unfolding settled_tracker settled_row should_retry retried dead
    failing_agrees x m t r h g g' open' = ground (
      arith,
      requeued_open m t,
      tracked-mark_failed m.payload.request_id m.id m.payload.request_id m.id
          (classify_event_failure x).message later t,
      h.attempts,
      h.limit,
      eq_iff m.payload.request_id "",
      eq_iff m.id "",
      eq_iff m.payload.request_id m.payload.request_id,
      eq_iff m.id m.id,
    )

    pub tracked-settled_tracker :
        (v : Verdict) (m : QueueMessage (Payload B)) (t : StoreWaitTracker) (r : Row (Payload B))
        → Holds m r
        → m.payload.request_id ≢ ""
        → m.id ≢ ""
        → tracked m.payload.request_id m.id t ≡ true
        → tracked m.payload.request_id m.id (settled_tracker later v m t)
          ≡ is_active (settled_row delay now v r).status
    unfolding settled_tracker settled_row released acked
    tracked-settled_tracker locked_key m t r h g g' open' = requeued_open m t open'
    tracked-settled_tracker interrupted m t r h g g' open' = ground (arith, h.status)
    tracked-settled_tracker (failing x) m t r h g g' open' = failing_agrees x m t r h g g' open'
    tracked-settled_tracker succeeded m t r h g g' open' = ground (
      arith,
      tracked-mark_done m.payload.request_id m.id m.payload.request_id m.id later t,
      eq_iff m.payload.request_id "",
      eq_iff m.id "",
      eq_iff m.payload.request_id m.payload.request_id,
      eq_iff m.id m.id,
    )

  -- Whatever the verdict on a message that is still held, has an id and a request id, and is open for
  -- its request in the tracker: its row is active afterwards, pending or processing, exactly if the
  -- tracker still has it open.
  pub settle_agrees :
      (delay now later : ℕ) (v : Verdict) (m : QueueMessage (Payload B)) (s : WorkerState B)
      (r : Row (Payload B)) (t : StoreWaitTracker)
      → find m.id s.queue.rows ≡ some r
      → Holds m r
      → m.payload.request_id ≢ ""
      → m.id ≢ ""
      → s.tracker ≡ some t
      → tracked m.payload.request_id m.id t ≡ true
      → (r' : Row (Payload B)) × (t' : StoreWaitTracker) × (find m.id
            (settle delay now later v m s).queue.rows
          ≡ some r')
        × ((settle delay now later v m s).tracker ≡ some t')
        × (tracked m.payload.request_id m.id t' ≡ is_active r'.status)
  settle_agrees delay now later v m s r t e h g g' held open' = (
    settled_row delay now v r,
    settled_tracker later v m t,
    rw queue-settle (find-settled_queue delay now later v m s.queue r e h),
    rw (tracker-settle delay now later v m s t held)
        (ground (arith, eq_iff m.payload.request_id "")),
    tracked-settled_tracker delay now later v m t r h g g' open',
  )
