-- ===== src/Worker/Others.antt =====
-- What settling one message leaves alone.
use open_cortex.Base.{
  ℕ, ◌≡◌, ◌≢◌, refl, String, ◌&&◌, arith, ltb, if◌then◌else◌, ◌==◌, nat_eq, string_eq, eq_iff,
  Bool-cases, inl, inr,
}
use open_cortex.Queue.{CfsQueue, Row, QueueMessage, find, released, retried, dead, acked}
use open_cortex.Queue.Rows.{find-ack_other, find-release_other, find-fail_other}
use open_cortex.Queue.Validity
use open_cortex.Wait.{StoreWaitTracker}
use open_cortex.Wait.Refinement.{
  tracked, perform, requeue_call, fail_call, done_call, tracked-mark_done, tracked-mark_requeued,
  tracked-mark_failed,
}
use open_cortex.Worker.Failure.{classify_event_failure}
use open_cortex.Wait.Accounting
use open_cortex.Worker.Events.{Codec, Payload}
use open_cortex.Worker.Defs.{Verdict, locked_key, interrupted, failing, succeeded}
use open_cortex.Worker.Agreement.{settled_queue, settled_tracker, settled_row}

module _ (c : Codec) where
  pub others-settled_queue :
      (delay now : ℕ) (v : Verdict) (m : QueueMessage (Payload c.Body))
      (q : CfsQueue (Payload c.Body)) (key : String)
      → key ≢ m.id
      → find key (settled_queue delay now v m q).rows ≡ find key q.rows
  unfolding settled_queue
  others-settled_queue delay now locked_key m q key ne = find-release_other q now m.id key ne delay
  others-settled_queue delay now interrupted m q key ne = refl
  others-settled_queue delay now (failing x) m q key ne = find-fail_other q now m.id key ne _ _ _
  others-settled_queue delay now succeeded m q key ne = find-ack_other q now m.id key ne

  pub settled_queue-IsValid :
      (delay now : ℕ) (v : Verdict) (m : QueueMessage (Payload c.Body))
      (q : CfsQueue (Payload c.Body))
      → Validity.IsValid q
      → Validity.IsValid (settled_queue delay now v m q)
  unfolding settled_queue
  settled_queue-IsValid delay now locked_key m q v = Validity.release-IsValid m.id delay now q v
  settled_queue-IsValid delay now interrupted m q v = v
  settled_queue-IsValid delay now (failing x) m q v = Validity.fail-IsValid m.id _ _ _ now q v
  settled_queue-IsValid delay now succeeded m q v = Validity.ack-IsValid m.id now q v

  pub settled_tracker-IsValid :
      (later : ℕ) (v : Verdict) (m : QueueMessage (Payload c.Body)) (t : StoreWaitTracker)
      → Accounting.IsValid t
      → Accounting.IsValid (settled_tracker later v m t)
  unfolding settled_tracker
  settled_tracker-IsValid later locked_key m t v =
      unfold perform in
      Accounting.perform-IsValid (requeue_call m.payload.request_id m.id later) t v
  settled_tracker-IsValid later interrupted m t v = v
  settled_tracker-IsValid later (failing x) m t v =
      elim (Bool-cases ((classify_event_failure x).retry && ltb m.attempts m.max_attempts)) [
        | inl e ↦ rw e (
            unfold perform in
            Accounting.perform-IsValid (requeue_call m.payload.request_id m.id later) t v)
        | inr e ↦ rw e (
            unfold perform in
            Accounting.perform-IsValid
              (fail_call m.payload.request_id m.id (classify_event_failure x).message later) t v)
      ]
  settled_tracker-IsValid later succeeded m t v =
      unfold perform in Accounting.perform-IsValid (done_call m.payload.request_id m.id later) t v

  others-settled_tracker :
      (later : ℕ) (v : Verdict) (m : QueueMessage (Payload c.Body)) (t : StoreWaitTracker)
      (r key : String)
      → key ≢ m.id
      → tracked r key (settled_tracker later v m t) ≡ tracked r key t
  unfolding settled_tracker
  others-settled_tracker later locked_key m t r key ne =
      ground (arith, eq_iff m.id key, tracked-mark_requeued r key m.payload.request_id m.id later t)
  others-settled_tracker later interrupted m t r key ne = refl
  others-settled_tracker later (failing x) m t r key ne = ground (
    arith,
    eq_iff m.id key,
    tracked-mark_requeued r key m.payload.request_id m.id later t,
    tracked-mark_failed r key m.payload.request_id m.id (classify_event_failure x).message later t,
  )
  others-settled_tracker later succeeded m t r key ne =
      ground (arith, eq_iff m.id key, tracked-mark_done r key m.payload.request_id m.id later t)

  -- The tracker after a message without a request is as it was.
  abbrev pub after_settle :
      ℕ → Verdict → QueueMessage (Payload c.Body) → StoreWaitTracker → StoreWaitTracker
  after_settle later v m t = if m.payload.request_id == "" then t else settled_tracker later v m t

  pub after_settle_other :
      (later : ℕ) (v : Verdict) (m : QueueMessage (Payload c.Body)) (t : StoreWaitTracker)
      (r key : String)
      → key ≢ m.id
      → tracked r key (after_settle later v m t) ≡ tracked r key t
  after_settle_other later v m t r key ne = ground (arith, others-settled_tracker later v m t r key)

  pub after_settle-IsValid :
      (later : ℕ) (v : Verdict) (m : QueueMessage (Payload c.Body)) (t : StoreWaitTracker)
      → Accounting.IsValid t
      → Accounting.IsValid (after_settle later v m t)
  after_settle-IsValid later v m t u = elim (Bool-cases (m.payload.request_id == "")) [
    | inl e ↦ rw e u
    | inr e ↦ rw e (settled_tracker-IsValid later v m t u)
  ]

  pub payload-settled_row :
      (delay now : ℕ) (v : Verdict) (r : Row (Payload c.Body))
      → (settled_row delay now v r).payload ≡ r.payload
  unfolding settled_row released retried dead acked
  payload-settled_row delay now locked_key r = refl
  payload-settled_row delay now interrupted r = refl
  payload-settled_row delay now (failing x) r = ground arith
  payload-settled_row delay now succeeded r = refl
