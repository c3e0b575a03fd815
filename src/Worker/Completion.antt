-- ===== src/Worker/Completion.antt =====
-- A request that the tracker calls complete has no work left in the queue.
use open_cortex.Base.{
  ℕ, ◌≡◌, ◌≢◌, refl, sym, ◌∙◌, String, true, false, some, [], arith, nat_eq, string_eq,
}
use open_cortex.Queue
use open_cortex.Queue.{
  CfsQueue, Row, QueueMessage, Status, find, new_row, dequeue, recover_stale, is_stale, recovered,
  claim, claimed, claimable, released, retried, dead, acked,
}
use open_cortex.Queue.Validity
use open_cortex.Wait
use open_cortex.Wait.{StoreWaitTracker, register_message, is_complete}
use open_cortex.Wait.Refinement.{
  tracked, perform, tracked-perform, is_complete_iff, request_call, status_call,
}
use open_cortex.Wait.Accounting
use open_cortex.Worker.Events.{Codec, Payload}
use open_cortex.Worker.Defs.{WorkerState}
use open_cortex.Worker.Agreement.{is_active}
use open_cortex.Worker.System.{
  request_of, Step, publish, take, finish, ask_start, ask_status, Reach, here, next, Agrees,
}
use open_cortex.Worker.Taking.{take-Agrees}
use open_cortex.Worker.Settling.{finish-Agrees}
use open_cortex.Worker.Publishing.{ask-Agrees, publish-Agrees}

module _ (c : Codec) where
  Step-Agrees : {s s' : WorkerState c.Body} → Step c s s' → Agrees c s → Agrees c s'
  Step-Agrees {s} (publish {s' = s₁} name limit i now e request given h) a =
      publish-Agrees c name limit i now e request s s₁ given h a
  Step-Agrees {s} (take name now) a = take-Agrees c name now s a
  Step-Agrees {s} (finish delay now later v m r e h) a =
      finish-Agrees c delay now later v m s r e h a
  Step-Agrees {s} (ask_start r now) a =
      unfold perform in
      ask-Agrees c (request_call r now) s
        (λ t r' m u. tracked-perform r' m (request_call r now) t u.unique) a
  Step-Agrees {s} (ask_status r now) a =
      unfold perform in
      ask-Agrees c (status_call r now) s
        (λ t r' m u. tracked-perform r' m (status_call r now) t u.unique) a

  Reach-Agrees : {s s' : WorkerState c.Body} → Agrees c s → Reach c s s' → Agrees c s'
  Reach-Agrees a here = a
  Reach-Agrees a (next path step) = Step-Agrees step (Reach-Agrees a path)

  -- An empty queue and a new tracker.
  abbrev pub start_state : ℕ → ℕ → WorkerState c.Body
  start_state stale_after retention = record {
    queue = Queue.init stale_after;
    tracker = some (Wait.init retention);
  }

  start-Agrees : (stale_after retention : ℕ) → Agrees c (start_state stale_after retention)
  start-Agrees stale_after retention = record {
    tracker = Wait.init retention;
    kept = refl;
    queue_valid = Validity.init-IsValid stale_after;
    tracker_valid = unfold Accounting.perform_all in Accounting.tracker-IsValid retention [];
    named = unfold Queue.init find in refl;
    agree = λ key r e g. unfold Queue.init find in cc;
  }

  -- However workers, publishers and requests take turns from an empty queue, as long as workers settle
  -- only messages whose claims they hold: when the tracker calls a request complete, every row of
  -- the queue that was published for it is done or failed.
  pub complete_means_settled :
      (stale_after retention : ℕ) (s : WorkerState c.Body) (t : StoreWaitTracker) (key : String)
      (r : Row (Payload c.Body))
      → Reach c (start_state stale_after retention) s
      → s.tracker ≡ some t
      → find key s.queue.rows ≡ some r
      → request_of r ≢ ""
      → is_complete (request_of r) t ≡ true
      → is_active r.status ≡ false
  complete_means_settled stale_after retention s t key r path held e g done' =
      let a : Agrees c s = Reach-Agrees (start-Agrees stale_after retention) path in
      let same : some t ≡ some a.tracker = sym held ∙ a.kept in
      let closed : tracked (request_of r) key t ≡ false =
        (is_complete_iff (request_of r) t g).0 done' key in
      ground (arith, same, closed, a.agree key r e g)
