-- ===== src/Worker/Rejection.antt =====
-- A message that cannot be restored is given up at once.
use open_cortex.Base.{◌⊎◌, ◌≡◌, none, some, List, arith, ℕ, string_eq}
use open_cortex.Queue.{Row, QueueMessage, failed, find, should_retry, dead, retried}
use open_cortex.Worker.Failure.{PyError, value, err, classify_event_failure}
use open_cortex.Worker.Events.{
  Codec, Payload, EventKind, model_validate, OrderingKey, event_type, event_from_payload,
}
use open_cortex.Worker.Defs.{Verdict, EventAction, WorkerState, judge, settle}
use open_cortex.Worker.Agreement.{Holds, settled_row, queue-settle, find-settled_queue}

-- A held message with an event name that the worker does not know, with no event data, or with data
-- that its class rejects with a ValidationError ends as failed, however many attempts it has left and
-- whatever locks are held, with the attempts that it has.
pub rejected_fails :
    (c : Codec) (actions : List EventAction) (held : List OrderingKey) (delay now later : ℕ)
    (m : QueueMessage (Payload c.Body)) (s : WorkerState c.Body) (r : Row (Payload c.Body))
    → (event_type m.payload.event_name ≡ none)
      ⊎ (m.payload.event ≡ none)
      ⊎ ((k : EventKind) × (body : c.Body) × (x : PyError) × (event_type m.payload.event_name
            ≡ some k)
          × (m.payload.event ≡ some body)
          × (c.validate k body ≡ err x)
          × (x.class ≡ value))
    → find m.id s.queue.rows ≡ some r
    → Holds m r
    → (r' : Row (Payload c.Body)) × (find m.id
          (settle delay now later (judge c actions held m) m s).queue.rows
        ≡ some r')
      × (r'.status ≡ failed)
      × (r'.attempts ≡ r.attempts)
unfolding judge event_from_payload model_validate
rejected_fails c actions held delay now later m s r bad e h =
    let v : Verdict = judge c actions held m in
    (
      settled_row delay now v r,
      rw queue-settle (find-settled_queue delay now later v m s.queue r e h),
      unfold settled_row classify_event_failure should_retry dead in ground arith,
      unfold settled_row classify_event_failure should_retry dead retried in ground arith,
    )
