-- ===== src/Worker/Defs.antt =====
-- src/opencortex/store/event/worker.py: `EventWorker`.
-- A message is settled in one step: the queue's update and the tracker's follow one another, each
-- with its own clock. What happened while the actions ran is in the state that `settle` is given.
use open_cortex.Base.{
  ℕ, String, Bool, true, false, ◌&&◌, Option, none, some, List, [], ◌∷◌, ltb, if◌then◌else◌, ◌==◌,
  string_eq, pair_eq,
}
use open_cortex.Base.Lists.{filter, contains}
use open_cortex.Queue.{CfsQueue, QueueMessage, dequeue, ack, release, fail}
use open_cortex.Queue
use open_cortex.Wait.{StoreWaitTracker, register_message, mark_done, mark_requeued, mark_failed}
use open_cortex.Worker.Failure.{PyError, ok, err, classify_event_failure}
use open_cortex.Worker.Events.{
  EventKind, check_update, memory_stored, session_turn_stored, session_merged, session_ended, kind,
  StoreWriteEvent, OrderingKey, ordering_key, Codec, Payload, event_payload, event_from_payload,
}

-- The event type of an action: the base class `MemoryEvent`, or one class.
pub data ActionType : Type 0 where
  any_event : ActionType
  only : EventKind → ActionType

-- How a run ends; `cancelled` is asyncio.CancelledError.
pub data Outcome : Type 0 where
  finished : Outcome
  raised : PyError → Outcome
  cancelled : Outcome

-- An action may change the event that later actions get.
pub record EventAction : Type 0 where
  pub event_type : ActionType
  pub run : StoreWriteEvent → Outcome × StoreWriteEvent

abbrev pub same_kind : EventKind → EventKind → Bool
same_kind memory_stored memory_stored = true
same_kind check_update check_update = true
same_kind session_turn_stored session_turn_stored = true
same_kind session_merged session_merged = true
same_kind session_ended session_ended = true
same_kind _ _ = false

-- `isinstance(event, action.event_type)`
unfoldable pub accepts : ActionType → EventKind → Bool
accepts any_event kind = true
accepts (only k) kind = same_kind k kind

-- `action.event_type is CheckUpdateEvent`
unfoldable pub only_check_update : ActionType → Bool
only_check_update any_event = false
only_check_update (only k) = same_kind k check_update

unfoldable pub actions_for : StoreWriteEvent → List EventAction → List EventAction
unfolding accepts only_check_update
actions_for e actions =
    if same_kind (kind e) check_update
    then filter (λ a. only_check_update a.event_type) actions
    else filter (λ a. accepts a.event_type (kind e)) actions

-- The failures of the actions in order, or `none` if the task was cancelled.
unfoldable pub run_actions : List EventAction → StoreWriteEvent → Option (List PyError)
run_actions [] e = some []
run_actions (a ∷ actions) e =
    let (outcome, e') = a.run e in
    let rest = run_actions actions e' in
    elim outcome [
      | finished ↦ rest
      | raised x ↦ elim rest [ none ↦ none | some xs ↦ some (x ∷ xs) ]
      | cancelled ↦ none
    ]

unfoldable pub handle : List EventAction → StoreWriteEvent → Option (List PyError)
unfolding actions_for run_actions
handle actions e = run_actions (actions_for e actions) e

-- What `process` found when it comes to update the queue.
pub data Verdict : Type 0 where
  locked_key : Verdict
  interrupted : Verdict
  failing : PyError → Verdict
  succeeded : Verdict

unfoldable pub verdict_of : Option (List PyError) → Verdict
verdict_of none = interrupted
verdict_of (some []) = succeeded
verdict_of (some (x ∷ xs)) = failing x

pub record WorkerState (Body : Type 0) : Type 0 where
  pub queue : CfsQueue (Payload Body)
  pub tracker : Option StoreWaitTracker

module _ (c : Codec) where
  -- The body of the `try` of `process`, over the keys whose locks are held.
  unfoldable pub judge :
      List EventAction → List OrderingKey → QueueMessage (Payload c.Body) → Verdict
  unfolding handle verdict_of
  judge actions held m = elim (event_from_payload c m.payload) [
    | err x ↦ failing x
    | ok e ↦
        let result = handle actions e in
        if contains (ordering_key e) held then locked_key else verdict_of result
  ]

abbrev Message : Type 0 → Type 0
Message B = QueueMessage (Payload B)

-- `mark_wait_done` and its siblings: nothing without a tracker or a request id
unfoldable pub mark_wait :
    {B : Type 0}
    → (String → String → StoreWaitTracker → StoreWaitTracker)
    → QueueMessage (Payload B)
    → WorkerState B
    → WorkerState B
mark_wait mark m s = if m.payload.request_id == "" then s else elim s.tracker [
  | none ↦ s
  | some t ↦ record s { tracker = some (mark m.payload.request_id m.id t) }
]

module _ {B : Type 0} (delay now later : ℕ) where
  unfoldable pub settle_failure : PyError → QueueMessage (Payload B) → WorkerState B → WorkerState B
  unfolding mark_wait
  settle_failure x m s =
      let failure = classify_event_failure x in
      let failed_queue = fail m.id failure.message failure.retry failure.delay now s.queue in
      mark_wait
        (if failure.retry && ltb m.attempts m.max_attempts
          then (λ r i. mark_requeued r i later)
          else (λ r i. mark_failed r i failure.message later))
        m (record s { queue = failed_queue })

  -- The rest of `process`: the queue and the request's progress after the verdict.
  unfoldable pub settle : Verdict → QueueMessage (Payload B) → WorkerState B → WorkerState B
  unfolding mark_wait settle_failure
  settle locked_key m s =
      mark_wait (λ r i. mark_requeued r i later) m
        (record s { queue = release m.id delay now s.queue })
  settle interrupted m s = s
  settle (failing x) m s = settle_failure x m s
  settle succeeded m s =
      mark_wait (λ r i. mark_done r i later) m (record s { queue = ack m.id now s.queue })

-- `enqueue` with the id that the queue draws: a taken id raises, and nothing changes.
unfoldable pub enqueue :
    (c : Codec)
    → String
    → ℕ
    → String
    → ℕ
    → StoreWriteEvent
    → String
    → WorkerState c.Body
    → Option (WorkerState c.Body)
enqueue c queue_name limit message_id now e request s =
    elim (Queue.enqueue message_id now queue_name (event_payload c e request) limit s.queue) [
      | none ↦ none
      | some q ↦ some (record s {
        queue = q;
        tracker = elim s.tracker [
          | none ↦ none
          | some t ↦ some (if request == "" then t else register_message request message_id now t)
        ];
      })
    ]
