-- ===== src/Worker/Tests.antt =====
-- The theorems on src/opencortex/store/event/worker.py at a concrete queue.
use open_cortex.Base.{inl, ◌≡◌, refl, false, none, some, [], ◌∷◌, arith, eq_iff}
use open_cortex.Base.Dict
use open_cortex.Base.Sets.{add, discard}
use open_cortex.Queue
use open_cortex.Queue.{CfsQueue, Row, QueueMessage, Status, done, failed, processing, find}
use open_cortex.Wait
use open_cortex.Wait.{StoreWaitState, StoreWaitTracker}
use open_cortex.Wait.Refinement.{tracked}
use open_cortex.Worker.Failure.{ok}
use open_cortex.Worker.Events.{
  kind_of, Codec, IsCodec, no_ids, with_profile, ordering_key, stored_fields, StoreWriteEvent,
  Payload, event_type, event_payload, event_from_payload, event_from_payload-event_payload,
}
use open_cortex.Worker.Defs.{succeeded, locked_key, WorkerState, settle, judge, enqueue}
use open_cortex.Worker.Agreement.{Holds, is_active, settle_agrees}
use open_cortex.Worker.Rejection.{rejected_fails}
use open_cortex.Worker.System.{Step, publish, take, finish, ask_start, here, next}
use open_cortex.Worker.Completion.{start_state, complete_means_settled}

-- The JSON data of an event is the event.
abbrev codec : Codec
codec = record { Body = StoreWriteEvent; dump = λ e. e; validate = λ k e. ok e; ids = λ e. no_ids }

codec-IsCodec : IsCodec codec
codec-IsCodec = record { validate-dump = λ e. refl; ids-dump = λ e. refl }

abbrev event : StoreWriteEvent
event = record {
  profile = none;
  fields = stored_fields (record {
    uri = "u";
    record_id = "1";
    context_type = "memory";
    category = "notes";
    layer = "";
    content = "a";
    record_data = [];
  });
}

event_from_payload-event_payload_example :
    (event_from_payload codec (event_payload codec event "r") ≡ ok (with_profile event))
    × (ordering_key (with_profile event) ≡ ordering_key event)
event_from_payload-event_payload_example =
    event_from_payload-event_payload codec codec-IsCodec event "r"

abbrev stored : Payload StoreWriteEvent
stored = record { event_name = "memory_stored"; event = some event; request_id = "r" }

abbrev busy : Payload StoreWriteEvent → Row (Payload StoreWriteEvent)
busy p = record {
  id = "m";
  queue_name = "store_events";
  payload = p;
  status = processing;
  attempts = 1;
  max_attempts = 3;
  available_at = 5;
  processing_started_at = some 6;
  requeue_count = 0;
  last_error = none;
  created_at = 5;
  updated_at = 6;
}

abbrev message : Payload StoreWriteEvent → QueueMessage (Payload StoreWriteEvent)
message p = record {
  id = "m";
  queue_name = "store_events";
  payload = p;
  attempts = 1;
  max_attempts = 3;
}

abbrev waiting_state : StoreWaitState
waiting_state = record {
  pending = "m" ∷ [];
  done = 0;
  failed = 0;
  requeue_count = 0;
  errors = [];
  created_at = 4;
  updated_at = 5;
}

abbrev tracker : StoreWaitTracker
tracker = record { retention = 900000000; states = ("r", waiting_state) ∷ [] }

abbrev state : Payload StoreWriteEvent → WorkerState StoreWriteEvent
state p = record {
  queue = record { stale_after = 300000000; rows = busy p ∷ [] };
  tracker = some tracker;
}

held : (p : Payload StoreWriteEvent) → Holds (message p) (busy p)
held p = record { id = refl; payload = refl; status = refl; attempts = refl; limit = refl }

settle_agrees_example :
    (r' : Row (Payload StoreWriteEvent)) × (t' : StoreWaitTracker) × (find "m"
        (settle 50000 9 10 locked_key (message stored) (state stored)).queue.rows
      ≡ some r')
    × ((settle 50000 9 10 locked_key (message stored) (state stored)).tracker ≡ some t')
    × (tracked "r" "m" t' ≡ is_active r'.status)
unfolding find tracked Dict.get
settle_agrees_example =
    settle_agrees 50000 9 10 locked_key (message stored) (state stored) (busy stored) tracker refl
      (held stored) (λ e. ground (arith, eq_iff "r" "")) (λ e. ground (arith, eq_iff "m" "")) refl
      refl

abbrev unknown_event : Payload StoreWriteEvent
unknown_event = record stored { event_name = "other" }

rejected_fails_example :
    (r' : Row (Payload StoreWriteEvent)) × (find "m"
        (settle 50000 9 10
          (judge codec [] [] (message unknown_event))
          (message unknown_event)
          (state unknown_event)).queue.rows
      ≡ some r')
    × (r'.status ≡ failed)
    × (r'.attempts ≡ 1)
unfolding find event_type
rejected_fails_example =
    rejected_fails codec [] [] 50000 9 10 (message unknown_event) (state unknown_event)
      (busy unknown_event) (inl refl) refl (held unknown_event)

-- A request that publishes one event, and a worker that runs it.
abbrev asked : WorkerState StoreWriteEvent
asked = record {
  queue = record { stale_after = 300000000; rows = [] };
  tracker = some (record tracker {
    states = ("r", record waiting_state { pending = []; updated_at = 4 }) ∷ [];
  });
}

abbrev fresh_row : Row (Payload StoreWriteEvent)
fresh_row = record (busy stored) {
  status = Status.pending;
  attempts = 0;
  processing_started_at = none;
  updated_at = 5;
}

abbrev published : WorkerState StoreWriteEvent
published = record {
  queue = record { stale_after = 300000000; rows = fresh_row ∷ [] };
  tracker = some tracker;
}

abbrev over : WorkerState StoreWriteEvent
over = settle 50000 9 10 succeeded (message stored) (state stored)

to_asked : Step codec (start_state codec 300000000 900000000) asked
unfolding Queue.init Wait.init Wait.register_request Dict.get Dict.set
to_asked = ask_start "r" 4

to_published : Step codec asked published
unfolding enqueue Queue.enqueue event_payload kind_of Wait.register_message Dict.get Dict.set add
to_published = publish "store_events" 3 "m" 5 event "r" (λ e. ground (arith, eq_iff "m" "")) refl

to_taken : Step codec published (state stored)
unfolding Queue.dequeue
to_taken = take "store_events" 6

to_over : Step codec (state stored) over
unfolding find
to_over = finish 50000 9 10 succeeded (message stored) (busy stored) refl (held stored)

complete_means_settled_example : is_active done ≡ false
unfolding find settle Queue.ack Wait.mark_done Wait.is_complete Dict.get Dict.set discard
complete_means_settled_example =
    complete_means_settled codec 300000000 900000000 over
      (record tracker {
        states = ("r", record waiting_state { pending = []; done = 1; updated_at = 10 }) ∷ [];
      })
      "m" (record (busy stored) { status = done; processing_started_at = none; updated_at = 9 })
      (next (next (next (next here to_asked) to_published) to_taken) to_over) refl refl
      (λ e. ground (arith, eq_iff "r" "")) refl
