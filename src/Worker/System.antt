-- ===== src/Worker/System.antt =====
-- Workers, publishers and waiting requests over one queue and one tracker, as a step relation, and
-- the invariant that joins the two.
use mathlib.Core.Option
use open_cortex.Base.{ℕ, ◌≡◌, ◌≢◌, String, none, some, nat_eq, string_eq}
use open_cortex.Queue.{Row, QueueMessage, find, dequeue}
use open_cortex.Queue.Validity
use open_cortex.Wait
use open_cortex.Wait.{StoreWaitTracker, register_message, is_complete}
use open_cortex.Wait.Refinement.{tracked}
use open_cortex.Wait.Accounting
use open_cortex.Worker.Events.{Codec, Payload, StoreWriteEvent}
use open_cortex.Worker.Defs.{Verdict, WorkerState, settle, enqueue}
use open_cortex.Worker.Agreement.{is_active, Holds}

abbrev pub request_of : {B : Type 0} → Row (Payload B) → String
request_of r = r.payload.request_id

module _ (c : Codec) where
  -- One step of the system. A worker settles a message whose claim it holds.
  pub data Step (s : WorkerState c.Body) : WorkerState c.Body → Type 0 where
    publish :
        {s' : WorkerState c.Body} (name : String) (limit : ℕ) (i : String) (now : ℕ)
        (e : StoreWriteEvent) (request : String)
        → i ≢ ""
        → enqueue c name limit i now e request s ≡ some s'
        → Step s s'
    take : (name : String) (now : ℕ) → Step s (record s { queue = (dequeue name now s.queue).1 })
    finish :
        (delay now later : ℕ) (v : Verdict) (m : QueueMessage (Payload c.Body))
        (r : Row (Payload c.Body))
        → find m.id s.queue.rows ≡ some r
        → Holds m r
        → Step s (settle delay now later v m s)
    ask_start :
        (r : String) (now : ℕ)
        → Step s (record s { tracker = Option.map (Wait.register_request r now) s.tracker })
    ask_status :
        (r : String) (now : ℕ)
        → Step s (record s { tracker = Option.map (λ t. (Wait.status r now t).1) s.tracker })

  pub data Reach (s : WorkerState c.Body) : WorkerState c.Body → Type 0 where
    here : Reach s s
    next : {t u : WorkerState c.Body} → Reach s t → Step t u → Reach s u

  -- The queue and the tracker are in order and agree on every row of a request.
  pub record Agrees (s : WorkerState c.Body) : Type 0 where
    pub tracker : StoreWaitTracker
    pub kept : s.tracker ≡ some tracker
    pub queue_valid : Validity.IsValid s.queue
    pub tracker_valid : Accounting.IsValid tracker
    pub named : find "" s.queue.rows ≡ none
    pub agree :
        (key : String) (r : Row (Payload c.Body))
        → find key s.queue.rows ≡ some r
        → request_of r ≢ ""
        → tracked (request_of r) key tracker ≡ is_active r.status
