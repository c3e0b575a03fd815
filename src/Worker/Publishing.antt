-- ===== src/Worker/Publishing.antt =====
-- Publishing an event, and asking for a request, keep the queue and the tracker in agreement.
use mathlib.Core.Option
use open_cortex.Base.{
  ℕ, ◌≡◌, ◌≢◌, refl, ◌∙◌, String, true, ◌&&◌, some, arith, if◌then◌else◌, ◌==◌, nat_eq, string_eq,
  eq_iff, Bool-cases, Option-cases, inl, inr,
}
use open_cortex.Queue
use open_cortex.Queue.{
  CfsQueue, Row, QueueMessage, Status, find, new_row, dequeue, recover_stale, is_stale, recovered,
  claim, claimed, claimable, released, retried, dead, acked,
}
use open_cortex.Queue.Rows.{find-enqueue}
use open_cortex.Queue.Validity
use open_cortex.Wait.{StoreWaitTracker, register_message}
use open_cortex.Wait.Refinement.{tracked, Call, perform, register_call, tracked-register_message}
use open_cortex.Wait.Accounting
use open_cortex.Worker.Events.{Codec, Payload, StoreWriteEvent, event_payload}
use open_cortex.Worker.Defs.{WorkerState, enqueue}
use open_cortex.Worker.System.{request_of, Agrees}

module _ (c : Codec) where
  pub ask-Agrees :
      (call : Call) (s : WorkerState c.Body)
      → ((t : StoreWaitTracker) (r m : String)
          → Accounting.IsValid t
          → tracked r m (perform call t) ≡ tracked r m t)
      → Agrees c s
      → Agrees c (record s { tracker = Option.map (perform call) s.tracker })
  ask-Agrees call s same a = record {
    tracker = perform call a.tracker;
    kept = rw a.kept;
    queue_valid = a.queue_valid;
    tracker_valid = Accounting.perform-IsValid call a.tracker a.tracker_valid;
    named = a.named;
    agree = λ key r e g. same a.tracker (request_of r) key a.tracker_valid ∙ a.agree key r e g;
  }

  -- The tracker after the registration of a message, if it has a request.
  abbrev opened : String → String → ℕ → StoreWaitTracker → StoreWaitTracker
  opened request i now t = if request == "" then t else register_message request i now t

  tracked-opened :
      (request i : String) (now : ℕ) (t : StoreWaitTracker) (r key : String)
      → i ≢ ""
      → r ≢ ""
      → tracked r key (opened request i now t)
        ≡ (if request == r && i == key then true else tracked r key t)
  tracked-opened request i now t r key given asked = ground (
    arith,
    eq_iff request "",
    eq_iff i "",
    eq_iff request r,
    eq_iff r "",
    tracked-register_message r key request i now t,
  )

  opened-IsValid :
      (request i : String) (now : ℕ) (t : StoreWaitTracker)
      → Accounting.IsValid t
      → Accounting.IsValid (opened request i now t)
  opened-IsValid request i now t u = elim (Bool-cases (request == "")) [
    | inl e ↦ rw e u
    | inr e ↦ rw e (unfold perform in Accounting.perform-IsValid (register_call request i now) t u)
  ]

  published-Agrees :
      (name : String) (limit : ℕ) (i : String) (now : ℕ) (payload : Payload c.Body)
      (s : WorkerState c.Body) (q : CfsQueue (Payload c.Body))
      → i ≢ ""
      → Queue.enqueue i now name payload limit s.queue ≡ some q
      → (a : Agrees c s)
      → Agrees c
          (record s { queue = q; tracker = some (opened payload.request_id i now a.tracker) })
  unfolding new_row
  published-Agrees name limit i now payload s q given f a = record {
    tracker = opened payload.request_id i now a.tracker;
    kept = refl;
    queue_valid = Validity.enqueue-IsValid i now name payload limit s.queue q a.queue_valid f;
    tracker_valid = opened-IsValid payload.request_id i now a.tracker a.tracker_valid;
    named =
        ground (arith, eq_iff i "", find-enqueue i now name payload limit s.queue q "" f, a.named);
    agree = λ key r e g. elim (Bool-cases (i == key)) [
      | inl h ↦ ground (
        arith,
        tracked-opened payload.request_id i now a.tracker (request_of r) key given g,
        find-enqueue i now name payload limit s.queue q key f,
        eq_iff payload.request_id (request_of r),
      )
      | inr h ↦ ground (
        arith,
        tracked-opened payload.request_id i now a.tracker (request_of r) key given g,
        find-enqueue i now name payload limit s.queue q key f,
        a.agree key r,
      )
    ];
  }

  pub publish-Agrees :
      (name : String) (limit : ℕ) (i : String) (now : ℕ) (e : StoreWriteEvent) (request : String)
      (s s' : WorkerState c.Body)
      → i ≢ ""
      → enqueue c name limit i now e request s ≡ some s'
      → Agrees c s
      → Agrees c s'
  unfolding enqueue event_payload
  publish-Agrees name limit i now e request s s' given h a =
      let payload : Payload c.Body = event_payload c e request in
      elim (Option-cases (Queue.enqueue i now name payload limit s.queue)) [
        | inl n ↦ ground arith
        | inr (q, f) ↦
            let shape : s'
                ≡ record s { queue = q; tracker = some (opened request i now a.tracker) } =
              ground (arith, a.kept) in
            rw shape (published-Agrees name limit i now payload s q given f a)
      ]
