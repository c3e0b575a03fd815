-- ===== src/Worker/Settling.antt =====
-- Settling a held message keeps the queue and the tracker in agreement.
use open_cortex.Base.{
  ℕ, ◌≡◌, ◌≢◌, sym, ap, ◌∙◌, true, some, arith, ◌==◌, nat_eq, string_eq, eq_iff, Bool-cases, inl,
  inr,
}
use open_cortex.Queue.{CfsQueue, Row, QueueMessage, find}
use open_cortex.Wait.Refinement.{tracked}
use open_cortex.Worker.Events.{Codec, Payload}
use open_cortex.Worker.Defs.{Verdict, WorkerState, settle}
use open_cortex.Worker.Agreement.{
  is_active, Holds, settled_queue, settled_row, queue-settle, tracker-settle, find-settled_queue,
  tracked-settled_tracker,
}
use open_cortex.Worker.System.{request_of, Agrees}
use open_cortex.Worker.Others.{
  others-settled_queue, settled_queue-IsValid, after_settle, after_settle_other,
  after_settle-IsValid, payload-settled_row,
}

module _ (c : Codec) where
  module _ (delay now later : ℕ) (v : Verdict) (m : QueueMessage (Payload c.Body))
      (s : WorkerState c.Body) where
    abbrev pub settled : WorkerState c.Body
    settled = settle delay now later v m s

    finish_same :
        (r r' : Row (Payload c.Body)) (a : Agrees c s)
        → find m.id s.queue.rows ≡ some r
        → Holds m r
        → find m.id (settled_queue delay now v m s.queue).rows ≡ some r'
        → request_of r' ≢ ""
        → tracked (request_of r') m.id (after_settle c later v m a.tracker) ≡ is_active r'.status
    finish_same r r' a e h e' g =
        let row : some r' ≡ some (settled_row delay now v r) =
          sym e' ∙ find-settled_queue delay now later v m s.queue r e h in
        let same : r' ≡ settled_row delay now v r = cc in
        let asked : request_of r' ≡ m.payload.request_id =
          ap (λ (x : Row (Payload c.Body)). x.payload.request_id) same
          ∙ ap (λ (x : Payload c.Body). x.request_id) (payload-settled_row c delay now v r)
          ∙ ap (λ (x : Payload c.Body). x.request_id) h.payload in
        let given : m.payload.request_id ≢ "" = λ n. g (asked ∙ n) in
        let named : m.id ≢ "" = λ n. ground (arith, a.named, ap (λ i. find i s.queue.rows) n) in
        let open' : tracked m.payload.request_id m.id a.tracker ≡ true = ground (
          arith,
          a.agree m.id r e,
          ap (λ (x : Payload c.Body). x.request_id) h.payload,
          h.status,
        ) in
        ground (
          arith,
          asked,
          same,
          eq_iff m.payload.request_id "",
          tracked-settled_tracker delay now later v m a.tracker r h given named open',
        )

    pub finish-Agrees :
        (r : Row (Payload c.Body))
        → find m.id s.queue.rows ≡ some r
        → Holds m r
        → Agrees c s
        → Agrees c settled
    finish-Agrees r e h a = record {
      tracker = after_settle c later v m a.tracker;
      kept = tracker-settle delay now later v m s a.tracker a.kept;
      queue_valid = rw queue-settle (settled_queue-IsValid c delay now v m s.queue a.queue_valid);
      tracker_valid = after_settle-IsValid c later v m a.tracker a.tracker_valid;
      named = rw queue-settle (
          others-settled_queue c delay now v m s.queue ""
            (λ n. ground (arith, a.named, ap (λ i. find i s.queue.rows) n))
          ∙ a.named);
      agree = λ key r' e' g. elim (Bool-cases (key == m.id)) [
        | inl i ↦
            let same : key ≡ m.id = (eq_iff key m.id).0 i in
            rw same (
              finish_same r r' a e h
                (sym (
                    ap (λ (q : CfsQueue (Payload c.Body)). find m.id q.rows)
                      (queue-settle delay now later v m s))
                  ∙ sym (ap (λ k. find k (settled).queue.rows) same)
                  ∙ e')
                g)
        | inr i ↦
            let other : key ≢ m.id = λ n. ground (arith, eq_iff key m.id) in
            after_settle_other c later v m a.tracker (request_of r') key other
            ∙ a.agree key r'
                (sym (others-settled_queue c delay now v m s.queue key other)
                  ∙ sym (
                      ap (λ (q : CfsQueue (Payload c.Body)). find key q.rows)
                        (queue-settle delay now later v m s))
                  ∙ e')
                g
      ];
    }
