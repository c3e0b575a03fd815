-- ===== src/Queue/Calls.antt =====
-- Sequences of calls of the methods of `CFSQueue`, by any number of processes in any order.
use open_cortex.Base.{ℕ, String, Bool, Option, none, some, List, [], ◌∷◌}
use open_cortex.Queue.Schema.{CfsQueue}
use open_cortex.Queue.Defs.{enqueue, dequeue, ack, release, fail, recover_stale}
use open_cortex.Queue.Administration.{requeue_failed, clear}

-- One call of a method with its arguments; `enqueue` raises on an id that is taken.
pub data Call (P : Type 0) : Type 0 where
  enqueue_call : String → ℕ → String → P → ℕ → Call P
  dequeue_call : String → ℕ → Call P
  ack_call : String → ℕ → Call P
  release_call : String → ℕ → ℕ → Call P
  fail_call : String → String → Bool → ℕ → ℕ → Call P
  recover_call : Option String → ℕ → Call P
  requeue_call : String → Option ℕ → Bool → ℕ → Call P
  clear_call : Option String → Call P

module _ {P : Type 0} where
  abbrev or_same : CfsQueue P → Option (CfsQueue P) → CfsQueue P
  or_same q none = q
  or_same q (some q') = q'

  unfoldable pub perform : Call P → CfsQueue P → CfsQueue P
  perform (enqueue_call i now name payload limit) q = or_same q (enqueue i now name payload limit q)
  perform (dequeue_call name now) q = (dequeue name now q).1
  perform (ack_call i now) q = ack i now q
  perform (release_call i delay now) q = release i delay now q
  perform (fail_call i error retry delay now) q = fail i error retry delay now q
  perform (recover_call wanted now) q = (recover_stale wanted now q).0
  perform (requeue_call name limit reset now) q = (requeue_failed name limit reset now q).0
  perform (clear_call wanted) q = clear wanted q

  unfoldable pub perform_all : List (Call P) → CfsQueue P → CfsQueue P
  unfolding perform
  perform_all [] q = q
  perform_all (c ∷ cs) q = perform_all cs (perform c q)
