-- ===== src/Queue/Administration.antt =====
-- The methods of CFSQueue for its operator: bringing back, clearing and counting.
use open_cortex.Base.{
  ℕ, ◌+◌, max, String, Bool, true, false, ◌&&◌, Option, none, some, List, [], ◌∷◌, leb,
  if◌then◌else◌, ◌==◌, nat_eq, string_eq,
}
use open_cortex.Base.Lists.{length, take, filter}
use open_cortex.Queue.Schema.{
  Status, pending, is_pending, is_processing, is_done, is_failed, Row, QueueError, QueueStatus,
  CfsQueue,
}
use open_cortex.Queue.Defs.{update_where}

module _ {P : Type 0} where
  unfoldable pub revived : Option ℕ → Bool → ℕ → Row P → Row P
  revived limit reset now r = record r {
    status = pending;
    attempts = if reset then 0 else r.attempts;
    max_attempts = elim limit [ none ↦ r.max_attempts | some n ↦ max 1 n ];
    processing_started_at = none;
    available_at = now;
    requeue_count = r.requeue_count + 1;
    updated_at = now;
  }

  unfoldable pub is_dead : String → Row P → Bool
  is_dead name r = r.queue_name == name && is_failed r.status

  unfoldable pub requeue_failed : String → Option ℕ → Bool → ℕ → CfsQueue P → CfsQueue P × ℕ
  unfolding update_where revived is_dead
  requeue_failed name limit reset now q = (
    record q { rows = update_where (is_dead name) (revived limit reset now) q.rows },
    length (filter (is_dead name) q.rows),
  )

  unfoldable pub clear : Option String → CfsQueue P → CfsQueue P
  clear none q = record q { rows = [] }
  clear (some name) q =
      if name == ""
      then record q { rows = [] }
      else record q { rows = filter (λ r. if r.queue_name == name then false else true) q.rows }

  -- COUNT(*) … GROUP BY status, at one status
  unfoldable pub count_status : (Status → Bool) → String → List (Row P) → ℕ
  count_status test name rows = length (filter (λ r. r.queue_name == name && test r.status) rows)

  unfoldable pub total_requeues : String → List (Row P) → ℕ
  total_requeues name [] = 0
  total_requeues name (r ∷ rs) =
      (if r.queue_name == name then r.requeue_count else 0) + total_requeues name rs

  unfoldable pub error_of : Row P → QueueError
  error_of r = record {
    id = r.id;
    attempts = r.attempts;
    max_attempts = r.max_attempts;
    message = r.last_error;
    updated_at = r.updated_at;
  }

-- ORDER BY updated_at DESC
unfoldable pub insert_error : QueueError → List QueueError → List QueueError
insert_error e [] = e ∷ []
insert_error e (f ∷ fs) =
    if leb f.updated_at e.updated_at then e ∷ f ∷ fs else f ∷ insert_error e fs

module _ {P : Type 0} where
  unfoldable pub failed_errors : String → List (Row P) → List QueueError
  unfolding error_of insert_error is_dead
  failed_errors name [] = []
  failed_errors name (r ∷ rs) =
      let rest = failed_errors name rs in
      if is_dead name r then insert_error (error_of r) rest else rest

  unfoldable pub status : String → CfsQueue P → QueueStatus
  unfolding count_status total_requeues failed_errors
  status name q = record {
    pending = count_status is_pending name q.rows;
    processing = count_status is_processing name q.rows;
    done = count_status is_done name q.rows;
    failed = count_status is_failed name q.rows;
    requeue_count = total_requeues name q.rows;
    errors = take 100 (failed_errors name q.rows);
  }
