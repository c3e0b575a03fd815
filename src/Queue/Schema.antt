-- ===== src/Queue/Schema.antt =====
-- The table `queue_messages` and the results of src/opencortex/storage/cfs_queue.py.
use open_cortex.Base.{ℕ, String, Bool, true, false, Option, List, nat_eq, string_eq}

pub data Status : Type 0 where
  pending processing done failed : Status

abbrev pub is_pending : Status → Bool
is_pending pending = true
is_pending _ = false

abbrev pub is_processing : Status → Bool
is_processing processing = true
is_processing _ = false

abbrev pub is_done : Status → Bool
is_done done = true
is_done _ = false

abbrev pub is_failed : Status → Bool
is_failed failed = true
is_failed _ = false

-- one row of the table `queue_messages`, over the type of the decoded payload
pub record Row (P : Type 0) : Type 0 where
  pub id : String
  pub queue_name : String
  pub payload : P
  pub status : Status
  pub attempts : ℕ
  pub max_attempts : ℕ
  pub available_at : ℕ
  pub processing_started_at : Option ℕ
  pub requeue_count : ℕ
  pub last_error : Option String
  pub created_at : ℕ
  pub updated_at : ℕ

pub record QueueMessage (P : Type 0) : Type 0 where
  pub id : String
  pub queue_name : String
  pub payload : P
  pub attempts : ℕ
  pub max_attempts : ℕ

pub record QueueError : Type 0 where
  pub id : String
  pub attempts : ℕ
  pub max_attempts : ℕ
  pub message : Option String
  pub updated_at : ℕ

pub record QueueStatus : Type 0 where
  pub pending : ℕ
  pub processing : ℕ
  pub done : ℕ
  pub failed : ℕ
  pub requeue_count : ℕ
  pub errors : List QueueError

pub record CfsQueue (P : Type 0) : Type 0 where
  pub stale_after : ℕ
  pub rows : List (Row P)

abbrev pub second : ℕ
second = 1000000
