-- ===== src/Queue/Tests.antt =====
-- Runs of the queue of src/opencortex/storage/cfs_queue.py, and its theorems at concrete tables.
use mathlib.Core.Path.{subst}
use open_cortex.Base.{
  eq_iff, ℕ, ◌+◌, ◌*◌, ◌≤◌, ◌≡◌, ◌≢◌, refl, String, true, false, none, some, List, [], ◌∷◌, arith,
  string_eq,
}
use open_cortex.Queue.Schema.{CfsQueue, Row, QueueMessage, pending, processing, failed, second}
use open_cortex.Queue.Defs.{
  init, enqueue, dequeue, release, fail, find, message_of, claimed, claimable,
}
use open_cortex.Queue.Table.{NodupIds}
use open_cortex.Queue.Calls.{Call, enqueue_call, dequeue_call, ack_call, recover_call, perform_all}
use open_cortex.Queue.Claim.{refreshed, dequeue_claims}
use open_cortex.Queue.Validity.{IsValid, reachable-IsValid}
use open_cortex.Queue.Exclusive.{dequeue_exclusive}
use open_cortex.Queue.Retry.{Tried, start, again, IsTried, retries_bounded, release_returns}

abbrev script : List (Call ℕ)
script =
    enqueue_call "a" 10 "store" 1 2
    ∷ enqueue_call "b" 5 "store" 2 3
    ∷ enqueue_call "a" 11 "store" 3 3
    ∷ []

abbrev first : Row ℕ
first = record {
  id = "a";
  queue_name = "store";
  payload = 1;
  status = pending;
  attempts = 0;
  max_attempts = 2;
  available_at = 10;
  processing_started_at = none;
  requeue_count = 0;
  last_error = none;
  created_at = 10;
  updated_at = 10;
}

abbrev second_row : Row ℕ
second_row = record first {
  id = "b";
  payload = 2;
  max_attempts = 3;
  available_at = 5;
  created_at = 5;
  updated_at = 5;
}

abbrev two : CfsQueue ℕ
two = record { stale_after = 300 * second; rows = first ∷ second_row ∷ [] }

-- The id "a" is taken when it is used again, and that call changes nothing.
script_run : perform_all script (init (300 * second)) ≡ two
unfolding perform_all init enqueue
script_run = refl

abbrev taken : QueueMessage ℕ
taken = record { id = "b"; queue_name = "store"; payload = 2; attempts = 1; max_attempts = 3 }

abbrev busy : Row ℕ
busy = record second_row {
  status = processing;
  attempts = 1;
  processing_started_at = some 20;
  updated_at = 20;
}

abbrev after_claim : CfsQueue ℕ
after_claim = record two { rows = first ∷ busy ∷ [] }

-- The older row is claimed, though it stands second.
claim_run : dequeue "store" 20 two ≡ (some taken, after_claim)
unfolding dequeue
claim_run = refl

abbrev other : QueueMessage ℕ
other = record { id = "a"; queue_name = "store"; payload = 1; attempts = 1; max_attempts = 2 }

abbrev both_claimed : CfsQueue ℕ
both_claimed = record two {
  rows =
      record first {
        status = processing;
        attempts = 1;
        processing_started_at = some 21;
        updated_at = 21;
      }
      ∷ busy
      ∷ [];
}

next_claim_run : dequeue "store" 21 after_claim ≡ (some other, both_claimed)
unfolding dequeue
next_claim_run = refl

unique : NodupIds two.rows
unfolding find
unique = (refl, (refl, tt))

dequeue_claims_example :
    (r : Row ℕ) × (taken ≡ message_of r)
    × (find "b" (refreshed "store" 20 two).rows ≡ some r)
    × (claimable "store" 20 r ≡ true)
    × ((key : String) (s : Row ℕ)
        → find key (refreshed "store" 20 two).rows ≡ some s
        → claimable "store" 20 s ≡ true
        → r.created_at ≤ s.created_at)
    × (find "b" after_claim.rows ≡ some (claimed 20 r))
dequeue_claims_example = dequeue_claims "store" 20 two taken after_claim unique claim_run

two-IsValid : IsValid two
two-IsValid = subst IsValid script_run (reachable-IsValid (300 * second) script)

abbrev meanwhile : List (Call ℕ)
meanwhile = dequeue_call "store" 21 ∷ ack_call "a" 22 ∷ recover_call none 23 ∷ []

dequeue_exclusive_example :
    (find "b" (perform_all meanwhile after_claim).rows ≡ find "b" after_claim.rows)
    × ((name : String) (now : ℕ) (m : QueueMessage ℕ) (q : CfsQueue ℕ)
        → now ≤ 20 + 300 * second
        → dequeue name now (perform_all meanwhile after_claim) ≡ (some m, q)
        → "b" ≢ m.id)
dequeue_exclusive_example =
    dequeue_exclusive "store" 20 two taken after_claim meanwhile two-IsValid claim_run
      (omega arith, ((λ e. ground (arith, eq_iff "b" "a")), (omega arith, tt)))

reachable-IsValid_example : IsValid (perform_all script (init (300 * second)))
reachable-IsValid_example = reachable-IsValid (300 * second) script

abbrev one_failed : CfsQueue ℕ
one_failed = record two {
  rows = first ∷ record second_row { status = failed; last_error = some "x"; attempts = 3 } ∷ [];
}

fail_run : fail "b" "x" false 0 30 after_claim ≡ record two {
  rows =
      first
      ∷ record second_row { status = failed; last_error = some "x"; attempts = 1; updated_at = 30 }
      ∷ [];
}
unfolding fail
fail_run = refl

abbrev tried_once : CfsQueue ℕ
tried_once = fail "b" "x" true 0 30 after_claim

tried : Tried "b" two 1 tried_once
tried = again after_claim "store" 20 taken "x" 0 30 start unique claim_run refl refl

found_b : find "b" two.rows ≡ some second_row
unfolding find
found_b = refl

retries_bounded_example :
    (after : Row ℕ) × (find "b" tried_once.rows ≡ some after) × IsTried "b" second_row 1 after
retries_bounded_example =
    retries_bounded "b" two tried_once second_row 1 found_b refl (omega arith) tried

release_returns_example :
    (r : Row ℕ) × (find "b" (refreshed "store" 20 two).rows ≡ some r)
    × (r.status ≡ pending)
    × (find "b" (release "b" 50 30 after_claim).rows
        ≡ some (record r { processing_started_at = none; available_at = 80; updated_at = 30 }))
release_returns_example = release_returns "store" 20 two after_claim taken 50 30 unique claim_run
