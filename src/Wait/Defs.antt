-- ===== src/Wait/Defs.antt =====
-- The data and the methods of src/opencortex/store/event/wait.py.
use open_cortex.Base.{
  ℕ, ◌+◌, ◌*◌, max, String, Bool, true, false, not, ◌&&◌, ◌||◌, Option, none, some, List, [], ◌∷◌,
  ◌++◌, ltb, leb, if◌then◌else◌, ◌==◌, nat_eq, string_eq,
}
use open_cortex.Base.Lists.{length, contains}
use open_cortex.Base.Sets.{add, discard}
use open_cortex.Base.Dict
use open_cortex.Base.Dict.{Dict}

pub record StoreWaitState : Type 0 where
  pub pending : List String
  pub done : ℕ
  pub failed : ℕ
  pub requeue_count : ℕ
  pub errors : List String
  pub created_at : ℕ
  pub updated_at : ℕ

pub record StoreWaitTracker : Type 0 where
  pub retention : ℕ
  pub states : Dict String StoreWaitState

-- the dict that `StoreWaitState.status` returns
pub record QueueProgress : Type 0 where
  pub pending : ℕ
  pub done : ℕ
  pub failed : ℕ
  pub requeue_count : ℕ
  pub errors : List String

pub record WaitStatus : Type 0 where
  pub request_id : String
  pub index_status : String
  pub queue_status : QueueProgress

abbrev pub second : ℕ
second = 1000000

unfoldable pub init : ℕ → StoreWaitTracker
init retention = record { retention = max (60 * second) retention; states = [] }

unfoldable pub new_state : ℕ → StoreWaitState
new_state now = record {
  pending = [];
  done = 0;
  failed = 0;
  requeue_count = 0;
  errors = [];
  created_at = now;
  updated_at = now;
}

unfoldable pub progress : StoreWaitState → QueueProgress
progress s = record {
  pending = length s.pending;
  done = s.done;
  failed = s.failed;
  requeue_count = s.requeue_count;
  errors = s.errors;
}

abbrev pub is_empty {ℓ} : {A : Type ℓ} → List A → Bool
is_empty [] = true
is_empty (x ∷ xs) = false

-- `updated_at < now - retention and not pending`
unfoldable pub expired : ℕ → ℕ → StoreWaitState → Bool
expired retention now s = ltb (s.updated_at + retention) now && is_empty s.pending

unfoldable pub keep_live : ℕ → ℕ → Dict String StoreWaitState → Dict String StoreWaitState
unfolding expired
keep_live retention now [] = []
keep_live retention now ((r, s) ∷ d) =
    let rest = keep_live retention now d in if expired retention now s then rest else (r, s) ∷ rest

unfoldable pub cleanup : ℕ → StoreWaitTracker → StoreWaitTracker
unfolding keep_live
cleanup now t = record t { states = keep_live t.retention now t.states }

-- `self._states.setdefault(request_id, StoreWaitState())`
unfoldable pub state_or_new : ℕ → Option StoreWaitState → StoreWaitState
unfolding new_state
state_or_new now none = new_state now
state_or_new now (some s) = s

unfoldable pub register_request : String → ℕ → StoreWaitTracker → StoreWaitTracker
unfolding cleanup state_or_new
register_request r now t =
    if r == ""
    then t
    else let live : StoreWaitTracker = cleanup now t in
      record live { states = Dict.set r (state_or_new now (Dict.get r live.states)) live.states }

unfoldable pub registered : String → ℕ → StoreWaitState → StoreWaitState
registered m now s = record s { pending = add m s.pending; updated_at = now }

unfoldable pub register_message : String → String → ℕ → StoreWaitTracker → StoreWaitTracker
unfolding state_or_new registered
register_message r m now t = if r == "" || m == "" then t else record t {
  states = Dict.set r (registered m now (state_or_new now (Dict.get r t.states))) t.states;
}

-- `_states.get(request_id)`, nothing for an unknown request, and the change written back
unfoldable pub change_state :
    String → String → (StoreWaitState → StoreWaitState) → StoreWaitTracker → StoreWaitTracker
change_state r m change t = if r == "" || m == "" then t else elim (Dict.get r t.states) [
  | none ↦ t
  | some s ↦ record t { states = Dict.set r (change s) t.states }
]

unfoldable pub finished : String → ℕ → StoreWaitState → StoreWaitState
finished m now s = record s {
  pending = discard m s.pending;
  done = if contains m s.pending then s.done + 1 else s.done;
  updated_at = now;
}

unfoldable pub mark_done : String → String → ℕ → StoreWaitTracker → StoreWaitTracker
unfolding change_state finished
mark_done r m now = change_state r m (finished m now)

unfoldable pub requeued : String → ℕ → StoreWaitState → StoreWaitState
requeued m now s = record s {
  pending = add m s.pending;
  requeue_count = s.requeue_count + 1;
  updated_at = now;
}

unfoldable pub mark_requeued : String → String → ℕ → StoreWaitTracker → StoreWaitTracker
unfolding change_state requeued
mark_requeued r m now = change_state r m (requeued m now)

unfoldable pub broken : String → String → ℕ → StoreWaitState → StoreWaitState
broken m message now s = record s {
  pending = discard m s.pending;
  failed = s.failed + 1;
  errors = s.errors ++ message ∷ [];
  updated_at = now;
}

unfoldable pub mark_failed : String → String → String → ℕ → StoreWaitTracker → StoreWaitTracker
unfolding change_state broken
mark_failed r m message now = change_state r m (broken m message now)

unfoldable pub is_complete : String → StoreWaitTracker → Bool
is_complete r t =
    if r == ""
    then true
    else elim (Dict.get r t.states) [ none ↦ true | some s ↦ is_empty s.pending ]

unfoldable pub index_status : QueueProgress → String
index_status p =
    if not (p.failed == 0) then "failed" else if p.pending == 0 then "ready" else "processing"

unfoldable pub status : String → ℕ → StoreWaitTracker → WaitStatus × StoreWaitTracker
unfolding cleanup progress index_status
status r now t =
    let live : StoreWaitTracker = cleanup now t in
    elim (Dict.get r live.states) [
      | none ↦ (
        record {
          request_id = r;
          index_status = "unknown";
          queue_status = record {
            pending = 0;
            done = 0;
            failed = 0;
            requeue_count = 0;
            errors = [];
          };
        },
        live,
      )
      | some s ↦ (
        record {
          request_id = r;
          index_status = index_status (progress s);
          queue_status = progress s;
        },
        live,
      )
    ]

-- One round of `wait_for_request`: what it returns or raises, or that it sleeps.
pub data Waited : Type 0 where
  complete timed_out waiting : Waited

-- The polls of `wait_for_request`: the tracker and the clock that each of them reads.
unfoldable pub wait_for_request : String → ℕ → List (StoreWaitTracker × ℕ) → Waited
unfolding is_complete
wait_for_request r deadline [] = waiting
wait_for_request r deadline ((t, now) ∷ polls) =
    let rest = wait_for_request r deadline polls in
    if is_complete r t then complete else if leb deadline now then timed_out else rest
