-- ===== src/Wait/Tests.antt =====
-- The theorems on src/opencortex/store/event/wait.py at concrete trackers.
use open_cortex.Base.{
  leb, ◌&&◌, ℕ, ◌≡◌, ◌≢◌, refl, String, true, false, not, ◌||◌, [], ◌∷◌, arith, ◌==◌, nat_eq,
  string_eq, eq_iff,
}
use open_cortex.Base.Lists.{any}
use open_cortex.Base.Dict
use open_cortex.Wait.Defs.{
  StoreWaitState, StoreWaitTracker, init, register_request, is_complete, wait_for_request, complete,
  timed_out, waiting,
}
use open_cortex.Wait.Refinement.{done_call, perform, tracked, open_after, known, tracked-perform}
use open_cortex.Wait.Lifecycle.{wait_for_request_outcome}

abbrev idle : StoreWaitState
idle = record {
  pending = [];
  done = 0;
  failed = 0;
  requeue_count = 0;
  errors = [];
  created_at = 5;
  updated_at = 5;
}

abbrev asked : StoreWaitTracker
asked = record { retention = 900000000; states = ("r", idle) ∷ [] }

abbrev waited : StoreWaitTracker
waited = record asked { states = ("r", record idle { pending = "m" ∷ [] }) ∷ [] }

request_run : register_request "r" 5 (init 900000000) ≡ asked
unfolding register_request init Dict.get Dict.set
request_run = refl

tracked-perform_example :
    tracked "r" "m" (perform (done_call "r" "m" 9) waited)
    ≡ open_after (done_call "r" "m" 9) (known "r" waited) "r" "m" (tracked "r" "m" waited)
unfolding Dict.get
tracked-perform_example = tracked-perform "r" "m" (done_call "r" "m" 9) waited (refl, tt)

given : (s : String) → (s == "") ≡ false → s ≢ ""
given s h e = ground (arith, eq_iff s "")

wait_for_request_outcome_example :
    (wait_for_request "r" 20 ((waited, 10) ∷ (asked, 30) ∷ []) ≡ complete
      → any {A = StoreWaitTracker × ℕ} (λ p. is_complete "r" p.0) ((waited, 10) ∷ (asked, 30) ∷ [])
        ≡ true)
    × (wait_for_request "r" 20 ((waited, 10) ∷ (asked, 30) ∷ []) ≡ timed_out
        → any {A = StoreWaitTracker × ℕ}
            (λ p. not (is_complete "r" p.0) && leb 20 p.1)
            ((waited, 10) ∷ (asked, 30) ∷ [])
          ≡ true)
    × (any {A = StoreWaitTracker × ℕ}
            (λ p. is_complete "r" p.0 || leb 20 p.1)
            ((waited, 10) ∷ (asked, 30) ∷ [])
          ≡ true
        → wait_for_request "r" 20 ((waited, 10) ∷ (asked, 30) ∷ []) ≢ waiting)
wait_for_request_outcome_example = wait_for_request_outcome "r" 20 ((waited, 10) ∷ (asked, 30) ∷ [])
