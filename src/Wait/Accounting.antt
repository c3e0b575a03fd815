-- ===== src/Wait/Accounting.antt =====
-- The counters of a request, and the invariant of the tracker.
use mathlib.Core.Path.{subst}
use open_cortex.Base.{
  ℕ, ◌≡◌, refl, String, ◌||◌, none, some, List, [], ◌∷◌, arith, ◌==◌, nat_eq, string_eq, eq_iff,
  Bool-cases, Option-cases, inl, inr,
}
use open_cortex.Base.Sets.{NoRepeats, add-NoRepeats, discard-NoRepeats}
use open_cortex.Base.Dict
use open_cortex.Base.Dict.{Dict, UniqueKeys, get-set, set-UniqueKeys}
use open_cortex.Wait.Defs.{
  StoreWaitState, StoreWaitTracker, init, cleanup, keep_live, expired, state_or_new,
  register_request, register_message, change_state, mark_done, finished, mark_requeued, requeued,
  mark_failed, broken,
}
use open_cortex.Wait.Refinement.{
  Call, request_call, register_call, done_call, requeue_call, fail_call, status_call, perform,
  status-state,
}

-- No request stands twice, and no message stands twice in its pending set.
pub record IsValid (t : StoreWaitTracker) : Type 0 where
  pub unique : UniqueKeys t.states
  pub sets : (r : String) (s : StoreWaitState) → Dict.get r t.states ≡ some s → NoRepeats s.pending

get-keep_live-none :
    (retention now : ℕ) (r : String) (d : Dict String StoreWaitState)
    → Dict.get r d ≡ none
    → Dict.get r (keep_live retention now d) ≡ none
unfolding Dict.get keep_live
get-keep_live-none retention now r [] h = refl
get-keep_live-none retention now r ((j, s) ∷ d) h =
    ground (arith, get-keep_live-none retention now r d)

keep_live-UniqueKeys :
    (retention now : ℕ) (d : Dict String StoreWaitState)
    → UniqueKeys d
    → UniqueKeys (keep_live retention now d)
unfolding keep_live
keep_live-UniqueKeys retention now [] u = tt
keep_live-UniqueKeys retention now ((r, s) ∷ d) u = elim (Bool-cases (expired retention now s)) [
  | inl e ↦ rw (e, keep_live) (keep_live-UniqueKeys retention now d u.1)
  | inr e ↦
      rw (e, keep_live)
        (get-keep_live-none retention now r d u.0, keep_live-UniqueKeys retention now d u.1)
]

get-keep_live-some :
    (retention now : ℕ) (r : String) (s : StoreWaitState) (d : Dict String StoreWaitState)
    → UniqueKeys d
    → Dict.get r (keep_live retention now d) ≡ some s
    → Dict.get r d ≡ some s
unfolding Dict.get keep_live
get-keep_live-some retention now r s [] u h = h
get-keep_live-some retention now r s ((j, x) ∷ d) u h = ground (
  arith,
  get-keep_live-some retention now r s d u.1,
  eq_iff j r,
  get-keep_live-none retention now r d,
)

cleanup-IsValid : (now : ℕ) (t : StoreWaitTracker) → IsValid t → IsValid (cleanup now t)
unfolding cleanup
cleanup-IsValid now t v = record {
  unique = keep_live-UniqueKeys t.retention now t.states v.unique;
  sets = λ r s h. v.sets r s (get-keep_live-some t.retention now r s t.states v.unique h);
}

set-IsValid :
    (r : String) (s : StoreWaitState) (t : StoreWaitTracker)
    → IsValid t
    → NoRepeats s.pending
    → IsValid (record t { states = Dict.set r s t.states })
set-IsValid r s t v n = record {
  unique = set-UniqueKeys r s t.states v.unique;
  sets = λ r' s' h. elim (Bool-cases (r == r')) [
    | inl e ↦
        let same : s ≡ s' = ground (arith, get-set r r' s t.states) in
        subst (λ (x : StoreWaitState). NoRepeats x.pending) same n
    | inr e ↦ v.sets r' s' (ground (arith, get-set r r' s t.states))
  ];
}

state_or_new-NoRepeats :
    (r : String) (now : ℕ) (t : StoreWaitTracker)
    → IsValid t
    → NoRepeats (state_or_new now (Dict.get r t.states)).pending
unfolding state_or_new
state_or_new-NoRepeats r now t v = elim (Option-cases (Dict.get r t.states)) [
  | inl e ↦ rw e tt
  | inr (s, e) ↦ rw e (v.sets r s e)
]

change_state-IsValid :
    (r m : String) (change : StoreWaitState → StoreWaitState) (t : StoreWaitTracker)
    → ((s : StoreWaitState) → NoRepeats s.pending → NoRepeats (change s).pending)
    → IsValid t
    → IsValid (change_state r m change t)
unfolding change_state
change_state-IsValid r m change t keep v = elim (Bool-cases (r == "" || m == "")) [
  | inl e ↦ rw e v
  | inr e ↦ rw e (elim (Option-cases (Dict.get r t.states)) [
    | inl n ↦ rw n v
    | inr (s, f) ↦ rw f (set-IsValid r (change s) t v (keep s (v.sets r s f)))
  ])
]

pub perform-IsValid : (c : Call) (t : StoreWaitTracker) → IsValid t → IsValid (perform c t)
unfolding perform
perform-IsValid (request_call r now) t v =
    unfold register_request in
    elim (Bool-cases (r == "")) [
      | inl e ↦ rw e v
      | inr e ↦ rw e (
          set-IsValid r _ (cleanup now t) (cleanup-IsValid now t v)
            (state_or_new-NoRepeats r now (cleanup now t) (cleanup-IsValid now t v)))
    ]
perform-IsValid (register_call r m now) t v =
    unfold register_message in
    elim (Bool-cases (r == "" || m == "")) [
      | inl e ↦ rw e v
      | inr e ↦ rw e (set-IsValid r _ t v (add-NoRepeats m _ (state_or_new-NoRepeats r now t v)))
    ]
perform-IsValid (done_call r m now) t v =
    unfold mark_done in
    change_state-IsValid r m (finished m now) t (λ s. discard-NoRepeats m s.pending) v
perform-IsValid (requeue_call r m now) t v =
    unfold mark_requeued in
    change_state-IsValid r m (requeued m now) t (λ s. add-NoRepeats m s.pending) v
perform-IsValid (fail_call r m message now) t v =
    unfold mark_failed in
    change_state-IsValid r m (broken m message now) t (λ s. discard-NoRepeats m s.pending) v
perform-IsValid (status_call r now) t v = rw status-state (cleanup-IsValid now t v)

unfoldable pub perform_all : List Call → StoreWaitTracker → StoreWaitTracker
unfolding perform
perform_all [] t = t
perform_all (c ∷ cs) t = perform_all cs (perform c t)

pub perform_all-IsValid :
    (cs : List Call) (t : StoreWaitTracker) → IsValid t → IsValid (perform_all cs t)
unfolding perform_all
perform_all-IsValid [] t v = v
perform_all-IsValid (c ∷ cs) t v = perform_all-IsValid cs (perform c t) (perform-IsValid c t v)

-- Whatever methods are called on a new tracker, no request and no pending message stands twice.
pub tracker-IsValid : (retention : ℕ) (cs : List Call) → IsValid (perform_all cs (init retention))
unfolding init Dict.get
tracker-IsValid retention cs =
    perform_all-IsValid cs (init retention) (record { unique = tt; sets = λ r s h. cc })
