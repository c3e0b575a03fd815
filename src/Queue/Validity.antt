-- ===== src/Queue/Validity.antt =====
-- The invariant of the table, kept by every method of `CFSQueue`.
use open_cortex.Base.{
  ℕ, ◌≤◌, ◌<◌, ◌≡◌, refl, String, Bool, true, false, Option, none, some, arith, if◌then◌else◌, ◌==◌,
  string_eq, Option-cases, inl, inr, List, [], ◌∷◌, ◌++◌, is_some, Bool-cases,
}
use open_cortex.Base.Lists.{filter, All, All-append}
use open_cortex.Queue.Schema.{CfsQueue, Row, second, is_processing, is_failed}
use open_cortex.Queue.Defs.{
  init, find, update_where, recover_stale, recovered, dequeue, claimed, enqueue, new_row, ack,
  acked, release, released, fail, retried, dead, should_retry,
}
use open_cortex.Queue.Administration.{requeue_failed, revived, clear}
use open_cortex.Queue.Table.{NodupIds, NodupIds-update_where, NodupIds-append, NodupIds-filter}
use open_cortex.Queue.Calls.{
  Call, perform, perform_all, enqueue_call, dequeue_call, ack_call, release_call, fail_call,
  recover_call, requeue_call, clear_call,
}
use open_cortex.Queue.Claim.{selected}

module _ {P : Type 0} where
  -- A row has a start time exactly while it is processed, may be tried, and has its error if it
  -- failed.
  pub record IsRow (r : Row P) : Type 0 where
    pub started : is_processing r.status ≡ is_some r.processing_started_at
    pub tries : 0 < r.max_attempts
    pub explained : is_failed r.status ≡ true → is_some r.last_error ≡ true

  pub record IsValid (q : CfsQueue P) : Type 0 where
    pub unique : NodupIds q.rows
    pub each : All IsRow q.rows
    pub patience : second ≤ q.stale_after

  All-update_where :
      (test : Row P → Bool) (change : Row P → Row P) (rows : List (Row P))
      → ((r : Row P) → IsRow r → IsRow (change r))
      → All IsRow rows
      → All IsRow (update_where test change rows)
  unfolding update_where
  All-update_where test change [] keep h = tt
  All-update_where test change (r ∷ rs) keep h = elim (Bool-cases (test r)) [
    | inl e ↦ rw e (keep r h.0, All-update_where test change rs keep h.1)
    | inr e ↦ rw e (h.0, All-update_where test change rs keep h.1)
  ]

  recovered-IsRow : (now : ℕ) (r : Row P) → IsRow r → IsRow (recovered now r)
  unfolding recovered
  recovered-IsRow now r h = record { started = refl; tries = h.tries; explained = λ e. cc }

  claimed-IsRow : (now : ℕ) (r : Row P) → IsRow r → IsRow (claimed now r)
  unfolding claimed
  claimed-IsRow now r h = record { started = refl; tries = h.tries; explained = λ e. cc }

  acked-IsRow : (now : ℕ) (r : Row P) → IsRow r → IsRow (acked now r)
  unfolding acked
  acked-IsRow now r h = record { started = refl; tries = h.tries; explained = λ e. cc }

  released-IsRow : (delay now : ℕ) (r : Row P) → IsRow r → IsRow (released delay now r)
  unfolding released
  released-IsRow delay now r h = record { started = refl; tries = h.tries; explained = λ e. cc }

  failure-IsRow :
      (b : Bool) (error : String) (delay now : ℕ) (r : Row P)
      → IsRow r
      → IsRow ((if b then retried error delay now else dead error now) r)
  unfolding retried dead
  failure-IsRow true error delay now r h = record {
    started = refl;
    tries = h.tries;
    explained = λ e. cc;
  }
  failure-IsRow false error delay now r h = record {
    started = refl;
    tries = h.tries;
    explained = λ e. refl;
  }

  revived-IsRow :
      (limit : Option ℕ) (reset : Bool) (now : ℕ) (r : Row P)
      → IsRow r
      → IsRow (revived limit reset now r)
  unfolding revived
  revived-IsRow none reset now r h = record { started = refl; tries = h.tries; explained = λ e. cc }
  revived-IsRow (some n) reset now r h = record {
    started = refl;
    tries = omega arith;
    explained = λ e. cc;
  }

  module _ (test : Row P → Bool) (change : Row P → Row P)
      (same : (r : Row P) → (change r).id ≡ r.id)
      (keep : (r : Row P) → IsRow r → IsRow (change r)) where
    update-IsValid :
        (q : CfsQueue P) → IsValid q → IsValid (record q { rows = update_where test change q.rows })
    update-IsValid q v = record {
      unique = NodupIds-update_where test change same q.rows v.unique;
      each = All-update_where test change q.rows keep v.each;
      patience = v.patience;
    }

  pub ack-IsValid : (i : String) (now : ℕ) (q : CfsQueue P) → IsValid q → IsValid (ack i now q)
  unfolding ack
  ack-IsValid i now = update-IsValid _ (acked now) (λ r. refl) (acked-IsRow now)

  pub release-IsValid :
      (i : String) (delay now : ℕ) (q : CfsQueue P) → IsValid q → IsValid (release i delay now q)
  unfolding release
  release-IsValid i delay now =
      update-IsValid _ (released delay now) (λ r. refl) (released-IsRow delay now)

  pub recover_stale-IsValid :
      (wanted : Option String) (now : ℕ) (q : CfsQueue P)
      → IsValid q
      → IsValid (recover_stale wanted now q).0
  unfolding recover_stale
  recover_stale-IsValid wanted now q =
      update-IsValid _ (recovered now) (λ r. refl) (recovered-IsRow now) q

  pub requeue_failed-IsValid :
      (name : String) (limit : Option ℕ) (reset : Bool) (now : ℕ) (q : CfsQueue P)
      → IsValid q
      → IsValid (requeue_failed name limit reset now q).0
  unfolding requeue_failed
  requeue_failed-IsValid name limit reset now q =
      update-IsValid _ (revived limit reset now) (λ r. refl) (revived-IsRow limit reset now) q

  pub dequeue-IsValid :
      (name : String) (now : ℕ) (q : CfsQueue P) → IsValid q → IsValid (dequeue name now q).1
  unfolding dequeue
  dequeue-IsValid name now q v = elim (Option-cases (selected name now q)) [
    | inl e ↦ rw (e, dequeue) (recover_stale-IsValid (some name) now q v)
    | inr (r, e) ↦
        rw (e, dequeue)
          (update-IsValid _ (claimed now) (λ s. refl) (claimed-IsRow now) _
            (recover_stale-IsValid (some name) now q v))
  ]

  failure_id :
      (b : Bool) (error : String) (delay now : ℕ) (s : Row P)
      → ((if b then retried error delay now else dead error now) s).id ≡ s.id
  unfolding retried dead
  failure_id true error delay now s = refl
  failure_id false error delay now s = refl

  pub fail-IsValid :
      (i error : String) (retry : Bool) (delay now : ℕ) (q : CfsQueue P)
      → IsValid q
      → IsValid (fail i error retry delay now q)
  unfolding fail
  fail-IsValid i error retry delay now q v = elim (Option-cases (find i q.rows)) [
    | inl e ↦ rw (e, fail) v
    | inr (r, e) ↦
        rw (e, fail)
          (update-IsValid (λ s. s.id == i) _ (failure_id (should_retry retry r) error delay now)
            (failure-IsRow (should_retry retry r) error delay now) q v)
  ]

  new_row-IsRow :
      (i : String) (now : ℕ) (name : String) (payload : P) (limit : ℕ)
      → IsRow (new_row i now name payload limit)
  unfolding new_row
  new_row-IsRow i now name payload limit = record {
    started = refl;
    tries = omega arith;
    explained = λ e. cc;
  }

  pub enqueue-IsValid :
      (i : String) (now : ℕ) (name : String) (payload : P) (limit : ℕ) (q q' : CfsQueue P)
      → IsValid q
      → enqueue i now name payload limit q ≡ some q'
      → IsValid q'
  unfolding enqueue
  enqueue-IsValid i now name payload limit q q' v h = elim (Option-cases (find i q.rows)) [
    | inl e ↦
        let added : q' ≡ record q { rows = q.rows ++ new_row i now name payload limit ∷ [] } =
          ground arith in
        rw added (record {
          unique = NodupIds-append q.rows _ v.unique e;
          each = All-append IsRow q.rows _ v.each (new_row-IsRow i now name payload limit, tt);
          patience = v.patience;
        })
    | inr (r, e) ↦ ground arith
  ]

  All-filter :
      (test : Row P → Bool) (rows : List (Row P)) → All IsRow rows → All IsRow (filter test rows)
  All-filter test [] h = tt
  All-filter test (r ∷ rs) h = elim (Bool-cases (test r)) [
    | inl e ↦ rw e (h.0, All-filter test rs h.1)
    | inr e ↦ rw e (All-filter test rs h.1)
  ]

  pub clear-IsValid :
      (wanted : Option String) (q : CfsQueue P) → IsValid q → IsValid (clear wanted q)
  unfolding clear
  clear-IsValid none q v = record { unique = tt; each = tt; patience = v.patience }
  clear-IsValid (some name) q v = elim (Bool-cases (name == "")) [
    | inl e ↦ rw e (record { unique = tt; each = tt; patience = v.patience })
    | inr e ↦ rw e (record {
      unique = NodupIds-filter _ q.rows v.unique;
      each = All-filter _ q.rows v.each;
      patience = v.patience;
    })
  ]

  pub perform-IsValid : (c : Call P) (q : CfsQueue P) → IsValid q → IsValid (perform c q)
  unfolding perform
  perform-IsValid (enqueue_call i now name payload limit) q v =
      elim (Option-cases (enqueue i now name payload limit q)) [
        | inl e ↦ rw e v
        | inr (q', e) ↦ rw e (enqueue-IsValid i now name payload limit q q' v e)
      ]
  perform-IsValid (dequeue_call name now) q v = dequeue-IsValid name now q v
  perform-IsValid (ack_call i now) q v = ack-IsValid i now q v
  perform-IsValid (release_call i delay now) q v = release-IsValid i delay now q v
  perform-IsValid (fail_call i error retry delay now) q v = fail-IsValid i error retry delay now q v
  perform-IsValid (recover_call wanted now) q v = recover_stale-IsValid wanted now q v
  perform-IsValid (requeue_call name limit reset now) q v =
      requeue_failed-IsValid name limit reset now q v
  perform-IsValid (clear_call wanted) q v = clear-IsValid wanted q v

  perform_all-IsValid :
      (cs : List (Call P)) (q : CfsQueue P) → IsValid q → IsValid (perform_all cs q)
  unfolding perform_all
  perform_all-IsValid [] q v = v
  perform_all-IsValid (c ∷ cs) q v = perform_all-IsValid cs (perform c q) (perform-IsValid c q v)

  pub init-IsValid : (stale_after : ℕ) → IsValid (init {P = P} stale_after)
  unfolding init
  init-IsValid stale_after = record { unique = tt; each = tt; patience = omega arith }

  -- Whatever methods are called in whatever order on a new queue, ids stay unique, a row has a start
  -- time exactly while it is processed, may be tried at least once and carries its error once it has
  -- failed, and the time after which a claim is stale is at least a second.
  pub reachable-IsValid :
      (stale_after : ℕ) (cs : List (Call P)) → IsValid (perform_all cs (init stale_after))
  reachable-IsValid stale_after cs = perform_all-IsValid cs _ (init-IsValid stale_after)
