-- ===== src/Queue/Rows.antt =====
-- What each method of `CFSQueue` does to the row of one id; the rest of the table is as it was.
use mathlib.Core.Option
use open_cortex.Base.{
  [], ◌∷◌, some, ◌≢◌, ℕ, ◌≡◌, refl, String, Bool, true, false, ◌&&◌, Option, arith, if◌then◌else◌,
  ◌==◌, string_eq, Option-cases, inl, inr, eq_iff,
}
use open_cortex.Queue.Schema.{CfsQueue, Row, is_processing}
use open_cortex.Queue.Defs.{
  enqueue, new_row, failure, find, ack, acked, release, released, fail, should_retry, retried, dead,
  recover_stale, is_stale, recovered, claim, claimed,
}
use open_cortex.Queue.Administration.{requeue_failed, is_dead, revived}
use open_cortex.Queue.Table.{change_if, find-update_where, find-update_other, find_id, find-append}

module _ {P : Type 0} (q : CfsQueue P) (now : ℕ) (key : String) where
  pub find-ack :
      (message_id : String)
      → find key (ack message_id now q).rows
        ≡ Option.map (change_if (λ r. r.id == message_id) (acked now)) (find key q.rows)
  unfolding ack
  find-ack message_id = find-update_where _ (acked now) (λ r. refl) key q.rows

  pub find-release :
      (message_id : String) (delay : ℕ)
      → find key (release message_id delay now q).rows
        ≡ Option.map
            (change_if (λ r. r.id == message_id && is_processing r.status) (released delay now))
            (find key q.rows)
  unfolding release
  find-release message_id delay =
      find-update_where (λ r. r.id == message_id && is_processing r.status) (released delay now)
        (λ r. refl) key q.rows

  pub find-recover_stale :
      (wanted : Option String)
      → find key (recover_stale wanted now q).0.rows
        ≡ Option.map
            (change_if (is_stale wanted q.stale_after now) (recovered now))
            (find key q.rows)
  unfolding recover_stale
  find-recover_stale wanted = find-update_where _ (recovered now) (λ r. refl) key q.rows

  pub find-requeue_failed :
      (name : String) (limit : Option ℕ) (reset : Bool)
      → find key (requeue_failed name limit reset now q).0.rows
        ≡ Option.map (change_if (is_dead name) (revived limit reset now)) (find key q.rows)
  unfolding requeue_failed
  find-requeue_failed name limit reset =
      find-update_where _ (revived limit reset now) (λ r. refl) key q.rows

  pub find-claim :
      (r : Row P)
      → find key (claim now r q.rows)
        ≡ Option.map (change_if (λ s. s.id == r.id) (claimed now)) (find key q.rows)
  unfolding claim
  find-claim r = find-update_where _ (claimed now) (λ s. refl) key q.rows

  failure_id :
      (b : Bool) (error : String) (delay : ℕ) (s : Row P)
      → ((if b then retried error delay now else dead error now) s).id ≡ s.id
  unfolding retried dead
  failure_id true error delay s = refl
  failure_id false error delay s = refl

  -- The row that has the id decides whether the message is retried.
  pub find-fail :
      (error : String) (retry : Bool) (delay : ℕ)
      → find key (fail key error retry delay now q).rows
        ≡ Option.map (failure error retry delay now) (find key q.rows)
  unfolding fail
  find-fail error retry delay = elim (Option-cases (find key q.rows)) [
    | inl e ↦ rw (e, fail) (rw e)
    | inr (r, e) ↦ ground (
      arith,
      find_id key q.rows r,
      eq_iff r.id key,
      find-update_where (λ s. s.id == key)
          (if should_retry retry r then retried error delay now else dead error now)
          (failure_id (should_retry retry r) error delay) key q.rows,
    )
  ]

module _ {P : Type 0} (q : CfsQueue P) (now : ℕ) (i key : String) (other : key ≢ i) where
  pub find-ack_other : find key (ack i now q).rows ≡ find key q.rows
  unfolding ack
  find-ack_other = find-update_other i key (acked now) q.rows (λ r. refl) other

  pub find-release_other : (delay : ℕ) → find key (release i delay now q).rows ≡ find key q.rows
  find-release_other delay = elim (Option-cases (find key q.rows)) [
    | inl e ↦ ground (arith, find-release q now key i delay)
    | inr (r, e) ↦
        ground (arith, find-release q now key i delay, find_id key q.rows r, eq_iff r.id i)
  ]

  pub find-fail_other :
      (error : String) (retry : Bool) (delay : ℕ)
      → find key (fail i error retry delay now q).rows ≡ find key q.rows
  unfolding fail
  find-fail_other error retry delay = elim (Option-cases (find i q.rows)) [
    | inl e ↦ rw (e, fail)
    | inr (r, e) ↦
        rw (e, fail)
          (find-update_other i key
            (if should_retry retry r then retried error delay now else dead error now) q.rows
            (failure_id q now key (should_retry retry r) error delay) other)
  ]

pub find-enqueue :
    {P : Type 0} (i : String) (now : ℕ) (name : String) (payload : P) (limit : ℕ)
    (q q' : CfsQueue P) (key : String)
    → enqueue i now name payload limit q ≡ some q'
    → find key q'.rows
      ≡ (if i == key then some (new_row i now name payload limit) else find key q.rows)
unfolding enqueue
find-enqueue i now name payload limit q q' key h = elim (Option-cases (find i q.rows)) [
  | inl e ↦
      ground (arith, eq_iff i key, find-append key q.rows (new_row i now name payload limit ∷ []))
  | inr (r, e) ↦ ground arith
]
