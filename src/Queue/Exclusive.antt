-- ===== src/Queue/Exclusive.antt =====
-- A claim of `CFSQueue.dequeue` is exclusive, whatever else is called meanwhile.
use mathlib.Core.Path.{subst}
use open_cortex.Base.{
  ℕ, ◌+◌, ◌≤◌, ◌≡◌, ◌≢◌, refl, sym, ap, ◌∙◌, String, some, Option, List, [], ◌∷◌, arith,
  Option-cases, inl, inr, eq_iff, string_eq,
}
use open_cortex.Base.Lists.{All}
use open_cortex.Queue.Schema.{CfsQueue, Row, QueueMessage, processing}
use open_cortex.Queue.Defs.{
  find, enqueue, dequeue, recover_stale, is_stale, claimable, claimed, ack, release, fail,
}
use open_cortex.Queue.Administration.{requeue_failed, is_dead}
use open_cortex.Queue.Calls.{
  Call, enqueue_call, dequeue_call, ack_call, release_call, fail_call, recover_call, requeue_call,
  clear_call, perform, perform_all,
}
use open_cortex.Queue.Rows.{
  find-recover_stale, find-requeue_failed, find-ack_other, find-release_other, find-fail_other,
  find-enqueue,
}
use open_cortex.Queue.Claim.{
  refreshed, selected, dequeue_claims, dequeue_others, stale_after-dequeue,
}
use open_cortex.Queue.Validity.{IsValid, perform-IsValid}

module _ {P : Type 0} (key : String) (limit : ℕ) where
  -- A call at a time up to `limit` that does not end the claim of `key`.
  abbrev pub Spares : Call P → Type 0
  Spares (enqueue_call i now name payload n) = Unit
  Spares (dequeue_call name now) = now ≤ limit
  Spares (ack_call i now) = key ≢ i
  Spares (release_call i delay now) = key ≢ i
  Spares (fail_call i error retry delay now) = key ≢ i
  Spares (recover_call wanted now) = now ≤ limit
  Spares (requeue_call name n reset now) = Unit
  Spares (clear_call wanted) = ⊥

  -- The row of `key` is the one that was claimed, and its claim is not stale up to `limit`.
  record Claimed (row : Row P) (q : CfsQueue P) : Type 0 where
    valid : IsValid q
    at : find key q.rows ≡ some row
    busy : row.status ≡ processing
    start : ℕ
    started : row.processing_started_at ≡ some start
    near : limit ≤ start + q.stale_after

  module _ (row : Row P) (q : CfsQueue P) (c : Claimed row q) where
    find-recovered :
        (wanted : Option String) (now : ℕ)
        → now ≤ limit
        → find key (recover_stale wanted now q).0.rows ≡ some row
    unfolding is_stale
    find-recovered wanted now le =
        ground (arith, find-recover_stale q now key wanted, c.at, c.started, c.near)

    dequeue_elsewhere :
        (name : String) (now : ℕ) (m : QueueMessage P) (q' : CfsQueue P)
        → now ≤ limit
        → dequeue name now q ≡ (some m, q')
        → key ≢ m.id
    unfolding claimable
    dequeue_elsewhere name now m q' le h same =
        let (r, _, at, open', _, _) = dequeue_claims name now q m q' c.valid.unique h in
        ground (
          arith,
          ap (λ k. find k (refreshed name now q).rows) same,
          find-recovered (some name) now le,
          c.busy,
        )

    find-dequeued :
        (name : String) (now : ℕ) → now ≤ limit → find key (dequeue name now q).1.rows ≡ some row
    unfolding dequeue
    find-dequeued name now le = elim (Option-cases (dequeue name now q).0) [
      | inl e ↦ elim (Option-cases (selected name now q)) [
        | inl none_left ↦ rw (none_left, dequeue) (find-recovered (some name) now le)
        | inr (r, picked) ↦ ground arith
      ]
      | inr (m, e) ↦
          let q' = (dequeue name now q).1 in
          let h : dequeue name now q ≡ (some m, q') = ap (λ t. (t, q')) e in
          dequeue_others name now q m q' key h (dequeue_elsewhere name now m q' le h)
          ∙ find-recovered (some name) now le
    ]

    find-enqueued :
        (i : String) (now : ℕ) (name : String) (payload : P) (n : ℕ) (q' : CfsQueue P)
        → enqueue i now name payload n q ≡ some q'
        → find key q'.rows ≡ some row
    unfolding enqueue
    find-enqueued i now name payload n q' e =
        let other : i ≢ key = λ same. ground (arith, ap (λ k. find k q.rows) same, c.at) in
        ground (arith, find-enqueue i now name payload n q q' key e, eq_iff i key, c.at)

    find-performed : (call : Call P) → Spares call → find key (perform call q).rows ≡ some row
    unfolding perform
    find-performed (enqueue_call i now name payload n) s =
        elim (Option-cases (enqueue i now name payload n q)) [
          | inl e ↦ rw e c.at
          | inr (q', e) ↦ rw e (find-enqueued i now name payload n q' e)
        ]
    find-performed (dequeue_call name now) s = find-dequeued name now s
    find-performed (ack_call i now) s = find-ack_other q now i key s ∙ c.at
    find-performed (release_call i delay now) s = find-release_other q now i key s delay ∙ c.at
    find-performed (fail_call i error retry delay now) s =
        find-fail_other q now i key s error retry delay ∙ c.at
    find-performed (recover_call wanted now) s = find-recovered wanted now s
    find-performed (requeue_call name n reset now) s =
        unfold is_dead in ground (arith, find-requeue_failed q now key name n reset, c.at, c.busy)
    find-performed (clear_call wanted) s = absurd s

  stale_after-perform :
      (call : Call P) (q : CfsQueue P) → Spares call → (perform call q).stale_after ≡ q.stale_after
  unfolding perform
  stale_after-perform (enqueue_call i now name payload n) q s = unfold enqueue in ground arith
  stale_after-perform (dequeue_call name now) q s = stale_after-dequeue name now q
  stale_after-perform (ack_call i now) q s = unfold ack in refl
  stale_after-perform (release_call i delay now) q s = unfold release in refl
  stale_after-perform (fail_call i error retry delay now) q s = unfold fail in ground arith
  stale_after-perform (recover_call wanted now) q s = unfold recover_stale in refl
  stale_after-perform (requeue_call name n reset now) q s = unfold requeue_failed in refl
  stale_after-perform (clear_call wanted) q s = absurd s

  Claimed-perform :
      (row : Row P) (q : CfsQueue P) (call : Call P)
      → Claimed row q
      → Spares call
      → Claimed row (perform call q)
  Claimed-perform row q call c s = record {
    valid = perform-IsValid call q c.valid;
    at = find-performed row q c call s;
    busy = c.busy;
    start = c.start;
    started = c.started;
    near = rw (stale_after-perform call q s) c.near;
  }

  Claimed-perform_all :
      (row : Row P) (cs : List (Call P)) (q : CfsQueue P)
      → Claimed row q
      → All Spares cs
      → Claimed row (perform_all cs q)
  unfolding perform_all
  Claimed-perform_all row [] q c s = c
  Claimed-perform_all row (call ∷ cs) q c s =
      Claimed-perform_all row cs (perform call q) (Claimed-perform row q call c s.0) s.1

-- After a claim in a well-formed table, any calls follow at times up to the end of the waiting time
-- for stale claims, except `clear` and an `ack`, `release` or `fail` of the message: then the row is
-- still as the claim left it, and a `dequeue` up to that time, of whatever queue, returns another
-- message.
pub dequeue_exclusive :
    {P : Type 0} (name : String) (now : ℕ) (q : CfsQueue P) (m : QueueMessage P) (q' : CfsQueue P)
    (cs : List (Call P))
    → IsValid q
    → dequeue name now q ≡ (some m, q')
    → All (Spares m.id (now + q.stale_after)) cs
    → (find m.id (perform_all cs q').rows ≡ find m.id q'.rows)
      × ((name' : String) (now' : ℕ) (m' : QueueMessage P) (q'' : CfsQueue P)
          → now' ≤ now + q.stale_after
          → dequeue name' now' (perform_all cs q') ≡ (some m', q'')
          → m.id ≢ m'.id)
unfolding claimed perform
dequeue_exclusive {P} name now q m q' cs v h spared =
    let (r, _, _, _, _, taken) = dequeue_claims name now q m q' v.unique h in
    let last : Claimed m.id (now + q.stale_after) (claimed now r) (perform_all cs q') =
      Claimed-perform_all m.id (now + q.stale_after) (claimed now r) cs q'
        (record {
          valid =
              subst (λ (p : Option (QueueMessage P) × CfsQueue P). IsValid p.1) h
                (perform-IsValid (dequeue_call name now) q v);
          at = taken;
          busy = refl;
          start = now;
          started = refl;
          near = omega (
            arith,
            ap (λ (p : Option (QueueMessage P) × CfsQueue P). p.1.stale_after) h,
            stale_after-dequeue name now q,
          );
        })
        spared in
    (
      last.at ∙ sym taken,
      λ name' now' m' q''.
          dequeue_elsewhere m.id (now + q.stale_after) (claimed now r) (perform_all cs q') last
            name' now' m' q'',
    )
