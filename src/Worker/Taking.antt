-- ===== src/Worker/Taking.antt =====
-- A dequeue keeps the queue and the tracker in agreement.
use open_cortex.Base.{
  ℕ, ◌≡◌, ap, ◌∙◌, String, true, some, arith, nat_eq, string_eq, eq_iff, Option-cases, inl, inr,
}
use open_cortex.Queue.{CfsQueue, Row, find, dequeue, is_stale, recovered, claim, claimed, claimable}
use open_cortex.Queue.Table.{find_id, find-oldest, oldest_test}
use open_cortex.Queue.Rows.{find-claim, find-recover_stale}
use open_cortex.Queue.Claim.{refreshed, selected, NodupIds-refreshed}
use open_cortex.Queue.Validity
use open_cortex.Worker.Events.{Codec, Payload}
use open_cortex.Worker.Defs.{WorkerState}
use open_cortex.Worker.Agreement.{is_active}
use open_cortex.Worker.System.{Agrees}

module _ (c : Codec) where
  refreshed_active :
      (name : String) (now : ℕ) (q : CfsQueue (Payload c.Body)) (key : String)
      (r' : Row (Payload c.Body))
      → find key (refreshed name now q).rows ≡ some r'
      → (r : Row (Payload c.Body)) × (find key q.rows ≡ some r)
        × (r'.payload ≡ r.payload)
        × (is_active r'.status ≡ is_active r.status)
  unfolding is_stale recovered
  refreshed_active name now q key r' h = elim (Option-cases (find key q.rows)) [
    | inl e ↦ ground (arith, find-recover_stale q now key (some name))
    | inr (r, e) ↦ (
      r,
      e,
      ground (arith, find-recover_stale q now key (some name)),
      ground (arith, find-recover_stale q now key (some name)),
    )
  ]

  claimed_active :
      (name : String) (now : ℕ) (q : CfsQueue (Payload c.Body)) (key : String)
      (r r' : Row (Payload c.Body))
      → Validity.IsValid q
      → selected name now q ≡ some r
      → find key (claim now r (refreshed name now q).rows) ≡ some r'
      → (r₀ : Row (Payload c.Body)) × (find key q.rows ≡ some r₀)
        × (r'.payload ≡ r₀.payload)
        × (is_active r'.status ≡ is_active r₀.status)
  unfolding claimable claimed
  claimed_active name now q key r r' v e h =
      elim (Option-cases (find key (refreshed name now q).rows)) [
        | inl f ↦ ground (arith, find-claim (refreshed name now q) now key r)
        | inr (u, f) ↦
            let (r₀, g, p, i) = refreshed_active name now q key u f in
            let at : find r.id (refreshed name now q).rows ≡ some r =
              find-oldest (claimable name now) (refreshed name now q).rows r
                (NodupIds-refreshed name now q v.unique) e in
            let idle : claimable name now r ≡ true =
              oldest_test (claimable name now) (refreshed name now q).rows r e in
            (
              r₀,
              g,
              ground (arith, find-claim (refreshed name now q) now key r),
              ground (
                arith,
                find-claim (refreshed name now q) now key r,
                find_id key (refreshed name now q).rows u,
                eq_iff u.id r.id,
              ),
            )
      ]

  -- What `dequeue` may do to a row: it stays active or not, and keeps its payload.
  dequeue_active :
      (name : String) (now : ℕ) (q : CfsQueue (Payload c.Body)) (key : String)
      (r' : Row (Payload c.Body))
      → Validity.IsValid q
      → find key (dequeue name now q).1.rows ≡ some r'
      → (r : Row (Payload c.Body)) × (find key q.rows ≡ some r)
        × (r'.payload ≡ r.payload)
        × (is_active r'.status ≡ is_active r.status)
  dequeue_active name now q key r' v h = elim (Option-cases (selected name now q)) [
    | inl e ↦ refreshed_active name now q key r' (unfold dequeue in rw (e, dequeue) at h)
    | inr (r, e) ↦ claimed_active name now q key r r' v e (unfold dequeue in rw (e, dequeue) at h)
  ]

  pub take-Agrees :
      (name : String) (now : ℕ) (s : WorkerState c.Body)
      → Agrees c s
      → Agrees c (record s { queue = (dequeue name now s.queue).1 })
  take-Agrees name now s a = record {
    tracker = a.tracker;
    kept = a.kept;
    queue_valid = Validity.dequeue-IsValid name now s.queue a.queue_valid;
    tracker_valid = a.tracker_valid;
    named = elim (Option-cases (find "" (dequeue name now s.queue).1.rows)) [
      | inl e ↦ e
      | inr (r, e) ↦
          let (r₀, f, _, _) = dequeue_active name now s.queue "" r a.queue_valid e in
          ground (arith, a.named)
    ];
    agree = λ key r' e g.
        let (r, f, p, i) = dequeue_active name now s.queue key r' a.queue_valid e in
        ground (
          arith,
          a.agree key r f (λ none'. g (ap (λ (x : Payload c.Body). x.request_id) p ∙ none')),
          ap (λ (x : Payload c.Body). x.request_id) p,
        );
  }
