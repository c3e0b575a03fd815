-- ===== src/Queue/Claim.antt =====
-- `CFSQueue.dequeue`: which row is claimed, and what becomes of it.
use open_cortex.Base.{
  ℕ, ◌↔◌, ◌≤◌, ◌≡◌, ◌≢◌, refl, ap, String, true, Option, none, some, arith, ◌==◌, string_eq,
  Option-cases, inl, inr, eq_iff, [],
}
use open_cortex.Base.Lists.{filter}
use open_cortex.Queue.Schema.{CfsQueue, Row, QueueMessage}
use open_cortex.Queue.Defs.{
  find, recover_stale, recovered, dequeue, claimable, oldest, claim, claimed, message_of,
}
use open_cortex.Queue.Table.{
  find_id, NodupIds, NodupIds-update_where, oldest_test, oldest_first, find-oldest, oldest-none_iff,
}
use open_cortex.Queue.Rows.{find-claim}

module _ {P : Type 0} (name : String) (now : ℕ) where
  -- The rows that `dequeue` selects from: stale claims have been given back.
  abbrev pub refreshed : CfsQueue P → CfsQueue P
  refreshed q = (recover_stale (some name) now q).0

  abbrev pub selected : CfsQueue P → Option (Row P)
  selected q = oldest (filter (claimable name now) (refreshed q).rows)

  pub dequeue-eq-some :
      (q : CfsQueue P) {m : QueueMessage P} {q' : CfsQueue P}
      → dequeue name now q ≡ (some m, q')
      → (r : Row P) × (selected q ≡ some r)
        × (m ≡ message_of r)
        × (q' ≡ record (refreshed q) { rows = claim now r (refreshed q).rows })
  unfolding dequeue
  dequeue-eq-some q h = elim (Option-cases (selected q)) [
    | inl e ↦ ground arith
    | inr (r, e) ↦ (r, e, ground arith, ground arith)
  ]

  pub NodupIds-refreshed : (q : CfsQueue P) → NodupIds q.rows → NodupIds (refreshed q).rows
  unfolding recover_stale
  NodupIds-refreshed q u = NodupIds-update_where _ (recovered now) (λ r. refl) q.rows u

  -- With unique ids, the message that `dequeue` returns is the pending, available row of the named
  -- queue with the least `created_at`; its row becomes `processing` with one attempt more.
  pub dequeue_claims :
      (q : CfsQueue P) (m : QueueMessage P) (q' : CfsQueue P)
      → NodupIds q.rows
      → dequeue name now q ≡ (some m, q')
      → (r : Row P) × (m ≡ message_of r)
        × (find m.id (refreshed q).rows ≡ some r)
        × (claimable name now r ≡ true)
        × ((key : String) (s : Row P)
            → find key (refreshed q).rows ≡ some s
            → claimable name now s ≡ true
            → r.created_at ≤ s.created_at)
        × (find m.id q'.rows ≡ some (claimed now r))
  dequeue_claims q m q' u h =
      let (r, picked, shape, after) = dequeue-eq-some q h in
      let at : find r.id (refreshed q).rows ≡ some r =
        find-oldest (claimable name now) _ r (NodupIds-refreshed q u) picked in
      let same : m.id ≡ r.id = unfold message_of in ap (λ t. t.id) shape in
      (
        r,
        shape,
        cc,
        oldest_test (claimable name now) _ r picked,
        λ key s. oldest_first (claimable name now) _ r key s picked,
        ground (arith, eq_iff r.id r.id, find-claim (refreshed q) now r.id r),
      )

  -- A row with another id is as the recovery of stale claims left it.
  pub dequeue_others :
      (q : CfsQueue P) (m : QueueMessage P) (q' : CfsQueue P) (key : String)
      → dequeue name now q ≡ (some m, q')
      → key ≢ m.id
      → find key q'.rows ≡ find key (refreshed q).rows
  dequeue_others q m q' key h ne =
      let (r, picked, shape, after) = dequeue-eq-some q h in
      let same : m.id ≡ r.id = unfold message_of in ap (λ t. t.id) shape in
      rw (after, find-claim)
        (elim (Option-cases (find key (refreshed q).rows)) [
          | inl e ↦ rw e
          | inr (s, e) ↦ ground (arith, find_id key (refreshed q).rows s, eq_iff s.id r.id, e)
        ])

  -- `dequeue` returns nothing exactly when no row of the refreshed table can be claimed.
  pub dequeue-none :
      (q : CfsQueue P)
      → ((dequeue name now q).0 ≡ none) ↔ (filter (claimable name now) (refreshed q).rows ≡ [])
  unfolding dequeue
  dequeue-none q = elim (Option-cases (selected q)) [
    | inl e ↦ (λ h. oldest-none_iff (claimable name now) _ e, λ h. ground arith)
    | inr (r, e) ↦ (λ h. ground arith, λ h. ground arith)
  ]

  pub NodupIds-dequeue : (q : CfsQueue P) → NodupIds q.rows → NodupIds (dequeue name now q).1.rows
  unfolding dequeue
  NodupIds-dequeue q u = elim (Option-cases (selected q)) [
    | inl e ↦ rw (e, dequeue) (NodupIds-refreshed q u)
    | inr (r, e) ↦
        rw (e, dequeue)
          (NodupIds-update_where (λ s. s.id == r.id) (claimed now) (λ s. refl) _
            (NodupIds-refreshed q u))
  ]

  pub stale_after-dequeue : (q : CfsQueue P) → (dequeue name now q).1.stale_after ≡ q.stale_after
  unfolding dequeue
  stale_after-dequeue q = ground arith
