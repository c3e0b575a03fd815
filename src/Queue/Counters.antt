-- ===== src/Queue/Counters.antt =====
-- `CFSQueue.status`: the counters add up, the errors are the newest, and `requeue_failed` moves
-- what the counters say.
use Prim.Native.Nat.{zero, suc}
use open_cortex.Base.{
  ℕ, ◌+◌, ◌≤◌, ◌≡◌, refl, String, Bool, Option, arith, ◌==◌, string_eq, List, [], ◌∷◌, min, leb,
  Bool-cases, inl, inr,
}
use open_cortex.Base.Lists.{length, filter, take}
use open_cortex.Queue.Schema.{
  CfsQueue, Row, QueueError, is_pending, is_processing, is_done, is_failed,
}
use open_cortex.Queue.Defs.{update_where}
use open_cortex.Queue.Administration.{
  status, count_status, requeue_failed, is_dead, revived, failed_errors, insert_error, error_of,
}

abbrev pub AtMost : ℕ → List QueueError → Type 0
AtMost t [] = Unit
AtMost t (e ∷ es) = e.updated_at ≤ t

abbrev pub NewestFirst : List QueueError → Type 0
NewestFirst [] = Unit
NewestFirst (e ∷ es) = AtMost e.updated_at es × NewestFirst es

AtMost-insert_error :
    (t : ℕ) (e : QueueError) (es : List QueueError)
    → e.updated_at ≤ t
    → AtMost t es
    → AtMost t (insert_error e es)
unfolding insert_error
AtMost-insert_error t e [] h k = h
AtMost-insert_error t e (f ∷ fs) h k = elim (Bool-cases (leb f.updated_at e.updated_at)) [
  | inl b ↦ rw b h
  | inr b ↦ rw b k
]

NewestFirst-insert_error :
    (e : QueueError) (es : List QueueError) → NewestFirst es → NewestFirst (insert_error e es)
unfolding insert_error
NewestFirst-insert_error e [] h = (tt, tt)
NewestFirst-insert_error e (f ∷ fs) h = elim (Bool-cases (leb f.updated_at e.updated_at)) [
  | inl b ↦ rw b (ground arith, h)
  | inr b ↦
      rw b (
        AtMost-insert_error f.updated_at e fs (ground arith) h.0,
        NewestFirst-insert_error e fs h.1,
      )
]

AtMost-take : (n t : ℕ) (es : List QueueError) → AtMost t es → AtMost t (take n es)
AtMost-take zero t es h = tt
AtMost-take (suc n) t [] h = tt
AtMost-take (suc n) t (e ∷ es) h = h

NewestFirst-take : (n : ℕ) (es : List QueueError) → NewestFirst es → NewestFirst (take n es)
NewestFirst-take zero es h = tt
NewestFirst-take (suc n) [] h = tt
NewestFirst-take (suc n) (e ∷ es) h = (AtMost-take n e.updated_at es h.0, NewestFirst-take n es h.1)

length-insert_error :
    (e : QueueError) (es : List QueueError) → length (insert_error e es) ≡ suc (length es)
unfolding insert_error
length-insert_error e [] = refl
length-insert_error e (f ∷ fs) = ground (arith, length-insert_error e fs)

length-take-min {ℓ} : {A : Type ℓ} (n : ℕ) (xs : List A) → length (take n xs) ≡ min n (length xs)
length-take-min zero xs = omega arith
length-take-min (suc n) [] = omega arith
length-take-min (suc n) (x ∷ xs) = omega (arith, length-take-min n xs)

module _ {P : Type 0} (name : String) where
  counts_total :
      (rows : List (Row P))
      → count_status is_pending name rows
          + count_status is_processing name rows
          + count_status is_done name rows
          + count_status is_failed name rows
        ≡ length (filter (λ r. r.queue_name == name) rows)
  unfolding count_status
  counts_total [] = omega arith
  counts_total (r ∷ rs) = ground (arith, counts_total rs)

  failed_errors-NewestFirst : (rows : List (Row P)) → NewestFirst (failed_errors name rows)
  unfolding failed_errors
  failed_errors-NewestFirst [] = tt
  failed_errors-NewestFirst (r ∷ rs) = elim (Bool-cases (is_dead name r)) [
    | inl e ↦
        rw (e, failed_errors)
          (NewestFirst-insert_error (error_of r) (failed_errors name rs)
            (failed_errors-NewestFirst rs))
    | inr e ↦ rw (e, failed_errors) (failed_errors-NewestFirst rs)
  ]

  length-failed_errors :
      (rows : List (Row P)) → length (failed_errors name rows) ≡ count_status is_failed name rows
  unfolding failed_errors count_status
  length-failed_errors [] = refl
  length-failed_errors (r ∷ rs) =
      ground
        (arith, length-failed_errors rs, length-insert_error (error_of r) (failed_errors name rs))

  -- The four counters add up to the rows of the queue. The errors are those of failed rows, newest
  -- first, at most 100 of them and all if there are fewer.
  pub status_total :
      (q : CfsQueue P)
      → ((status name q).pending
            + (status name q).processing
            + (status name q).done
            + (status name q).failed
          ≡ length (filter (λ r. r.queue_name == name) q.rows))
        × NewestFirst (status name q).errors
        × (length (status name q).errors ≡ min 100 (status name q).failed)
  unfolding status
  status_total q = (
    counts_total q.rows,
    NewestFirst-take 100 _ (failed_errors-NewestFirst q.rows),
    omega (arith, length-take-min 100 (failed_errors name q.rows), length-failed_errors q.rows),
  )

  module _ (limit : Option ℕ) (reset : Bool) (now : ℕ) where
    revived_counts :
        (rows : List (Row P))
        → let after = update_where (is_dead name) (revived limit reset now) rows in
          (count_status is_failed name after ≡ 0)
          × (count_status is_pending name after
              ≡ count_status is_pending name rows + length (filter (is_dead name) rows))
          × (count_status is_processing name after ≡ count_status is_processing name rows)
          × (count_status is_done name after ≡ count_status is_done name rows)
          × (length (filter (is_dead name) rows) ≡ count_status is_failed name rows)
    unfolding count_status update_where is_dead revived
    revived_counts [] = omega arith
    revived_counts (r ∷ rs) = ground (arith, revived_counts rs)

    -- `requeue_failed` returns the number of failed rows of the queue and makes them pending: none
    -- is left failed, and the processed and the done rows keep their number.
    pub requeue_failed_counts :
        (q : CfsQueue P)
        → let (after, moved) = requeue_failed name limit reset now q in
          ((status name after).failed ≡ 0)
          × ((status name after).pending ≡ (status name q).pending + moved)
          × ((status name after).processing ≡ (status name q).processing)
          × ((status name after).done ≡ (status name q).done)
          × (moved ≡ (status name q).failed)
    unfolding requeue_failed status
    requeue_failed_counts q = revived_counts q.rows
