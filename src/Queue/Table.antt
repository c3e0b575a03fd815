-- ===== src/Queue/Table.antt =====
-- How `find`, `update_where` and `oldest` act on the table: the lemmas behind the methods' laws.
use mathlib.Core.Option
use open_cortex.Base.{
  ◌≢◌, ◌==◌, ◌≤◌, ◌≡◌, refl, String, Bool, true, false, none, some, List, [], ◌∷◌, ◌++◌, arith,
  if◌then◌else◌, Option-cases, Bool-cases, inl, inr, string_eq, eq_iff,
}
use open_cortex.Base.Lists.{filter}
use open_cortex.Queue.Schema.{Row}
use open_cortex.Queue.Defs.{find, update_where, oldest}

module _ {P : Type 0} where
  abbrev pub NodupIds : List (Row P) → Type 0
  NodupIds [] = Unit
  NodupIds (r ∷ rs) = (find r.id rs ≡ none) × NodupIds rs

  abbrev pub change_if : (Row P → Bool) → (Row P → Row P) → Row P → Row P
  change_if test change r = if test r then change r else r

  module _ (test : Row P → Bool) (change : Row P → Row P)
      (keeps : (r : Row P) → (change r).id ≡ r.id) where
    pub find-update_where :
        (key : String) (rows : List (Row P))
        → find key (update_where test change rows)
          ≡ Option.map (change_if test change) (find key rows)
    unfolding find update_where
    find-update_where key [] = refl
    find-update_where key (r ∷ rs) = ground (arith, keeps r, find-update_where key rs)

    pub NodupIds-update_where :
        (rows : List (Row P)) → NodupIds rows → NodupIds (update_where test change rows)
    unfolding update_where
    NodupIds-update_where [] h = tt
    NodupIds-update_where (r ∷ rs) h =
        (ground (arith, keeps r, find-update_where r.id rs), NodupIds-update_where rs h.1)

  pub find-append :
      (key : String) (xs ys : List (Row P))
      → find key (xs ++ ys) ≡ elim (find key xs) [ none ↦ find key ys | some r ↦ some r ]
  unfolding find
  find-append key [] ys = refl
  find-append key (x ∷ xs) ys = ground (arith, find-append key xs ys)

  pub NodupIds-append :
      (xs : List (Row P)) (r : Row P) → NodupIds xs → find r.id xs ≡ none → NodupIds (xs ++ r ∷ [])
  unfolding find
  NodupIds-append [] r h fresh = (refl, tt)
  NodupIds-append (x ∷ xs) r h fresh = (
    ground (arith, find-append x.id xs (r ∷ []), eq_iff r.id x.id, eq_iff x.id r.id),
    NodupIds-append xs r h.1 (ground arith),
  )

  pub find_id :
      (key : String) (rows : List (Row P)) (r : Row P) → find key rows ≡ some r → r.id ≡ key
  unfolding find
  find_id key [] r h = cc
  find_id key (x ∷ xs) r h = ground (arith, eq_iff x.id key, find_id key xs r)

  -- The row that `oldest` picks out of the rows that pass a test.
  pub oldest_test :
      (test : Row P → Bool) (rows : List (Row P)) (r : Row P)
      → oldest (filter test rows) ≡ some r
      → test r ≡ true
  unfolding oldest
  oldest_test test [] r h = cc
  oldest_test test (x ∷ xs) r h = ground (arith, oldest_test test xs r)

  oldest-none :
      (test : Row P → Bool) (rows : List (Row P)) (key : String) (s : Row P)
      → oldest (filter test rows) ≡ none
      → find key rows ≡ some s
      → test s ≡ false
  unfolding oldest find
  oldest-none test [] key s h k = cc
  oldest-none test (x ∷ xs) key s h k = ground (arith, oldest-none test xs key s)

  pub oldest_first :
      (test : Row P → Bool) (rows : List (Row P)) (r : Row P) (key : String) (s : Row P)
      → oldest (filter test rows) ≡ some r
      → find key rows ≡ some s
      → test s ≡ true
      → r.created_at ≤ s.created_at
  unfolding oldest find
  oldest_first test [] r key s h k t = cc
  oldest_first test (x ∷ xs) r key s h k t = elim (Option-cases (oldest (filter test xs))) [
    | inl e ↦ ground (arith, oldest-none test xs key s)
    | inr (u, e) ↦ ground (arith, oldest_first test xs u key s)
  ]

  -- In a table with unique ids the picked row is the one that its id finds.
  pub find-oldest :
      (test : Row P → Bool) (rows : List (Row P)) (r : Row P)
      → NodupIds rows
      → oldest (filter test rows) ≡ some r
      → find r.id rows ≡ some r
  unfolding oldest find
  find-oldest test [] r u h = cc
  find-oldest test (x ∷ xs) r u h =
      ground (arith, eq_iff x.id r.id, eq_iff r.id r.id, find-oldest test xs r u.1)

  pub oldest-none_iff :
      (test : Row P → Bool) (rows : List (Row P))
      → oldest (filter test rows) ≡ none
      → filter test rows ≡ []
  unfolding oldest
  oldest-none_iff test [] h = refl
  oldest-none_iff test (x ∷ xs) h = ground (arith, oldest-none_iff test xs)

  find-filter-none :
      (test : Row P → Bool) (key : String) (rows : List (Row P))
      → find key rows ≡ none
      → find key (filter test rows) ≡ none
  unfolding find
  find-filter-none test key [] h = refl
  find-filter-none test key (x ∷ xs) h = ground (arith, find-filter-none test key xs)

  pub NodupIds-filter :
      (test : Row P → Bool) (rows : List (Row P)) → NodupIds rows → NodupIds (filter test rows)
  NodupIds-filter test [] h = tt
  NodupIds-filter test (x ∷ xs) h = elim (Bool-cases (test x)) [
    | inl e ↦ rw e (find-filter-none test x.id xs h.0, NodupIds-filter test xs h.1)
    | inr e ↦ rw e (NodupIds-filter test xs h.1)
  ]

  -- An update of the rows with one id leaves the rows of other ids alone.
  pub find-update_other :
      (i key : String) (change : Row P → Row P) (rows : List (Row P))
      → ((r : Row P) → (change r).id ≡ r.id)
      → key ≢ i
      → find key (update_where (λ r. r.id == i) change rows) ≡ find key rows
  unfolding find update_where
  find-update_other i key change [] keeps ne = refl
  find-update_other i key change (r ∷ rs) keeps ne =
      ground
        (arith, keeps r, eq_iff r.id i, eq_iff r.id key, find-update_other i key change rs keeps)
