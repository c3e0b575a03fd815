-- ===== src/Buffer/Idle.antt =====
-- `prune_idle`: which keys it drops, and what it leaves alone.
use open_cortex.Base.{
  ℕ, ◌+◌, ◌≤◌, ◌<◌, ◌≡◌, refl, true, false, none, some, List, [], ◌∷◌, arith, leb, PyEq, Bool-cases,
  inl, inr, ◌==◌, ◌∙◌, ◌⊎◌,
}
use open_cortex.Base.Lists.{contains}
use open_cortex.Base.Sets.{contains-discard}
use open_cortex.Base.Dict
use open_cortex.Base.Dict.{Dict, UniqueKeys}
use open_cortex.Buffer.Defs.{SessionBuffer, stale_keys, drop_key, drop_keys, prune_idle}

module _ {K : Type 0} ⦃e : PyEq K⦄ (idle_ttl now : ℕ) where
  stale_absent :
      (key : K) (d : Dict K ℕ)
      → Dict.get key d ≡ none
      → contains key (stale_keys idle_ttl now d) ≡ false
  unfolding Dict.get stale_keys
  stale_absent key [] h = refl
  stale_absent key ((k, seen) ∷ d) h = ground (arith, stale_absent key d, e.equals_iff k key)

  stale_present :
      (key : K) (seen : ℕ) (d : Dict K ℕ)
      → UniqueKeys d
      → Dict.get key d ≡ some seen
      → contains key (stale_keys idle_ttl now d) ≡ leb (seen + idle_ttl) now
  unfolding Dict.get stale_keys
  stale_present key seen [] u h = ground arith
  stale_present key seen ((k, s) ∷ d) u h = elim (Bool-cases (k == key)) [
    | inl q ↦ ground (arith, q, e.equals_iff k key, stale_absent key d, u.0)
    | inr q ↦ ground (arith, q, stale_present key seen d u.1)
  ]

equal : {K : Type 0} → ⦃e : PyEq K⦄ → (k key : K) → (k == key) ≡ true → k ≡ key
equal ⦃e⦄ k key q = ground (arith, e.equals_iff k key)

module _ {K C : Type 0} ⦃e : PyEq K⦄ (key : K) where
  -- What the five maps of the state have of a key.
  pub record Same (b r : SessionBuffer K C) : Type 0 where
    pub buffers : Dict.get key r.buffers ≡ Dict.get key b.buffers
    pub pending_merges : Dict.get key r.pending_merges ≡ Dict.get key b.pending_merges
    pub activity : Dict.get key r.activity ≡ Dict.get key b.activity
    pub project_ids : Dict.get key r.project_ids ≡ Dict.get key b.project_ids
    pub locks : contains key r.locks ≡ contains key b.locks

  pub record Gone (r : SessionBuffer K C) : Type 0 where
    pub buffers : Dict.get key r.buffers ≡ none
    pub pending_merges : Dict.get key r.pending_merges ≡ none
    pub activity : Dict.get key r.activity ≡ none
    pub project_ids : Dict.get key r.project_ids ≡ none
    pub locks : contains key r.locks ≡ false

  pub drop-Gone : (k : K) → k ≡ key → (b : SessionBuffer K C) → Gone (drop_key k b)
  unfolding drop_key
  drop-Gone k q b = record {
    buffers = ground (arith, q, e.equals_iff k key, Dict.get-pop k key b.buffers);
    pending_merges = ground (arith, q, e.equals_iff k key, Dict.get-pop k key b.pending_merges);
    activity = ground (arith, q, e.equals_iff k key, Dict.get-pop k key b.activity);
    project_ids = ground (arith, q, e.equals_iff k key, Dict.get-pop k key b.project_ids);
    locks = ground (arith, q, e.equals_iff k key, contains-discard k key b.locks);
  }

  drop-Same : (k : K) (b : SessionBuffer K C) → (k == key) ≡ false → Same b (drop_key k b)
  unfolding drop_key
  drop-Same k b h = record {
    buffers = ground (arith, h, Dict.get-pop k key b.buffers);
    pending_merges = ground (arith, h, Dict.get-pop k key b.pending_merges);
    activity = ground (arith, h, Dict.get-pop k key b.activity);
    project_ids = ground (arith, h, Dict.get-pop k key b.project_ids);
    locks = ground (arith, h, contains-discard k key b.locks);
  }

  Same-trans : {a b c : SessionBuffer K C} → Same a b → Same b c → Same a c
  Same-trans s t = record {
    buffers = t.buffers ∙ s.buffers;
    pending_merges = t.pending_merges ∙ s.pending_merges;
    activity = t.activity ∙ s.activity;
    project_ids = t.project_ids ∙ s.project_ids;
    locks = t.locks ∙ s.locks;
  }

  Gone-Same : {b r : SessionBuffer K C} → Gone b → Same b r → Gone r
  Gone-Same g t = record {
    buffers = t.buffers ∙ g.buffers;
    pending_merges = t.pending_merges ∙ g.pending_merges;
    activity = t.activity ∙ g.activity;
    project_ids = t.project_ids ∙ g.project_ids;
    locks = t.locks ∙ g.locks;
  }

  pub drops-Same :
      (ks : List K) (b : SessionBuffer K C) → contains key ks ≡ false → Same b (drop_keys ks b)
  unfolding drop_keys
  drops-Same [] b h = record {
    buffers = refl;
    pending_merges = refl;
    activity = refl;
    project_ids = refl;
    locks = refl;
  }
  drops-Same (k ∷ ks) b h =
      Same-trans (drop-Same k b (ground arith)) (drops-Same ks (drop_key k b) (ground arith))

  -- A key that is gone stays gone.
  drops_again : (ks : List K) (b : SessionBuffer K C) → Gone b → Gone (drop_keys ks b)
  unfolding drop_keys
  drops_again [] b g = g
  drops_again (k ∷ ks) b g = elim (Bool-cases (k == key)) [
    | inl q ↦ drops_again ks (drop_key k b) (drop-Gone k (equal k key q) b)
    | inr q ↦ drops_again ks (drop_key k b) (Gone-Same g (drop-Same k b q))
  ]

  pub drops-Gone :
      (ks : List K) (b : SessionBuffer K C) → contains key ks ≡ true → Gone (drop_keys ks b)
  unfolding drop_keys
  drops-Gone [] b h = ground arith
  drops-Gone (k ∷ ks) b h = elim (Bool-cases (k == key)) [
    | inl q ↦ drops_again ks (drop_key k b) (drop-Gone k (equal k key q) b)
    | inr q ↦ drops-Gone ks (drop_key k b) (ground arith)
  ]

  -- For a key last touched at `seen`: `prune_idle` drops all its state if the idle time has passed
  -- since, and leaves all its state as it is otherwise.
  pub prune_idle_keys :
      (now seen : ℕ) (b : SessionBuffer K C)
      → UniqueKeys b.activity
      → Dict.get key b.activity ≡ some seen
      → ((seen + b.idle_ttl ≤ now) × Gone (prune_idle now b).0)
        ⊎ ((now < seen + b.idle_ttl) × Same b (prune_idle now b).0)
  unfolding prune_idle
  prune_idle_keys now seen b u h =
      let ks = stale_keys b.idle_ttl now b.activity in
      let p = stale_present b.idle_ttl now key seen b.activity u h in
      elim (Bool-cases (leb (seen + b.idle_ttl) now)) [
        | inl l ↦ inl (ground (arith, l), drops-Gone ks b (p ∙ l))
        | inr l ↦ inr (ground (arith, l), drops-Same ks b (p ∙ l))
      ]

  -- A key that was never touched keeps its state.
  pub prune_idle_untouched :
      (now : ℕ) (b : SessionBuffer K C)
      → Dict.get key b.activity ≡ none
      → Same b (prune_idle now b).0
  unfolding prune_idle
  prune_idle_untouched now b h =
      let ks = stale_keys b.idle_ttl now b.activity in
      drops-Same ks b (stale_absent b.idle_ttl now key b.activity h)
