-- ===== src/Session/Opening.antt =====
-- What taking the lock and touching the key leave: all of a key that is not idle.
use open_cortex.Base.{ℕ, ◌≡◌, refl, ap, ◌∙◌, String, false, some, List, [], ◌∷◌, string_eq, pair_eq}
use open_cortex.Base.Lists.{contains}
use open_cortex.Base.Dict
use open_cortex.Base.Json.{Meta}
use open_cortex.Buffer.{
  SessionBuffer, active, chunks, or_else, stale_keys, prune_idle, drop_keys, drop_key, lock, touch,
  empty_buffer,
}
use open_cortex.Buffer.Flow.{IsKeyValid, held_messages, held_uris}
use open_cortex.Buffer.Idle.{drops-Same}
use open_cortex.Session.Defs.{SessionKey}

-- The key is well formed and holds these messages and uris, in this order.
pub record Holds (key : SessionKey) (messages uris : List String)
    (b : SessionBuffer SessionKey Meta) : Type 0 where
  pub valid : IsKeyValid key b
  pub texts : held_messages key b ≡ messages
  pub sources : held_uris key b ≡ uris

-- The key was touched within the idle time, or never.
abbrev pub NotIdle : SessionKey → ℕ → SessionBuffer SessionKey Meta → Type 0
NotIdle key now b = contains key (stale_keys b.idle_ttl now b.activity) ≡ false

module _ (key : SessionKey) where
  -- What a key holds is read off its entries in two maps.
  pub Same-Holds :
      (ms us : List String) (b r : SessionBuffer SessionKey Meta)
      → r.merge_token_budget ≡ b.merge_token_budget
      → Dict.get key r.buffers ≡ Dict.get key b.buffers
      → Dict.get key r.pending_merges ≡ Dict.get key b.pending_merges
      → Holds key ms us b
      → Holds key ms us r
  unfolding held_messages held_uris
  Same-Holds ms us b r k sb sp h =
      let ea : active key r ≡ active key b = unfold active in ap (or_else empty_buffer) sb in
      let ec : chunks key r ≡ chunks key b = unfold chunks in ap (or_else []) sp in
      record {
        valid = record {
          aligned = rw ea h.valid.aligned;
          whole = rw (ec, k) h.valid.whole;
          contiguous = rw (ea, ec) h.valid.contiguous;
        };
        texts = rw (ea, ec) h.texts;
        sources = rw (ea, ec) h.sources;
      }

  drops-budget :
      (ks : List SessionKey) (b : SessionBuffer SessionKey Meta)
      → (drop_keys ks b).merge_token_budget ≡ b.merge_token_budget
  unfolding drop_keys
  drops-budget [] b = refl
  drops-budget (k ∷ ks) b = drops-budget ks (drop_key k b) ∙ dropped k b
    where
      dropped :
          (j : SessionKey) (c : SessionBuffer SessionKey Meta)
          → (drop_key j c).merge_token_budget ≡ c.merge_token_budget
      dropped j c = unfold drop_key in refl

  -- After `lock` and `touch` the key holds what it held.
  pub opened-Holds :
      (project : String) (now : ℕ) (ms us : List String) (b : SessionBuffer SessionKey Meta)
      → NotIdle key now b
      → Holds key ms us b
      → Holds key ms us (touch key (some project) now (lock key now b))
  unfolding touch lock prune_idle
  opened-Holds project now ms us b n h =
      let stale = stale_keys b.idle_ttl now b.activity in
      let s = drops-Same key stale b n in
      Same-Holds ms us b (touch key (some project) now (lock key now b)) (drops-budget stale b)
        s.buffers s.pending_merges h
