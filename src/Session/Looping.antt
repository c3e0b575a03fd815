-- ===== src/Session/Looping.antt =====
-- The loop of `end` that merges the chunks.
use mathlib.Core.Path.{subst}
use mathlib.Core.List.{append_assoc, append-nil}
use open_cortex.Base.{
  ℕ, zero, suc, ◌≤◌, ◌≡◌, refl, sym, ap, String, true, false, Option, some, List, [], ◌∷◌, ◌++◌,
  string_eq, pair_eq, arith,
}
use open_cortex.Base.Lists.{length}
use open_cortex.Base.Json.{Meta}
use open_cortex.Buffer.{
  SessionBuffer, SessionBufferSnapshot, ConversationBuffer, has_pending_merge, chunks,
}
use open_cortex.Buffer.Flow.{uris_of}
use open_cortex.Worker.Failure.{ok}
use open_cortex.Worker.Events.{IdentityProfile}
use open_cortex.Records.{StoredRecord}
use open_cortex.Session.Defs.{SessionKey, Services, Setup, State, ◌>>=◌, return}
use open_cortex.Session.Merge.{merge_unmerged}
use open_cortex.Session.Finish.{merge_pending, record_of}
use open_cortex.Session.Rules.{Post, Post->>=, Post-map}
use open_cortex.Worker.Failure.{ok}
use open_cortex.Session.Draining.{At, Announces, Done, Still, merge_unmerged-At}

pending_none :
    (key : SessionKey) (b : SessionBuffer SessionKey Meta)
    → chunks key b ≡ []
    → has_pending_merge key b ≡ false
unfolding has_pending_merge
pending_none key b h = rw (has_pending_merge, h) refl

pending_some :
    (key : SessionKey) (c : SessionBufferSnapshot Meta) (cs : List (SessionBufferSnapshot Meta))
    (b : SessionBuffer SessionKey Meta)
    → chunks key b ≡ c ∷ cs
    → has_pending_merge key b ≡ true
unfolding has_pending_merge
pending_some key c cs b h = rw (has_pending_merge, h) refl

module _ {Vector World : Type 0} (setup : Setup) (services : Services Vector World)
    (p : IdentityProfile) (key : SessionKey) where
  module _ (x : ConversationBuffer Meta) where
    -- All chunks were merged and announced, a record for each.
    unfoldable pub Merged :
        List (SessionBufferSnapshot Meta) → List String → List Meta → State World → Type 0
    Merged cs us records t = (length records ≡ length cs) × At key x [] (us ++ uris_of cs) t

    -- A write failed at a chunk: those before it were announced, those after it wait, and it is in
    -- neither.
    unfoldable pub Lost : List (SessionBufferSnapshot Meta) → List String → State World → Type 0
    Lost cs us t =
        (merged : List (SessionBufferSnapshot Meta)) × (lost : SessionBufferSnapshot Meta)
        × (waiting : List (SessionBufferSnapshot Meta)) × (cs ≡ merged ++ lost ∷ waiting)
        × At key x waiting (us ++ uris_of merged) t

    pending-nil :
        (fuel : ℕ) (s : State World)
        → chunks key s.buffer ≡ []
        → merge_pending setup services fuel key p s ≡ (ok [], s)
    unfolding merge_pending
    pending-nil zero s h = refl
    pending-nil (suc fuel) s h = rw (pending_none key s.buffer h) refl

    pending_round :
        (fuel : ℕ) (c : SessionBufferSnapshot Meta) (cs : List (SessionBufferSnapshot Meta))
        (s : State World)
        → chunks key s.buffer ≡ c ∷ cs
        → merge_pending setup services (suc fuel) key p s
          ≡ (merge_unmerged setup services key p >>= (λ merged.
                merge_pending setup services fuel key p
                >>= (λ rest. return (record_of merged ++ rest))))
              s
    unfolding merge_pending
    pending_round fuel c cs s h = rw (pending_some key c cs s.buffer h) refl

    At-nil :
        (cs : List (SessionBufferSnapshot Meta)) (us : List String) (t : State World)
        → At key x cs us t
        → At key x cs (us ++ []) t
    At-nil cs us t y = record {
      active_is = y.active_is;
      chunks_are = y.chunks_are;
      announces = subst (λ w. Announces w t.published) (sym (append-nil us)) y.announces;
    }

    At-append :
        (us vs ws : List String) (cs : List (SessionBufferSnapshot Meta)) (t : State World)
        → At key x cs ((us ++ vs) ++ ws) t
        → At key x cs (us ++ (vs ++ ws)) t
    At-append us vs ws cs t y = record {
      active_is = y.active_is;
      chunks_are = y.chunks_are;
      announces = subst (λ w. Announces w t.published) (append_assoc us vs ws) y.announces;
    }

    -- The loop: with a round for each chunk it merges all, or stops at the first write that fails.
    pub merge_pending-Merged :
        (fuel : ℕ) (cs : List (SessionBufferSnapshot Meta)) (us : List String) (s : State World)
        → length cs ≤ fuel
        → At key x cs us s
        → Post (Merged cs us) (Lost cs us) (merge_pending setup services fuel key p s)
    unfolding Merged Lost uris_of
    merge_pending-Merged fuel [] us s l a = rw (pending-nil fuel s a.chunks_are) (
      refl,
      record {
        active_is = a.active_is;
        chunks_are = a.chunks_are;
        announces = subst (λ t. Announces t s.published) (sym (append-nil us)) a.announces;
      },
    )
    merge_pending-Merged zero (c ∷ cs) us s l a = absurd (omega (arith, l))
    merge_pending-Merged (suc fuel) (c ∷ cs) us s l a =
        let us' = us ++ c.immediate_uris in
        let First : Option StoredRecord → State World → Type 0 =
          λ r t. (stored : StoredRecord) × (r ≡ some stored) × At key x cs us' t in
        let rest = merge_pending setup services fuel key p in
        rw (pending_round fuel c cs s a.chunks_are) (
          Post->>= First (Merged (c ∷ cs) us) (Lost (c ∷ cs) us)
            (merge_unmerged setup services key p) _ s
            (Post-map (Done setup services p key x c cs us s.published) First
              (Still setup services p key x cs us s.published) (Lost (c ∷ cs) us)
              (merge_unmerged setup services key p s) (λ r t y. (y.0, y.1, y.2))
              (λ t y. ([], c, cs, refl, At-nil cs us t y.0))
              (merge_unmerged-At setup services p key x c cs us s a))
            (λ r t y.
              Post->>= (Merged cs us') (Merged (c ∷ cs) us) (Lost (c ∷ cs) us) rest _ t
                (Post-map (Merged cs us') (Merged cs us') (Lost cs us') (Lost (c ∷ cs) us) (rest t)
                  (λ w u z. z)
                  (λ u z. (
                    c ∷ z.0,
                    z.1,
                    z.2,
                    ap (λ t. c ∷ t) z.3,
                    At-append us c.immediate_uris (uris_of z.0) z.2 u z.4,
                  ))
                  (merge_pending-Merged fuel cs us' t (omega (arith, l)) y.2))
                (λ w u z.
                  (rw y.1 (ap suc z.0), At-append us c.immediate_uris (uris_of cs) [] u z.1))))
