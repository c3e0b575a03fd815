-- ===== src/Session/Draining.antt =====
-- `merge_unmerged` and the loop of `end`: where the chunks of the buffer go.
use mathlib.Core.Path.{subst}
use mathlib.Core.List.{append_assoc, append-nil}
use open_cortex.Base.{
  ℕ, ◌+◌, ◌-◌, ◌≡◌, refl, sym, ap, ◌∙◌, String, Option, none, some, List, [], ◌∷◌, ◌++◌, string_eq,
  pair_eq, arith,
}
use open_cortex.Base.Lists.{length}
use open_cortex.Base.Json.{Python, Meta, join}
use open_cortex.Buffer.{
  SessionBuffer, SessionBufferSnapshot, ConversationBuffer, pop_merge_chunk, active, chunks,
}
use open_cortex.Buffer.Calls.{pop-some, pop-chunks, pop-active}
use open_cortex.Worker.Failure.{Result, ok, err}
use open_cortex.Worker.Events.{IdentityProfile}
use open_cortex.Records.{StoredRecord}
use open_cortex.Records.Events.{
  Published, MemoryEvent, memory_stored, check_update, session_turn_stored, session_merged,
  session_ended, session_merged_event, session_ended_event, publish_nowait, publish_check_update,
}
use open_cortex.Session.Defs.{
  SessionKey, Services, Setup, State, M, carry, ◌>>=◌, return, outcome, call,
}
use open_cortex.Session.Merge.{next_chunk, build_merged_record, merge_chunk, merge_unmerged}
use open_cortex.Session.Rules.{Post, Post->>=}

-- The source uris of the merges that were announced, in order.
unfoldable pub merged_sources : List MemoryEvent → List String
merged_sources [] = []
merged_sources (session_merged p uri sources content d ∷ es) = sources ++ merged_sources es
merged_sources (memory_stored e ∷ es) = merged_sources es
merged_sources (check_update e ∷ es) = merged_sources es
merged_sources (session_turn_stored p t u c ∷ es) = merged_sources es
merged_sources (session_ended p u m c d ∷ es) = merged_sources es

pub merged_sources-append :
    (es fs : List MemoryEvent) → merged_sources (es ++ fs) ≡ merged_sources es ++ merged_sources fs
unfolding merged_sources
merged_sources-append [] fs = refl
merged_sources-append (session_merged p uri sources content d ∷ es) fs =
    ap (λ t. sources ++ t) (merged_sources-append es fs)
    ∙ sym (append_assoc sources (merged_sources es) (merged_sources fs))
merged_sources-append (memory_stored e ∷ es) fs = merged_sources-append es fs
merged_sources-append (check_update e ∷ es) fs = merged_sources-append es fs
merged_sources-append (session_turn_stored p t u c ∷ es) fs = merged_sources-append es fs
merged_sources-append (session_ended p u m c d ∷ es) fs = merged_sources-append es fs

-- The events are taken, and announce merges of these sources.
pub record Announces (us : List String) (published : Published) : Type 0 where
  pub events : List MemoryEvent
  pub taken : published ≡ some events
  pub sources : merged_sources events ≡ us

abbrev events_of : Published → List MemoryEvent
events_of none = []
events_of (some es) = es

pub publish-Announces :
    (us : List String) (e : MemoryEvent) (published : Published)
    → Announces us published
    → Announces (us ++ merged_sources (e ∷ [])) (publish_nowait e published)
unfolding publish_nowait
publish-Announces us e none a = ground (arith, a.taken)
publish-Announces us e (some es) a = record {
  events = es ++ e ∷ [];
  taken = refl;
  sources =
      merged_sources-append es (e ∷ [])
      ∙ ap (λ t. merged_sources t ++ merged_sources (e ∷ [])) (ap events_of a.taken)
      ∙ ap (λ t. t ++ merged_sources (e ∷ [])) a.sources;
}

pub check_update-Announces :
    (py : Python) (us : List String) (p : IdentityProfile) (uri content : String) (d : Meta)
    (published : Published)
    → Announces us published
    → Announces us (publish_check_update py p uri content d published)
unfolding publish_check_update merged_sources
check_update-Announces py us p uri content d published a =
    subst (λ t. Announces t (publish_check_update py p uri content d published)) (append-nil us)
      (publish-Announces us (check_update _) published a)

announce :
    (py : Python) (us vs : List String) (p : IdentityProfile) (uri content : String) (d : Meta)
    (published : Published)
    → Announces us published
    → Announces (us ++ vs) (session_merged_event py p uri vs content d published)
unfolding session_merged_event merged_sources
announce py us vs p uri content d published a =
    let e = session_merged p uri vs content d in
    check_update-Announces py (us ++ vs) p uri content d (publish_nowait e published) (
      subst (λ t. Announces (us ++ t) (publish_nowait e published)) (append-nil vs)
        (publish-Announces us e published a))

-- The end of a session announces no merge.
pub session_ended-Announces :
    (py : Python) (us vs : List String) (p : IdentityProfile) (uri content : String) (d : Meta)
    (published : Published)
    → Announces us published
    → Announces us (session_ended_event py p uri vs content d published)
unfolding session_ended_event merged_sources
session_ended-Announces py us vs p uri content d published a =
    let e = session_ended p uri vs content d in
    check_update-Announces py us p uri content d (publish_nowait e published) (
      subst (λ t. Announces t (publish_nowait e published)) (append-nil us)
        (publish-Announces us e published a))

-- The active buffer and the chunks of a key, and the sources that were announced.
pub record At {W : Type 0} (key : SessionKey) (x : ConversationBuffer Meta)
    (cs : List (SessionBufferSnapshot Meta)) (us : List String) (s : State W) : Type 0 where
  pub active_is : active key s.buffer ≡ x
  pub chunks_are : chunks key s.buffer ≡ cs
  pub announces : Announces us s.published

-- Only the world and the ids change.
abbrev pub Quiet : {W A : Type 0} → M W A → Type 0
Quiet {W} m = (s : State W) → ((m s).1.buffer ≡ s.buffer) × ((m s).1.published ≡ s.published)

carry-Quiet :
    {W A B : Type 0} (f : A → M W B) (r : Result A) (t : State W)
    → ((a : A) → Quiet (f a))
    → ((carry f r t).1.buffer ≡ t.buffer) × ((carry f r t).1.published ≡ t.published)
carry-Quiet f (ok a) t k = k a t
carry-Quiet f (err e) t k = (refl, refl)

pub Quiet->>= :
    {W A B : Type 0} (m : M W A) (f : A → M W B)
    → Quiet m
    → ((a : A) → Quiet (f a))
    → Quiet (m >>= f)
Quiet->>= m f p k s = let q = carry-Quiet f (m s).0 (m s).1 k in (q.0 ∙ (p s).0, q.1 ∙ (p s).1)

pub Quiet-return : {W A : Type 0} (a : A) → Quiet (return {W = W} a)
Quiet-return a s = (refl, refl)

pub Quiet-outcome : {W A : Type 0} (r : Result A) → Quiet (outcome {W = W} r)
Quiet-outcome r s = (refl, refl)

pub Quiet-call : {W A : Type 0} (f : W → Result A × W) → Quiet (call f)
Quiet-call f s = (refl, refl)

pub quiet_result :
    {W A : Type 0} (P : State W → Type 0) (r : Result A) (t : State W)
    → P t
    → Post (λ (a : A) u. P u) P (r, t)
quiet_result P (ok a) t p = p
quiet_result P (err e) t p = p

pub Post-Quiet :
    {W A : Type 0} (key : SessionKey) (x : ConversationBuffer Meta)
    (cs : List (SessionBufferSnapshot Meta)) (us : List String) (m : M W A) (s : State W)
    → Quiet m
    → At key x cs us s
    → Post (λ a t. At key x cs us t) (λ t. At key x cs us t) (m s)
Post-Quiet key x cs us m s q a = quiet_result (At key x cs us) (m s).0 (m s).1 (record {
  active_is = ap (active key) (q s).0 ∙ a.active_is;
  chunks_are = ap (chunks key) (q s).0 ∙ a.chunks_are;
  announces = subst (Announces us) (sym (q s).1) a.announces;
})

module _ {Vector World : Type 0} (setup : Setup) (services : Services Vector World)
    (p : IdentityProfile) where
  build-Quiet :
      (content : String) (first last : ℕ) (uris : List String)
      → Quiet (build_merged_record {Vector = Vector} setup services p content first last uris)
  unfolding build_merged_record
  build-Quiet content first last uris = search (Quiet->>=, Quiet-return, Quiet-outcome) depth 10

  module _ (key : SessionKey) (x : ConversationBuffer Meta) where
    -- The state of the key, and nothing published since.
    abbrev pub Still :
        List (SessionBufferSnapshot Meta) → List String → Published → State World → Type 0
    Still cs us published t = At key x cs us t × (t.published ≡ published)

    -- The chunk was merged: its merge is the last that is announced.
    abbrev pub Done :
        SessionBufferSnapshot Meta
        → List (SessionBufferSnapshot Meta)
        → List String
        → Published
        → Option StoredRecord
        → State World
        → Type 0
    Done c cs us published r t =
        (stored : StoredRecord) × (r ≡ some stored)
        × At key x cs (us ++ c.immediate_uris) t
        × (t.published
            ≡ session_merged_event setup.py p stored.uri c.immediate_uris (join "\n\n" c.messages)
                stored.record_data published)

    Post-Still :
        {A : Type 0} (cs : List (SessionBufferSnapshot Meta)) (us : List String)
        (published : Published) (m : M World A) (s : State World)
        → Quiet m
        → Still cs us published s
        → Post (λ a t. Still cs us published t) (Still cs us published) (m s)
    Post-Still cs us published m s q a = quiet_result (Still cs us published) (m s).0 (m s).1 (
      record {
        active_is = ap (active key) (q s).0 ∙ a.0.active_is;
        chunks_are = ap (chunks key) (q s).0 ∙ a.0.chunks_are;
        announces = subst (Announces us) (sym (q s).1) a.0.announces;
      },
      (q s).1 ∙ a.1,
    )

    -- A chunk that was taken: its merge is announced, or the call raises.
    merge_chunk-At :
        (c : SessionBufferSnapshot Meta) (cs : List (SessionBufferSnapshot Meta)) (us : List String)
        (s : State World)
        → At key x cs us s
        → Post
            (Done c cs us s.published)
            (Still cs us s.published)
            (merge_chunk setup services p c s)
    unfolding merge_chunk
    merge_chunk-At c cs us s a =
        let P : State World → Type 0 = Still cs us s.published in
        let R : Option StoredRecord → State World → Type 0 = Done c cs us s.published in
        let content = join "\n\n" c.messages in
        let last = c.start_msg_index + length c.messages - 1 in
        let built =
          build_merged_record setup services p content c.start_msg_index last c.immediate_uris in
        Post->>= (λ i t. P t) R P built _ s
          (Post-Still cs us s.published built s
            (build-Quiet content c.start_msg_index last c.immediate_uris) (a, refl))
          (λ i t b.
            Post->>= (λ r u. P u) R P (call (services.write i)) _ t
              (Post-Still cs us s.published (call (services.write i)) t
                (Quiet-call (services.write i)) b)
              (λ r u e. (
                r,
                refl,
                record {
                  active_is = e.0.active_is;
                  chunks_are = e.0.chunks_are;
                  announces =
                      announce setup.py us c.immediate_uris p r.uri content r.record_data
                        u.published e.0.announces;
                },
                ap (session_merged_event setup.py p r.uri c.immediate_uris content r.record_data)
                    e.1,
              )))

    next_chunk-some :
        (c : SessionBufferSnapshot Meta) (cs : List (SessionBufferSnapshot Meta))
        (b : SessionBuffer SessionKey Meta)
        → chunks key b ≡ c ∷ cs
        → next_chunk key b ≡ (some c, (pop_merge_chunk key b).1)
    unfolding next_chunk
    next_chunk-some c cs b h = rw (next_chunk, pop-some key b c cs h) refl

    merge_unmerged-next_chunk :
        (c : SessionBufferSnapshot Meta) (b : SessionBuffer SessionKey Meta) (s : State World)
        → next_chunk key s.buffer ≡ (some c, b)
        → merge_unmerged setup services key p s
          ≡ merge_chunk setup services p c (record s { buffer = b })
    unfolding merge_unmerged
    merge_unmerged-next_chunk c b s h = rw (merge_unmerged, h) refl

    -- A merge of a key with chunks takes the oldest one out of the buffer, whether or not it succeeds.
    -- If it does, what is published besides are the events of the merge, with the uris of the chunk and
    -- its messages joined; if it raises, nothing is published.
    pub merge_unmerged-At :
        (c : SessionBufferSnapshot Meta) (cs : List (SessionBufferSnapshot Meta)) (us : List String)
        (s : State World)
        → At key x (c ∷ cs) us s
        → Post
            (Done c cs us s.published)
            (Still cs us s.published)
            (merge_unmerged setup services key p s)
    merge_unmerged-At c cs us s a =
        let b = (pop_merge_chunk key s.buffer).1 in
        rw (merge_unmerged-next_chunk c b s (next_chunk-some c cs s.buffer a.chunks_are)) (
          merge_chunk-At c cs us (record s { buffer = b })
            (record {
              active_is = pop-active key s.buffer c cs a.chunks_are ∙ a.active_is;
              chunks_are = pop-chunks key s.buffer c cs a.chunks_are;
              announces = a.announces;
            }))
