-- ===== src/Session/Ending.antt =====
-- `end` itself: all chunks are merged, then the key is dropped.
use mathlib.Core.Path.{subst}
use mathlib.Core.List.{append-nil}
use open_cortex.Base.{
  if_both, Option-cases, inl, inr, ℕ, suc, ◌≡◌, refl, sym, ap, ◌∙◌, String, some, List, [], ◌∷◌,
  ◌++◌, string_eq, pair_eq, arith,
}
use open_cortex.Base.Lists.{length}
use open_cortex.Base.Json.{Meta}
use open_cortex.Buffer.{
  SessionBufferSnapshot, ConversationBuffer, active, chunks, freeze_all_chunks, lock, touch,
}
use open_cortex.Buffer.Flow.{
  uris_of, uris_of-append, IsKeyValid, held_uris, held_messages, freeze_all_chunks-IsFrozen,
}
use open_cortex.Buffer.Idle.{Gone, drop-Gone}
use open_cortex.Worker.Failure.{ok}
use open_cortex.Worker.Events.{IdentityProfile}
use open_cortex.Records.{PrimaryRecordInput}
use open_cortex.Session.Defs.{
  SessionKey, Services, Setup, State, call, SessionEndResult, profile_key,
}
use open_cortex.Session.Finish.{
  merge_pending, build_session_end_record, write_tree, should_parse_session_tree, finish,
  end_locked, end, add_new_records,
}
use open_cortex.Session.Opening.{Holds, NotIdle, opened-Holds}
use open_cortex.Session.Rules.{Post, Post->>=, Post-map}
use open_cortex.Records.Events.{Published}
use open_cortex.Worker.Failure.{Result, ok}
use open_cortex.Session.Draining.{
  quiet_result, At, Announces, Quiet, Quiet->>=, Quiet-return, Quiet-outcome, Quiet-call,
  Post-Quiet, session_ended-Announces,
}
use open_cortex.Session.Looping.{Merged, Lost, merge_pending-Merged}

-- The document tree writer, if there is one, announces no merge.
abbrev pub TreeKeeps : {Vector World : Type 0} → Services Vector World → Type 0
TreeKeeps {Vector} {World} services =
    (tree : PrimaryRecordInput Vector → World → Published → Result (Unit {0}) × World × Published)
    (i : PrimaryRecordInput Vector) (w : World) (published : Published) (us : List String)
    → services.tree ≡ some tree
    → Announces us published
    → Announces us (tree i w published).2

module _ {Vector World : Type 0} (setup : Setup) (services : Services Vector World)
    (p : IdentityProfile) (key : SessionKey) where
  -- The end succeeded: the key is dropped, and merges of all these sources were announced.
  pub Ended : List String → State World → Type 0
  Ended us t = Gone key t.buffer × Announces us t.published

  -- The end failed: merges of a first part of these sources were announced.
  pub Broken : List String → List String → State World → Type 0
  Broken us held t =
      (done : List String) × (rest : List String) × (held ≡ done ++ rest)
      × Announces (us ++ done) t.published

  end_build-Quiet :
      (merged : List Meta)
      → Quiet (build_session_end_record {Vector = Vector} setup services p merged)
  unfolding build_session_end_record
  end_build-Quiet merged = search (Quiet->>=, Quiet-return, Quiet-outcome) depth 10

  write_tree-At :
      (x : ConversationBuffer Meta) (us : List String) (i : PrimaryRecordInput Vector)
      (s : State World)
      → TreeKeeps services
      → At key x [] us s
      → Post (λ d t. At key x [] us t) (At key x [] us) (write_tree setup services i s)
  unfolding write_tree
  write_tree-At x us i s k a = elim (Option-cases services.tree) [
    | inl h ↦ rw h a
    | inr h ↦
        (let r = h.0 i s.world s.published in
          let t : State World = record s { world = r.1; published = r.2 } in
          let P : Result (Unit {0}) × State World → Type 0 =
            Post (λ d t. At key x [] us t) (At key x [] us) in
          let after : At key x [] us t = record {
            active_is = a.active_is;
            chunks_are = a.chunks_are;
            announces = k h.0 i s.world s.published us h.1 a.announces;
          } in
          rw h.1 (
            if_both P (should_parse_session_tree setup.py i.content) (r.0, t) (ok tt, s)
              (quiet_result (At key x [] us) r.0 t after) a))
  ]

  finish-Ended :
      (x : ConversationBuffer Meta) (us held : List String) (merged : List Meta) (s : State World)
      → TreeKeeps services
      → At key x [] (us ++ held) s
      → Post
          (λ (r : SessionEndResult) t. Ended (us ++ held) t)
          (Broken us held)
          (finish setup services key p merged s)
  unfolding finish Ended Broken
  finish-Ended x us held [] s h a = (drop-Gone key key refl s.buffer, a.announces)
  finish-Ended x us held (m ∷ ms) s h a =
      let P : State World → Type 0 = At key x [] (us ++ held) in
      let R : SessionEndResult → State World → Type 0 = λ r t. Ended (us ++ held) t in
      let broken : (t : State World) → P t → Broken us held t =
        λ t y. (held, [], sym (append-nil held), y.announces) in
      let built = build_session_end_record setup services p (m ∷ ms) in
      Post->>= (λ i t. P t) R (Broken us held) built _ s
        (Post-map (λ i t. P t) (λ i t. P t) P (Broken us held) (built s) (λ i t y. y) broken
          (Post-Quiet key x [] (us ++ held) built s (end_build-Quiet (m ∷ ms)) a))
        (λ i t y.
          Post->>= (λ r u. P u) R (Broken us held) (call (services.write i)) _ t
            (Post-map (λ r u. P u) (λ r u. P u) P (Broken us held) (call (services.write i) t)
              (λ r u z. z) broken
              (Post-Quiet key x [] (us ++ held) (call (services.write i)) t
                (Quiet-call (services.write i)) y))
            (λ r u z.
              Post->>= (λ d v. P v) R (Broken us held) (write_tree setup services i) _ u
                (Post-map (λ d v. P v) (λ d v. P v) P (Broken us held)
                  (write_tree setup services i u) (λ d v w. w) broken
                  (write_tree-At x (us ++ held) i u h z))
                (λ d v w. (
                  drop-Gone key key refl v.buffer,
                  session_ended-Announces setup.py (us ++ held) _ p r.uri i.content r.record_data
                      v.published w.announces,
                ))))

  Lost-Broken :
      (x : ConversationBuffer Meta) (us held : List String) (cs : List (SessionBufferSnapshot Meta))
      (t : State World)
      → uris_of cs ≡ held
      → Lost setup services p key x cs us t
      → Broken us held t
  unfolding Lost Broken uris_of
  Lost-Broken x us held cs t e (merged, lost, waiting, split, y) = (
    uris_of merged,
    uris_of (lost ∷ waiting),
    sym e ∙ ap uris_of split ∙ uris_of-append merged (lost ∷ waiting),
    y.announces,
  )

  -- The body of `end`, on any state of the key.
  end_locked-Ended :
      (us : List String) (s : State World)
      → TreeKeeps services
      → IsKeyValid key s.buffer
      → Announces us s.published
      → Post
          (λ (r : SessionEndResult) t. Ended (us ++ held_uris key s.buffer) t)
          (Broken us (held_uris key s.buffer))
          (end_locked setup services key p s)
  unfolding end_locked Merged Broken
  end_locked-Ended us s h v a =
      let held = held_uris key s.buffer in
      let b = (freeze_all_chunks key s.buffer).1 in
      let f = freeze_all_chunks-IsFrozen key s.buffer v in
      let x = active key b in
      let cs = chunks key b in
      let s₁ : State World = record s { buffer = b } in
      let R : SessionEndResult → State World → Type 0 = λ r t. Ended (us ++ held) t in
      Post->>= (Merged setup services p key x cs us) R (Broken us held)
        (λ t. merge_pending setup services (suc (length (chunks key t.buffer))) key p t) _ s₁
        (Post-map (Merged setup services p key x cs us) (Merged setup services p key x cs us)
          (Lost setup services p key x cs us) (Broken us held)
          (merge_pending setup services (suc (length cs)) key p s₁) (λ r t y. y)
          (λ t y. Lost-Broken x us held cs t f.3 y)
          (merge_pending-Merged setup services p key x (suc (length cs)) cs us s₁ (omega arith)
            (record { active_is = refl; chunks_are = refl; announces = a })))
        (λ merged t y.
          let P : State World → Type 0 = At key x [] (us ++ held) in
          let found = services.load_merged p.session_id in
          Post->>= (λ r u. P u) R (Broken us held) (call found) _ t
            (Post-map (λ r u. P u) (λ r u. P u) P (Broken us held) (call found t) (λ r u z. z)
              (λ u z. (held, [], sym (append-nil held), z.announces))
              (Post-Quiet key x [] (us ++ held) (call found) t (Quiet-call found)
                (subst (λ w. At key x [] (us ++ w) t) f.3 y.1)))
            (λ found u z. finish-Ended x us held (add_new_records setup.py merged _ found) u h z))

module _ {Vector World : Type 0} (setup : Setup) (services : Services Vector World) where
  -- The end of a session that is not idle, where the tree writer announces no merge: if it
  -- succeeds, merges of all uris that the session held were announced, in order, after those
  -- announced before, and the session is dropped; if it raises, merges of a first part of them were.
  pub end-Ended :
      (resolved : String) (now : ℕ) (p : IdentityProfile) (us : List String) (s : State World)
      → TreeKeeps services
      → IsKeyValid (profile_key resolved p) s.buffer
      → NotIdle (profile_key resolved p) now s.buffer
      → Announces us s.published
      → let key = profile_key resolved p in
        let held = held_uris key s.buffer in
        Post
          (λ r t. Ended setup services p key (us ++ held) t)
          (Broken setup services p key us held)
          (end setup services resolved now p s)
  unfolding end
  end-Ended resolved now p us s h v idle a =
      let key = profile_key resolved p in
      let held = held_uris key s.buffer in
      let b = touch key (some p.project_id) now (lock key now s.buffer) in
      let o : Holds key (held_messages key s.buffer) held b =
        opened-Holds key p.project_id now _ held s.buffer idle
          (record { valid = v; texts = refl; sources = refl }) in
      subst
        (λ w.
          Post (λ (r : SessionEndResult) t. Ended setup services p key (us ++ w) t)
            (Broken setup services p key us w)
            (end_locked setup services key p (record s { buffer = b })))
        o.sources (end_locked-Ended setup services p key us (record s { buffer = b }) h o.valid a)
