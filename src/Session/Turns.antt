-- ===== src/Session/Turns.antt =====
-- `SessionStore.message`: what a turn adds to the buffer, on success and on failure.
use mathlib.Core.List.{append_assoc, append-nil}
use open_cortex.Base.{
  ℕ, suc, ◌≡◌, refl, sym, ap, ◌∙◌, String, Bool, some, List, [], ◌∷◌, ◌++◌, string_eq, pair_eq,
}
use open_cortex.Base.Lists.{length}
use open_cortex.Base.Json.{Meta}
use open_cortex.Buffer.{SessionBuffer, lock, touch, next_msg_index, append, freeze_ready_chunks}
use open_cortex.Buffer.Flow.{IsKeyValid, held_messages, held_uris, freeze_ready_chunks-IsFrozen}
use open_cortex.Buffer.Calls.{append_step, next_step}
use open_cortex.Worker.Events.{IdentityProfile}
use open_cortex.Records.{RawPrimaryRecord, Context}
use open_cortex.Session.Defs.{
  SessionKey, profile_key, SessionMessage, SessionMessageInput, Services, Setup, State, call,
  publish_stored,
}
use open_cortex.Session.Immediate.{
  prepare_immediate_ready_payload, build_immediate_record, store_message, store_messages, message,
  calls_of, message_meta, decorate_message_text,
}
use open_cortex.Session.Opening.{Holds, NotIdle, opened-Holds}
use open_cortex.Session.Rules.{
  Keeps, Post, Post->>=, Keeps->>=, Keeps-return, Keeps-or_raise, Keeps-outcome, Keeps-call,
  Keeps-draw, Keeps-publish_stored, Post-then, Post-map, Gives, Gives->>=, Gives-return,
  Gives-or_raise, Post_given,
}

module _ {Vector World : Type 0} (setup : Setup) (services : Services Vector World) where
  prepare-Keeps :
      (raw : RawPrimaryRecord Vector) (ctx : Context Vector) (meta : Meta)
      → Keeps (prepare_immediate_ready_payload setup services raw ctx meta)
  unfolding prepare_immediate_ready_payload
  prepare-Keeps raw ctx meta =
      search (Keeps->>=, Keeps-return, Keeps-or_raise, Keeps-outcome, Keeps-call) depth 14

  build-Keeps :
      (i : SessionMessageInput) (m : SessionMessage) (index : ℕ) (p : IdentityProfile)
      → Keeps (build_immediate_record setup services i m index p)
  unfolding build_immediate_record
  build-Keeps i m index p =
      search (Keeps->>=, Keeps-return, Keeps-or_raise, Keeps-outcome, Keeps-draw, prepare-Keeps)
        depth 14

  -- The text of the record of a message: its content, decorated with its metadata.
  abbrev pub IsText : SessionMessageInput → IdentityProfile → SessionMessage → String → Type 0
  IsText i p m text =
      (index : ℕ) × (meta : Meta) × (message_meta setup.py i m index p ≡ some meta)
      × (decorate_message_text setup.py m.content meta ≡ some text)

  -- The texts of these messages, in order.
  abbrev pub AreTexts :
      SessionMessageInput → IdentityProfile → List SessionMessage → List String → Type 0
  AreTexts i p [] [] = Unit
  AreTexts i p [] (x ∷ xs) = ⊥
  AreTexts i p (m ∷ ms) [] = ⊥
  AreTexts i p (m ∷ ms) (x ∷ xs) = IsText i p m x × AreTexts i p ms xs

  is_text :
      (i : SessionMessageInput) (p : IdentityProfile) (m : SessionMessage) (text : String)
      (index : ℕ) (meta : Meta)
      → message_meta setup.py i m index p ≡ some meta
      → decorate_message_text setup.py m.content meta ≡ some text
      → IsText i p m text
  is_text i p m text index meta em et = (index, meta, em, et)

  build-Gives :
      (i : SessionMessageInput) (m : SessionMessage) (index : ℕ) (p : IdentityProfile)
      → Gives
          (λ input. IsText i p m input.content)
          (build_immediate_record setup services i m index p)
  unfolding build_immediate_record
  build-Gives i m index p = search (Gives-or_raise, Gives->>=, Gives-return, is_text) depth 20

  module _ (key : SessionKey) where
    next-Holds :
        (ms us : List String) (b : SessionBuffer SessionKey Meta)
        → Holds key ms us b
        → Holds key ms us (next_msg_index key b).1
    next-Holds ms us b h =
        let s = next_step key b h.valid in
        record { valid = s.0; texts = s.1 ∙ h.texts; sources = s.2 ∙ h.sources }

    -- The record is added to the buffer and chunks are frozen that are due.
    add-Holds :
        (ms us : List String) (text uri : String) (calls : List Meta)
        (b : SessionBuffer SessionKey Meta)
        → Holds key ms us b
        → Holds key
            (ms ++ text ∷ [])
            (us ++ uri ∷ [])
            (freeze_ready_chunks key (append key text uri (some calls) b)).1
    add-Holds ms us text uri calls b h =
        let s = append_step key text uri (some calls) b h.valid in
        let f = (freeze_ready_chunks-IsFrozen key (append key text uri (some calls) b) s.0).0 in
        record {
          valid = f.valid;
          texts = f.messages ∙ s.1 ∙ ap (λ t. t ++ text ∷ []) h.texts;
          sources = f.uris ∙ s.2 ∙ ap (λ t. t ++ uri ∷ []) h.sources;
        }

    -- One message: on success its record is held, else the buffer holds what it did.
    store_message-Holds :
        (i : SessionMessageInput) (p : IdentityProfile) (m : SessionMessage) (ms us : List String)
        (s : State World)
        → Holds key ms us s.buffer
        → Post
            (λ (r : String × Bool) t.
              (text : String) × IsText i p m text
              × Holds key (ms ++ text ∷ []) (us ++ r.0 ∷ []) t.buffer)
            (λ t. Holds key ms us t.buffer)
            (store_message setup services key i p m s)
    unfolding store_message
    store_message-Holds i p m ms us s h =
        let P : SessionBuffer SessionKey Meta → Type 0 = Holds key ms us in
        let R : String × Bool → State World → Type 0 = λ r t.
          (text : String) × IsText i p m text
          × Holds key (ms ++ text ∷ []) (us ++ r.0 ∷ []) t.buffer in
        let index = (next_msg_index key s.buffer).0 in
        let calls = calls_of i.tool_calls m.role in
        Post_given P (λ input. IsText i p m input.content) R
          (build_immediate_record setup services i m index p) _ _ (build-Keeps i m index p)
          (build-Gives i m index p) (next-Holds ms us s.buffer h)
          (λ input t told ht.
            Post-then P R (call (services.write input)) _ t (Keeps-call (services.write input)) ht
              (λ stored u hu.
                Post-then P R (publish_stored setup.py input stored) _ u
                  (Keeps-publish_stored setup.py input stored) hu
                  (λ done v hv. (
                    input.content,
                    told,
                    add-Holds ms us input.content stored.uri calls v.buffer hv,
                  ))))

    Holds-append :
        (ms ns ks us vs ws : List String) (b : SessionBuffer SessionKey Meta)
        → Holds key ((ms ++ ns) ++ ks) ((us ++ vs) ++ ws) b
        → Holds key (ms ++ (ns ++ ks)) (us ++ (vs ++ ws)) b
    Holds-append ms ns ks us vs ws b h = record {
      valid = h.valid;
      texts = h.texts ∙ append_assoc ms ns ks;
      sources = h.sources ∙ append_assoc us vs ws;
    }

    Holds-nil :
        (ms us : List String) (b : SessionBuffer SessionKey Meta)
        → Holds key ms us b
        → Holds key (ms ++ []) (us ++ []) b
    Holds-nil ms us b h = record {
      valid = h.valid;
      texts = h.texts ∙ sym (append-nil ms);
      sources = h.sources ∙ sym (append-nil us);
    }

    -- A turn was stopped at a message: the texts of those before it are held, each under a uri.
    pub Stopped :
        SessionMessageInput
        → IdentityProfile
        → List SessionMessage
        → List String
        → List String
        → State World
        → Type 0
    Stopped i p turn ms us t =
        (stored : List SessionMessage) × (failed : SessionMessage) × (rest : List SessionMessage)
        × (turn ≡ stored ++ failed ∷ rest)
        × (texts : List String) × (uris : List String) × AreTexts i p stored texts
        × (length uris ≡ length stored)
        × Holds key (ms ++ texts) (us ++ uris) t.buffer

    -- The texts of all messages of a turn are held, under the uris that are returned.
    pub Stored :
        SessionMessageInput
        → IdentityProfile
        → List SessionMessage
        → List String
        → List String
        → List String × Bool
        → State World
        → Type 0
    Stored i p turn ms us w t =
        (texts : List String) × AreTexts i p turn texts
        × (length w.0 ≡ length turn)
        × Holds key (ms ++ texts) (us ++ w.0) t.buffer

    store_messages-Stored :
        (i : SessionMessageInput) (p : IdentityProfile) (turn : List SessionMessage)
        (ms us : List String) (s : State World)
        → Holds key ms us s.buffer
        → Post
            (Stored i p turn ms us)
            (Stopped i p turn ms us)
            (store_messages setup services key i p turn s)
    unfolding store_messages Stored Stopped
    store_messages-Stored i p [] ms us s h = ([], tt, refl, Holds-nil ms us s.buffer h)
    store_messages-Stored i p (m ∷ turn) ms us s h =
        let First : String × Bool → State World → Type 0 = λ r t.
          (text : String) × IsText i p m text
          × Holds key (ms ++ text ∷ []) (us ++ r.0 ∷ []) t.buffer in
        Post->>= First (Stored i p (m ∷ turn) ms us) (Stopped i p (m ∷ turn) ms us)
          (store_message setup services key i p m) _ s
          (Post-map First First (λ t. Holds key ms us t.buffer) (Stopped i p (m ∷ turn) ms us)
            (store_message setup services key i p m s) (λ r t x. x)
            (λ t x. ([], m, turn, refl, [], [], tt, refl, Holds-nil ms us t.buffer x))
            (store_message-Holds i p m ms us s h))
          (λ r t x.
            let ms' = ms ++ x.0 ∷ [] in
            let us' = us ++ r.0 ∷ [] in
            Post->>= (Stored i p turn ms' us') (Stored i p (m ∷ turn) ms us)
              (Stopped i p (m ∷ turn) ms us) (store_messages setup services key i p turn) _ t
              (Post-map (Stored i p turn ms' us') (Stored i p turn ms' us')
                (Stopped i p turn ms' us') (Stopped i p (m ∷ turn) ms us)
                (store_messages setup services key i p turn t) (λ w u y. y)
                (λ u (stored, failed, rest, split, texts, uris, told, many, held). (
                  m ∷ stored,
                  failed,
                  rest,
                  ap (λ ns. m ∷ ns) split,
                  x.0 ∷ texts,
                  r.0 ∷ uris,
                  (x.1, told),
                  ap suc many,
                  Holds-append ms (x.0 ∷ []) texts us (r.0 ∷ []) uris u.buffer held,
                ))
                (store_messages-Stored i p turn ms' us' t x.2))
              (λ w u y. (
                x.0 ∷ y.0,
                (x.1, y.1),
                ap suc y.2,
                Holds-append ms (x.0 ∷ []) y.0 us (r.0 ∷ []) w.0 u.buffer y.3,
              )))

  -- A turn of a session that is not idle and whose state is well formed: if it succeeds, the buffer
  -- holds what it did and then the texts of all messages, in order, under the uris that are returned,
  -- one for each; if it fails, it holds what it did and then the texts of the messages before some
  -- message, with a uri for each. A text is the message's content decorated with its metadata.
  pub message-Stored :
      (resolved : String) (now : ℕ) (p : IdentityProfile) (i : SessionMessageInput)
      (s : State World)
      → IsKeyValid (profile_key resolved p) s.buffer
      → NotIdle (profile_key resolved p) now s.buffer
      → let key = profile_key resolved p in
        let ms = held_messages key s.buffer in
        let us = held_uris key s.buffer in
        Post
          (λ r t. Stored key i p i.messages ms us (r.written_uris, r.merge_requested) t)
          (Stopped key i p i.messages ms us)
          (message setup services resolved now p i s)
  unfolding message Stored
  message-Stored resolved now p i s v idle =
      let key = profile_key resolved p in
      let ms = held_messages key s.buffer in
      let us = held_uris key s.buffer in
      let b = touch key (some p.project_id) now (lock key now s.buffer) in
      let h : Holds key ms us b =
        opened-Holds key p.project_id now ms us s.buffer idle
          (record { valid = v; texts = refl; sources = refl }) in
      Post->>= (Stored key i p i.messages ms us)
        (λ r t. Stored key i p i.messages ms us (r.written_uris, r.merge_requested) t)
        (Stopped key i p i.messages ms us) (store_messages setup services key i p i.messages) _
        (record s { buffer = b })
        (store_messages-Stored key i p i.messages ms us (record s { buffer = b }) h) (λ w t y. y)
