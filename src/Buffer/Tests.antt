-- ===== src/Buffer/Tests.antt =====
-- The methods of the buffer on small states, and the theorems at them.
use open_cortex.Base.{◌≡◌, refl, String, none, [], ◌∷◌, ◌++◌, string_eq}
use open_cortex.Base.Dict
use open_cortex.Buffer.Conversation.{estimate_tokens}
use open_cortex.Buffer.Defs.{
  SessionBuffer, init, append, touch, active, chunks, freeze_merge_chunk, freeze_all_chunks,
  freeze_ready_chunks, pop_merge_chunk,
}
use open_cortex.Buffer.Calls.{returned}
use open_cortex.Buffer.Flow.{
  IsKeyValid, IsFrozen, texts, uris_of, held_messages, held_uris, freeze_all_chunks-IsFrozen,
}
use open_cortex.Buffer.Runs.{
  Trace, started, elsewhere, appending, popping, freezing_ready, run_delivers,
}

abbrev State : Type 0
State = SessionBuffer String String

-- A budget of three tokens and three messages: of two tokens, of two, and of one.
abbrev fresh : State
fresh = init 3 1000000

abbrev three : State
three =
    append "s" "c" "u3" none
      (append "s" "bbbbbbbb" "u2" none (append "s" "aaaaaaaa" "u1" none fresh))

three_run : Trace "s" 3 1000000 ("aaaaaaaa" ∷ "bbbbbbbb" ∷ "c" ∷ []) [] three
three_run =
    appending "c" "u3" none
      (appending "bbbbbbbb" "u2" none (appending "aaaaaaaa" "u1" none started))

-- A touch leaves the messages.
touched_run : Trace "s" 3 1000000 ("aaaaaaaa" ∷ "bbbbbbbb" ∷ "c" ∷ []) [] (touch "s" none 5 three)
unfolding touch active chunks
touched_run = elsewhere refl refl refl three_run

ready_texts :
    texts (chunks "s" (freeze_ready_chunks "s" three).1) ≡ "aaaaaaaa" ∷ "bbbbbbbb" ∷ "c" ∷ []
unfolding texts chunks freeze_ready_chunks append init Dict.get Dict.set freeze_merge_chunk
    estimate_tokens
ready_texts = refl

abbrev taken_state : State
taken_state = (pop_merge_chunk "s" (freeze_ready_chunks "s" three).1).1

taken_run :
    Trace "s" 3 1000000
      ("aaaaaaaa" ∷ "bbbbbbbb" ∷ "c" ∷ [])
      (returned (pop_merge_chunk "s" (freeze_ready_chunks "s" three).1).0)
      taken_state
taken_run = popping (freezing_ready three_run)

run_delivers_example :
    IsKeyValid "s" taken_state
    × (("aaaaaaaa" ∷ "bbbbbbbb" ∷ "c" ∷ [])
        ≡ returned (pop_merge_chunk "s" (freeze_ready_chunks "s" three).1).0
          ++ held_messages "s" taken_state)
run_delivers_example = run_delivers "s" 3 1000000 taken_run

freeze_all_chunks-IsFrozen_example :
    let r = (freeze_all_chunks "s" three).1 in
    IsFrozen "s" three r
    × ((active "s" r).messages ≡ [])
    × (texts (chunks "s" r) ≡ held_messages "s" three)
    × (uris_of (chunks "s" r) ≡ held_uris "s" three)
freeze_all_chunks-IsFrozen_example =
    freeze_all_chunks-IsFrozen "s" three (run_delivers "s" 3 1000000 three_run).0

-- Two keys, of which the first has been idle for a second.
abbrev two_keys : State
two_keys = touch "t" none 900000 (touch "s" none 5 three)
