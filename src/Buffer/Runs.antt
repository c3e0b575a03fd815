-- ===== src/Buffer/Runs.antt =====
-- Runs of the buffer's methods on a key: the messages that go in and the ones that come out.
use mathlib.Core.List.{append_assoc}
use open_cortex.Base.{ℕ, ◌≡◌, refl, ap, sym, ◌∙◌, String, Bool, Option, List, [], ◌∷◌, ◌++◌, PyEq}
use open_cortex.Buffer.Defs.{
  SessionBuffer, init, active, chunks, freeze_merge_chunk, freeze_all_chunks, freeze_ready_chunks,
  append, pop_merge_chunk, snapshot, next_msg_index,
}
use open_cortex.Buffer.Flow.{
  IsKeyValid, held_messages, freeze_all_chunks-IsFrozen, freeze_ready_chunks-IsFrozen,
}
use open_cortex.Buffer.Calls.{
  returned, init-held, init-IsKeyValid, pop_step, freeze_step, append_step, next_step,
  snapshot_step,
}

taken :
    {ins held : List String} (outs new rest : List String)
    → ins ≡ outs ++ held
    → held ≡ new ++ rest
    → ins ≡ (outs ++ new) ++ rest
taken outs new rest h e = h ∙ ap (λ t. outs ++ t) e ∙ sym (append_assoc outs new rest)

module _ {K C : Type 0} ⦃e : PyEq K⦄ (key : K) where
  -- Runs from a new buffer of the methods that work on the messages of a key, and of calls that leave
  -- the key's active buffer and its chunks, as those for other keys do: the messages appended to the
  -- key, in order, the messages returned, in order, and the buffer after them.
  pub data Trace (budget idle_ttl : ℕ)
      : List String → List String → SessionBuffer K C → Type 0 where
    started : Trace budget idle_ttl [] [] (init budget idle_ttl)
    appending :
        {ins outs : List String} {b : SessionBuffer K C} (text uri : String)
        (calls : Option (List C))
        → Trace budget idle_ttl ins outs b
        → Trace budget idle_ttl (ins ++ text ∷ []) outs (append key text uri calls b)
    elsewhere :
        {ins outs : List String} {b b' : SessionBuffer K C}
        → active key b' ≡ active key b
        → chunks key b' ≡ chunks key b
        → b'.merge_token_budget ≡ b.merge_token_budget
        → Trace budget idle_ttl ins outs b
        → Trace budget idle_ttl ins outs b'
    numbering :
        {ins outs : List String} {b : SessionBuffer K C}
        → Trace budget idle_ttl ins outs b
        → Trace budget idle_ttl ins outs (next_msg_index key b).1
    freezing :
        {ins outs : List String} {b : SessionBuffer K C} (force : Bool)
        → Trace budget idle_ttl ins outs b
        → Trace budget idle_ttl ins outs (freeze_merge_chunk key force b).1
    freezing_ready :
        {ins outs : List String} {b : SessionBuffer K C}
        → Trace budget idle_ttl ins outs b
        → Trace budget idle_ttl ins outs (freeze_ready_chunks key b).1
    freezing_all :
        {ins outs : List String} {b : SessionBuffer K C}
        → Trace budget idle_ttl ins outs b
        → Trace budget idle_ttl ins outs (freeze_all_chunks key b).1
    popping :
        {ins outs : List String} {b : SessionBuffer K C}
        → Trace budget idle_ttl ins outs b
        → Trace budget idle_ttl ins
            (outs ++ returned (pop_merge_chunk key b).0)
            (pop_merge_chunk key b).1
    snapshotting :
        {ins outs : List String} {b : SessionBuffer K C}
        → Trace budget idle_ttl ins outs b
        → Trace budget idle_ttl ins (outs ++ returned (snapshot key b).0) (snapshot key b).1

  elsewhere-IsKeyValid :
      (b b' : SessionBuffer K C)
      → active key b' ≡ active key b
      → chunks key b' ≡ chunks key b
      → b'.merge_token_budget ≡ b.merge_token_budget
      → IsKeyValid key b
      → IsKeyValid key b'
  elsewhere-IsKeyValid b b' a c m v = record {
    aligned = rw a v.aligned;
    whole = rw (c, m) v.whole;
    contiguous = rw (a, c) v.contiguous;
  }

  -- In every run of `append`, `next_msg_index`, the three methods that freeze, `pop_merge_chunk` and
  -- `snapshot` on a key, from a new buffer, between calls that leave what the key holds, the messages
  -- appended are the messages returned, then the ones of the chunks, then the active ones, in this
  -- order; and the state of the key is well formed.
  pub run_delivers :
      (budget idle_ttl : ℕ) {ins outs : List String} {b : SessionBuffer K C}
      → Trace budget idle_ttl ins outs b
      → IsKeyValid key b × (ins ≡ outs ++ held_messages key b)
  run_delivers budget idle_ttl started =
      (init-IsKeyValid key budget idle_ttl, sym (init-held C key budget idle_ttl))
  run_delivers budget idle_ttl (appending {ins} {outs} {b} text uri calls r) =
      let i = run_delivers budget idle_ttl r in
      let s = append_step key text uri calls b i.0 in
      (
        s.0,
        ap (λ t. t ++ text ∷ []) i.1
            ∙ append_assoc outs (held_messages key b) (text ∷ [])
            ∙ ap (λ t. outs ++ t) (sym s.1),
      )
  run_delivers budget idle_ttl (elsewhere {ins} {outs} {b} {b'} a c m r) =
      let i = run_delivers budget idle_ttl r in
      (
        elsewhere-IsKeyValid b b' a c m i.0,
        i.1 ∙ ap (λ t. outs ++ t) (sym (unfold held_messages in rw (a, c) refl)),
      )
  run_delivers budget idle_ttl (numbering {ins} {outs} {b} r) =
      let i = run_delivers budget idle_ttl r in
      let s = next_step key b i.0 in (s.0, i.1 ∙ ap (λ t. outs ++ t) (sym s.1))
  run_delivers budget idle_ttl (freezing {ins} {outs} {b} force r) =
      let i = run_delivers budget idle_ttl r in
      let s = freeze_step key force b i.0 in (s.0, i.1 ∙ ap (λ t. outs ++ t) (sym s.1))
  run_delivers budget idle_ttl (freezing_ready {ins} {outs} {b} r) =
      let i = run_delivers budget idle_ttl r in
      let s = (freeze_ready_chunks-IsFrozen key b i.0).0 in
      (s.valid, i.1 ∙ ap (λ t. outs ++ t) (sym s.messages))
  run_delivers budget idle_ttl (freezing_all {ins} {outs} {b} r) =
      let i = run_delivers budget idle_ttl r in
      let s = (freeze_all_chunks-IsFrozen key b i.0).0 in
      (s.valid, i.1 ∙ ap (λ t. outs ++ t) (sym s.messages))
  run_delivers budget idle_ttl (popping {ins} {outs} {b} r) =
      let i = run_delivers budget idle_ttl r in
      let s = pop_step key b i.0 in
      let p = pop_merge_chunk key b in
      (s.0, taken outs (returned p.0) (held_messages key p.1) i.1 s.1)
  run_delivers budget idle_ttl (snapshotting {ins} {outs} {b} r) =
      let i = run_delivers budget idle_ttl r in
      let s = snapshot_step key b i.0 in
      let p = snapshot key b in (s.0, taken outs (returned p.0) (held_messages key p.1) i.1 s.1)
