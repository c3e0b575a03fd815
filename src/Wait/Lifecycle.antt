-- ===== src/Wait/Lifecycle.antt =====
-- A request from its registered messages to `ready`.
use open_cortex.Base.{
  ap, ℕ, leb, ◌&&◌, ◌+◌, ◌≡◌, ◌≢◌, refl, String, true, false, not, ◌||◌, some, List, [], ◌∷◌, arith,
  if◌then◌else◌, nat_eq, string_eq, eq_iff, Bool-cases, inl, inr,
}
use open_cortex.Base.Lists.{any, contains, length, All}
use open_cortex.Base.Sets.{
  NoRepeats, contains-add, contains-discard, add-NoRepeats, discard-NoRepeats, length-discard,
  length-add,
}
use open_cortex.Base.Dict
use open_cortex.Base.Dict.{get-set}
use open_cortex.Wait.Defs.{
  StoreWaitState, StoreWaitTracker, is_complete, wait_for_request, complete, timed_out, waiting,
  register_message, registered, mark_done, finished, progress, index_status,
}

-- The messages are registered one after the other, and marked done one after the other.
unfoldable pub register_all : String → ℕ → List String → StoreWaitTracker → StoreWaitTracker
register_all r now [] t = t
register_all r now (m ∷ ms) t = register_all r now ms (register_message r m now t)

unfoldable pub finish_all : String → ℕ → List String → StoreWaitTracker → StoreWaitTracker
finish_all r now [] t = t
finish_all r now (m ∷ ms) t = finish_all r now ms (mark_done r m now t)

abbrev pub Given : List String → Type 0
Given = All (λ m. m ≢ "")

module _ (r : String) (given : r ≢ "") (now : ℕ) where
  get-register_message :
      (m : String) (t : StoreWaitTracker) (s : StoreWaitState)
      → m ≢ ""
      → Dict.get r t.states ≡ some s
      → Dict.get r (register_message r m now t).states ≡ some (registered m now s)
  unfolding register_message
  get-register_message m t s g e =
      ground
        (arith, eq_iff r "", eq_iff m "", eq_iff r r, get-set r r (registered m now s) t.states)

  get-mark_done :
      (m : String) (t : StoreWaitTracker) (s : StoreWaitState)
      → m ≢ ""
      → Dict.get r t.states ≡ some s
      → Dict.get r (mark_done r m now t).states ≡ some (finished m now s)
  unfolding mark_done
  get-mark_done m t s g e =
      ground (arith, eq_iff r "", eq_iff m "", eq_iff r r, get-set r r (finished m now s) t.states)

  -- What the registrations of new messages have made of a state.
  record IsOpened (ms : List String) (before after : StoreWaitState) : Type 0 where
    grown : length after.pending ≡ length before.pending + length ms
    done : after.done ≡ before.done
    failed : after.failed ≡ before.failed
    sets : NoRepeats after.pending
    members : (m : String) → contains m after.pending ≡ (contains m ms || contains m before.pending)

  register_all-IsOpened :
      (ms : List String) (t : StoreWaitTracker) (s : StoreWaitState)
      → Given ms
      → NoRepeats ms
      → NoRepeats s.pending
      → ((m : String) → contains m ms ≡ true → contains m s.pending ≡ false)
      → Dict.get r t.states ≡ some s
      → (s' : StoreWaitState) × (Dict.get r (register_all r now ms t).states ≡ some s')
        × IsOpened ms s s'
  unfolding register_all registered
  register_all-IsOpened [] t s g u n apart e = (
    s,
    e,
    record { grown = omega arith; done = refl; failed = refl; sets = n; members = λ m. refl },
  )
  register_all-IsOpened (m ∷ ms) t s g u n apart e =
      let (s', e', h) =
        register_all-IsOpened ms (register_message r m now t) (registered m now s) g.1 u.1
          (add-NoRepeats m s.pending n)
          (λ m' inside. ground (arith, apart m', contains-add m m' s.pending, eq_iff m m'))
          (get-register_message m t s g.0 e) in
      (
        s',
        e',
        record {
          grown = ground (arith, h.grown, length-add m s.pending, apart m, eq_iff m m);
          done = ground (arith, h.done);
          failed = ground (arith, h.failed);
          sets = h.sets;
          members = λ m'. ground (arith, h.members m', contains-add m m' s.pending, eq_iff m m');
        },
      )

  record IsFinished (ns : List String) (before after : StoreWaitState) : Type 0 where
    kept : length after.pending + after.done ≡ length before.pending + before.done
    failed : after.failed ≡ before.failed
    sets : NoRepeats after.pending
    members :
        (m : String)
        → contains m after.pending ≡ (if contains m ns then false else contains m before.pending)

  finish_all-IsFinished :
      (ns : List String) (t : StoreWaitTracker) (s : StoreWaitState)
      → Given ns
      → NoRepeats s.pending
      → Dict.get r t.states ≡ some s
      → (s' : StoreWaitState) × (Dict.get r (finish_all r now ns t).states ≡ some s')
        × IsFinished ns s s'
  unfolding finish_all finished
  finish_all-IsFinished [] t s g n e =
      (s, e, record { kept = refl; failed = refl; sets = n; members = λ m. refl })
  finish_all-IsFinished (m ∷ ns) t s g n e =
      let (s', e', h) =
        finish_all-IsFinished ns (mark_done r m now t) (finished m now s) g.1
          (discard-NoRepeats m s.pending n) (get-mark_done m t s g.0 e) in
      (
        s',
        e',
        record {
          kept = ground (arith, h.kept, length-discard m s.pending n);
          failed = ground (arith, h.failed);
          sets = h.sets;
          members =
              λ m'. ground (arith, h.members m', contains-discard m m' s.pending, eq_iff m m');
        },
      )

empty_of_none : (xs : List String) → ((m : String) → contains m xs ≡ false) → length xs ≡ 0
empty_of_none [] h = refl
empty_of_none (x ∷ xs) h = ground (arith, h x, eq_iff x x)

nil_of_empty : (xs : List String) → length xs ≡ 0 → xs ≡ []
nil_of_empty [] h = refl
nil_of_empty (x ∷ xs) h = absurd (omega arith)

-- When the distinct messages `ms` are registered for a request with nothing pending or failed, and
-- messages that include all of `ms` are then marked done, in any order and repeated or not, the
-- request is ready: nothing is pending, nothing failed, and `done` has grown by the number of `ms`.
pub all_done-ready :
    (r : String) (now later : ℕ) (ms ns : List String) (t : StoreWaitTracker) (s : StoreWaitState)
    → r ≢ ""
    → Given ms
    → Given ns
    → NoRepeats ms
    → ((m : String) → contains m ms ≡ true → contains m ns ≡ true)
    → Dict.get r t.states ≡ some s
    → s.pending ≡ []
    → s.failed ≡ 0
    → (s' : StoreWaitState) × (Dict.get r (finish_all r later ns (register_all r now ms t)).states
        ≡ some s')
      × (index_status (progress s') ≡ "ready")
      × (s'.pending ≡ [])
      × (s'.done ≡ s.done + length ms)
unfolding index_status progress
all_done-ready r now later ms ns t s given g g' u cover e idle clean =
    let (s₁, e₁, h₁) =
      register_all-IsOpened r given now ms t s g u (rw idle tt) (λ m _. rw idle) e in
    let (s₂, e₂, h₂) =
      finish_all-IsFinished r given later ns (register_all r now ms t) s₁ g' h₁.sets e₁ in
    let none_left : length s₂.pending ≡ 0 =
      empty_of_none s₂.pending (λ m. ground (arith, h₂.members m, h₁.members m, cover m, idle)) in
    (
      s₂,
      e₂,
      ground (arith, h₁.failed, h₂.failed),
      nil_of_empty s₂.pending none_left,
      ground (arith, h₁.grown, h₁.done, h₂.kept, ap length idle),
    )

-- `wait_for_request` returns only on a poll that finds the request complete, raises the timeout only
-- on a poll at or after the deadline that does not, and does one of the two once such a poll comes.
pub wait_for_request_outcome :
    (r : String) (deadline : ℕ) (polls : List (StoreWaitTracker × ℕ))
    → (wait_for_request r deadline polls ≡ complete → any (λ p. is_complete r p.0) polls ≡ true)
      × (wait_for_request r deadline polls ≡ timed_out
          → any (λ p. not (is_complete r p.0) && leb deadline p.1) polls ≡ true)
      × (any (λ p. is_complete r p.0 || leb deadline p.1) polls ≡ true
          → wait_for_request r deadline polls ≢ waiting)
unfolding wait_for_request
wait_for_request_outcome r deadline [] = (λ h. cc, λ h. cc, λ h. cc)
wait_for_request_outcome r deadline ((t, now) ∷ polls) =
    let (c, o, w) = wait_for_request_outcome r deadline polls in
    elim (Bool-cases (is_complete r t)) [
      | inl e ↦ (λ h. ground arith, λ h. ground arith, λ h. ground arith)
      | inr e ↦ (λ h. ground (arith, c), λ h. ground (arith, o), λ h. ground (arith, w))
    ]
