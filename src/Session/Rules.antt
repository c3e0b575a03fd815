-- ===== src/Session/Rules.antt =====
-- Rules for the calls of the session flows: what keeps the buffer, and what holds after a call.
use mathlib.Core.Path.{subst}
use open_cortex.Base.{
  ℕ, ◌≡◌, refl, sym, ◌∙◌, String, Option, none, some, string_eq, pair_eq, arith, Option-cases, inl,
  inr,
}
use open_cortex.Base.Json.{Python, Meta}
use open_cortex.Buffer.{SessionBuffer}
use open_cortex.Worker.Failure.{PyError, Result, ok, err}
use open_cortex.Records.{PrimaryRecordInput, StoredRecord}
use open_cortex.Records.Events.{Published, memory_stored_event}
use open_cortex.Session.Defs.{
  SessionKey, State, M, carry, ◌>>=◌, return, or_raise, outcome, call, publish, publish_stored,
  draw,
}

-- The call leaves the buffer as it is.
abbrev pub Keeps : {W A : Type 0} → M W A → Type 0
Keeps {W} m = (s : State W) → (m s).1.buffer ≡ s.buffer

-- What holds of the result and the state, and what holds of the state when the call raises.
abbrev pub Post :
    {W A : Type 0} → (A → State W → Type 0) → (State W → Type 0) → Result A × State W → Type 0
Post Q E r = elim r.0 [ ok a ↦ Q a r.1 | err e ↦ E r.1 ]

carry-Post :
    {W A B : Type 0} (Q : A → State W → Type 0) (R : B → State W → Type 0) (E : State W → Type 0)
    (f : A → M W B) (r : Result A) (t : State W)
    → Post Q E (r, t)
    → ((a : A) (u : State W) → Q a u → Post R E (f a u))
    → Post R E (carry f r t)
carry-Post Q R E f (ok a) t p k = k a t p
carry-Post Q R E f (err e) t p k = p

carry-Keeps :
    {W A B : Type 0} (f : A → M W B) (r : Result A) (t : State W)
    → ((a : A) → Keeps (f a))
    → (carry f r t).1.buffer ≡ t.buffer
carry-Keeps f (ok a) t k = k a t
carry-Keeps f (err e) t k = refl

keeps_result :
    {W A : Type 0} (P : SessionBuffer SessionKey Meta → Type 0) (r : Result A) (t : State W)
    → P t.buffer
    → Post (λ (a : A) (u : State W). P u.buffer) (λ u. P u.buffer) (r, t)
keeps_result P (ok a) t p = p
keeps_result P (err e) t p = p

pub Post->>= :
    {W A B : Type 0} (Q : A → State W → Type 0) (R : B → State W → Type 0) (E : State W → Type 0)
    (m : M W A) (f : A → M W B) (s : State W)
    → Post Q E (m s)
    → ((a : A) (t : State W) → Q a t → Post R E (f a t))
    → Post R E ((m >>= f) s)
Post->>= Q R E m f s p k = carry-Post Q R E f (m s).0 (m s).1 p k

pub Keeps->>= :
    {W A B : Type 0} (m : M W A) (f : A → M W B)
    → Keeps m
    → ((a : A) → Keeps (f a))
    → Keeps (m >>= f)
Keeps->>= m f p k s = carry-Keeps f (m s).0 (m s).1 k ∙ p s

pub Keeps-return : {W A : Type 0} (a : A) → Keeps (return {W = W} a)
Keeps-return a s = refl

pub Keeps-or_raise : {W A : Type 0} (e : PyError) (o : Option A) → Keeps (or_raise {W = W} e o)
Keeps-or_raise e none s = refl
Keeps-or_raise e (some a) s = refl

pub Keeps-outcome : {W A : Type 0} (r : Result A) → Keeps (outcome {W = W} r)
Keeps-outcome r s = refl

pub Keeps-call : {W A : Type 0} (f : W → Result A × W) → Keeps (call f)
Keeps-call f s = refl

pub Keeps-draw : {W : Type 0} (uuid : ℕ → String) → Keeps (draw {W = W} uuid)
Keeps-draw uuid s = refl

pub Keeps-publish : {W : Type 0} (f : Published → Published) → Keeps (publish {W = W} f)
Keeps-publish f s = refl

pub Keeps-publish_stored :
    {W Vector : Type 0} (py : Python) (i : PrimaryRecordInput Vector) (r : StoredRecord)
    → Keeps (publish_stored {W = W} py i r)
Keeps-publish_stored py i r s = elim (Option-cases (memory_stored_event py i r s.published)) [
  | inl n ↦ ground (arith, n)
  | inr (p, h) ↦ ground (arith, h)
]

-- A call that keeps the buffer keeps what is said of the buffer.
pub Post-Keeps :
    {W A : Type 0} (P : SessionBuffer SessionKey Meta → Type 0) (m : M W A) (s : State W)
    → Keeps m
    → P s.buffer
    → Post (λ a t. P t.buffer) (λ t. P t.buffer) (m s)
Post-Keeps P m s k p = keeps_result P (m s).0 (m s).1 (subst P (sym (k s)) p)

-- A first call that keeps the buffer: the rest starts from a state of which the same is said.
pub Post-then :
    {W A B : Type 0} (P : SessionBuffer SessionKey Meta → Type 0) (R : B → State W → Type 0)
    (m : M W A) (f : A → M W B) (s : State W)
    → Keeps m
    → P s.buffer
    → ((a : A) (t : State W) → P t.buffer → Post R (λ u. P u.buffer) (f a t))
    → Post R (λ u. P u.buffer) ((m >>= f) s)
Post-then P R m f s k p rest =
    Post->>= (λ a t. P t.buffer) R (λ u. P u.buffer) m f s (Post-Keeps P m s k p) rest

result_map :
    {W A : Type 0} (Q R : A → State W → Type 0) (E F : State W → Type 0) (r : Result A)
    (t : State W)
    → ((a : A) (u : State W) → Q a u → R a u)
    → ((u : State W) → E u → F u)
    → Post Q E (r, t)
    → Post R F (r, t)
result_map Q R E F (ok a) t f g p = f a t p
result_map Q R E F (err e) t f g p = g t p

-- A weaker claim holds too.
pub Post-map :
    {W A : Type 0} (Q R : A → State W → Type 0) (E F : State W → Type 0) (r : Result A × State W)
    → ((a : A) (u : State W) → Q a u → R a u)
    → ((u : State W) → E u → F u)
    → Post Q E r
    → Post R F r
Post-map Q R E F (r, t) f g p = result_map Q R E F r t f g p

-- What holds of every result that is given.
pub record Gives {W A : Type 0} (Q : A → Type 0) (m : M W A) : Type 0 where
  pub given : (s : State W) → Post (λ a t. Q a) (λ t. Unit {0}) (m s)

carry-Gives :
    {W A B : Type 0} (Q : B → Type 0) (f : A → M W B) (r : Result A) (t : State W)
    → ((a : A) → r ≡ ok a → Gives Q (f a))
    → Post (λ a u. Q a) (λ u. Unit {0}) (carry f r t)
carry-Gives Q f (ok a) t g = (g a refl).given t
carry-Gives Q f (err e) t g = tt

pub Gives->>= :
    {W A B : Type 0} (Q : B → Type 0) (m : M W A) (f : A → M W B)
    → ((a : A) → Gives Q (f a))
    → Gives Q (m >>= f)
Gives->>= Q m f g = record { given = λ s. carry-Gives Q f (m s).0 (m s).1 (λ a e. g a) }

pub Gives-return : {W A : Type 0} (Q : A → Type 0) (a : A) → Q a → Gives {W = W} Q (return a)
Gives-return Q a q = record { given = λ s. q }

pub Gives-or_raise :
    {W A B : Type 0} (Q : B → Type 0) (x : PyError) (o : Option A) (f : A → M W B)
    → ((a : A) → o ≡ some a → Gives Q (f a))
    → Gives Q (or_raise x o >>= f)
Gives-or_raise Q x none f g = record { given = λ s. tt }
Gives-or_raise Q x (some a) f g = record { given = λ s. (g a refl).given s }

result_both :
    {W A : Type 0} (P : SessionBuffer SessionKey Meta → Type 0) (Q : A → Type 0) (r : Result A)
    (t : State W)
    → Post (λ a u. Q a) (λ u. Unit {0}) (r, t)
    → P t.buffer
    → Post (λ a u. Q a × P u.buffer) (λ u. P u.buffer) (r, t)
result_both P Q (ok a) t q p = (q, p)
result_both P Q (err e) t q p = p

-- A first call that keeps the buffer and of whose result something is known.
pub Post_given :
    {W A B : Type 0} (P : SessionBuffer SessionKey Meta → Type 0) (Q : A → Type 0)
    (R : B → State W → Type 0) (m : M W A) (f : A → M W B) (s : State W)
    → Keeps m
    → Gives Q m
    → P s.buffer
    → ((a : A) (t : State W) → Q a → P t.buffer → Post R (λ u. P u.buffer) (f a t))
    → Post R (λ u. P u.buffer) ((m >>= f) s)
Post_given P Q R m f s k g p rest =
    Post->>= (λ a t. Q a × P t.buffer) R (λ u. P u.buffer) m f s
      (result_both P Q (m s).0 (m s).1 (g.given s) (subst P (sym (k s)) p))
      (λ a t h. rest a t h.0 h.1)
