-- ===== src/Session/Defs.antt =====
-- The state of the session flows, what they use of other parts, and their monad.
use open_cortex.Base.{
  ℕ, suc, String, Bool, Option, none, some, List, if◌then◌else◌, ◌==◌, string_eq, pair_eq,
}
use open_cortex.Base.Json.{Json, Meta, Python}
use open_cortex.Buffer.{SessionBuffer}
use open_cortex.Worker.Failure.{PyError, value, other, Result, ok, err}
use open_cortex.Worker.Events.{IdentityProfile}
use open_cortex.Records.{Context, PrimaryRecordInput, StoredRecord}
use open_cortex.Records.Events.{Published, memory_stored_event}

-- `SessionKey`
abbrev pub SessionKey : Type 0
SessionKey = String × (String × (String × String))

-- `profile_key`; `resolved` is what the collection resolver returns.
unfoldable pub profile_key : String → IdentityProfile → SessionKey
profile_key resolved p = (
  if p.collection == "" then resolved else p.collection,
  (p.tenant_id, (p.user_id, p.session_id)),
)

pub record SessionMessage : Type 0 where
  pub role : String
  pub content : String
  pub meta : Meta

pub record SessionMessageInput : Type 0 where
  pub session_id : String
  pub turn_id : String
  pub messages : List SessionMessage
  pub tool_calls : List Meta

pub record SessionMessageResult : Type 0 where
  pub turn_id : String
  pub written_uris : List String
  pub merge_requested : Bool

pub record SessionEndResult : Type 0 where
  pub write_status : String
  pub session_id : String
  pub merged_uris : List String
  pub final_uri : String

-- The parts that the flows call; the embedder returns the dense vector that it sets, and the sparse
-- one. The tree writer publishes events of its own.
pub record Services (Vector World : Type 0) : Type 0 where
  pub write : PrimaryRecordInput Vector → World → Result StoredRecord × World
  pub embed : Context Vector → World → Result (Option Vector × Json) × World
  pub load_merged : String → World → Result (List Meta) × World
  pub tree :
      Option (PrimaryRecordInput Vector → World → Published → Result (Unit {0}) × World × Published)

-- What the flows are set up with: the expiry times as texts, and the ids that uuid4 draws.
pub record Setup : Type 0 where
  pub py : Python
  pub immediate_ttl : String
  pub merged_ttl : String
  pub effective_project : String
  pub uuid : ℕ → String

pub record State (World : Type 0) : Type 0 where
  pub buffer : SessionBuffer SessionKey Meta
  pub world : World
  pub published : Published
  pub draws : ℕ

abbrev pub M : Type 0 → Type 0 → Type 0
M World A = State World → Result A × State World

-- What a bind does with a result.
abbrev pub carry : {W A B : Type 0} → (A → M W B) → Result A → State W → Result B × State W
carry f (ok a) s = f a s
carry f (err e) s = (err e, s)

infixl 5 ◌>>=◌ ◌>>◌
abbrev pub ◌>>=◌ : {W A B : Type 0} → M W A → (A → M W B) → M W B
◌>>=◌ m f s = let r = m s in carry f r.0 r.1

abbrev pub ◌>>◌ : {W B : Type 0} → M W (Unit {0}) → M W B → M W B
m >> k = m >>= λ _. k

abbrev pub return : {W A : Type 0} → A → M W A
return a s = (ok a, s)

abbrev pub raise : {W A : Type 0} → PyError → M W A
raise e s = (err e, s)

abbrev pub type_error : PyError
type_error = record { class = other; class_name = "TypeError"; text = "" }

abbrev pub key_error : PyError
key_error = record { class = other; class_name = "KeyError"; text = "'id'" }

abbrev pub no_vector : PyError
no_vector = record {
  class = value;
  class_name = "ValueError";
  text = "Immediate embedding returned no dense vector";
}

abbrev pub or_raise : {W A : Type 0} → PyError → Option A → M W A
or_raise e none s = (err e, s)
or_raise e (some a) s = (ok a, s)

-- What a function gives or raises.
abbrev pub outcome : {W A : Type 0} → Result A → M W A
outcome r s = (r, s)

-- A call of a service.
abbrev pub call : {W A : Type 0} → (W → Result A × W) → M W A
call f s = let r = f s.world in (r.0, record s { world = r.1 })

-- A call of the buffer, and its result.
abbrev pub on_buffer :
    {W A : Type 0} → (SessionBuffer SessionKey Meta → A × SessionBuffer SessionKey Meta) → M W A
on_buffer f s = let r = f s.buffer in (ok r.0, record s { buffer = r.1 })

abbrev pub change_buffer :
    {W : Type 0} → (SessionBuffer SessionKey Meta → SessionBuffer SessionKey Meta) → M W (Unit {0})
change_buffer f s = (ok tt, record s { buffer = f s.buffer })

abbrev pub publish : {W : Type 0} → (Published → Published) → M W (Unit {0})
publish f s = (ok tt, record s { published = f s.published })

-- `uuid4().hex`
abbrev pub draw : {W : Type 0} → (ℕ → String) → M W String
draw uuid s = (ok (uuid s.draws), record s { draws = suc s.draws })

-- `memory_stored`: a record without an id is a KeyError.
abbrev pub publish_stored :
    {W Vector : Type 0} → Python → PrimaryRecordInput Vector → StoredRecord → M W (Unit {0})
publish_stored py record_input stored s =
    elim (memory_stored_event py record_input stored s.published) [
      | none ↦ (err key_error, s)
      | some published ↦ (ok tt, record s { published = published })
    ]
