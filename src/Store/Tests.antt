-- ===== src/Store/Tests.antt =====
-- A vector store that keeps a log, and a memory stored in it.
use open_cortex.Base.{
  ◌≡◌, refl, ℕ, String, true, false, none, some, List, [], ◌∷◌, ◌++◌, map, if◌then◌else◌, if_both,
  ◌==◌, string_eq,
}
use open_cortex.Base.Dict
use open_cortex.Base.Plain.{plain}
use open_cortex.Base.Json.{null, Meta, str, text_at}
use open_cortex.Worker.Failure.{Result, ok, err}
use open_cortex.Worker.Events.{IdentityProfile}
use open_cortex.Records.{Context, memory, PrimaryRecordInput, RawPrimaryRecord, StoredRecord}
use open_cortex.Document.{Formats, Writing}
use open_cortex.Store.Primary.{Writer, write_record, write_prepared, payload_error}
use open_cortex.Namespace.{uri_of, path}
use open_cortex.Namespace.Chain.{proper_prefixes}
use open_cortex.Namespace.Simple.{posix, posix-IsPosix}
use open_cortex.Store.Ancestors.{Leaves, AreDirectories, Logs, Logged, write_prepared-Leaves}
use open_cortex.Store.Resolve.{StoreInput, Request}
use open_cortex.Store.Flow.{memory_store}
use open_cortex.Store.Announcing.{Announced, memory_store-Announced}

abbrev formats : Formats
formats = record {
  py = plain;
  rstrip_slashes = λ t. t;
  four_digits = λ n. "0001";
  suffix = λ t. "";
  lstrip_dots = λ t. t;
}

abbrev owner : IdentityProfile
owner = record {
  tenant_id = "acme";
  user_id = "ann";
  project_id = "demo";
  session_id = "s1";
  collection = "main";
}

abbrev request : Request
request = record {
  profile = owner;
  uuid = "u1";
  document_uuid = "u2";
  sha256 = λ t. t;
  basename = λ t. t;
  extension = λ t. "";
}

-- The store refuses a record of the uri "full".
abbrev logging : Writer (List Meta) ℕ
logging = record {
  upsert = λ p w.
      if text_at plain "uri" p == "full"
      then (err (payload_error "full"), w)
      else (ok tt, w ++ p ∷ []);
  dump = λ raw.
      ("id", str raw.id)
      ∷ ("uri", str raw.uri)
      ∷ ("parent_uri", str raw.parent_uri)
      ∷ ("category", str raw.category)
      ∷ [];
  validate = λ p. ok p;
  directory = λ p. ok p;
  has_namespace = true;
}

abbrev note : StoreInput
note = record { content = "Ann left"; category = "notes"; meta = [] }

abbrev stored : Result StoredRecord × Writing (List Meta)
stored = memory_store formats request (write_record plain logging) note ([], some [])

abbrev uris : List Meta → List String
uris ps = map (text_at plain "uri") ps

abbrev uri_of_result : Result StoredRecord → String
uri_of_result (ok s) = s.uri
uri_of_result (err e) = e.text

-- The simple paths have one part, so that the parent is the only ancestor.
stored_uri : uri_of_result stored.0 ≡ "opencortex://acme/ann/memories/demo/notes/u1"
unfolding memory_store write_record Dict.get Dict.set
stored_uri = refl

stored_points :
    uris stored.1.0
    ≡ "opencortex://acme/ann/memories/demo/notes" ∷ "opencortex://acme/ann/memories/demo/notes/u1"
      ∷ []
unfolding memory_store write_record Dict.get Dict.set
stored_points = refl

memory_store-Announced_example :
    Announced plain "acme" "ann" "" "Ann left" []
      (memory_store formats request (write_record plain logging) note ([], some []))
memory_store-Announced_example =
    memory_store-Announced formats request (write_record plain logging) note [] []

-- A record below one ancestor, which the store refuses.
abbrev refused : RawPrimaryRecord ℕ
refused = record {
  id = "full";
  uri = "full";
  parent_uri = "opencortex://acme";
  is_leaf = false;
  context_type = "";
  category = "notes";
  scope = "";
  tenant_id = "";
  user_id = "";
  source_tenant_id = "";
  source_user_id = "";
  project_id = "";
  session_id = "";
  meta = [];
  content = "";
  abstract = "";
  overview = "";
  entities = [];
  keywords = "";
  abstract_json = none;
  retrieval_surface = "";
  retrieval_ready = false;
  derive_status = "";
  ttl_expires_at = "";
  source_doc_id = "";
  source_doc_title = "";
  source_section_path = "";
  chunk_role = "";
  speaker = "";
  event_date = null;
  event_ts = "";
  utterance_ts = "";
  date_range_start = "";
  date_range_end = "";
  time_refs = [];
  section_index = null;
  vector = none;
  sparse_vector = null;
  memory_kind = "";
  anchor_hits = [];
  merge_signature = "";
  mergeable = false;
  anchor_surface = false;
}

abbrev context : Context ℕ
context = record {
  uri = "full";
  parent_uri = "opencortex://acme";
  is_leaf = true;
  abstract = "";
  overview = "";
  context_type = memory;
  category = "notes";
  related_uri = [];
  meta = [];
  session_id = "";
  profile = owner;
  vector = none;
  vectorize = none;
}

abbrev input : PrimaryRecordInput ℕ
input = record {
  ctx = context;
  payload = refused;
  effective_category = "notes";
  meta = [];
  context_type = memory;
  session_id = "";
  tenant_id = "acme";
  user_id = "ann";
  content = "Ann left";
}

-- The ancestor is stored before the store refuses the record.
ancestor_stays : uris (write_record plain logging input []).1 ≡ "opencortex://acme" ∷ []
unfolding write_record Dict.get
ancestor_stays = refl

logging-Logs : Logs posix logging (λ w. w)
logging-Logs p w =
    if_both {A = Result (Unit {0}) × List Meta} (λ r. Logged posix logging (λ v. v) p w r.0 r.1)
      (text_at plain "uri" p == "full") _ _ refl refl

abbrev deep : Meta
deep = logging.dump (record refused { parent_uri = "opencortex://acme/ann/notes" })

notes_path : path posix "opencortex://acme/ann/notes" ≡ some ("acme" ∷ "ann" ∷ "notes" ∷ [])
unfolding path
notes_path = refl

-- Three ancestors are stored before the store refuses the record.
three_ancestors :
    uris (write_prepared posix logging input deep []).1
    ≡ "opencortex://acme" ∷ "opencortex://acme/ann" ∷ "opencortex://acme/ann/notes" ∷ []
unfolding write_prepared Dict.get
three_ancestors = refl

write_prepared-Leaves_example :
    (dirs : List (Result Meta)) × AreDirectories posix logging
      (map uri_of (proper_prefixes ("acme" ∷ "ann" ∷ "notes" ∷ []))
        ++ "opencortex://acme/ann/notes" ∷ [])
      dirs
    × Leaves []
        (dirs ++ ok deep ∷ [])
        (write_prepared posix logging input deep []).1
        (write_prepared posix logging input deep []).0
unfolding Dict.get
write_prepared-Leaves_example =
    write_prepared-Leaves posix logging (λ w. w) logging-Logs posix-IsPosix refl input deep
      ("acme" ∷ "ann" ∷ "notes" ∷ []) [] notes_path
