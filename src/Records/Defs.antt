-- ===== src/Records/Defs.antt =====
-- Contexts, raw records, inputs and results of a write.
use open_cortex.Base.{
  String, Bool, false, Option, none, some, List, [], map, if◌then◌else◌, ◌==◌, ◌&&◌, string_eq,
}
use open_cortex.Base.Json.{
  Json, null, str, arr, obj, bool, num, number, items, keys, truthy, at, set_default, Meta, Python,
  text_at,
}
use open_cortex.Namespace.{is_private}
use open_cortex.Worker.Events.{IdentityProfile}
use open_cortex.Worker.Failure.{PyError, value, other, Result, ok, err}
use open_cortex.Common.{AbstractJson}

pub data ContextType : Type 0 where
  memory resource staging : ContextType

-- `str(context_type)`
abbrev pub context_text : ContextType → String
context_text memory = "memory"
context_text resource = "resource"
context_text staging = "staging"

-- Embeddings are `Vector`s; a sparse vector is any value.
pub record Context (Vector : Type 0) : Type 0 where
  pub uri : String
  pub parent_uri : String
  pub is_leaf : Bool
  pub abstract : String
  pub overview : String
  pub context_type : ContextType
  pub category : String
  pub related_uri : List String
  pub meta : Meta
  pub session_id : String
  pub profile : IdentityProfile
  pub vector : Option Vector
  pub vectorize : Option String

pub record RawPrimaryRecord (Vector : Type 0) : Type 0 where
  pub id : String
  pub uri : String
  pub parent_uri : String
  pub is_leaf : Bool
  pub context_type : String
  pub category : String
  pub scope : String
  pub tenant_id : String
  pub user_id : String
  pub source_tenant_id : String
  pub source_user_id : String
  pub project_id : String
  pub session_id : String
  pub meta : Meta
  pub content : String
  pub abstract : String
  pub overview : String
  pub entities : List String
  pub keywords : String
  pub abstract_json : Option AbstractJson
  pub retrieval_surface : String
  pub retrieval_ready : Bool
  pub derive_status : String
  pub ttl_expires_at : String
  pub source_doc_id : String
  pub source_doc_title : String
  pub source_section_path : String
  pub chunk_role : String
  pub speaker : String
  pub event_date : Json
  pub event_ts : String
  pub utterance_ts : String
  pub date_range_start : String
  pub date_range_end : String
  pub time_refs : List String
  pub section_index : Json
  pub vector : Option Vector
  pub sparse_vector : Json
  pub memory_kind : String
  pub anchor_hits : List String
  pub merge_signature : String
  pub mergeable : Bool
  pub anchor_surface : Bool

-- The payload is the dump of a raw record, and is kept as the record.
pub record PrimaryRecordInput (Vector : Type 0) : Type 0 where
  pub ctx : Context Vector
  pub payload : RawPrimaryRecord Vector
  pub effective_category : String
  pub meta : Meta
  pub context_type : ContextType
  pub session_id : String
  pub tenant_id : String
  pub user_id : String
  pub content : String

pub record StoredRecord : Type 0 where
  pub uri : String
  pub context_type : String
  pub category : String
  pub abstract : String
  pub overview : String
  pub meta : Meta
  pub record_data : Meta

-- What `for item in value or []` visits; `none` where Python cannot iterate.
abbrev loop_values : Python → Json → Option (List Json)
loop_values py (str s) = some (map str (py.chars s))
loop_values py (arr xs) = some (items xs)
loop_values py (obj d) = some (keys d)
loop_values py null = some []
loop_values py (bool b) = if b then none else some []
loop_values py (num n) = if truthy (num n) then none else some []
loop_values py (number t) = none

abbrev reference_error : PyError
reference_error = record { class = other; class_name = "TypeError"; text = "" }

abbrev section_error : PyError
section_error = record { class = value; class_name = "ValidationError"; text = "" }

module _ {Vector : Type 0} (py : Python) where
  -- `RawPrimaryRecord.from_context`; `effective` is the project of the request's profile. The time
  -- references are visited before the fields are validated.
  unfoldable pub from_context :
      String
      → Context Vector
      → String
      → String
      → String
      → String
      → String
      → String
      → Meta
      → String
      → Result (RawPrimaryRecord Vector)
  unfolding set_default is_private
  from_context effective ctx content category tenant user project session meta ttl =
      let metadata = set_default "project_id" (str project) meta in
      elim (loop_values py (at "time_refs" metadata)) [
        | none ↦ err reference_error
        | some refs ↦ elim (py.optional_int (at "section_index" metadata)) [
          | none ↦ err section_error
          | some index ↦ ok (record {
            id = ctx.uri;
            uri = ctx.uri;
            parent_uri = ctx.parent_uri;
            is_leaf = ctx.is_leaf;
            context_type = context_text ctx.context_type;
            category = category;
            scope = if is_private py ctx.uri then "private" else "shared";
            tenant_id = tenant;
            user_id = user;
            source_tenant_id = tenant;
            source_user_id = user;
            project_id = if project == "" then effective else project;
            session_id = session;
            meta = metadata;
            content = content;
            abstract = "";
            overview = "";
            entities = [];
            keywords = "";
            abstract_json = none;
            retrieval_surface = "";
            retrieval_ready = false;
            derive_status = "pending";
            ttl_expires_at = ttl;
            source_doc_id = text_at py "source_doc_id" metadata;
            source_doc_title = text_at py "source_doc_title" metadata;
            source_section_path = text_at py "source_section_path" metadata;
            chunk_role = text_at py "chunk_role" metadata;
            speaker = text_at py "speaker" metadata;
            event_date = at "event_date" metadata;
            event_ts = text_at py "event_ts" metadata;
            utterance_ts = text_at py "utterance_ts" metadata;
            date_range_start = text_at py "date_range_start" metadata;
            date_range_end = text_at py "date_range_end" metadata;
            time_refs = map py.show refs;
            section_index = index;
            vector = none;
            sparse_vector = null;
            memory_kind = "";
            anchor_hits = [];
            merge_signature = "";
            mergeable = false;
            anchor_surface = false;
          })
        ]
      ]

-- `primary_ttl`, over the texts of the two expiry times.
unfoldable pub primary_ttl : String → String → ContextType → String → String → String
primary_ttl immediate merged staging category layer = immediate
primary_ttl immediate merged memory category layer =
    if category == "events" && layer == "immediate"
    then immediate
    else if category == "events" && layer == "merged"
    then merged
    else ""
primary_ttl immediate merged resource category layer = ""
