-- ===== src/Store/Resolve.antt =====
-- Where a memory or a resource is stored, and the record that is made of it: src/opencortex/store/store.py.
use open_cortex.Base.{
  String, Bool, true, false, not, ◌&&◌, Option, none, some, List, [], ◌∷◌, if◌then◌else◌, ◌==◌,
  string_eq,
}
use open_cortex.Base.Chars.{take_chars}
use open_cortex.Base.Dict
use open_cortex.Base.Json.{str, Meta, text_at, at, set_default}
use open_cortex.Worker.Failure.{Result, ok, err}
use open_cortex.Worker.Events.{IdentityProfile}
use open_cortex.Common.{merge_unique_strings, extract_category_from_uri}
use open_cortex.Namespace.{resolve}
use open_cortex.Records.{
  Context, ContextType, resource, PrimaryRecordInput, RawPrimaryRecord, from_context,
}
use open_cortex.Document.{Formats}

pub record StoreInput : Type 0 where
  pub content : String
  pub category : String
  pub meta : Meta

pub record StoreTarget : Type 0 where
  pub uri : String
  pub parent_uri : String
  pub meta : Meta
  pub explicit_entities : List String
  pub explicit_topics : List String

-- The identity of the request, and what is drawn and computed outside: the hexadecimal digits of the
-- two ids of uuid4 and of the SHA-256 of a text, and the parts of a file's path.
pub record Request : Type 0 where
  pub profile : IdentityProfile
  pub uuid : String
  pub document_uuid : String
  pub sha256 : String → String
  pub basename : String → String
  -- `os.path.splitext(path)[1].lstrip(".")`
  pub extension : String → String

-- `document_root_meta`
unfoldable pub document_root_meta : IdentityProfile → Meta → String → String → Meta
unfolding set_default
document_root_meta profile meta root_uri chunk_role = Dict.set "chunk_role" (str chunk_role) (
    set_default "tree_root_uri" (str root_uri) (
      set_default "ingest_mode" (str "document_tree")
        (Dict.set "project_id" (str profile.project_id) meta)))

-- `ResourceStoreInput.source_path`
unfoldable pub source_path : Formats → Meta → String
source_path lib meta = text_at lib.py "source_path" meta

-- `ResourceStore.source_format`
unfoldable pub format_of : Formats → (String → String) → Meta → String
unfolding source_path
format_of lib extension meta =
    let explicit = text_at lib.py "source_format" meta in
    let format = text_at lib.py "format" meta in
    let content_type = text_at lib.py "content_type" meta in
    let ending = extension (source_path lib meta) in
    if not (explicit == "")
    then explicit
    else if not (format == "")
    then format
    else if not (content_type == "")
    then content_type
    else if ending == ""
    then "markdown"
    else ending

module _ (lib : Formats) (request : Request) where
  -- `resolve`, of either store; `none` is a TypeError.
  unfoldable pub resolve_target : ContextType → StoreInput → String → Option StoreTarget
  unfolding merge_unique_strings resolve
  resolve_target kind input abstract =
      let is_resource : Bool = elim kind [ resource ↦ true | _ ↦ false ] in
      let uris = resolve lib.py request.profile is_resource input.category abstract request.uuid in
      elim (merge_unique_strings lib.py (at "entities" input.meta ∷ [])) [
        | none ↦ none
        | some entities ↦ elim (merge_unique_strings lib.py (at "topics" input.meta ∷ [])) [
          | none ↦ none
          | some topics ↦ some (record {
            uri = uris.0;
            parent_uri = uris.1;
            meta = input.meta;
            explicit_entities = entities;
            explicit_topics = topics;
          })
        ]
      ]

  unfoldable pub store_context :
      {Vector : Type 0} → ContextType → StoreInput → StoreTarget → Bool → Context Vector
  store_context kind input target is_leaf = record {
    uri = target.uri;
    parent_uri = target.parent_uri;
    is_leaf = is_leaf;
    abstract = "";
    overview = "";
    context_type = kind;
    category = input.category;
    related_uri = [];
    meta = Dict.set "project_id" (str request.profile.project_id) target.meta;
    session_id = "";
    profile = request.profile;
    vector = none;
    vectorize = none;
  }

  -- The input of a write, from the record of a context.
  unfoldable pub with_raw :
      {Vector : Type 0}
      → Context Vector
      → String
      → Result (RawPrimaryRecord Vector)
      → Result (PrimaryRecordInput Vector)
  with_raw ctx content (err x) = err x
  with_raw ctx content (ok raw) = ok (record {
    ctx = ctx;
    payload = raw;
    effective_category = raw.category;
    meta = ctx.meta;
    context_type = ctx.context_type;
    session_id = "";
    tenant_id = request.profile.tenant_id;
    user_id = request.profile.user_id;
    content = content;
  })

  -- The record of a context.
  unfoldable pub store_record :
      {Vector : Type 0} → Context Vector → String → Result (PrimaryRecordInput Vector)
  unfolding with_raw from_context extract_category_from_uri
  store_record ctx content =
      let category =
        if ctx.category == "" then extract_category_from_uri lib.py ctx.uri else ctx.category in
      with_raw ctx content (
        from_context lib.py request.profile.project_id ctx content category
          request.profile.tenant_id request.profile.user_id request.profile.project_id "" ctx.meta
          "")

  -- `ResourceStore.prepare`; the digest of a document is cut to sixteen digits.
  unfoldable pub prepare : StoreInput → StoreInput
  unfolding source_path format_of set_default take_chars
  prepare input =
      let meta = input.meta in
      let own = source_path lib meta in
      let path = if own == "" then text_at lib.py "file_path" meta else own in
      let doc_id =
        if path == ""
        then take_chars 16 request.document_uuid
        else take_chars 16 (request.sha256 path) in
      let title = text_at lib.py "title" meta in
      let doc_title = if title == "" && not (path == "") then request.basename path else title in
      let format = format_of lib request.extension meta in
      record input {
        meta = set_default "chunk_role" (str "resource") (
            set_default "source_format" (str format) (
              set_default "source_section_path" (str "") (
                set_default "source_doc_title" (str doc_title)
                  (set_default "source_doc_id" (str doc_id) meta))));
      }
