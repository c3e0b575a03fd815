-- ===== src/Document/Defs.antt =====
-- Normalized chunks, their uris, and the records made of them.
use Prim.Native.String.{◌++◌ as ◌<>◌, count}
use open_cortex.Base.{
  ℕ, zero, suc, ◌+◌, String, Bool, not, ◌||◌, Option, none, some, List, [], ◌∷◌, ◌++◌, map,
  if◌then◌else◌, ◌==◌, string_eq, nat_eq, ltb, max, is_some,
}
use open_cortex.Base.Lists.{length, filter, any, contains}
use open_cortex.Base.Sets.{add}
use open_cortex.Base.Dict
use open_cortex.Base.Dict.{Dict}
use open_cortex.Base.Json.{str, num, Meta, Python, truthy, at, text_at, update, set_default}
use open_cortex.Common.{get_elem?, extract_category_from_uri}
use open_cortex.Namespace.{slug}
use open_cortex.Markdown.{ParsedChunk}
use open_cortex.Worker.Failure.{Result, ok, err}
use open_cortex.Records.{Context, PrimaryRecordInput, from_context}

-- The library functions on texts that are used here.
pub record Formats : Type 0 where
  pub py : Python
  -- `text.rstrip("/")`
  pub rstrip_slashes : String → String
  -- `f"{n:04d}"`
  pub four_digits : ℕ → String
  -- `Path(path).suffix`, and `text.lstrip(".")`
  pub suffix : String → String
  pub lstrip_dots : String → String

-- A parent is the index of a chunk; `none` is -1.
pub record DocumentChunk : Type 0 where
  pub content : String
  pub title : String
  pub level : ℕ
  pub parent_index : Option ℕ
  pub source_format : String
  pub meta : Meta

-- `int(parent_index or -1)`: zero is falsy, so that it becomes -1 too.
abbrev pub parent_or_root : Option ℕ → Option ℕ
parent_or_root none = none
parent_or_root (some zero) = none
parent_or_root (some (suc i)) = some (suc i)

unfoldable pub from_parsed : ParsedChunk → DocumentChunk
from_parsed parsed = record {
  content = parsed.content;
  title = parsed.title;
  level = parsed.level;
  parent_index = parent_or_root parsed.parent_index;
  source_format = parsed.source_format;
  meta = parsed.meta;
}

abbrev word_aliases : Dict String String
word_aliases =
    ("doc", "word")
    ∷ ("docx", "word")
    ∷ ("word", "word")
    ∷ ("application/msword", "word")
    ∷ ("application/vnd.openxmlformats-officedocument.wordprocessingml.document", "word")
    ∷ []

abbrev excel_aliases : Dict String String
excel_aliases =
    ("xls", "excel")
    ∷ ("xlsx", "excel")
    ∷ ("excel", "excel")
    ∷ ("spreadsheet", "excel")
    ∷ ("application/vnd.ms-excel", "excel")
    ∷ ("application/vnd.openxmlformats-officedocument.spreadsheetml.sheet", "excel")
    ∷ []

abbrev powerpoint_aliases : Dict String String
powerpoint_aliases =
    ("ppt", "powerpoint")
    ∷ ("pptx", "powerpoint")
    ∷ ("powerpoint", "powerpoint")
    ∷ ("presentation", "powerpoint")
    ∷ ("application/vnd.ms-powerpoint", "powerpoint")
    ∷ ("application/vnd.openxmlformats-officedocument.presentationml.presentation", "powerpoint")
    ∷ []

abbrev pub format_aliases : Dict String String
format_aliases =
    ("md", "markdown")
    ∷ ("markdown", "markdown")
    ∷ ("text", "text")
    ∷ ("txt", "text")
    ∷ ("plain", "text")
    ∷ ("plain/text", "text")
    ∷ ("text/plain", "text")
    ∷ ("pdf", "pdf")
    ∷ ("application/pdf", "pdf")
    ∷ (word_aliases
        ++ excel_aliases
        ++ powerpoint_aliases
        ++ ("epub", "epub") ∷ ("application/epub+zip", "epub") ∷ [])

-- `format_aliases.get(name, name)`
abbrev pub alias_of : String → String
alias_of name = elim (Dict.get name format_aliases) [ none ↦ name | some format ↦ format ]

-- Whether the chunks are written as a tree.
unfoldable pub is_tree : List DocumentChunk → Bool
is_tree chunks =
    ltb 1 (length chunks)
    || any (λ c. is_some c.parent_index) chunks
    || any (λ c. truthy (at "section_path" c.meta)) chunks

-- The most characters of a text.
unfoldable pub max_count : List String → ℕ
max_count [] = 0
max_count (x ∷ xs) = max (count x) (max_count xs)

-- The uri of a chunk's parent; `none` is an IndexError.
unfoldable pub parent_uri_of : String → List String → DocumentChunk → Option String
unfolding get_elem?
parent_uri_of root_uri uris chunk = elim chunk.parent_index [
  | none ↦ some root_uri
  | some i ↦ get_elem? uris i
]

module _ (lib : Formats) where
  abbrev py : Python
  py = lib.py

  unfoldable pub normalize_format : String → String → String
  unfolding Dict.get
  normalize_format source_format source_path =
      let explicit = py.lower (py.strip source_format) in
      let extension = lib.lstrip_dots (py.lower (lib.suffix source_path)) in
      if not (explicit == "")
      then alias_of explicit
      else if not (extension == "")
      then alias_of extension
      else "markdown"

  -- The chunks of `DocumentParser.parse`, from what the parser of the format returns.
  unfoldable pub document_chunks : List ParsedChunk → List DocumentChunk
  unfolding from_parsed
  document_chunks parsed = map from_parsed (filter (λ c. not (py.strip c.content == "")) parsed)

  -- `while candidate in used`, on fuel.
  unfoldable pub free_uri : ℕ → List String → String → String
  free_uri zero used candidate = candidate
  free_uri (suc fuel) used candidate =
      let longer = candidate <> ("-" <> py.show (num (length used + 1))) in
      let rest = free_uri fuel used longer in if contains candidate used then rest else candidate

  -- The uri of a chunk, given its index and the uris that are used.
  unfoldable pub next_uri : String → List String → ℕ → DocumentChunk → String
  unfolding free_uri max_count slug
  next_uri root_uri used index chunk =
      let named = slug py chunk.title in
      let base = if named == "" then "section-" <> py.show (num (index + 1)) else named in
      let candidate =
        lib.rstrip_slashes root_uri <> ("/" <> (lib.four_digits (index + 1) <> ("-" <> base))) in
      free_uri (suc (max_count used)) used candidate

  -- The loop over the chunks, with the uris so far as a set.
  unfoldable pub uris_loop : String → List String → ℕ → List DocumentChunk → List String
  unfolding next_uri
  uris_loop root_uri used index [] = []
  uris_loop root_uri used index (chunk ∷ chunks) =
      let uri = next_uri root_uri used index chunk in
      uri ∷ uris_loop root_uri (add uri used) (index + 1) chunks

  unfoldable pub chunk_uris : String → List DocumentChunk → List String
  unfolding uris_loop
  chunk_uris root_uri chunks = uris_loop root_uri [] 0 chunks

  unfoldable pub chunk_meta : Meta → DocumentChunk → String → ℕ → String → String → Meta
  unfolding update set_default
  chunk_meta root_meta chunk root_uri chunk_index source_path chunk_role =
      let section_path =
        if truthy (at "section_path" chunk.meta)
        then py.show (at "section_path" chunk.meta)
        else chunk.title in
      let meta =
        update
          (("ingest_mode", str "document_tree")
            ∷ ("source_uri", str root_uri)
            ∷ ("tree_root_uri", str root_uri)
            ∷ ("source_section_path", str section_path)
            ∷ ("section_title", str chunk.title)
            ∷ ("section_level", num chunk.level)
            ∷ ("section_index", num chunk_index)
            ∷ ("source_format", str chunk.source_format)
            ∷ ("chunk_role", str chunk_role)
            ∷ [])
          root_meta in
      if source_path == ""
      then meta
      else set_default "file_path" (str source_path)
          (set_default "source_path" (str source_path) meta)

  module _ {Vector : Type 0} (effective_project : String) where
    unfoldable pub chunk_record_input :
        PrimaryRecordInput Vector
        → DocumentChunk
        → ℕ
        → String
        → String
        → Bool
        → String
        → String
        → Result (PrimaryRecordInput Vector)
    unfolding chunk_meta from_context extract_category_from_uri
    chunk_record_input root chunk chunk_index uri parent_uri is_leaf source_path chunk_role =
        let or_category : String → String → String =
          λ category u. if category == "" then extract_category_from_uri py u else category in
        let meta = chunk_meta root.ctx.meta chunk root.ctx.uri chunk_index source_path chunk_role in
        let project = text_at py "project_id" meta in
        let ctx : Context Vector = record {
          uri = uri;
          parent_uri = parent_uri;
          is_leaf = is_leaf;
          abstract = "";
          overview = "";
          context_type = root.ctx.context_type;
          category = or_category root.ctx.category root.ctx.uri;
          related_uri = [];
          meta = meta;
          session_id = root.session_id;
          profile = root.ctx.profile;
          vector = none;
          vectorize = none;
        } in
        elim (from_context py effective_project ctx chunk.content (or_category ctx.category uri)
          root.tenant_id root.user_id (if project == "" then "public" else project) root.session_id
          meta root.payload.ttl_expires_at) [
            | err x ↦ err x
            | ok raw ↦ ok (record {
              ctx = ctx;
              payload = raw;
              effective_category = raw.category;
              meta = meta;
              context_type = root.ctx.context_type;
              session_id = root.session_id;
              tenant_id = root.tenant_id;
              user_id = root.user_id;
              content = chunk.content;
            })
          ]
