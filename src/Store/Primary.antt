-- ===== src/Store/Primary.antt =====
-- `PrimaryRecordWriter`: a record is put_point into the vector store after its ancestors.
use open_cortex.Base.{
  String, Bool, true, false, not, ◌||◌, none, some, List, [], ◌∷◌, ◌++◌, map, if◌then◌else◌, ◌==◌,
  string_eq,
}
use open_cortex.Base.Dict
use open_cortex.Base.Json.{Json, str, obj, to_fields, truthy, text_at, at, update, Meta, Python}
use open_cortex.Worker.Failure.{PyError, value, other, Result, ok, err}
use open_cortex.Forget.{Call, return, ◌>>=◌}
use open_cortex.Namespace.{is_private, parent, parent_chain}
use open_cortex.Records.{PrimaryRecordInput, StoredRecord, RawPrimaryRecord, context_text}

-- The vector store at the writer's collection; `dump` is `model_dump` of a raw record, `validate` makes a
-- PrimaryPayload of a dict, and `directory` dumps a DirectoryPayload with its defaults.
pub record Writer (World Vector : Type 0) : Type 0 where
  pub upsert : Meta → Call World (Unit {0})
  pub dump : RawPrimaryRecord Vector → Meta
  pub validate : Meta → Result Meta
  pub directory : Meta → Result Meta
  pub has_namespace : Bool

abbrev pub payload_error : String → PyError
payload_error text = record { class = value; class_name = "ValueError"; text = text }

abbrev category_error : PyError
category_error = record { class = other; class_name = "KeyError"; text = "'category'" }

-- `record.pop(key)` of the two vectors.
abbrev without : String → Meta → Meta
without key [] = []
without key ((k, v) ∷ d) = let rest = without key d in if k == key then rest else (k, v) ∷ rest

-- The entries of the keys that the record has.
abbrev entry_of : String → Meta → Meta
entry_of key rec = elim (Dict.get key rec) [ none ↦ [] | some v ↦ (key, v) ∷ [] ]

abbrev is_blank : Meta → Bool
is_blank [] = true
is_blank (f ∷ rec) = false

abbrev is_object : Json → Bool
is_object (str s) = s == "l0_object"
is_object _ = false

abbrev with_vectors : Meta → Result Meta → Result Meta
with_vectors vectors (ok rec) = ok (update vectors rec)
with_vectors vectors (err e) = err e

module _ {World Vector : Type 0} (py : Python) (writer : Writer World Vector) where
  unfoldable pub prepared_payload : Meta → Result Meta
  unfolding update Dict.get
  prepared_payload rec =
      let bare = without "sparse_vector" (without "vector" rec) in
      let vectors = entry_of "vector" rec ++ entry_of "sparse_vector" rec in
      if is_blank rec
      then err (payload_error "PrimaryRecordWriter requires a prepared payload")
      else if not (truthy (at "id" rec)) || not (truthy (at "uri" rec))
      then err (payload_error "PrimaryRecordWriter payload requires id and uri")
      else if is_object (at "retrieval_surface" rec)
      then with_vectors vectors (writer.validate bare)
      else ok rec

  -- `str(a.get(k, "") or a.get(j, ""))`
  abbrev text_of_either : String → String → Meta → String
  text_of_either first second rec =
      let other : String = elim (Dict.get second rec) [ none ↦ "" | some v ↦ py.show v ] in
      if truthy (at first rec) then py.show (at first rec) else other

  unfoldable pub parent_record : String → Meta → Result Meta
  unfolding parent is_private Dict.get
  parent_record uri source =
      let tenant_id = text_of_either "tenant_id" "source_tenant_id" source in
      let user_id = text_of_either "user_id" "source_user_id" source in
      let project_id = text_at py "project_id" source in
      let context_type = text_at py "context_type" source in
      writer.directory (
        ("id", str uri)
        ∷ ("uri", str uri)
        ∷ ("parent_uri", str (if writer.has_namespace then parent py uri else ""))
        ∷ ("context_type", str (if context_type == "" then "memory" else context_type))
        ∷ ("category", str (text_at py "category" source))
        ∷ ("scope", str (if is_private py uri then "private" else "shared"))
        ∷ ("tenant_id", str tenant_id)
        ∷ ("user_id", str user_id)
        ∷ ("source_tenant_id", str tenant_id)
        ∷ ("source_user_id", str user_id)
        ∷ ("project_id", str project_id)
        ∷ ("session_id", str "")
        ∷ (
          "meta",
          obj (to_fields (("record_kind", str "directory") ∷ ("project_id", str project_id) ∷ [])),
        )
        ∷ ("retrieval_surface", str "directory")
        ∷ ("section_index", at "section_index" source)
        ∷ [])

  abbrev pub made : Result Meta → Call World Meta
  made r w = (r, w)

  -- A record is made, and then it is stored.
  unfoldable pub put_point : Result Meta → Call World (Unit {0})
  put_point r = made r >>= writer.upsert

  unfoldable pub put_all : List (Result Meta) → Call World (Unit {0})
  unfolding put_point
  put_all [] = return tt
  put_all (r ∷ rs) = put_point r >>= λ u. put_all rs

  -- The directories of a record's ancestors, from the root down.
  unfoldable pub directories : Meta → List (Result Meta)
  unfolding parent_chain parent_record
  directories rec =
      let parent_uri = text_at py "parent_uri" rec in
      if parent_uri == "" || not writer.has_namespace
      then []
      else map (λ uri. parent_record uri rec) (parent_chain py parent_uri)

  unfoldable pub ensure_parent_records : Meta → Call World (Unit {0})
  unfolding directories put_all
  ensure_parent_records rec = put_all (directories rec)

  -- `record["category"]` raises a KeyError where the key is missing.
  unfoldable pub stored_record : PrimaryRecordInput Vector → Meta → Result StoredRecord
  unfolding Dict.get
  stored_record i rec = elim (Dict.get "category" rec) [
    | none ↦ err category_error
    | some category ↦ ok (record {
      uri = i.ctx.uri;
      context_type = context_text i.ctx.context_type;
      category = py.show category;
      abstract = i.ctx.abstract;
      overview = i.ctx.overview;
      meta = i.ctx.meta;
      record_data = rec;
    })
  ]

  abbrev pub stored_as : PrimaryRecordInput Vector → Meta → Call World StoredRecord
  stored_as i rec w = (stored_record i rec, w)

  unfoldable pub write_prepared : PrimaryRecordInput Vector → Meta → Call World StoredRecord
  unfolding ensure_parent_records stored_record
  write_prepared i rec =
      ensure_parent_records rec >>= λ u. writer.upsert rec >>= λ v. stored_as i rec

  unfoldable pub write_record : PrimaryRecordInput Vector → Call World StoredRecord
  unfolding prepared_payload write_prepared
  write_record i = made (prepared_payload (writer.dump i.payload)) >>= write_prepared i
