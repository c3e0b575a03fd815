-- ===== src/Storage/Table.antt =====
-- The operations of `CortexStorage` on the files of a uri and on its relation table.
use open_cortex.Base.{
  String, Bool, not, Option, none, some, List, [], ◌∷◌, ◌++◌, map, if◌then◌else◌, ◌==◌, string_eq,
}
use open_cortex.Base.Chars.{rstrip_slashes}
use open_cortex.Base.Dict
use open_cortex.Base.Dict.{Dict}
use open_cortex.Base.Json.{Python}
use Prim.Native.String.{◌++◌ as ◌<>◌}
use open_cortex.Worker.Failure.{Result, ok, err}
use open_cortex.Forget.{Call, return, raise, ◌>>=◌}
use open_cortex.Storage.Defs.{
  RelationEntry, Files, no_id_left, file_in, uri_relative_path, with_path, at_path, free_id,
  link_ids, ids_of, targets_of, unlinked,
}

-- Related uris with what is read of them; `none` is a key that is left out.
pub record RelatedItem (Text : Type 0) : Type 0 where
  pub uri : String
  pub abstract : Option Text
  pub overview : Option Text

abbrev pub linked_entry : String → List String → String → String → RelationEntry
linked_entry id uris reason now = record {
  id = id;
  targets = uris;
  reason = reason;
  relation_type = "";
  event_ts = "";
  created_at = now;
}

module _ {World Text : Type 0} (py : Python) (files : Files World Text) where
  unfoldable pub read_file : String → World → Result Text
  unfolding uri_relative_path
  read_file uri w = with_path (λ path. files.read_text path w) (uri_relative_path py uri)

  unfoldable pub read_abstract : String → World → Result Text
  unfolding read_file rstrip_slashes
  read_abstract uri w = read_file (rstrip_slashes uri <> "/.abstract.md") w

  unfoldable pub read_overview : String → World → Result Text
  unfolding read_file rstrip_slashes
  read_overview uri w = read_file (rstrip_slashes uri <> "/.overview.md") w

  -- `except OSError`
  abbrev pub or_empty : Result Text → Result Text
  or_empty (ok text) = ok text
  or_empty (err e) = if files.is_os_error e then ok files.empty else err e

  unfoldable pub read_one : String → String → World → Result Text
  unfolding read_abstract read_overview
  read_one level uri w =
      if level == "l0"
      then or_empty (read_abstract uri w)
      else if level == "l1"
      then or_empty (read_overview uri w)
      else ok files.empty

  -- A text that is not empty is entered, before those of the later uris.
  abbrev pub entered :
      String
      → Result Text
      → (Dict String Text → Result (Dict String Text))
      → Dict String Text
      → Result (Dict String Text)
  entered uri (err e) rest found = err e
  entered uri (ok text) rest found =
      if files.is_empty text then rest found else rest (Dict.set uri text found)

  unfoldable pub read_batch :
      List String → String → Dict String Text → World → Result (Dict String Text)
  unfolding read_one
  read_batch [] level found w = ok found
  read_batch (uri ∷ uris) level found w =
      entered uri (read_one level uri w) (λ d. read_batch uris level d w) found

  -- The table of a text that is read.
  abbrev pub or_no_table : Result (Option (List RelationEntry)) → Result (List RelationEntry)
  or_no_table (ok (some entries)) = ok entries
  or_no_table (ok none) = ok []
  or_no_table (err e) = err e

  abbrev pub table_of : Result Text → Result (List RelationEntry)
  table_of (ok content) = if files.is_empty content then ok [] else or_no_table (files.load content)
  table_of (err e) = if files.is_os_error e then ok [] else err e

  unfoldable pub get_relation_table : String → World → Result (List RelationEntry)
  unfolding uri_relative_path
  get_relation_table uri w = table_of (
      with_path (λ path. files.read_text (file_in path ".relations.json") w)
        (uri_relative_path py uri))

  unfoldable pub write_relation_table : String → List RelationEntry → Call World (Unit {0})
  unfolding uri_relative_path
  write_relation_table uri entries =
      at_path
        (λ path. files.mkdir path >>= λ u.
          files.write_text (file_in path ".relations.json") (files.dump entries))
        (uri_relative_path py uri)

  abbrev pub with_id :
      String
      → List RelationEntry
      → List String
      → String
      → String
      → Option String
      → Call World (Unit {0})
  with_id from_uri entries uris reason now none = raise no_id_left
  with_id from_uri entries uris reason now (some id) =
      write_relation_table from_uri (entries ++ linked_entry id uris reason now ∷ [])

  abbrev pub link_to :
      String → List String → String → String → Result (List RelationEntry) → Call World (Unit {0})
  link_to from_uri uris reason now (err e) = raise e
  link_to from_uri uris reason now (ok entries) =
      with_id from_uri entries uris reason now (free_id py link_ids 1 (ids_of entries))

  unfoldable pub link : String → List String → String → String → Call World (Unit {0})
  unfolding get_relation_table free_id write_relation_table
  link from_uri uris reason now w =
      link_to from_uri uris reason now (get_relation_table from_uri w) w

  abbrev pub rewritten : String → Option (List RelationEntry) → Call World (Unit {0})
  rewritten from_uri none = return tt
  rewritten from_uri (some entries) = write_relation_table from_uri entries

  abbrev pub unlink_from : String → String → Result (List RelationEntry) → Call World (Unit {0})
  unlink_from from_uri uri (err e) = raise e
  unlink_from from_uri uri (ok entries) = rewritten from_uri (unlinked uri entries)

  unfoldable pub unlink : String → String → Call World (Unit {0})
  unfolding get_relation_table unlinked write_relation_table
  unlink from_uri uri w = unlink_from from_uri uri (get_relation_table from_uri w) w

  abbrev pub targets_result : Result (List RelationEntry) → Result (List String)
  targets_result (ok entries) = ok (targets_of entries)
  targets_result (err e) = err e

  unfoldable pub get_relations : String → World → Result (List String)
  unfolding get_relation_table targets_of
  get_relations uri w = targets_result (get_relation_table uri w)

  -- `write_context`: the directory, and each file whose text is given.
  abbrev pub written_if : Bool → String → String → Text → Call World (Unit {0})
  written_if given path name text =
      if given then files.write_text (file_in path name) text else return tt

  unfoldable pub write_context : String → Text → Text → Option Text → Text → Call World (Unit {0})
  unfolding uri_relative_path
  write_context uri content abstract_text abstract_json overview_text =
      at_path
        (λ path. files.mkdir path >>= λ a.
          written_if (not (files.is_empty content)) path "content.md" content >>= λ b.
          written_if (not (files.is_empty abstract_text)) path ".abstract.md" abstract_text >>= λ c.
          elim abstract_json [
            | none ↦ return tt
            | some text ↦ files.write_text (file_in path ".abstract.json") text
          ]
          >>= λ d.
              written_if (not (files.is_empty overview_text)) path ".overview.md" overview_text)
        (uri_relative_path py uri)

  -- The contents of the related uris, where they are asked for.
  abbrev pub contents : Bool → List String → String → World → Result (Dict String Text)
  contents wanted uris level w = if wanted then read_batch uris level [] w else ok []

  abbrev pub related_text : Bool → Dict String Text → String → Option Text
  related_text wanted found uri =
      if wanted
      then some (elim (Dict.get uri found) [ none ↦ files.empty | some text ↦ text ])
      else none

  abbrev pub related :
      Bool
      → Bool
      → Result (List String)
      → (List String → Result (Dict String Text))
      → (List String → Result (Dict String Text))
      → Result (List (RelatedItem Text))
  related l0 l1 (err e) first second = err e
  related l0 l1 (ok uris) first second = elim (first uris) [
    | err e ↦ err e
    | ok abstracts ↦ elim (second uris) [
      | err e ↦ err e
      | ok overviews ↦ ok (
          map
            (λ uri. record {
              uri = uri;
              abstract = related_text l0 abstracts uri;
              overview = related_text l1 overviews uri;
            })
            uris)
    ]
  ]

  unfoldable pub get_relations_with_content :
      String → Bool → Bool → World → Result (List (RelatedItem Text))
  unfolding get_relations read_batch
  get_relations_with_content uri l0 l1 w =
      related l0 l1 (get_relations uri w) (λ uris. contents l0 uris "l0" w)
        (λ uris. contents l1 uris "l1" w)
