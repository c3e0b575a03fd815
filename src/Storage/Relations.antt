-- ===== src/Storage/Relations.antt =====
-- What linking and unlinking make of the relations of a uri.
use mathlib.Core.Path.{subst}
use mathlib.Core.List.{append-nil}
use open_cortex.Base.{
  arith, ◌≡◌, refl, sym, ap, ◌∙◌, String, false, Option, none, some, List, [], ◌∷◌, ◌++◌, string_eq,
}
use open_cortex.Base.Lists.{contains}
use open_cortex.Base.Json.{Python}
use open_cortex.Worker.Failure.{Result, ok, err}
use open_cortex.Forget.{continue, ◌>>=◌}
use open_cortex.Storage.Defs.{
  RelationEntry, Files, file_in, uri_relative_path, with_path, at_path, free_id, ids_of, targets_of,
  remove_first, unlinked, link_ids,
}
use open_cortex.Storage.Table.{
  get_relation_table, write_relation_table, table_of, link, link_to, with_id, linked_entry, unlink,
  unlink_from, rewritten, get_relations, targets_result,
}
use open_cortex.Storage.Targets.{
  targets_of-append, remove_first_absent, remove_first_self, remove_first_right, Removed,
  unlinked-Removed, IsNew, free_id-IsNew,
}

-- What is documented of the json module, and of a text file to which a dump is written: a dump has no
-- carriage returns, so that it is read as it was written.
pub record IsFiles {World Text : Type 0} (files : Files World Text) : Type 0 where
  pub load-dump : (es : List RelationEntry) → files.load (files.dump es) ≡ ok (some es)
  pub dump-ne : (es : List RelationEntry) → files.is_empty (files.dump es) ≡ false
  pub read-write :
      (path : String) (es : List RelationEntry) (w : World)
      → (files.write_text path (files.dump es) w).0 ≡ ok tt
      → files.read_text path (files.write_text path (files.dump es) w).1 ≡ ok (files.dump es)

module _ {World Text : Type 0} (py : Python) (files : Files World Text)
    (lawful : IsFiles files) where
  -- A table that is written is the table that is read.
  table-write :
      (uri : String) (es : List RelationEntry) (w : World)
      → (write_relation_table py files uri es w).0 ≡ ok tt
      → get_relation_table py files uri (write_relation_table py files uri es w).1 ≡ ok es
  unfolding write_relation_table get_relation_table
  table-write uri es w h = written (uri_relative_path py uri) h
    where
      saved :
          (path : String) (r : Result (Unit {0})) (v : World)
          → let after =
              continue
                (λ u. files.write_text (file_in path ".relations.json") (files.dump es))
                r
                v in
            after.0 ≡ ok tt
            → table_of py files (files.read_text (file_in path ".relations.json") after.1) ≡ ok es
      saved path (err e) v k = ground arith
      saved path (ok u) v k =
          rw
            (
              lawful.read-write (file_in path ".relations.json") es v k,
              lawful.dump-ne es,
              lawful.load-dump es,
            )
            refl

      written :
          (r : Result String)
          → let after =
              at_path
                (λ path. files.mkdir path >>= λ u.
                  files.write_text (file_in path ".relations.json") (files.dump es))
                r
                w in
            after.0 ≡ ok tt
            → table_of py files
                (with_path (λ path. files.read_text (file_in path ".relations.json") after.1) r)
              ≡ ok es
      written (err e) k = ground arith
      written (ok path) k = saved path (files.mkdir path w).0 (files.mkdir path w).1 k

  -- The table after a link that returns: a new entry at its end, with an id of its own.
  abbrev pub Linked : String → List RelationEntry → List String → String → String → World → Type 0
  Linked uri entries uris reason now w =
      (id : String) × (get_relation_table py files uri w
        ≡ ok (entries ++ linked_entry id uris reason now ∷ []))
      × (contains id (ids_of entries) ≡ false)

  link-Linked :
      (uri : String) (uris : List String) (reason now : String) (w : World)
      (entries : List RelationEntry)
      → get_relation_table py files uri w ≡ ok entries
      → (link py files uri uris reason now w).0 ≡ ok tt
      → Linked uri entries uris reason now (link py files uri uris reason now w).1
  unfolding link
  link-Linked uri uris reason now w entries e h =
      subst
        (λ r.
          (link_to py files uri uris reason now r w).0 ≡ ok tt
          → Linked uri entries uris reason now (link_to py files uri uris reason now r w).1)
        (sym e)
        (added (free_id py link_ids 1 (ids_of entries))
          (free_id-IsNew py link_ids 1 (ids_of entries)))
        h
    where
      added :
          (o : Option String)
          → IsNew (ids_of entries) o
          → (with_id py files uri entries uris reason now o w).0 ≡ ok tt
          → Linked uri entries uris reason now (with_id py files uri entries uris reason now o w).1
      added none n k = ground arith
      added (some id) n k = (id, table-write uri _ w k, n)

  -- The relations after an unlink that returns lack the first target that is the uri.
  unlink-removes :
      (uri target : String) (w : World) (entries : List RelationEntry)
      → get_relation_table py files uri w ≡ ok entries
      → (unlink py files uri target w).0 ≡ ok tt
      → get_relations py files uri (unlink py files uri target w).1
        ≡ ok (remove_first target (targets_of entries))
  unfolding unlink get_relations
  unlink-removes uri target w entries e h =
      subst
        (λ r.
          (unlink_from py files uri target r w).0 ≡ ok tt
          → get_relations py files uri (unlink_from py files uri target r w).1
            ≡ ok (remove_first target (targets_of entries)))
        (sym e) (changed (unlinked target entries) (unlinked-Removed target entries)) h
    where
      changed :
          (o : Option (List RelationEntry))
          → Removed target (targets_of entries) o
          → (rewritten py files uri o w).0 ≡ ok tt
          → targets_result py files (get_relation_table py files uri (rewritten py files uri o w).1)
            ≡ ok (remove_first target (targets_of entries))
      changed none r k =
          ap (targets_result py files) e
          ∙ ap ok (sym (remove_first_absent target (targets_of entries) r))
      changed (some es) r k = ap (targets_result py files) (table-write uri es w k) ∙ ap ok r.0

  -- Where files hold what is written and the json module reads back the tables that it writes, the
  -- relations after a link of one uri that was not related are those before and then it, and an unlink
  -- of it gives back those before, if both calls return.
  pub unlink-link :
      (uri target reason now : String) (w : World) (entries : List RelationEntry)
      → get_relation_table py files uri w ≡ ok entries
      → contains target (targets_of entries) ≡ false
      → (link py files uri (target ∷ []) reason now w).0 ≡ ok tt
      → (unlink py files uri target (link py files uri (target ∷ []) reason now w).1).0 ≡ ok tt
      → let w' = (link py files uri (target ∷ []) reason now w).1 in
        (get_relations py files uri w' ≡ ok (targets_of entries ++ target ∷ []))
        × (get_relations py files uri (unlink py files uri target w').1 ≡ ok (targets_of entries))
  unfolding get_relations targets_of
  unlink-link uri target reason now w entries e absent h k =
      let w' = (link py files uri (target ∷ []) reason now w).1 in
      let linked = link-Linked uri (target ∷ []) reason now w entries e h in
      let entry = linked_entry linked.0 (target ∷ []) reason now in
      let all = targets_of-append entries (entry ∷ []) in
      (
        ap (targets_result py files) linked.1 ∙ ap ok all,
        unlink-removes uri target w' (entries ++ entry ∷ []) linked.1 k
            ∙ ap ok (
                ap (remove_first target) all
                ∙ remove_first_right target (targets_of entries) (target ∷ []) absent
                ∙ ap (λ t. targets_of entries ++ t) (remove_first_self target)
                ∙ append-nil (targets_of entries)),
      )
