-- ===== src/Storage/Tests.antt =====
-- Files that hold tables, and the relations of a uri there.

use open_cortex.Base.{
  Option, none, some, ap, arith, eq_iff, ◌≡◌, refl, String, true, false, none, some, List, [], ◌∷◌,
  string_eq,
}
use open_cortex.Base.Dict
use open_cortex.Base.Dict.{Dict}
use open_cortex.Base.Plain.{plain}
use open_cortex.Worker.Failure.{Result, PyError, other, ok, err}
use open_cortex.Forget.{return}
use open_cortex.Storage.Defs.{targets_of, link_ids, RelationEntry, Files, uri_relative_path}
use open_cortex.Storage.Table.{get_relations, link, unlink, linked_entry}
use open_cortex.Storage.Relations.{IsFiles, unlink-link}

abbrev missing : PyError
missing = record { class = other; class_name = "FileNotFoundError"; text = "" }

abbrev or_missing : Option (List RelationEntry) → Result (List RelationEntry)
or_missing none = err missing
or_missing (some t) = ok t

-- The world is the dict of the files, and a text is the table in it.
abbrev disk : Files (Dict String (List RelationEntry)) (List RelationEntry)
disk = record {
  read_text = λ path w. or_missing (Dict.get path w);
  write_text = λ path t w. (ok tt, Dict.set path t w);
  mkdir = λ path. return tt;
  load = λ t. ok (some t);
  dump = λ es. es;
  empty = [];
  is_empty = λ t. false;
  is_os_error = λ e. true;
}

get-set_self :
    (path : String) (t : List RelationEntry) (w : Dict String (List RelationEntry))
    → Dict.get path (Dict.set path t w) ≡ some t
get-set_self path t w = ground (arith, Dict.get-set path path t w, eq_iff path path)

disk-IsFiles : IsFiles disk
disk-IsFiles = record {
  load-dump = λ es. refl;
  dump-ne = λ es. refl;
  read-write = λ path t w h. ap or_missing (get-set_self path t w);
}

abbrev home : Dict String (List RelationEntry)
home = ("a/.relations.json", linked_entry "link_1" ("b" ∷ "c" ∷ []) "" "t" ∷ []) ∷ []

path_of_uri : uri_relative_path plain "opencortex:/a" ≡ ok "a"
unfolding uri_relative_path
path_of_uri = refl

unlink-link_example :
    let w' = (link plain disk "a" ("d" ∷ []) "seen" "now" home).1 in
    (get_relations plain disk "a" w' ≡ ok ("b" ∷ "c" ∷ "d" ∷ []))
    × (get_relations plain disk "a" (unlink plain disk "a" "d" w').1 ≡ ok ("b" ∷ "c" ∷ []))
unfolding link unlink targets_of link_ids Dict.get Dict.set
unlink-link_example =
    unlink-link plain disk disk-IsFiles "a" "d" "seen" "now" home
      (linked_entry "link_1" ("b" ∷ "c" ∷ []) "" "t" ∷ []) refl refl refl refl
