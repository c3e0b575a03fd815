-- ===== src/Storage/Defs.antt =====
-- The paths, the files and the relation tables of `CortexStorage`.
use Prim.Native.String.{◌++◌ as ◌<>◌, len, slice}
use text.Mathlib.Text.{starts_with}
use open_cortex.Base.{
  ℕ, zero, suc, ◌+◌, String, Bool, Option, none, some, List, [], ◌∷◌, ◌++◌, map, if◌then◌else◌,
  ◌==◌, string_eq,
}
use open_cortex.Base.Chars.{rstrip_slashes}
use open_cortex.Base.Lists.{any, contains}
use open_cortex.Base.Json.{Python, num, join}
use open_cortex.Namespace.{named}
use open_cortex.Worker.Failure.{PyError, value, other, Result, ok, err}
use open_cortex.Forget.{Call}

pub record RelationEntry : Type 0 where
  pub id : String
  pub targets : List String
  pub reason : String
  pub relation_type : String
  pub event_ts : String
  pub created_at : String

-- The files below the root, which hold texts: reading changes nothing there. `load` is `json.loads` and the entries of
-- the dicts in its list, or `none` for no list; `dump` is `json.dumps`; `is_os_error` tells an OSError.
pub record Files (World Text : Type 0) : Type 0 where
  pub read_text : String → World → Result Text
  pub write_text : String → Text → Call World (Unit {0})
  pub mkdir : String → Call World (Unit {0})
  pub load : Text → Result (Option (List RelationEntry))
  pub dump : List RelationEntry → Text
  pub empty : Text
  pub is_empty : Text → Bool
  pub is_os_error : PyError → Bool

abbrev traversal_error : String → PyError
traversal_error uri = record {
  class = value;
  class_name = "ValueError";
  text = "URI contains parent traversal: " <> uri;
}

abbrev pub no_id_left : PyError
no_id_left = record {
  class = other;
  class_name = "RuntimeError";
  text = "coroutine raised StopIteration";
}

unfoldable pub join_uri : String → String → String
unfolding rstrip_slashes
join_uri base_uri name = rstrip_slashes base_uri <> ("/" <> name)

unfoldable pub relative_path_to_uri : String → String
relative_path_to_uri path = "opencortex://" <> path

-- `Path(node_path) / name`
abbrev pub file_in : String → String → String
file_in node_path name = if node_path == "" then name else node_path <> ("/" <> name)

-- The rest of a uri after its scheme.
unfoldable pub without_scheme : String → String
without_scheme text =
    if starts_with text "opencortex://"
    then slice text (len "opencortex://") (len text)
    else if starts_with text "opencortex:/"
    then slice text (len "opencortex:/") (len text)
    else text

unfoldable pub uri_relative_path : Python → String → Result String
unfolding without_scheme named join
uri_relative_path py uri =
    let parts = named (py.path_parts (py.strip_slashes (without_scheme (py.strip uri)))) in
    if any (λ p. p == "..") parts then err (traversal_error uri) else ok (join "/" parts)

-- What follows a path, if there is one.
abbrev pub with_path : {A : Type 0} → (String → Result A) → Result String → Result A
with_path f (ok path) = f path
with_path f (err e) = err e

abbrev pub at_path : {W A : Type 0} → (String → Call W A) → Result String → Call W A
at_path f (ok path) w = f path w
at_path f (err e) w = (err e, w)

-- `link_{index}` for the first index whose id is free.
unfoldable pub free_id : Python → ℕ → ℕ → List String → Option String
free_id py zero index ids = none
free_id py (suc rounds) index ids =
    let name = "link_" <> py.show (num index) in
    let rest = free_id py rounds (index + 1) ids in if contains name ids then rest else some name

-- The indexes of `range(1, 10000)`.
unfoldable pub link_ids : ℕ
link_ids = 9999

abbrev pub ids_of : List RelationEntry → List String
ids_of entries = map (λ e. e.id) entries

unfoldable pub targets_of : List RelationEntry → List String
targets_of [] = []
targets_of (e ∷ entries) = e.targets ++ targets_of entries

-- `xs.remove(x)`, of a member.
unfoldable pub remove_first : String → List String → List String
remove_first x [] = []
remove_first x (y ∷ ys) = let rest = remove_first x ys in if y == x then ys else y ∷ rest

-- The table with an entry of fewer targets in its place, which has gone when it has none.
unfoldable pub or_gone : RelationEntry → List String → List RelationEntry → List RelationEntry
or_gone e [] entries = entries
or_gone e (t ∷ ts) entries = record e { targets = t ∷ ts } ∷ entries

-- An entry before those that are left.
unfoldable pub after_entry :
    RelationEntry → Option (List RelationEntry) → Option (List RelationEntry)
after_entry e none = none
after_entry e (some es) = some (e ∷ es)

-- `entries.remove(entry)` finds the entry by its id, which no other has. The loop of `unlink`: the first entry that has the target loses it; `none` if no entry has it.
unfoldable pub unlinked : String → List RelationEntry → Option (List RelationEntry)
unfolding remove_first or_gone after_entry
unlinked uri [] = none
unlinked uri (e ∷ entries) =
    let rest = unlinked uri entries in
    if contains uri e.targets
    then some (or_gone e (remove_first uri e.targets) entries)
    else after_entry e rest
