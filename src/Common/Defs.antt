-- ===== src/Common/Defs.antt =====
-- The functions of src/opencortex/store/common.py.
use Prim.Native.String.{count as char_count}
use open_cortex.Base.{
  ℕ, ◌+◌, zero, suc, String, Bool, not, ◌&&◌, ◌||◌, Option, none, some, List, [], ◌∷◌, ◌++◌, map,
  if◌then◌else◌, ◌==◌, string_eq, nat_eq, ltb,
}
use open_cortex.Base.Lists.{contains, filter, length}
use open_cortex.Base.Json.{
  Json, null, bool, num, number, str, arr, obj, Meta, items, keys, truthy, at, Python, join,
}

-- `list(value)`, and `[value]` of a text: what a loop over a group visits.
abbrev pub group_values : Json → Option (List Json)
group_values (str s) = some (str s ∷ [])
group_values (arr xs) = some (items xs)
group_values (obj d) = some (keys d)
group_values _ = none

pub record Anchor : Type 0 where
  pub anchor_type : String
  pub value : String
  pub text : String

-- The dict that `build_abstract_json` returns; `fact_points` is absent at first.
pub record AbstractJson : Type 0 where
  pub uri : String
  pub context_type : String
  pub category : String
  pub abstract : String
  pub overview : String
  pub content : String
  pub entities : List String
  pub keywords : List String
  pub metadata : Meta
  pub parent_uri : String
  pub session_id : String
  pub memory_kind : String
  pub anchors : List Anchor
  pub fact_points : Option (List String)

pub record ObjectPayload : Type 0 where
  pub memory_kind : String
  pub anchor_hits : List String
  pub merge_signature : String
  pub mergeable : Bool
  pub retrieval_surface : String
  pub anchor_surface : Bool

abbrev pub kinds : List String
kinds = "semantic" ∷ "episodic" ∷ "procedural" ∷ []

-- `xs.index(x)` from an index on, `none` where it is not a member.
unfoldable pub index_of : String → ℕ → List String → Option ℕ
index_of x i [] = none
index_of x i (y ∷ ys) = if y == x then some i else index_of x (i + 1) ys

unfoldable pub get_elem? : {A : Type 0} → List A → ℕ → Option A
get_elem? [] i = none
get_elem? (x ∷ xs) zero = some x
get_elem? (x ∷ xs) (suc i) = get_elem? xs i

-- The loop over the parents, in the order of the source.
unfoldable pub category_after : List String → List String → String
unfolding index_of get_elem?
category_after parts [] = ""
category_after parts (parent ∷ parents) =
    let rest = category_after parts parents in
    elim (index_of parent 0 parts) [
      | none ↦ rest
      | some i ↦
          if parent == "cases" || parent == "patterns"
          then parent
          else if parent == "resources"
          then elim (get_elem? parts (i + 2)) [
            | none ↦ rest
            | some candidate ↦ if char_count candidate == 12 then rest else candidate
          ]
          else elim (get_elem? parts (i + 1)) [ none ↦ rest | some c ↦ c ]
    ]

abbrev pub category_parents : List String
category_parents = "memories" ∷ "cases" ∷ "patterns" ∷ "skills" ∷ "staging" ∷ "resources" ∷ []

module _ (py : Python) where
  -- The body of the loop over the values of a group.
  unfoldable pub merge_value : Json → List String → List String
  merge_value value merged =
      let normalized = py.strip (py.show value) in
      if normalized == "" || contains normalized merged then merged else merged ++ normalized ∷ []

  unfoldable pub merge_values : List Json → List String → List String
  unfolding merge_value
  merge_values [] merged = merged
  merge_values (v ∷ vs) merged = merge_values vs (merge_value v merged)

  unfoldable pub merge_groups : List Json → List String → Option (List String)
  unfolding merge_values
  merge_groups [] merged = some merged
  merge_groups (g ∷ gs) merged =
      if truthy g
      then elim (group_values g) [
        | none ↦ none
        | some vs ↦ merge_groups gs (merge_values vs merged)
      ]
      else merge_groups gs merged

  unfoldable pub merge_unique_strings : List Json → Option (List String)
  unfolding merge_groups
  merge_unique_strings groups = merge_groups groups []

  unfoldable pub split_keyword_string : String → List String
  split_keyword_string raw =
      if raw == ""
      then []
      else map py.strip (filter (λ t. not (t == "") && not (py.strip t == "")) (py.split raw ","))

  unfoldable pub memory_kind_for_record : String → String
  memory_kind_for_record category =
      if contains (py.strip category) kinds then py.strip category else "semantic"

  unfoldable pub anchors_of : String → List String → List Anchor
  anchors_of kind [] = []
  anchors_of kind (x ∷ xs) =
      let rest = anchors_of kind xs in
      let value = py.strip x in
      if value == ""
      then rest
      else record { anchor_type = kind; value = value; text = value } ∷ rest

  unfoldable pub anchors_from_record : List String → List String → List Anchor
  unfolding anchors_of
  anchors_from_record entities keywords =
      anchors_of "entity" entities ++ anchors_of "topic" keywords

  -- The loop over the anchor handles; `existing` are the lowered values of the anchors.
  unfoldable pub add_handles : List Json → List String → List Anchor → List Anchor
  add_handles [] existing anchors = anchors
  add_handles (str handle ∷ hs) existing anchors =
      let normalized = py.strip handle in
      let rest = add_handles hs existing anchors in
      let added = add_handles hs (py.lower normalized ∷ existing) (
        anchors ++ record { anchor_type = "handle"; value = normalized; text = normalized } ∷ []) in
      if normalized == "" || contains (py.lower normalized) existing then rest else added
  add_handles (null ∷ hs) existing anchors = add_handles hs existing anchors
  add_handles (bool b ∷ hs) existing anchors = add_handles hs existing anchors
  add_handles (num n ∷ hs) existing anchors = add_handles hs existing anchors
  add_handles (number t ∷ hs) existing anchors = add_handles hs existing anchors
  add_handles (arr xs ∷ hs) existing anchors = add_handles hs existing anchors
  add_handles (obj d ∷ hs) existing anchors = add_handles hs existing anchors

  -- What the loop over the handles visits.
  abbrev pub handle_values : Json → Option (List Json)
  handle_values (str s) = some (map str (py.chars s))
  handle_values (arr xs) = some (items xs)
  handle_values (obj d) = some (keys d)
  handle_values _ = none

  unfoldable pub build_abstract_json :
      String
      → String
      → String
      → String
      → String
      → String
      → List String
      → Meta
      → List String
      → String
      → String
      → Option AbstractJson
  unfolding anchors_from_record add_handles memory_kind_for_record
  build_abstract_json uri context_type category abstract overview content entities meta keywords
        parent_uri session_id =
      let found = anchors_from_record entities keywords in
      let result : AbstractJson = record {
        uri = uri;
        context_type = context_type;
        category = category;
        abstract = abstract;
        overview = overview;
        content = content;
        entities = entities;
        keywords = keywords;
        metadata = meta;
        parent_uri = parent_uri;
        session_id = session_id;
        memory_kind = memory_kind_for_record category;
        anchors = found;
        fact_points = none;
      } in
      if truthy (at "anchor_handles" meta)
      then elim (handle_values (at "anchor_handles" meta)) [
        | none ↦ none
        | some handles ↦ some (record result {
          anchors = add_handles handles (map (λ (a : Anchor). py.lower a.value) found) found;
        })
      ]
      else some result

  unfoldable pub merge_signature_from_abstract : AbstractJson → String
  unfolding join
  merge_signature_from_abstract a =
      join "|" (a.memory_kind ∷ a.category ∷ py.lower (py.strip a.abstract) ∷ [])

  unfoldable pub memory_object_payload : AbstractJson → Bool → ObjectPayload
  unfolding merge_signature_from_abstract
  memory_object_payload a is_leaf =
      let kind = if a.memory_kind == "" then "semantic" else a.memory_kind in
      let hits =
        map (λ (x : Anchor). x.value)
          (filter (λ (x : Anchor). not (py.strip x.value == "")) a.anchors) in
      record {
        memory_kind = kind;
        anchor_hits = hits;
        merge_signature = merge_signature_from_abstract a;
        mergeable = not (kind == "episodic");
        retrieval_surface = if is_leaf then "l0_object" else "";
        anchor_surface = is_leaf && ltb 0 (length hits);
      }

  unfoldable pub extract_category_from_uri : String → String
  unfolding category_after
  extract_category_from_uri uri = category_after (py.split uri "/") category_parents
