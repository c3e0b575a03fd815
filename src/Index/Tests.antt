-- ===== src/Index/Tests.antt =====
-- An event with anchors and facts, a tree of three nodes, and a store that collects points.
use mathlib.Core.Path.{subst}
use open_cortex.Base.{
  ◌≡◌, ◌≤◌, ap, refl, String, true, Option, List, [], ◌∷◌, ◌++◌, map, none, some, if◌then◌else◌,
  ◌==◌, string_eq, arith,
}
use open_cortex.Base.Lists.{All, All-append, length, length-map}
use open_cortex.Base.Dict
use open_cortex.Base.Plain.{plain}
use open_cortex.Base.Json.{Meta, str, bool, arr, obj, to_items, to_fields, texts}
use open_cortex.Worker.Failure.{ok}
use open_cortex.Worker.Events.{IdentityProfile}
use open_cortex.Records.Events.{MemoryEvent, memory_stored}
use open_cortex.Facts.Defs.{Patterns, is_in, sorted_answerable_facts}
use open_cortex.Forget.{Call, return}
use open_cortex.Index.Payload.{primary_record, record_abstract_json, list_at}
use open_cortex.Index.Points.{Embedding, Point}
use open_cortex.Index.Search.{anchor_indexes, fact_indexes}
use open_cortex.Index.Keeping.{Chosen, fact_indexes-Chosen}
use open_cortex.Index.Writing.{search_write, entity_write}
use open_cortex.Index.Tree.{tree_node, TreeNodes, leaf, grow, tree_records, max_nodes}
use open_cortex.Index.Building.{TreeBuilding, build_write}
use open_cortex.Index.Linking.{Linked, tree_records-Linked}
use open_cortex.Index.Armed.{HasVector}
use open_cortex.Index.Projection.{projection_write}
use open_cortex.Index.Vectors.{Gives, Keeps}
use open_cortex.Index.Kept.{writers-kept}

abbrev patterns : Patterns
patterns = record {
  without_role = λ s. s;
  dates = λ s. if is_in "2024" s then "2024" ∷ [] else [];
  numbers = λ s. [];
  paths = λ s. [];
  names = λ s. [];
  sentences = λ s. s ∷ [];
  words = λ s. s ∷ [];
  casefold = λ s. if s == "ANN" then "Ann" else s;
  rstrip = λ s. s;
}

abbrev owner : IdentityProfile
owner = record {
  tenant_id = "acme";
  user_id = "ann";
  project_id = "demo";
  session_id = "s1";
  collection = "main";
}

abbrev points : Meta
points = ("fact_points", texts ("Ann came in 2024" ∷ "Bob left" ∷ "Ann came in 2024" ∷ [])) ∷ []

abbrev note : Meta
note =
    ("id", str "n1")
    ∷ ("uri", str "opencortex://acme/n1")
    ∷ ("retrieval_ready", bool true)
    ∷ ("is_leaf", bool true)
    ∷ ("context_type", str "resource")
    ∷ ("content", str "Ann came in 2024")
    ∷ ("entities", texts ("Ann" ∷ "ANN" ∷ "" ∷ "Bob" ∷ []))
    ∷ ("abstract_json", obj (to_fields points))
    ∷ []

abbrev stored : MemoryEvent
stored = memory_stored (record {
  profile = owner;
  uri = "opencortex://acme/n1";
  record_id = "n1";
  context_type = "resource";
  category = "";
  layer = "";
  content = "Ann came in 2024";
  record_data = note;
})

two_anchors : map (λ a. a.text) (anchor_indexes plain patterns stored) ≡ "Ann" ∷ "Bob" ∷ []
unfolding anchor_indexes Dict.get
two_anchors = refl

one_fact : fact_indexes plain patterns stored ≡ "Ann came in 2024" ∷ []
unfolding fact_indexes is_in Dict.get
one_fact = refl

abbrev branch : TreeNodes
branch =
    grow (tree_node "A" "a" [] [] (grow (tree_node "" "b" [] [] leaf) leaf))
      (grow (tree_node "C" "c" [] [] leaf) leaf)

three_nodes :
    map {B = String × String} (λ r. (r.uri, r.parent_uri)) (tree_records plain (λ s. s) "r/" branch)
    ≡ ("r/reason_tree/v-A", "r/")
      ∷ ("r/reason_tree/v-v-b", "r/reason_tree/v-A")
      ∷ ("r/reason_tree/v-C", "r/")
      ∷ []
unfolding tree_records
three_nodes = refl

abbrev one_text : String → Embedding String
one_text x = record { dense_vector = some x; sparse_vector = none }

abbrev each_text : List String → Call (List (Point String)) (List (Embedding String))
each_text xs = return (map one_text xs)

-- The world is the list of the points stored so far, and the vector of a text is the text.
abbrev collecting : TreeBuilding (List (Point String)) String
collecting = record {
  build = λ e rec content. return (record { abstract = "a"; overview = "o"; nodes = branch });
  indexing = record {
    embed_batch = some each_text;
    upsert_many = none;
    upsert = λ p w. (ok tt, w ++ p ∷ []);
    make = λ class fields. ok fields;
  };
}

abbrev vectors_of : List (Point String) → List (Option String)
vectors_of ps = map (λ p. p.vector) ps

three_points :
    vectors_of (search_write plain patterns (λ s. s) (λ vs. []) collecting.indexing stored []).1
    ≡ some "Ann" ∷ some "Bob" ∷ some "Ann came in 2024" ∷ []
unfolding search_write is_in Dict.get
three_points = refl

tree_points :
    vectors_of (build_write plain (λ s. s) (λ vs. []) collecting stored []).1
    ≡ some "a" ∷ some "b" ∷ some "c" ∷ []
unfolding build_write Dict.get
tree_points = refl

fact_indexes-Chosen_example :
    Chosen plain patterns
      (sorted_answerable_facts plain patterns
        (arr (to_items (list_at "fact_points" (record_abstract_json (primary_record stored)))))
        none)
      (fact_indexes plain patterns stored)
fact_indexes-Chosen_example = fact_indexes-Chosen plain patterns stored

tree_records-Linked_example :
    Linked ("r/" ∷ []) (tree_records plain (λ s. s) "r/" branch)
    × (length (tree_records plain (λ s. s) "r/" branch) ≤ max_nodes)
tree_records-Linked_example = tree_records-Linked plain (λ s. s) "r/" branch

some_inj : {A : Type 0} (d : A) {a b : A} → some a ≡ some b → a ≡ b
some_inj d e = ap (λ o. elim o [ none ↦ d | some x ↦ x ]) e

none-ne-some : {A : Type 0} {a : A} → none ≡ some a → ⊥
none-ne-some e = cc

collecting-Keeps : Keeps (All HasVector) collecting.indexing
collecting-Keeps = record {
  embed_keeps = λ embed e xs w k.
      subst (λ f. Gives (All HasVector) (λ es. length xs ≤ length es) (f xs w).0 (f xs w).1)
        (some_inj each_text e) (k, omega (arith, length-map one_text xs));
  many_keeps = λ many e. absurd (none-ne-some e);
  upsert_keeps = λ p w h k. All-append HasVector w (p ∷ []) k (h, tt);
}

abbrev embed_text : Option (String → Call (List (Point String)) (Embedding String))
embed_text = some (λ t. return (one_text t))

projected_point :
    vectors_of
      (projection_write plain (λ s. s) (λ vs. []) collecting.indexing embed_text stored []).1
    ≡ some "Ann came in 2024" ∷ []
unfolding projection_write Dict.get
projected_point = refl

writers-kept_example :
    All HasVector (search_write plain patterns (λ s. s) (λ vs. []) collecting.indexing stored []).1
    × All HasVector
        (entity_write plain patterns (λ s. s) (λ vs. []) collecting.indexing stored []).1
    × All HasVector (build_write plain (λ s. s) (λ vs. []) collecting stored []).1
    × All HasVector
        (projection_write plain (λ s. s) (λ vs. []) collecting.indexing embed_text stored []).1
writers-kept_example =
    writers-kept (All HasVector) collecting collecting-Keeps embed_text
      (λ f e t w k. subst (λ f. All HasVector (f t w).1) (some_inj (λ t. return (one_text t)) e) k)
      plain patterns (λ s. s) (λ vs. []) stored [] (λ rec content w k. k) tt
