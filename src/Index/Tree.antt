-- ===== src/Index/Tree.antt =====
-- The tree of a record, flattened into index records: `ReasonTreeBuildWriter`.
use Prim.Native.String.{◌++◌ as ◌<>◌}
use open_cortex.Base.{
  ℕ, ◌+◌, String, Bool, false, not, ◌||◌, ◌&&◌, List, [], ◌∷◌, ◌++◌, map, if◌then◌else◌, ◌==◌,
  string_eq,
}
use open_cortex.Base.Lists.{length, take, contains}
use open_cortex.Base.Json.{num, truthy, text_at, at, Meta, Python, join}
use open_cortex.Base.Chars.{rstrip_slashes}
use open_cortex.Index.Payload.{digest, dict_at}
use open_cortex.Index.Writing.{is_empty_record}

-- Title, summary, fact points, source references and children.
mutual
  pub data ReasonTreeNode : Type 0 where
    tree_node : String → String → List String → List String → TreeNodes → ReasonTreeNode

  pub data TreeNodes : Type 0 where
    leaf : TreeNodes
    grow : ReasonTreeNode → TreeNodes → TreeNodes

pub record ReasonTreeOutput : Type 0 where
  pub abstract : String
  pub overview : String
  pub nodes : TreeNodes

pub record TreeNodeIndexRecord : Type 0 where
  pub node : ReasonTreeNode
  pub uri : String
  pub parent_uri : String
  pub level : ℕ
  pub path_segments : List String

unfoldable pub max_nodes : ℕ
max_nodes = 32

-- The records that get an enhanced tree.
unfoldable pub should_build : Python → Meta → Bool
unfolding is_empty_record
should_build py rec =
    let meta = dict_at "meta" rec in
    let chunk_role = text_at py "chunk_role" meta in
    if is_empty_record rec || not (truthy (at "retrieval_ready" rec))
    then false
    else if text_at py "context_type" rec == "resource"
    then contains chunk_role ("" ∷ "resource" ∷ "document_root" ∷ [])
    else text_at py "layer" meta == "session_final" && contains chunk_role ("" ∷ "final" ∷ [])

unfoldable pub reason_role : Python → Meta → String
reason_role py rec =
    if text_at py "context_type" rec == "resource"
    then "resource_tree_node"
    else "session_tree_node"

module _ (py : Python) (sha1 : String → String) where
  abbrev pub segments_of : List ℕ → List String
  segments_of path = map (λ n. py.show (num n)) path

  abbrev pub named_by : ReasonTreeNode → String
  named_by (tree_node title summary facts refs children) = if title == "" then summary else title

  unfoldable pub node_key : List ℕ → ReasonTreeNode → String
  unfolding digest join
  node_key path node = join "-" (segments_of path) <> ("-" <> digest py sha1 (named_by node))

  unfoldable pub node_uri : String → List ℕ → ReasonTreeNode → String
  unfolding node_key rstrip_slashes
  node_uri root_uri path node = rstrip_slashes root_uri <> ("/reason_tree/" <> node_key path node)

  unfoldable pub tree_record : String → String → List ℕ → ReasonTreeNode → TreeNodeIndexRecord
  unfolding node_uri
  tree_record root_uri parent_uri path node = record {
    node = node;
    uri = node_uri root_uri path node;
    parent_uri = parent_uri;
    level = length path;
    path_segments = segments_of path;
  }

  -- The nodes from an index on, each before its children.
  unfoldable pub flatten_nodes : String → TreeNodes → String → List ℕ → ℕ → List TreeNodeIndexRecord
  unfolding tree_record
  flatten_nodes root_uri leaf parent_uri path index = []
  flatten_nodes root_uri (grow (tree_node title summary facts refs children) nodes) parent_uri path
        index =
      let node = tree_node title summary facts refs children in
      let here = path ++ index ∷ [] in
      tree_record root_uri parent_uri here node
        ∷ flatten_nodes root_uri children (node_uri root_uri here node) here 1
      ++ flatten_nodes root_uri nodes parent_uri path (index + 1)

  unfoldable pub tree_records : String → TreeNodes → List TreeNodeIndexRecord
  unfolding flatten_nodes max_nodes
  tree_records uri nodes = take max_nodes (flatten_nodes uri nodes uri [] 1)
