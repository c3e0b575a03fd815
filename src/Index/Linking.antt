-- ===== src/Index/Linking.antt =====
-- The parents of the kept nodes of a tree.
use open_cortex.Base.{
  arith, sym, ◌≤◌, ℕ, zero, suc, ◌+◌, ◌≡◌, String, true, List, [], ◌∷◌, ◌++◌, string_eq, eq_iff,
}
use open_cortex.Base.Lists.{length, length-map, take, length-take-le, contains}
use open_cortex.Base.Json.{Python, num}
use open_cortex.Index.Tree.{
  tree_node, TreeNodes, leaf, grow, TreeNodeIndexRecord, node_uri, tree_record, flatten_nodes,
  tree_records, max_nodes,
}

-- The parent of each record is a uri that was seen, or an earlier record; its level is the length of
-- its path, and its path is not empty.
abbrev pub Linked : List String → List TreeNodeIndexRecord → Type 0
Linked seen [] = Unit
Linked seen (r ∷ rs) =
    (contains r.parent_uri seen ≡ true)
    × (r.level ≡ length r.path_segments)
    × Linked (r.uri ∷ seen) rs

abbrev Within : List String → List String → Type 0
Within seen seen' = (u : String) → contains u seen ≡ true → contains u seen' ≡ true

Linked-Within :
    (seen seen' : List String) (rs : List TreeNodeIndexRecord)
    → Within seen seen'
    → Linked seen rs
    → Linked seen' rs
Linked-Within seen seen' [] w h = tt
Linked-Within seen seen' (r ∷ rs) w h = (
  w r.parent_uri h.0,
  h.1,
  Linked-Within (r.uri ∷ seen) (r.uri ∷ seen') rs (λ u m. ground (arith, w u)) h.2,
)

Linked-append :
    (seen : List String) (rs rs' : List TreeNodeIndexRecord)
    → Linked seen rs
    → Linked seen rs'
    → Linked seen (rs ++ rs')
Linked-append seen [] rs' h k = k
Linked-append seen (r ∷ rs) rs' h k = (
  h.0,
  h.1,
  Linked-append (r.uri ∷ seen) rs rs' h.2
      (Linked-Within seen (r.uri ∷ seen) rs' (λ u m. ground arith) k),
)

Linked-take :
    (n : ℕ) (seen : List String) (rs : List TreeNodeIndexRecord)
    → Linked seen rs
    → Linked seen (take n rs)
Linked-take zero seen rs h = tt
Linked-take (suc n) seen [] h = tt
Linked-take (suc n) seen (r ∷ rs) h = (h.0, h.1, Linked-take n (r.uri ∷ seen) rs h.2)

module _ (py : Python) (sha1 : String → String) where
  flatten-Linked :
      (root_uri : String) (nodes : TreeNodes) (parent : String) (path : List ℕ) (index : ℕ)
      (seen : List String)
      → contains parent seen ≡ true
      → Linked seen (flatten_nodes py sha1 root_uri nodes parent path index)
  unfolding flatten_nodes tree_record
  flatten-Linked root_uri leaf parent path index seen h = tt
  flatten-Linked root_uri (grow (tree_node title summary facts refs children) nodes) parent path
        index seen h =
      let here = path ++ index ∷ [] in
      let uri = node_uri py sha1 root_uri here (tree_node title summary facts refs children) in
      (
        h,
        sym (length-map (λ n. py.show (num n)) here),
        Linked-append (uri ∷ seen) _ _
            (flatten-Linked root_uri children uri here 1 (uri ∷ seen)
              (ground (arith, eq_iff uri uri)))
            (flatten-Linked root_uri nodes parent path (index + 1) (uri ∷ seen) (ground arith)),
      )

  -- The kept records of a tree are at most 32; the parent of each is the record itself or a kept node
  -- before it, and its level is the length of its path.
  pub tree_records-Linked :
      (uri : String) (nodes : TreeNodes)
      → Linked (uri ∷ []) (tree_records py sha1 uri nodes)
        × (length (tree_records py sha1 uri nodes) ≤ max_nodes)
  unfolding tree_records
  tree_records-Linked uri nodes = (
    Linked-take max_nodes (uri ∷ []) _
        (flatten-Linked uri nodes uri [] 1 (uri ∷ []) (ground (arith, eq_iff uri uri))),
    length-take-le max_nodes _,
  )
