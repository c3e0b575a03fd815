-- ===== src/Index/Keys.antt =====
-- The uris of the nodes of a tree.
use mathlib.Core.List.{append_assoc}
use text.Mathlib.TextLemmas.{append_cancel_left}
use open_cortex.Base.{
  arith, ◌≡◌, ◌≢◌, refl, sym, ap, ◌∙◌, ℕ, ◌+◌, ◌≤◌, String, true, false, List, [], ◌∷◌, ◌++◌, map,
  ◌==◌, string_eq, eq_iff, Bool-cases, inl, inr,
}
use open_cortex.Base.Lists.{All, All-append, contains}
use open_cortex.Base.Sets.{NoRepeats}
use open_cortex.Base.Unique.{take-NoRepeats, map-take}
use open_cortex.Base.Chars.{rstrip_slashes}
use open_cortex.Base.Json.{Python, num}
use open_cortex.Index.Payload.{digest}
use open_cortex.Index.Dashes.{is_dashless, join_inj}
use open_cortex.Index.Tree.{
  ReasonTreeNode, tree_node, TreeNodes, leaf, grow, TreeNodeIndexRecord, segments_of, named_by,
  node_key, node_uri, tree_record, flatten_nodes, tree_records, max_nodes,
}

-- What Python's numerals and hexadecimal digits are: different numbers differ, and none has a dash.
pub record IsKeyed (py : Python) (sha1 : String → String) : Type 0 where
  pub show_inj : (m n : ℕ) → py.show (num m) ≡ py.show (num n) → m ≡ n
  pub show_dashless : (n : ℕ) → is_dashless (py.show (num n)) ≡ true
  pub digest_dashless : (t : String) → is_dashless (digest py sha1 t) ≡ true

All-map {ℓ κ η} :
    {A : Type ℓ} (P : A → Type κ) (Q : A → Type η) (xs : List A)
    → ((x : A) → P x → Q x)
    → All P xs
    → All Q xs
All-map P Q [] f h = tt
All-map P Q (x ∷ xs) f h = (f x h.0, All-map P Q xs f h.1)

list_cancel : (ps xs ys : List ℕ) → ps ++ xs ≡ ps ++ ys → xs ≡ ys
list_cancel [] xs ys h = h
list_cancel (p ∷ ps) xs ys h = list_cancel ps xs ys (ground arith)

head_eq : (m n : ℕ) (p q : List ℕ) → (m ∷ p) ≡ (n ∷ q) → m ≡ n
head_eq m n p q h = ground arith

abbrev pub uris_of : List TreeNodeIndexRecord → List String
uris_of rs = map (λ r. r.uri) rs

absent :
    (u : String) (rs : List TreeNodeIndexRecord)
    → All (λ r. r.uri ≢ u) rs
    → contains u (uris_of rs) ≡ false
absent u [] h = refl
absent u (r ∷ rs) h = elim (Bool-cases (r.uri == u)) [
  | inl e ↦ absurd (h.0 ((eq_iff r.uri u).0 e))
  | inr e ↦ rw e (absent u rs h.1)
]

absent-append :
    (u : String) (rs rs' : List TreeNodeIndexRecord)
    → contains u (uris_of rs) ≡ false
    → contains u (uris_of rs') ≡ false
    → contains u (uris_of (rs ++ rs')) ≡ false
absent-append u [] rs' h k = k
absent-append u (r ∷ rs) rs' h k = ground (arith, absent-append u rs rs')

NoRepeats-append :
    (rs rs' : List TreeNodeIndexRecord)
    → NoRepeats (uris_of rs)
    → NoRepeats (uris_of rs')
    → All (λ r. All (λ r'. r'.uri ≢ r.uri) rs') rs
    → NoRepeats (uris_of (rs ++ rs'))
NoRepeats-append [] rs' u v h = v
NoRepeats-append (r ∷ rs) rs' u v h =
    (absent-append r.uri rs rs' u.0 (absent r.uri rs' h.0), NoRepeats-append rs rs' u.1 v h.1)

module _ (py : Python) (sha1 : String → String) (keyed : IsKeyed py sha1) where
  segments-dashless : (path : List ℕ) → All (λ p. is_dashless p ≡ true) (segments_of py sha1 path)
  segments-dashless [] = tt
  segments-dashless (n ∷ path) = (keyed.show_dashless n, segments-dashless path)

  segments_inj : (p q : List ℕ) → segments_of py sha1 p ≡ segments_of py sha1 q → p ≡ q
  segments_inj [] [] h = refl
  segments_inj [] (n ∷ q) h = ground arith
  segments_inj (m ∷ p) [] h = ground arith
  segments_inj (m ∷ p) (n ∷ q) h = ground (arith, keyed.show_inj m n, segments_inj p q)

  -- A uri determines the path of its node.
  node_uri_path :
      (root_uri : String) (m : ℕ) (p : List ℕ) (n : ℕ) (q : List ℕ) (a b : ReasonTreeNode)
      → node_uri py sha1 root_uri (m ∷ p) a ≡ node_uri py sha1 root_uri (n ∷ q) b
      → (m ∷ p) ≡ (n ∷ q)
  unfolding node_uri node_key
  node_uri_path root_uri m p n q a b h = segments_inj (m ∷ p) (n ∷ q) (
      join_inj (py.show (num m)) (py.show (num n)) (segments_of py sha1 p) (segments_of py sha1 q)
        (digest py sha1 (named_by py sha1 a)) (digest py sha1 (named_by py sha1 b))
        (segments-dashless (m ∷ p)) (segments-dashless (n ∷ q))
        (keyed.digest_dashless (named_by py sha1 a)) (keyed.digest_dashless (named_by py sha1 b))
        (append_cancel_left "/reason_tree/" _ _
          (append_cancel_left (rstrip_slashes root_uri) _ _ h)))

  -- A node whose path goes on from this one, at a child of this index or at a later one.
  abbrev At : String → List ℕ → ℕ → TreeNodeIndexRecord → Type 0
  At root_uri path k r =
      (more : List ℕ) × (node : ReasonTreeNode) × (r.uri
        ≡ node_uri py sha1 root_uri (path ++ k ∷ more) node)

  abbrev From : String → List ℕ → ℕ → TreeNodeIndexRecord → Type 0
  From root_uri path k r = (j : ℕ) × (k ≤ j) × At root_uri path j r

  same_path :
      (root_uri : String) (path : List ℕ) (m : ℕ) (p : List ℕ) (n : ℕ) (q : List ℕ)
      (a b : ReasonTreeNode)
      → node_uri py sha1 root_uri (path ++ m ∷ p) a ≡ node_uri py sha1 root_uri (path ++ n ∷ q) b
      → (m ∷ p) ≡ (n ∷ q)
  same_path root_uri [] m p n q a b h = node_uri_path root_uri m p n q a b h
  same_path root_uri (k ∷ path) m p n q a b h =
      list_cancel (k ∷ path) (m ∷ p) (n ∷ q)
        (node_uri_path root_uri k (path ++ m ∷ p) k (path ++ n ∷ q) a b h)

  At-From-ne :
      (root_uri : String) (path : List ℕ) (k : ℕ) (r r' : TreeNodeIndexRecord)
      → At root_uri path k r
      → From root_uri path (k + 1) r'
      → r'.uri ≢ r.uri
  At-From-ne root_uri path k r r' a b e =
      let same = same_path root_uri path b.0 b.2.0 k a.0 b.2.1 a.1 (sym b.2.2 ∙ e ∙ a.2) in
      absurd (omega (arith, head_eq b.0 k b.2.0 a.0 same))

  -- The node itself is none of the nodes below it.
  At-below-ne :
      (root_uri : String) (path : List ℕ) (k : ℕ) (node : ReasonTreeNode) (r : TreeNodeIndexRecord)
      → From root_uri (path ++ k ∷ []) 1 r
      → r.uri ≢ node_uri py sha1 root_uri (path ++ k ∷ []) node
  At-below-ne root_uri path k node r b e =
      let below =
        ap (λ p. node_uri py sha1 root_uri p b.2.1) (append_assoc path (k ∷ []) (b.0 ∷ b.2.0)) in
      ground
        (arith, same_path root_uri path k (b.0 ∷ b.2.0) k [] b.2.1 node (sym below ∙ sym b.2.2 ∙ e))

  child-At :
      (root_uri : String) (path : List ℕ) (k : ℕ) (r : TreeNodeIndexRecord)
      → From root_uri (path ++ k ∷ []) 1 r
      → At root_uri path k r
  child-At root_uri path k r b = (
    b.0 ∷ b.2.0,
    b.2.1,
    b.2.2 ∙ ap (λ p. node_uri py sha1 root_uri p b.2.1) (append_assoc path (k ∷ []) (b.0 ∷ b.2.0)),
  )

  flatten-From :
      (root_uri : String) (nodes : TreeNodes) (parent : String) (path : List ℕ) (index : ℕ)
      → All (From root_uri path index) (flatten_nodes py sha1 root_uri nodes parent path index)
  unfolding flatten_nodes tree_record
  flatten-From root_uri leaf parent path index = tt
  flatten-From root_uri (grow (tree_node title summary facts refs children) nodes) parent path
        index =
      let node = tree_node title summary facts refs children in
      let here = path ++ index ∷ [] in
      let uri = node_uri py sha1 root_uri here node in
      let below = flatten_nodes py sha1 root_uri children uri here 1 in
      let after = flatten_nodes py sha1 root_uri nodes parent path (index + 1) in
      (
        (index, omega arith, ([], node, refl)),
        All-append (From root_uri path index) below after
            (All-map (From root_uri here 1) (From root_uri path index) below
              (λ r b. (index, omega arith, child-At root_uri path index r b))
              (flatten-From root_uri children uri here 1))
            (All-map (From root_uri path (index + 1)) (From root_uri path index) after
              (λ r b. (b.0, omega arith, b.2))
              (flatten-From root_uri nodes parent path (index + 1))),
      )

  flatten-NoRepeats :
      (root_uri : String) (nodes : TreeNodes) (parent : String) (path : List ℕ) (index : ℕ)
      → NoRepeats (uris_of (flatten_nodes py sha1 root_uri nodes parent path index))
  unfolding flatten_nodes tree_record
  flatten-NoRepeats root_uri leaf parent path index = tt
  flatten-NoRepeats root_uri (grow (tree_node title summary facts refs children) nodes) parent path
        index =
      let node = tree_node title summary facts refs children in
      let here = path ++ index ∷ [] in
      let uri = node_uri py sha1 root_uri here node in
      let below = flatten_nodes py sha1 root_uri children uri here 1 in
      let after = flatten_nodes py sha1 root_uri nodes parent path (index + 1) in
      let in_below = flatten-From root_uri children uri here 1 in
      let in_after = flatten-From root_uri nodes parent path (index + 1) in
      (
        absent-append uri below after
            (absent uri below (
              All-map (From root_uri here 1) (λ r. r.uri ≢ uri) below
                (λ r b. At-below-ne root_uri path index node r b) in_below))
            (absent uri after (
              All-map (From root_uri path (index + 1)) (λ r. r.uri ≢ uri) after
                (λ r b.
                  At-From-ne root_uri path index (tree_record py sha1 root_uri parent here node) r
                    ([], node, refl) b)
                in_after)),
        NoRepeats-append below after (flatten-NoRepeats root_uri children uri here 1)
            (flatten-NoRepeats root_uri nodes parent path (index + 1))
            (All-map (From root_uri here 1) (λ r. All (λ r'. r'.uri ≢ r.uri) after) below
              (λ r b.
                All-map (From root_uri path (index + 1)) (λ r'. r'.uri ≢ r.uri) after
                  (λ r' b'.
                    At-From-ne root_uri path index r r' (child-At root_uri path index r b) b')
                  in_after)
              in_below),
      )

  -- Where different numerals differ, and neither they nor a digest has a dash, the kept nodes of a tree
  -- have different uris: no node overwrites another in the store.
  pub tree_records-NoRepeats :
      (uri : String) (nodes : TreeNodes) → NoRepeats (uris_of (tree_records py sha1 uri nodes))
  unfolding tree_records
  tree_records-NoRepeats uri nodes =
      let all = flatten_nodes py sha1 uri nodes uri [] 1 in
      rw (map-take (λ r. r.uri) max_nodes all)
        (take-NoRepeats max_nodes (uris_of all) (flatten-NoRepeats uri nodes uri [] 1))
