-- ===== src/Index/KeyTests.antt =====
-- Numerals that count in ones, and the uris of a tree of three nodes.
use Prim.Native.Char.{Char}
use Prim.Native.String.{count}
use text.Mathlib.TextLemmas.{length-cons, length-nil}
use open_cortex.Base.{arith, ◌≡◌, refl, ap, ℕ, zero, suc, String, true, [], ◌∷◌, map, string_eq}
use open_cortex.Base.Plain.{plain}
use open_cortex.Base.Sets.{NoRepeats}
use open_cortex.Base.Json.{Json, num, str, Python}
use open_cortex.Index.Dashes.{is_dashless}
use open_cortex.Index.Payload.{digest}
use open_cortex.Index.Keys.{IsKeyed, tree_records-NoRepeats, uris_of}
use open_cortex.Index.Tree.{tree_node, TreeNodes, leaf, grow, tree_records}

abbrev one : Char
one = "1"

abbrev ones : ℕ → String
ones zero = ""
ones (suc n) = String.◌∷◌ one (ones n)

abbrev show_ones : Json → String
show_ones (num n) = ones n
show_ones (str s) = s
show_ones _ = "v"

abbrev counting : Python
counting = record plain { show = show_ones }

abbrev no_digest : String → String
no_digest s = ""

count-ones : (n : ℕ) → count (ones n) ≡ n
count-ones zero = length-nil
count-ones (suc n) = omega (arith, length-cons one (ones n), count-ones n)

ones-dashless : (n : ℕ) → is_dashless (ones n) ≡ true
unfolding is_dashless
ones-dashless zero = refl
ones-dashless (suc n) = ones-dashless n

counting-IsKeyed : IsKeyed counting no_digest
unfolding digest is_dashless
counting-IsKeyed = record {
  show_inj = λ m n h. omega (arith, count-ones m, count-ones n, ap count h);
  show_dashless = ones-dashless;
  digest_dashless = λ t. refl;
}

abbrev twins : TreeNodes
twins =
    grow (tree_node "A" "a" [] [] (grow (tree_node "A" "a" [] [] leaf) leaf))
      (grow (tree_node "A" "a" [] [] leaf) leaf)

three_keys :
    map (λ r. r.uri) (tree_records counting no_digest "r" twins)
    ≡ "r/reason_tree/1-" ∷ "r/reason_tree/1-1-" ∷ "r/reason_tree/11-" ∷ []
unfolding tree_records
three_keys = refl

tree_records-NoRepeats_example : NoRepeats (uris_of (tree_records counting no_digest "r" twins))
tree_records-NoRepeats_example =
    tree_records-NoRepeats counting no_digest counting-IsKeyed "r" twins
