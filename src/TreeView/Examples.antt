-- ===== src/TreeView/Examples.antt =====
-- The theorems about fruitsalade/webapp/js/views/tree.js at concrete inputs.
use fruit_salade.Base.{String, ◌≡◌, Bool, true, false, some, [], ◌∷◌, base_of}
use Prim.Native.Nat.{Ordering}
use fruit_salade.Browser.Listing.{Item}
use fruit_salade.Browser.Trees.{Node, node, no_nodes, and_node}
use fruit_salade.TreeView.Model.{
  Branches, tree_list, renders_tree, tree_comes, goes_to, clicks_item, after_trees, new_sidebar,
}
use fruit_salade.TreeView.Marks.{AreMarked}
use fruit_salade.TreeView.Runs.{after_trees-AreMarked}
use fruit_salade.TreeView.Reveals.{AllOpenTo, reopens}

-- A comparison that keeps the order in which the names came stands for `localeCompare`.
abbrev as_they_came : String → String → Ordering
as_they_came a b = Ordering.eq

abbrev entry_of : String → Bool → Item
entry_of path is_dir = record {
  path = path;
  name = base_of path;
  is_dir = is_dir;
  size = 0;
  version = 1;
  mod_time = "";
}

abbrev docs : Node
docs =
    node (entry_of "/docs" true) (and_node (node (entry_of "/docs/a.txt" false) no_nodes) no_nodes)

abbrev some_tree : Node
some_tree =
    node (entry_of "/" true)
      (and_node (node (entry_of "/b.txt" false) no_nodes) (and_node docs no_nodes))

after_trees-AreMarked_example : AreMarked (
    after_trees as_they_came
      (renders_tree true
        ∷ tree_comes (some some_tree)
        ∷ goes_to "/docs/a.txt"
        ∷ clicks_item 0 []
        ∷ clicks_item 1 []
        ∷ [])
      new_sidebar)
after_trees-AreMarked_example = after_trees-AreMarked as_they_came (
    renders_tree true
    ∷ tree_comes (some some_tree)
    ∷ goes_to "/docs/a.txt"
    ∷ clicks_item 0 []
    ∷ clicks_item 1 []
    ∷ [])

reopens_example :
    let t =
      after_trees as_they_came
        (renders_tree true ∷ goes_to "/docs" ∷ tree_comes (some some_tree) ∷ [])
        new_sidebar in
    (bs : Branches) × (t.content ≡ tree_list bs) × AllOpenTo "/docs" bs
reopens_example =
    reopens as_they_came "/docs" (entry_of "/" true) (node (entry_of "/b.txt" false) no_nodes)
      (and_node docs no_nodes) new_sidebar
