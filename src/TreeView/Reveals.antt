-- ===== src/TreeView/Reveals.antt =====
-- Which folders of the tree in fruitsalade/webapp/js/views/tree.js are open.
use fruit_salade.Base.{
  String, ◌≡◌, refl, ap, inl, inr, true, not, ◌||◌, some, [], ◌∷◌, Bool-cases, same_text,
}
use Prim.Native.Nat.{Ordering}
use fruit_salade.Browser.Listing.{Item, not_above}
use fruit_salade.Browser.Trees.{Node, Nodes, node, no_nodes, and_node}
use fruit_salade.TreeView.Model.{
  Branch, Branches, leaf, dir, no_branches, and_branch, item_of, compare_children, insert_branch,
  render_node, render_children, holds, holds_below, highlight, highlight_below, tree_list, Sidebar,
  highlight_content, highlight_current, set_current_path, render_tree, show_tree, renders_tree,
  tree_comes, goes_to, after_tree, after_trees,
}

-- All lists are hidden.
abbrev mutual
  pub IsShut : Branch → Type 0
  IsShut (leaf i active) = Unit
  IsShut (dir i active hidden arrow children) = (hidden ≡ true) × AllShut children

  pub AllShut : Branches → Type 0
  AllShut no_branches = Unit
  AllShut (and_branch b bs) = IsShut b × AllShut bs

-- The list of a folder is shown exactly where an item with the path is below it.
abbrev mutual
  pub IsOpenTo : String → Branch → Type 0
  IsOpenTo path (leaf i active) = Unit
  IsOpenTo path (dir i active hidden arrow children) =
      (hidden ≡ not (holds_below path children)) × AllOpenTo path children

  pub AllOpenTo : String → Branches → Type 0
  AllOpenTo path no_branches = Unit
  AllOpenTo path (and_branch b bs) = IsOpenTo path b × AllOpenTo path bs

module _ (loc : String → String → Ordering) where
  insert_branch-AllShut :
      (b : Branch) (bs : Branches) → IsShut b → AllShut bs → AllShut (insert_branch loc b bs)
  unfolding insert_branch
  insert_branch-AllShut b no_branches h k = (h, k)
  insert_branch-AllShut b (and_branch c cs) h k =
      elim (Bool-cases (not_above (compare_children loc (item_of b) (item_of c)))) [
        | inl e ↦ rw e (h, k)
        | inr e ↦ rw e (k.0, insert_branch-AllShut b cs h k.1)
      ]

  mutual
    unfolding render_node

    render_node-IsShut : (n : Node) → IsShut (render_node loc n)
    render_node-IsShut (node i children) = elim (Bool-cases i.is_dir) [
      | inl e ↦ simp e (refl, render_children-AllShut children)
      | inr e ↦ simp e tt
    ]

    render_children-AllShut : (ns : Nodes) → AllShut (render_children loc ns)
    render_children-AllShut no_nodes = tt
    render_children-AllShut (and_node n ns) =
        insert_branch-AllShut (render_node loc n) (render_children loc ns) (render_node-IsShut n)
          (render_children-AllShut ns)

mutual
  unfolding holds highlight

  holds-highlight :
      (path other : String) (b : Branch) → holds path (highlight other b) ≡ holds path b
  holds-highlight path other (leaf i active) = refl
  holds-highlight path other (dir i active hidden arrow children) =
      elim (Bool-cases (holds_below other children)) [
        | inl e ↦
            rw e (ap (λ b. same_text i.path path || b) (holds_below-highlight path other children))
        | inr e ↦
            rw e (ap (λ b. same_text i.path path || b) (holds_below-highlight path other children))
      ]

  holds_below-highlight :
      (path other : String) (bs : Branches)
      → holds_below path (highlight_below other bs) ≡ holds_below path bs
  holds_below-highlight path other no_branches = refl
  holds_below-highlight path other (and_branch b bs) =
      rw (holds-highlight path other b, holds_below-highlight path other bs) refl

mutual
  unfolding highlight

  highlight-IsOpenTo : (path : String) (b : Branch) → IsShut b → IsOpenTo path (highlight path b)
  highlight-IsOpenTo path (leaf i active) h = tt
  highlight-IsOpenTo path (dir i active hidden arrow children) h =
      elim (Bool-cases (holds_below path children)) [
        | inl e ↦ rw (e) (
          rw (holds_below-highlight path path children, e) refl,
          highlight-AllOpenTo path children h.1,
        )
        | inr e ↦ rw (e) (
          rw (holds_below-highlight path path children, e) h.0,
          highlight-AllOpenTo path children h.1,
        )
      ]

  highlight-AllOpenTo :
      (path : String) (bs : Branches) → AllShut bs → AllOpenTo path (highlight_below path bs)
  highlight-AllOpenTo path no_branches h = tt
  highlight-AllOpenTo path (and_branch b bs) h =
      (highlight-IsOpenTo path b h.0, highlight-AllOpenTo path bs h.1)

-- When the router draws the page for a path, the tree is loaded again, and then a folder is open
-- exactly where the item of the path is below it: whatever was opened or closed by clicks is
-- forgotten, and a folder that a click has opened, and gone to, is shown closed.
pub reopens :
    (loc : String → String → Ordering) (path : String) (root : Item) (n : Node) (ns : Nodes)
    (s : Sidebar)
    → let t =
        after_trees loc
          (renders_tree true ∷ goes_to path ∷ tree_comes (some (node root (and_node n ns))) ∷ [])
          s in
      (bs : Branches) × (t.content ≡ tree_list bs) × AllOpenTo path bs
unfolding after_trees after_tree render_tree show_tree highlight_current highlight_content
    set_current_path
reopens loc path root n ns s =
    (_, refl, highlight-AllOpenTo path _ (render_children-AllShut loc (and_node n ns)))
