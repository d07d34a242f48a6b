-- ===== src/TreeView/Model.antt =====
-- The tree of folders of fruitsalade/webapp/js/views/tree.js: the list items of the document with
-- their marks, and what loads, highlights and turns them.
use fruit_salade.Base.{
  ℕ, zero, suc, String, Bool, true, false, not, ◌&&◌, ◌||◌, Option, none, some, List, [], ◌∷◌,
  if◌then◌else◌, is_empty, same_text, append,
}
use Prim.Native.Nat.{Ordering}
use fruit_salade.Browser.Listing.{Item, not_above}
use fruit_salade.Browser.Trees.{Node, Nodes, node, no_nodes, and_node}

-- What `.tree-toggle` holds.
pub data Arrow : Type 0 where
  no_arrow right_arrow down_arrow : Arrow

-- The list items: of a file, with the class `active`; of a folder, with the class `active`, with the
-- class `hidden` of its list, and with its arrow.
mutual
  pub data Branch : Type 0 where
    leaf : Item → Bool → Branch
    dir : Item → Bool → Bool → Arrow → Branches → Branch

  pub data Branches : Type 0 where
    no_branches : Branches
    and_branch : Branch → Branches → Branches

abbrev pub item_of : Branch → Item
item_of (leaf i active) = i
item_of (dir i active hidden arrow children) = i

abbrev pub has_branches : Branches → Bool
has_branches no_branches = false
has_branches (and_branch b bs) = true

-- The browser's `localeCompare` is an argument.
module _ (locale_compare : String → String → Ordering) where
  -- The comparison of `sortChildren`.
  unfoldable pub compare_children : Item → Item → Ordering
  compare_children a b =
      if a.is_dir && not b.is_dir
      then Ordering.lt
      else if not a.is_dir && b.is_dir
      then Ordering.gt
      else locale_compare a.name b.name

  -- One step of the stable sort of `sortChildren`, on what is rendered of the children.
  unfoldable pub insert_branch : Branch → Branches → Branches
  insert_branch b no_branches = and_branch b no_branches
  insert_branch b (and_branch c cs) =
      let later = and_branch c (insert_branch b cs) in
      if not_above (compare_children (item_of b) (item_of c))
      then and_branch b (and_branch c cs)
      else later

  -- The path of a node is taken as it is read back from `data-path`; a path with a double quote, which
  -- `esc` leaves as it is, would be read back cut.
  unfoldable mutual
    pub render_node : Node → Branch
    render_node (node i children) =
        let shown = render_children children in
        if i.is_dir
        then dir i false true (if has_branches shown then right_arrow else no_arrow) shown
        else leaf i false

    pub render_children : Nodes → Branches
    render_children no_nodes = no_branches
    render_children (and_node n ns) = insert_branch (render_node n) (render_children ns)

-- Whether an item with the path stands there.
unfoldable mutual
  pub holds : String → Branch → Bool
  holds path (leaf i active) = same_text i.path path
  holds path (dir i active hidden arrow children) =
      same_text i.path path || holds_below path children

  pub holds_below : String → Branches → Bool
  holds_below path no_branches = false
  holds_below path (and_branch b bs) = holds path b || holds_below path bs

-- `highlightCurrent`, with `expandParents` of every item it marks.
unfoldable mutual
  unfolding holds

  pub highlight : String → Branch → Branch
  highlight path (leaf i active) = leaf i (same_text i.path path)
  highlight path (dir i active hidden arrow children) =
      let marked = highlight_below path children in
      if holds_below path children
      then dir i (same_text i.path path) false down_arrow marked
      else dir i (same_text i.path path) hidden arrow marked

  pub highlight_below : String → Branches → Branches
  highlight_below path no_branches = no_branches
  highlight_below path (and_branch b bs) = and_branch (highlight path b) (highlight_below path bs)

-- A click on an item, which has a list of its own only where it has children.
unfoldable pub toggle : Branch → Branch
toggle (leaf i active) = leaf i active
toggle (dir i active hidden arrow no_branches) = dir i active hidden arrow no_branches
toggle (dir i active hidden arrow (and_branch b bs)) =
    dir i active (not hidden) (if not hidden then right_arrow else down_arrow) (and_branch b bs)

-- The item at a place: the index in the list, then in the list of its children, and so on.
unfoldable mutual
  unfolding toggle

  pub toggle_at : List ℕ → Branch → Branch
  toggle_at [] b = toggle b
  toggle_at (n ∷ place) (leaf i active) = leaf i active
  toggle_at (n ∷ place) (dir i active hidden arrow children) =
      dir i active hidden arrow (toggle_below n place children)

  pub toggle_below : ℕ → List ℕ → Branches → Branches
  toggle_below n place no_branches = no_branches
  toggle_below zero place (and_branch b bs) = and_branch (toggle_at place b) bs
  toggle_below (suc n) place (and_branch b bs) = and_branch b (toggle_below n place bs)

unfoldable mutual
  pub branch_at : List ℕ → Branch → Option Branch
  branch_at [] b = some b
  branch_at (n ∷ place) (leaf i active) = none
  branch_at (n ∷ place) (dir i active hidden arrow children) = branch_below n place children

  pub branch_below : ℕ → List ℕ → Branches → Option Branch
  branch_below n place no_branches = none
  branch_below zero place (and_branch b bs) = branch_at place b
  branch_below (suc n) place (and_branch b bs) = branch_below n place bs

-- `#tree-content`, which is absent before the first `renderTree`.
pub data Content : Type 0 where
  absent loading no_files load_failed : Content
  tree_list : Branches → Content

-- `currentPath`, the content, and the hash of the page.
pub record Sidebar : Type 0 where
  pub current_path : String
  pub content : Content
  pub hash : String

-- A change of a content that is there.
abbrev pub put_content : Content → Content → Content
put_content absent new = absent
put_content _ new = new

unfoldable pub highlight_content : String → Content → Content
highlight_content path absent = absent
highlight_content path loading = loading
highlight_content path no_files = no_files
highlight_content path load_failed = load_failed
highlight_content path (tree_list bs) = tree_list (highlight_below path bs)

unfoldable pub highlight_current : Sidebar → Sidebar
highlight_current s = record s { content = highlight_content s.current_path s.content }

unfoldable pub set_current_path : String → Sidebar → Sidebar
set_current_path path s = highlight_current (record s { current_path = path })

-- `renderTree`, where the page has a place for the tree, up to its request.
unfoldable pub render_tree : Bool → Sidebar → Sidebar
render_tree has_area s = if has_area then record s { content = loading } else s

-- The answer of `loadTree`.
unfoldable pub show_tree : (String → String → Ordering) → Option Node → Sidebar → Sidebar
show_tree loc none s = record s { content = put_content s.content no_files }
show_tree loc (some (node i no_nodes)) s = record s { content = put_content s.content no_files }
show_tree loc (some (node i (and_node n ns))) s =
    highlight_current (record s {
      content = put_content s.content (tree_list (render_children loc (and_node n ns)));
    })

unfoldable pub fail_tree : Sidebar → Sidebar
fail_tree s = record s { content = put_content s.content load_failed }

-- The listener of clicks.
unfoldable pub click_on : ℕ → List ℕ → Branches → Branch → Sidebar → Sidebar
unfolding append
click_on n place bs b s = if is_empty (item_of b).path then s else record s {
  content = tree_list (toggle_below n place bs);
  hash = elim b [
    | leaf i active ↦ append "#viewer" i.path
    | dir i active hidden arrow children ↦ append "#browser" i.path
  ];
}

unfoldable pub click_found : ℕ → List ℕ → Branches → Option Branch → Sidebar → Sidebar
click_found n place bs none s = s
click_found n place bs (some b) s = click_on n place bs b s

unfoldable pub click_content : ℕ → List ℕ → Content → Sidebar → Sidebar
click_content n place absent s = s
click_content n place loading s = s
click_content n place no_files s = s
click_content n place load_failed s = s
click_content n place (tree_list bs) s = click_found n place bs (branch_below n place bs) s

unfoldable pub click_tree : ℕ → List ℕ → Sidebar → Sidebar
click_tree n place s = click_content n place s.content s

pub data TreeEvent : Type 0 where
  renders_tree : Bool → TreeEvent
  tree_comes : Option Node → TreeEvent
  tree_fails : TreeEvent
  goes_to : String → TreeEvent
  clicks_item : ℕ → List ℕ → TreeEvent

unfoldable pub after_tree : (String → String → Ordering) → TreeEvent → Sidebar → Sidebar
after_tree loc (renders_tree has_area) s = render_tree has_area s
after_tree loc (tree_comes root) s = show_tree loc root s
after_tree loc tree_fails s = fail_tree s
after_tree loc (goes_to path) s = set_current_path path s
after_tree loc (clicks_item n place) s = click_tree n place s

unfoldable pub after_trees : (String → String → Ordering) → List TreeEvent → Sidebar → Sidebar
after_trees loc [] s = s
after_trees loc (e ∷ es) s = after_trees loc es (after_tree loc e s)

abbrev pub new_sidebar : Sidebar
new_sidebar = record { current_path = "/"; content = absent; hash = "" }
