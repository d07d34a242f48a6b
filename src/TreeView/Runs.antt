-- ===== src/TreeView/Runs.antt =====
-- The marks of the tree in fruitsalade/webapp/js/views/tree.js, whatever happens.
use fruit_salade.Base.{
  ℕ, String, inl, inr, true, false, Option, none, some, List, [], ◌∷◌, Bool-cases, is_empty,
}
use Prim.Native.Nat.{Ordering}
use fruit_salade.Browser.Trees.{node, no_nodes, and_node}
use fruit_salade.TreeView.Model.{
  Branch, Branches, item_of, branch_below, Content, absent, loading, no_files, load_failed,
  tree_list, Sidebar, put_content, highlight_content, highlight_current, set_current_path,
  render_tree, show_tree, fail_tree, click_on, click_found, click_content, click_tree, TreeEvent,
  renders_tree, tree_comes, tree_fails, goes_to, clicks_item, after_tree, after_trees, new_sidebar,
}
use fruit_salade.TreeView.Marks.{
  AllMarked, AllPointed, render_children-AllPointed, AllMarked-AllPointed, highlight-AllMarked,
  toggle_below-AllMarked, ContentMarked, AreMarked, put_content-ContentMarked,
}

rehighlight-ContentMarked :
    (path path' : String) (c : Content)
    → ContentMarked path c
    → ContentMarked path' (highlight_content path' c)
unfolding highlight_content
rehighlight-ContentMarked path path' absent h = tt
rehighlight-ContentMarked path path' loading h = tt
rehighlight-ContentMarked path path' no_files h = tt
rehighlight-ContentMarked path path' load_failed h = tt
rehighlight-ContentMarked path path' (tree_list bs) h =
    highlight-AllMarked path' bs (AllMarked-AllPointed path bs h)

show-ContentMarked :
    (path : String) (old : Content) (bs : Branches)
    → AllPointed bs
    → ContentMarked path (highlight_content path (put_content old (tree_list bs)))
unfolding highlight_content
show-ContentMarked path absent bs h = tt
show-ContentMarked path loading bs h = highlight-AllMarked path bs h
show-ContentMarked path no_files bs h = highlight-AllMarked path bs h
show-ContentMarked path load_failed bs h = highlight-AllMarked path bs h
show-ContentMarked path (tree_list cs) bs h = highlight-AllMarked path bs h

click_on-AreMarked :
    (n : ℕ) (place : List ℕ) (bs : Branches) (b : Branch) (s : Sidebar)
    → AllMarked s.current_path bs
    → AreMarked s
    → AreMarked (click_on n place bs b s)
unfolding click_on
click_on-AreMarked n place bs b s h k = elim (Bool-cases (is_empty (item_of b).path)) [
  | inl e ↦ rw e k
  | inr e ↦ rw e (toggle_below-AllMarked s.current_path n place bs h)
]

click_found-AreMarked :
    (n : ℕ) (place : List ℕ) (bs : Branches) (found : Option Branch) (s : Sidebar)
    → AllMarked s.current_path bs
    → AreMarked s
    → AreMarked (click_found n place bs found s)
unfolding click_found
click_found-AreMarked n place bs none s h k = k
click_found-AreMarked n place bs (some b) s h k = click_on-AreMarked n place bs b s h k

click_content-AreMarked :
    (n : ℕ) (place : List ℕ) (c : Content) (s : Sidebar)
    → ContentMarked s.current_path c
    → AreMarked s
    → AreMarked (click_content n place c s)
unfolding click_content
click_content-AreMarked n place absent s h k = k
click_content-AreMarked n place loading s h k = k
click_content-AreMarked n place no_files s h k = k
click_content-AreMarked n place load_failed s h k = k
click_content-AreMarked n place (tree_list bs) s h k =
    click_found-AreMarked n place bs (branch_below n place bs) s h k

after_tree-AreMarked :
    (loc : String → String → Ordering) (e : TreeEvent) (s : Sidebar)
    → AreMarked s
    → AreMarked (after_tree loc e s)
unfolding after_tree render_tree show_tree highlight_current fail_tree set_current_path click_tree
after_tree-AreMarked loc (renders_tree true) s h = tt
after_tree-AreMarked loc (renders_tree false) s h = h
after_tree-AreMarked loc (tree_comes none) s h =
    put_content-ContentMarked s.current_path s.content no_files tt
after_tree-AreMarked loc (tree_comes (some (node i no_nodes))) s h =
    put_content-ContentMarked s.current_path s.content no_files tt
after_tree-AreMarked loc (tree_comes (some (node i (and_node n ns)))) s h =
    show-ContentMarked s.current_path s.content _ (render_children-AllPointed loc (and_node n ns))
after_tree-AreMarked loc tree_fails s h =
    put_content-ContentMarked s.current_path s.content load_failed tt
after_tree-AreMarked loc (goes_to path) s h =
    rehighlight-ContentMarked s.current_path path s.content h
after_tree-AreMarked loc (clicks_item n place) s h = click_content-AreMarked n place s.content s h h

after_trees-AreMarked_from :
    (loc : String → String → Ordering) (es : List TreeEvent) (s : Sidebar)
    → AreMarked s
    → AreMarked (after_trees loc es s)
unfolding after_trees
after_trees-AreMarked_from loc [] s h = h
after_trees-AreMarked_from loc (e ∷ es) s h =
    after_trees-AreMarked_from loc es _ (after_tree-AreMarked loc e s h)

-- After any loads, failures, navigations and clicks, exactly the items with the current path are
-- active, and every arrow shows whether the list below it is hidden.
pub after_trees-AreMarked :
    (loc : String → String → Ordering) (es : List TreeEvent)
    → AreMarked (after_trees loc es new_sidebar)
after_trees-AreMarked loc es = after_trees-AreMarked_from loc es new_sidebar tt
