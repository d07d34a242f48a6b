-- ===== src/TreeView/Marks.antt =====
-- What the marks of the tree in fruitsalade/webapp/js/views/tree.js say.
use fruit_salade.Base.{
  ℕ, zero, suc, String, ◌≡◌, refl, sym, ◌∙◌, inl, inr, Bool, true, false, List, [], ◌∷◌,
  if◌then◌else◌, Bool-cases, same_text,
}
use Prim.Native.Nat.{Ordering}
use fruit_salade.Browser.Listing.{not_above}
use fruit_salade.Browser.Trees.{Node, Nodes, node, no_nodes, and_node}
use fruit_salade.TreeView.Model.{
  Arrow, no_arrow, right_arrow, down_arrow, Branch, Branches, leaf, dir, no_branches, and_branch,
  item_of, has_branches, compare_children, insert_branch, render_node, render_children, holds,
  holds_below, highlight, highlight_below, toggle, toggle_at, toggle_below, Content, absent,
  loading, no_files, load_failed, tree_list, Sidebar, put_content,
}

abbrev pub arrow_for : Bool → Branches → Arrow
arrow_for hidden no_branches = no_arrow
arrow_for hidden (and_branch b bs) = if hidden then right_arrow else down_arrow

-- An item is active where its path is the one given, and an arrow points down where the list is
-- shown, to the right where it is hidden, and is missing where there is none.
abbrev mutual
  pub IsMarked : String → Branch → Type 0
  IsMarked path (leaf i active) = active ≡ same_text i.path path
  IsMarked path (dir i active hidden arrow children) =
      (active ≡ same_text i.path path)
      × (arrow ≡ arrow_for hidden children)
      × AllMarked path children

  pub AllMarked : String → Branches → Type 0
  AllMarked path no_branches = Unit
  AllMarked path (and_branch b bs) = IsMarked path b × AllMarked path bs

-- The arrows alone.
abbrev mutual
  pub IsPointed : Branch → Type 0
  IsPointed (leaf i active) = Unit
  IsPointed (dir i active hidden arrow children) =
      (arrow ≡ arrow_for hidden children) × AllPointed children

  pub AllPointed : Branches → Type 0
  AllPointed no_branches = Unit
  AllPointed (and_branch b bs) = IsPointed b × AllPointed bs

module _ (loc : String → String → Ordering) where
  insert_branch-AllPointed :
      (b : Branch) (bs : Branches)
      → IsPointed b
      → AllPointed bs
      → AllPointed (insert_branch loc b bs)
  unfolding insert_branch
  insert_branch-AllPointed b no_branches h k = (h, k)
  insert_branch-AllPointed b (and_branch c cs) h k =
      elim (Bool-cases (not_above (compare_children loc (item_of b) (item_of c)))) [
        | inl e ↦ rw e (h, k)
        | inr e ↦ rw e (k.0, insert_branch-AllPointed b cs h k.1)
      ]

  fresh_arrow :
      (bs : Branches) → (if has_branches bs then right_arrow else no_arrow) ≡ arrow_for true bs
  fresh_arrow no_branches = refl
  fresh_arrow (and_branch b bs) = refl

  mutual
    unfolding render_node

    render_node-IsPointed : (n : Node) → IsPointed (render_node loc n)
    render_node-IsPointed (node i children) = elim (Bool-cases i.is_dir) [
      | inl e ↦
          simp e (fresh_arrow (render_children loc children), render_children-AllPointed children)
      | inr e ↦ simp e tt
    ]

    pub render_children-AllPointed : (ns : Nodes) → AllPointed (render_children loc ns)
    render_children-AllPointed no_nodes = tt
    render_children-AllPointed (and_node n ns) =
        insert_branch-AllPointed (render_node loc n) (render_children loc ns)
          (render_node-IsPointed n) (render_children-AllPointed ns)

mutual
  IsMarked-IsPointed : (path : String) (b : Branch) → IsMarked path b → IsPointed b
  IsMarked-IsPointed path (leaf i active) h = tt
  IsMarked-IsPointed path (dir i active hidden arrow children) h =
      (h.1, AllMarked-AllPointed path children h.2)

  pub AllMarked-AllPointed : (path : String) (bs : Branches) → AllMarked path bs → AllPointed bs
  AllMarked-AllPointed path no_branches h = tt
  AllMarked-AllPointed path (and_branch b bs) h =
      (IsMarked-IsPointed path b h.0, AllMarked-AllPointed path bs h.1)

highlight-arrow :
    (path : String) (hidden : Bool) (bs : Branches)
    → arrow_for hidden (highlight_below path bs) ≡ arrow_for hidden bs
unfolding highlight
highlight-arrow path hidden no_branches = refl
highlight-arrow path hidden (and_branch b bs) = refl

down-arrow :
    (path : String) (bs : Branches) → holds_below path bs ≡ true → down_arrow ≡ arrow_for false bs
unfolding holds
down-arrow path no_branches h = cc
down-arrow path (and_branch b bs) h = refl

mutual
  unfolding highlight

  highlight-IsMarked : (path : String) (b : Branch) → IsPointed b → IsMarked path (highlight path b)
  highlight-IsMarked path (leaf i active) h = refl
  highlight-IsMarked path (dir i active hidden arrow children) h =
      elim (Bool-cases (holds_below path children)) [
        | inl e ↦ rw e (
          refl,
          down-arrow path children e ∙ sym (highlight-arrow path false children),
          highlight-AllMarked path children h.1,
        )
        | inr e ↦ rw e (
          refl,
          h.0 ∙ sym (highlight-arrow path hidden children),
          highlight-AllMarked path children h.1,
        )
      ]

  pub highlight-AllMarked :
      (path : String) (bs : Branches) → AllPointed bs → AllMarked path (highlight_below path bs)
  highlight-AllMarked path no_branches h = tt
  highlight-AllMarked path (and_branch b bs) h =
      (highlight-IsMarked path b h.0, highlight-AllMarked path bs h.1)

toggle-IsMarked : (path : String) (b : Branch) → IsMarked path b → IsMarked path (toggle b)
unfolding toggle
toggle-IsMarked path (leaf i active) h = h
toggle-IsMarked path (dir i active hidden arrow no_branches) h = h
toggle-IsMarked path (dir i active hidden arrow (and_branch b bs)) h = (h.0, refl, h.2)

toggle-arrow :
    (n : ℕ) (place : List ℕ) (hidden : Bool) (bs : Branches)
    → arrow_for hidden (toggle_below n place bs) ≡ arrow_for hidden bs
unfolding toggle_at
toggle-arrow n place hidden no_branches = refl
toggle-arrow zero place hidden (and_branch b bs) = refl
toggle-arrow (suc n) place hidden (and_branch b bs) = refl

mutual
  unfolding toggle_at

  toggle_at-IsMarked :
      (path : String) (place : List ℕ) (b : Branch)
      → IsMarked path b
      → IsMarked path (toggle_at place b)
  toggle_at-IsMarked path [] b h = toggle-IsMarked path b h
  toggle_at-IsMarked path (n ∷ place) (leaf i active) h = h
  toggle_at-IsMarked path (n ∷ place) (dir i active hidden arrow children) h = (
    h.0,
    h.1 ∙ sym (toggle-arrow n place hidden children),
    toggle_below-AllMarked path n place children h.2,
  )

  pub toggle_below-AllMarked :
      (path : String) (n : ℕ) (place : List ℕ) (bs : Branches)
      → AllMarked path bs
      → AllMarked path (toggle_below n place bs)
  toggle_below-AllMarked path n place no_branches h = h
  toggle_below-AllMarked path zero place (and_branch b bs) h =
      (toggle_at-IsMarked path place b h.0, h.1)
  toggle_below-AllMarked path (suc n) place (and_branch b bs) h =
      (h.0, toggle_below-AllMarked path n place bs h.1)

-- The marks of what is shown.
abbrev pub ContentMarked : String → Content → Type 0
ContentMarked path absent = Unit
ContentMarked path loading = Unit
ContentMarked path no_files = Unit
ContentMarked path load_failed = Unit
ContentMarked path (tree_list bs) = AllMarked path bs

abbrev pub AreMarked : Sidebar → Type 0
AreMarked s = ContentMarked s.current_path s.content

pub put_content-ContentMarked :
    (path : String) (old new : Content)
    → ContentMarked path new
    → ContentMarked path (put_content old new)
put_content-ContentMarked path absent new h = tt
put_content-ContentMarked path loading new h = h
put_content-ContentMarked path no_files new h = h
put_content-ContentMarked path load_failed new h = h
put_content-ContentMarked path (tree_list bs) new h = h
