-- ===== src/Browser/Trees.antt =====
-- The tree that the server gives, and what a search of fruitsalade/webapp/js/views/browser.js finds
-- in it.
pub mod Found
use fruit_salade.Base.{
  ℕ, zero, suc, ◌+◌, ◌-◌, ◌*◌, ◌/◌, ◌%◌, ◌^◌, ◌≤◌, ◌<◌, String, ◌≡◌, refl, sym, ap, subst, ◌∙◌, ◌≢◌,
  ◌↔◌, ◌⊎◌, inl, inr, Bool, true, false, not, ◌&&◌, ◌||◌, Option, none, some, List, [], ◌∷◌, ◌++◌,
  map, append_assoc, append-nil, arith, ltb, leb, ◌==◌, if◌then◌else◌, ==→≡, ==_refl, ==_false,
  Bool-cases, Option-cases, is_some, or_else, length, take, drop, update, length-append, contains,
  remove_first, IsNodup, contains-append, contains-remove_first, contains-remove_first_self,
  contains-remove_first_other, contains-remove_first-false, IsNodup-remove_first, All, All-cons,
  contains_self, contains-split, All-snoc, contains-append_left, contains-append_right,
  remove_first-append, IsNodup-snoc, is_empty, or_text, same_text, same_text→≡, same_text_refl,
  begins_with, has_part, ends_with, listed, lookup, insert, lookup-insert, keep, insert_sorted,
  sort, AllOf, IsOrdered, sort-perm, keep-sort, sort-IsOrdered, IsOrdered-weaken, split, append,
  has_slash, parent_of, base_of, depth, put_first, new_part, has_slash-append, parent_of-append,
  base_of-append, base_of-clean, depth-parent_of, code_slash, append-parent_of-base_of,
  same_text_turn, listed-append, listed-sort, listed-keep, IsKeySet, IsKeySet-snoc, IsKeySet-keep,
  listed-take, IsKeySet-take,
}
use Prim.Native.Nat.{Ordering}
use fruit_salade.Browser.Listing.{
  Item, SortField, by_name, by_size, by_version, by_modified, SortState, first_order, opposite,
  not_above, same_field, click_head, compare_field, compare_items, sort_items, compare_results,
  shown_results, IsLocale,
}

mutual
  pub data Node : Type 0 where
    node : Item → Nodes → Node

  pub data Nodes : Type 0 where
    no_nodes : Nodes
    and_node : Node → Nodes → Nodes

abbrev pub is_searched : Item → Bool
is_searched i = not (is_empty i.path) && not (same_text i.path "/")

unfoldable mutual
  pub flatten_tree : Node → List Item → List Item
  flatten_tree (node i children) out =
      flatten_children children (if is_searched i then out ++ i ∷ [] else out)

  pub flatten_children : Nodes → List Item → List Item
  flatten_children no_nodes out = out
  flatten_children (and_node n ns) out = flatten_children ns (flatten_tree n out)

-- `toLowerCase` is an argument.
module _ (to_lower : String → String) where
  unfoldable pub matches : String → Item → Bool
  matches q i = has_part q (to_lower i.name) || has_part q (to_lower i.path)

  unfoldable pub search_tree : String → Option Node → List Item
  search_tree query none = []
  search_tree query (some root) = keep (matches (to_lower query)) (flatten_tree root [])

-- How many entries of a tree pass a test, the root counted.
unfoldable mutual
  pub count_nodes : (Item → Bool) → Node → ℕ
  count_nodes test (node i children) = (if test i then 1 else 0) + count_children test children

  pub count_children : (Item → Bool) → Nodes → ℕ
  count_children test no_nodes = 0
  count_children test (and_node n ns) = count_nodes test n + count_children test ns

abbrev pub count_kept : (Item → Bool) → List Item → ℕ
count_kept test [] = 0
count_kept test (i ∷ items) = (if test i then 1 else 0) + count_kept test items
