-- ===== src/Browser/Trees/Found.antt =====
-- Which entries of the tree a search of fruitsalade/webapp/js/views/browser.js shows.
use fruit_salade.Base.{
  ℕ, zero, suc, ◌+◌, ◌≤◌, String, ◌≡◌, refl, ap, ◌∙◌, inl, inr, Bool, ◌&&◌, some, List, [], ◌∷◌,
  ◌++◌, arith, if◌then◌else◌, Bool-cases, length, take, keep, insert_sorted, sort,
}
use Prim.Native.Nat.{Ordering}
use fruit_salade.Browser.Listing.{Item, not_above, compare_results, shown_results}
use fruit_salade.Browser.Trees.{
  Node, Nodes, node, no_nodes, and_node, is_searched, flatten_tree, flatten_children, matches,
  search_tree, count_nodes, count_children, count_kept,
}

count_kept-append :
    (test : Item → Bool) (xs ys : List Item)
    → count_kept test (xs ++ ys) ≡ count_kept test xs + count_kept test ys
count_kept-append test [] ys = omega arith
count_kept-append test (x ∷ xs) ys = omega (arith, count_kept-append test xs ys)

count_kept-keep :
    (test other : Item → Bool) (xs : List Item)
    → count_kept test (keep other xs) ≡ count_kept (λ i. test i && other i) xs
unfolding keep
count_kept-keep test other [] = refl
count_kept-keep test other (x ∷ xs) = ground (arith, count_kept-keep test other xs)

count_kept-insert_sorted :
    (le : Item → Item → Bool) (test : Item → Bool) (x : Item) (xs : List Item)
    → count_kept test (insert_sorted le x xs) ≡ count_kept test (x ∷ xs)
unfolding insert_sorted
count_kept-insert_sorted le test x [] = refl
count_kept-insert_sorted le test x (y ∷ ys) = elim (Bool-cases (le x y)) [
  | inl e ↦ rw e refl
  | inr e ↦ rw e (omega (arith, count_kept-insert_sorted le test x ys))
]

count_kept-sort :
    (le : Item → Item → Bool) (test : Item → Bool) (xs : List Item)
    → count_kept test (sort le xs) ≡ count_kept test xs
unfolding sort
count_kept-sort le test [] = refl
count_kept-sort le test (x ∷ xs) =
    count_kept-insert_sorted le test x (sort le xs) ∙ omega (arith, count_kept-sort le test xs)

take_none : (n : ℕ) → take {A = Item} n [] ≡ []
take_none zero = refl
take_none (suc n) = refl

take_all : (n : ℕ) (xs : List Item) → length xs ≤ n → take n xs ≡ xs
take_all n [] h = take_none n
take_all zero (x ∷ xs) h = absurd (omega (arith, h))
take_all (suc n) (x ∷ xs) h = ap (λ l. x ∷ l) (take_all n xs (omega arith))

length-insert_sorted :
    (le : Item → Item → Bool) (x : Item) (xs : List Item)
    → length (insert_sorted le x xs) ≡ suc (length xs)
unfolding insert_sorted
length-insert_sorted le x [] = refl
length-insert_sorted le x (y ∷ ys) = elim (Bool-cases (le x y)) [
  | inl e ↦ rw e refl
  | inr e ↦ rw e (ap suc (length-insert_sorted le x ys))
]

length-sort : (le : Item → Item → Bool) (xs : List Item) → length (sort le xs) ≡ length xs
unfolding sort
length-sort le [] = refl
length-sort le (x ∷ xs) = length-insert_sorted le x (sort le xs) ∙ ap suc (length-sort le xs)

put_out :
    (test : Item → Bool) (i : Item) (out : List Item)
    → count_kept test (if is_searched i then out ++ i ∷ [] else out)
      ≡ count_kept test out + (if test i && is_searched i then 1 else 0)
put_out test i out = elim (Bool-cases (is_searched i)) [
  | inl e ↦ rw e (count_kept-append test out (i ∷ []) ∙ ground arith)
  | inr e ↦ rw e (ground arith)
]

mutual
  unfolding flatten_tree count_nodes

  count-flatten_tree :
      (test : Item → Bool) (n : Node) (out : List Item)
      → count_kept test (flatten_tree n out)
        ≡ count_kept test out + count_nodes (λ i. test i && is_searched i) n
  count-flatten_tree test (node i children) out =
      count-flatten_children test children (if is_searched i then out ++ i ∷ [] else out)
      ∙ omega (arith, put_out test i out)

  count-flatten_children :
      (test : Item → Bool) (ns : Nodes) (out : List Item)
      → count_kept test (flatten_children ns out)
        ≡ count_kept test out + count_children (λ i. test i && is_searched i) ns
  count-flatten_children test no_nodes out = omega arith
  count-flatten_children test (and_node n ns) out =
      omega
        (arith, count-flatten_children test ns (flatten_tree n out), count-flatten_tree test n out)

-- Where at most 200 entries are found, every entry of the tree below its root whose name or path has
-- the query in it, but for the case of letters, is shown as often as it stands in the tree, and
-- nothing else is, whatever the entries are told apart by.
pub shown_results_lem :
    (loc : String → String → Ordering) (to_lower : String → String) (query : String) (root : Node)
    (test : Item → Bool)
    → length (search_tree to_lower query (some root)) ≤ 200
    → count_kept test (shown_results loc (search_tree to_lower query (some root)))
      ≡ count_nodes (λ i. (test i && matches to_lower (to_lower query) i) && is_searched i) root
unfolding shown_results search_tree
shown_results_lem loc to_lower query root test h =
    ap (count_kept test) (
      take_all 200 _ (
        rw
          (length-sort (λ a b. not_above (compare_results loc a b))
            (search_tree to_lower query (some root)))
          h))
    ∙ count_kept-sort _ test _
    ∙ count_kept-keep test _ _
    ∙ count-flatten_tree _ root []
    ∙ omega arith
