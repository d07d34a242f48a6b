-- ===== src/Browser/Listing.antt =====
-- How fruitsalade/webapp/js/views/browser.js sorts a folder and the results of a search.
use Prim.Native.Nat.{Ordering, compare}
use fruit_salade.Base.{
  ℕ, String, ◌≡◌, Bool, true, false, not, ◌&&◌, List, if◌then◌else◌, take, sort,
}

-- What the view reads of an entry of the tree; a missing size, version or time is 0 or empty, as
-- `||` makes it.
pub record Item : Type 0 where
  pub path : String
  pub name : String
  pub is_dir : Bool
  pub size : ℕ
  pub version : ℕ
  pub mod_time : String

pub data SortField : Type 0 where
  by_name by_size by_version by_modified : SortField

-- `sortField` and `sortDir`.
pub record SortState : Type 0 where
  pub field : SortField
  pub descending : Bool

abbrev pub first_order : SortState
first_order = record { field = by_name; descending = false }

-- The sign of a comparison, and `-cmp`.
abbrev pub opposite : Ordering → Ordering
opposite Ordering.lt = Ordering.gt
opposite Ordering.eq = Ordering.eq
opposite Ordering.gt = Ordering.lt

abbrev pub not_above : Ordering → Bool
not_above Ordering.gt = false
not_above _ = true

abbrev pub same_field : SortField → SortField → Bool
same_field by_name by_name = true
same_field by_size by_size = true
same_field by_version by_version = true
same_field by_modified by_modified = true
same_field _ _ = false

-- The listener of a column's head.
unfoldable pub click_head : SortField → SortState → SortState
click_head field s =
    if same_field s.field field
    then record s { descending = not s.descending }
    else record { field = field; descending = false }

-- The browser's `localeCompare` is an argument.
module _ (locale_compare : String → String → Ordering) where
  unfoldable pub compare_field : SortField → Item → Item → Ordering
  compare_field by_name a b = locale_compare a.name b.name
  compare_field by_size a b = compare a.size b.size
  compare_field by_version a b = compare a.version b.version
  compare_field by_modified a b = locale_compare a.mod_time b.mod_time

  -- The comparison of `sortItems`.
  unfoldable pub compare_items : SortState → Item → Item → Ordering
  compare_items s a b =
      if a.is_dir && not b.is_dir
      then Ordering.lt
      else if not a.is_dir && b.is_dir
      then Ordering.gt
      else if s.descending
      then opposite (compare_field s.field a b)
      else compare_field s.field a b

  unfoldable pub sort_items : SortState → List Item → List Item
  sort_items s items = sort (λ a b. not_above (compare_items s a b)) items

  -- The comparison of `renderSearchResults`, and that of the folder tree's `sortChildren`.
  unfoldable pub compare_results : Item → Item → Ordering
  compare_results a b =
      if a.is_dir && not b.is_dir
      then Ordering.lt
      else if not a.is_dir && b.is_dir
      then Ordering.gt
      else locale_compare a.path b.path

  -- At most 200 results are shown.
  unfoldable pub shown_results : List Item → List Item
  shown_results items = take 200 (sort (λ a b. not_above (compare_results a b)) items)

-- What is documented of `localeCompare`: the sign turns round with the texts, and texts that are not
-- above one another chain.
pub record IsLocale (locale_compare : String → String → Ordering) : Type 0 where
  pub turns : (a b : String) → locale_compare b a ≡ opposite (locale_compare a b)
  pub chains :
      (a b c : String)
      → not_above (locale_compare a b) ≡ true
      → not_above (locale_compare b c) ≡ true
      → not_above (locale_compare a c) ≡ true
