-- ===== src/Browser/Order.antt =====
-- The order of a folder in fruitsalade/webapp/js/views/browser.js.
use Prim.Native.Nat.{Ordering, compare}
use mathlib.Core.List.{Perm}
use fruit_salade.Base.{
  ℕ, String, ◌≡◌, refl, sym, ap, ◌⊎◌, inl, inr, Bool, true, false, not, ◌&&◌, ◌||◌, List, arith,
  if◌then◌else◌, Bool-cases, keep, sort, IsOrdered, sort-perm, keep-sort, sort-IsOrdered,
  IsOrdered-weaken,
}
use fruit_salade.Browser.Listing.{
  Item, SortField, by_name, by_size, by_version, by_modified, SortState, opposite, not_above,
  compare_field, compare_items, sort_items, IsLocale,
}

nat_turns : (a b : ℕ) → compare b a ≡ opposite (compare a b)
nat_turns a b = ground arith

nat_chains :
    (a b c : ℕ)
    → not_above (compare a b) ≡ true
    → not_above (compare b c) ≡ true
    → not_above (compare a c) ≡ true
nat_chains a b c h k = ground arith

opposite-opposite : (o : Ordering) → opposite (opposite o) ≡ o
opposite-opposite Ordering.lt = refl
opposite-opposite Ordering.eq = refl
opposite-opposite Ordering.gt = refl

not_above-total : (o : Ordering) → (not_above o ≡ true) ⊎ (not_above (opposite o) ≡ true)
not_above-total Ordering.lt = inl refl
not_above-total Ordering.eq = inl refl
not_above-total Ordering.gt = inr refl

module _ (loc : String → String → Ordering) (good : IsLocale loc) where
  field_turns :
      (f : SortField) (a b : Item) → compare_field loc f b a ≡ opposite (compare_field loc f a b)
  unfolding compare_field
  field_turns by_name a b = good.turns a.name b.name
  field_turns by_size a b = nat_turns a.size b.size
  field_turns by_version a b = nat_turns a.version b.version
  field_turns by_modified a b = good.turns a.mod_time b.mod_time

  field_chains :
      (f : SortField) (a b c : Item)
      → not_above (compare_field loc f a b) ≡ true
      → not_above (compare_field loc f b c) ≡ true
      → not_above (compare_field loc f a c) ≡ true
  unfolding compare_field
  field_chains by_name a b c = good.chains a.name b.name c.name
  field_chains by_size a b c = nat_chains a.size b.size c.size
  field_chains by_version a b c = nat_chains a.version b.version c.version
  field_chains by_modified a b c = good.chains a.mod_time b.mod_time c.mod_time

  -- The comparison within the folders, and within the files.
  within : SortState → Item → Item → Ordering
  within s a b =
      if s.descending
      then opposite (compare_field loc s.field a b)
      else compare_field loc s.field a b

  within_turns : (s : SortState) (a b : Item) → within s b a ≡ opposite (within s a b)
  unfolding within
  within_turns s a b = elim (Bool-cases s.descending) [
    | inl e ↦ simp e (ap opposite (field_turns s.field a b))
    | inr e ↦ simp e (field_turns s.field a b)
  ]

  within_down :
      (s : SortState) (a b : Item)
      → s.descending ≡ true
      → within s a b ≡ compare_field loc s.field b a
  unfolding within
  within_down s a b e = simp e (sym (field_turns s.field a b))

  within_up :
      (s : SortState) (a b : Item)
      → s.descending ≡ false
      → within s a b ≡ compare_field loc s.field a b
  unfolding within
  within_up s a b e = simp e refl

  within_chains :
      (s : SortState) (a b c : Item)
      → not_above (within s a b) ≡ true
      → not_above (within s b c) ≡ true
      → not_above (within s a c) ≡ true
  unfolding within
  within_chains s a b c h k = elim (Bool-cases s.descending) [
    | inl e ↦
        rw (within_down s a c e) (
          field_chains s.field c b a (rw (within_down s b c e) at k)
            (rw (within_down s a b e) at h))
    | inr e ↦
        rw (within_up s a c e)
          (field_chains s.field a b c (rw (within_up s a b e) at h) (rw (within_up s b c e) at k))
  ]

  -- The comparison is the one within, but for a folder and a file.
  compare_items-within :
      (s : SortState) (a b : Item)
      → compare_items loc s a b ≡ (
          if a.is_dir && not b.is_dir
          then Ordering.lt
          else if not a.is_dir && b.is_dir
          then Ordering.gt
          else within s a b)
  unfolding compare_items within
  compare_items-within s a b = refl

  le_item : SortState → Item → Item → Bool
  le_item s a b = not_above (compare_items loc s a b)

  le_item_total : (s : SortState) (a b : Item) → (le_item s a b ≡ true) ⊎ (le_item s b a ≡ true)
  unfolding le_item
  le_item_total s a b = ground (
    arith,
    compare_items-within s a b,
    compare_items-within s b a,
    within_turns s a b,
    not_above-total (within s a b),
  )

  le_item_trans :
      (s : SortState) (a b c : Item)
      → le_item s a b ≡ true
      → le_item s b c ≡ true
      → le_item s a c ≡ true
  unfolding le_item
  le_item_trans s a b c h k = ground (
    arith,
    compare_items-within s a b,
    compare_items-within s b c,
    compare_items-within s a c,
    within_chains s a b c,
  )

  folder_first :
      (s : SortState) (a b : Item) → le_item s a b ≡ true → (a.is_dir || not b.is_dir) ≡ true
  unfolding le_item
  folder_first s a b h = ground (arith, compare_items-within s a b)

  -- For any field and direction the shown folder has the same entries as the loaded one, folders
  -- come before files, each entry is at or below all that come after it, and entries that the comparison does not tell apart stand in
  -- the order in which they were loaded.
  pub sort_items_lem :
      (s : SortState) (items : List Item)
      → Perm (sort_items loc s items) items
        × IsOrdered (λ a b. a.is_dir || not b.is_dir) (sort_items loc s items)
        × IsOrdered (λ a b. not_above (compare_items loc s a b)) (sort_items loc s items)
        × ((test : Item → Bool)
            → ((a b : Item)
                → test a ≡ true
                → test b ≡ true
                → not_above (compare_items loc s a b) ≡ true)
            → keep test (sort_items loc s items) ≡ keep test items)
  unfolding sort_items le_item
  sort_items_lem s items = (
    sort-perm (le_item s) items,
    IsOrdered-weaken (folder_first s) _ sorted,
    sorted,
    λ test same. keep-sort (le_item s) test items same,
  )
    where
      sorted : IsOrdered (le_item s) (sort (le_item s) items)
      sorted = sort-IsOrdered (le_item s) (le_item_total s) (le_item_trans s) items
