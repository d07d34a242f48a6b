-- ===== src/Browser/Selection.antt =====
-- The selection, its check boxes and the focus of the keyboard in
-- fruitsalade/webapp/js/views/browser.js, over the rows that are shown. The state is that of one call
-- of `renderBrowser`, which has its own selection and handlers: the key handler of a folder that was
-- opened before stays at the document, works on its own selection and writes to the same boxes and
-- toolbar, which is not modelled.
pub mod Sets
pub mod Ranges
pub mod Synced
pub mod Refines
use fruit_salade.Base.{
  ℕ, zero, suc, ◌+◌, ◌-◌, ◌*◌, ◌/◌, ◌%◌, ◌^◌, ◌≤◌, ◌<◌, String, ◌≡◌, refl, sym, ap, subst, ◌∙◌, ◌≢◌,
  ◌↔◌, ◌⊎◌, inl, inr, Bool, true, false, not, ◌&&◌, ◌||◌, Option, none, some, List, [], ◌∷◌, ◌++◌,
  map, append_assoc, append-nil, arith, ltb, leb, ◌==◌, if◌then◌else◌, ==→≡, ==_refl, ==_false,
  Bool-cases, Option-cases, is_some, or_else, length, take, drop, update, length-append, contains,
  remove_first, IsNodup, contains-append, contains-remove_first, contains-remove_first_self,
  contains-remove_first_other, contains-remove_first-false, IsNodup-remove_first, All, All-cons,
  contains_self, contains-split, All-snoc, contains-append_left, contains-append_right,
  remove_first-append, IsNodup-snoc, is_empty, or_text, same_text, same_text→≡, same_text_refl,
  begins_with, has_part, ends_with, listed, lookup, insert, lookup-insert, keep, insert_sorted,
  sort, AllOf, IsOrdered, sort-perm, keep-sort, sort-IsOrdered, IsOrdered-weaken, split, append,
  has_slash, parent_of, base_of, depth, put_first, new_part, has_slash-append, parent_of-append,
  base_of-append, base_of-clean, depth-parent_of, code_slash, append-parent_of-base_of,
  same_text_turn, listed-append, listed-sort, listed-keep, IsKeySet, IsKeySet-snoc, IsKeySet-keep,
  listed-take, IsKeySet-take,
}
use fruit_salade.Browser.Folders.{
  FolderFile, Entry, Entries, file_entry, directory, unreadable, other_entry, no_entries, entry,
  read_entry, read_all_entries, collect_folder_files, extend_dir, dir_paths, parts, add_key,
  add_keys, collect_dirs, digits, array_index, object_keys, dir_list, full_path, make_dirs,
  enqueue_all, FolderUpload, upload_folder_files, upload_files,
}

-- `data-path` and `data-isdir`. The rows of search results have no `data-path`.
pub record Row : Type 0 where
  pub path : Option String
  pub is_dir : Bool

-- `selectedPaths[row.getAttribute('data-path')]`: a missing attribute is the key "null".
abbrev pub key_of : Row → String
key_of r = or_else r.path "null"

-- The rows shown, `selectedPaths` by its keys, `lastClickedIndex` and `kbFocusIndex` (none for -1),
-- and what the document shows: the boxes of the rows, the box of the head, the number in the toolbar.
pub record Picker : Type 0 where
  pub rows : List Row
  pub selected : List String
  pub last_clicked : Option ℕ
  pub focus : Option ℕ
  pub boxes : List Bool
  pub header : Bool
  pub toolbar : Option ℕ

-- `selectedPaths[key] = true`, for a key that is no inherited setter's name: a path begins with a
-- slash, and the other key is "null".
unfoldable pub select_key : String → List String → List String
select_key key keys = if listed key keys then keys else keys ++ key ∷ []

-- `delete selectedPaths[key]`.
unfoldable pub remove_key : String → List String → List String
remove_key key keys = keep (λ k. not (same_text k key)) keys

unfoldable pub add_rows : List Row → List String → List String
add_rows [] keys = keys
add_rows (r ∷ rs) keys = add_rows rs (select_key (key_of r) keys)

unfoldable pub remove_rows : List Row → List String → List String
remove_rows [] keys = keys
remove_rows (r ∷ rs) keys = remove_rows rs (remove_key (key_of r) keys)

-- The rows with an index between two, the first row having the index `i`.
unfoldable pub rows_between : ℕ → ℕ → ℕ → List Row → List Row
rows_between lo hi i [] = []
rows_between lo hi i (r ∷ rs) =
    let rest = rows_between lo hi (i + 1) rs in if leb lo i && leb i hi then r ∷ rest else rest

abbrev pub row_at : List Row → ℕ → Option Row
row_at [] i = none
row_at (r ∷ rs) zero = some r
row_at (r ∷ rs) (suc i) = row_at rs i

abbrev pub boxes_of : List String → List Row → List Bool
boxes_of keys [] = []
boxes_of keys (r ∷ rs) = listed (key_of r) keys ∷ boxes_of keys rs

abbrev pub all_true : List Bool → Bool
all_true [] = true
all_true (b ∷ bs) = b && all_true bs

abbrev pub has_rows : List Row → Bool
has_rows [] = false
has_rows (r ∷ rs) = true

unfoldable pub update_batch_toolbar : Picker → Picker
update_batch_toolbar s = record s {
  toolbar = if length s.selected == 0 then none else some (length s.selected);
}

unfoldable pub sync_checkboxes : Picker → Picker
sync_checkboxes s = record s {
  boxes = boxes_of s.selected s.rows;
  header = has_rows s.rows && all_true (boxes_of s.selected s.rows);
}

unfoldable pub clear_selection : Picker → Picker
clear_selection s = update_batch_toolbar (record s { selected = []; last_clicked = none })

-- What `renderTable`, `renderCompact` and `renderTiles` do of it. They write the boxes anew, the one
-- of the head unchecked.
unfoldable pub render_rows : List Row → Picker → Picker
render_rows rows s =
    if has_rows rows
    then update_batch_toolbar
        (record s { rows = rows; boxes = boxes_of s.selected rows; header = false })
    else clear_selection (record s { rows = []; boxes = []; header = false })

-- `renderView`.
unfoldable pub render_view : List Row → Picker → Picker
render_view rows s = render_rows rows (record s { focus = none })

abbrev pub refresh : Picker → Picker
refresh s = update_batch_toolbar (sync_checkboxes s)

abbrev pub box_at : List Bool → ℕ → Bool
box_at [] i = false
box_at (b ∷ bs) zero = b
box_at (b ∷ bs) (suc i) = box_at bs i

-- A key goes in or out.
unfoldable pub set_key : Bool → String → List String → List String
set_key true key keys = select_key key keys
set_key false key keys = remove_key key keys

abbrev pub range_rows : ℕ → ℕ → List Row → List Row
range_rows i j rows = rows_between (if leb j i then j else i) (if leb j i then i else j) 0 rows

-- A click on the box of a row, which turns the box.
unfoldable pub click_row : Bool → ℕ → Row → Picker → List String
click_row shift i r s =
    let single = set_key (not (box_at s.boxes i)) (key_of r) s.selected in
    elim s.last_clicked [
      | none ↦ single
      | some j ↦ (if shift then add_rows (range_rows i j s.rows) s.selected else single)
    ]

unfoldable pub click_box : Bool → ℕ → Picker → Picker
click_box shift i s = elim (row_at s.rows i) [
  | none ↦ s
  | some r ↦ refresh (record s { selected = click_row shift i r s; last_clicked = some i })
]

-- A click on the box of the head, which turns it.
unfoldable pub click_header : Picker → Picker
click_header s = refresh (record s {
  selected = if s.header then remove_rows s.rows s.selected else add_rows s.rows s.selected;
})

unfoldable pub set_kb_focus : Option ℕ → Picker → Picker
set_kb_focus none s = record s { focus = none }
set_kb_focus (some i) s = record s { focus = if ltb i (length s.rows) then some i else none }

-- The keys of `browserKeyHandler` that change this state.
pub data PickKey : Type 0 where
  ctrl_a escape arrow_down arrow_up space : PickKey

unfoldable pub toggle_focused : Row → Picker → Picker
toggle_focused r s =
    refresh
      (record s { selected = set_key (not (listed (key_of r) s.selected)) (key_of r) s.selected })

unfoldable pub press_key : PickKey → Picker → Picker
press_key ctrl_a s = refresh (record s { selected = add_rows s.rows s.selected })
press_key escape s =
    set_kb_focus none (if length s.selected == 0 then s else sync_checkboxes (clear_selection s))
press_key arrow_down s = elim s.focus [
  | none ↦ set_kb_focus (some 0) s
  | some i ↦ (if ltb (i + 1) (length s.rows) then set_kb_focus (some (i + 1)) s else s)
]
press_key arrow_up s = elim s.focus [
  | none ↦ s
  | some i ↦ (if ltb 0 i then set_kb_focus (some (i - 1)) s else s)
]
press_key space s = elim s.focus [
  | none ↦ s
  | some i ↦ (elim (row_at s.rows i) [ none ↦ s | some r ↦ toggle_focused r s ])
]

-- The button Deselect All.
unfoldable pub deselect_all : Picker → Picker
deselect_all s = sync_checkboxes (clear_selection s)

-- The end of a batch: the selection goes, and the folder is loaded anew.
unfoldable pub end_batch : List Row → Picker → Picker
end_batch rows s = render_view rows (clear_selection s)

-- An error stands in place of the rows.
unfoldable pub fail_load : Picker → Picker
fail_load s = record s { rows = []; boxes = []; header = false }

pub data PickEvent : Type 0 where
  renders_view renders_rows ends_batch : List Row → PickEvent
  clicks_box : Bool → ℕ → PickEvent
  clicks_header deselects_all fails_load : PickEvent
  presses_key : PickKey → PickEvent

unfoldable pub pick : PickEvent → Picker → Picker
pick (renders_view rows) s = render_view rows s
pick (renders_rows rows) s = render_rows rows s
pick (clicks_box shift i) s = click_box shift i s
pick (ends_batch rows) s = end_batch rows s
pick fails_load s = fail_load s
pick clicks_header s = click_header s
pick deselects_all s = deselect_all s
pick (presses_key k) s = press_key k s

unfoldable pub picks : List PickEvent → Picker → Picker
picks [] s = s
picks (e ∷ es) s = picks es (pick e s)

abbrev pub no_rows : Picker
no_rows = record {
  rows = [];
  selected = [];
  last_clicked = none;
  focus = none;
  boxes = [];
  header = false;
  toolbar = none;
}
