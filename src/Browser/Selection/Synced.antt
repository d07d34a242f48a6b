-- ===== src/Browser/Selection/Synced.antt =====
-- The document and the selection of fruitsalade/webapp/js/views/browser.js, as far as the handlers of
-- one opened folder go: those of folders opened before are not among the events.
use fruit_salade.Base.{
  ℕ, ◌+◌, ◌-◌, String, ◌≡◌, refl, inl, inr, Bool, true, false, Option, none, some, List, [], ◌∷◌,
  arith, ltb, ◌==◌, if◌then◌else◌, Bool-cases, Option-cases, length, IsKeySet,
}
use fruit_salade.Browser.Selection.{
  Row, key_of, Picker, add_rows, remove_rows, row_at, boxes_of, all_true, update_batch_toolbar,
  sync_checkboxes, clear_selection, render_rows, render_view, refresh, range_rows, click_row,
  click_box, click_header, set_kb_focus, PickKey, ctrl_a, escape, arrow_down, arrow_up, space,
  toggle_focused, press_key, deselect_all, end_batch, fail_load, PickEvent, renders_view,
  renders_rows, ends_batch, clicks_box, clicks_header, deselects_all, fails_load, presses_key, pick,
  picks, no_rows,
}
use fruit_salade.Browser.Selection.Sets.{set_key-IsKeySet, add_rows-IsKeySet, remove_rows-IsKeySet}

abbrev pub count_shown : List String → Option ℕ
count_shown keys = if length keys == 0 then none else some (length keys)

-- No key is kept twice, the boxes of the rows and the number in the toolbar are those of the
-- selection, and the box of the head is checked only where all rows are selected.
pub record IsSynced (s : Picker) : Type 0 where
  pub once : IsKeySet s.selected
  pub boxes_right : s.boxes ≡ boxes_of s.selected s.rows
  pub toolbar_right : s.toolbar ≡ count_shown s.selected
  pub header_right : s.header ≡ true → all_true (boxes_of s.selected s.rows) ≡ true

refresh-IsSynced : (s : Picker) → IsKeySet s.selected → IsSynced (refresh s)
unfolding update_batch_toolbar sync_checkboxes
refresh-IsSynced s h = record {
  once = h;
  boxes_right = refl;
  toolbar_right = refl;
  header_right = λ e. ground arith;
}

deselect_all-IsSynced : (s : Picker) → IsSynced (deselect_all s)
unfolding deselect_all sync_checkboxes clear_selection update_batch_toolbar
deselect_all-IsSynced s = record {
  once = tt;
  boxes_right = refl;
  toolbar_right = refl;
  header_right = λ e. ground arith;
}

render_rows-IsSynced :
    (rows : List Row) (s : Picker) → IsKeySet s.selected → IsSynced (render_rows rows s)
unfolding render_rows clear_selection update_batch_toolbar
render_rows-IsSynced [] s h = record {
  once = tt;
  boxes_right = refl;
  toolbar_right = refl;
  header_right = λ e. cc;
}
render_rows-IsSynced (r ∷ rows) s h = record {
  once = h;
  boxes_right = refl;
  toolbar_right = refl;
  header_right = λ e. cc;
}

-- A change of the focus and of the last click alone.
same-IsSynced :
    (focus last : Option ℕ) (s : Picker)
    → IsSynced s
    → IsSynced (record s { focus = focus; last_clicked = last })
same-IsSynced focus last s h = record {
  once = h.once;
  boxes_right = h.boxes_right;
  toolbar_right = h.toolbar_right;
  header_right = h.header_right;
}

set_kb_focus-IsSynced : (i : Option ℕ) (s : Picker) → IsSynced s → IsSynced (set_kb_focus i s)
unfolding set_kb_focus
set_kb_focus-IsSynced none s h = same-IsSynced none s.last_clicked s h
set_kb_focus-IsSynced (some i) s h =
    same-IsSynced (if ltb i (length s.rows) then some i else none) s.last_clicked s h

click_row-IsKeySet :
    (shift : Bool) (i : ℕ) (r : Row) (s : Picker)
    → IsKeySet s.selected
    → IsKeySet (click_row shift i r s)
unfolding click_row
click_row-IsKeySet shift i r s h = elim (Option-cases s.last_clicked) [
  | inl e ↦ rw (e, click_row) (set_key-IsKeySet _ (key_of r) s.selected h)
  | inr (j, e) ↦
      rw (e, click_row)
        (elim (Bool-cases shift) [
          | inl b ↦ rw b (add_rows-IsKeySet (range_rows i j s.rows) s.selected h)
          | inr b ↦ rw b (set_key-IsKeySet _ (key_of r) s.selected h)
        ])
]

click_box-IsSynced :
    (shift : Bool) (i : ℕ) (s : Picker) → IsSynced s → IsSynced (click_box shift i s)
unfolding click_box
click_box-IsSynced shift i s h = elim (Option-cases (row_at s.rows i)) [
  | inl e ↦ rw (e, click_box) h
  | inr (r, e) ↦ rw (e, click_box) (refresh-IsSynced _ (click_row-IsKeySet shift i r s h.once))
]

click_header-IsSynced : (s : Picker) → IsSynced s → IsSynced (click_header s)
unfolding click_header
click_header-IsSynced s h = refresh-IsSynced _ (chosen s.header)
  where
    chosen :
        (b : Bool)
        → IsKeySet (if b then remove_rows s.rows s.selected else add_rows s.rows s.selected)
    chosen true = remove_rows-IsKeySet s.rows s.selected h.once
    chosen false = add_rows-IsKeySet s.rows s.selected h.once

either-IsSynced :
    (b : Bool) (s t : Picker) → IsSynced s → IsSynced t → IsSynced (if b then s else t)
either-IsSynced true s t h k = h
either-IsSynced false s t h k = k

press_key-IsSynced : (k : PickKey) (s : Picker) → IsSynced s → IsSynced (press_key k s)
unfolding press_key toggle_focused deselect_all
press_key-IsSynced ctrl_a s h = refresh-IsSynced _ (add_rows-IsKeySet s.rows s.selected h.once)
press_key-IsSynced escape s h = set_kb_focus-IsSynced none _ (
    either-IsSynced (length s.selected == 0) s (sync_checkboxes (clear_selection s)) h
      (deselect_all-IsSynced s))
press_key-IsSynced arrow_down s h = elim (Option-cases s.focus) [
  | inl e ↦ rw (e, press_key) (set_kb_focus-IsSynced (some 0) s h)
  | inr (i, e) ↦
      rw (e, press_key)
        (either-IsSynced (ltb (i + 1) (length s.rows)) (set_kb_focus (some (i + 1)) s) s
          (set_kb_focus-IsSynced (some (i + 1)) s h) h)
]
press_key-IsSynced arrow_up s h = elim (Option-cases s.focus) [
  | inl e ↦ rw (e, press_key) h
  | inr (i, e) ↦
      rw (e, press_key)
        (either-IsSynced (ltb 0 i) (set_kb_focus (some (i - 1)) s) s
          (set_kb_focus-IsSynced (some (i - 1)) s h) h)
]
press_key-IsSynced space s h = elim (Option-cases s.focus) [
  | inl e ↦ rw (e, press_key) h
  | inr (i, e) ↦ elim (Option-cases (row_at s.rows i)) [
    | inl f ↦ rw (e, press_key, f, press_key) h
    | inr (r, f) ↦
        rw (e, press_key, f, press_key)
          (refresh-IsSynced _ (set_key-IsKeySet _ (key_of r) s.selected h.once))
  ]
]

-- Every event leaves the document in step with the selection.
pub pick-IsSynced : (e : PickEvent) (s : Picker) → IsSynced s → IsSynced (pick e s)
unfolding pick render_view end_batch fail_load clear_selection update_batch_toolbar
pick-IsSynced (renders_view rows) s h = render_rows-IsSynced rows _ h.once
pick-IsSynced (renders_rows rows) s h = render_rows-IsSynced rows s h.once
pick-IsSynced (ends_batch rows) s h = render_rows-IsSynced rows _ tt
pick-IsSynced fails_load s h = record {
  once = h.once;
  boxes_right = refl;
  toolbar_right = h.toolbar_right;
  header_right = λ e. cc;
}
pick-IsSynced (clicks_box shift i) s h = click_box-IsSynced shift i s h
pick-IsSynced clicks_header s h = click_header-IsSynced s h
pick-IsSynced deselects_all s h = deselect_all-IsSynced s
pick-IsSynced (presses_key k) s h = press_key-IsSynced k s h

picks-IsSynced_from : (es : List PickEvent) (s : Picker) → IsSynced s → IsSynced (picks es s)
unfolding picks
picks-IsSynced_from [] s h = h
picks-IsSynced_from (e ∷ es) s h = picks-IsSynced_from es (pick e s) (pick-IsSynced e s h)

-- From an empty table and after any rows shown, clicks and keys, while only the handlers of this
-- folder are attached: no key is kept twice, the boxes
-- of the rows and the number in the toolbar are those of the selection, and the box of the head is
-- checked only where every row is selected.
pub picks-IsSynced : (es : List PickEvent) → IsSynced (picks es no_rows)
picks-IsSynced es =
    picks-IsSynced_from es no_rows
      (record { once = tt; boxes_right = refl; toolbar_right = refl; header_right = λ e. cc })
