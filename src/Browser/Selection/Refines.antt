-- ===== src/Browser/Selection/Refines.antt =====
-- The selection of fruitsalade/webapp/js/views/browser.js implements a set of keys.
use fruit_salade.Base.{
  ℕ, zero, suc, ◌+◌, ◌-◌, String, ◌≡◌, refl, ap, ◌∙◌, inl, inr, Bool, true, false, not, ◌&&◌, ◌||◌,
  Option, none, some, List, [], ◌∷◌, arith, ltb, leb, ◌==◌, if◌then◌else◌, Bool-cases, Option-cases,
  length, same_text, same_text→≡, listed,
}
use fruit_salade.Browser.Selection.{
  Row, key_of, Picker, add_rows, row_at, boxes_of, has_rows, update_batch_toolbar, sync_checkboxes,
  clear_selection, render_rows, render_view, box_at, set_key, range_rows, click_row, click_box,
  click_header, set_kb_focus, PickKey, ctrl_a, escape, arrow_down, arrow_up, space, toggle_focused,
  press_key, deselect_all, end_batch, fail_load, PickEvent, renders_view, renders_rows, ends_batch,
  clicks_box, clicks_header, deselects_all, fails_load, presses_key, pick,
}
use fruit_salade.Browser.Selection.Sets.{
  in_rows, listed-set_key, listed-add_rows, listed-remove_rows,
}
use fruit_salade.Browser.Selection.Ranges.{slice, rows_between-slice}
use fruit_salade.Browser.Selection.Synced.{IsSynced}

-- A selection as a set of keys.
abbrev pub KeySet : Type 0
KeySet = String → Bool

abbrev pub toggled : String → KeySet → KeySet
toggled key keys k = if same_text k key then not (keys k) else keys k

abbrev pub with_rows : List Row → KeySet → KeySet
with_rows rs keys k = keys k || in_rows k rs

abbrev pub without_rows : List Row → KeySet → KeySet
without_rows rs keys k = keys k && not (in_rows k rs)

abbrev pub no_keys : KeySet
no_keys k = false

abbrev pub on_row : Option Row → (Row → KeySet) → KeySet → KeySet
on_row none change keys = keys
on_row (some r) change keys = change r

-- A click turns the row of the box, or with shift adds the rows from the one clicked last to this
-- one, whichever comes first.
abbrev pub clicked : Bool → Option ℕ → ℕ → List Row → Row → KeySet → KeySet
clicked true (some j) i rows r keys =
    with_rows (if leb j i then slice j i rows else slice i j rows) keys
clicked true none i rows r keys = toggled (key_of r) keys
clicked false last i rows r keys = toggled (key_of r) keys

abbrev pub focused_row : Option ℕ → List Row → Option Row
focused_row none rows = none
focused_row (some i) rows = row_at rows i

-- What each event means for the set.
abbrev pub meaning : PickEvent → Picker → KeySet → KeySet
meaning (renders_view rows) s keys = if has_rows rows then keys else no_keys
meaning (renders_rows rows) s keys = if has_rows rows then keys else no_keys
meaning (ends_batch rows) s keys = no_keys
meaning fails_load s keys = keys
meaning (clicks_box shift i) s keys =
    on_row (row_at s.rows i) (λ r. clicked shift s.last_clicked i s.rows r keys) keys
meaning clicks_header s keys = if s.header then without_rows s.rows keys else with_rows s.rows keys
meaning deselects_all s keys = no_keys
meaning (presses_key ctrl_a) s keys = with_rows s.rows keys
meaning (presses_key escape) s keys = no_keys
meaning (presses_key arrow_down) s keys = keys
meaning (presses_key arrow_up) s keys = keys
meaning (presses_key space) s keys =
    on_row (focused_row s.focus s.rows) (λ r. toggled (key_of r) keys) keys

abbrev pub set_of : Picker → KeySet
set_of s k = listed k s.selected

set_key-toggled :
    (k key : String) (keys : List String)
    → listed k (set_key (not (listed key keys)) key keys) ≡ toggled key (λ j. listed j keys) k
set_key-toggled k key keys = elim (Bool-cases (same_text k key)) [
  | inl e ↦ listed-set_key (not (listed key keys)) k key keys ∙ rw (e, same_text→≡ k key e) refl
  | inr e ↦ listed-set_key (not (listed key keys)) k key keys ∙ rw e refl
]

box_at-boxes_of :
    (keys : List String) (rows : List Row) (i : ℕ) (r : Row)
    → row_at rows i ≡ some r
    → box_at (boxes_of keys rows) i ≡ listed (key_of r) keys
box_at-boxes_of keys [] i r e = cc
box_at-boxes_of keys (x ∷ rows) zero r e = ground arith
box_at-boxes_of keys (x ∷ rows) (suc i) r e = box_at-boxes_of keys rows i r e

module _ (k : String) where
  listed-click_row :
      (shift : Bool) (i : ℕ) (r : Row) (s : Picker)
      → box_at s.boxes i ≡ listed (key_of r) s.selected
      → listed k (click_row shift i r s) ≡ clicked shift s.last_clicked i s.rows r (set_of s) k
  unfolding click_row
  listed-click_row shift i r s b = elim (Option-cases s.last_clicked) [
    | inl e ↦ rw (e, click_row) (alone shift)
    | inr (j, e) ↦ rw (e, click_row) (chosen shift j)
  ]
    where
      single :
          listed k (set_key (not (box_at s.boxes i)) (key_of r) s.selected)
          ≡ toggled (key_of r) (set_of s) k
      single =
          ap (λ c. listed k (set_key (not c) (key_of r) s.selected)) b
          ∙ set_key-toggled k (key_of r) s.selected

      alone :
          (c : Bool)
          → listed k (set_key (not (box_at s.boxes i)) (key_of r) s.selected)
            ≡ clicked c none i s.rows r (set_of s) k
      alone true = single
      alone false = single

      range :
          (i j : ℕ) (rows : List Row)
          → range_rows i j rows ≡ (if leb j i then slice j i rows else slice i j rows)
      range i j rows = elim (Bool-cases (leb j i)) [
        | inl e ↦ rw e (rows_between-slice j i rows)
        | inr e ↦ rw e (rows_between-slice i j rows)
      ]

      chosen :
          (c : Bool) (j : ℕ)
          → listed k (
              if c
              then add_rows (range_rows i j s.rows) s.selected
              else set_key (not (box_at s.boxes i)) (key_of r) s.selected)
            ≡ clicked c (some j) i s.rows r (set_of s) k
      chosen true j =
          listed-add_rows k (range_rows i j s.rows) s.selected
          ∙ ap (λ rs. listed k s.selected || in_rows k rs) (range i j s.rows)
      chosen false j = single

  listed-render_rows :
      (rows : List Row) (s : Picker)
      → listed k (render_rows rows s).selected ≡ (if has_rows rows then set_of s else no_keys) k
  unfolding render_rows clear_selection update_batch_toolbar listed
  listed-render_rows [] s = refl
  listed-render_rows (r ∷ rows) s = refl

  listed-set_kb_focus :
      (i : Option ℕ) (s : Picker) → listed k (set_kb_focus i s).selected ≡ listed k s.selected
  unfolding set_kb_focus
  listed-set_kb_focus none s = refl
  listed-set_kb_focus (some i) s = refl

  listed-nothing : (keys : List String) → (length keys == 0) ≡ true → listed k keys ≡ false
  unfolding listed
  listed-nothing [] h = refl
  listed-nothing (x ∷ keys) h = absurd (ground arith)

  listed-press_key :
      (key : PickKey) (s : Picker)
      → listed k (press_key key s).selected ≡ meaning (presses_key key) s (set_of s) k
  unfolding press_key toggle_focused sync_checkboxes update_batch_toolbar clear_selection
  listed-press_key ctrl_a s = listed-add_rows k s.rows s.selected
  listed-press_key escape s = elim (Bool-cases (length s.selected == 0)) [
    | inl e ↦ unfold set_kb_focus in rw e (listed-nothing s.selected e)
    | inr e ↦ unfold set_kb_focus listed in rw e refl
  ]
  listed-press_key arrow_down s = elim (Option-cases s.focus) [
    | inl e ↦ rw (e, press_key) (listed-set_kb_focus (some 0) s)
    | inr (i, e) ↦ elim (Bool-cases (ltb (i + 1) (length s.rows))) [
      | inl b ↦ rw (e, press_key, b) (listed-set_kb_focus (some (i + 1)) s)
      | inr b ↦ rw (e, press_key, b) refl
    ]
  ]
  listed-press_key arrow_up s = elim (Option-cases s.focus) [
    | inl e ↦ rw (e, press_key) refl
    | inr (i, e) ↦ elim (Bool-cases (ltb 0 i)) [
      | inl b ↦ rw (e, press_key, b) (listed-set_kb_focus (some (i - 1)) s)
      | inr b ↦ rw (e, press_key, b) refl
    ]
  ]
  listed-press_key space s = elim (Option-cases s.focus) [
    | inl e ↦ rw (e, press_key) refl
    | inr (i, e) ↦ elim (Option-cases (row_at s.rows i)) [
      | inl f ↦ rw (e, press_key, f, press_key) refl
      | inr (r, f) ↦ rw (e, press_key, f, press_key) (set_key-toggled k (key_of r) s.selected)
    ]
  ]

  listed-click_box :
      (shift : Bool) (i : ℕ) (s : Picker)
      → IsSynced s
      → listed k (click_box shift i s).selected ≡ meaning (clicks_box shift i) s (set_of s) k
  unfolding click_box sync_checkboxes update_batch_toolbar
  listed-click_box shift i s h = elim (Option-cases (row_at s.rows i)) [
    | inl e ↦ rw (e, click_box) refl
    | inr (r, e) ↦
        rw (e, click_box)
          (listed-click_row shift i r s
            (ap (λ b. box_at b i) h.boxes_right ∙ box_at-boxes_of s.selected s.rows i r e))
  ]

-- Each event changes the selection as its meaning says: a row's box turns the row, with shift it
-- adds all rows from the one clicked last, the box of the head and Ctrl+A add all rows (the former
-- takes them out again when it is checked), the space key turns the row with the focus, an empty
-- folder, a batch, Escape and Deselect All leave nothing, and the rest changes nothing.
pub set_of-pick :
    (e : PickEvent) (s : Picker) (k : String)
    → IsSynced s
    → set_of (pick e s) k ≡ meaning e s (set_of s) k
unfolding pick render_view end_batch fail_load click_header deselect_all sync_checkboxes
    clear_selection update_batch_toolbar listed
set_of-pick (renders_view rows) s k h = listed-render_rows k rows _
set_of-pick (renders_rows rows) s k h = listed-render_rows k rows s
set_of-pick (ends_batch []) s k h = listed-render_rows k [] _
set_of-pick (ends_batch (r ∷ rows)) s k h = listed-render_rows k (r ∷ rows) _
set_of-pick fails_load s k h = refl
set_of-pick (clicks_box shift i) s k h = listed-click_box k shift i s h
set_of-pick clicks_header s k h = elim (Bool-cases s.header) [
  | inl e ↦ simp e (listed-remove_rows k s.rows s.selected)
  | inr e ↦ simp e (listed-add_rows k s.rows s.selected)
]
set_of-pick deselects_all s k h = refl
set_of-pick (presses_key key) s k h = listed-press_key k key s
