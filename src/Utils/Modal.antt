-- ===== src/Utils/Modal.antt =====
-- `Modal` of fruitsalade/webapp/js/utils.js. An element of the document is a number; what the
-- dialog holds is the list of its elements that can have the focus.
use fruit_salade.Base.{
  ℕ, Bool, true, false, ◌||◌, Option, none, some, List, [], ◌∷◌, ◌++◌, ◌==◌, if◌then◌else◌, or_else,
}

-- An overlay in the document with its dialog and what of it takes the focus.
pub record Overlay : Type 0 where
  pub overlay_id : ℕ
  pub dialog : ℕ
  pub focusable : List ℕ

-- `listening`: `onKeyDown` is attached; attaching it twice is attaching it once.
pub record Desk : Type 0 where
  pub overlays : List Overlay
  pub current_overlay : Option Overlay
  pub previous_focus : Option ℕ
  pub active_element : ℕ
  pub listening : Bool

unfoldable pub remove_overlay : ℕ → List Overlay → List Overlay
remove_overlay n [] = []
remove_overlay n (o ∷ os) =
    let rest = remove_overlay n os in if o.overlay_id == n then rest else o ∷ rest

unfoldable pub drop_overlay : Desk → Desk
drop_overlay s = elim s.current_overlay [
  | none ↦ s
  | some o ↦ record s { overlays = remove_overlay o.overlay_id s.overlays; current_overlay = none }
]

unfoldable pub restore_focus : Desk → Desk
restore_focus s = elim s.previous_focus [
  | none ↦ s
  | some e ↦ record s { active_element = e; previous_focus = none }
]

unfoldable pub close_modal : Desk → Desk
close_modal s = restore_focus (record (drop_overlay s) { listening = false })

unfoldable pub place : Overlay → Desk → Desk
place o s = record s {
  previous_focus = some s.active_element;
  overlays = s.overlays ++ o ∷ [];
  current_overlay = some o;
  active_element = o.dialog;
  listening = true;
}

unfoldable pub open_modal : Overlay → Desk → Desk
open_modal o s = place o (close_modal s)

-- The last of a list that begins with `first`.
unfoldable pub last_of : ℕ → List ℕ → ℕ
last_of first [] = first
last_of first (x ∷ xs) = last_of x xs

-- `trapFocus`: the element that gets the focus in place of the browser's choice.
unfoldable pub trap_focus : Bool → ℕ → ℕ → List ℕ → Option ℕ
trap_focus shift active dialog [] = none
trap_focus shift active dialog (first ∷ rest) =
    let last = last_of first rest in
    if shift
    then (if active == first || active == dialog then some last else none)
    else (if active == last then some first else none)

pub data Key : Type 0 where
  escape other_key : Key
  tab : Bool → Key

-- `onKeyDown`, when it is attached. Where the browser moves the focus itself, this is `free`.
unfoldable pub on_key_down : Key → ℕ → Desk → Desk
on_key_down escape free s = close_modal s
on_key_down other_key free s = s
on_key_down (tab shift) free s = elim s.current_overlay [
  | none ↦ record s { active_element = free }
  | some o ↦ record s {
    active_element = or_else (trap_focus shift s.active_element o.dialog o.focusable) free;
  }
]

pub data Gesture : Type 0 where
  opens : Overlay → Gesture
  closes : Gesture
  presses : Key → ℕ → Gesture
  focuses : ℕ → Gesture

unfoldable pub after_gesture : Gesture → Desk → Desk
after_gesture (opens o) s = open_modal o s
after_gesture closes s = close_modal s
after_gesture (presses k free) s = if s.listening then on_key_down k free s else s
after_gesture (focuses e) s = record s { active_element = e }

unfoldable pub after_gestures : List Gesture → Desk → Desk
after_gestures [] s = s
after_gestures (g ∷ gs) s = after_gestures gs (after_gesture g s)

abbrev pub desk : ℕ → Desk
desk e = record {
  overlays = [];
  current_overlay = none;
  previous_focus = none;
  active_element = e;
  listening = false;
}
