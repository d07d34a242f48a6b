-- ===== src/Utils/Dialogs.antt =====
-- The dialogs of fruitsalade/webapp/js/utils.js.
use fruit_salade.Base.{
  ℕ, ◌≡◌, refl, inl, inr, Bool, Option, none, some, List, [], ◌∷◌, ==_refl, Bool-cases,
  Option-cases, is_some, or_else,
}
use fruit_salade.Utils.Modal.{
  Overlay, Desk, remove_overlay, drop_overlay, restore_focus, close_modal, place, open_modal, Key,
  escape, other_key, tab, on_key_down, Gesture, opens, closes, presses, focuses, after_gesture,
  after_gestures, desk,
}

abbrev pub overlays_of : Option Overlay → List Overlay
overlays_of none = []
overlays_of (some o) = o ∷ []

-- The overlay in the document is the one that the module knows, and the listener of keys and the
-- element to go back to are there exactly while a dialog is open.
pub record IsTidy (s : Desk) : Type 0 where
  pub one_overlay : s.overlays ≡ overlays_of s.current_overlay
  pub listens : s.listening ≡ is_some s.current_overlay
  pub way_back : is_some s.previous_focus ≡ is_some s.current_overlay

desk-IsTidy : (e : ℕ) → IsTidy (desk e)
desk-IsTidy e = record { one_overlay = refl; listens = refl; way_back = refl }

closing :
    (os : List Overlay) (c : Option Overlay) (p : Option ℕ) (a : ℕ) (l : Bool)
    → os ≡ overlays_of c
    → is_some p ≡ is_some c
    → close_modal (record {
      overlays = os;
      current_overlay = c;
      previous_focus = p;
      active_element = a;
      listening = l;
    })
      ≡ desk (or_else p a)
unfolding close_modal drop_overlay restore_focus remove_overlay
closing os none none a l e h = rw e refl
closing os none (some p) a l e h = cc
closing os (some o) none a l e h = cc
closing os (some o) (some p) a l e h = rw (e, ==_refl o.overlay_id) refl

-- Closing leaves the desk without a dialog and gives the focus back.
close_modal-desk :
    (s : Desk) → IsTidy s → close_modal s ≡ desk (or_else s.previous_focus s.active_element)
close_modal-desk s h =
    closing s.overlays s.current_overlay s.previous_focus s.active_element s.listening h.one_overlay
      h.way_back

close_modal-IsTidy : (s : Desk) → IsTidy s → IsTidy (close_modal s)
close_modal-IsTidy s h = rw (close_modal-desk s h) (desk-IsTidy _)

open_modal-IsTidy : (o : Overlay) (s : Desk) → IsTidy s → IsTidy (open_modal o s)
unfolding open_modal place
open_modal-IsTidy o s h =
    rw (close_modal-desk s h) (record { one_overlay = refl; listens = refl; way_back = refl })

moved-IsTidy : (e : ℕ) (s : Desk) → IsTidy s → IsTidy (record s { active_element = e })
moved-IsTidy e s h = record {
  one_overlay = h.one_overlay;
  listens = h.listens;
  way_back = h.way_back;
}

on_key_down-IsTidy : (k : Key) (free : ℕ) (s : Desk) → IsTidy s → IsTidy (on_key_down k free s)
unfolding on_key_down
on_key_down-IsTidy escape free s h = close_modal-IsTidy s h
on_key_down-IsTidy other_key free s h = h
on_key_down-IsTidy (tab shift) free s h = elim (Option-cases s.current_overlay) [
  | inl e ↦ rw (e, on_key_down) (moved-IsTidy free s h)
  | inr (o, e) ↦ rw (e, on_key_down) (moved-IsTidy _ s h)
]

after_gesture-IsTidy : (g : Gesture) (s : Desk) → IsTidy s → IsTidy (after_gesture g s)
unfolding after_gesture
after_gesture-IsTidy (opens o) s h = open_modal-IsTidy o s h
after_gesture-IsTidy closes s h = close_modal-IsTidy s h
after_gesture-IsTidy (presses k free) s h = elim (Bool-cases s.listening) [
  | inl e ↦ simp e (on_key_down-IsTidy k free s h)
  | inr e ↦ simp e h
]
after_gesture-IsTidy (focuses e) s h = moved-IsTidy e s h

run-IsTidy : (gs : List Gesture) (s : Desk) → IsTidy s → IsTidy (after_gestures gs s)
unfolding after_gestures
run-IsTidy [] s h = h
run-IsTidy (g ∷ gs) s h = run-IsTidy gs (after_gesture g s) (after_gesture-IsTidy g s h)

-- After any openings, closings, keys and moves of the focus, the document has exactly the overlay
-- that the module knows, and the listener of keys and the element to go back to are kept exactly
-- while a dialog is open.
pub after_gestures-IsTidy : (gs : List Gesture) (e : ℕ) → IsTidy (after_gestures gs (desk e))
after_gestures-IsTidy gs e = run-IsTidy gs (desk e) (desk-IsTidy e)

-- A dialog opened over another one and then closed leaves what closing the other would have left: no
-- dialog is shown, and the focus is back where it was before the first one.
pub close_modal-open_modal :
    (o : Overlay) (s : Desk)
    → IsTidy s
    → (close_modal (open_modal o s) ≡ close_modal s)
      × (close_modal s ≡ desk (or_else s.previous_focus s.active_element))
unfolding open_modal place
close_modal-open_modal o s h =
    let e = close_modal-desk s h in
    (
      rw e (
          close_modal-desk (place o (desk (or_else s.previous_focus s.active_element)))
            (record { one_overlay = refl; listens = refl; way_back = refl })),
      e,
    )
