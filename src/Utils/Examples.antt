-- ===== src/Utils/Examples.antt =====
-- The theorems about fruitsalade/webapp/js/utils.js at concrete inputs.
use fruit_salade.Base.{String, ◌≡◌, refl, true, false, none, some, List, [], ◌∷◌, listed}
use fruit_salade.Utils.Modal.{
  Overlay, Desk, close_modal, place, open_modal, Key, escape, tab, Gesture, opens, closes, presses,
  focuses, after_gestures, desk,
}
use fruit_salade.Utils.Dialogs.{IsTidy, after_gestures-IsTidy}
use fruit_salade.Utils.Progress.{IsNumbered, after_toasts-IsNumbered}
use fruit_salade.Utils.Toast.{
  shows_progress, removes, dismisses_progress, ToastEvent, after_toasts, empty_tray,
}
use fruit_salade.Utils.Toast.{
  ToastEvent, shows, shows_progress, updates_progress, dismisses_progress, removes,
}
use fruit_salade.Utils.FileTypes.{has_dot, from_last_dot, other, get_ext, detect, icon, image_icon}

abbrev rename_dialog : Overlay
rename_dialog = record { overlay_id = 1; dialog = 10; focusable = 11 ∷ 12 ∷ [] }

abbrev share_dialog : Overlay
share_dialog = record { overlay_id = 2; dialog = 20; focusable = 21 ∷ [] }

abbrev gestures : List Gesture
gestures = opens rename_dialog ∷ presses (tab true) 3 ∷ opens share_dialog ∷ presses escape 0 ∷ []

after_gestures-IsTidy_example : IsTidy (after_gestures gestures (desk 7))
after_gestures-IsTidy_example = after_gestures-IsTidy gestures 7

one-IsTidy : IsTidy (open_modal rename_dialog (desk 7))
unfolding open_modal after_gestures place fruit_salade.Utils.Modal.after_gesture
one-IsTidy = after_gestures-IsTidy (opens rename_dialog ∷ []) 7

abbrev same : String → String
same s = s

-- A name that begins with a dot is taken for an extension as it is.
dotted_name : detect same ".me.png" ≡ other
unfolding detect listed
dotted_name = refl

dotted_icon : icon same ".me.png" false ≡ image_icon
unfolding icon get_ext has_dot from_last_dot listed
dotted_icon = refl

abbrev toasting : List ToastEvent
toasting =
    shows_progress "Moving" (some 0)
    ∷ shows "Saved" (some "success") none
    ∷ shows_progress "Copying" none
    ∷ updates_progress 1 "Moved" (some 100)
    ∷ dismisses_progress 1
    ∷ removes 0
    ∷ []

abbrev two_uploads : List ToastEvent
two_uploads =
    shows_progress "a" none
    ∷ dismisses_progress 1
    ∷ shows_progress "b" (some 5)
    ∷ removes 0
    ∷ shows_progress "c" none
    ∷ []

after_toasts-IsNumbered_example : IsNumbered (after_toasts two_uploads empty_tray)
after_toasts-IsNumbered_example = after_toasts-IsNumbered two_uploads
