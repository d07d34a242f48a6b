-- ===== src/Notifications/Examples.antt =====
-- The theorems about fruitsalade/webapp/js/notifications.js at concrete inputs.
use fruit_salade.Base.{ℕ, zero, suc, ◌≡◌, refl, false, none, some, List, [], ◌∷◌, base_of}
use fruit_salade.Notifications.Model.{
  EventData, Notification, number, Center, extract_filename, notification, on_event, file_created,
  message, Happening, connects, receives, toggles, clicks_item, run, start,
}
use fruit_salade.Notifications.Bursts.{visible, burst, visible-burst}
use fruit_salade.Notifications.Counts.{unread, IsSound, run-IsSound, on_event_drifts}

abbrev edit : EventData
edit = record {
  kind = none;
  path = some "/docs/plan.md";
  file_path = none;
  user = none;
  username = none;
  is_dir = false;
}

abbrev day : List Happening
day =
    connects (some "t")
    ∷ receives file_created edit
    ∷ receives message edit
    ∷ toggles
    ∷ clicks_item 0
    ∷ connects (some "t")
    ∷ []

run-IsSound_example : IsSound (run day start)
run-IsSound_example = run-IsSound day

abbrev copies : ℕ → List Notification
copies zero = []
copies (suc n) = notification "modify" edit 0 ∷ copies n

abbrev full : Center
full = record start { notifications = copies 50; unread_count = 50; badge = number 50 }

on_event_drifts_example :
    (unread (on_event "delete" edit full).notifications ≡ 50)
    × ((on_event "delete" edit full).unread_count ≡ 51)
on_event_drifts_example = on_event_drifts "delete" edit full refl refl

name_of_plan : extract_filename "/docs/plan.md" ≡ "plan.md"
unfolding extract_filename base_of
name_of_plan = refl

visible-burst_example : visible (burst 6 "modify" edit start).toasts ≡ 5
visible-burst_example = visible-burst 2 "modify" edit start refl
