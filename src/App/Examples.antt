-- ===== src/App/Examples.antt =====
-- The theorems about fruitsalade/webapp/js/app.js at concrete inputs.
use fruit_salade.Base.{
  ◌≡◌, refl, true, false, not, none, some, [], ◌∷◌, begins_with, has_part, listed, append,
}
use fruit_salade.Api.Model.{Session}
use fruit_salade.App.Model.{
  blank, view, Shell, drop_hash, first_part, get_route, close_more_menu, more_items, update_tab_bar,
  tree_frame, main_frame, draw_page, after_front, drop_text, drop_slash, path_text, reaches_handler,
  show_frame, show_route, navigate, logout_topbar, logout_menu, goes, hash_fires, signs_in,
  token_refused, logs_out_menu, media_changes, after_visit, after_visits, fresh_frame, load,
}
use fruit_salade.Notifications.Model.{
  EventData, Notification, Target, stay, trash, browser, viewer, Badge, hidden, many, number, Toast,
  Center, max_notifications, extract_filename, disconnect, open_source, connect, update_badge,
  dismiss_in, dismiss_toast, remove_toast, make_room, show_toast, path_of, notification,
  keep_newest, on_event, Incoming, file_created, file_modified, file_deleted, file_versioned,
  message, receive, open_panel, close_panel, toggle_panel, navigate_to_file, go_to, click_toast,
  get_elem?, mark_read, click_read, click_item, all_read, mark_all_read, clear_all, Ago, just_now,
  seconds, minutes, hours, days, ago, relative_time, event_label, Happening, connects, disconnects,
  receives, toggles, closes, clicks_toast, clicks_item, toast_times_out, toast_removed,
  marks_all_read, clears_all, ticks, step, run, start,
}
use fruit_salade.App.Frames.{IsConsistent}
use fruit_salade.App.Visits.{load-IsConsistent}
use fruit_salade.Notifications.Model.{
  EventData, Notification, Target, stay, trash, browser, viewer, Badge, hidden, many, number, Toast,
  Center, max_notifications, extract_filename, disconnect, open_source, connect, update_badge,
  dismiss_in, dismiss_toast, remove_toast, make_room, show_toast, path_of, notification,
  keep_newest, on_event, Incoming, file_created, file_modified, file_deleted, file_versioned,
  message, receive, open_panel, close_panel, toggle_panel, navigate_to_file, go_to, click_toast,
  get_elem?, mark_read, click_read, click_item, all_read, mark_all_read, clear_all, Ago, just_now,
  seconds, minutes, hours, days, ago, relative_time, event_label, Happening, connects, disconnects,
  receives, toggles, closes, clicks_toast, clicks_item, toast_times_out, toast_removed,
  marks_all_read, clears_all, ticks, step, run, start,
}
use fruit_salade.Notifications.Counts.{run-IsSound}
use fruit_salade.App.SigningOut.{SignedOut, signing_out}

abbrev guest : Session
guest = record { token = none; username = none; is_admin = none }

abbrev member : Session
member = record { token = some "t"; username = some "ann"; is_admin = some "false" }

abbrev start_page : Shell
start_page = record {
  hash = "#users";
  changes = 0;
  session = member;
  can_decode = λ text. not (has_part "%" text);
  is_mobile = false;
  more_menu_open = true;
  frame = fresh_frame;
  theme = record { attribute = none; saved = none; offers_light = false };
  center = start;
}

abbrev shared_page : Shell
shared_page = record start_page { hash = "#share/x"; session = guest }

load-IsConsistent_example : IsConsistent (
    after_visits
      (signs_in member ∷ goes "#users" ∷ hash_fires ∷ media_changes true ∷ logs_out_menu ∷ [])
      (load (λ text. true) "" guest false true none start))
load-IsConsistent_example =
    load-IsConsistent (λ text. true) "" guest false true none start
      (signs_in member ∷ goes "#users" ∷ hash_fires ∷ media_changes true ∷ logs_out_menu ∷ [])

share_route : get_route "#share/x" ≡ "share"
unfolding get_route drop_hash first_part
share_route = refl

trash_item : listed "trash" (more_items member) ≡ true
unfolding listed more_items
trash_item = refl

-- A name that every object inherits shows neither a view nor "Page not found".
inherited_name : draw_page "constructor" (view "trash") ≡ view "trash"
unfolding draw_page listed
inherited_name = refl

-- A notification sends to the path of a file as it is; one with a per cent sign is not shown.
garbled_path :
    ((navigate (record start_page { hash = "#viewer/50%.txt" })).frame.page ≡ blank)
    × ((navigate (record start_page { hash = "#viewer/50.txt" })).frame.page ≡ view "viewer")
unfolding navigate get_route drop_hash first_part show_route show_frame reaches_handler path_text
    drop_text after_front drop_slash draw_page main_frame tree_frame update_tab_bar close_more_menu
    has_part begins_with listed append
garbled_path = (refl, refl)

abbrev listening_page : Shell
listening_page = record start_page { center = run (connects (some "t") ∷ []) start }

signing_out_example :
    SignedOut [] (logout_topbar listening_page)
    × SignedOut [] (logout_menu listening_page)
    × SignedOut listening_page.center.open_sources (after_visit token_refused listening_page)
signing_out_example = signing_out listening_page (run-IsSound (connects (some "t") ∷ []))

one_left_open : listening_page.center.open_sources ≡ 0 ∷ []
unfolding run fruit_salade.Notifications.Model.step fruit_salade.Notifications.Model.connect
    fruit_salade.Notifications.Model.disconnect fruit_salade.Notifications.Model.open_source
one_left_open = refl
