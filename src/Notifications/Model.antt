-- ===== src/Notifications/Model.antt =====
-- The state and the functions of fruitsalade/webapp/js/notifications.js. What the panel and the
-- toasts look like is left out, and so is the list of parsed fields that nothing reads.
use fruit_salade.Base.{
  ℕ, zero, suc, ◌+◌, ◌-◌, ◌/◌, String, Bool, true, false, ◌||◌, Option, none, some, List, [], ◌∷◌,
  ◌++◌, ltb, leb, ◌==◌, if◌then◌else◌, length, take, remove_first, is_empty, or_text, same_text,
  ends_with, base_of,
}

-- The parsed body of an event.
pub record EventData : Type 0 where
  pub kind : Option String  -- data.type
  pub path : Option String
  pub file_path : Option String
  pub user : Option String
  pub username : Option String
  pub is_dir : Bool

pub record Notification : Type 0 where
  pub kind : String
  pub path : String
  pub filename : String
  pub user : String
  pub time : ℕ
  pub read : Bool
  pub is_dir : Bool

-- Where a click goes: the part of the hash before the path, and the path.
pub data Target : Type 0 where
  stay trash : Target
  browser viewer : String → Target

-- `updateBadge`: hidden, a number, or 99+.
pub data Badge : Type 0 where
  hidden many : Badge
  number : ℕ → Badge

-- A toast in the document, by its number, and whether it is on its way out.
pub record Toast : Type 0 where
  pub toast_id : ℕ
  pub leaving : Bool

-- The variables of the module, the event sources that are open, the toasts in the document, the
-- badge, and the clock.
pub record Center : Type 0 where
  pub source : Option ℕ
  pub open_sources : List ℕ
  pub next_source : ℕ
  pub notifications : List Notification
  pub unread_count : ℕ
  pub panel_open : Bool
  pub toasts : List Toast
  pub next_toast : ℕ
  pub badge : Badge
  pub target : Target
  pub now : ℕ

abbrev pub max_notifications : ℕ
max_notifications = 50

unfoldable pub extract_filename : String → String
extract_filename path = if is_empty path then "Unknown file" else or_text (some (base_of path)) path

-- `disconnect` and `connect`. The token is that of `API.getToken`.
unfoldable pub disconnect : Center → Center
disconnect s = elim s.source [
  | none ↦ s
  | some n ↦ record s { source = none; open_sources = remove_first n s.open_sources }
]

unfoldable pub open_source : Center → Center
open_source s = record s {
  source = some s.next_source;
  open_sources = s.next_source ∷ s.open_sources;
  next_source = s.next_source + 1;
}

unfoldable pub connect : Option String → Center → Center
connect token s =
    let s' = disconnect s in
    elim token [ none ↦ s' | some t ↦ (if is_empty t then s' else open_source s') ]

unfoldable pub update_badge : Center → Center
update_badge s = record s {
  badge =
      if ltb 0 s.unread_count
      then (if ltb 99 s.unread_count then many else number s.unread_count)
      else hidden;
}

-- `dismissToast`: the toast leaves the document 300 ms later.
unfoldable pub dismiss_in : ℕ → List Toast → List Toast
dismiss_in n [] = []
dismiss_in n (t ∷ ts) =
    let rest = dismiss_in n ts in
    (if t.toast_id == n then record t { leaving = true } else t) ∷ rest

unfoldable pub dismiss_toast : ℕ → Center → Center
dismiss_toast n s = record s { toasts = dismiss_in n s.toasts }

unfoldable pub remove_toast : ℕ → List Toast → List Toast
remove_toast n [] = []
remove_toast n (t ∷ ts) = let rest = remove_toast n ts in if t.toast_id == n then rest else t ∷ rest

-- `showNotificationToast`: with three or more in the document, the first is dismissed.
unfoldable pub make_room : List Toast → List Toast
make_room [] = []
make_room (t ∷ ts) = if leb 3 (length (t ∷ ts)) then record t { leaving = true } ∷ ts else t ∷ ts

unfoldable pub show_toast : Center → Center
show_toast s = record s {
  toasts = make_room s.toasts ++ record { toast_id = s.next_toast; leaving = false } ∷ [];
  next_toast = s.next_toast + 1;
}

abbrev pub path_of : EventData → String
path_of d = or_text d.path (or_text d.file_path "")

abbrev pub notification : String → EventData → ℕ → Notification
notification kind d now = record {
  kind = kind;
  path = path_of d;
  filename = extract_filename (path_of d);
  user = or_text d.user (or_text d.username "");
  time = now;
  read = false;
  is_dir = d.is_dir;
}

-- `if (length > maxNotifications) slice(0, maxNotifications)`.
unfoldable pub keep_newest : List Notification → List Notification
keep_newest all = if ltb max_notifications (length all) then take max_notifications all else all

unfoldable pub on_event : String → EventData → Center → Center
on_event kind d s = show_toast (
    update_badge (record s {
      notifications = keep_newest (notification kind d s.now ∷ s.notifications);
      unread_count = s.unread_count + 1;
    }))

-- The listeners by event name; `onmessage` takes the type from the body.
pub data Incoming : Type 0 where
  file_created file_modified file_deleted file_versioned message : Incoming

unfoldable pub receive : Incoming → EventData → Center → Center
receive file_created d s = on_event "create" d s
receive file_modified d s = on_event "modify" d s
receive file_deleted d s = on_event "delete" d s
receive file_versioned d s = on_event "version" d s
receive message d s = on_event (or_text d.kind "modify") d s

unfoldable pub open_panel : Center → Center
open_panel s = record s { panel_open = true }

unfoldable pub close_panel : Center → Center
close_panel s = record s { panel_open = false }

unfoldable pub toggle_panel : Center → Center
toggle_panel s = if s.panel_open then close_panel s else open_panel s

-- `navigateToFile`.
unfoldable pub navigate_to_file : Notification → Target
navigate_to_file n =
    if is_empty n.path
    then stay
    else if same_text n.kind "delete"
    then trash
    else if ends_with "/" n.path || n.is_dir
    then browser n.path
    else viewer n.path

unfoldable pub go_to : Target → Center → Center
go_to stay s = s
go_to t s = record s { target = t }

-- A click on the toast of a notification.
unfoldable pub click_toast : ℕ → Notification → Center → Center
click_toast i n s = go_to (navigate_to_file n) (dismiss_toast i s)

abbrev pub get_elem? : List Notification → ℕ → Option Notification
get_elem? [] i = none
get_elem? (n ∷ ns) zero = some n
get_elem? (n ∷ ns) (suc i) = get_elem? ns i

unfoldable pub mark_read : List Notification → ℕ → List Notification
mark_read [] i = []
mark_read (n ∷ ns) zero = record n { read = true } ∷ ns
mark_read (n ∷ ns) (suc i) = n ∷ mark_read ns i

-- A click on an item of the panel.
unfoldable pub click_read : ℕ → Notification → Center → Center
click_read i n s =
    if n.read
    then s
    else update_badge (record s {
      notifications = mark_read s.notifications i;
      unread_count = s.unread_count - 1;
    })

unfoldable pub click_item : ℕ → Center → Center
click_item i s = elim (get_elem? s.notifications i) [
  | none ↦ s
  | some n ↦ go_to (navigate_to_file n) (close_panel (click_read i n s))
]

unfoldable pub all_read : List Notification → List Notification
all_read [] = []
all_read (n ∷ ns) = record n { read = true } ∷ all_read ns

unfoldable pub mark_all_read : Center → Center
mark_all_read s =
    update_badge (record s { notifications = all_read s.notifications; unread_count = 0 })

unfoldable pub clear_all : Center → Center
clear_all s = update_badge (record s { notifications = []; unread_count = 0 })

-- `relativeTime`, over milliseconds.
pub data Ago : Type 0 where
  just_now : Ago
  seconds minutes hours days : ℕ → Ago

unfoldable pub ago : ℕ → Ago
ago diff =
    if ltb diff 5
    then just_now
    else if ltb diff 60
    then seconds diff
    else if ltb diff 3600
    then minutes (diff / 60)
    else if ltb diff 86400
    then hours (diff / 3600)
    else days (diff / 86400)

unfoldable pub relative_time : ℕ → ℕ → Ago
relative_time now date = ago ((now - date) / 1000)

-- `eventLabel`.
unfoldable pub event_label : String → String
event_label kind =
    if same_text kind "create"
    then "File Created"
    else if same_text kind "modify"
    then "File Modified"
    else if same_text kind "delete"
    then "File Deleted"
    else if same_text kind "version"
    then "New Version"
    else "Notification"

-- What happens to the center.
pub data Happening : Type 0 where
  connects : Option String → Happening
  disconnects : Happening
  receives : Incoming → EventData → Happening
  toggles closes : Happening
  clicks_toast : ℕ → Notification → Happening
  clicks_item : ℕ → Happening
  toast_times_out toast_removed : ℕ → Happening
  marks_all_read clears_all : Happening
  ticks : ℕ → Happening

unfoldable pub step : Happening → Center → Center
step (connects token) s = connect token s
step disconnects s = disconnect s
step (receives i d) s = receive i d s
step toggles s = toggle_panel s
step closes s = close_panel s
step (clicks_toast i n) s = click_toast i n s
step (clicks_item i) s = click_item i s
step (toast_times_out n) s = dismiss_toast n s
step (toast_removed n) s = record s { toasts = remove_toast n s.toasts }
step marks_all_read s = mark_all_read s
step clears_all s = clear_all s
step (ticks n) s = record s { now = s.now + n }

unfoldable pub run : List Happening → Center → Center
run [] s = s
run (e ∷ es) s = run es (step e s)

abbrev pub start : Center
start = record {
  source = none;
  open_sources = [];
  next_source = 0;
  notifications = [];
  unread_count = 0;
  panel_open = false;
  toasts = [];
  next_toast = 0;
  badge = hidden;
  target = stay;
  now = 0;
}
