-- ===== src/Transfers/Actions.antt =====
-- What the user and the browser ask of fruitsalade/webapp/js/transfers.js: start of the page,
-- enqueue, pause, resume, retry, cancel, and the actions on all transfers.
use fruit_salade.Base.{
  ℕ, zero, suc, ◌+◌, String, Bool, true, false, not, ◌&&◌, ◌||◌, Option, none, some, List, [], ◌∷◌,
  ◌++◌, ◌==◌, if◌then◌else◌, is_some, or_else, length, update, remove_first,
}
use fruit_salade.Transfers.Model.{
  queued, paused, failed, paused_by_user, file_lost, still, File, Saved, Transfer, delete_upload,
  abort_xhr, State,
}
use fruit_salade.Transfers.Store.{
  is_queued, is_uploading, is_paused, is_completed, is_failed, status_of, file_of, modify,
  modify_saved, db_put, db_delete, send, set_active, has_pending, find_transfer, show_panel,
  hide_panel, update_badge, render_panel,
}
use fruit_salade.Transfers.Upload.{is_text, process_queue, pause_transfer}

-- The object that a record from the database becomes: no field that begins with `_`.
abbrev pub from_saved : Saved → Transfer
from_saved r = record { saved = r; file = none; start_time = 0; start_loaded = 0 }

-- Stands in the heap where there is no object.
abbrev pub no_record : Saved
no_record = record {
  path = "";
  file_name = "";
  file_size = 0;
  upload_id = none;
  chunk_size = 0;
  total_chunks = 0;
  completed_chunks = [];
  status = failed;
  added_at = 0;
  speed = still;
  loaded = 0;
  error = none;
  needs_file = false;
}

-- The keys of the records of the database, in ascending order.
unfoldable pub keys_below : ℕ → (ℕ → Option Saved) → List ℕ
keys_below zero db = []
keys_below (suc k) db =
    let rest = keys_below k db in if is_some (db k) then rest ++ k ∷ [] else rest

-- `dbGetAll`: all records by ascending id, as new objects.
unfoldable pub get_all : (ℕ → Option Saved) → ℕ → Transfer
get_all db id = from_saved (or_else (db id) no_record)

-- `init`: what was uploading when the page went away is paused, and wants its file again.
unfoldable pub pause_interrupted : List ℕ → State → State
pause_interrupted [] s = s
pause_interrupted (id ∷ ids) s = pause_interrupted ids (
    if is_uploading (status_of s id)
    then db_put id (modify_saved (λ t. record t { status = paused; needs_file = true }) id s)
    else s)

-- The page as it is when the script has been read: only the database is left of what was before.
unfoldable pub fresh_page : (ℕ → Option Saved) → ℕ → ℕ → State
fresh_page db next_key clock = record {
  heap = get_all db;
  transfers = keys_below next_key db;
  storing = [];
  active = none;
  db = db;
  next_key = next_key;
  clock = clock;
  requests = [];
  notices = [];
  ui = record {
    panel_visible = false;
    button_shown = false;
    badge = none;
    render_queued = false;
    hide_timer = false;
  };
}

unfoldable pub init : (ℕ → Option Saved) → ℕ → ℕ → State
init db next_key clock =
    let s = fresh_page db next_key clock in
    let s' = update_badge (pause_interrupted s.transfers s) in
    if has_pending s' then render_panel s' else s'

-- `enqueue` up to the answer of the database, which gives the record the next key as its id.
abbrev pub new_record : File → String → ℕ → Saved
new_record file path now = record {
  path = path;
  file_name = file.name;
  file_size = length file.bytes;
  upload_id = none;
  chunk_size = 0;
  total_chunks = 0;
  completed_chunks = [];
  status = queued;
  added_at = now;
  speed = still;
  loaded = 0;
  error = none;
  needs_file = false;
}

unfoldable pub enqueue : File → String → State → State
enqueue file path s =
    let r = new_record file path s.clock in
    let id = s.next_key in
    record s {
      heap = update s.heap id (from_saved r);
      db = update s.db id (some r);
      next_key = id + 1;
      storing = s.storing ++ (id, file) ∷ [];
    }

-- `enqueue` after the answer of the database.
unfoldable pub append_stored : ℕ → File → State → State
append_stored id file s =
    let s1 = modify (λ t. record t { file = some file }) id s in
    let s2 = record s1 { transfers = s.transfers ++ id ∷ [] } in
    render_panel (show_panel (update_badge s2))

unfoldable pub stored : State → State
stored s = elim s.storing [
  | [] ↦ s
  | (id, file) ∷ rest ↦ process_queue (append_stored id file (record s { storing = rest }))
]

-- `activeTransferId === id && activeXHR`.
abbrev pub is_active : Option ℕ → ℕ → Bool
is_active none id = false
is_active (some a) id = a == id

unfoldable pub abort_if_active : ℕ → State → State
abort_if_active id s = if is_active s.active id then set_active none (send (abort_xhr id) s) else s

unfoldable pub pause : ℕ → State → State
pause id s =
    if find_transfer id s && is_uploading (status_of s id)
    then pause_transfer id paused_by_user (abort_if_active id s)
    else s

unfoldable pub attach : Option File → ℕ → State → State
attach none id s = s
attach (some file) id s =
    modify (λ t. record t { saved = record t.saved { needs_file = false }; file = some file }) id s

unfoldable pub ask_for_file : ℕ → State → State
ask_for_file id s =
    render_panel
      (db_put id (modify_saved (λ t. record t { needs_file = true; error = some file_lost }) id s))

unfoldable pub requeue : ℕ → State → State
requeue id s =
    let s1 = modify_saved (λ t. record t { status = queued; error = none }) id s in
    update_badge (render_panel (db_put id s1))

unfoldable pub resume : ℕ → Option File → State → State
resume id file s =
    if find_transfer id s && (is_paused (status_of s id) || is_failed (status_of s id))
    then (let s1 = attach file id s in
        if is_some (file_of s1 id) then process_queue (requeue id s1) else ask_for_file id s1)
    else s

unfoldable pub retry : ℕ → State → State
retry id s = resume id none s

unfoldable pub abort_on_server : ℕ → State → State
abort_on_server id s =
    let u = (s.heap id).saved.upload_id in if is_text u then send (delete_upload id u) s else s

unfoldable pub remove_transfer : ℕ → State → State
remove_transfer id s =
    let s1 = abort_on_server id (abort_if_active id s) in
    let s2 = record s1 { transfers = remove_first id s.transfers } in
    update_badge (render_panel (db_delete id s2))

unfoldable pub cancel : ℕ → State → State
cancel id s = if find_transfer id s then process_queue (remove_transfer id s) else s

-- The loop of `pauseAll`. A pause hands over to the queue, which may start a later transfer.
unfoldable pub pause_queued : ℕ → State → State
pause_queued id s =
    if is_queued (status_of s id)
    then db_put id (modify_saved (λ t. record t { status = paused }) id s)
    else s

unfoldable pub pause_one : ℕ → State → State
pause_one id s =
    if is_uploading (status_of s id) || is_queued (status_of s id)
    then pause_queued id (pause id s)
    else s

unfoldable pub pause_each : List ℕ → State → State
pause_each [] s = s
pause_each (id ∷ ids) s = pause_each ids (pause_one id s)

unfoldable pub pause_all : State → State
pause_all s = update_badge (render_panel (pause_each s.transfers s))

-- `resumeAll`, which is also the handler of the event `online`.
unfoldable pub resume_one : ℕ → State → State
resume_one id s =
    if is_paused (status_of s id) && not (s.heap id).saved.needs_file
    then db_put id (modify_saved (λ t. record t { status = queued; error = none }) id s)
    else s

unfoldable pub resume_each : List ℕ → State → State
resume_each [] s = s
resume_each (id ∷ ids) s = resume_each ids (resume_one id s)

unfoldable pub resume_all : State → State
resume_all s = process_queue (update_badge (render_panel (resume_each s.transfers s)))

-- `pauseActive`, the handler of the event `offline`.
unfoldable pub pause_active_each : List ℕ → State → State
pause_active_each [] s = s
pause_active_each (id ∷ ids) s =
    pause_active_each ids (if is_uploading (status_of s id) then pause id s else s)

unfoldable pub pause_active : State → State
pause_active s = pause_active_each s.transfers s

-- The loop of `clearCompleted`: what remains of the array, and the deletions.
unfoldable pub remaining : (ℕ → Transfer) → List ℕ → List ℕ
remaining h [] = []
remaining h (id ∷ ids) =
    let rest = remaining h ids in if is_completed (h id).saved.status then rest else id ∷ rest

unfoldable pub delete_completed : List ℕ → State → State
delete_completed [] s = s
delete_completed (id ∷ ids) s =
    delete_completed ids (if is_completed (status_of s id) then db_delete id s else s)

unfoldable pub clear_completed : State → State
clear_completed s =
    let s1 = delete_completed s.transfers s in
    let s2 = update_badge (render_panel (record s1 { transfers = remaining s.heap s.transfers })) in
    if has_pending s2 then s2 else hide_panel s2
