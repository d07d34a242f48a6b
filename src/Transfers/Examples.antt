-- ===== src/Transfers/Examples.antt =====
-- Runs of the model of fruitsalade/webapp/js/transfers.js on concrete inputs, and the theorems
-- about it at such inputs.
use fruit_salade.Base.{
  ℕ, ◌≡◌, refl, ◌≢◌, true, false, Option, none, some, List, [], ◌∷◌, ◌++◌, arith, ◌==◌,
  if◌then◌else◌, is_some, length, contains, IsNodup,
}
use fruit_salade.Transfers.Model.{
  queued, uploading, paused, rate, File, Saved, Request, post_complete, State,
}
use fruit_salade.Transfers.Store.{
  status_of, file_of, has_pending_in, has_pending, update_badge, render_panel,
}
use fruit_salade.Transfers.Upload.{process_queue, send_next_chunk}
use fruit_salade.Transfers.Replies.{ok, InitData, init_answered}
use fruit_salade.Transfers.Actions.{
  keys_below, get_all, pause_interrupted, fresh_page, init, new_record, pause, resume, retry,
  cancel, pause_all, pause_active,
}
use fruit_salade.Transfers.Events.{
  Event, user_enqueues, database_stored, user_pauses, user_resumes, small_answered,
}
use fruit_salade.Transfers.Discipline.Rules.{uploads, Exclusive, NeverIdle}
use fruit_salade.Transfers.Records.Rules.{Tidy}
use fruit_salade.Transfers.Runs.{page, page-Exclusive, page-NeverIdle, page-Tidy}
use fruit_salade.Transfers.Reload.{KeysGiven, interrupted, init_restores}
use fruit_salade.Transfers.PauseAll.{status-pause_all}
use fruit_salade.Transfers.Chunks.Serve.{puts_of, serve, serve-send_next_chunk}
use fruit_salade.Transfers.Leaving.{cancel_forgets, cancel-init_answered, queued_is_stuck}
use fruit_salade.Transfers.Offline.{Restarted, pause_active_restarts}
use fruit_salade.Transfers.Chunks.Whole.{received, serve-init_answered}

abbrev notes : File
notes = record { name = "notes.txt"; bytes = 7 ∷ 8 ∷ 9 ∷ [] }

-- An upload of three bytes in chunks of two, with the first one sent.
abbrev half_sent : Saved
half_sent = record (new_record notes "/notes.txt" 5) {
  upload_id = some "u1";
  chunk_size = 2;
  total_chunks = 2;
  completed_chunks = 0 ∷ [];
  status = uploading;
  speed = rate 2 10;
  loaded = 2;
}

abbrev one_record : ℕ → Option Saved
one_record j = if j == 1 then some half_sent else none

one_record-KeysGiven : KeysGiven one_record 2
one_record-KeysGiven j h = ground arith

-- A page with the upload under way, and another waiting behind it.
abbrev two_uploads : State
two_uploads = record {
  heap = λ j.
      if j == 1
      then record { saved = half_sent; file = some notes; start_time = 6; start_loaded = 0 }
      else record {
        saved = new_record notes "/copy.txt" 7;
        file = some notes;
        start_time = 0;
        start_loaded = 0;
      };
  transfers = 1 ∷ 2 ∷ [];
  storing = [];
  active = some 1;
  db = one_record;
  next_key = 3;
  clock = 9;
  requests = [];
  notices = [];
  ui = record {
    panel_visible = true;
    button_shown = true;
    badge = some 2;
    render_queued = false;
    hide_timer = false;
  };
}

two-IsNodup : IsNodup two_uploads.transfers
two-IsNodup = ground arith

-- Two files are added, the first is paused and resumed, and its answer comes late.
abbrev session : List Event
session =
    user_enqueues notes "/a.txt"
    ∷ user_enqueues notes "/b.txt"
    ∷ database_stored
    ∷ database_stored
    ∷ user_pauses 2
    ∷ user_resumes 2 none
    ∷ small_answered 3 201
    ∷ user_resumes 1 (some notes)
    ∷ small_answered 2 500
    ∷ []

page-Exclusive_example : Exclusive (page one_record 2 0 session)
page-Exclusive_example = page-Exclusive one_record 2 0 session one_record-KeysGiven

page-NeverIdle_example : NeverIdle (page one_record 2 0 session)
page-NeverIdle_example = page-NeverIdle one_record 2 0 session one_record-KeysGiven

page-Tidy_example : Tidy (page one_record 2 0 session)
page-Tidy_example = page-Tidy one_record 2 0 session one_record-KeysGiven

init_restores_example :
    let s = init one_record 2 0 in
    (contains s.transfers 1 ≡ true)
    × (file_of s 1 ≡ none)
    × ((r : Saved)
        → one_record 1 ≡ some r
        → ((s.heap 1).saved ≡ interrupted r) × (s.db 1 ≡ some (interrupted r)))
init_restores_example = init_restores one_record 2 0 one_record-KeysGiven 1

status-pause_all_example : status_of (pause_all two_uploads) 2 ≡ paused
status-pause_all_example = status-pause_all two_uploads 2 refl

serve-send_next_chunk_example :
    let end = serve 2 1 (send_next_chunk 1 0 two_uploads) in
    (end.requests
      ≡ [] ++ (puts_of 1 half_sent notes.bytes (1 ∷ []) ++ post_complete 1 (some "u1") ∷ []))
    × ((end.heap 1).saved.completed_chunks ≡ (0 ∷ []) ++ (1 ∷ []))
serve-send_next_chunk_example =
    serve-send_next_chunk 0 2 1 notes two_uploads refl refl (omega arith) (omega arith)

abbrev told : InitData
told = record { upload_id = some "u2"; chunk_size = 2; total_chunks = 2 }

serve-init_answered_example :
    (puts : List Request) × ((serve 2 1 (init_answered 1 (ok told) two_uploads)).requests
      ≡ [] ++ (puts ++ post_complete 1 (some "u2") ∷ []))
    × (received puts ≡ notes.bytes)
    × (length puts ≡ 2)
serve-init_answered_example =
    serve-init_answered 1 notes told two_uploads refl refl refl (omega arith)

cancel_forgets_example :
    (contains (cancel 1 two_uploads).transfers 1 ≡ false)
    × ((cancel 1 two_uploads).db 1 ≡ none)
    × ((j : ℕ)
        → 1 ≢ j
        → contains (cancel 1 two_uploads).transfers j ≡ contains two_uploads.transfers j)
cancel_forgets_example = cancel_forgets 1 two_uploads two-IsNodup refl

cancel-init_answered_example :
    let t = init_answered 1 (ok told) (cancel 1 two_uploads) in
    (contains t.transfers 1 ≡ false)
    × (is_some (t.db 1) ≡ true)
    × (contains (init t.db 3 0).transfers 1 ≡ true)
cancel-init_answered_example =
    cancel-init_answered 1 told two_uploads 3 0 two-IsNodup refl (omega arith)

-- A page started again with a record that was waiting.
abbrev started_again : State
started_again = init (λ j. if j == 1 then some (new_record notes "/notes.txt" 5) else none) 2 0

started_again_queued : status_of started_again 1 ≡ queued
unfolding init get_all keys_below pause_interrupted has_pending has_pending_in update_badge
    fresh_page render_panel
started_again_queued = refl

started_again_no_file : file_of started_again 1 ≡ none
unfolding init get_all keys_below pause_interrupted has_pending has_pending_in update_badge
    fresh_page render_panel
started_again_no_file = refl

queued_is_stuck_example :
    (pause 1 started_again ≡ started_again)
    × ((file : Option File) → resume 1 file started_again ≡ started_again)
    × (retry 1 started_again ≡ started_again)
    × (status_of (process_queue started_again) 1 ≡ queued)
queued_is_stuck_example = queued_is_stuck 1 started_again started_again_queued started_again_no_file

-- The first transfer waits again, in front of the one that is uploading.
abbrev waiting_first : State
waiting_first = record two_uploads { transfers = 2 ∷ 1 ∷ [] }

only_first : (j : ℕ) → contains (2 ∷ 1 ∷ []) j ≡ true → uploads waiting_first j ≡ true → j ≡ 1
only_first j m u = ground arith

pause_active_restarts_example : Restarted (2 ∷ []) (pause_active waiting_first)
pause_active_restarts_example =
    pause_active_restarts waiting_first 1 2 (2 ∷ []) [] refl (ground arith) refl only_first refl
      refl
