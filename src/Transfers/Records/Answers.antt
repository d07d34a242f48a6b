-- ===== src/Transfers/Records/Answers.antt =====
-- Every callback of a request in fruitsalade/webapp/js/transfers.js keeps the ids, and stores what
-- it changes.
use fruit_salade.Base.{
  ℕ, ◌+◌, ◌≡◌, refl, inl, inr, Bool, false, none, some, arith, Bool-cases, Option-cases, contains,
}
use fruit_salade.Transfers.Model.{
  Reason, upload_http, chunk_http, init_failed, finalize_failed, complete_failed, State,
}
use fruit_salade.Transfers.Store.{
  file_of, set_active, update_badge, render_panel, schedule_auto_hide,
}
use fruit_salade.Transfers.Upload.{
  init_chunked, put_next, lose_file, start_clock, process_queue, finalize_chunked, send_next_chunk,
  upload_chunks, mark_completed, mark_failed, mark_paused, complete_transfer, fail_transfer,
  pause_transfer,
}
use fruit_salade.Transfers.Replies.{
  Answer, ok, refused, thrown, InitData, StatusData, message_or, http_ok, small_progress,
  small_loaded, small_failed, init_answered, restart, status_answered, chunk_progress, chunk_loaded,
  chunk_failed, complete_answered, learn_init, begin_upload, learn_status, continue_upload,
  record_chunk, accept_chunk,
}
use fruit_salade.Transfers.Discipline.Rules.{uploads}
use fruit_salade.Transfers.Records.Rules.{Mirrored, Frame, Frame-trans, Frame-process_queue}

-- The parts of a frame, in order.
pub Frame-of :
    (s t : State)
    → t.storing ≡ s.storing
    → t.next_key ≡ s.next_key
    → t.transfers ≡ s.transfers
    → ((j : ℕ) → contains s.transfers j ≡ false → uploads s j ≡ false → uploads t j ≡ false)
    → ((j : ℕ) → Mirrored s j → Mirrored t j)
    → Frame s t
Frame-of s t a b c u m = record {
  same_storing = a;
  same_key = b;
  same_array = c;
  starts = u;
  mirrors = m;
}

-- A change of the state that the ids and the records do not see.
pub Frame-aside :
    (s t : State)
    → t.storing ≡ s.storing
    → t.next_key ≡ s.next_key
    → t.transfers ≡ s.transfers
    → t.heap ≡ s.heap
    → t.db ≡ s.db
    → Frame s t
Frame-aside s t a b c h e = record {
  same_storing = a;
  same_key = b;
  same_array = c;
  starts = λ j m u. rw h u;
  mirrors = λ j m. rw (h, e) m;
}

module _ (id : ℕ) (s : State) where
  mark_completed-Frame : Frame s (mark_completed id s)
  unfolding mark_completed render_panel update_badge
  mark_completed-Frame = Frame-of s _ refl refl refl (λ j m u. ground arith) (λ j m. ground arith)

  mark_failed-Frame : (why : Reason) → Frame s (mark_failed id why s)
  unfolding mark_failed render_panel update_badge
  mark_failed-Frame why = Frame-of s _ refl refl refl (λ j m u. ground arith) (λ j m. ground arith)

  mark_paused-Frame : (why : Reason) → Frame s (mark_paused id why s)
  unfolding mark_paused render_panel update_badge
  mark_paused-Frame why = Frame-of s _ refl refl refl (λ j m u. ground arith) (λ j m. ground arith)

  lose_file-Frame : Frame s (lose_file id s)
  unfolding lose_file render_panel update_badge
  lose_file-Frame = Frame-of s _ refl refl refl (λ j m u. ground arith) (λ j m. ground arith)

  start_clock-Frame : Frame s (start_clock id s)
  unfolding start_clock
  start_clock-Frame = Frame-of s _ refl refl refl (λ j m u. ground arith) (λ j m. ground arith)

  pub small_progress-Frame : (sent : ℕ) → Frame s (small_progress id sent s)
  unfolding small_progress render_panel
  small_progress-Frame sent =
      Frame-of s _ refl refl refl (λ j m u. ground arith) (λ j m. ground arith)

  pub chunk_progress-Frame : (sent : ℕ) → Frame s (chunk_progress id sent s)
  unfolding chunk_progress render_panel
  chunk_progress-Frame sent =
      Frame-of s _ refl refl refl (λ j m u. ground arith) (λ j m. ground arith)

  send_next_chunk-Frame : (from : ℕ) → Frame s (send_next_chunk id from s)
  unfolding send_next_chunk put_next finalize_chunked
  send_next_chunk-Frame from =
      Frame-aside s (send_next_chunk id from s) (ground arith) (ground arith) (ground arith)
        (ground arith) (ground arith)

  record_chunk-Frame : (n : ℕ) → Frame s (record_chunk id n s)
  unfolding record_chunk render_panel
  record_chunk-Frame n = Frame-of s _ refl refl refl (λ j m u. ground arith) (λ j m. ground arith)

  restart-Frame : Frame s (restart id s)
  unfolding restart init_chunked
  restart-Frame = Frame-of s _ refl refl refl (λ j m u. ground arith) (λ j m. ground arith)

idle_xhr-Frame : (s : State) → Frame s (set_active none s)
idle_xhr-Frame s = Frame-aside s (set_active none s) refl refl refl refl refl

upload_chunks-Frame : (id : ℕ) (s : State) → Frame s (upload_chunks id s)
unfolding upload_chunks
upload_chunks-Frame id s = elim (Option-cases (file_of s id)) [
  | inl f ↦ rw (f, upload_chunks) (lose_file-Frame id s)
  | inr (file, f) ↦
      rw (f, upload_chunks)
        (Frame-trans s (start_clock id s) (send_next_chunk id 0 (start_clock id s))
          (start_clock-Frame id s) (send_next_chunk-Frame id (start_clock id s) 0))
]

module _ (id : ℕ) (s : State) where
  pub complete_transfer-Frame : Frame s (complete_transfer id s)
  unfolding complete_transfer schedule_auto_hide
  complete_transfer-Frame =
      Frame-trans s (process_queue (mark_completed id s)) (complete_transfer id s)
        (Frame-process_queue s (mark_completed id s) (mark_completed-Frame id s))
        (Frame-aside _ _ refl refl refl refl refl)

  pub fail_transfer-Frame : (why : Reason) → Frame s (fail_transfer id why s)
  unfolding fail_transfer
  fail_transfer-Frame why =
      Frame-process_queue s (mark_failed id why s) (mark_failed-Frame id s why)

  pub pause_transfer-Frame : (why : Reason) → Frame s (pause_transfer id why s)
  unfolding pause_transfer
  pause_transfer-Frame why =
      Frame-process_queue s (mark_paused id why s) (mark_paused-Frame id s why)

  begin_upload-Frame : (d : InitData) → Frame s (begin_upload id d s)
  unfolding begin_upload learn_init
  begin_upload-Frame d =
      Frame-trans s (learn_init id d s) (begin_upload id d s)
        (Frame-of s _ refl refl refl (λ j m u. ground arith) (λ j m. ground arith))
        (upload_chunks-Frame id (learn_init id d s))

  continue_upload-Frame : (d : StatusData) → Frame s (continue_upload id d s)
  unfolding continue_upload learn_status
  continue_upload-Frame d =
      Frame-trans s (learn_status id d s) (continue_upload id d s)
        (Frame-of s _ refl refl refl (λ j m u. ground arith) (λ j m. ground arith))
        (upload_chunks-Frame id (learn_status id d s))

module _ (id : ℕ) (s : State) where
  pub init_answered-Frame : (a : Answer InitData) → Frame s (init_answered id a s)
  unfolding init_answered
  init_answered-Frame (ok d) = begin_upload-Frame id s d
  init_answered-Frame (refused e) = fail_transfer-Frame id s (message_or e init_failed)
  init_answered-Frame (thrown e) = fail_transfer-Frame id s (message_or (some e) init_failed)

  pub status_answered-Frame : (a : Answer StatusData) → Frame s (status_answered id a s)
  unfolding status_answered
  status_answered-Frame (ok d) = elim (Bool-cases d.is_active) [
    | inl e ↦ simp e (continue_upload-Frame id s d)
    | inr e ↦ simp e (restart-Frame id s)
  ]
  status_answered-Frame (refused e) = restart-Frame id s
  status_answered-Frame (thrown e) = restart-Frame id s

  pub complete_answered-Frame : (a : Answer (Unit {0})) → Frame s (complete_answered id a s)
  unfolding complete_answered
  complete_answered-Frame (ok d) = complete_transfer-Frame id s
  complete_answered-Frame (refused e) = fail_transfer-Frame id s (message_or e complete_failed)
  complete_answered-Frame (thrown e) =
      fail_transfer-Frame id s (message_or (some e) finalize_failed)

-- The callbacks of an `XMLHttpRequest`, which first forget it.
after_xhr : (s t : State) → Frame (set_active none s) t → Frame s t
after_xhr s t f = Frame-trans s (set_active none s) t (idle_xhr-Frame s) f

module _ (id : ℕ) (s : State) where
  pub small_loaded-Frame : (status : ℕ) → Frame s (small_loaded id status s)
  unfolding small_loaded
  small_loaded-Frame status = elim (Bool-cases (http_ok status)) [
    | inl e ↦ rw e (after_xhr s _ (complete_transfer-Frame id (set_active none s)))
    | inr e ↦ rw e (after_xhr s _ (fail_transfer-Frame id (set_active none s) (upload_http status)))
  ]

  pub small_failed-Frame : (timed_out : Bool) → Frame s (small_failed id timed_out s)
  unfolding small_failed
  small_failed-Frame timed_out = after_xhr s _ (pause_transfer-Frame id (set_active none s) _)

  pub chunk_loaded-Frame : (n status : ℕ) → Frame s (chunk_loaded id n status s)
  unfolding chunk_loaded accept_chunk
  chunk_loaded-Frame n status = elim (Bool-cases (http_ok status)) [
    | inl e ↦ rw e (
        after_xhr s _ (
          Frame-trans (set_active none s) (record_chunk id n (set_active none s)) _
            (record_chunk-Frame id (set_active none s) n)
            (send_next_chunk-Frame id (record_chunk id n (set_active none s)) (n + 1))))
    | inr e ↦ rw e (after_xhr s _ (pause_transfer-Frame id (set_active none s) (chunk_http status)))
  ]

  pub chunk_failed-Frame : (timed_out : Bool) → Frame s (chunk_failed id timed_out s)
  unfolding chunk_failed
  chunk_failed-Frame timed_out = after_xhr s _ (pause_transfer-Frame id (set_active none s) _)
