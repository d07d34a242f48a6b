-- ===== src/Transfers/Discipline/Answers.antt =====
-- Every callback of a request in fruitsalade/webapp/js/transfers.js keeps the queue's discipline.
use fruit_salade.Base.{
  ℕ, ◌+◌, ◌≡◌, refl, ap, ◌∙◌, inl, inr, Bool, true, false, none, some, arith, ◌==◌, ==→≡,
  Bool-cases, Option-cases, is_some, contains,
}
use fruit_salade.Transfers.Model.{
  Reason, upload_http, chunk_http, init_failed, finalize_failed, complete_failed, State,
}
use fruit_salade.Transfers.Store.{
  is_uploading, status_of, file_of, set_active, update_badge, render_panel, schedule_auto_hide,
}
use fruit_salade.Transfers.Upload.{
  init_chunked, put_next, lose_file, start_clock, process_queue, finalize_chunked, send_next_chunk,
  upload_chunks, mark_completed, mark_failed, mark_paused, complete_transfer, fail_transfer,
  pause_transfer,
}
use fruit_salade.Transfers.Replies.{
  Answer, ok, refused, thrown, InitData, StatusData, message_or, http_ok, small_progress,
  small_loaded, small_failed, init_answered, restart, status_answered, chunk_progress, chunk_loaded,
  chunk_failed, complete_answered, learn_init, begin_upload, learn_status, continue_upload,
  record_chunk, accept_chunk,
}
use fruit_salade.Transfers.Discipline.Rules.{
  uploads, Exclusive, Disciplined, Shrinks, Calm, Calm-Disciplined, Shrinks-process_queue,
}

module _ (id : ℕ) (s : State) where
  mark_completed-Shrinks : Shrinks s (mark_completed id s)
  unfolding mark_completed render_panel update_badge
  mark_completed-Shrinks j m u = ground arith

  mark_failed-Shrinks : (why : Reason) → Shrinks s (mark_failed id why s)
  unfolding mark_failed render_panel update_badge
  mark_failed-Shrinks why j m u = ground arith

  mark_paused-Shrinks : (why : Reason) → Shrinks s (mark_paused id why s)
  unfolding mark_paused render_panel update_badge
  mark_paused-Shrinks why j m u = ground arith

-- The fields that the discipline reads are the same, and so is the array.
abbrev pub Unchanged : State → State → Type 0
Unchanged s t =
    (t.transfers ≡ s.transfers)
    × ((j : ℕ) → status_of t j ≡ status_of s j)
    × ((j : ℕ) → is_some (file_of t j) ≡ is_some (file_of s j))

pub Unchanged-Disciplined : (s t : State) → Unchanged s t → Disciplined s → Disciplined t
Unchanged-Disciplined s t u = Calm-Disciplined s t (record {
  same_array = u.0;
  same_uploads = λ j m. ap is_uploading (u.1 j);
  same_files = λ j m h. u.2 j ∙ h;
  none_more = λ j m h. cc (u.1 j, u.2 j);
})

module _ (id : ℕ) (s : State) (d : Disciplined s) where
  pub complete_transfer-Disciplined : Disciplined (complete_transfer id s)
  unfolding complete_transfer schedule_auto_hide
  complete_transfer-Disciplined =
      Unchanged-Disciplined (process_queue (mark_completed id s)) _ (refl, (λ j. refl), (λ j. refl))
        (Shrinks-process_queue s (mark_completed id s) (mark_completed-Shrinks id s) d)

  pub fail_transfer-Disciplined : (why : Reason) → Disciplined (fail_transfer id why s)
  unfolding fail_transfer
  fail_transfer-Disciplined why =
      Shrinks-process_queue s (mark_failed id why s) (mark_failed-Shrinks id s why) d

  pub pause_transfer-Disciplined : (why : Reason) → Disciplined (pause_transfer id why s)
  unfolding pause_transfer
  pause_transfer-Disciplined why =
      Shrinks-process_queue s (mark_paused id why s) (mark_paused-Shrinks id s why) d

  pub small_progress-Disciplined : (sent : ℕ) → Disciplined (small_progress id sent s)
  unfolding small_progress render_panel
  small_progress-Disciplined sent =
      Unchanged-Disciplined s _ (refl, (λ j. ground arith), (λ j. ground arith)) d

  pub chunk_progress-Disciplined : (sent : ℕ) → Disciplined (chunk_progress id sent s)
  unfolding chunk_progress render_panel
  chunk_progress-Disciplined sent =
      Unchanged-Disciplined s _ (refl, (λ j. ground arith), (λ j. ground arith)) d

  idle_xhr : Disciplined (set_active none s)
  idle_xhr = Unchanged-Disciplined s _ (refl, (λ j. refl), (λ j. refl)) d

send_next_chunk-Unchanged : (id from : ℕ) (s : State) → Unchanged s (send_next_chunk id from s)
unfolding send_next_chunk put_next finalize_chunked
send_next_chunk-Unchanged id from s = (ground arith, (λ j. ground arith), (λ j. ground arith))

Unchanged-trans : (s t u : State) → Unchanged s t → Unchanged t u → Unchanged s u
Unchanged-trans s t u p q = (q.0 ∙ p.0, (λ j. q.1 j ∙ p.1 j), (λ j. q.2 j ∙ p.2 j))

-- An uploading transfer of the array has its file, so `uploadChunks` pauses none.
lose_file-Calm : (id : ℕ) (s : State) → Exclusive s → file_of s id ≡ none → Calm s (lose_file id s)
unfolding lose_file render_panel update_badge
lose_file-Calm id s e f = record {
  same_array = refl;
  same_uploads = λ j m. ground (arith, idle j m);
  same_files = λ j m h. ground arith;
  none_more = λ j m h. ground arith;
}
  where
    idle : (j : ℕ) → contains s.transfers j ≡ true → (id == j) ≡ true → uploads s j ≡ false
    idle j m p = elim (Bool-cases (uploads s j)) [
      | inr u ↦ u
      | inl u ↦ absurd (cc (e.with_file j m u, f, ==→≡ id j p))
    ]

first_chunk-Unchanged : (id : ℕ) (s : State) → Unchanged s (send_next_chunk id 0 (start_clock id s))
unfolding start_clock
first_chunk-Unchanged id s =
    Unchanged-trans s (start_clock id s) (send_next_chunk id 0 (start_clock id s))
      (refl, (λ j. ground arith), (λ j. ground arith))
      (send_next_chunk-Unchanged id 0 (start_clock id s))

pub upload_chunks-Disciplined :
    (id : ℕ) (s : State) → Disciplined s → Disciplined (upload_chunks id s)
unfolding upload_chunks
upload_chunks-Disciplined id s d = elim (Option-cases (file_of s id)) [
  | inl f ↦
      rw (f, upload_chunks)
        (Calm-Disciplined s (lose_file id s) (lose_file-Calm id s d.exclusive f) d)
  | inr (file, f) ↦
      rw (f, upload_chunks)
        (Unchanged-Disciplined s (send_next_chunk id 0 (start_clock id s))
          (first_chunk-Unchanged id s) d)
]

-- Writes of other fields than the status and the file.
begin_upload-Disciplined :
    (id : ℕ) (a : InitData) (s : State) → Disciplined s → Disciplined (begin_upload id a s)
unfolding begin_upload learn_init
begin_upload-Disciplined id a s d =
    upload_chunks-Disciplined id (learn_init id a s) (
      Unchanged-Disciplined s (learn_init id a s) (refl, (λ j. ground arith), (λ j. ground arith))
        d)

continue_upload-Disciplined :
    (id : ℕ) (a : StatusData) (s : State) → Disciplined s → Disciplined (continue_upload id a s)
unfolding continue_upload learn_status
continue_upload-Disciplined id a s d = upload_chunks-Disciplined id (learn_status id a s) (
    Unchanged-Disciplined s (learn_status id a s) (refl, (λ j. ground arith), (λ j. ground arith))
      d)

restart-Disciplined : (id : ℕ) (s : State) → Disciplined s → Disciplined (restart id s)
unfolding restart init_chunked
restart-Disciplined id s d =
    Unchanged-Disciplined s _ (refl, (λ j. ground arith), (λ j. ground arith)) d

accept_chunk-Disciplined :
    (id n : ℕ) (s : State) → Disciplined s → Disciplined (accept_chunk id n s)
unfolding accept_chunk record_chunk render_panel
accept_chunk-Disciplined id n s d =
    Unchanged-Disciplined s (accept_chunk id n s)
      (Unchanged-trans s (record_chunk id n s) (accept_chunk id n s)
        (refl, (λ j. ground arith), (λ j. ground arith))
        (send_next_chunk-Unchanged id (n + 1) (record_chunk id n s)))
      d

module _ (id : ℕ) (s : State) (d : Disciplined s) where
  pub init_answered-Disciplined : (a : Answer InitData) → Disciplined (init_answered id a s)
  unfolding init_answered
  init_answered-Disciplined (ok a) = begin_upload-Disciplined id a s d
  init_answered-Disciplined (refused e) =
      fail_transfer-Disciplined id s d (message_or e init_failed)
  init_answered-Disciplined (thrown e) =
      fail_transfer-Disciplined id s d (message_or (some e) init_failed)

  pub status_answered-Disciplined : (a : Answer StatusData) → Disciplined (status_answered id a s)
  unfolding status_answered
  status_answered-Disciplined (ok a) = elim (Bool-cases a.is_active) [
    | inl e ↦ simp e (continue_upload-Disciplined id a s d)
    | inr e ↦ simp e (restart-Disciplined id s d)
  ]
  status_answered-Disciplined (refused e) = restart-Disciplined id s d
  status_answered-Disciplined (thrown e) = restart-Disciplined id s d

  pub complete_answered-Disciplined :
      (a : Answer (Unit {0})) → Disciplined (complete_answered id a s)
  unfolding complete_answered
  complete_answered-Disciplined (ok a) = complete_transfer-Disciplined id s d
  complete_answered-Disciplined (refused e) =
      fail_transfer-Disciplined id s d (message_or e complete_failed)
  complete_answered-Disciplined (thrown e) =
      fail_transfer-Disciplined id s d (message_or (some e) finalize_failed)

  pub small_loaded-Disciplined : (status : ℕ) → Disciplined (small_loaded id status s)
  unfolding small_loaded
  small_loaded-Disciplined status = elim (Bool-cases (http_ok status)) [
    | inl e ↦ rw e (complete_transfer-Disciplined id _ (idle_xhr id s d))
    | inr e ↦ rw e (fail_transfer-Disciplined id _ (idle_xhr id s d) (upload_http status))
  ]

  pub small_failed-Disciplined : (timed_out : Bool) → Disciplined (small_failed id timed_out s)
  unfolding small_failed
  small_failed-Disciplined timed_out = pause_transfer-Disciplined id _ (idle_xhr id s d) _

  pub chunk_loaded-Disciplined : (n status : ℕ) → Disciplined (chunk_loaded id n status s)
  unfolding chunk_loaded
  chunk_loaded-Disciplined n status = elim (Bool-cases (http_ok status)) [
    | inl e ↦ rw e (accept_chunk-Disciplined id n _ (idle_xhr id s d))
    | inr e ↦ rw e (pause_transfer-Disciplined id _ (idle_xhr id s d) (chunk_http status))
  ]

  pub chunk_failed-Disciplined : (timed_out : Bool) → Disciplined (chunk_failed id timed_out s)
  unfolding chunk_failed
  chunk_failed-Disciplined timed_out = pause_transfer-Disciplined id _ (idle_xhr id s d) _
