-- ===== src/Transfers/Leaving.antt =====
-- How a transfer leaves the queue of fruitsalade/webapp/js/transfers.js: by `cancel`, by
-- `clearCompleted`, and what a late answer does afterwards.
use fruit_salade.Base.{
  ℕ, ◌<◌, ◌≡◌, refl, ◌∙◌, ◌≢◌, ◌⊎◌, inl, inr, true, false, not, ◌&&◌, Option, none, List, arith,
  ◌==◌, if◌then◌else◌, ==→≡, ==_refl, Bool-cases, is_some, contains, remove_first, IsNodup,
  contains-remove_first_self, contains-remove_first_other, contains-split,
}
use fruit_salade.Transfers.Model.{queued, File, State}
use fruit_salade.Transfers.Store.{status_of, file_of, active_count, update_badge, render_panel}
use fruit_salade.Transfers.Upload.{
  upload_small, init_chunked, resume_chunked, start_upload, choose_path, put_next, lose_file,
  start_clock, process_queue, finalize_chunked, send_next_chunk, upload_chunks,
}
use fruit_salade.Transfers.Replies.{ok, InitData, init_answered, learn_init, begin_upload}
use fruit_salade.Transfers.Reload.{keys_below-contains, init-transfers}
use fruit_salade.Transfers.Actions.{
  init, pause, resume, retry, remove_transfer, cancel, clear_completed,
}
use fruit_salade.Transfers.Queue.{
  start_upload-status, Handover, nothing, began, process_queue-Handover,
}
use fruit_salade.Transfers.Records.Rules.{process_queue-Frame}
use fruit_salade.Transfers.Records.Clear.{
  completes, contains-remaining, delete_completed-db, clear_completed_fields,
}
use fruit_salade.Transfers.Records.Bulk.{remove_transfer_fields}

-- `processQueue` writes no record of a transfer that is not in the array.
Handover-db :
    (ids : List ℕ) (s t : State) (j : ℕ)
    → Handover ids s t
    → contains ids j ≡ false
    → t.db j ≡ s.db j
unfolding start_upload choose_path upload_small init_chunked resume_chunked render_panel
    update_badge
Handover-db ids s t j (nothing h) m = refl
Handover-db ids s t j (began id file before after p h q f) m = ground (arith, apart)
  where
    apart : (id == j) ≡ false
    apart = elim (Bool-cases (id == j)) [
      | inr e ↦ e
      | inl e ↦ absurd (cc (m, p, contains-split before after id, ==→≡ id j e))
    ]

process_queue-db :
    (s : State) (j : ℕ) → contains s.transfers j ≡ false → (process_queue s).db j ≡ s.db j
process_queue-db s j m = elim (process_queue-Handover s) [
  | inl r ↦ rw r.1 refl
  | inr r ↦ Handover-db s.transfers s (process_queue s) j r.1 m
]

-- After `cancel` of a transfer of an array without duplicates, its id is not in the array and the
-- database has no record of it, and every other id is in the array exactly if it was.
pub cancel_forgets :
    (id : ℕ) (s : State)
    → IsNodup s.transfers
    → contains s.transfers id ≡ true
    → (contains (cancel id s).transfers id ≡ false)
      × ((cancel id s).db id ≡ none)
      × ((j : ℕ) → id ≢ j → contains (cancel id s).transfers j ≡ contains s.transfers j)
unfolding cancel
cancel_forgets id s d here = rw here (gone, no_record_left, others)
  where
    t : State
    t = remove_transfer id s

    array : (process_queue t).transfers ≡ remove_first id s.transfers
    array = (process_queue-Frame t).same_array ∙ (remove_transfer_fields id s).0

    gone : contains (process_queue t).transfers id ≡ false
    gone = rw array (contains-remove_first_self id s.transfers d)

    no_record_left : (process_queue t).db id ≡ none
    no_record_left =
        process_queue-db t id
          (rw (remove_transfer_fields id s).0 (contains-remove_first_self id s.transfers d))
        ∙ rw ((remove_transfer_fields id s).4, ==_refl id) refl

    others : (j : ℕ) → id ≢ j → contains (process_queue t).transfers j ≡ contains s.transfers j
    others j n = rw array (contains-remove_first_other id j s.transfers n)

-- `clearCompleted` takes exactly the completed transfers out of the array, deletes exactly their
-- records, and changes no object.
pub clear_completed_lem :
    (s : State) (j : ℕ)
    → (contains (clear_completed s).transfers j
        ≡ (contains s.transfers j && not (completes s.heap j)))
      × ((clear_completed s).db j
          ≡ (if contains s.transfers j && completes s.heap j then none else s.db j))
      × ((clear_completed s).heap j ≡ s.heap j)
clear_completed_lem s j =
    let (ts, st, k, h, db) = clear_completed_fields s in
    (
      rw ts (contains-remaining s.heap s.transfers j),
      rw db (delete_completed-db s.transfers s j),
      rw h refl,
    )

-- The answer to the request to begin an upload is stored, whatever became of the transfer.
init_answered_stored :
    (id : ℕ) (d : InitData) (s : State) → is_some ((init_answered id (ok d) s).db id) ≡ true
unfolding init_answered begin_upload upload_chunks learn_init lose_file start_clock send_next_chunk
    put_next finalize_chunked render_panel update_badge
init_answered_stored id d s = ground (arith, ==_refl id)

init_answered_array :
    (id : ℕ) (d : InitData) (s : State) → (init_answered id (ok d) s).transfers ≡ s.transfers
unfolding init_answered begin_upload upload_chunks learn_init lose_file start_clock send_next_chunk
    put_next finalize_chunked render_panel update_badge
init_answered_array id d s = ground arith

-- A transfer of an array without duplicates is cancelled while the request to begin its upload is
-- under way, and then the answer comes: the transfer is not in the array, but the database has a
-- record of it again, and a page that is started on that database, its id among the keys given out,
-- has it in its array.
pub cancel-init_answered :
    (id : ℕ) (d : InitData) (s : State) (key clock : ℕ)
    → IsNodup s.transfers
    → contains s.transfers id ≡ true
    → id < key
    → let t = init_answered id (ok d) (cancel id s) in
      (contains t.transfers id ≡ false)
      × (is_some (t.db id) ≡ true)
      × (contains (init t.db key clock).transfers id ≡ true)
cancel-init_answered id d s key clock n here k =
    let again = init_answered_stored id d (cancel id s) in
    (
      rw (init_answered_array id d (cancel id s)) (cancel_forgets id s n here).0,
      again,
      rw (init-transfers (init_answered id (ok d) (cancel id s)).db key clock)
          (keys_below-contains key _ id ∙ rw again (ground arith)),
    )

-- A queued transfer without its file stays as it is under pause, resume with or without a file,
-- and retry, and `processQueue` does not start it.
pub queued_is_stuck :
    (id : ℕ) (s : State)
    → status_of s id ≡ queued
    → file_of s id ≡ none
    → (pause id s ≡ s)
      × ((file : Option File) → resume id file s ≡ s)
      × (retry id s ≡ s)
      × (status_of (process_queue s) id ≡ queued)
unfolding pause resume retry
queued_is_stuck id s q f =
    (ground arith, (λ file. ground arith), ground arith, unstarted (process_queue-Handover s))
  where
    unstarted_by : (ids : List ℕ) (t : State) → Handover ids s t → status_of t id ≡ queued
    unstarted_by ids t (nothing h) = q
    unstarted_by ids t (began i file before after p h qi fi) =
        ground (arith, start_upload-status i file s id, ==→≡ i id)

    unstarted :
        ((0 < active_count s) × (process_queue s ≡ s))
          ⊎ ((active_count s ≡ 0) × Handover s.transfers s (process_queue s))
        → status_of (process_queue s) id ≡ queued
    unstarted (inl r) = rw r.1 q
    unstarted (inr r) = unstarted_by s.transfers (process_queue s) r.1
