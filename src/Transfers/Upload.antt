-- ===== src/Transfers/Upload.antt =====
-- The upload logic of fruitsalade/webapp/js/transfers.js up to each request that is sent: the
-- queue, the small and the chunked path, and the transitions that hand over to the queue.
use Prim.Native.Nat.{min}
use Prim.Native.Char.{code}
use fruit_salade.Base.{
  ℕ, zero, suc, ◌+◌, ◌-◌, ◌*◌, String, Bool, true, false, Option, none, some, List, [], ◌∷◌, ltb,
  leb, ◌==◌, if◌then◌else◌, length, take, drop, contains,
}
use fruit_salade.Transfers.Model.{
  uploading, paused, completed, failed, Reason, file_lost, still, File, post_content, post_init,
  get_status, put_chunk, post_complete, toast_success, toast_error, transfer_complete, State,
  chunk_threshold, concurrent,
}
use fruit_salade.Transfers.Store.{
  is_queued, is_uploading, status_of, file_of, modify, modify_saved, db_put, send, notify,
  set_active, active_count, update_badge, render_panel, schedule_auto_hide,
}

-- `if (transfer.uploadId)`: null and the empty text are false.
abbrev pub is_text : Option String → Bool
is_text none = false
is_text (some String.[]) = false
is_text (some (String.◌∷◌ c s)) = true

-- `path.replace(/^\//, '')`.
abbrev pub strip_slash : String → String
strip_slash String.[] = String.[]
strip_slash (String.◌∷◌ c s) = if code c == b'/' then s else String.◌∷◌ c s

-- `uploadSmall`, for an object that has its file. The path of the request stands as it is before
-- `encodeURIPath`.
unfoldable pub upload_small : ℕ → File → State → State
upload_small id file s =
    let s' = modify (λ t. record t { start_time = s.clock }) id (set_active (some id) s) in
    send (post_content id (strip_slash (s.heap id).saved.path) file) s'

-- `initChunked` and `resumeChunked` up to their requests.
unfoldable pub init_chunked : ℕ → State → State
init_chunked id s =
    let t = (s.heap id).saved in send (post_init id t.path t.file_name t.file_size) s

unfoldable pub resume_chunked : ℕ → State → State
resume_chunked id s = send (get_status id (s.heap id).saved.upload_id) s

unfoldable pub choose_path : ℕ → File → State → State
choose_path id file s =
    let t = (s.heap id).saved in
    if ltb t.file_size chunk_threshold
    then upload_small id file s
    else if is_text t.upload_id
    then resume_chunked id s
    else init_chunked id s

-- `startUpload`, for an object that has its file.
unfoldable pub start_upload : ℕ → File → State → State
start_upload id file s =
    let s1 = modify_saved (λ t. record t { status = uploading; error = none }) id s in
    choose_path id file (update_badge (render_panel (db_put id s1)))

-- The loop of `processQueue`: the first queued object that has its file.
unfoldable pub process_queue_from : List ℕ → State → State
process_queue_from [] s = s
process_queue_from (id ∷ ids) s =
    let rest = process_queue_from ids s in
    if is_queued (status_of s id)
    then elim (file_of s id) [ none ↦ rest | some file ↦ start_upload id file s ]
    else rest

unfoldable pub process_queue : State → State
process_queue s = if leb concurrent (active_count s) then s else process_queue_from s.transfers s

-- The loop of `sendNextChunk` over the rounds left: the first index that is not completed.
unfoldable pub next_missing_in : ℕ → ℕ → List ℕ → Option ℕ
next_missing_in zero i done = none
next_missing_in (suc rounds) i done =
    let rest = next_missing_in rounds (i + 1) done in if contains done i then rest else some i

unfoldable pub next_missing : ℕ → ℕ → List ℕ → Option ℕ
next_missing from total done = next_missing_in (total - from) from done

-- `Blob.slice(start, end)`, which stops at the end of the file.
abbrev pub slice : ℕ → ℕ → List ℕ → List ℕ
slice start end bytes = take (end - start) (drop start bytes)

-- `finalizeChunked` up to its request.
unfoldable pub finalize_chunked : ℕ → State → State
finalize_chunked id s = send (post_complete id (s.heap id).saved.upload_id) s

unfoldable pub put_next : ℕ → File → ℕ → State → State
put_next id file n s =
    let t = (s.heap id).saved in
    let start = n * t.chunk_size in
    let end = min (start + t.chunk_size) t.file_size in
    send (put_chunk id t.upload_id n (slice start end file.bytes)) (set_active (some id) s)

-- `sendNextChunk`. Without a file `file.slice` throws, and nothing more happens.
unfoldable pub send_next_chunk : ℕ → ℕ → State → State
send_next_chunk id from s =
    let t = (s.heap id).saved in
    if is_uploading t.status
    then elim (next_missing from t.total_chunks t.completed_chunks) [
      | none ↦ finalize_chunked id s
      | some n ↦ elim (file_of s id) [ none ↦ s | some file ↦ put_next id file n s ]
    ]
    else s

unfoldable pub lose_file : ℕ → State → State
lose_file id s =
    let s1 =
      modify_saved (λ t. record t { status = paused; needs_file = true; error = some file_lost }) id
        s in
    update_badge (render_panel (db_put id s1))

unfoldable pub start_clock : ℕ → State → State
start_clock id s =
    let begun = length (s.heap id).saved.completed_chunks * (s.heap id).saved.chunk_size in
    modify
      (λ t. record t {
        saved = record t.saved { loaded = begun };
        start_time = s.clock;
        start_loaded = begun;
      })
      id s

-- `uploadChunks`.
unfoldable pub upload_chunks : ℕ → State → State
upload_chunks id s = elim (file_of s id) [
  | none ↦ lose_file id s
  | some file ↦ send_next_chunk id 0 (start_clock id s)
]

-- `completeTransfer`, `failTransfer` and `pauseTransfer`, each up to its call of `processQueue`.
unfoldable pub mark_completed : ℕ → State → State
mark_completed id s =
    let s1 =
      modify_saved (λ t. record t { status = completed; loaded = t.file_size; speed = still }) id
        s in
    let s2 = update_badge (render_panel (db_put id s1)) in
    let s3 = notify (toast_success (s.heap id).saved.file_name) s2 in
    notify (transfer_complete (s.heap id).saved.path) s3

unfoldable pub mark_failed : ℕ → Reason → State → State
mark_failed id why s =
    let s1 =
      modify_saved (λ t. record t { status = failed; error = some why; speed = still }) id s in
    let s2 = update_badge (render_panel (db_put id s1)) in
    notify (toast_error (s.heap id).saved.file_name why) s2

unfoldable pub mark_paused : ℕ → Reason → State → State
mark_paused id why s =
    let s1 =
      modify_saved (λ t. record t { status = paused; error = some why; speed = still }) id s in
    update_badge (render_panel (db_put id s1))

unfoldable pub complete_transfer : ℕ → State → State
complete_transfer id s = schedule_auto_hide (process_queue (mark_completed id s))

unfoldable pub fail_transfer : ℕ → Reason → State → State
fail_transfer id why s = process_queue (mark_failed id why s)

unfoldable pub pause_transfer : ℕ → Reason → State → State
pause_transfer id why s = process_queue (mark_paused id why s)
