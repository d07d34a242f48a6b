-- ===== src/Transfers/Replies.antt =====
-- The callbacks of the requests of fruitsalade/webapp/js/transfers.js: progress, answers and
-- failures of the network. They act on the object that sent the request, whatever became of it.
use fruit_salade.Base.{
  ℕ, ◌+◌, ◌-◌, ◌*◌, String, Bool, ◌&&◌, Option, none, some, List, [], ◌∷◌, ◌++◌, ltb, leb, ◌==◌,
  if◌then◌else◌, or_else, length,
}
use fruit_salade.Transfers.Model.{
  Reason, upload_http, chunk_http, network_error, timeout, init_failed, finalize_failed,
  complete_failed, server, still, rate, State,
}
use fruit_salade.Transfers.Store.{modify_saved, db_put, set_active, render_panel}
use fruit_salade.Transfers.Upload.{
  init_chunked, send_next_chunk, upload_chunks, complete_transfer, fail_transfer, pause_transfer,
}

-- What a `fetch` with a JSON body comes to: a body, a refusal with its `error` field if it has one,
-- or an exception (no connection, a body that is no JSON) with its message.
pub data Answer (A : Type 0) : Type 0 where
  ok : A → Answer A
  refused : Option String → Answer A
  thrown : String → Answer A

pub record InitData : Type 0 where
  pub upload_id : Option String
  pub chunk_size : ℕ
  pub total_chunks : ℕ

pub record StatusData : Type 0 where
  pub is_active : Bool
  pub received : Option (List ℕ)
  pub total_chunks : ℕ

-- `text || other`.
abbrev pub message_or : Option String → Reason → Reason
message_or none other = other
message_or (some String.[]) other = other
message_or (some (String.◌∷◌ c s)) other = server (String.◌∷◌ c s)

-- `status >= 200 && status < 300`.
abbrev pub http_ok : ℕ → Bool
http_ok status = leb 200 status && ltb status 300

-- `uploadSmall`: `onprogress`. The clock does not run backwards; 0 bytes give speed 0 (NaN || 0).
unfoldable pub small_progress : ℕ → ℕ → State → State
small_progress id sent s =
    let elapsed = s.clock - (s.heap id).start_time in
    let new_speed = if sent == 0 then still else rate sent elapsed in
    render_panel (modify_saved (λ t. record t { speed = new_speed; loaded = sent }) id s)

-- `uploadSmall`: `onload`, and `onerror` and `ontimeout`.
unfoldable pub small_loaded : ℕ → ℕ → State → State
small_loaded id status s =
    let s' = set_active none s in
    if http_ok status then complete_transfer id s' else fail_transfer id (upload_http status) s'

unfoldable pub small_failed : ℕ → Bool → State → State
small_failed id timed_out s =
    pause_transfer id (if timed_out then timeout else network_error) (set_active none s)

unfoldable pub learn_init : ℕ → InitData → State → State
learn_init id d s =
    let s1 =
      modify_saved
        (λ t. record t {
          upload_id = d.upload_id;
          chunk_size = d.chunk_size;
          total_chunks = d.total_chunks;
          completed_chunks = [];
        })
        id s in
    db_put id s1

unfoldable pub begin_upload : ℕ → InitData → State → State
begin_upload id d s = upload_chunks id (learn_init id d s)

-- `initChunked`: the answer.
unfoldable pub init_answered : ℕ → Answer InitData → State → State
init_answered id (ok d) s = begin_upload id d s
init_answered id (refused e) s = fail_transfer id (message_or e init_failed) s
init_answered id (thrown e) s = fail_transfer id (message_or (some e) init_failed) s

-- The upload is unknown to the server: start again.
unfoldable pub restart : ℕ → State → State
restart id s =
    let s1 = modify_saved (λ t. record t { upload_id = none; completed_chunks = [] }) id s in
    init_chunked id (db_put id s1)

unfoldable pub learn_status : ℕ → StatusData → State → State
learn_status id d s =
    let s1 =
      modify_saved
        (λ t. record t { total_chunks = d.total_chunks; completed_chunks = or_else d.received [] })
        id s in
    db_put id s1

unfoldable pub continue_upload : ℕ → StatusData → State → State
continue_upload id d s = upload_chunks id (learn_status id d s)

-- `resumeChunked`: the answer.
unfoldable pub status_answered : ℕ → Answer StatusData → State → State
status_answered id (ok d) s = if d.is_active then continue_upload id d s else restart id s
status_answered id (refused e) s = restart id s
status_answered id (thrown e) s = restart id s

-- `sendNextChunk`: `onprogress`.
unfoldable pub chunk_progress : ℕ → ℕ → State → State
chunk_progress id sent s =
    let t = s.heap id in
    let now_loaded = length t.saved.completed_chunks * t.saved.chunk_size + sent in
    let elapsed = s.clock - t.start_time in
    let gained = now_loaded - t.start_loaded in
    let new_speed =
      if ltb 0 elapsed
      then (if gained == 0 then still else rate gained elapsed)
      else t.saved.speed in
    render_panel (modify_saved (λ t. record t { speed = new_speed; loaded = now_loaded }) id s)

unfoldable pub record_chunk : ℕ → ℕ → State → State
record_chunk id n s =
    let s1 =
      modify_saved (λ t. record t { completed_chunks = t.completed_chunks ++ n ∷ [] }) id s in
    render_panel (db_put id s1)

unfoldable pub accept_chunk : ℕ → ℕ → State → State
accept_chunk id n s = send_next_chunk id (n + 1) (record_chunk id n s)

-- `sendNextChunk`: `onload`, and `onerror` and `ontimeout`.
unfoldable pub chunk_loaded : ℕ → ℕ → ℕ → State → State
chunk_loaded id n status s =
    let s' = set_active none s in
    if http_ok status then accept_chunk id n s' else pause_transfer id (chunk_http status) s'

unfoldable pub chunk_failed : ℕ → Bool → State → State
chunk_failed id timed_out s =
    pause_transfer id (if timed_out then timeout else network_error) (set_active none s)

-- `finalizeChunked`: the answer.
unfoldable pub complete_answered : ℕ → Answer (Unit {0}) → State → State
complete_answered id (ok d) s = complete_transfer id s
complete_answered id (refused e) s = fail_transfer id (message_or e complete_failed) s
complete_answered id (thrown e) s = fail_transfer id (message_or (some e) finalize_failed) s
