-- ===== src/Transfers/Model.antt =====
-- The data of fruitsalade/webapp/js/transfers.js: a transfer record, what of it is stored in the
-- browser's database, the requests that are sent, and the state of the page.
use fruit_salade.Base.{ℕ, ◌*◌, String, Bool, Option, List}

-- The string constants of `transfer.status`.
pub data Status : Type 0 where
  queued uploading paused completed failed : Status

-- The texts of `transfer.error`, one constructor for each message that the code builds.
pub data Reason : Type 0 where
  upload_http : ℕ → Reason
  chunk_http : ℕ → Reason
  network_error timeout paused_by_user file_lost : Reason
  init_failed finalize_failed complete_failed : Reason
  server : String → Reason

-- `transfer.speed`: 0, or bytes over milliseconds (per second: times 1000), not rounded.
pub data Speed : Type 0 where
  still : Speed
  rate : ℕ → ℕ → Speed

-- A `File` that the user picked: its name and its bytes.
pub record File : Type 0 where
  pub name : String
  pub bytes : List ℕ

-- The fields of a record that do not begin with `_`. A `null` chunk size or chunk count is 0, as
-- which JavaScript's `*`, `+` and `<` read it.
pub record Saved : Type 0 where
  pub path : String
  pub file_name : String
  pub file_size : ℕ
  pub upload_id : Option String
  pub chunk_size : ℕ
  pub total_chunks : ℕ
  pub completed_chunks : List ℕ
  pub status : Status
  pub added_at : ℕ
  pub speed : Speed
  pub loaded : ℕ
  pub error : Option Reason
  pub needs_file : Bool

-- The object in memory: the saved fields with `_file`, `_startTime` and `_startLoaded`.
pub record Transfer : Type 0 where
  pub saved : Saved
  pub open saved use *
  pub file : Option File
  pub start_time : ℕ
  pub start_loaded : ℕ

-- What is sent over the network, with the transfer that waits for the answer.
pub data Request : Type 0 where
  post_content : ℕ → String → File → Request
  post_init : ℕ → String → String → ℕ → Request
  get_status : ℕ → Option String → Request
  put_chunk : ℕ → Option String → ℕ → List ℕ → Request
  post_complete : ℕ → Option String → Request
  delete_upload : ℕ → Option String → Request
  abort_xhr : ℕ → Request

-- What the user or another part of the page gets to see.
pub data Notice : Type 0 where
  toast_success : String → Notice
  toast_error : String → Reason → Notice
  transfer_complete : String → Notice

-- What the functions write to the document: the panel, the button with its badge, the flag of the
-- animation frame that is asked for, and the timer that hides the panel.
pub record Ui : Type 0 where
  pub panel_visible : Bool
  pub button_shown : Bool
  pub badge : Option ℕ
  pub render_queued : Bool
  pub hide_timer : Bool

-- The variables of the module, the database and the clock. An object is found in `heap` by the id
-- that the database gave its record; `transfers` lists the ids in the order of the array. A
-- cancelled object stays in `heap`, since a pending answer still refers to it. `storing` holds the
-- records of `enqueue` that wait for the database, oldest first. `active` is `activeTransferId`,
-- which is set and cleared together with `activeXHR`.
pub record State : Type 0 where
  pub heap : ℕ → Transfer
  pub transfers : List ℕ
  pub storing : List (ℕ × File)
  pub active : Option ℕ
  pub db : ℕ → Option Saved
  pub next_key : ℕ
  pub clock : ℕ
  pub requests : List Request
  pub notices : List Notice
  pub ui : Ui

-- 5 MB: files below this are sent by a single POST.
abbrev pub chunk_threshold : ℕ
chunk_threshold = 5 * 1024 * 1024

-- Sequential uploads.
abbrev pub concurrent : ℕ
concurrent = 1
