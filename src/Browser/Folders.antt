-- ===== src/Browser/Folders.antt =====
-- The upload of folders in fruitsalade/webapp/js/views/browser.js: what a dropped folder holds, the
-- directories that are made on the server, and the files that go to the upload queue. The browser's
-- callbacks are taken in the order of the entries.
pub mod Members
pub mod ParentsFirst
pub mod Queued
use Prim.Native.Char.{Char, code}
use fruit_salade.Base.{
  ℕ, zero, suc, ◌+◌, ◌-◌, ◌*◌, ◌/◌, ◌%◌, ◌^◌, ◌≤◌, ◌<◌, String, ◌≡◌, refl, sym, ap, subst, ◌∙◌, ◌≢◌,
  ◌↔◌, ◌⊎◌, inl, inr, Bool, true, false, not, ◌&&◌, ◌||◌, Option, none, some, List, [], ◌∷◌, ◌++◌,
  map, append_assoc, append-nil, arith, ltb, leb, ◌==◌, if◌then◌else◌, ==→≡, ==_refl, ==_false,
  Bool-cases, Option-cases, is_some, or_else, length, take, drop, update, length-append, contains,
  remove_first, IsNodup, contains-append, contains-remove_first, contains-remove_first_self,
  contains-remove_first_other, contains-remove_first-false, IsNodup-remove_first, All, All-cons,
  contains_self, contains-split, All-snoc, contains-append_left, contains-append_right,
  remove_first-append, IsNodup-snoc, is_empty, or_text, same_text, same_text→≡, same_text_refl,
  begins_with, has_part, ends_with, listed, lookup, insert, lookup-insert, keep, insert_sorted,
  sort, AllOf, IsOrdered, sort-perm, keep-sort, sort-IsOrdered, IsOrdered-weaken, split, append,
  has_slash, parent_of, base_of, depth, put_first, new_part, has_slash-append, parent_of-append,
  base_of-append, base_of-clean, depth-parent_of, code_slash, append-parent_of-base_of,
  same_text_turn, listed-append, listed-sort, listed-keep, IsKeySet, IsKeySet-snoc, IsKeySet-keep,
  listed-take, IsKeySet-take,
}
use fruit_salade.Transfers.Model.{
  Status, queued, uploading, paused, completed, failed, Reason, upload_http, chunk_http,
  network_error, timeout, paused_by_user, file_lost, init_failed, finalize_failed, complete_failed,
  server, Speed, still, rate, File, Saved, Transfer, Request, post_content, post_init, get_status,
  put_chunk, post_complete, delete_upload, abort_xhr, Notice, toast_success, toast_error,
  transfer_complete, Ui, State, chunk_threshold, concurrent,
}
use fruit_salade.Transfers.Actions.{
  from_saved, no_record, keys_below, get_all, pause_interrupted, fresh_page, init, new_record,
  enqueue, append_stored, stored, is_active, abort_if_active, pause, attach, ask_for_file, requeue,
  resume, retry, abort_on_server, remove_transfer, cancel, pause_queued, pause_one, pause_each,
  pause_all, resume_one, resume_each, resume_all, pause_active_each, pause_active, remaining,
  delete_completed, clear_completed,
}

pub record FolderFile : Type 0 where
  pub file : File
  pub relative_path : String

-- What the browser gives of a dropped entry: a file, or none when it cannot be read; a directory
-- with its entries, or none when reading fails.
mutual
  pub data Entry : Type 0 where
    file_entry : File → Entry
    directory : String → Entries → Entry
    unreadable other_entry : Entry

  pub data Entries : Type 0 where
    no_entries : Entries
    entry : Entry → Entries → Entries

-- `readEntry` and `readAllEntries`.
unfoldable mutual
  unfolding append

  pub read_entry : Entry → String → List FolderFile
  read_entry (file_entry f) base = record { file = f; relative_path = append base f.name } ∷ []
  read_entry (directory name es) base = read_all_entries es (append (append base name) "/")
  read_entry unreadable base = []
  read_entry other_entry base = []

  pub read_all_entries : Entries → String → List FolderFile
  read_all_entries no_entries base = []
  read_all_entries (entry e es) base = read_entry e base ++ read_all_entries es base

unfoldable pub collect_folder_files : Entries → List FolderFile
collect_folder_files es = read_all_entries es ""

-- `dirPath += (dirPath ? '/' : '') + part`.
unfoldable pub extend_dir : String → String → String
extend_dir dir part = if is_empty dir then part else append dir (append "/" part)

-- The values of `dirPath` over the parts of a path, the last part left out.
unfoldable pub dir_paths : String → List String → List String
dir_paths dir [] = []
dir_paths dir (part ∷ []) = []
dir_paths dir (part ∷ next ∷ rest) =
    extend_dir dir part ∷ dir_paths (extend_dir dir part) (next ∷ rest)

abbrev pub parts : String → List String
parts path = (split path).0 ∷ (split path).1

-- `dirs[path] = true` on the object `{}`: a new key comes after the others; `__proto__` is the name of
-- an inherited setter, which takes no Boolean, and no key comes of it.
unfoldable pub add_key : String → List String → List String
add_key key keys = if listed key keys || same_text key "__proto__" then keys else keys ++ key ∷ []

unfoldable pub add_keys : List String → List String → List String
add_keys [] keys = keys
add_keys (k ∷ ks) keys = add_keys ks (add_key k keys)

unfoldable pub collect_dirs : List FolderFile → List String → List String
collect_dirs [] dirs = dirs
collect_dirs (f ∷ files) dirs =
    collect_dirs files (add_keys (dir_paths "" (parts f.relative_path)) dirs)

-- The number of a key that is an array index, as `Object.keys` asks: digits, none before others
-- that is 0, below 2^32 - 1.
unfoldable pub digits : ℕ → String → Option ℕ
digits n String.[] = some n
digits n (String.◌∷◌ c s) =
    let rest = digits (n * 10 + (code c - b'0')) s in
    if leb b'0' (code c) && leb (code c) b'9' then rest else none

unfoldable pub array_index : String → Option ℕ
array_index String.[] = none
array_index (String.◌∷◌ c String.[]) = digits 0 (String.◌∷◌ c String.[])
array_index (String.◌∷◌ c (String.◌∷◌ d s)) =
    if code c == b'0' then none else elim (digits 0 (String.◌∷◌ c (String.◌∷◌ d s))) [
      | none ↦ none
      | some n ↦ (if ltb n (2 ^ 32 - 1) then some n else none)
    ]

-- `Object.keys`: the array indices in ascending order, then the other keys as they came.
unfoldable pub object_keys : List String → List String
object_keys keys =
    sort (λ a b. leb (or_else (array_index a) 0) (or_else (array_index b) 0))
      (keep (λ k. is_some (array_index k)) keys)
    ++ keep (λ k. not (is_some (array_index k))) keys

-- The directories in the order in which they are made.
unfoldable pub dir_list : List FolderFile → List String
dir_list files = sort (λ a b. leb (depth a) (depth b)) (object_keys (collect_dirs files []))

-- `(currentPath === '/' ? '' : currentPath) + '/' + path`.
unfoldable pub full_path : String → String → String
full_path current path = append (if same_text current "/" then "" else current) (append "/" path)

-- The chain of requests: each is sent when the one before was answered, with any status; a failure
-- ends it. The result is what was sent, and whether all was answered.
unfoldable pub make_dirs : (String → Bool) → String → List String → List String × Bool
make_dirs answered current [] = ([], true)
make_dirs answered current (d ∷ ds) =
    let (sent, all) = make_dirs answered current ds in
    if answered (full_path current d)
    then (full_path current d ∷ sent, all)
    else (full_path current d ∷ [], false)

unfoldable pub enqueue_all : String → List FolderFile → State → State
enqueue_all current [] s = s
enqueue_all current (f ∷ files) s =
    enqueue_all current files (enqueue f.file (full_path current f.relative_path) s)

-- What `uploadFolderFiles` leaves: the directories asked for, the queue, and whether the error is
-- shown.
pub record FolderUpload : Type 0 where
  pub made : List String
  pub queue : State
  pub error_shown : Bool

unfoldable pub upload_folder_files :
    (String → Bool) → String → List FolderFile → State → FolderUpload
upload_folder_files answered current files s =
    let (sent, all) = make_dirs answered current (dir_list files) in
    record {
      made = sent;
      queue = if all then enqueue_all current files s else s;
      error_shown = not all;
    }

-- `uploadFiles`.
unfoldable pub upload_files : String → List File → State → State
upload_files current [] s = s
upload_files current (f ∷ files) s =
    upload_files current files (enqueue f (full_path current f.name) s)
