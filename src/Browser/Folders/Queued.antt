-- ===== src/Browser/Folders/Queued.antt =====
-- What an upload of folders sends and queues, in fruitsalade/webapp/js/views/browser.js.
use fruit_salade.Transfers.Actions.{from_saved, new_record, enqueue}
use fruit_salade.Base.{
  ℕ, ◌+◌, ◌<◌, String, ◌≡◌, refl, sym, ap, ◌∙◌, ◌⊎◌, inl, inr, Bool, true, false, not, ◌&&◌, some,
  List, [], ◌∷◌, ◌++◌, map, append_assoc, append-nil, arith, if◌then◌else◌, Bool-cases, length,
  update, is_empty, same_text, same_text_refl, listed, AllOf, split, append, has_slash, parent_of,
  parent_of-append,
}
use fruit_salade.Browser.Folders.{
  FolderFile, extend_dir, dir_paths, parts, collect_dirs, dir_list, full_path, make_dirs,
  enqueue_all, upload_folder_files,
}
use fruit_salade.Api.Paths.{join, join-split}
use fruit_salade.Transfers.Model.{queued, File, Saved, State}
use fruit_salade.Browser.Folders.Members.{listed-add_keys, listed-dir_list}
use fruit_salade.Browser.Folders.ParentsFirst.{split-CleanParts}

-- The path that `dirPath` would have reached over all parts.
abbrev whole : String → List String → String
whole dir [] = dir
whole dir (p ∷ ps) = whole (extend_dir dir p) ps

is_empty-extend_dir :
    (dir part : String)
    → (is_empty dir && is_empty part) ≡ false
    → is_empty (extend_dir dir part) ≡ false
unfolding extend_dir append
is_empty-extend_dir String.[] part h = h
is_empty-extend_dir (String.◌∷◌ c s) part h = refl

-- The directory of a file is among the values of `dirPath`.
listed-parent :
    (dir p q : String) (ps : List String)
    → (is_empty dir && is_empty p) ≡ false
    → AllOf (λ r. not (has_slash r)) (q ∷ ps)
    → listed (parent_of (whole dir (p ∷ q ∷ ps))) (dir_paths dir (p ∷ q ∷ ps)) ≡ true
unfolding dir_paths listed
listed-parent dir p q [] h c = rw (last, same_text_refl (extend_dir dir p)) refl
  where
    last : parent_of (extend_dir (extend_dir dir p) q) ≡ extend_dir dir p
    last =
        unfold extend_dir in
        rw (is_empty-extend_dir dir p h)
          (parent_of-append (extend_dir dir p) q (ground (arith, c.0)))
listed-parent dir p q (r ∷ ps) h c =
    ground
      (arith, listed-parent (extend_dir dir p) q r ps (rw (is_empty-extend_dir dir p h) refl) c.1)

append-append : (a b c : String) → append (append a b) c ≡ append a (append b c)
unfolding append
append-append String.[] b c = refl
append-append (String.◌∷◌ x a) b c = ap (String.◌∷◌ x) (append-append a b c)

is_empty-append : (a b : String) → is_empty a ≡ false → is_empty (append a b) ≡ false
unfolding append
is_empty-append String.[] b h = cc
is_empty-append (String.◌∷◌ x a) b h = refl

whole-join :
    (dir p : String) (ps : List String)
    → is_empty dir ≡ false
    → whole dir (p ∷ ps) ≡ append dir (append "/" (join p ps))
unfolding extend_dir join
whole-join dir p [] h = rw h refl
whole-join dir p (q ∷ ps) h = rw h (
    whole-join (append dir (append "/" p)) q ps (is_empty-append dir (append "/" p) h)
    ∙ append-append dir (append "/" p) (append "/" (join q ps))
    ∙ ap (append dir) (append-append "/" p (append "/" (join q ps))))

whole-from_empty :
    (p : String) (ps : List String) → is_empty p ≡ false → whole "" (p ∷ ps) ≡ join p ps
unfolding extend_dir join
whole-from_empty p [] h = refl
whole-from_empty p (q ∷ ps) h = whole-join p q ps h

whole-parts : (path : String) → is_empty (split path).0 ≡ false → whole "" (parts path) ≡ path
whole-parts path h = whole-from_empty (split path).0 (split path).1 h ∙ join-split path

has_slash-join : (p : String) → has_slash p ≡ false → has_slash (join p []) ≡ false
unfolding join
has_slash-join p h = h

own_folder :
    (p : String) (ps : List String)
    → is_empty p ≡ false
    → (has_slash p ≡ false) × AllOf (λ r. not (has_slash r)) ps
    → has_slash (join p ps) ≡ true
    → listed (parent_of (whole "" (p ∷ ps))) (dir_paths "" (p ∷ ps)) ≡ true
own_folder p [] h c k = absurd (cc (k, has_slash-join p c.0))
own_folder p (q ∷ ps) h c k = listed-parent "" p q ps h c.1

dir_paths-own_folder :
    (path : String)
    → is_empty (split path).0 ≡ false
    → has_slash path ≡ true
    → listed (parent_of path) (dir_paths "" (parts path)) ≡ true
dir_paths-own_folder path h k =
    ap (λ w. listed (parent_of w) (dir_paths "" (parts path))) (sym (whole-parts path h))
    ∙ own_folder (split path).0 (split path).1 h (split-CleanParts path)
        (ap has_slash (join-split path) ∙ k)

listed-collect_dirs :
    (d : String) (files : List FolderFile) (dirs : List String)
    → listed d dirs ≡ true
    → listed d (collect_dirs files dirs) ≡ true
unfolding collect_dirs
listed-collect_dirs d [] dirs h = h
listed-collect_dirs d (f ∷ files) dirs h =
    listed-collect_dirs d files _
      (listed-add_keys d (dir_paths "" (parts f.relative_path)) dirs ∙ rw h refl)

collects :
    (before : List FolderFile) (f : FolderFile) (after : List FolderFile) (dirs : List String)
    (d : String)
    → same_text d "__proto__" ≡ false
    → listed d (dir_paths "" (parts f.relative_path)) ≡ true
    → listed d (collect_dirs (before ++ f ∷ after) dirs) ≡ true
unfolding collect_dirs
collects [] f after dirs d n h =
    listed-collect_dirs d after _
      (listed-add_keys d (dir_paths "" (parts f.relative_path)) dirs ∙ rw (h, n) (ground arith))
collects (g ∷ before) f after dirs d n h = collects before f after _ d n h

-- For every file that is dropped in a folder, with a path that does not begin with a slash, the
-- folder that holds it is among the directories that are made, unless it is `__proto__`.
pub dir_list-own_folder :
    (before : List FolderFile) (f : FolderFile) (after : List FolderFile)
    → is_empty (split f.relative_path).0 ≡ false
    → has_slash f.relative_path ≡ true
    → same_text (parent_of f.relative_path) "__proto__" ≡ false
    → listed (parent_of f.relative_path) (dir_list (before ++ f ∷ after)) ≡ true
dir_list-own_folder before f after h k n =
    listed-dir_list (parent_of f.relative_path) (before ++ f ∷ after)
    ∙ collects before f after [] (parent_of f.relative_path) n
        (dir_paths-own_folder f.relative_path h k)

-- The first directory of a list that gets no answer.
abbrev pub StopsAt : (String → Bool) → String → List String → List String → Type 0
StopsAt answered current ds sent =
    (before : List String) × (d : String) × (after : List String) × (ds ≡ before ++ d ∷ after)
    × (answered (full_path current d) ≡ false)
    × (sent ≡ map (full_path current) (before ++ d ∷ []))

make_dirs_lem :
    (answered : String → Bool) (current : String) (ds : List String)
    → (((make_dirs answered current ds).1 ≡ true)
        × ((make_dirs answered current ds).0 ≡ map (full_path current) ds))
      ⊎ (((make_dirs answered current ds).1 ≡ false)
          × StopsAt answered current ds (make_dirs answered current ds).0)
unfolding make_dirs
make_dirs_lem answered current [] = inl (refl, refl)
make_dirs_lem answered current (d ∷ ds) = elim (Bool-cases (answered (full_path current d))) [
  | inl e ↦ rw e (elim (make_dirs_lem answered current ds) [
    | inl r ↦ inl (r.0, ap (λ l. full_path current d ∷ l) r.1)
    | inr (f, (before, x, after, p, q, m)) ↦
        inr (f, (d ∷ before, x, after, ap (λ l. d ∷ l) p, q, ap (λ l. full_path current d ∷ l) m))
  ])
  | inr e ↦ rw e (inr (refl, ([], d, ds, refl, e, refl)))
]

-- The path of a file in the folder that is open.
abbrev pub in_folder : String → String → String
in_folder current path =
    if same_text current "/" then append "/" path else append current (append "/" path)

full_path-in_folder : (current path : String) → full_path current path ≡ in_folder current path
unfolding full_path append
full_path-in_folder current path = elim (Bool-cases (same_text current "/")) [
  | inl e ↦ rw e refl
  | inr e ↦ rw e refl
]

-- A transfer that waits for its turn, to the path, with the name and the size of the file.
abbrev pub WaitsFor : String → File → Saved → Type 0
WaitsFor path file r =
    (r.path ≡ path)
    × (r.file_name ≡ file.name)
    × (r.file_size ≡ length file.bytes)
    × (r.status ≡ queued)

-- From a number on, the transfers are those of the files in turn, stored and in memory.
abbrev pub AllQueued : String → State → ℕ → List FolderFile → Type 0
AllQueued current u id [] = Unit
AllQueued current u id (f ∷ files) =
    ((r : Saved) × (u.db id ≡ some r)
      × ((u.heap id).saved ≡ r)
      × WaitsFor (in_folder current f.relative_path) f.file r)
    × AllQueued current u (id + 1) files

abbrev pub numbered : ℕ → List FolderFile → List (ℕ × File)
numbered id [] = []
numbered id (f ∷ files) = (id, f.file) ∷ numbered (id + 1) files

-- The files are queued behind what there was, which stays as it was.
pub record IsQueued (current : String) (files : List FolderFile) (old new : State) : Type 0 where
  pub keys : new.next_key ≡ old.next_key + length files
  pub waiting : new.storing ≡ old.storing ++ numbered old.next_key files
  pub records : AllQueued current new old.next_key files
  pub kept : (id : ℕ) → id < old.next_key → (new.db id ≡ old.db id) × (new.heap id ≡ old.heap id)

module _ (current : String) (f : FolderFile) (files : List FolderFile) (s : State) where
  abbrev first : Saved
  first = new_record f.file (full_path current f.relative_path) s.clock

  abbrev after_first : State
  after_first = enqueue f.file (full_path current f.relative_path) s

  IsQueued-cons :
      (new : State) → IsQueued current files after_first new → IsQueued current (f ∷ files) s new
  unfolding enqueue
  IsQueued-cons new rest = record {
    keys = ground (arith, rest.keys);
    waiting =
        rest.waiting
        ∙ append_assoc s.storing ((s.next_key, f.file) ∷ []) (numbered (s.next_key + 1) files);
    records = (
      (
        first,
        (rest.kept s.next_key (omega arith)).0 ∙ ground arith,
        ap (λ t. t.saved) ((rest.kept s.next_key (omega arith)).1 ∙ here),
        (full_path-in_folder current f.relative_path, refl, refl, refl),
      ),
      rest.records,
    );
    kept = λ id h. (
      (rest.kept id (omega arith)).0 ∙ ground arith,
      (rest.kept id (omega arith)).1 ∙ ground arith,
    );
  }
    where
      here : update s.heap s.next_key (from_saved first) s.next_key ≡ from_saved first
      here = ground arith

enqueue_all-IsQueued :
    (current : String) (files : List FolderFile) (s : State)
    → IsQueued current files s (enqueue_all current files s)
unfolding enqueue_all
enqueue_all-IsQueued current [] s = record {
  keys = omega arith;
  waiting = sym (append-nil s.storing);
  records = tt;
  kept = λ id h. (refl, refl);
}
enqueue_all-IsQueued current (f ∷ files) s =
    IsQueued-cons current f files s (enqueue_all current files (after_first current f files s))
      (enqueue_all-IsQueued current files (after_first current f files s))

-- Either all directories are asked for, each after the answer to the one before, and then the files
-- are queued in turn behind what there was, each as a waiting transfer with a record of its own to
-- its path in the open folder; or one directory gets no answer, and then none behind it is asked
-- for, no file is queued, and the error is shown.
pub upload_folder_files_lem :
    (answered : String → Bool) (current : String) (files : List FolderFile) (s : State)
    → let u = upload_folder_files answered current files s in
      ((u.error_shown ≡ false)
        × (u.made ≡ map (full_path current) (dir_list files))
        × IsQueued current files s u.queue)
      ⊎ ((u.error_shown ≡ true) × (u.queue ≡ s) × StopsAt answered current (dir_list files) u.made)
unfolding upload_folder_files
upload_folder_files_lem answered current files s =
    elim (make_dirs_lem answered current (dir_list files)) [
      | inl r ↦ inl (rw r.0 refl, r.1, rw r.0 (enqueue_all-IsQueued current files s))
      | inr r ↦ inr (rw r.0 refl, rw r.0 refl, r.1)
    ]
