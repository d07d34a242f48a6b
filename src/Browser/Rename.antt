-- ===== src/Browser/Rename.antt =====
-- The inline rename of fruitsalade/webapp/js/views/browser.js.
use fruit_salade.Base.{
  String, ◌≡◌, refl, ap, ◌∙◌, true, false, ◌||◌, List, [], ◌∷◌, ◌++◌, if◌then◌else◌, is_empty,
  same_text, append, has_slash, parent_of, base_of, parent_of-append, base_of-append, base_of-clean,
  append-parent_of-base_of,
}

-- `parentDir + '/' + newName`.
unfoldable pub renamed : String → String → String
renamed path new_name = append (parent_of path) (append "/" new_name)

-- The input, trimmed, and the requests that were sent: from a path to a path.
pub record RenameBox : Type 0 where
  pub path : String
  pub value : String
  pub posts : List (String × String)

unfoldable pub commit : RenameBox → RenameBox
commit b =
    if is_empty b.value || same_text b.value (base_of b.path)
    then b
    else record b { posts = b.posts ++ (b.path, renamed b.path b.value) ∷ [] }

-- Enter and the loss of the focus commit; Escape loads the folder, which takes the input away.
pub data RenameEvent : Type 0 where
  types_name : String → RenameEvent
  enter escape_key blur : RenameEvent

unfoldable pub after_rename : RenameEvent → RenameBox → RenameBox
after_rename (types_name n) b = record b { value = n }
after_rename enter b = commit b
after_rename escape_key b = b
after_rename blur b = commit b

unfoldable pub start_rename : String → RenameBox
start_rename path = record { path = path; value = base_of path; posts = [] }

-- With a name without a slash, the new path has the same parent and that name, and renaming it to
-- the old name asks for the old path.
pub renamed_lem :
    (path new_name : String)
    → has_slash path ≡ true
    → has_slash new_name ≡ false
    → (parent_of (renamed path new_name) ≡ parent_of path)
      × (base_of (renamed path new_name) ≡ new_name)
      × (renamed (renamed path new_name) (base_of path) ≡ path)
unfolding renamed
renamed_lem path new_name h k = (
  parent_of-append (parent_of path) new_name k,
  base_of-append (parent_of path) new_name k ∙ base_of-clean new_name k,
  rw (parent_of-append (parent_of path) new_name k) (append-parent_of-base_of path h),
)

commit_lem :
    (b : RenameBox)
    → is_empty b.value ≡ false
    → same_text b.value (base_of b.path) ≡ false
    → commit b ≡ record b { posts = b.posts ++ (b.path, renamed b.path b.value) ∷ [] }
unfolding commit
commit_lem b e d = rw (e, d) refl

-- A new name that is entered is asked for twice when the input then loses the focus, and one that
-- is given up with Escape is asked for when it does.
pub after_rename_twice :
    (path name : String)
    → is_empty name ≡ false
    → same_text name (base_of path) ≡ false
    → let b = after_rename (types_name name) (start_rename path) in
      ((after_rename blur (after_rename enter b)).posts
        ≡ (path, renamed path name) ∷ (path, renamed path name) ∷ [])
      × ((after_rename blur (after_rename escape_key b)).posts ≡ (path, renamed path name) ∷ [])
unfolding after_rename start_rename
after_rename_twice path name e d = (
  ap (λ b. (commit b).posts) (commit_lem _ e d) ∙ ap (λ b. b.posts) (commit_lem _ e d),
  ap (λ b. b.posts) (commit_lem _ e d),
)
