-- ===== src/Browser/Folders/ParentsFirst.antt =====
-- The order in which an upload of folders makes its directories, in
-- fruitsalade/webapp/js/views/browser.js.
use Prim.Native.Char.{code}
use fruit_salade.Base.{
  String, ◌≡◌, refl, sym, ap, subst, ◌∙◌, ◌⊎◌, inl, inr, Bool, true, false, not, ◌||◌, List, [],
  ◌∷◌, ◌++◌, arith, leb, ◌==◌, Bool-cases, is_empty, same_text, same_text→≡, same_text_refl, listed,
  AllOf, IsOrdered, sort-IsOrdered, split, has_slash, parent_of, depth, parent_of-append,
  depth-parent_of, listed-append,
}
use fruit_salade.Browser.Folders.{
  FolderFile, extend_dir, dir_paths, parts, add_keys, collect_dirs, dir_list,
}
use fruit_salade.Browser.Folders.Members.{listed-add_keys, listed-dir_list}

abbrev pub CleanParts : String × List String → Type 0
CleanParts (p, ps) = (has_slash p ≡ false) × AllOf (λ q. not (has_slash q)) ps

pub split-CleanParts : (s : String) → CleanParts (split s)
unfolding split has_slash
split-CleanParts String.[] = (refl, tt)
split-CleanParts (String.◌∷◌ c s) = elim (Bool-cases (code c == b'/')) [
  | inl e ↦ rw e (refl, (rw (split-CleanParts s).0 refl, (split-CleanParts s).1))
  | inr e ↦ rw e (ground (arith, (split-CleanParts s).0), (split-CleanParts s).1)
]

-- What a list lacks to hold the directory above each of its own.
abbrev ClosedFrom : String → List String → Type 0
ClosedFrom above ds =
    (d : String)
    → listed d ds ≡ true
    → has_slash d ≡ true
    → (listed (parent_of d) ds ≡ true) ⊎ ((parent_of d ≡ above) × (is_empty above ≡ false))

parent_of-extend_dir :
    (dir part : String)
    → has_slash part ≡ false
    → has_slash (extend_dir dir part) ≡ true
    → (parent_of (extend_dir dir part) ≡ dir) × (is_empty dir ≡ false)
unfolding extend_dir
parent_of-extend_dir dir part c h = elim (Bool-cases (is_empty dir)) [
  | inl e ↦ absurd (cc (c, rw e at h))
  | inr e ↦ rw e (parent_of-append dir part c, refl)
]

dir_paths-ClosedFrom :
    (dir : String) (ps : List String)
    → AllOf (λ q. not (has_slash q)) ps
    → ClosedFrom dir (dir_paths dir ps)
unfolding dir_paths listed
dir_paths-ClosedFrom dir [] c d m h = cc
dir_paths-ClosedFrom dir (p ∷ []) c d m h = cc
dir_paths-ClosedFrom dir (p ∷ q ∷ ps) c d m h = elim (Bool-cases (same_text d (extend_dir dir p))) [
  | inl e ↦ inr (above (same_text→≡ d (extend_dir dir p) e))
  | inr e ↦ inl (behind (dir_paths-ClosedFrom (extend_dir dir p) (q ∷ ps) c.1 d (ground arith) h))
]
  where
    above : d ≡ extend_dir dir p → (parent_of d ≡ dir) × (is_empty dir ≡ false)
    above e =
        let (x, y) = parent_of-extend_dir dir p (ground (arith, c.0)) (ap has_slash (sym e) ∙ h) in
        (ap parent_of e ∙ x, y)

    behind :
        (listed (parent_of d) (dir_paths (extend_dir dir p) (q ∷ ps)) ≡ true)
          ⊎ ((parent_of d ≡ extend_dir dir p) × (is_empty (extend_dir dir p) ≡ false))
        → (same_text (parent_of d) (extend_dir dir p)
            || listed (parent_of d) (dir_paths (extend_dir dir p) (q ∷ ps)))
          ≡ true
    behind (inl l) = ground arith
    behind (inr (x, y)) = rw (x, same_text_refl (extend_dir dir p)) refl

abbrev Closed : List String → Type 0
Closed ds = (d : String) → listed d ds ≡ true → has_slash d ≡ true → listed (parent_of d) ds ≡ true

dir_paths-Closed : (path : String) → Closed (dir_paths "" (parts path))
dir_paths-Closed path d m h = elim (dir_paths-ClosedFrom "" (parts path) clean d m h) [
  | inl l ↦ l
  | inr r ↦ absurd (cc (r.1))
]
  where
    clean : AllOf (λ q. not (has_slash q)) (parts path)
    clean = (rw (split-CleanParts path).0 refl, (split-CleanParts path).1)

-- The same of the keys of `dirs`, of which `__proto__` is none.
abbrev KeysClosed : List String → Type 0
KeysClosed ds =
    (d : String)
    → listed d ds ≡ true
    → has_slash d ≡ true
    → (listed (parent_of d) ds || same_text (parent_of d) "__proto__") ≡ true

add_keys-KeysClosed :
    (ks keys : List String) → Closed ks → KeysClosed keys → KeysClosed (add_keys ks keys)
add_keys-KeysClosed ks keys f g d m h = elim (Bool-cases (listed d keys)) [
  | inl e ↦ ground (arith, listed-add_keys (parent_of d) ks keys, g d e h)
  | inr e ↦ ground (
    arith,
    listed-add_keys (parent_of d) ks keys,
    f d (ground (arith, listed-add_keys d ks keys)) h,
  )
]

collect_dirs-KeysClosed :
    (files : List FolderFile) (dirs : List String)
    → KeysClosed dirs
    → KeysClosed (collect_dirs files dirs)
unfolding collect_dirs
collect_dirs-KeysClosed [] dirs h = h
collect_dirs-KeysClosed (f ∷ files) dirs h =
    collect_dirs-KeysClosed files (add_keys (dir_paths "" (parts f.relative_path)) dirs) (
      add_keys-KeysClosed (dir_paths "" (parts f.relative_path)) dirs
        (dir_paths-Closed f.relative_path) h)

dir_list-KeysClosed : (files : List FolderFile) → KeysClosed (dir_list files)
unfolding listed
dir_list-KeysClosed files d m h =
    ap (λ b. b || same_text (parent_of d) "__proto__") (listed-dir_list (parent_of d) files)
    ∙ collect_dirs-KeysClosed files [] (λ e n k. cc) d (sym (listed-dir_list d files) ∙ m) h

collect_dirs-no_proto :
    (files : List FolderFile) (dirs : List String)
    → listed "__proto__" dirs ≡ false
    → listed "__proto__" (collect_dirs files dirs) ≡ false
unfolding collect_dirs
collect_dirs-no_proto [] dirs h = h
collect_dirs-no_proto (f ∷ files) dirs h =
    collect_dirs-no_proto files (add_keys (dir_paths "" (parts f.relative_path)) dirs) (
      ground (
        arith,
        listed-add_keys "__proto__" (dir_paths "" (parts f.relative_path)) dirs,
        same_text_refl "__proto__",
      ))

dir_list-no_proto : (files : List FolderFile) → listed "__proto__" (dir_list files) ≡ false
unfolding listed
dir_list-no_proto files = listed-dir_list "__proto__" files ∙ collect_dirs-no_proto files [] refl

AllOf-listed :
    (test : String → Bool) (d : String) (ds : List String)
    → AllOf test ds
    → listed d ds ≡ true
    → test d ≡ true
unfolding listed
AllOf-listed test d [] h m = cc
AllOf-listed test d (x ∷ ds) h m = elim (Bool-cases (same_text d x)) [
  | inl e ↦ ap test (same_text→≡ d x e) ∙ h.0
  | inr e ↦ AllOf-listed test d ds h.1 (ground arith)
]

IsOrdered-after :
    (le : String → String → Bool) (before : List String) (d : String) (after : List String)
    → IsOrdered le (before ++ d ∷ after)
    → AllOf (le d) after
IsOrdered-after le [] d after h = h.0
IsOrdered-after le (x ∷ before) d after h = IsOrdered-after le before d after h.1

abbrev by_depth : String → String → Bool
by_depth a b = leb (depth a) (depth b)

dir_list-IsOrdered : (files : List FolderFile) → IsOrdered by_depth (dir_list files)
unfolding dir_list
dir_list-IsOrdered files =
    sort-IsOrdered by_depth (λ a b. ground arith) (λ a b c h k. ground arith) _

-- When the directory `d` is made for dropped or picked files, the directory that its path names
-- before the last slash has been made before it; unless that one's whole path is `__proto__`, which
-- is never made.
pub parents_first :
    (files : List FolderFile) (before : List String) (d : String) (after : List String)
    → dir_list files ≡ before ++ d ∷ after
    → has_slash d ≡ true
    → (listed (parent_of d) before ≡ true)
      ⊎ ((parent_of d ≡ "__proto__") × (listed (parent_of d) (dir_list files) ≡ false))
unfolding listed
parents_first files before d after p h = elim (Bool-cases (same_text (parent_of d) "__proto__")) [
  | inl q ↦ inr (
    same_text→≡ (parent_of d) "__proto__" q,
    ap (λ k. listed k (dir_list files)) (same_text→≡ (parent_of d) "__proto__" q)
        ∙ dir_list-no_proto files,
  )
  | inr q ↦ elim (Bool-cases (listed (parent_of d) before)) [
    | inl e ↦ inl e
    | inr e ↦ absurd (late q e)
  ]
]
  where
    here : listed d (dir_list files) ≡ true
    here = ap (listed d) p ∙ listed-append d before (d ∷ after) ∙ ground (arith, same_text_refl d)

    later : by_depth d (parent_of d) ≡ true → ⊥
    later e = ground (arith, depth-parent_of d h)

    late : same_text (parent_of d) "__proto__" ≡ false → listed (parent_of d) before ≡ false → ⊥
    late n e = elim (Bool-cases (same_text (parent_of d) d)) [
      | inl q ↦ later (rw (same_text→≡ (parent_of d) d q) (ground arith))
      | inr q ↦ later (
          AllOf-listed (by_depth d) (parent_of d) after
            (IsOrdered-after by_depth before d after
              (subst (IsOrdered by_depth) p (dir_list-IsOrdered files)))
            (ground (
              arith,
              listed-append (parent_of d) before (d ∷ after),
              ap (listed (parent_of d)) p,
              dir_list-KeysClosed files d here h,
            )))
    ]
