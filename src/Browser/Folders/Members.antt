-- ===== src/Browser/Folders/Members.antt =====
-- Which directories an upload of folders makes, in fruitsalade/webapp/js/views/browser.js.
use fruit_salade.Base.{
  String, ◌≡◌, ap, ◌∙◌, inl, inr, not, ◌&&◌, ◌||◌, List, [], ◌∷◌, arith, leb, Bool-cases, is_some,
  or_else, same_text, same_text→≡, listed, keep, sort, listed-append, listed-sort, listed-keep,
}
use fruit_salade.Browser.Folders.{
  FolderFile, add_key, add_keys, collect_dirs, array_index, object_keys, dir_list,
}

pub listed-object_keys :
    (d : String) (keys : List String) → listed d (object_keys keys) ≡ listed d keys
unfolding object_keys
listed-object_keys d keys =
    listed-append d (sort _ (keep (λ k. is_some (array_index k)) keys))
      (keep (λ k. not (is_some (array_index k))) keys)
    ∙ ground (
      arith,
      listed-sort (λ a b. leb (or_else (array_index a) 0) (or_else (array_index b) 0)) d
          (keep (λ k. is_some (array_index k)) keys),
      listed-keep (λ k. is_some (array_index k)) d keys,
      listed-keep (λ k. not (is_some (array_index k))) d keys,
    )

pub listed-add_key :
    (d key : String) (keys : List String)
    → listed d (add_key key keys)
      ≡ (listed d keys || same_text d key && not (same_text d "__proto__"))
unfolding add_key listed
listed-add_key d key keys = elim (Bool-cases (same_text d key)) [
  | inl q ↦ ground (
    arith,
    ap (λ k. listed k keys) (same_text→≡ d key q),
    ap (λ k. same_text k "__proto__") (same_text→≡ d key q),
    listed-append d keys (key ∷ []),
  )
  | inr q ↦ ground (arith, listed-append d keys (key ∷ []))
]

pub listed-add_keys :
    (d : String) (ks keys : List String)
    → listed d (add_keys ks keys) ≡ (listed d keys || listed d ks && not (same_text d "__proto__"))
unfolding add_keys listed
listed-add_keys d [] keys = ground arith
listed-add_keys d (k ∷ ks) keys =
    ground (arith, listed-add_keys d ks (add_key k keys), listed-add_key d k keys)

pub listed-dir_list :
    (d : String) (files : List FolderFile)
    → listed d (dir_list files) ≡ listed d (collect_dirs files [])
unfolding dir_list
listed-dir_list d files = listed-sort _ d _ ∙ listed-object_keys d (collect_dirs files [])
