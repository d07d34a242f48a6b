-- ===== src/Browser/Selection/Sets.antt =====
-- The keys of `selectedPaths` as a set, in fruitsalade/webapp/js/views/browser.js.
use fruit_salade.Base.{
  String, ◌≡◌, ap, inl, inr, Bool, true, false, not, ◌&&◌, ◌||◌, List, [], ◌∷◌, arith,
  if◌then◌else◌, Bool-cases, same_text, same_text→≡, listed, listed-append, listed-keep, IsKeySet,
  IsKeySet-snoc, IsKeySet-keep,
}
use fruit_salade.Browser.Selection.{
  Row, key_of, select_key, remove_key, add_rows, remove_rows, set_key,
}

-- A row with a key is among these.
abbrev pub in_rows : String → List Row → Bool
in_rows k [] = false
in_rows k (r ∷ rs) = same_text k (key_of r) || in_rows k rs

pub listed-remove_key :
    (k key : String) (keys : List String)
    → listed k (remove_key key keys) ≡ (listed k keys && not (same_text k key))
unfolding remove_key
listed-remove_key k key keys = listed-keep (λ j. not (same_text j key)) k keys

listed-select_key :
    (k key : String) (keys : List String)
    → listed k (select_key key keys) ≡ (listed k keys || same_text k key)
unfolding select_key listed
listed-select_key k key keys = elim (Bool-cases (same_text k key)) [
  | inl q ↦
      ground (arith, ap (λ j. listed j keys) (same_text→≡ k key q), listed-append k keys (key ∷ []))
  | inr q ↦ ground (arith, listed-append k keys (key ∷ []))
]

pub listed-set_key :
    (on : Bool) (k key : String) (keys : List String)
    → listed k (set_key on key keys) ≡ (if same_text k key then on else listed k keys)
unfolding set_key
listed-set_key true k key keys = ground (arith, listed-select_key k key keys)
listed-set_key false k key keys = ground (arith, listed-remove_key k key keys)

pub listed-add_rows :
    (k : String) (rs : List Row) (keys : List String)
    → listed k (add_rows rs keys) ≡ (listed k keys || in_rows k rs)
unfolding add_rows
listed-add_rows k [] keys = ground arith
listed-add_rows k (r ∷ rs) keys =
    ground (
      arith,
      listed-add_rows k rs (select_key (key_of r) keys),
      listed-select_key k (key_of r) keys,
    )

pub listed-remove_rows :
    (k : String) (rs : List Row) (keys : List String)
    → listed k (remove_rows rs keys) ≡ (listed k keys && not (in_rows k rs))
unfolding remove_rows
listed-remove_rows k [] keys = ground arith
listed-remove_rows k (r ∷ rs) keys = ground (
  arith,
  listed-remove_rows k rs (remove_key (key_of r) keys),
  listed-remove_key k (key_of r) keys,
)

select_key-IsKeySet : (k : String) (ks : List String) → IsKeySet ks → IsKeySet (select_key k ks)
unfolding select_key
select_key-IsKeySet k ks h = elim (Bool-cases (listed k ks)) [
  | inl e ↦ rw e h
  | inr e ↦ rw e (IsKeySet-snoc ks k e h)
]

pub set_key-IsKeySet :
    (on : Bool) (k : String) (ks : List String) → IsKeySet ks → IsKeySet (set_key on k ks)
unfolding set_key remove_key
set_key-IsKeySet true k ks h = select_key-IsKeySet k ks h
set_key-IsKeySet false k ks h = IsKeySet-keep (λ j. not (same_text j k)) ks h

pub add_rows-IsKeySet : (rs : List Row) (ks : List String) → IsKeySet ks → IsKeySet (add_rows rs ks)
unfolding add_rows
add_rows-IsKeySet [] ks h = h
add_rows-IsKeySet (r ∷ rs) ks h =
    add_rows-IsKeySet rs (select_key (key_of r) ks) (select_key-IsKeySet (key_of r) ks h)

pub remove_rows-IsKeySet :
    (rs : List Row) (ks : List String) → IsKeySet ks → IsKeySet (remove_rows rs ks)
unfolding remove_rows remove_key set_key
remove_rows-IsKeySet [] ks h = h
remove_rows-IsKeySet (r ∷ rs) ks h =
    remove_rows-IsKeySet rs (remove_key (key_of r) ks) (set_key-IsKeySet false (key_of r) ks h)
