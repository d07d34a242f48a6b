-- ===== src/Base/Keys.antt =====
-- Lists of texts as sets: what is listed, and that none is listed twice.
use Prim.Native.Nat.{ℕ, zero, suc}
use Prim.Native.String.{String}
use mathlib.Core.Path.{◌≡◌, refl, ap, ◌∙◌}
use mathlib.Core.Logic.{inl, inr}
use mathlib.Core.Bool.{Bool, false, ◌&&◌, ◌||◌}
use mathlib.Core.List.{List, [], ◌∷◌, ◌++◌}
use native.Mathlib.Omega.{arith}
use fruit_salade.Base.Tests.{Bool-cases}
use fruit_salade.Base.Lists.{take}
use fruit_salade.Base.Text.{listed, same_text, same_text→≡, same_text_refl}
use fruit_salade.Base.Sorting.{keep, insert_sorted, sort}

pub same_text_turn : (a b : String) → same_text b a ≡ false → same_text a b ≡ false
same_text_turn a b h = elim (Bool-cases (same_text a b)) [
  | inl e ↦ cc (same_text→≡ a b e, same_text_refl b)
  | inr e ↦ e
]

pub listed-append :
    (d : String) (xs ys : List String) → listed d (xs ++ ys) ≡ (listed d xs || listed d ys)
unfolding listed
listed-append d [] ys = refl
listed-append d (x ∷ xs) ys = ground (arith, listed-append d xs ys)

listed-insert_sorted :
    (le : String → String → Bool) (d x : String) (ys : List String)
    → listed d (insert_sorted le x ys) ≡ (same_text d x || listed d ys)
unfolding listed insert_sorted
listed-insert_sorted le d x [] = refl
listed-insert_sorted le d x (y ∷ ys) = elim (Bool-cases (le x y)) [
  | inl e ↦ rw e refl
  | inr e ↦ rw e (ground (arith, listed-insert_sorted le d x ys))
]

pub listed-sort :
    (le : String → String → Bool) (d : String) (xs : List String)
    → listed d (sort le xs) ≡ listed d xs
unfolding listed sort
listed-sort le d [] = refl
listed-sort le d (x ∷ xs) =
    listed-insert_sorted le d x (sort le xs) ∙ ap (λ b. same_text d x || b) (listed-sort le d xs)

pub listed-keep :
    (test : String → Bool) (d : String) (xs : List String)
    → listed d (keep test xs) ≡ (listed d xs && test d)
unfolding listed keep
listed-keep test d [] = refl
listed-keep test d (x ∷ xs) = elim (Bool-cases (same_text d x)) [
  | inl e ↦ ground (arith, ap test (same_text→≡ d x e), listed-keep test d xs)
  | inr e ↦ ground (arith, listed-keep test d xs)
]

-- No key stands twice.
abbrev pub IsKeySet : List String → Type 0
IsKeySet [] = Unit
IsKeySet (k ∷ ks) = (listed k ks ≡ false) × IsKeySet ks

pub IsKeySet-snoc :
    (ks : List String) (k : String) → listed k ks ≡ false → IsKeySet ks → IsKeySet (ks ++ k ∷ [])
unfolding listed
IsKeySet-snoc [] k n h = (refl, tt)
IsKeySet-snoc (x ∷ ks) k n h = (
  listed-append x ks (k ∷ []) ∙ ground (arith, h.0, apart),
  IsKeySet-snoc ks k (ground arith) h.1,
)
  where
    apart : same_text x k ≡ false
    apart = elim (Bool-cases (same_text x k)) [
      | inr e ↦ e
      | inl e ↦
          absurd (ground (arith, n, ap (λ t. same_text k t) (same_text→≡ x k e), same_text_refl k))
    ]

pub IsKeySet-keep :
    (test : String → Bool) (ks : List String) → IsKeySet ks → IsKeySet (keep test ks)
unfolding keep
IsKeySet-keep test [] h = tt
IsKeySet-keep test (k ∷ ks) h = elim (Bool-cases (test k)) [
  | inl e ↦ rw e (listed-keep test k ks ∙ rw h.0 refl, IsKeySet-keep test ks h.1)
  | inr e ↦ rw e (IsKeySet-keep test ks h.1)
]

pub listed-take :
    (n : ℕ) (d : String) (xs : List String) → listed d xs ≡ false → listed d (take n xs) ≡ false
unfolding listed
listed-take zero d xs h = refl
listed-take (suc n) d [] h = refl
listed-take (suc n) d (x ∷ xs) h = ground (arith, listed-take n d xs)

pub IsKeySet-take : (n : ℕ) (xs : List String) → IsKeySet xs → IsKeySet (take n xs)
IsKeySet-take zero xs h = tt
IsKeySet-take (suc n) [] h = tt
IsKeySet-take (suc n) (x ∷ xs) h = (listed-take n x xs h.0, IsKeySet-take n xs h.1)
