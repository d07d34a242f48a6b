-- ===== src/Base/Lists.antt =====
-- Lists over the native numbers, the arrays of identifiers, and maps as functions.
use Prim.Native.Nat.{ℕ, zero, suc, ◌+◌}
use mathlib.Core.Path.{◌≡◌, refl, subst}
use mathlib.Core.Logic.{◌≢◌, inl, inr}
use mathlib.Core.Bool.{Bool, true, false, ◌||◌}
use mathlib.Core.List.{List, [], ◌∷◌, ◌++◌}
use native.Mathlib.Omega.{arith}
use fruit_salade.Base.Tests.{==→≡, ==_refl, ◌==◌, if◌then◌else◌, Bool-cases}

module _ {ℓ} {A : Type ℓ} where
  abbrev pub length : List A → ℕ
  length [] = 0
  length (x ∷ xs) = suc (length xs)

  abbrev pub take : ℕ → List A → List A
  take zero xs = []
  take (suc n) [] = []
  take (suc n) (x ∷ xs) = x ∷ take n xs

  abbrev pub drop : ℕ → List A → List A
  drop zero xs = xs
  drop (suc n) [] = []
  drop (suc n) (x ∷ xs) = drop n xs

  -- A map from numbers, overwritten at one key.
  abbrev pub update : (ℕ → A) → ℕ → A → ℕ → A
  update m k v j = if k == j then v else m j

  pub length-append : (xs ys : List A) → length (xs ++ ys) ≡ length xs + length ys
  length-append [] ys = omega arith
  length-append (x ∷ xs) ys = omega (arith, length-append xs ys)

-- `indexOf(x) !== -1` on an array of numbers.
abbrev pub contains : List ℕ → ℕ → Bool
contains [] a = false
contains (x ∷ xs) a = x == a || contains xs a

-- `splice(indexOf(a), 1)`: the first occurrence goes, and nothing if there is none.
abbrev pub remove_first : ℕ → List ℕ → List ℕ
remove_first a [] = []
remove_first a (x ∷ xs) = let rest = x ∷ remove_first a xs in if x == a then xs else rest

abbrev pub IsNodup : List ℕ → Type 0
IsNodup [] = Unit
IsNodup (x ∷ xs) = (contains xs x ≡ false) × IsNodup xs

pub contains-append :
    (xs ys : List ℕ) (a : ℕ) → contains (xs ++ ys) a ≡ (contains xs a || contains ys a)
contains-append [] ys a = refl
contains-append (x ∷ xs) ys a = ground (arith, contains-append xs ys a)

-- What stays was there, and what was there and is another number stays.
pub contains-remove_first :
    (a b : ℕ) (xs : List ℕ) → contains (remove_first a xs) b ≡ true → contains xs b ≡ true
contains-remove_first a b [] h = h
contains-remove_first a b (x ∷ xs) h = ground (arith, contains-remove_first a b xs)

pub contains-remove_first_self :
    (a : ℕ) (xs : List ℕ) → IsNodup xs → contains (remove_first a xs) a ≡ false
contains-remove_first_self a [] h = refl
contains-remove_first_self a (x ∷ xs) h = elim (Bool-cases (x == a)) [
  | inl e ↦ ground (arith, h.0)
  | inr e ↦ ground (arith, contains-remove_first_self a xs h.1)
]

pub contains-remove_first_other :
    (a b : ℕ) (xs : List ℕ) → a ≢ b → contains (remove_first a xs) b ≡ contains xs b
contains-remove_first_other a b [] h = refl
contains-remove_first_other a b (x ∷ xs) h = ground (arith, contains-remove_first_other a b xs)

pub contains-remove_first-false :
    (a b : ℕ) (xs : List ℕ) → contains xs b ≡ false → contains (remove_first a xs) b ≡ false
contains-remove_first-false a b [] h = refl
contains-remove_first-false a b (x ∷ xs) h = ground (arith, contains-remove_first-false a b xs)

pub IsNodup-remove_first : (a : ℕ) (xs : List ℕ) → IsNodup xs → IsNodup (remove_first a xs)
IsNodup-remove_first a [] h = tt
IsNodup-remove_first a (x ∷ xs) h = elim (Bool-cases (x == a)) [
  | inl e ↦ ground (arith, h.1)
  | inr e ↦ ground (arith, contains-remove_first-false a x xs, IsNodup-remove_first a xs h.1)
]

-- A predicate of every number in a list.
abbrev pub All {ℓ} : (ℕ → Type ℓ) → List ℕ → Type ℓ
All P xs = (j : ℕ) → contains xs j ≡ true → P j

pub All-cons {ℓ} : (P : ℕ → Type ℓ) (x : ℕ) (xs : List ℕ) → P x → All P xs → All P (x ∷ xs)
All-cons P x xs p h j m = elim (Bool-cases (x == j)) [
  | inl e ↦ subst P (==→≡ x j e) p
  | inr e ↦ h j (ground arith)
]

pub contains_self : (x : ℕ) (xs : List ℕ) → contains (x ∷ xs) x ≡ true
contains_self x xs = ground (arith, ==_refl x)

pub contains-split : (xs ys : List ℕ) (a : ℕ) → contains (xs ++ a ∷ ys) a ≡ true
contains-split xs ys a = ground (arith, contains-append xs (a ∷ ys) a, contains_self a ys)

pub All-snoc {ℓ} : (P : ℕ → Type ℓ) (xs : List ℕ) (x : ℕ) → All P xs → P x → All P (xs ++ x ∷ [])
All-snoc P xs x h p j m = elim (Bool-cases (x == j)) [
  | inl e ↦ subst P (==→≡ x j e) p
  | inr e ↦ h j (ground (arith, contains-append xs (x ∷ []) j))
]

-- The parts of a list.
pub contains-append_left :
    (xs ys : List ℕ) (j : ℕ) → contains xs j ≡ true → contains (xs ++ ys) j ≡ true
contains-append_left xs ys j m = ground (arith, contains-append xs ys j)

pub contains-append_right :
    (xs ys : List ℕ) (j : ℕ) → contains ys j ≡ true → contains (xs ++ ys) j ≡ true
contains-append_right xs ys j m = ground (arith, contains-append xs ys j)

pub remove_first-append :
    (a : ℕ) (xs ys : List ℕ)
    → contains xs a ≡ true
    → remove_first a xs ++ ys ≡ remove_first a (xs ++ ys)
remove_first-append a [] ys h = cc
remove_first-append a (x ∷ xs) ys h = ground (arith, remove_first-append a xs ys)

-- One more number at the end.
pub IsNodup-snoc :
    (xs : List ℕ) (k : ℕ) → IsNodup xs → contains xs k ≡ false → IsNodup (xs ++ k ∷ [])
IsNodup-snoc [] k h n = (refl, tt)
IsNodup-snoc (x ∷ xs) k h n =
    (ground (arith, h.0, contains-append xs (k ∷ []) x), IsNodup-snoc xs k h.1 (ground arith))
