-- ===== src/Base/Sorting.antt =====
-- `Array.prototype.sort`, which is stable, and `filter`.
use mathlib.Core.Path.{◌≡◌, refl, ap, ◌∙◌}
use mathlib.Core.Logic.{◌⊎◌, inl, inr}
use mathlib.Core.Bool.{Bool, true, false}
use mathlib.Core.List.{List, [], ◌∷◌, Perm}
use mathlib.Core.List.Perm
use fruit_salade.Base.Tests.{if◌then◌else◌, Bool-cases}

module _ {ℓ} {A : Type ℓ} where
  -- `list.filter(test)`.
  unfoldable pub keep : (A → Bool) → List A → List A
  keep test [] = []
  keep test (x ∷ xs) = let rest = keep test xs in if test x then x ∷ rest else rest

  -- `le a b` says that the comparison of `a` with `b` is not above zero.
  unfoldable pub insert_sorted : (A → A → Bool) → A → List A → List A
  insert_sorted le x [] = x ∷ []
  insert_sorted le x (y ∷ ys) =
      let later = y ∷ insert_sorted le x ys in if le x y then x ∷ y ∷ ys else later

  unfoldable pub sort : (A → A → Bool) → List A → List A
  sort le [] = []
  sort le (x ∷ xs) = insert_sorted le x (sort le xs)

  -- Every element is at or below all that come after it.
  abbrev pub AllOf : (A → Bool) → List A → Type 0
  AllOf test [] = Unit
  AllOf test (x ∷ xs) = (test x ≡ true) × AllOf test xs

  abbrev pub IsOrdered : (A → A → Bool) → List A → Type 0
  IsOrdered le [] = Unit
  IsOrdered le (x ∷ xs) = AllOf (le x) xs × IsOrdered le xs

module _ {ℓ} {A : Type ℓ} (le : A → A → Bool) where
  insert_sorted-perm : (x : A) (ys : List A) → Perm (insert_sorted le x ys) (x ∷ ys)
  unfolding insert_sorted
  insert_sorted-perm x [] = Perm.refl (x ∷ [])
  insert_sorted-perm x (y ∷ ys) = elim (Bool-cases (le x y)) [
    | inl e ↦ rw e (Perm.refl (x ∷ y ∷ ys))
    | inr e ↦ rw e (Perm.trans (Perm.cons y (insert_sorted-perm x ys)) (Perm.swap x y ys))
  ]

  pub sort-perm : (xs : List A) → Perm (sort le xs) xs
  unfolding sort
  sort-perm [] = Perm.refl []
  sort-perm (x ∷ xs) = Perm.trans (insert_sorted-perm x (sort le xs)) (Perm.cons x (sort-perm xs))

  AllOf-insert_sorted :
      (test : A → Bool) (x : A) (ys : List A)
      → test x ≡ true
      → AllOf test ys
      → AllOf test (insert_sorted le x ys)
  unfolding insert_sorted
  AllOf-insert_sorted test x [] t h = (t, tt)
  AllOf-insert_sorted test x (y ∷ ys) t h = elim (Bool-cases (le x y)) [
    | inl e ↦ rw e (t, h)
    | inr e ↦ rw e (h.0, AllOf-insert_sorted test x ys t h.1)
  ]

  keep-insert_sorted_out :
      (test : A → Bool) (x : A) (ys : List A)
      → test x ≡ false
      → keep test (insert_sorted le x ys) ≡ keep test ys
  unfolding insert_sorted keep
  keep-insert_sorted_out test x [] t = rw t refl
  keep-insert_sorted_out test x (y ∷ ys) t = elim (Bool-cases (le x y)) [
    | inl e ↦ rw (e, t) refl
    | inr e ↦ rw (e, keep-insert_sorted_out test x ys t) refl
  ]

  keep-insert_sorted_in :
      (test : A → Bool) (x : A) (ys : List A)
      → ((a b : A) → test a ≡ true → test b ≡ true → le a b ≡ true)
      → test x ≡ true
      → keep test (insert_sorted le x ys) ≡ x ∷ keep test ys
  unfolding insert_sorted keep
  keep-insert_sorted_in test x [] same t = rw t refl
  keep-insert_sorted_in test x (y ∷ ys) same t = elim (Bool-cases (le x y)) [
    | inl e ↦ rw (e, t) refl
    | inr e ↦ elim (Bool-cases (test y)) [
      | inl u ↦ absurd (cc (e, same x y t u))
      | inr u ↦ rw (e, u) (keep-insert_sorted_in test x ys same t)
    ]
  ]

  -- Elements that the order does not tell apart keep their order.
  pub keep-sort :
      (test : A → Bool) (xs : List A)
      → ((a b : A) → test a ≡ true → test b ≡ true → le a b ≡ true)
      → keep test (sort le xs) ≡ keep test xs
  unfolding sort keep
  keep-sort test [] same = refl
  keep-sort test (x ∷ xs) same = elim (Bool-cases (test x)) [
    | inl t ↦ rw t (
        keep-insert_sorted_in test x (sort le xs) same t ∙ ap (λ l. x ∷ l) (keep-sort test xs same))
    | inr t ↦ rw t (keep-insert_sorted_out test x (sort le xs) t ∙ keep-sort test xs same)
  ]

  module _ (total : (a b : A) → (le a b ≡ true) ⊎ (le b a ≡ true))
      (trans : (a b c : A) → le a b ≡ true → le b c ≡ true → le a c ≡ true) where
    AllOf-le : (x y : A) (ys : List A) → le x y ≡ true → AllOf (le y) ys → AllOf (le x) ys
    AllOf-le x y [] e h = tt
    AllOf-le x y (z ∷ ys) e h = (trans x y z e h.0, AllOf-le x y ys e h.1)

    insert_sorted-IsOrdered :
        (x : A) (ys : List A) → IsOrdered le ys → IsOrdered le (insert_sorted le x ys)
    unfolding insert_sorted
    insert_sorted-IsOrdered x [] h = (tt, tt)
    insert_sorted-IsOrdered x (y ∷ ys) h = elim (Bool-cases (le x y)) [
      | inl e ↦ rw e ((e, AllOf-le x y ys e h.0), h)
      | inr e ↦
          rw e (AllOf-insert_sorted (le y) x ys (other x y e) h.0, insert_sorted-IsOrdered x ys h.1)
    ]
      where
        other : (a b : A) → le a b ≡ false → le b a ≡ true
        other a b e = elim (total a b) [ inl h ↦ absurd (cc (e, h)) | inr h ↦ h ]

    pub sort-IsOrdered : (xs : List A) → IsOrdered le (sort le xs)
    unfolding sort
    sort-IsOrdered [] = tt
    sort-IsOrdered (x ∷ xs) = insert_sorted-IsOrdered x (sort le xs) (sort-IsOrdered xs)

module _ {ℓ} {A : Type ℓ} where
  AllOf-weaken :
      {test test' : A → Bool}
      → ((a : A) → test a ≡ true → test' a ≡ true)
      → (xs : List A) → AllOf test xs
      → AllOf test' xs
  AllOf-weaken w [] h = tt
  AllOf-weaken w (x ∷ xs) h = (w x h.0, AllOf-weaken w xs h.1)

  -- A list in an order is in every order that the first one implies.
  pub IsOrdered-weaken :
      {le le' : A → A → Bool}
      → ((a b : A) → le a b ≡ true → le' a b ≡ true)
      → (xs : List A) → IsOrdered le xs
      → IsOrdered le' xs
  IsOrdered-weaken w [] h = tt
  IsOrdered-weaken w (x ∷ xs) h = (AllOf-weaken (w x) xs h.0, IsOrdered-weaken w xs h.1)
