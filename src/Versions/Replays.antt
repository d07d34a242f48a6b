-- ===== src/Versions/Replays.antt =====
-- That the comparison of fruitsalade/webapp/js/views/versions.js holds both versions.
use fruit_salade.Base.{
  ℕ, zero, suc, ◌+◌, ◌-◌, ◌≤◌, ◌<◌, String, ◌≡◌, refl, ap, ◌∙◌, ◌⊎◌, inl, inr, false, ◌&&◌, ◌||◌,
  Option, none, some, List, [], ◌∷◌, ◌++◌, append-nil, arith, ltb, leb, ◌==◌, Bool-cases, length,
  take, same_text, same_text→≡,
}
use fruit_salade.Versions.Diff.{
  Op, same, add, remove, line_at, entry, keeps, adds, removes, choose, back, simple_diff,
  backtrack_diff,
}

-- The lines of the old version in a list of operations, and those of the current one.
abbrev pub old_lines : List Op → List String
old_lines [] = []
old_lines (same x ∷ ops) = x ∷ old_lines ops
old_lines (add x ∷ ops) = old_lines ops
old_lines (remove x ∷ ops) = x ∷ old_lines ops

abbrev pub new_lines : List Op → List String
new_lines [] = []
new_lines (same x ∷ ops) = x ∷ new_lines ops
new_lines (add x ∷ ops) = x ∷ new_lines ops
new_lines (remove x ∷ ops) = new_lines ops

simple_diff_lem :
    (a b : List String) → (old_lines (simple_diff a b) ≡ a) × (new_lines (simple_diff a b) ≡ b)
unfolding simple_diff
simple_diff_lem [] [] = (refl, refl)
simple_diff_lem (x ∷ a) [] = let (h, k) = simple_diff_lem a [] in (ap (λ l. x ∷ l) h, k)
simple_diff_lem [] (y ∷ b) = let (h, k) = simple_diff_lem [] b in (h, ap (λ l. y ∷ l) k)
simple_diff_lem (x ∷ a) (y ∷ b) =
    let (h, k) = simple_diff_lem a b in
    elim (Bool-cases (same_text x y)) [
      | inl e ↦ rw e (ap (λ l. x ∷ l) h, ap (λ l. x ∷ l) k ∙ ap (λ z. z ∷ b) (same_text→≡ x y e))
      | inr e ↦ rw e (ap (λ l. x ∷ l) h, ap (λ l. y ∷ l) k)
    ]

take-line_at :
    (a : List String) (i : ℕ) (l : List String)
    → i < length a
    → take i a ++ line_at a i ∷ l ≡ take (suc i) a ++ l
take-line_at [] i l k = absurd (omega arith)
take-line_at (x ∷ a) zero l k = refl
take-line_at (x ∷ a) (suc i) l k = ap (λ m. x ∷ m) (take-line_at a i l (omega arith))

take-last :
    (a : List String) (i : ℕ) (l : List String)
    → 0 < i
    → i ≤ length a
    → take (i - 1) a ++ line_at a (i - 1) ∷ l ≡ take i a ++ l
take-last a zero l h k = absurd (omega arith)
take-last a (suc i) l h k =
    let before : suc i - 1 ≡ i = omega arith in rw before (take-line_at a i l (omega arith))

take_all : (a : List String) → take (length a) a ≡ a
take_all [] = refl
take_all (x ∷ a) = ap (λ l. x ∷ l) (take_all a)

module _ (dp : List (List ℕ)) (a b : List String) where
  choose-cases :
      (i j : ℕ)
      → ((i == 0) && (j == 0)) ≡ false
      → ((choose dp a b i j ≡ keeps) × (0 < i) × (0 < j) × (line_at a (i - 1) ≡ line_at b (j - 1)))
        ⊎ (((choose dp a b i j ≡ adds) × (0 < j)) ⊎ ((choose dp a b i j ≡ removes) × (0 < i)))
  unfolding choose
  choose-cases i j h =
      elim (Bool-cases (ltb 0 i && ltb 0 j && same_text (line_at a (i - 1)) (line_at b (j - 1)))) [
        | inl e ↦ inl (rw e refl, ground arith, ground arith, same_text→≡ _ _ (ground arith))
        | inr e ↦ inr (
            rw e
              (elim (Bool-cases
                (ltb 0 j && ((i == 0) || leb (entry dp (i - 1) j) (entry dp i (j - 1))))) [
                  | inl d ↦ inl (rw d refl, ground arith)
                  | inr d ↦ inr (rw d refl, ground arith)
                ]))
      ]

  -- What the loop has put in front of the operations are the lines that were left.
  abbrev Restores : ℕ → ℕ → List Op → List Op → Type 0
  Restores i j ops done =
      (old_lines done ≡ take i a ++ old_lines ops) × (new_lines done ≡ take j b ++ new_lines ops)

  back-Restores :
      (n i j : ℕ) (ops : List Op)
      → i ≤ length a
      → j ≤ length b
      → i + j ≤ n
      → Restores i j ops (back n dp a b i j ops)
  unfolding back
  back-Restores zero i j ops h k m =
      let none_old : i ≡ 0 = omega arith in
      let none_new : j ≡ 0 = omega arith in (rw none_old refl, rw none_new refl)
  back-Restores (suc n) i j ops h k m = elim (Bool-cases ((i == 0) && (j == 0))) [
    | inl e ↦
        let none_old : i ≡ 0 = ground arith in
        let none_new : j ≡ 0 = ground arith in rw e (rw none_old refl, rw none_new refl)
    | inr e ↦ rw e (elim (choose-cases i j e) [
      | inl (c, u, v, w) ↦ rw c (
          let (p, q) =
            back-Restores n (i - 1) (j - 1) (same (line_at a (i - 1)) ∷ ops) (omega arith)
              (omega arith) (omega arith) in
          (
            p ∙ take-last a i (old_lines ops) u h,
            q ∙ ap (λ l. take (j - 1) b ++ l ∷ new_lines ops) w ∙ take-last b j (new_lines ops) v k,
          ))
      | inr (inl (c, v)) ↦ rw c (
          let (p, q) =
            back-Restores n i (j - 1) (add (line_at b (j - 1)) ∷ ops) (omega arith) (omega arith)
              (omega arith) in
          (p, q ∙ take-last b j (new_lines ops) v k))
      | inr (inr (c, u)) ↦ rw c (
          let (p, q) =
            back-Restores n (i - 1) j (remove (line_at a (i - 1)) ∷ ops) (omega arith) (omega arith)
              (omega arith) in
          (p ∙ take-last a i (old_lines ops) u h, q))
    ])
  ]

pub backtrack_diff_lem :
    (dp : Option (List (List ℕ))) (a b : List String)
    → (old_lines (backtrack_diff dp a b) ≡ a) × (new_lines (backtrack_diff dp a b) ≡ b)
unfolding backtrack_diff
backtrack_diff_lem none a b = simple_diff_lem a b
backtrack_diff_lem (some dp) a b =
    let (p, q) =
      back-Restores dp a b (length a + length b) (length a) (length b) [] (omega arith)
        (omega arith) (omega arith) in
    (p ∙ append-nil _ ∙ take_all a, q ∙ append-nil _ ∙ take_all b)
