-- ===== src/Versions/Best.antt =====
-- That the comparison of fruitsalade/webapp/js/views/versions.js keeps as many lines as any can.
use fruit_salade.Base.{
  ℕ, zero, suc, ◌+◌, ◌-◌, ◌≤◌, ◌<◌, String, ◌≡◌, refl, sym, ap, ◌∙◌, ◌⊎◌, inl, inr, true, false,
  ◌&&◌, some, List, [], ◌∷◌, arith, leb, ◌==◌, if◌then◌else◌, Bool-cases, length, same_text,
}
use Prim.Native.Nat.{max}
use fruit_salade.Versions.Diff.{
  Op, same, add, remove, line_at, entry, keeps, adds, removes, choose, back, lcs_matrix,
  backtrack_diff, diff_ops,
}
use fruit_salade.Versions.Matrix.{longest, whole_matrix, matrix-longest}

abbrev pub same_count : List Op → ℕ
same_count [] = 0
same_count (same x ∷ ops) = suc (same_count ops)
same_count (add x ∷ ops) = same_count ops
same_count (remove x ∷ ops) = same_count ops

module _ (a b : List String) where
  longest_zero : (i : ℕ) → longest a b i 0 ≡ 0
  unfolding longest
  longest_zero zero = refl
  longest_zero (suc i) = refl

  longest-suc :
      (i j : ℕ)
      → longest a b (suc i) (suc j) ≡ (
          if same_text (line_at a i) (line_at b j)
          then longest a b i j + 1
          else max (longest a b i (suc j)) (longest a b (suc i) j))
  unfolding longest
  longest-suc i j = refl

  -- One line more of the current version gives one more at most, and one of the old one not less.
  new_line_more :
      (i : ℕ)
      → ((j : ℕ) → longest a b i (suc j) ≤ longest a b i j + 1)
        × ((j : ℕ) → longest a b i j ≤ longest a b (suc i) j)
  new_line_more zero = (λ j. unfold longest in omega arith, λ j. unfold longest in omega arith)
  new_line_more (suc i) =
      let (p, q) = new_line_more i in
      let more : (j : ℕ) → longest a b (suc i) (suc j) ≤ longest a b (suc i) j + 1 =
        λ j. ground (arith, longest-suc i j, p j, q j) in
      (more, λ j. grows j more)
    where
      grows :
          (j : ℕ)
          → ((j : ℕ) → longest a b (suc i) (suc j) ≤ longest a b (suc i) j + 1)
          → longest a b (suc i) j ≤ longest a b (suc (suc i)) j
      grows zero more = unfold longest in omega arith
      grows (suc j) more = ground (arith, longest-suc (suc i) j, more j)

  one_old_more :
      (i : ℕ)
      → ((j : ℕ) → longest a b i j ≤ longest a b i (suc j))
      → (j : ℕ) → longest a b (suc i) j ≤ longest a b i j + 1
  one_old_more i grows zero = omega (arith, longest_zero i, longest_zero (suc i))
  one_old_more i grows (suc j) = ground (arith, longest-suc i j, one_old_more i grows j, grows j)

  old_line_more : (i j : ℕ) → longest a b i j ≤ longest a b i (suc j)
  old_line_more zero j = unfold longest in omega arith
  old_line_more (suc i) j = ground (arith, longest-suc i j, one_old_more i (old_line_more i) j)

  -- A way from the first lines of the old version to the first ones of the current one, and how many
  -- lines it keeps.
  pub data Script : ℕ → ℕ → ℕ → Type 0 where
    nothing_left : Script 0 0 0
    keeps_line :
        {i j k : ℕ}
        → same_text (line_at a i) (line_at b j) ≡ true
        → Script i j k
        → Script (suc i) (suc j) (suc k)
    removes_line : {i j k : ℕ} → Script i j k → Script (suc i) j k
    adds_line : {i j k : ℕ} → Script i j k → Script i (suc j) k

  Script-longest : {i j k : ℕ} → Script i j k → k ≤ longest a b i j
  Script-longest nothing_left = omega arith
  Script-longest (keeps_line {i} {j} {k} e s) = ground (arith, longest-suc i j, Script-longest s)
  Script-longest (removes_line {i} {j} {k} s) =
      omega (arith, Script-longest s, (new_line_more i).1 j)
  Script-longest (adds_line {i} {j} {k} s) = omega (arith, Script-longest s, old_line_more i j)

  choose-longest :
      (i j : ℕ)
      → i ≤ length a
      → j ≤ length b
      → ((i == 0) && (j == 0)) ≡ false
      → ((choose (whole_matrix a b) a b i j ≡ keeps)
          × (longest a b i j ≡ longest a b (i - 1) (j - 1) + 1)
          × (0 < i)
          × (0 < j))
        ⊎ (((choose (whole_matrix a b) a b i j ≡ adds)
              × (longest a b i j ≡ longest a b i (j - 1))
              × (0 < j))
            ⊎ ((choose (whole_matrix a b) a b i j ≡ removes)
                × (longest a b i j ≡ longest a b (i - 1) j)
                × (0 < i)))
  choose-longest zero zero h k e = absurd (ground arith)
  choose-longest zero (suc j) h k e =
      inr (inl (unfold choose in ground arith, unfold longest in refl, omega arith))
  choose-longest (suc i) zero h k e = inr (
      inr (unfold choose in ground arith, longest_zero (suc i) ∙ sym (longest_zero _), omega arith))
  choose-longest (suc i) (suc j) h k e =
      let before : suc i - 1 ≡ i = omega arith in
      let back_one : suc j - 1 ≡ j = omega arith in
      let up = matrix-longest a b i (suc j) (omega arith) k in
      let left = matrix-longest a b (suc i) j h (omega arith) in
      elim (Bool-cases (same_text (line_at a i) (line_at b j))) [
        | inl s ↦ inl (
          unfold choose in rw (before, back_one, s) (ground arith),
          rw (before, back_one) (ground (arith, longest-suc i j)),
          omega arith,
          omega arith,
        )
        | inr s ↦
            elim (Bool-cases
              (leb (entry (whole_matrix a b) i (suc j)) (entry (whole_matrix a b) (suc i) j))) [
                | inl d ↦ inr (
                    inl (
                      unfold choose in rw (before, back_one, s, d) (ground arith),
                      rw back_one (ground (arith, longest-suc i j, up, left)),
                      omega arith,
                    ))
                | inr d ↦ inr (
                    inr (
                      unfold choose in rw (before, back_one, s, d) (ground arith),
                      rw before (ground (arith, longest-suc i j, up, left)),
                      omega arith,
                    ))
              ]
      ]

  same_count-back :
      (n i j : ℕ) (ops : List Op)
      → i ≤ length a
      → j ≤ length b
      → i + j ≤ n
      → same_count (back n (whole_matrix a b) a b i j ops) ≡ longest a b i j + same_count ops
  unfolding back
  same_count-back zero i j ops h k m =
      let none_old : i ≡ 0 = omega arith in rw none_old (unfold longest in omega arith)
  same_count-back (suc n) i j ops h k m = elim (Bool-cases ((i == 0) && (j == 0))) [
    | inl e ↦
        let none_old : i ≡ 0 = ground arith in rw e (rw none_old (unfold longest in omega arith))
    | inr e ↦ rw e (elim (choose-longest i j h k e) [
      | inl (c, l, u, v) ↦ rw c (
          same_count-back n (i - 1) (j - 1) (same (line_at a (i - 1)) ∷ ops) (omega arith)
            (omega arith) (omega arith)
          ∙ omega (arith, l))
      | inr (inl (c, l, v)) ↦ rw c (
          same_count-back n i (j - 1) (add (line_at b (j - 1)) ∷ ops) (omega arith) (omega arith)
            (omega arith)
          ∙ omega (arith, l))
      | inr (inr (c, l, u)) ↦ rw c (
          same_count-back n (i - 1) j (remove (line_at a (i - 1)) ∷ ops) (omega arith) (omega arith)
            (omega arith)
          ∙ omega (arith, l))
    ])
  ]

  small_matrix : length a ≤ 2000 → length b ≤ 2000 → lcs_matrix a b ≡ some (whole_matrix a b)
  unfolding lcs_matrix
  small_matrix h k = ground arith

  -- For versions of at most 2000 lines no way from the one to the other, keeping, removing and adding
  -- lines, keeps more lines than the comparison, which keeps as many as the longest common
  -- subsequence has.
  pub keeps_most :
      length a ≤ 2000
      → length b ≤ 2000
      → (same_count (diff_ops a b) ≡ longest a b (length a) (length b))
        × ((k : ℕ) → Script (length a) (length b) k → k ≤ same_count (diff_ops a b))
  keeps_most h k =
      let kept : same_count (diff_ops a b) ≡ longest a b (length a) (length b) =
        ap (λ dp. same_count (backtrack_diff dp a b)) (small_matrix h k)
        ∙ unfold backtrack_diff in
          (same_count-back (length a + length b) (length a) (length b) [] (omega arith)
              (omega arith) (omega arith)
            ∙ omega arith) in
      (kept, λ n s. omega (arith, kept, Script-longest s))
