-- ===== src/Versions/Tables.antt =====
-- What the table of a comparison in fruitsalade/webapp/js/views/versions.js shows.
use fruit_salade.Base.{
  ℕ, ◌+◌, String, ◌≡◌, refl, ap, subst, Option, none, some, List, [], ◌∷◌, arith, length,
}
use fruit_salade.Versions.Diff.{
  Op, same, add, remove, lcs_matrix, diff_ops, DiffRow, number_rows, add_count, remove_count,
  DiffView, identical, diff_table, draw_diff, compute_diff,
}
use fruit_salade.Versions.Replays.{old_lines, new_lines, backtrack_diff_lem}

add_count-lem :
    (ops : List Op)
    → length (old_lines ops) + add_count ops ≡ length (new_lines ops) + remove_count ops
add_count-lem [] = omega arith
add_count-lem (same x ∷ ops) = omega (arith, add_count-lem ops)
add_count-lem (add x ∷ ops) = omega (arith, add_count-lem ops)
add_count-lem (remove x ∷ ops) = omega (arith, add_count-lem ops)

abbrev pub line_of : Op → String
line_of (same x) = x
line_of (add x) = x
line_of (remove x) = x

abbrev pub with_number : Option ℕ → Op → List (ℕ × String) → List (ℕ × String)
with_number none o rest = rest
with_number (some k) o rest = (k, line_of o) ∷ rest

-- The numbers of the first column, each with the line beside it, and those of the second.
abbrev pub old_column : List DiffRow → List (ℕ × String)
old_column [] = []
old_column (r ∷ rs) = with_number r.old_number r.op (old_column rs)

abbrev pub new_column : List DiffRow → List (ℕ × String)
new_column [] = []
new_column (r ∷ rs) = with_number r.new_number r.op (new_column rs)

-- Lines with their numbers, the first being given.
abbrev pub numbered : ℕ → List String → List (ℕ × String)
numbered k [] = []
numbered k (x ∷ xs) = (k, x) ∷ numbered (k + 1) xs

number_rows_lem :
    (m n : ℕ) (ops : List Op)
    → (old_column (number_rows m n ops) ≡ numbered (m + 1) (old_lines ops))
      × (new_column (number_rows m n ops) ≡ numbered (n + 1) (new_lines ops))
unfolding number_rows
number_rows_lem m n [] = (refl, refl)
number_rows_lem m n (same x ∷ ops) =
    let (p, q) = number_rows_lem (m + 1) (n + 1) ops in
    (ap (λ l. (m + 1, x) ∷ l) p, ap (λ l. (n + 1, x) ∷ l) q)
number_rows_lem m n (remove x ∷ ops) =
    let (p, q) = number_rows_lem (m + 1) n ops in (ap (λ l. (m + 1, x) ∷ l) p, q)
number_rows_lem m n (add x ∷ ops) =
    let (p, q) = number_rows_lem m (n + 1) ops in (p, ap (λ l. (n + 1, x) ∷ l) q)

-- The table of two versions, whatever their lengths and whether they differ or not.
abbrev pub IsTableOf : List String → List String → DiffView → Type 0
IsTableOf a b identical = ⊥
IsTableOf a b (diff_table added removed rows) =
    (old_column rows ≡ numbered 1 a)
    × (new_column rows ≡ numbered 1 b)
    × (length a + added ≡ length b + removed)

draw_diff-IsTableOf :
    (ops : List Op) (x : String) (a : List String)
    → old_lines ops ≡ x ∷ a
    → IsTableOf (old_lines ops) (new_lines ops) (draw_diff ops)
unfolding draw_diff
draw_diff-IsTableOf [] x a h = cc
draw_diff-IsTableOf (o ∷ ops) x a h =
    let (p, q) = number_rows_lem 0 0 (o ∷ ops) in (p, q, add_count-lem (o ∷ ops))

-- For any two versions, a text having at least one line, a table is shown, never that they are
-- identical: the first column numbers the lines of the old version from 1, in order and none left
-- out, the second those of the current one, and the numbers of added and removed lines account for
-- the difference of their lengths.
pub compute_diff_lem :
    (x : String) (a b : List String) → IsTableOf (x ∷ a) b (compute_diff (x ∷ a) b)
unfolding compute_diff
compute_diff_lem x a b =
    let (p, q) = backtrack_diff_lem (lcs_matrix (x ∷ a) b) (x ∷ a) b in
    subst (λ l. IsTableOf l b (draw_diff (diff_ops (x ∷ a) b))) p
      (subst (λ l. IsTableOf (old_lines (diff_ops (x ∷ a) b)) l (draw_diff (diff_ops (x ∷ a) b))) q
        (draw_diff-IsTableOf (diff_ops (x ∷ a) b) x a p))
