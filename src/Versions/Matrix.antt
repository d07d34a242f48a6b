-- ===== src/Versions/Matrix.antt =====
-- The matrix of `lcsMatrix` in fruitsalade/webapp/js/views/versions.js, and what the way back through
-- it keeps.
use fruit_salade.Base.{
  ℕ, zero, suc, ◌+◌, ◌≤◌, ◌<◌, String, ◌≡◌, refl, ap, ◌∙◌, List, [], ◌∷◌, arith, if◌then◌else◌,
  length, same_text,
}
use Prim.Native.Nat.{max}
use fruit_salade.Versions.Diff.{line_at, cell_of, entry, zeros, next_cells, lcs_rows}

-- The length of the longest common subsequence of the first lines of two lists, by its recurrence.
unfoldable pub longest : List String → List String → ℕ → ℕ → ℕ
longest a b zero j = 0
longest a b (suc i) zero = 0
longest a b (suc i) (suc j) =
    let diagonal = longest a b i j in
    let up = longest a b i (suc j) in
    let left = longest a b (suc i) j in
    if same_text (line_at a i) (line_at b j) then diagonal + 1 else max up left

cell-zeros : (b : List String) (j : ℕ) → cell_of (zeros b) j ≡ 0
cell-zeros [] zero = refl
cell-zeros [] (suc j) = refl
cell-zeros (y ∷ b) zero = refl
cell-zeros (y ∷ b) (suc j) = cell-zeros b j

length-zeros : (b : List String) → length (zeros b) ≡ suc (length b)
length-zeros [] = refl
length-zeros (y ∷ b) = ap suc (length-zeros b)

length-next_cells :
    (x : String) (above : List ℕ) (b : List String) (left : ℕ)
    → length above ≡ suc (length b)
    → length (next_cells x left above b) ≡ length b
unfolding next_cells
length-next_cells x above [] left h = refl
length-next_cells x [] (y ∷ b) left h = absurd (omega arith)
length-next_cells x (p ∷ above) (y ∷ b) left h =
    ap suc (length-next_cells x above b _ (omega arith))

-- A cell is made of the one above it and to the left, the one above it, and the one to its left.
cell-next_cells :
    (x : String) (above : List ℕ) (b : List String) (left t : ℕ)
    → length above ≡ suc (length b)
    → t < length b
    → cell_of (next_cells x left above b) t ≡ (
        if same_text x (line_at b t)
        then cell_of above t + 1
        else max (cell_of above (suc t)) (cell_of (left ∷ next_cells x left above b) t))
unfolding next_cells
cell-next_cells x above [] left t h k = absurd (omega arith)
cell-next_cells x [] (y ∷ b) left t h k = absurd (omega arith)
cell-next_cells x (p ∷ above) (y ∷ b) left zero h k = refl
cell-next_cells x (p ∷ above) (y ∷ b) left (suc t) h k =
    cell-next_cells x above b _ t (omega arith) (omega arith)

-- The rows after the row `above`: their first cells are 0, and the others follow from the cells
-- around them.
rows-recur :
    (a : List String) (above : List ℕ) (b : List String) (i j : ℕ)
    → length above ≡ suc (length b)
    → i < length a
    → j < length b
    → entry (above ∷ lcs_rows a above b) (suc i) (suc j) ≡ (
        if same_text (line_at a i) (line_at b j)
        then entry (above ∷ lcs_rows a above b) i j + 1
        else max
            (entry (above ∷ lcs_rows a above b) i (suc j))
            (entry (above ∷ lcs_rows a above b) (suc i) j))
unfolding lcs_rows
rows-recur [] above b i j h k m = absurd (omega arith)
rows-recur (x ∷ a) above b zero j h k m = cell-next_cells x above b 0 j h m
rows-recur (x ∷ a) above b (suc i) j h k m =
    rows-recur a (0 ∷ next_cells x 0 above b) b i j (ap suc (length-next_cells x above b 0 h))
      (omega arith) m

first-cells :
    (a : List String) (above : List ℕ) (b : List String) (i : ℕ)
    → entry (lcs_rows a above b) i 0 ≡ 0
unfolding lcs_rows
first-cells [] above b zero = refl
first-cells [] above b (suc i) = refl
first-cells (x ∷ a) above b zero = refl
first-cells (x ∷ a) above b (suc i) = first-cells a (0 ∷ next_cells x 0 above b) b i

abbrev pub whole_matrix : List String → List String → List (List ℕ)
whole_matrix a b = zeros b ∷ lcs_rows a (zeros b) b

pub matrix-longest :
    (a b : List String) (i j : ℕ)
    → i ≤ length a
    → j ≤ length b
    → entry (whole_matrix a b) i j ≡ longest a b i j
unfolding longest
matrix-longest a b zero j h k = cell-zeros b j
matrix-longest a b (suc i) zero h k = first-cells a (zeros b) b i
matrix-longest a b (suc i) (suc j) h k =
    rows-recur a (zeros b) b i j (length-zeros b) (omega arith) (omega arith)
    ∙ rw
        (
          matrix-longest a b i j (omega arith) (omega arith),
          matrix-longest a b i (suc j) (omega arith) k,
          matrix-longest a b (suc i) j h (omega arith),
        )
        refl
