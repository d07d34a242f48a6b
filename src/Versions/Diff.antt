-- ===== src/Versions/Diff.antt =====
-- `computeDiff` of fruitsalade/webapp/js/views/versions.js and its helpers, on the lines of the texts.
use fruit_salade.Base.{
  ℕ, zero, suc, ◌+◌, ◌-◌, String, ◌&&◌, ◌||◌, Option, none, some, List, [], ◌∷◌, ltb, leb, ◌==◌,
  if◌then◌else◌, length, same_text,
}
use Prim.Native.Nat.{max}

pub data Op : Type 0 where
  same add remove : String → Op

-- `list[i]` where there is such an index, as in every use here.
abbrev pub line_at : List String → ℕ → String
line_at [] i = ""
line_at (x ∷ xs) zero = x
line_at (x ∷ xs) (suc i) = line_at xs i

abbrev pub cell_of : List ℕ → ℕ → ℕ
cell_of [] j = 0
cell_of (c ∷ cs) zero = c
cell_of (c ∷ cs) (suc j) = cell_of cs j

abbrev pub row_of : List (List ℕ) → ℕ → List ℕ
row_of [] i = []
row_of (r ∷ rs) zero = r
row_of (r ∷ rs) (suc i) = row_of rs i

-- `dp[i][j]`.
abbrev pub entry : List (List ℕ) → ℕ → ℕ → ℕ
entry dp i j = cell_of (row_of dp i) j

abbrev pub zeros : List String → List ℕ
zeros [] = 0 ∷ []
zeros (y ∷ ys) = 0 ∷ zeros ys

-- The cells of the row of the line `x` after the cell `left`, from the row above.
unfoldable pub next_cells : String → ℕ → List ℕ → List String → List ℕ
next_cells x left above [] = []
next_cells x left [] (y ∷ b) = []
next_cells x left (p ∷ above) (y ∷ b) =
    let cell = if same_text x y then p + 1 else max (cell_of above 0) left in
    cell ∷ next_cells x cell above b

unfoldable pub lcs_rows : List String → List ℕ → List String → List (List ℕ)
lcs_rows [] above b = []
lcs_rows (x ∷ a) above b = let row = 0 ∷ next_cells x 0 above b in row ∷ lcs_rows a row b

unfoldable pub lcs_matrix : List String → List String → Option (List (List ℕ))
lcs_matrix a b =
    if ltb 2000 (length a) || ltb 2000 (length b)
    then none
    else some (zeros b ∷ lcs_rows a (zeros b) b)

pub data Choice : Type 0 where
  keeps adds removes : Choice

-- The test of the loop of `backtrackDiff`.
unfoldable pub choose : List (List ℕ) → List String → List String → ℕ → ℕ → Choice
choose dp a b i j =
    if ltb 0 i && ltb 0 j && same_text (line_at a (i - 1)) (line_at b (j - 1))
    then keeps
    else if ltb 0 j && ((i == 0) || leb (entry dp (i - 1) j) (entry dp i (j - 1)))
    then adds
    else removes

abbrev pub old_left : Choice → ℕ → ℕ
old_left keeps i = i - 1
old_left adds i = i
old_left removes i = i - 1

abbrev pub new_left : Choice → ℕ → ℕ
new_left keeps j = j - 1
new_left adds j = j - 1
new_left removes j = j

abbrev pub op_of : Choice → List String → List String → ℕ → ℕ → Op
op_of keeps a b i j = same (line_at a (i - 1))
op_of adds a b i j = add (line_at b (j - 1))
op_of removes a b i j = remove (line_at a (i - 1))

-- The loop, with as many rounds as there are lines.
unfoldable pub back : ℕ → List (List ℕ) → List String → List String → ℕ → ℕ → List Op → List Op
back zero dp a b i j ops = ops
back (suc n) dp a b i j ops =
    let c = choose dp a b i j in
    let rest = back n dp a b (old_left c i) (new_left c j) (op_of c a b i j ∷ ops) in
    if (i == 0) && (j == 0) then ops else rest

unfoldable pub simple_diff : List String → List String → List Op
simple_diff [] [] = []
simple_diff (x ∷ a) [] = remove x ∷ simple_diff a []
simple_diff [] (y ∷ b) = add y ∷ simple_diff [] b
simple_diff (x ∷ a) (y ∷ b) =
    let rest = simple_diff a b in if same_text x y then same x ∷ rest else remove x ∷ add y ∷ rest

unfoldable pub backtrack_diff : Option (List (List ℕ)) → List String → List String → List Op
backtrack_diff none a b = simple_diff a b
backtrack_diff (some dp) a b = back (length a + length b) dp a b (length a) (length b) []

abbrev pub diff_ops : List String → List String → List Op
diff_ops a b = backtrack_diff (lcs_matrix a b) a b

-- A row of the table: the number in the old version, the number in the current one, and the line.
pub record DiffRow : Type 0 where
  pub old_number : Option ℕ
  pub new_number : Option ℕ
  pub op : Op

unfoldable pub number_rows : ℕ → ℕ → List Op → List DiffRow
number_rows m n [] = []
number_rows m n (same x ∷ ops) =
    record { old_number = some (m + 1); new_number = some (n + 1); op = same x }
    ∷ number_rows (m + 1) (n + 1) ops
number_rows m n (remove x ∷ ops) =
    record { old_number = some (m + 1); new_number = none; op = remove x }
    ∷ number_rows (m + 1) n ops
number_rows m n (add x ∷ ops) =
    record { old_number = none; new_number = some (n + 1); op = add x } ∷ number_rows m (n + 1) ops

abbrev pub add_count : List Op → ℕ
add_count [] = 0
add_count (same x ∷ ops) = add_count ops
add_count (remove x ∷ ops) = add_count ops
add_count (add x ∷ ops) = suc (add_count ops)

abbrev pub remove_count : List Op → ℕ
remove_count [] = 0
remove_count (same x ∷ ops) = remove_count ops
remove_count (remove x ∷ ops) = suc (remove_count ops)
remove_count (add x ∷ ops) = remove_count ops

-- What `computeDiff` draws: that the files are identical, or the numbers of lines that were added
-- and removed, and the rows.
pub data DiffView : Type 0 where
  identical : DiffView
  diff_table : ℕ → ℕ → List DiffRow → DiffView

unfoldable pub draw_diff : List Op → DiffView
draw_diff [] = identical
draw_diff (o ∷ ops) =
    diff_table (add_count (o ∷ ops)) (remove_count (o ∷ ops)) (number_rows 0 0 (o ∷ ops))

unfoldable pub compute_diff : List String → List String → DiffView
compute_diff a b = draw_diff (diff_ops a b)
