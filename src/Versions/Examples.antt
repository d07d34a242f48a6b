-- ===== src/Versions/Examples.antt =====
-- The theorems about fruitsalade/webapp/js/views/versions.js at concrete inputs.
use fruit_salade.Base.{ℕ, ◌≤◌, String, ◌≡◌, refl, List, [], ◌∷◌, arith}
use fruit_salade.Versions.Diff.{
  same, add, remove, diff_ops, compute_diff, lcs_matrix, backtrack_diff, lcs_rows, next_cells, back,
  choose,
}
use fruit_salade.Versions.Matrix.{longest}
use fruit_salade.Versions.Best.{same_count, Script, keeps_most}
use fruit_salade.Versions.Tables.{IsTableOf, compute_diff_lem}

one_line_new :
    diff_ops ("a" ∷ "b" ∷ "c" ∷ []) ("a" ∷ "d" ∷ "c" ∷ [])
    ≡ same "a" ∷ remove "b" ∷ add "d" ∷ same "c" ∷ []
unfolding lcs_matrix backtrack_diff lcs_rows next_cells back choose
one_line_new = refl

compute_diff_lem_example :
    IsTableOf
      ("a" ∷ "b" ∷ "c" ∷ [])
      ("a" ∷ "d" ∷ "c" ∷ [])
      (compute_diff ("a" ∷ "b" ∷ "c" ∷ []) ("a" ∷ "d" ∷ "c" ∷ []))
compute_diff_lem_example = compute_diff_lem "a" ("b" ∷ "c" ∷ []) ("a" ∷ "d" ∷ "c" ∷ [])

abbrev old_abc : List String
old_abc = "a" ∷ "b" ∷ "c" ∷ []

abbrev new_adc : List String
new_adc = "a" ∷ "d" ∷ "c" ∷ []

keeps_most_example :
    (same_count (diff_ops old_abc new_adc) ≡ longest old_abc new_adc 3 3)
    × ((k : ℕ) → Script old_abc new_adc 3 3 k → k ≤ same_count (diff_ops old_abc new_adc))
keeps_most_example = keeps_most old_abc new_adc (omega arith) (omega arith)
