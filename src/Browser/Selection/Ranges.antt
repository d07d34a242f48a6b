-- ===== src/Browser/Selection/Ranges.antt =====
-- The rows that a click with shift takes, in fruitsalade/webapp/js/views/browser.js.
use fruit_salade.Base.{
  ℕ, zero, suc, ◌+◌, ◌-◌, ◌≤◌, ◌<◌, ◌≡◌, refl, sym, ap, ◌∙◌, inl, inr, true, List, [], ◌∷◌, arith,
  leb, Bool-cases, take, drop,
}
use fruit_salade.Browser.Selection.{Row, rows_between}

-- The rows from the place `lo` to the place `hi`.
abbrev pub slice : ℕ → ℕ → List Row → List Row
slice lo hi rows = take (suc hi - lo) (drop lo rows)

past : (lo hi i : ℕ) (rows : List Row) → hi < i → rows_between lo hi i rows ≡ []
unfolding rows_between
past lo hi i [] h = refl
past lo hi i (r ∷ rs) h = ground (arith, past lo hi (i + 1) rs (omega arith))

take_nothing : (n : ℕ) → take {A = Row} n [] ≡ []
take_nothing zero = refl
take_nothing (suc n) = refl

drop_nothing : (n : ℕ) → drop {A = Row} n [] ≡ []
drop_nothing zero = refl
drop_nothing (suc n) = refl

within :
    (lo hi i : ℕ) (rows : List Row) → lo ≤ i → rows_between lo hi i rows ≡ take (suc hi - i) rows
unfolding rows_between
within lo hi i [] h = sym (take_nothing (suc hi - i))
within lo hi i (r ∷ rs) h = elim (Bool-cases (leb i hi)) [
  | inl e ↦
      let more : suc hi - i ≡ suc (suc hi - (i + 1)) = ground arith in
      let low : leb lo i ≡ true = ground arith in
      rw (low, e, more) (ap (λ l. r ∷ l) (within lo hi (i + 1) rs (omega arith)))
  | inr e ↦
      let none_more : suc hi - i ≡ 0 = ground arith in
      rw (none_more, past lo hi i (r ∷ rs) (ground arith)) refl
]

below :
    (lo hi i : ℕ) (rows : List Row)
    → i ≤ lo
    → rows_between lo hi i rows ≡ take (suc hi - lo) (drop (lo - i) rows)
unfolding rows_between
below lo hi i [] h =
    sym (ap (take (suc hi - lo)) (drop_nothing (lo - i)) ∙ take_nothing (suc hi - lo))
below lo hi i (r ∷ rs) h = elim (Bool-cases (leb lo i)) [
  | inl e ↦
      let here : lo ≡ i = ground arith in
      let no_more : 0 ≡ lo - i = ground arith in
      within lo hi i (r ∷ rs) (ground arith)
      ∙ ap (λ n. take (suc hi - n) (r ∷ rs)) (sym here)
      ∙ ap (λ n. take (suc hi - lo) (drop n (r ∷ rs))) no_more
  | inr e ↦
      let more : lo - i ≡ suc (lo - (i + 1)) = ground arith in
      rw (e, more) (below lo hi (i + 1) rs (ground arith))
]

-- The rows with an index between two are those from the one place to the other.
pub rows_between-slice :
    (lo hi : ℕ) (rows : List Row) → rows_between lo hi 0 rows ≡ slice lo hi rows
rows_between-slice lo hi rows =
    below lo hi 0 rows (omega arith) ∙ ap (λ n. take (suc hi - lo) (drop n rows)) (omega arith)
