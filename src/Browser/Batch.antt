-- ===== src/Browser/Batch.antt =====
-- The requests of a batch in fruitsalade/webapp/js/views/browser.js, `batchDelete` and the submit of
-- `batchVisibility`: one request for each selected path, answered in any order.
use fruit_salade.Base.{
  ℕ, suc, ◌-◌, ◌<◌, String, ◌≡◌, refl, sym, ap, ◌∙◌, Bool, true, false, List, [], ◌∷◌, ◌++◌,
  append_assoc, append-nil, arith, ◌==◌, if◌then◌else◌, length, length-append, base_of,
}

-- What is shown at the end: the names that failed, or how many paths went well.
pub data Report : Type 0 where
  failed_for : List String → Report
  all_done : ℕ → Report

-- `pending` and `errors`, the number of paths, and the reports with which the selection is cleared
-- and the folder loaded.
pub record Batch : Type 0 where
  pub pending : ℕ
  pub errors : List String
  pub paths_count : ℕ
  pub reports : List Report

unfoldable pub begin_batch : List String → Batch
begin_batch paths = record {
  pending = length paths;
  errors = [];
  paths_count = length paths;
  reports = [];
}

abbrev pub is_nil : List String → Bool
is_nil [] = true
is_nil (x ∷ xs) = false

abbrev pub report_of : List String → ℕ → Report
report_of errors n = if is_nil errors then all_done n else failed_for errors

unfoldable pub finish : Batch → Batch
finish b =
    if b.pending == 0
    then record b { reports = b.reports ++ report_of b.errors b.paths_count ∷ [] }
    else b

-- An answer for a path: with an OK status, or with another status or a failure.
unfoldable pub answer_batch : String → Bool → Batch → Batch
answer_batch path good b = finish (record b {
  pending = b.pending - 1;
  errors = if good then b.errors else b.errors ++ base_of path ∷ [];
})

unfoldable pub answer_all : List (String × Bool) → Batch → Batch
answer_all [] b = b
answer_all ((path, good) ∷ answers) b = answer_all answers (answer_batch path good b)

-- The names of the paths that failed, as they were answered.
abbrev pub failures : List (String × Bool) → List String
failures [] = []
failures ((path, good) ∷ answers) =
    if good then failures answers else base_of path ∷ failures answers

collected :
    (path : String) (good : Bool) (errors : List String) (answers : List (String × Bool))
    → (if good then errors else errors ++ base_of path ∷ []) ++ failures answers
      ≡ errors ++ failures ((path, good) ∷ answers)
collected path true errors answers = refl
collected path false errors answers = append_assoc errors (base_of path ∷ []) (failures answers)

waits : (n p : ℕ) → suc n < p → (p - 1 == 0) ≡ false
waits n p h = ground arith

-- An answer that is not the last reports nothing.
answer_batch-waiting :
    (path : String) (good : Bool) (b : Batch)
    → 1 < b.pending
    → answer_batch path good b ≡ record b {
      pending = b.pending - 1;
      errors = if good then b.errors else b.errors ++ base_of path ∷ [];
    }
unfolding answer_batch finish
answer_batch-waiting path good b h = rw (waits 0 b.pending h) refl

-- While more is pending than is answered, nothing is reported.
answer_all-waiting :
    (answers : List (String × Bool)) (b : Batch)
    → length answers < b.pending
    → (answer_all answers b).reports ≡ b.reports
unfolding answer_all
answer_all-waiting [] b h = refl
answer_all-waiting ((path, good) ∷ answers) b h =
    ap (λ d. (answer_all answers d).reports) (answer_batch-waiting path good b (omega arith))
    ∙ answer_all-waiting answers _ (omega arith)

-- When the last is answered, the one report is made.
answer_all-ends :
    (a : String × Bool) (answers : List (String × Bool)) (b : Batch)
    → b.pending ≡ length (a ∷ answers)
    → (answer_all (a ∷ answers) b).reports
      ≡ b.reports ++ report_of (b.errors ++ failures (a ∷ answers)) b.paths_count ∷ []
unfolding answer_all
answer_all-ends (path, good) [] b h =
    unfold answer_batch finish in
    rw h (
      ap (λ l. b.reports ++ report_of l b.paths_count ∷ [])
        (sym (append-nil _) ∙ collected path good b.errors []))
answer_all-ends (path, good) (a ∷ answers) b h =
    ap (λ d. (answer_all (a ∷ answers) d).reports) (answer_batch-waiting path good b (omega arith))
    ∙ answer_all-ends a answers _ (omega arith)
    ∙ ap (λ l. b.reports ++ report_of l b.paths_count ∷ [])
        (collected path good b.errors (a ∷ answers))

last_ends :
    (answers : List (String × Bool)) (last : String × Bool) (b : Batch)
    → b.pending ≡ length (answers ++ last ∷ [])
    → (answer_all (answers ++ last ∷ []) b).reports
      ≡ b.reports ++ report_of (b.errors ++ failures (answers ++ last ∷ [])) b.paths_count ∷ []
last_ends [] last b h = answer_all-ends last [] b h
last_ends (a ∷ answers) last b h = answer_all-ends a (answers ++ last ∷ []) b h

-- For a batch of at least one path whose requests are all answered, in whatever order and however,
-- there is exactly one report, after the last answer: the names that failed in the order of the
-- answers, or the number of paths when none did. Before the last answer there is none.
pub answer_all_lem :
    (paths : List String) (answers : List (String × Bool)) (last : String × Bool)
    → length paths ≡ suc (length answers)
    → ((answer_all answers (begin_batch paths)).reports ≡ [])
      × ((answer_all (answers ++ last ∷ []) (begin_batch paths)).reports
          ≡ report_of (failures (answers ++ last ∷ [])) (length paths) ∷ [])
unfolding begin_batch
answer_all_lem paths answers last h = (
  answer_all-waiting answers (begin_batch paths) (omega arith),
  last_ends answers last (begin_batch paths) (h ∙ sym (length-append answers _ ∙ omega arith)),
)
