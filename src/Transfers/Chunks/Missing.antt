-- ===== src/Transfers/Chunks/Missing.antt =====
-- The search for the next chunk in `sendNextChunk` of fruitsalade/webapp/js/transfers.js.
use fruit_salade.Base.{
  ℕ, zero, suc, ◌+◌, ◌-◌, ◌≤◌, ◌<◌, ◌≡◌, refl, subst, inl, inr, true, false, Option, none, some,
  List, [], ◌∷◌, ◌++◌, arith, ◌==◌, if◌then◌else◌, ==→≡, Bool-cases, contains, contains-append,
}
use fruit_salade.Transfers.Upload.{next_missing_in, next_missing}

-- The chunks from `i` on, over `rounds` indices, that are not completed: a filter, as a reference.
abbrev pub missing : ℕ → ℕ → List ℕ → List ℕ
missing zero i done = []
missing (suc rounds) i done =
    let rest = missing rounds (i + 1) done in if contains done i then rest else i ∷ rest

-- Completing a chunk below the range changes nothing in it.
pub missing-below :
    (rounds i n : ℕ) (done : List ℕ)
    → n < i
    → missing rounds i (done ++ n ∷ []) ≡ missing rounds i done
missing-below zero i n done h = refl
missing-below (suc rounds) i n done h =
    ground
      (arith, missing-below rounds (i + 1) n done (omega arith), contains-append done (n ∷ []) i)

-- The range of indices that a search goes through.
abbrev pub InRange : ℕ → ℕ → ℕ → Type 0
InRange from total i = (from ≤ i) × (i < total)

search-none :
    (k i : ℕ) (done : List ℕ)
    → next_missing_in k i done ≡ none
    → (j : ℕ) → InRange i (i + k) j
    → contains done j ≡ true
unfolding next_missing_in
search-none zero i done e j r = absurd (omega (arith, r.0, r.1))
search-none (suc k) i done e j r = elim (Bool-cases (contains done i)) [
  | inr c ↦ absurd (ground arith)
  | inl c ↦ elim (Bool-cases (i == j)) [
    | inl p ↦ subst (λ l. contains done l ≡ true) (==→≡ i j p) c
    | inr p ↦ search-none k (i + 1) done (ground arith) j (ground arith)
  ]
]

search-some :
    (k i n : ℕ) (done : List ℕ)
    → next_missing_in k i done ≡ some n
    → InRange i (i + k) n
      × (contains done n ≡ false)
      × ((j : ℕ) → InRange i n j → contains done j ≡ true)
unfolding next_missing_in
search-some zero i n done e = cc
search-some (suc k) i n done e = elim (Bool-cases (contains done i)) [
  | inr c ↦
      (let same : i ≡ n = ground arith in
        (
          (omega (arith, same), omega (arith, same)),
          subst (λ l. contains done l ≡ false) same c,
          λ j r. absurd (omega (arith, same, r.0, r.1)),
        ))
  | inl c ↦
      (let ih = search-some k (i + 1) n done (ground arith) in
        (
          (omega (arith, ih.0.0), omega (arith, ih.0.1)),
          ih.1,
          λ j r. elim (Bool-cases (i == j)) [
            | inl p ↦ subst (λ l. contains done l ≡ true) (==→≡ i j p) c
            | inr p ↦ ih.2 j (ground arith)
          ],
        ))
]

-- What a search of a range may come to.
abbrev pub Found : ℕ → ℕ → List ℕ → Option ℕ → Type 0
Found from total done none = (j : ℕ) → InRange from total j → contains done j ≡ true
Found from total done (some n) =
    InRange from total n
    × (contains done n ≡ false)
    × ((j : ℕ) → InRange from n j → contains done j ≡ true)

-- For a start within the range, the search finds the least index of the range that is not
-- completed, and finds none only when every index of the range is completed.
pub next_missing_lem :
    (from total : ℕ) (done : List ℕ)
    → from ≤ total
    → Found from total done (next_missing from total done)
unfolding next_missing
next_missing_lem from total done h = go (next_missing_in (total - from) from done) refl
  where
    whole : from + (total - from) ≡ total
    whole = omega arith

    go : (r : Option ℕ) → next_missing_in (total - from) from done ≡ r → Found from total done r
    go none e = subst (λ k. Found from k done none) whole (search-none (total - from) from done e)
    go (some n) e =
        subst (λ k. Found from k done (some n)) whole (search-some (total - from) from n done e)
