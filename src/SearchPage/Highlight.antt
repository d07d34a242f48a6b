-- ===== src/SearchPage/Highlight.antt =====
-- `highlightMatch` of fruitsalade/webapp/js/views/search.js; browser.js has the same function.
use Prim.Native.Char.{code}
use text.Mathlib.TextEquality.{Char-path}
use fruit_salade.Base.{
  ℕ, zero, suc, ◌+◌, String, ◌≡◌, refl, sym, ap, subst, ◌∙◌, inl, inr, true, false, Option, none,
  some, arith, if◌then◌else◌, ==→≡, Bool-cases, Option-cases, is_some, begins_with, has_part,
  append,
}

-- `text.length`, `text.substring(0, n)` and `text.substring(n)`.
abbrev pub size_of : String → ℕ
size_of String.[] = 0
size_of (String.◌∷◌ c s) = suc (size_of s)

abbrev pub front_of : ℕ → String → String
front_of zero s = String.[]
front_of (suc n) String.[] = String.[]
front_of (suc n) (String.◌∷◌ c s) = String.◌∷◌ c (front_of n s)

abbrev pub back_of : ℕ → String → String
back_of zero s = s
back_of (suc n) String.[] = String.[]
back_of (suc n) (String.◌∷◌ c s) = back_of n s

-- `text.indexOf(part)`.
abbrev pub later : Option ℕ → Option ℕ
later none = none
later (some n) = some (suc n)

unfoldable pub index_of : String → String → Option ℕ
unfolding begins_with
index_of part String.[] = if begins_with part String.[] then some 0 else none
index_of part (String.◌∷◌ c s) =
    let rest = later (index_of part s) in if begins_with part (String.◌∷◌ c s) then some 0 else rest

-- The text before the match, the match and the text after it; or the whole text.
pub data Highlighted : Type 0 where
  plain : String → Highlighted
  marked : String → String → String → Highlighted

abbrev pub mark_at : Option ℕ → String → String → Highlighted
mark_at none text query = plain text
mark_at (some n) text query =
    marked (front_of n text) (front_of (size_of query) (back_of n text))
      (back_of (n + size_of query) text)

-- `toLowerCase` is an argument.
unfoldable pub highlight_match : (String → String) → String → String → Highlighted
highlight_match to_lower text query = mark_at (index_of (to_lower query) (to_lower text)) text query

-- `toLowerCase` turns this text and this query letter by letter: the lower case of a part of the text
-- is the part of its lower case at the same place, and the query keeps its length. So it is where
-- every letter has one letter as its lower case, whatever stands around it; not so for İ, whose lower
-- case has two letters.
pub record LowersByLetter (to_lower : String → String) (text query : String) : Type 0 where
  pub same_size : size_of (to_lower query) ≡ size_of query
  pub parts :
      (n k : ℕ) → to_lower (front_of k (back_of n text)) ≡ front_of k (back_of n (to_lower text))

append-front_of-back_of : (n : ℕ) (s : String) → append (front_of n s) (back_of n s) ≡ s
unfolding append
append-front_of-back_of zero s = refl
append-front_of-back_of (suc n) String.[] = refl
append-front_of-back_of (suc n) (String.◌∷◌ c s) = ap (String.◌∷◌ c) (append-front_of-back_of n s)

back_of_nothing : (n : ℕ) → back_of n String.[] ≡ String.[]
back_of_nothing zero = refl
back_of_nothing (suc n) = refl

suc_add : (n k : ℕ) → suc n + k ≡ suc (n + k)
suc_add n k = omega arith

back_of_twice : (n k : ℕ) (s : String) → back_of (n + k) s ≡ back_of k (back_of n s)
back_of_twice zero k s = ap (λ m. back_of m s) (omega arith)
back_of_twice (suc n) k String.[] = back_of_nothing (suc n + k) ∙ sym (back_of_nothing k)
back_of_twice (suc n) k (String.◌∷◌ c s) =
    ap (λ m. back_of m (String.◌∷◌ c s)) (suc_add n k) ∙ back_of_twice n k s

begins-front : (part s : String) → begins_with part s ≡ true → front_of (size_of part) s ≡ part
unfolding begins_with
begins-front String.[] s h = refl
begins-front (String.◌∷◌ c part) String.[] h = cc
begins-front (String.◌∷◌ c part) (String.◌∷◌ d s) h =
    ap (λ x. String.◌∷◌ x (front_of (size_of part) s))
      (sym (Char-path c d (==→≡ (code c) (code d) (ground arith))))
    ∙ ap (String.◌∷◌ c) (begins-front part s (ground arith))

some-path : (m n : ℕ) → some m ≡ some n → m ≡ n
some-path m n e = cc

index-begins :
    (part s : String) (n : ℕ) → index_of part s ≡ some n → begins_with part (back_of n s) ≡ true
unfolding index_of
index-begins part String.[] n h = elim (Bool-cases (begins_with part String.[])) [
  | inl e ↦ ap (begins_with part) (back_of_nothing n) ∙ e
  | inr e ↦ cc (rw e at h)
]
index-begins part (String.◌∷◌ c s) n h = elim (Bool-cases (begins_with part (String.◌∷◌ c s))) [
  | inl e ↦
      subst (λ m. begins_with part (back_of m (String.◌∷◌ c s)) ≡ true) (some-path 0 n (rw e at h))
        e
  | inr e ↦ elim (Option-cases (index_of part s)) [
    | inl q ↦ cc (rw q at (rw e at h))
    | inr (m, q) ↦
        subst (λ i. begins_with part (back_of i (String.◌∷◌ c s)) ≡ true)
          (some-path (suc m) n (rw q at (rw e at h))) (index-begins part s m q)
  ]
]

index-has_part : (part s : String) → has_part part s ≡ is_some (index_of part s)
unfolding index_of has_part
index-has_part part String.[] = elim (Bool-cases (begins_with part String.[])) [
  | inl e ↦ rw e refl
  | inr e ↦ rw e refl
]
index-has_part part (String.◌∷◌ c s) = elim (Bool-cases (begins_with part (String.◌∷◌ c s))) [
  | inl e ↦ rw e refl
  | inr e ↦ rw e (index-has_part part s ∙ some-later (index_of part s))
]
  where
    some-later : (o : Option ℕ) → is_some o ≡ is_some (later o)
    some-later none = refl
    some-later (some n) = refl

-- What is marked is the query but for the case of letters; nothing is marked only where the query is
-- not in the text.
abbrev pub IsRight : (String → String) → String → String → Highlighted → Type 0
IsRight to_lower text query (plain t) = has_part (to_lower query) (to_lower text) ≡ false
IsRight to_lower text query (marked before match after) = to_lower match ≡ to_lower query

-- The pieces of every highlighted text are the text, whatever `toLowerCase` does.
abbrev pub joined : Highlighted → String
joined (plain t) = t
joined (marked before match after) = append before (append match after)

mark_at-joined : (found : Option ℕ) (text query : String) → joined (mark_at found text query) ≡ text
mark_at-joined none text query = refl
mark_at-joined (some n) text query =
    ap (λ b. append (front_of n text) (append (front_of (size_of query) (back_of n text)) b))
      (back_of_twice n (size_of query) text)
    ∙ ap (append (front_of n text)) (append-front_of-back_of (size_of query) (back_of n text))
    ∙ append-front_of-back_of n text

mark_at-IsRight :
    (to_lower : String → String) (text query : String)
    → LowersByLetter to_lower text query
    → (found : Option ℕ) → index_of (to_lower query) (to_lower text) ≡ found
    → IsRight to_lower text query (mark_at found text query)
mark_at-IsRight to_lower text query h none e =
    index-has_part (to_lower query) (to_lower text) ∙ ap is_some e
mark_at-IsRight to_lower text query h (some n) e =
    h.parts n (size_of query)
    ∙ ap (λ k. front_of k (back_of n (to_lower text))) (sym h.same_size)
    ∙ begins-front (to_lower query) (back_of n (to_lower text))
        (index-begins (to_lower query) (to_lower text) n e)

-- For a text and a query that `toLowerCase` turns letter by letter, the pieces of the highlighted
-- text are the text, what is marked is the query but for the case of letters, and nothing is marked
-- only where the query is not in the text.
pub highlight_match_lem :
    (to_lower : String → String) (text query : String)
    → LowersByLetter to_lower text query
    → (joined (highlight_match to_lower text query) ≡ text)
      × IsRight to_lower text query (highlight_match to_lower text query)
unfolding highlight_match
highlight_match_lem to_lower text query h =
    (mark_at-joined _ text query, mark_at-IsRight to_lower text query h _ refl)
