-- ===== src/Transfers/Chunks/Bytes.antt =====
-- The bytes of the chunks of fruitsalade/webapp/js/transfers.js: they make up the file.
use Prim.Native.Nat.{min}
use mathlib.Core.Path.{ap₂}
use native.Mathlib.Nat.{suc-add}
use fruit_salade.Base.{
  ℕ, zero, suc, ◌+◌, ◌-◌, ◌*◌, ◌≤◌, ◌≡◌, refl, sym, ap, ◌∙◌, List, [], ◌∷◌, ◌++◌, arith, length,
  take, drop,
}
use fruit_salade.Transfers.Upload.{slice}

module _ {ℓ} {A : Type ℓ} where
  take-nil : (n : ℕ) → take n (let e : List A = [] in e) ≡ []
  take-nil zero = refl
  take-nil (suc n) = refl

  drop-nil : (n : ℕ) → drop n (let e : List A = [] in e) ≡ []
  drop-nil zero = refl
  drop-nil (suc n) = refl

  take-drop : (a b : ℕ) (xs : List A) → take a xs ++ take b (drop a xs) ≡ take (a + b) xs
  take-drop zero b xs = ground arith
  take-drop (suc a) b [] = take-nil b ∙ sym (take-nil (suc a + b))
  take-drop (suc a) b (x ∷ xs) = rw suc-add (ap (x ∷◌) (take-drop a b xs))

  drop-drop : (a b : ℕ) (xs : List A) → drop b (drop a xs) ≡ drop (a + b) xs
  drop-drop zero b xs = ground arith
  drop-drop (suc a) b [] = drop-nil b ∙ sym (drop-nil (suc a + b))
  drop-drop (suc a) b (x ∷ xs) = rw suc-add (drop-drop a b xs)

  length-drop : (a : ℕ) (xs : List A) → length (drop a xs) ≡ length xs - a
  length-drop zero xs = omega arith
  length-drop (suc a) [] = omega arith
  length-drop (suc a) (x ∷ xs) = omega (arith, length-drop a xs)

  -- A longer prefix than the list is the list.
  take-min : (a : ℕ) (xs : List A) → take (min a (length xs)) xs ≡ take a xs
  take-min zero xs = ground arith
  take-min (suc a) [] = ground arith
  take-min (suc a) (x ∷ xs) =
      let one : min (suc a) (suc (length xs)) ≡ suc (min a (length xs)) = omega arith in
      rw one (ap (x ∷◌) (take-min a xs))

  take_all : (n : ℕ) (xs : List A) → length xs ≤ n → take n xs ≡ xs
  take_all zero [] h = refl
  take_all zero (x ∷ xs) h = absurd (omega arith)
  take_all (suc n) [] h = refl
  take_all (suc n) (x ∷ xs) h = ap (x ∷◌) (take_all n xs (omega arith))

-- The blob that `sendNextChunk` cuts out for one index.
abbrev pub chunk_of : ℕ → ℕ → List ℕ → ℕ → List ℕ
chunk_of chunk size bytes n = slice (n * chunk) (min (n * chunk + chunk) size) bytes

chunk_of-take :
    (chunk n : ℕ) (bytes : List ℕ)
    → chunk_of chunk (length bytes) bytes n ≡ take chunk (drop (n * chunk) bytes)
chunk_of-take chunk n bytes =
    ap (λ k. take k (drop (n * chunk) bytes)) cut ∙ take-min chunk (drop (n * chunk) bytes)
  where
    cut :
        min (n * chunk + chunk) (length bytes) - n * chunk
        ≡ min chunk (length (drop (n * chunk) bytes))
    cut = omega (arith, length-drop (n * chunk) bytes)

-- The blobs of the indices from `i` on, joined.
unfoldable pub joined : ℕ → ℕ → ℕ → List ℕ → List ℕ
joined chunk zero i bytes = []
joined chunk (suc k) i bytes = chunk_of chunk (length bytes) bytes i ++ joined chunk k (i + 1) bytes

joined-take :
    (chunk k i : ℕ) (bytes : List ℕ)
    → joined chunk k i bytes ≡ take (k * chunk) (drop (i * chunk) bytes)
unfolding joined
joined-take chunk zero i bytes = ground arith
joined-take chunk (suc k) i bytes =
    ap₂ ◌++◌ (chunk_of-take chunk i bytes) (joined-take chunk k (i + 1) bytes)
    ∙ ap (λ r. take chunk (drop (i * chunk) bytes) ++ take (k * chunk) r) next
    ∙ take-drop chunk (k * chunk) (drop (i * chunk) bytes)
    ∙ ap (λ n. take n (drop (i * chunk) bytes)) (omega arith)
  where
    next : drop ((i + 1) * chunk) bytes ≡ drop chunk (drop (i * chunk) bytes)
    next = ap (λ n. drop n bytes) (omega arith) ∙ sym (drop-drop (i * chunk) chunk bytes)

-- With chunks enough to cover the file, the blobs of all indices joined are the file.
pub joined_all :
    (chunk total : ℕ) (bytes : List ℕ)
    → length bytes ≤ total * chunk
    → joined chunk total 0 bytes ≡ bytes
joined_all chunk total bytes h =
    joined-take chunk total 0 bytes
    ∙ ap (λ n. take (total * chunk) (drop n bytes)) {y = 0} (omega arith)
    ∙ take_all (total * chunk) bytes h
