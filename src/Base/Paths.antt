-- ===== src/Base/Paths.antt =====
-- Paths as texts: parts between slashes, the part before the last slash, the number of parts.
use Prim.Native.Nat.{ℕ, suc}
use Prim.Native.Char.{Char, char, code}
use text.Mathlib.TextEquality.{Char-path}
use Prim.Native.String.{String}
use mathlib.Core.Path.{◌≡◌, refl, ap, sym, ◌∙◌}
use mathlib.Core.Logic.{inl, inr}
use mathlib.Core.Bool.{Bool, true, false, ◌||◌}
use mathlib.Core.List.{List, [], ◌∷◌}
use native.Mathlib.Omega.{arith}
use fruit_salade.Base.Tests.{==→≡, ◌==◌, if◌then◌else◌, Bool-cases}
use fruit_salade.Base.Lists.{length}

-- `text.split('/')`: the first part, and the others.
abbrev pub put_first : Char → String × List String → String × List String
put_first c (s, rest) = (String.◌∷◌ c s, rest)

abbrev pub new_part : String × List String → String × List String
new_part (s, rest) = (String.[], s ∷ rest)

unfoldable pub split : String → String × List String
split String.[] = (String.[], [])
split (String.◌∷◌ c s) =
    let rest = split s in if code c == b'/' then new_part rest else put_first c rest

unfoldable pub append : String → String → String
append String.[] t = t
append (String.◌∷◌ c s) t = String.◌∷◌ c (append s t)

unfoldable pub has_slash : String → Bool
has_slash String.[] = false
has_slash (String.◌∷◌ c s) = code c == b'/' || has_slash s

-- `path.substring(0, path.lastIndexOf('/'))`, which is empty without a slash.
unfoldable pub parent_of : String → String
unfolding has_slash
parent_of String.[] = String.[]
parent_of (String.◌∷◌ c s) =
    let longer = String.◌∷◌ c (parent_of s) in if has_slash s then longer else String.[]

-- `path.split('/').pop()`.
unfoldable pub base_of : String → String
unfolding has_slash
base_of String.[] = String.[]
base_of (String.◌∷◌ c s) =
    let rest = base_of s in if code c == b'/' || has_slash s then rest else String.◌∷◌ c s

-- `path.split('/').length`.
unfoldable pub depth : String → ℕ
unfolding split
depth s = suc (length (split s).1)

abbrev slash : Char
slash = char b'/' tt

pub code_slash : (c : Char) → (code c == b'/') ≡ true → String.◌∷◌ c String.[] ≡ "/"
code_slash c h = ap (λ d. String.◌∷◌ d String.[]) (Char-path c slash (==→≡ (code c) b'/' h))

pub has_slash-append : (s t : String) → has_slash (append s t) ≡ (has_slash s || has_slash t)
unfolding has_slash append
has_slash-append String.[] t = refl
has_slash-append (String.◌∷◌ c s) t = ground (arith, has_slash-append s t)

pub parent_of-append :
    (p name : String) → has_slash name ≡ false → parent_of (append p (append "/" name)) ≡ p
unfolding parent_of append has_slash
parent_of-append String.[] name h = rw h refl
parent_of-append (String.◌∷◌ c p) name h = rw (inner, parent_of-append p name h) refl
  where
    inner : has_slash (append p (append "/" name)) ≡ true
    inner = has_slash-append p (append "/" name) ∙ ground arith

pub base_of-append :
    (p name : String) → has_slash name ≡ false → base_of (append p (append "/" name)) ≡ base_of name
unfolding base_of append has_slash
base_of-append String.[] name h = refl
base_of-append (String.◌∷◌ c p) name h = rw (inner) (ground (arith, base_of-append p name h))
  where
    inner : has_slash (append p (append "/" name)) ≡ true
    inner = has_slash-append p (append "/" name) ∙ ground arith

pub base_of-clean : (name : String) → has_slash name ≡ false → base_of name ≡ name
unfolding base_of has_slash
base_of-clean String.[] h = refl
base_of-clean (String.◌∷◌ c s) h = rw h refl

parts_of_clean : (s : String) → has_slash s ≡ false → length (split s).1 ≡ 0
unfolding split has_slash
parts_of_clean String.[] h = refl
parts_of_clean (String.◌∷◌ c s) h = ground (arith, parts_of_clean s)

parts_of_parent :
    (s : String) → has_slash s ≡ true → suc (length (split (parent_of s)).1) ≡ length (split s).1
unfolding parent_of split has_slash
parts_of_parent String.[] h = cc
parts_of_parent (String.◌∷◌ c s) h = elim (Bool-cases (has_slash s)) [
  | inl e ↦ rw e (ground (arith, parts_of_parent s e))
  | inr e ↦ rw e (ground (arith, parts_of_clean s e))
]

-- The part before the last slash has one part less.
pub depth-parent_of : (s : String) → has_slash s ≡ true → suc (depth (parent_of s)) ≡ depth s
unfolding depth
depth-parent_of s h = ap suc (parts_of_parent s h)

or_true : (b : Bool) → (b || true) ≡ true
or_true true = refl
or_true false = refl

-- A path is its parent, a slash and its name.
pub append-parent_of-base_of :
    (p : String) → has_slash p ≡ true → append (parent_of p) (append "/" (base_of p)) ≡ p
unfolding parent_of base_of append has_slash
append-parent_of-base_of String.[] h = cc
append-parent_of-base_of (String.◌∷◌ c p) h = elim (Bool-cases (has_slash p)) [
  | inl e ↦ rw (e, or_true (code c == b'/')) (ap (String.◌∷◌ c) (append-parent_of-base_of p e))
  | inr e ↦ elim (Bool-cases (code c == b'/')) [
    | inl d ↦ rw (e, d, base_of-clean p e) (ap (λ l. append l p) (sym (code_slash c d)))
    | inr d ↦ cc
  ]
]
