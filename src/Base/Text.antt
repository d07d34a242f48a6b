-- ===== src/Base/Text.antt =====
-- Texts as JavaScript's `indexOf`, `endsWith` and `===` read them.
use Prim.Native.Char.{code}
use Prim.Native.String.{String}
use mathlib.Core.Path.{◌≡◌}
use mathlib.Core.Bool.{Bool, true, false, ◌||◌, ◌&&◌}
use mathlib.Core.Option.{Option, none, some}
use mathlib.Core.List.{List, [], ◌∷◌}
use text.Mathlib.Text.{◌==◌ as str_eq}
use text.Mathlib.TextEquality.{eq_iff}
use text.Mathlib.TextPositions.{eq_refl}
use fruit_salade.Base.Tests.{◌==◌, if◌then◌else◌}

-- `a === b` on texts.
abbrev pub same_text : String → String → Bool
same_text a b = str_eq a b

pub same_text→≡ : (a b : String) → same_text a b ≡ true → a ≡ b
same_text→≡ a b h = (eq_iff a b).0 h

pub same_text_refl : (a : String) → same_text a a ≡ true
same_text_refl a = eq_refl a

-- `text.indexOf(front) === 0`.
unfoldable pub begins_with : String → String → Bool
begins_with String.[] text = true
begins_with (String.◌∷◌ c front) String.[] = false
begins_with (String.◌∷◌ c front) (String.◌∷◌ d text) = code c == code d && begins_with front text

-- `text.indexOf(part) !== -1`.
unfoldable pub has_part : String → String → Bool
unfolding begins_with
has_part part String.[] = begins_with part String.[]
has_part part (String.◌∷◌ d text) = begins_with part (String.◌∷◌ d text) || has_part part text

-- `text.endsWith(end)`.
unfoldable pub ends_with : String → String → Bool
ends_with end String.[] = same_text end String.[]
ends_with end (String.◌∷◌ d text) = same_text end (String.◌∷◌ d text) || ends_with end text

-- `list.indexOf(text) !== -1`.
unfoldable pub listed : String → List String → Bool
listed text [] = false
listed text (x ∷ xs) = same_text text x || listed text xs

abbrev pub is_empty : String → Bool
is_empty String.[] = true
is_empty (String.◌∷◌ c s) = false

-- `a || b` on texts and missing texts.
abbrev pub or_text : Option String → String → String
or_text none other = other
or_text (some s) other = if is_empty s then other else s
