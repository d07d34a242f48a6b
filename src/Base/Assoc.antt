-- ===== src/Base/Assoc.antt =====
-- Maps from texts as lists of pairs.
use mathlib.Core.Path.{◌≡◌, refl}
use mathlib.Core.Option.{Option, none, some}
use mathlib.Core.List.{List, [], ◌∷◌}
use Prim.Native.String.{String}
use native.Mathlib.Omega.{arith}
use text.Mathlib.TextEquality.{eq_iff}
use fruit_salade.Base.Tests.{if◌then◌else◌}
use fruit_salade.Base.Text.{same_text}

module _ {ℓ} {Value : Type ℓ} where
  unfoldable pub lookup : String → List (String × Value) → Option Value
  lookup key [] = none
  lookup key ((name, value) ∷ rest) =
      let found = lookup key rest in if same_text name key then some value else found

  -- Overwrites in place, or adds at the end.
  unfoldable pub insert : String → Value → List (String × Value) → List (String × Value)
  insert key new [] = (key, new) ∷ []
  insert key new ((name, old) ∷ rest) =
      let others = insert key new rest in
      if same_text name key then (key, new) ∷ rest else (name, old) ∷ others

  pub lookup-insert :
      (key other : String) (new : Value) (entries : List (String × Value))
      → lookup other (insert key new entries)
        ≡ (if same_text key other then some new else lookup other entries)
  unfolding lookup insert
  lookup-insert key other new [] = refl
  lookup-insert key other new ((name, old) ∷ rest) = ground (
    lookup-insert key other new rest,
    eq_iff name key,
    eq_iff key other,
    eq_iff name other,
    arith,
  )
