-- ===== src/Utils/Extensions.antt =====
-- The kinds of files of fruitsalade/webapp/js/utils.js.
use Prim.Native.Char.{code}
use fruit_salade.Base.{
  String, ◌≡◌, refl, ◌↔◌, inl, inr, Bool, true, false, arith, ◌==◌, if◌then◌else◌, Bool-cases,
}
use fruit_salade.Utils.FileTypes.{
  has_dot, from_last_dot, starts_with_dot, text, image, pdf, other, detect, is_text,
}

abbrev pub rest_of : String → String
rest_of String.[] = String.[]
rest_of (String.◌∷◌ c s) = s

-- An extension has one dot, which it begins with.
pub from_last_dot-one_dot :
    (s : String)
    → has_dot s ≡ true
    → (starts_with_dot (from_last_dot s) ≡ true) × (has_dot (rest_of (from_last_dot s)) ≡ false)
unfolding has_dot from_last_dot
from_last_dot-one_dot String.[] h = cc
from_last_dot-one_dot (String.◌∷◌ c s) h = elim (Bool-cases (has_dot s)) [
  | inl e ↦ rw e (from_last_dot-one_dot s e)
  | inr e ↦ elim (Bool-cases (code c == b'.')) [
    | inl f ↦ rw (e, f) (f, e)
    | inr f ↦ absurd (ground arith)
  ]
]

is_first :
    (t i p : Bool)
    → ((if t then text else if i then image else if p then pdf else other) ≡ text) ↔ (t ≡ true)
is_first true i p = ((λ h. refl), λ h. refl)
is_first false true p = ((λ h. cc), λ h. cc)
is_first false false true = ((λ h. cc), λ h. cc)
is_first false false false = ((λ h. cc), λ h. cc)

-- For a name that does not begin with a dot, the viewer's choice and `isText` agree: the file is
-- opened as a text exactly if `isText` says so.
pub detect-is_text :
    (lower : String → String) (name : String)
    → starts_with_dot name ≡ false
    → (detect lower name ≡ text) ↔ (is_text lower name ≡ true)
unfolding detect is_text
detect-is_text lower name h = rw h (is_first _ _ _)
