-- ===== src/Api/Examples.antt =====
-- The theorems about fruitsalade/webapp/js/api.js at concrete inputs.
use Prim.Native.Char.{Char, char, code}
use text.Mathlib.TextEquality.{Char-path}
use fruit_salade.Base.{
  ℕ, zero, suc, ◌+◌, ◌-◌, ◌*◌, ◌/◌, ◌%◌, ◌^◌, ◌≤◌, ◌<◌, String, ◌≡◌, refl, sym, ap, subst, ◌∙◌, ◌≢◌,
  ◌↔◌, ◌⊎◌, inl, inr, Bool, true, false, not, ◌&&◌, ◌||◌, Option, none, some, List, [], ◌∷◌, ◌++◌,
  map, append_assoc, append-nil, arith, ltb, leb, ◌==◌, if◌then◌else◌, ==→≡, ==_refl, ==_false,
  Bool-cases, Option-cases, is_some, or_else, length, take, drop, update, length-append, contains,
  remove_first, IsNodup, contains-append, contains-remove_first, contains-remove_first_self,
  contains-remove_first_other, contains-remove_first-false, IsNodup-remove_first, All, All-cons,
  contains_self, contains-split, All-snoc, contains-append_left, contains-append_right,
  remove_first-append, IsNodup-snoc, is_empty, or_text, same_text, same_text→≡, same_text_refl,
  begins_with, has_part, ends_with, listed, lookup, insert, lookup-insert, keep, insert_sorted,
  sort, AllOf, IsOrdered, sort-perm, keep-sort, sort-IsOrdered, IsOrdered-weaken, split, append,
  has_slash, parent_of, base_of, depth, put_first, new_part, has_slash-append, parent_of-append,
  base_of-append, base_of-clean, depth-parent_of, code_slash, append-parent_of-base_of,
  same_text_turn, listed-append, listed-sort, listed-keep, IsKeySet, IsKeySet-snoc, IsKeySet-keep,
  listed-take, IsKeySet-take,
}
use fruit_salade.Api.Model.{Session}
use fruit_salade.Api.Paths.{encode_uri_path, map_parts, join_parts, decode-encode_uri_path}

abbrev slash : Char
slash = char b'/' tt

abbrev percent : Char
percent = char b'%' tt

abbrev two : Char
two = char b'2' tt

abbrev five : Char
five = char b'5' tt

-- An encoding in the manner of `encodeURIComponent`, of the slash and the percent sign alone.
escape : String → String
escape String.[] = String.[]
escape (String.◌∷◌ c s) =
    let rest = escape s in
    if code c == b'/'
    then String.◌∷◌ percent (String.◌∷◌ two rest)
    else if code c == b'%'
    then String.◌∷◌ percent (String.◌∷◌ five rest)
    else String.◌∷◌ c rest

-- The second argument tells that a percent sign has been read.
unescape_from : String → Bool → String
unescape_from String.[] b = String.[]
unescape_from (String.◌∷◌ c s) false =
    let escaped = unescape_from s true in
    let plain = unescape_from s false in if code c == b'%' then escaped else String.◌∷◌ c plain
unescape_from (String.◌∷◌ c s) true =
    let rest = unescape_from s false in
    if code c == b'2' then String.◌∷◌ slash rest else String.◌∷◌ percent rest

abbrev unescape : String → String
unescape s = unescape_from s false

has_slash-escape : (s : String) → has_slash (escape s) ≡ false
unfolding has_slash escape
has_slash-escape String.[] = refl
has_slash-escape (String.◌∷◌ c s) = ground (arith, has_slash-escape s)

unescape-escape : (s : String) → unescape (escape s) ≡ s
unfolding escape unescape_from
unescape-escape String.[] = refl
unescape-escape (String.◌∷◌ c s) = elim (Bool-cases (code c == b'/')) [
  | inl e ↦ rw e (cc (unescape-escape s, Char-path c slash (==→≡ (code c) b'/' e)))
  | inr e ↦ elim (Bool-cases (code c == b'%')) [
    | inl f ↦ rw (e, f) (cc (unescape-escape s, Char-path c percent (==→≡ (code c) b'%' f)))
    | inr f ↦ rw (e, f, f) (ap (String.◌∷◌ c) (unescape-escape s))
  ]
]

decode-encode_uri_path_example :
    join_parts (map_parts unescape (split (encode_uri_path escape "/a/50%"))) ≡ "/a/50%"
decode-encode_uri_path_example =
    decode-encode_uri_path escape unescape has_slash-escape unescape-escape "/a/50%"

encoded_path : encode_uri_path escape "/a/50%" ≡ "/a/50%5"
unfolding encode_uri_path escape split fruit_salade.Api.Paths.join fruit_salade.Base.append
encoded_path = refl

abbrev signed_in : Session
signed_in = record { token = some "t"; username = some "ann"; is_admin = some "true" }
