-- ===== src/Api/Paths.antt =====
-- `encodeURIPath` of fruitsalade/webapp/js/api.js.
use fruit_salade.Base.{
  String, ◌≡◌, refl, sym, ap, ◌∙◌, inl, inr, false, List, [], ◌∷◌, map, arith, ◌==◌, Bool-cases,
  split, append, has_slash, put_first, code_slash,
}
use Prim.Native.Char.{Char, code}

-- `parts.join('/')`.
unfoldable pub join : String → List String → String
join s [] = s
join s (t ∷ ts) = append s (append "/" (join t ts))

abbrev pub map_parts : (String → String) → String × List String → String × List String
map_parts f (s, ts) = (f s, map f ts)

abbrev pub join_parts : String × List String → String
join_parts (s, ts) = join s ts

-- The browser's `encodeURIComponent` is an argument.
unfoldable pub encode_uri_path : (String → String) → String → String
encode_uri_path encode p = join_parts (map_parts encode (split p))

split-clean : (s : String) → has_slash s ≡ false → split s ≡ (s, [])
unfolding split has_slash
split-clean String.[] h = refl
split-clean (String.◌∷◌ c s) h = ground (arith, split-clean s (ground arith))

split-append :
    (s t : String)
    → has_slash s ≡ false
    → split (append s (append "/" t)) ≡ (s, (split t).0 ∷ (split t).1)
unfolding split has_slash append
split-append String.[] t h = refl
split-append (String.◌∷◌ c s) t h = ground (arith, split-append s t (ground arith))

module _ (encode : String → String) (clean : (s : String) → has_slash (encode s) ≡ false) where
  -- Parts without a slash are found again.
  split-join :
      (s : String) (ts : List String)
      → split (join (encode s) (map encode ts)) ≡ (encode s, map encode ts)
  unfolding join
  split-join s [] = split-clean (encode s) (clean s)
  split-join s (t ∷ ts) =
      rw (split-append (encode s) (join (encode t) (map encode ts)) (clean s), split-join t ts) refl

  -- With an encoding that leaves no slash in a part, the parts of the encoded path are the parts of
  -- the path, each encoded.
  pub split-encode_uri_path :
      (p : String) → split (encode_uri_path encode p) ≡ map_parts encode (split p)
  unfolding encode_uri_path
  split-encode_uri_path p = split-join (split p).0 (split p).1

join-put_first :
    (c : Char) (r : String × List String) → join_parts (put_first c r) ≡ String.◌∷◌ c (join_parts r)
unfolding join append
join-put_first c (s, []) = refl
join-put_first c (s, t ∷ ts) = refl

pub join-split : (p : String) → join_parts (split p) ≡ p
unfolding split join append
join-split String.[] = refl
join-split (String.◌∷◌ c p) = elim (Bool-cases (code c == b'/')) [
  | inl e ↦ rw e (ap (append "/") (join-split p) ∙ ap (λ l. append l p) (sym (code_slash c e)))
  | inr e ↦ rw e (join-put_first c (split p) ∙ ap (String.◌∷◌ c) (join-split p))
]

map_decode :
    (encode decode : String → String)
    → ((s : String) → decode (encode s) ≡ s)
    → (ts : List String) → map decode (map encode ts) ≡ ts
map_decode encode decode back [] = refl
map_decode encode decode back (t ∷ ts) = cc (back t, map_decode encode decode back ts)

-- With an encoding that leaves no slash in a part and can be undone, the path is found again from
-- the encoded one, part by part: the two kinds of slashes are not confused.
pub decode-encode_uri_path :
    (encode decode : String → String)
    → ((s : String) → has_slash (encode s) ≡ false)
    → ((s : String) → decode (encode s) ≡ s)
    → (p : String) → join_parts (map_parts decode (split (encode_uri_path encode p))) ≡ p
decode-encode_uri_path encode decode clean back p =
    rw
      (
        split-encode_uri_path encode clean p,
        back (split p).0,
        map_decode encode decode back (split p).1,
      )
      (join-split p)
