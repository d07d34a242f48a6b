-- ===== src/SearchPage/Examples.antt =====
-- The theorems about fruitsalade/webapp/js/views/search.js at concrete inputs.
use fruit_salade.Base.{
  ℕ, zero, suc, String, ◌≡◌, refl, ap, ◌∙◌, List, [], ◌∷◌, arith, ◌==◌, if◌then◌else◌, begins_with,
  listed, keep,
}
use fruit_salade.SearchPage.Model.{
  do_search, show_recent_searches, with_recent, save_recent_search, type_query, press_enter,
  PageEvent, types_query, presses_enter, after_page, after_page_events, opened_search,
  render_search,
}
use fruit_salade.SearchPage.Recent.{AreRecent, after_page_events-AreRecent}
use fruit_salade.SearchPage.Highlight.{
  marked, highlight_match, size_of, front_of, back_of, joined, LowersByLetter, IsRight, index_of,
  highlight_match_lem,
}
use Prim.Native.Char.{Char, char, code}

-- The lower case of the letters F, M and R, which stands for `toLowerCase` on texts whose capital
-- letters are among these.
abbrev lower_char : Char → Char
lower_char c =
    if code c == b'F'
    then char b'f' tt
    else if code c == b'M'
    then char b'm' tt
    else if code c == b'R'
    then char b'r' tt
    else c

abbrev to_lower : String → String
to_lower String.[] = String.[]
to_lower (String.◌∷◌ c s) = String.◌∷◌ (lower_char c) (to_lower s)

size_of-to_lower : (s : String) → size_of (to_lower s) ≡ size_of s
size_of-to_lower String.[] = refl
size_of-to_lower (String.◌∷◌ c s) = ap suc (size_of-to_lower s)

to_lower-front_of : (k : ℕ) (s : String) → to_lower (front_of k s) ≡ front_of k (to_lower s)
to_lower-front_of zero s = refl
to_lower-front_of (suc k) String.[] = refl
to_lower-front_of (suc k) (String.◌∷◌ c s) = ap (String.◌∷◌ (lower_char c)) (to_lower-front_of k s)

to_lower-back_of : (n : ℕ) (s : String) → to_lower (back_of n s) ≡ back_of n (to_lower s)
to_lower-back_of zero s = refl
to_lower-back_of (suc n) String.[] = refl
to_lower-back_of (suc n) (String.◌∷◌ c s) = to_lower-back_of n s

fruit-LowersByLetter : LowersByLetter to_lower "My Fruit" "FR"
fruit-LowersByLetter = record {
  same_size = size_of-to_lower "FR";
  parts = λ n k.
      to_lower-front_of k (back_of n "My Fruit") ∙ ap (front_of k) (to_lower-back_of n "My Fruit");
}

highlights_fruit : highlight_match to_lower "My Fruit" "FR" ≡ marked "My " "Fr" "uit"
unfolding highlight_match index_of begins_with
highlights_fruit = refl

highlight_match_lem_example :
    (joined (highlight_match to_lower "My Fruit" "FR") ≡ "My Fruit")
    × IsRight to_lower "My Fruit" "FR" (highlight_match to_lower "My Fruit" "FR")
highlight_match_lem_example = highlight_match_lem to_lower "My Fruit" "FR" fruit-LowersByLetter

abbrev some_events : List PageEvent
some_events = types_query "b" ∷ presses_enter ∷ types_query "a" ∷ presses_enter ∷ []

recent_once : (after_page_events some_events (render_search "" ("a" ∷ []))).stored ≡ "a" ∷ "b" ∷ []
unfolding after_page_events after_page type_query press_enter do_search save_recent_search
    with_recent render_search show_recent_searches keep
recent_once = refl

after_page_events-AreRecent_example :
    AreRecent (after_page_events some_events (opened_search "" ("a" ∷ []))).stored
unfolding listed
after_page_events-AreRecent_example =
    after_page_events-AreRecent some_events (opened_search "" ("a" ∷ [])) (omega arith, (refl, tt))
