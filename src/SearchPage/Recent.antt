-- ===== src/SearchPage/Recent.antt =====
-- The recent searches of fruitsalade/webapp/js/views/search.js.
use fruit_salade.Base.{
  ℕ, zero, suc, ◌≤◌, String, ◌≡◌, refl, sym, subst, ◌∙◌, inl, inr, false, not, Option, none, some,
  List, [], ◌∷◌, arith, ltb, Bool-cases, length, take, is_empty, same_text, same_text_refl, listed,
  keep, listed-keep, IsKeySet, IsKeySet-keep, IsKeySet-take,
}
use fruit_salade.SearchPage.Model.{
  FileType, SearchPage, do_search, show_recent_searches, with_recent, save_recent_search, pick_type,
  type_query, press_enter, fire_search, click_recent, taken, show_answer, PageEvent, picks_type,
  types_query, clicks_recent, presses_enter, timer_fires, search_answered, after_page,
  after_page_events,
}

-- At most ten, and none twice.
abbrev pub AreRecent : List String → Type 0
AreRecent qs = (length qs ≤ 10) × IsKeySet qs

length-take : (n : ℕ) (xs : List String) → length (take n xs) ≤ n
length-take zero xs = omega arith
length-take (suc n) [] = omega arith
length-take (suc n) (x ∷ xs) = omega (arith, length-take n xs)

-- The filter takes the query out.
listed-others :
    (q : String) (xs : List String) → listed q (keep (λ t. not (same_text t q)) xs) ≡ false
listed-others q xs = listed-keep (λ t. not (same_text t q)) q xs ∙ ground (arith, same_text_refl q)

with_recent-AreRecent : (q : String) (xs : List String) → IsKeySet xs → AreRecent (with_recent q xs)
unfolding with_recent
with_recent-AreRecent q xs h =
    let newer = q ∷ keep (λ t. not (same_text t q)) xs in
    let distinct : IsKeySet newer = (listed-others q xs, IsKeySet-keep _ xs h) in
    elim (Bool-cases (ltb 10 (length newer))) [
      | inl e ↦ rw e (length-take 10 newer, IsKeySet-take 10 newer distinct)
      | inr e ↦ rw e (ground arith, distinct)
    ]

show_answer-stored :
    (found : Option String × List (String × FileType)) (count : Option ℕ) (s : SearchPage)
    → (show_answer found count s).stored ≡ s.stored
unfolding show_answer
show_answer-stored (none, rest) count s = refl
show_answer-stored (some q, rest) none s = refl
show_answer-stored (some q, rest) (some n) s = refl

fire_search-stored :
    (timer : Option String) (s : SearchPage) → (fire_search timer s).stored ≡ s.stored
unfolding fire_search do_search
fire_search-stored none s = refl
fire_search-stored (some q) s = refl

after_page-AreRecent :
    (e : PageEvent) (s : SearchPage) → AreRecent s.stored → AreRecent (after_page e s).stored
unfolding after_page pick_type type_query show_recent_searches press_enter do_search
    save_recent_search click_recent
after_page-AreRecent (picks_type t) s h = elim (Bool-cases (is_empty s.text)) [
  | inl e ↦ rw e h
  | inr e ↦ rw e h
]
after_page-AreRecent (types_query q) s h = elim (Bool-cases (is_empty q)) [
  | inl e ↦ rw e h
  | inr e ↦ rw e h
]
after_page-AreRecent (clicks_recent q) s h = h
after_page-AreRecent presses_enter s h = elim (Bool-cases (is_empty s.text)) [
  | inl e ↦ rw e h
  | inr e ↦ rw e (with_recent-AreRecent s.text s.stored h.1)
]
after_page-AreRecent timer_fires s h = subst AreRecent (sym (fire_search-stored s.timer s)) h
after_page-AreRecent (search_answered i count) s h =
    subst AreRecent (sym (show_answer-stored (taken i s.in_flight) count s)) h

-- Where the browser stores at most ten recent searches and none twice, it does so after anything
-- that is done on the page.
pub after_page_events-AreRecent :
    (es : List PageEvent) (s : SearchPage)
    → AreRecent s.stored
    → AreRecent (after_page_events es s).stored
unfolding after_page_events
after_page_events-AreRecent [] s h = h
after_page_events-AreRecent (e ∷ es) s h =
    after_page_events-AreRecent es (after_page e s) (after_page-AreRecent e s h)
