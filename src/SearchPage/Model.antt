-- ===== src/SearchPage/Model.antt =====
-- The search page of fruitsalade/webapp/js/views/search.js: its field, its requests, and the recent
-- searches that the browser stores.
use fruit_salade.Base.{
  ℕ, zero, suc, String, not, Option, none, some, List, [], ◌∷◌, ◌++◌, ltb, if◌then◌else◌, length,
  take, is_empty, same_text, keep,
}

pub data FileType : Type 0 where
  all_types files dirs images : FileType

-- What `search-results` holds: the hint, the text Searching, the error, or the results of a query.
pub data Results : Type 0 where
  hint searching search_failed : Results
  results_of : String → ℕ → Results

-- The trimmed text of the field, the query of the timer, `currentType`, the requests under way, what
-- is shown, the recent searches that are shown, and those in `localStorage`.
pub record SearchPage : Type 0 where
  pub text : String
  pub timer : Option String
  pub current_type : FileType
  pub in_flight : List (String × FileType)
  pub results : Results
  pub recent_shown : List String
  pub stored : List String

unfoldable pub do_search : String → SearchPage → SearchPage
do_search q s = record s {
  in_flight = s.in_flight ++ (q, s.current_type) ∷ [];
  results = searching;
}

unfoldable pub show_recent_searches : SearchPage → SearchPage
show_recent_searches s = record s { recent_shown = s.stored }

-- The new list of `saveRecentSearch`.
unfoldable pub with_recent : String → List String → List String
with_recent q recent =
    let newer = q ∷ keep (λ t. not (same_text t q)) recent in
    if ltb 10 (length newer) then take 10 newer else newer

unfoldable pub save_recent_search : String → SearchPage → SearchPage
save_recent_search q s = record s { stored = with_recent q s.stored }

unfoldable pub pick_type : FileType → SearchPage → SearchPage
pick_type t s =
    let s1 = record s { current_type = t } in if is_empty s.text then s1 else do_search s.text s1

unfoldable pub type_query : String → SearchPage → SearchPage
type_query q s =
    if is_empty q
    then record (show_recent_searches (record s { text = q; timer = none })) { results = hint }
    else record s { text = q; recent_shown = []; timer = some q }

unfoldable pub press_enter : SearchPage → SearchPage
press_enter s = if is_empty s.text then s else do_search s.text (save_recent_search s.text s)

unfoldable pub fire_search : Option String → SearchPage → SearchPage
fire_search none s = s
fire_search (some q) s = do_search q (record s { timer = none })

unfoldable pub click_recent : String → SearchPage → SearchPage
click_recent q s = do_search q (record s { text = q; recent_shown = [] })

abbrev pub taken : ℕ → List (String × FileType) → Option String × List (String × FileType)
taken i [] = (none, [])
taken zero ((q, t) ∷ qs) = (some q, qs)
taken (suc i) (q ∷ qs) = let (found, rest) = taken i qs in (found, q ∷ rest)

-- The answer to a request, with the number of its results or none for a failure.
unfoldable pub show_answer :
    Option String × List (String × FileType) → Option ℕ → SearchPage → SearchPage
show_answer (none, rest) count s = s
show_answer (some q, rest) none s = record s { in_flight = rest; results = search_failed }
show_answer (some q, rest) (some n) s = record s { in_flight = rest; results = results_of q n }

pub data PageEvent : Type 0 where
  picks_type : FileType → PageEvent
  types_query clicks_recent : String → PageEvent
  presses_enter timer_fires : PageEvent
  search_answered : ℕ → Option ℕ → PageEvent

unfoldable pub after_page : PageEvent → SearchPage → SearchPage
after_page (picks_type t) s = pick_type t s
after_page (types_query q) s = type_query q s
after_page (clicks_recent q) s = click_recent q s
after_page presses_enter s = press_enter s
after_page timer_fires s = fire_search s.timer s
after_page (search_answered i count) s = show_answer (taken i s.in_flight) count s

unfoldable pub after_page_events : List PageEvent → SearchPage → SearchPage
after_page_events [] s = s
after_page_events (e ∷ es) s = after_page_events es (after_page e s)

abbrev pub opened_search : String → List String → SearchPage
opened_search initial stored = record {
  text = initial;
  timer = none;
  current_type = all_types;
  in_flight = [];
  results = hint;
  recent_shown = [];
  stored = stored;
}

-- `renderSearch` with the query of the hash, and what `localStorage` holds.
unfoldable pub render_search : String → List String → SearchPage
render_search initial stored =
    if is_empty initial
    then show_recent_searches (opened_search initial stored)
    else do_search initial (opened_search initial stored)
