-- ===== src/Browser/Search/Tracked.antt =====
-- What the search field, its clear button and the table say of each other, and what happens to a
-- search that is cleared.
use fruit_salade.Base.{
  String, ◌≡◌, refl, inl, inr, Bool, true, false, Option, none, some, List, [], ◌∷◌, ◌++◌, arith,
  Bool-cases, length, is_empty,
}
use fruit_salade.Browser.Search.{
  results, SearchBox, clear_search, type_text, global_search, fire, fire_timer, take_out,
  render_search_results, show_answer, answer_search, click_clear, SearchEvent, types, timer_fires,
  clicks_clear, search_answered, after_search, after_searches, is_results, is_folder,
}

-- Results are shown in a search only; out of a search and without the clear button, the folder is
-- shown; the clear button is shown beside a text only; and the timer's query is not empty.
pub record IsTracked (s : SearchBox) : Type 0 where
  pub results_searched : is_results s.table ≡ true → s.is_searching ≡ true
  pub quiet_folder : s.is_searching ≡ false → s.clear_shown ≡ false → is_folder s.table ≡ true
  pub shown_text : s.clear_shown ≡ true → is_empty s.text ≡ false
  pub timer_query : (q : String) → s.timer ≡ some q → is_empty q ≡ false

type_text-IsTracked : (q : String) (s : SearchBox) → IsTracked s → IsTracked (type_text q s)
unfolding type_text clear_search
type_text-IsTracked q s h = elim (Bool-cases (is_empty q)) [
  | inl e ↦ rw e (record {
    results_searched = λ x. cc;
    quiet_folder = λ x y. refl;
    shown_text = λ x. cc;
    timer_query = λ p x. cc;
  })
  | inr e ↦ rw e (record {
    results_searched = λ x. ground (arith, h.results_searched);
    quiet_folder = λ x y. cc;
    shown_text = λ x. e;
    timer_query = λ p x. cc;
  })
]

fire-IsTracked : (timer : Option String) (s : SearchBox) → IsTracked s → IsTracked (fire timer s)
unfolding fire global_search
fire-IsTracked none s h = h
fire-IsTracked (some q) s h = record {
  results_searched = λ x. refl;
  quiet_folder = λ x y. cc;
  shown_text = h.shown_text;
  timer_query = λ p x. cc;
}

aside : (s : SearchBox) (l : List String) → IsTracked s → IsTracked (record s { in_flight = l })
aside s l h = record {
  results_searched = h.results_searched;
  quiet_folder = h.quiet_folder;
  shown_text = h.shown_text;
  timer_query = h.timer_query;
}

render-IsTracked :
    (q : String) (s : SearchBox) → IsTracked s → IsTracked (render_search_results q s)
unfolding render_search_results
render-IsTracked q s h = elim (Bool-cases s.is_searching) [
  | inl e ↦ simp e (record {
    results_searched = λ x. refl;
    quiet_folder = λ x y. cc;
    shown_text = h.shown_text;
    timer_query = h.timer_query;
  })
  | inr e ↦ simp e h
]

show_answer-IsTracked :
    (found : Option String × List String) (good : Bool) (s : SearchBox)
    → IsTracked s
    → IsTracked (show_answer found good s)
unfolding show_answer
show_answer-IsTracked (none, rest) good s h = h
show_answer-IsTracked (some q, rest) true s h = render-IsTracked q _ (aside s rest h)
show_answer-IsTracked (some q, rest) false s h = aside s rest h

after_search-IsTracked :
    (e : SearchEvent) (s : SearchBox) → IsTracked s → IsTracked (after_search e s)
unfolding after_search click_clear clear_search
after_search-IsTracked (types q) s h = type_text-IsTracked q s h
after_search-IsTracked timer_fires s h = unfold fire_timer in fire-IsTracked s.timer s h
after_search-IsTracked clicks_clear s h = record {
  results_searched = λ x. cc;
  quiet_folder = λ x y. refl;
  shown_text = λ x. cc;
  timer_query = h.timer_query;
}
after_search-IsTracked (search_answered i good) s h =
    unfold answer_search in show_answer-IsTracked (take_out i s.in_flight) good s h

-- After any typing, timers, clearing and answers, from an untouched field, `IsTracked` holds.
pub after_searches-IsTracked :
    (es : List SearchEvent) (s : SearchBox) → IsTracked s → IsTracked (after_searches es s)
unfolding after_searches
after_searches-IsTracked [] s h = h
after_searches-IsTracked (e ∷ es) s h = after_searches-IsTracked es _ (after_search-IsTracked e s h)

take_out-append :
    (qs : List String) (q : String) → take_out (length qs) (qs ++ q ∷ []) ≡ (some q, qs)
take_out-append [] q = refl
take_out-append (p ∷ qs) q = rw (take_out-append qs q) refl

-- A search that is cleared before its timer fires is made all the same: when the timer fires and its
-- answer comes, its results are shown, with nothing in the field and no clear button.
pub cleared_search :
    (q : String) (s : SearchBox)
    → is_empty q ≡ false
    → let n = length s.in_flight in
      let t =
        after_searches (types q ∷ clicks_clear ∷ timer_fires ∷ search_answered n true ∷ []) s in
      (t.table ≡ results q) × (t.text ≡ "") × (t.clear_shown ≡ false)
unfolding after_searches after_search type_text click_clear clear_search fire_timer fire
    global_search answer_search show_answer render_search_results
cleared_search q s e = rw (e, take_out-append s.in_flight q) (refl, refl, refl)

-- Of two queries under way, the answer that comes last is shown, be it the older query's.
pub older_results :
    (old new : String) (s : SearchBox)
    → s.in_flight ≡ old ∷ new ∷ []
    → s.is_searching ≡ true
    → (after_searches (search_answered 1 true ∷ search_answered 0 true ∷ []) s).table ≡ results old
unfolding after_searches after_search answer_search show_answer render_search_results
older_results old new s e f = simp (e, f) refl
