-- ===== src/Browser/Search.antt =====
-- The search field of fruitsalade/webapp/js/views/browser.js: its timer, its requests, and what the
-- table shows. What the tree's answer holds is in Trees.
pub mod Tracked
use fruit_salade.Base.{
  ℕ, zero, suc, ◌+◌, ◌-◌, ◌*◌, ◌/◌, ◌%◌, ◌^◌, ◌≤◌, ◌<◌, String, ◌≡◌, refl, sym, ap, subst, ◌∙◌, ◌≢◌,
  ◌↔◌, ◌⊎◌, inl, inr, Bool, true, false, not, ◌&&◌, ◌||◌, Option, none, some, List, [], ◌∷◌, ◌++◌,
  map, append_assoc, append-nil, arith, ltb, leb, ◌==◌, if◌then◌else◌, ==→≡, ==_refl, ==_false,
  Bool-cases, Option-cases, is_some, or_else, length, take, drop, update, length-append, contains,
  remove_first, IsNodup, contains-append, contains-remove_first, contains-remove_first_self,
  contains-remove_first_other, contains-remove_first-false, IsNodup-remove_first, All, All-cons,
  contains_self, contains-split, All-snoc, contains-append_left, contains-append_right,
  remove_first-append, IsNodup-snoc, is_empty, or_text, same_text, same_text→≡, same_text_refl,
  begins_with, has_part, ends_with, listed, lookup, insert, lookup-insert, keep, insert_sorted,
  sort, AllOf, IsOrdered, sort-perm, keep-sort, sort-IsOrdered, IsOrdered-weaken, split, append,
  has_slash, parent_of, base_of, depth, put_first, new_part, has_slash-append, parent_of-append,
  base_of-append, base_of-clean, depth-parent_of, code_slash, append-parent_of-base_of,
  same_text_turn, listed-append, listed-sort, listed-keep, IsKeySet, IsKeySet-snoc, IsKeySet-keep,
  listed-take, IsKeySet-take,
}

-- The folder, the folder's entries that match, or the results of a query.
pub data Table : Type 0 where
  folder : Table
  filtered results : String → Table

-- The trimmed text of the field, the query of the timer, `isSearching`, the queries of the requests
-- under way, whether the clear button is shown, and the table.
pub record SearchBox : Type 0 where
  pub text : String
  pub timer : Option String
  pub is_searching : Bool
  pub in_flight : List String
  pub clear_shown : Bool
  pub table : Table

unfoldable pub clear_search : SearchBox → SearchBox
clear_search s = record s { is_searching = false; clear_shown = false; table = folder }

-- The listener of `input`.
unfoldable pub type_text : String → SearchBox → SearchBox
type_text q s =
    if is_empty q then clear_search (record s { text = q; timer = none }) else record s {
      text = q;
      clear_shown = true;
      table = if s.is_searching then s.table else filtered q;
      timer = some q;
    }

-- `globalSearch`, up to its request.
unfoldable pub global_search : String → SearchBox → SearchBox
global_search q s = record s { is_searching = true; in_flight = s.in_flight ++ q ∷ [] }

unfoldable pub fire : Option String → SearchBox → SearchBox
fire none s = s
fire (some q) s = global_search q (record s { timer = none })

unfoldable pub fire_timer : SearchBox → SearchBox
fire_timer s = fire s.timer s

abbrev pub take_out : ℕ → List String → Option String × List String
take_out i [] = (none, [])
take_out zero (q ∷ qs) = (some q, qs)
take_out (suc i) (q ∷ qs) = let (found, rest) = take_out i qs in (found, q ∷ rest)

-- `renderSearchResults`.
unfoldable pub render_search_results : String → SearchBox → SearchBox
render_search_results q s = if s.is_searching then record s { table = results q } else s

-- The answer to one of the requests, good or not.
unfoldable pub show_answer : Option String × List String → Bool → SearchBox → SearchBox
show_answer (none, rest) good s = s
show_answer (some q, rest) good s =
    let t = record s { in_flight = rest } in if good then render_search_results q t else t

unfoldable pub answer_search : ℕ → Bool → SearchBox → SearchBox
answer_search i good s = show_answer (take_out i s.in_flight) good s

-- The clear button, which leaves the timer running.
unfoldable pub click_clear : SearchBox → SearchBox
click_clear s = clear_search (record s { text = "" })

pub data SearchEvent : Type 0 where
  types : String → SearchEvent
  timer_fires clicks_clear : SearchEvent
  search_answered : ℕ → Bool → SearchEvent

unfoldable pub after_search : SearchEvent → SearchBox → SearchBox
after_search (types q) s = type_text q s
after_search timer_fires s = fire_timer s
after_search clicks_clear s = click_clear s
after_search (search_answered i good) s = answer_search i good s

unfoldable pub after_searches : List SearchEvent → SearchBox → SearchBox
after_searches [] s = s
after_searches (e ∷ es) s = after_searches es (after_search e s)

abbrev pub no_search : SearchBox
no_search = record {
  text = "";
  timer = none;
  is_searching = false;
  in_flight = [];
  clear_shown = false;
  table = folder;
}

abbrev pub is_results : Table → Bool
is_results (results q) = true
is_results _ = false

abbrev pub is_folder : Table → Bool
is_folder folder = true
is_folder _ = false
