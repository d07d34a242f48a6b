-- ===== src/Activity/Examples.antt =====
-- The theorems about fruitsalade/webapp/js/views/activity.js at concrete inputs.
use fruit_salade.Base.{
  ℕ, suc, String, ◌≡◌, refl, Bool, none, List, [], ◌∷◌, arith, ltb, same_text, keep, IsKeySet,
}
use fruit_salade.Activity.Model.{
  ActivityEntry, date_key, add_to_group, group_from, group_entries, answer_activity, new_feed,
}
use fruit_salade.Activity.Groups.{entries_under, keys_of, group_entries_lem}
use fruit_salade.Activity.Paging.{page, pages, IsLog}
use fruit_salade.Activity.Complete.{all_pages}

-- A comparison of texts by their lengths stands for that of times.
abbrev text_size : String → ℕ
text_size String.[] = 0
text_size (String.◌∷◌ c s) = suc (text_size s)

abbrev shorter : String → String → Bool
shorter s t = ltb (text_size s) (text_size t)

abbrev created : String → ActivityEntry
created time = record {
  created_at = time;
  action = "create";
  username = "ann";
  resource_path = "/a";
}

abbrev some_log : List ActivityEntry
some_log = created "3333" ∷ created "22" ∷ created "1" ∷ []

some_log-IsLog : IsLog shorter some_log
some_log-IsLog = record {
  newest_first = ((refl, (refl, tt)), ((refl, tt), (tt, tt)));
  timed = (refl, (refl, (refl, tt)));
  one_way = λ s t e. ground arith;
}

all_pages_example :
    (pages shorter some_log 2 (answer_activity (page shorter none some_log) new_feed)).entries
    ≡ some_log
all_pages_example = all_pages shorter some_log some_log-IsLog 2 (omega arith)

abbrev two_days : List ActivityEntry
two_days = created "2026-01-02T10" ∷ created "2026-01-01T09" ∷ created "2026-01-02T08" ∷ []

two_days-dates : keys_of (group_entries two_days) ≡ "2026-01-02" ∷ "2026-01-01" ∷ []
unfolding group_entries group_from add_to_group date_key
two_days-dates = refl

group_entries_lem_example :
    IsKeySet (keys_of (group_entries two_days))
    × ((d : String)
        → entries_under d (group_entries two_days) ≡ keep (λ e. same_text (date_key e) d) two_days)
group_entries_lem_example = group_entries_lem two_days
