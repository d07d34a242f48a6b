-- ===== src/Activity/Model.antt =====
-- The feed of fruitsalade/webapp/js/views/activity.js: its entries, its requests, and what it shows.
use fruit_salade.Base.{
  ℕ, zero, suc, ◌%◌, String, Bool, true, false, ◌&&◌, Option, none, some, List, [], ◌∷◌, ◌++◌, leb,
  ◌==◌, if◌then◌else◌, length, is_empty, same_text,
}

-- An entry as the server sends it; a missing time is empty.
pub record ActivityEntry : Type 0 where
  pub created_at : String
  pub action : String
  pub username : String
  pub resource_path : String

abbrev pub first_chars : ℕ → String → String
first_chars zero s = String.[]
first_chars (suc n) String.[] = String.[]
first_chars (suc n) (String.◌∷◌ c s) = String.◌∷◌ c (first_chars n s)

-- `dateKey`.
unfoldable pub date_key : ActivityEntry → String
date_key e = if is_empty e.created_at then "Unknown" else first_chars 10 e.created_at

-- `groupOrder`, each key with its group of `groups`.
abbrev pub Groups : Type 0
Groups = List (String × List ActivityEntry)

-- `groups` is a plain object; the keys are dates or "Unknown", none a name that it inherits.
unfoldable pub add_to_group : String → ActivityEntry → Groups → Groups
add_to_group key e [] = (key, e ∷ []) ∷ []
add_to_group key e ((k, es) ∷ gs) =
    let later = (k, es) ∷ add_to_group key e gs in
    if same_text k key then (k, es ++ e ∷ []) ∷ gs else later

unfoldable pub group_from : List ActivityEntry → Groups → Groups
group_from [] gs = gs
group_from (e ∷ es) gs = group_from es (add_to_group (date_key e) e gs)

unfoldable pub group_entries : List ActivityEntry → Groups
group_entries es = group_from es []

-- What `activity-container` holds; the list has the button Load More or not.
pub data Shown : Type 0 where
  skeleton no_activity load_failed : Shown
  activity_list : Groups → Bool → Shown

abbrev pub is_none : List ActivityEntry → Bool
is_none [] = true
is_none (e ∷ es) = false

abbrev pub offers_more : ℕ → Bool
offers_more n = leb 50 n && (n % 50 == 0)

-- `entries`, `loading`, the times of the requests that were sent (none for the newest entries), and
-- what is shown.
pub record Feed : Type 0 where
  pub entries : List ActivityEntry
  pub loading : Bool
  pub requests : List (Option String)
  pub shown : Shown

unfoldable pub load_activity : Option String → Feed → Feed
load_activity before f =
    if f.loading then f else record f { loading = true; requests = f.requests ++ before ∷ [] }

unfoldable pub render_entries : Feed → Feed
render_entries f = record f {
  shown =
      if is_none f.entries
      then no_activity
      else activity_list (group_entries f.entries) (offers_more (length f.entries));
}

-- The answer to the request, or its failure.
unfoldable pub answer_activity : List ActivityEntry → Feed → Feed
answer_activity es f = render_entries (record f { loading = false; entries = f.entries ++ es })

unfoldable pub fail_activity : Feed → Feed
fail_activity f = record f { loading = false; shown = load_failed }

abbrev pub last_of : List ActivityEntry → Option ActivityEntry
last_of [] = none
last_of (e ∷ []) = some e
last_of (e ∷ d ∷ es) = last_of (d ∷ es)

unfoldable pub load_before : Option ActivityEntry → Feed → Feed
load_before none f = f
load_before (some e) f = if is_empty e.created_at then f else load_activity (some e.created_at) f

abbrev pub has_button : Shown → Bool
has_button skeleton = false
has_button no_activity = false
has_button load_failed = false
has_button (activity_list gs more) = more

-- A click on Load More.
unfoldable pub load_more : Feed → Feed
load_more f = if has_button f.shown then load_before (last_of f.entries) f else f

-- `renderActivity`.
abbrev pub new_feed : Feed
new_feed = record { entries = []; loading = true; requests = none ∷ []; shown = skeleton }

-- The verb of an action, which is the action itself for any other.
unfoldable pub action_verb : String → String
action_verb action =
    if same_text action "create"
    then "created"
    else if same_text action "modify"
    then "modified"
    else if same_text action "delete"
    then "deleted"
    else if same_text action "version"
    then "rolled back"
    else action
