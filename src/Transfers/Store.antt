-- ===== src/Transfers/Store.antt =====
-- The writes that the functions of fruitsalade/webapp/js/transfers.js are made of: fields of a
-- transfer, the database, the panel and its badge.
use fruit_salade.Base.{
  ℕ, suc, Bool, true, false, ◌||◌, Option, none, some, List, [], ◌∷◌, ◌++◌, ltb, if◌then◌else◌,
  length, update, contains,
}
use fruit_salade.Transfers.Model.{
  Status, queued, uploading, paused, completed, failed, File, Saved, Transfer, Request, Notice, Ui,
  State,
}

abbrev pub is_queued : Status → Bool
is_queued queued = true
is_queued _ = false

abbrev pub is_uploading : Status → Bool
is_uploading uploading = true
is_uploading _ = false

abbrev pub is_paused : Status → Bool
is_paused paused = true
is_paused _ = false

abbrev pub is_completed : Status → Bool
is_completed completed = true
is_completed _ = false

abbrev pub is_failed : Status → Bool
is_failed failed = true
is_failed _ = false

-- `transfers[i].status` and `transfers[i]._file`, for the object with this id.
abbrev pub status_of : State → ℕ → Status
status_of s id = (s.heap id).saved.status

abbrev pub file_of : State → ℕ → Option File
file_of s id = (s.heap id).file

-- Assignments to fields of one object.
abbrev pub modify : (Transfer → Transfer) → ℕ → State → State
modify f id s = record s { heap = update s.heap id (f (s.heap id)) }

abbrev pub modify_saved : (Saved → Saved) → ℕ → State → State
modify_saved f = modify (λ t. record t { saved = f t.saved })

-- `sanitize`: the fields that do not begin with `_`.
abbrev pub sanitize : Transfer → Saved
sanitize t = t.saved

-- `dbPut(sanitize(transfer))`. The writes of one page reach the store in the order of the calls.
abbrev pub db_put : ℕ → State → State
db_put id s = record s { db = update s.db id (some (sanitize (s.heap id))) }

abbrev pub db_delete : ℕ → State → State
db_delete id s = record s { db = update s.db id none }

abbrev pub send : Request → State → State
send r s = record s { requests = s.requests ++ r ∷ [] }

abbrev pub notify : Notice → State → State
notify n s = record s { notices = s.notices ++ n ∷ [] }

abbrev pub set_active : Option ℕ → State → State
set_active a s = record s { active = a }

-- `hasPending`, and the count of `updateBadge`.
abbrev pub is_pending : Status → Bool
is_pending queued = true
is_pending uploading = true
is_pending paused = true
is_pending _ = false

unfoldable pub has_pending_in : (ℕ → Transfer) → List ℕ → Bool
has_pending_in h [] = false
has_pending_in h (id ∷ ids) = is_pending (h id).saved.status || has_pending_in h ids

unfoldable pub has_pending : State → Bool
has_pending s = has_pending_in s.heap s.transfers

unfoldable pub pending_count : (ℕ → Transfer) → List ℕ → ℕ
pending_count h [] = 0
pending_count h (id ∷ ids) =
    let rest = pending_count h ids in if is_pending (h id).saved.status then suc rest else rest

-- `activeCount`.
unfoldable pub active_count_in : (ℕ → Transfer) → List ℕ → ℕ
active_count_in h [] = 0
active_count_in h (id ∷ ids) =
    let rest = active_count_in h ids in if is_uploading (h id).saved.status then suc rest else rest

unfoldable pub active_count : State → ℕ
active_count s = active_count_in s.heap s.transfers

-- `findTransfer` with its null result: the object of an id is found in the heap.
abbrev pub find_transfer : ℕ → State → Bool
find_transfer id s = contains s.transfers id

abbrev pub set_ui : (Ui → Ui) → State → State
set_ui f s = record s { ui = f s.ui }

unfoldable pub show_panel : State → State
show_panel = set_ui (λ u. record u { panel_visible = true; button_shown = true })

unfoldable pub hide_panel : State → State
hide_panel = set_ui (λ u. record u { panel_visible = false })

unfoldable pub badge_of : List ℕ → ℕ → Ui → Ui
badge_of ts n u =
    if ltb 0 n
    then record u { button_shown = true; badge = some n }
    else if ltb 0 (length ts)
    then record u { button_shown = true; badge = none }
    else record u { button_shown = false; badge = none }

unfoldable pub update_badge : State → State
update_badge s = set_ui (badge_of s.transfers (pending_count s.heap s.transfers)) s

-- `renderPanel` asks for one animation frame at a time; `frame` is its callback. The frame draws
-- the panel from the state, and hides it when there is nothing to draw.
unfoldable pub render_panel : State → State
render_panel = set_ui (λ u. record u { render_queued = true })

unfoldable pub frame : State → State
frame s =
    let s' = set_ui (λ u. record u { render_queued = false }) s in
    elim s.transfers [ [] ↦ hide_panel s' | id ∷ ids ↦ s' ]

-- `scheduleAutoHide` replaces the timer; `auto_hide` is its callback.
unfoldable pub schedule_auto_hide : State → State
schedule_auto_hide = set_ui (λ u. record u { hide_timer = true })

unfoldable pub all_done : (ℕ → Transfer) → List ℕ → Bool
all_done h [] = true
all_done h (id ∷ ids) = elim (h id).saved.status [
  | completed ↦ all_done h ids
  | failed ↦ all_done h ids
  | _ ↦ false
]

unfoldable pub auto_hide : State → State
auto_hide s =
    let s' = set_ui (λ u. record u { hide_timer = false }) s in
    if all_done s.heap s.transfers then hide_panel s' else s'

unfoldable pub toggle_panel : State → State
toggle_panel s = if s.ui.panel_visible then hide_panel s else render_panel (show_panel s)
