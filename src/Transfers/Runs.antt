-- ===== src/Transfers/Runs.antt =====
-- What holds of the page of fruitsalade/webapp/js/transfers.js from its start on, whatever the
-- user, the network and the database do, in any order.
use fruit_salade.Base.{ℕ, ◌≡◌, refl, Option, none, List, [], ◌∷◌, arith}
use fruit_salade.Transfers.Model.{Saved, State}
use fruit_salade.Transfers.Store.{
  show_panel, hide_panel, render_panel, frame, auto_hide, toggle_panel,
}
use fruit_salade.Transfers.Actions.{init, retry}
use fruit_salade.Transfers.Events.{
  Event, clock_ticks, user_enqueues, database_stored, user_pauses, user_resumes, user_retries,
  user_cancels, user_pauses_all, user_resumes_all, user_clears, user_toggles_panel,
  user_shows_panel, user_closes_panel, went_online, went_offline, frame_drawn, timer_fired,
  small_progressed, small_answered, small_broke, init_came, status_came, chunk_progressed,
  chunk_answered, chunk_broke, complete_came, tick, step, run,
}
use fruit_salade.Transfers.Discipline.Rules.{Exclusive, NeverIdle, Disciplined}
use fruit_salade.Transfers.Discipline.Answers.{
  Unchanged-Disciplined, small_progress-Disciplined, chunk_progress-Disciplined,
  init_answered-Disciplined, status_answered-Disciplined, complete_answered-Disciplined,
  small_loaded-Disciplined, small_failed-Disciplined, chunk_loaded-Disciplined,
  chunk_failed-Disciplined,
}
use fruit_salade.Transfers.Discipline.Users.{
  pause-Disciplined, resume-Disciplined, cancel-Disciplined, enqueue-Disciplined,
  stored-Disciplined,
}
use fruit_salade.Transfers.Discipline.Bulk.{
  pause_all-Disciplined, resume_all-Disciplined, pause_active-Disciplined,
  clear_completed-Disciplined,
}
use fruit_salade.Transfers.Records.Rules.{Tidy, Frame, Frame-Tidy}
use fruit_salade.Transfers.Records.Answers.{
  Frame-aside, small_progress-Frame, chunk_progress-Frame, init_answered-Frame,
  status_answered-Frame, complete_answered-Frame, small_loaded-Frame, small_failed-Frame,
  chunk_loaded-Frame, chunk_failed-Frame,
}
use fruit_salade.Transfers.Records.Clear.{clear_completed-Tidy}
use fruit_salade.Transfers.Records.Bulk.{
  cancel-Tidy, pause_all-Frame, resume_all-Frame, pause_active-Frame,
}
use fruit_salade.Transfers.Records.Users.{pause-Frame, resume-Frame, enqueue-Tidy, stored-Tidy}
use fruit_salade.Transfers.Reload.{KeysGiven, init-Tidy, init-Disciplined}

pub record IsValid (s : State) : Type 0 where
  pub tidy : Tidy s
  pub disciplined : Disciplined s

-- Events that touch no object.
aside :
    (s t : State)
    → IsValid s
    → t.storing ≡ s.storing
    → t.next_key ≡ s.next_key
    → t.transfers ≡ s.transfers
    → t.heap ≡ s.heap
    → t.db ≡ s.db
    → IsValid t
aside s t v a b c h e = record {
  tidy = Frame-Tidy s t (Frame-aside s t a b c h e) v.tidy;
  disciplined = Unchanged-Disciplined s t (c, (λ j. rw h refl), (λ j. rw h refl)) v.disciplined;
}

framed : (s t : State) → IsValid s → Frame s t → (Disciplined s → Disciplined t) → IsValid t
framed s t v f d = record { tidy = Frame-Tidy s t f v.tidy; disciplined = d v.disciplined }

panel-IsValid : (s : State) → IsValid s → IsValid (toggle_panel s)
unfolding toggle_panel show_panel hide_panel render_panel
panel-IsValid s v =
    aside s _ v (ground arith) (ground arith) (ground arith) (ground arith) (ground arith)

timer-IsValid : (s : State) → IsValid s → IsValid (auto_hide s)
unfolding auto_hide hide_panel
timer-IsValid s v =
    aside s _ v (ground arith) (ground arith) (ground arith) (ground arith) (ground arith)

frame-IsValid : (s : State) → IsValid s → IsValid (frame s)
unfolding frame hide_panel
frame-IsValid s v =
    aside s _ v (ground arith) (ground arith) (ground arith) (ground arith) (ground arith)

-- Every event keeps what holds of the page.
pub step-IsValid : (e : Event) (s : State) → IsValid s → IsValid (step e s)
unfolding step tick show_panel hide_panel retry
step-IsValid (clock_ticks now) s v = aside s _ v refl refl refl refl refl
step-IsValid (user_enqueues file path) s v = record {
  tidy = enqueue-Tidy file path s v.tidy;
  disciplined = enqueue-Disciplined file path s v.tidy v.disciplined;
}
step-IsValid database_stored s v = record {
  tidy = stored-Tidy s v.tidy;
  disciplined = stored-Disciplined s v.tidy v.disciplined;
}
step-IsValid (user_pauses id) s v = framed s _ v (pause-Frame id s) (pause-Disciplined id s)
step-IsValid (user_resumes id file) s v =
    framed s _ v (resume-Frame id file s) (resume-Disciplined id file s)
step-IsValid (user_retries id) s v =
    framed s _ v (resume-Frame id none s) (resume-Disciplined id none s)
step-IsValid (user_cancels id) s v = record {
  tidy = cancel-Tidy id s v.tidy;
  disciplined = cancel-Disciplined id s v.disciplined;
}
step-IsValid user_pauses_all s v = framed s _ v (pause_all-Frame s) (pause_all-Disciplined s)
step-IsValid user_resumes_all s v = framed s _ v (resume_all-Frame s) (resume_all-Disciplined s)
step-IsValid user_clears s v = record {
  tidy = clear_completed-Tidy s v.tidy;
  disciplined = clear_completed-Disciplined s v.disciplined;
}
step-IsValid user_toggles_panel s v = panel-IsValid s v
step-IsValid user_shows_panel s v = aside s _ v refl refl refl refl refl
step-IsValid user_closes_panel s v = aside s _ v refl refl refl refl refl
step-IsValid went_online s v = framed s _ v (resume_all-Frame s) (resume_all-Disciplined s)
step-IsValid went_offline s v = framed s _ v (pause_active-Frame s) (pause_active-Disciplined s)
step-IsValid frame_drawn s v = frame-IsValid s v
step-IsValid timer_fired s v = timer-IsValid s v
step-IsValid (small_progressed id sent) s v =
    framed s _ v (small_progress-Frame id s sent) (λ d. small_progress-Disciplined id s d sent)
step-IsValid (small_answered id status) s v =
    framed s _ v (small_loaded-Frame id s status) (λ d. small_loaded-Disciplined id s d status)
step-IsValid (small_broke id timed_out) s v =
    framed s _ v (small_failed-Frame id s timed_out)
      (λ d. small_failed-Disciplined id s d timed_out)
step-IsValid (init_came id a) s v =
    framed s _ v (init_answered-Frame id s a) (λ d. init_answered-Disciplined id s d a)
step-IsValid (status_came id a) s v =
    framed s _ v (status_answered-Frame id s a) (λ d. status_answered-Disciplined id s d a)
step-IsValid (chunk_progressed id sent) s v =
    framed s _ v (chunk_progress-Frame id s sent) (λ d. chunk_progress-Disciplined id s d sent)
step-IsValid (chunk_answered id n status) s v =
    framed s _ v (chunk_loaded-Frame id s n status) (λ d. chunk_loaded-Disciplined id s d n status)
step-IsValid (chunk_broke id timed_out) s v =
    framed s _ v (chunk_failed-Frame id s timed_out)
      (λ d. chunk_failed-Disciplined id s d timed_out)
step-IsValid (complete_came id a) s v =
    framed s _ v (complete_answered-Frame id s a) (λ d. complete_answered-Disciplined id s d a)

run-IsValid : (es : List Event) (s : State) → IsValid s → IsValid (run es s)
unfolding run
run-IsValid [] s v = v
run-IsValid (e ∷ es) s v = run-IsValid es (step e s) (step-IsValid e s v)

-- The page at any time after it was loaded over a database.
pub page : (ℕ → Option Saved) → ℕ → ℕ → List Event → State
page db key clock es = run es (init db key clock)

page-IsValid :
    (db : ℕ → Option Saved) (key clock : ℕ) (es : List Event)
    → KeysGiven db key
    → IsValid (page db key clock es)
unfolding page
page-IsValid db key clock es given =
    run-IsValid es (init db key clock)
      (record { tidy = init-Tidy db key clock given; disciplined = init-Disciplined db key clock })

-- From the start of the page, over a database whose keys it has given out, and after any events:
-- two transfers of the array that are uploading are one and the same, and it has its file.
pub page-Exclusive :
    (db : ℕ → Option Saved) (key clock : ℕ) (es : List Event)
    → KeysGiven db key
    → Exclusive (page db key clock es)
page-Exclusive db key clock es given = (page-IsValid db key clock es given).disciplined.exclusive

-- From the start of the page, over a database whose keys it has given out, and after any events:
-- if no transfer of the array is uploading, none of them is queued with its file at hand.
pub page-NeverIdle :
    (db : ℕ → Option Saved) (key clock : ℕ) (es : List Event)
    → KeysGiven db key
    → NeverIdle (page db key clock es)
page-NeverIdle db key clock es given = (page-IsValid db key clock es given).disciplined.never_idle

-- From the start of the page, over a database whose keys it has given out, and after any events:
-- the ids of the array and of the records that wait for the database are all different and below
-- the next key, what waits is not uploading, and the stored record of each agrees with the object
-- in all fields but `loaded` and `speed`.
pub page-Tidy :
    (db : ℕ → Option Saved) (key clock : ℕ) (es : List Event)
    → KeysGiven db key
    → Tidy (page db key clock es)
page-Tidy db key clock es given = (page-IsValid db key clock es given).tidy
