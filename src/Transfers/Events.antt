-- ===== src/Transfers/Events.antt =====
-- Everything that can happen to the page of fruitsalade/webapp/js/transfers.js, as one event after
-- another: JavaScript runs each handler to its end. The network may answer whenever it likes.
use Prim.Native.Nat.{max}
use fruit_salade.Base.{ℕ, String, Bool, Option, List, [], ◌∷◌}
use fruit_salade.Transfers.Model.{File, State}
use fruit_salade.Transfers.Store.{show_panel, hide_panel, frame, auto_hide, toggle_panel}
use fruit_salade.Transfers.Replies.{
  Answer, InitData, StatusData, small_progress, small_loaded, small_failed, init_answered,
  status_answered, chunk_progress, chunk_loaded, chunk_failed, complete_answered,
}
use fruit_salade.Transfers.Actions.{
  enqueue, stored, pause, resume, retry, cancel, pause_all, resume_all, pause_active,
  clear_completed,
}

pub data Event : Type 0 where
  clock_ticks : ℕ → Event
  user_enqueues : File → String → Event
  database_stored : Event
  user_pauses : ℕ → Event
  user_resumes : ℕ → Option File → Event
  user_retries : ℕ → Event
  user_cancels : ℕ → Event
  user_pauses_all user_resumes_all user_clears : Event
  user_toggles_panel user_shows_panel user_closes_panel : Event
  went_online went_offline : Event
  frame_drawn timer_fired : Event
  small_progressed : ℕ → ℕ → Event
  small_answered : ℕ → ℕ → Event
  small_broke : ℕ → Bool → Event
  init_came : ℕ → Answer InitData → Event
  status_came : ℕ → Answer StatusData → Event
  chunk_progressed : ℕ → ℕ → Event
  chunk_answered : ℕ → ℕ → ℕ → Event
  chunk_broke : ℕ → Bool → Event
  complete_came : ℕ → Answer (Unit {0}) → Event

unfoldable pub tick : ℕ → State → State
tick now s = record s { clock = max s.clock now }

unfoldable pub step : Event → State → State
step (clock_ticks now) s = tick now s
step (user_enqueues file path) s = enqueue file path s
step database_stored s = stored s
step (user_pauses id) s = pause id s
step (user_resumes id file) s = resume id file s
step (user_retries id) s = retry id s
step (user_cancels id) s = cancel id s
step user_pauses_all s = pause_all s
step user_resumes_all s = resume_all s
step user_clears s = clear_completed s
step user_toggles_panel s = toggle_panel s
step user_shows_panel s = show_panel s
step user_closes_panel s = hide_panel s
step went_online s = resume_all s
step went_offline s = pause_active s
step frame_drawn s = frame s
step timer_fired s = auto_hide s
step (small_progressed id sent) s = small_progress id sent s
step (small_answered id status) s = small_loaded id status s
step (small_broke id timed_out) s = small_failed id timed_out s
step (init_came id a) s = init_answered id a s
step (status_came id a) s = status_answered id a s
step (chunk_progressed id sent) s = chunk_progress id sent s
step (chunk_answered id n status) s = chunk_loaded id n status s
step (chunk_broke id timed_out) s = chunk_failed id timed_out s
step (complete_came id a) s = complete_answered id a s

unfoldable pub run : List Event → State → State
run [] s = s
run (e ∷ es) s = run es (step e s)
