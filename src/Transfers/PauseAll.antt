-- ===== src/Transfers/PauseAll.antt =====
-- `pauseAll` of fruitsalade/webapp/js/transfers.js: a pause hands over to the queue, which starts a
-- later transfer, and the loop catches up with it.
use fruit_salade.Base.{
  ℕ, ◌≡◌, refl, sym, subst, ◌∙◌, inl, inr, true, false, ◌||◌, List, [], ◌∷◌, arith, ==→≡, ==_refl,
  Bool-cases, contains, All, All-cons, contains_self,
}
use fruit_salade.Transfers.Model.{Status, queued, uploading, paused, paused_by_user, State}
use fruit_salade.Transfers.Store.{is_queued, is_uploading, status_of, update_badge, render_panel}
use fruit_salade.Transfers.Upload.{process_queue, mark_paused, pause_transfer}
use fruit_salade.Transfers.Actions.{
  abort_if_active, pause, pause_queued, pause_one, pause_each, pause_all,
}
use fruit_salade.Transfers.Queue.{
  start_upload-status, start_upload-transfers, Handover, nothing, began, process_queue-Handover,
}

-- Where `pauseAll` is to take a status.
abbrev pub halted : Status → Status
halted queued = paused
halted uploading = paused
halted status = status

-- Neither uploading nor waiting to.
abbrev Rests : State → ℕ → Type 0
Rests s j = (is_uploading (status_of s j) || is_queued (status_of s j)) ≡ false

-- A change from queued to uploading, or to where `pauseAll` takes it, and none of what rests.
record Settles (s t : State) : Type 0 where
  same_array : t.transfers ≡ s.transfers
  same_end : (j : ℕ) → halted (status_of t j) ≡ halted (status_of s j)
  same_rest : (j : ℕ) → Rests s j → Rests t j

Settles-refl : (s : State) → Settles s s
Settles-refl s = record { same_array = refl; same_end = λ j. refl; same_rest = λ j r. r }

Settles-trans : (s t u : State) → Settles s t → Settles t u → Settles s u
Settles-trans s t u p q = record {
  same_array = q.same_array ∙ p.same_array;
  same_end = λ j. q.same_end j ∙ p.same_end j;
  same_rest = λ j r. q.same_rest j (p.same_rest j r);
}

Handover-Settles : (ids : List ℕ) (s t : State) → Handover ids s t → Settles s t
Handover-Settles ids s t (nothing h) = Settles-refl s
Handover-Settles ids s t (began id file before after p h q f) = record {
  same_array = start_upload-transfers id file s;
  same_end = λ j. ground (arith, start_upload-status id file s j, q, ==→≡ id j);
  same_rest = λ j r. ground (arith, start_upload-status id file s j, q, ==→≡ id j);
}

process_queue-Settles : (s : State) → Settles s (process_queue s)
process_queue-Settles s = elim (process_queue-Handover s) [
  | inl r ↦ rw r.1 (Settles-refl s)
  | inr r ↦ Handover-Settles s.transfers s (process_queue s) r.1
]

-- The pause of an uploading transfer, up to the queue.
pausing : ℕ → State → State
pausing id s = mark_paused id paused_by_user (abort_if_active id s)

pausing-Settles :
    (id : ℕ) (s : State) → is_uploading (status_of s id) ≡ true → Settles s (pausing id s)
unfolding pausing mark_paused abort_if_active render_panel update_badge
pausing-Settles id s u = record {
  same_array = ground arith;
  same_end = λ j. ground (arith, ==→≡ id j);
  same_rest = λ j r. ground (arith, ==→≡ id j);
}

pausing-Rests : (id : ℕ) (s : State) → Rests (pausing id s) id
unfolding pausing mark_paused abort_if_active render_panel update_badge
pausing-Rests id s = ground (arith, ==_refl id)

pause_queued-Settles : (id : ℕ) (s : State) → Settles s (pause_queued id s)
unfolding pause_queued
pause_queued-Settles id s = record {
  same_array = ground arith;
  same_end = λ j. ground (arith, ==→≡ id j);
  same_rest = λ j r. ground (arith, ==→≡ id j);
}

pause_queued-Rests :
    (id : ℕ) (s : State) → is_uploading (status_of s id) ≡ false → Rests (pause_queued id s) id
unfolding pause_queued
pause_queued-Rests id s u = ground (arith, ==_refl id)

-- One round of the loop.
pause_one-Settles :
    (id : ℕ) (s : State)
    → contains s.transfers id ≡ true
    → Settles s (pause_one id s) × Rests (pause_one id s) id
unfolding pause_one pause pause_transfer pausing
pause_one-Settles id s here = elim (Bool-cases (is_uploading (status_of s id))) [
  | inl u ↦
      rw (u, here)
        (let p = pausing id s in
          let t = process_queue p in
          let first = Settles-trans s p t (pausing-Settles id s u) (process_queue-Settles p) in
          let rests = (process_queue-Settles p).same_rest id (pausing-Rests id s) in
          (
            Settles-trans s t (pause_queued id t) first (pause_queued-Settles id t),
            (pause_queued-Settles id t).same_rest id rests,
          ))
  | inr u ↦ elim (Bool-cases (is_queued (status_of s id))) [
    | inl q ↦ simp (u, q, here) (pause_queued-Settles id s, pause_queued-Rests id s u)
    | inr q ↦ simp (u, q) (Settles-refl s, ground arith)
  ]
]

pause_each-Settles :
    (ids : List ℕ) (s : State)
    → All (λ j. contains s.transfers j ≡ true) ids
    → Settles s (pause_each ids s) × All (Rests (pause_each ids s)) ids
unfolding pause_each
pause_each-Settles [] s here = (Settles-refl s, λ j m. cc)
pause_each-Settles (id ∷ ids) s here =
    let t = pause_one id s in
    let (first, rests) = pause_one-Settles id s (here id (contains_self id ids)) in
    let (others, all_rest) =
      pause_each-Settles ids t
        (λ j m. subst (λ l. contains l j ≡ true) (sym first.same_array) (here j (ground arith))) in
    (
      Settles-trans s t (pause_each ids t) first others,
      All-cons (Rests (pause_each ids t)) id ids (others.same_rest id rests) all_rest,
    )

halted-Rests : (a : Status) → (is_uploading a || is_queued a) ≡ false → halted a ≡ a
halted-Rests a h = ground arith

-- After `pauseAll` every transfer of the array that was queued or uploading is paused, the ones
-- that the queue started meanwhile included, and every other has the status it had.
pub status-pause_all :
    (s : State) → All (λ j. status_of (pause_all s) j ≡ halted (status_of s j)) s.transfers
unfolding pause_all update_badge render_panel
status-pause_all s j m =
    let (settles, rests) = pause_each-Settles s.transfers s (λ i mi. mi) in
    sym (halted-Rests _ (rests j m)) ∙ settles.same_end j
