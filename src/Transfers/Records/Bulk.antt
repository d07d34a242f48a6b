-- ===== src/Transfers/Records/Bulk.antt =====
-- Cancelling, and the actions on all transfers in fruitsalade/webapp/js/transfers.js, keep the ids
-- and the stored records.
use fruit_salade.Base.{
  ℕ, ◌≡◌, refl, sym, subst, inl, inr, true, false, ◌||◌, none, List, [], ◌∷◌, arith, ◌==◌, ==→≡,
  Bool-cases, update, contains, remove_first, contains-remove_first, contains-remove_first_self,
  IsNodup-remove_first, remove_first-append,
}
use fruit_salade.Transfers.Model.{State}
use fruit_salade.Transfers.Store.{
  is_queued, is_uploading, status_of, find_transfer, update_badge, render_panel,
}
use fruit_salade.Transfers.Actions.{
  abort_if_active, pause, abort_on_server, remove_transfer, cancel, pause_queued, pause_one,
  pause_each, pause_all, resume_one, resume_each, resume_all, pause_active_each, pause_active,
}
use fruit_salade.Transfers.Records.Rules.{
  ids_of, held, Tidy, Frame, Frame-refl, Frame-trans, Frame-Tidy, process_queue-Frame,
  Frame-process_queue,
}
use fruit_salade.Transfers.Records.Answers.{Frame-of, Frame-aside}
use fruit_salade.Transfers.Records.Users.{pause-Frame}

-- What `cancel` leaves, whatever it sends.
pub remove_transfer_fields :
    (id : ℕ) (s : State)
    → let t = remove_transfer id s in
      (t.transfers ≡ remove_first id s.transfers)
      × (t.storing ≡ s.storing)
      × (t.next_key ≡ s.next_key)
      × (t.heap ≡ s.heap)
      × (t.db ≡ update s.db id none)
unfolding remove_transfer abort_on_server abort_if_active update_badge render_panel
remove_transfer_fields id s = (ground arith, ground arith, ground arith, ground arith, ground arith)

-- A transfer leaves the array together with its record, and all others stay.
drop-Tidy :
    (id : ℕ) (s t : State)
    → contains s.transfers id ≡ true
    → t.transfers ≡ remove_first id s.transfers
    → t.storing ≡ s.storing
    → t.next_key ≡ s.next_key
    → t.heap ≡ s.heap
    → t.db ≡ update s.db id none
    → Tidy s
    → Tidy t
drop-Tidy id s t here ts st k h db d = record {
  nodup = rw whole (IsNodup-remove_first id (held s) d.nodup);
  below = λ j m. rw k (d.below j (still j m));
  waiting = λ j m. rw h (d.waiting j (subst (λ l. contains (ids_of l) j ≡ true) st m));
  mirrored = λ j m. rw (h, db, other j m) (d.mirrored j (still j m));
}
  where
    whole : held t ≡ remove_first id (held s)
    whole = rw (ts, st) (remove_first-append id s.transfers (ids_of s.storing) here)

    still : (j : ℕ) → contains (held t) j ≡ true → contains (held s) j ≡ true
    still j m = contains-remove_first id j (held s) (subst (λ l. contains l j ≡ true) whole m)

    other : (j : ℕ) → contains (held t) j ≡ true → (id == j) ≡ false
    other j m = elim (Bool-cases (id == j)) [
      | inr e ↦ e
      | inl e ↦ absurd (
          cc (
            contains-remove_first_self id (held s) d.nodup,
            subst (λ k. contains (held t) k ≡ true) (sym (==→≡ id j e)) m,
            whole,
          ))
    ]

pub cancel-Tidy : (id : ℕ) (s : State) → Tidy s → Tidy (cancel id s)
unfolding cancel
cancel-Tidy id s d = elim (Bool-cases (find_transfer id s)) [
  | inr e ↦ rw e d
  | inl e ↦ rw e (
      let (ts, st, k, h, db) = remove_transfer_fields id s in
      Frame-Tidy (remove_transfer id s) _ (process_queue-Frame (remove_transfer id s))
        (drop-Tidy id s (remove_transfer id s) e ts st k h db d))
]

-- The loops over the array.
pause_queued-Frame : (id : ℕ) (s : State) → Frame s (pause_queued id s)
unfolding pause_queued
pause_queued-Frame id s =
    Frame-of s _ (ground arith) (ground arith) (ground arith) (λ j m u. ground arith)
      (λ j m. ground arith)

pause_one-Frame : (id : ℕ) (s : State) → Frame s (pause_one id s)
unfolding pause_one
pause_one-Frame id s =
    elim (Bool-cases (is_uploading (status_of s id) || is_queued (status_of s id))) [
      | inr e ↦ rw e (Frame-refl s)
      | inl e ↦
          rw e
            (Frame-trans s (pause id s) _ (pause-Frame id s) (pause_queued-Frame id (pause id s)))
    ]

resume_one-Frame : (id : ℕ) (s : State) → Frame s (resume_one id s)
unfolding resume_one
resume_one-Frame id s =
    Frame-of s _ (ground arith) (ground arith) (ground arith) (λ j m u. ground arith)
      (λ j m. ground arith)

pause_each-Frame : (ids : List ℕ) (s : State) → Frame s (pause_each ids s)
unfolding pause_each
pause_each-Frame [] s = Frame-refl s
pause_each-Frame (id ∷ ids) s =
    Frame-trans s (pause_one id s) _ (pause_one-Frame id s) (pause_each-Frame ids (pause_one id s))

resume_each-Frame : (ids : List ℕ) (s : State) → Frame s (resume_each ids s)
unfolding resume_each
resume_each-Frame [] s = Frame-refl s
resume_each-Frame (id ∷ ids) s =
    Frame-trans s (resume_one id s) _ (resume_one-Frame id s)
      (resume_each-Frame ids (resume_one id s))

pause_active_each-Frame : (ids : List ℕ) (s : State) → Frame s (pause_active_each ids s)
unfolding pause_active_each
pause_active_each-Frame [] s = Frame-refl s
pause_active_each-Frame (id ∷ ids) s = elim (Bool-cases (is_uploading (status_of s id))) [
  | inr e ↦ rw (e, pause_active_each) (pause_active_each-Frame ids s)
  | inl e ↦
      rw (e, pause_active_each)
        (Frame-trans s (pause id s) _ (pause-Frame id s) (pause_active_each-Frame ids (pause id s)))
]

drawn-Frame : (s : State) → Frame s (update_badge (render_panel s))
unfolding update_badge render_panel
drawn-Frame s = Frame-aside s _ refl refl refl refl refl

pub pause_all-Frame : (s : State) → Frame s (pause_all s)
unfolding pause_all
pause_all-Frame s =
    Frame-trans s (pause_each s.transfers s) _ (pause_each-Frame s.transfers s)
      (drawn-Frame (pause_each s.transfers s))

pub resume_all-Frame : (s : State) → Frame s (resume_all s)
unfolding resume_all
resume_all-Frame s =
    Frame-process_queue s (update_badge (render_panel (resume_each s.transfers s))) (
      Frame-trans s (resume_each s.transfers s) _ (resume_each-Frame s.transfers s)
        (drawn-Frame (resume_each s.transfers s)))

pub pause_active-Frame : (s : State) → Frame s (pause_active s)
unfolding pause_active
pause_active-Frame s = pause_active_each-Frame s.transfers s
