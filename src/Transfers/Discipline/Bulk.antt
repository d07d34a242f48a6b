-- ===== src/Transfers/Discipline/Bulk.antt =====
-- The actions on all transfers of fruitsalade/webapp/js/transfers.js keep the discipline of the
-- queue.
use fruit_salade.Base.{
  ℕ, ◌≡◌, refl, subst, inl, inr, true, false, not, ◌&&◌, ◌||◌, List, [], ◌∷◌, arith, ==→≡,
  Bool-cases, contains, All,
}
use fruit_salade.Transfers.Model.{State}
use fruit_salade.Transfers.Store.{is_queued, is_uploading, status_of, update_badge, render_panel}
use fruit_salade.Transfers.Actions.{
  pause, pause_queued, pause_one, pause_each, pause_all, resume_one, resume_each, resume_all,
  pause_active_each, pause_active, remaining, clear_completed,
}
use fruit_salade.Transfers.Discipline.Rules.{
  uploads, NeverIdle, Disciplined, Shrinks, Shrinks-Exclusive, Calm-Disciplined,
  Shrinks-process_queue,
}
use fruit_salade.Transfers.Discipline.Answers.{Unchanged, Unchanged-Disciplined}
use fruit_salade.Transfers.Records.Clear.{completes, contains-remaining, clear_completed_fields}
use fruit_salade.Transfers.Discipline.Users.{pause-Disciplined}

drawn-Unchanged : (s : State) → Unchanged s (update_badge (render_panel s))
unfolding update_badge render_panel
drawn-Unchanged s = (refl, (λ j. refl), (λ j. refl))

pause_queued-Disciplined : (id : ℕ) (s : State) → Disciplined s → Disciplined (pause_queued id s)
unfolding pause_queued
pause_queued-Disciplined id s d =
    Calm-Disciplined s _
      (record {
        same_array = ground arith;
        same_uploads = λ j m. ground (arith, ==→≡ id j);
        same_files = λ j m f. ground arith;
        none_more = λ j m e. ground arith;
      })
      d

pause_one-Disciplined : (id : ℕ) (s : State) → Disciplined s → Disciplined (pause_one id s)
unfolding pause_one
pause_one-Disciplined id s d =
    elim (Bool-cases (is_uploading (status_of s id) || is_queued (status_of s id))) [
      | inr e ↦ rw e d
      | inl e ↦ rw e (pause_queued-Disciplined id (pause id s) (pause-Disciplined id s d))
    ]

pause_each-Disciplined : (ids : List ℕ) (s : State) → Disciplined s → Disciplined (pause_each ids s)
unfolding pause_each
pause_each-Disciplined [] s d = d
pause_each-Disciplined (id ∷ ids) s d =
    pause_each-Disciplined ids (pause_one id s) (pause_one-Disciplined id s d)

pub pause_all-Disciplined : (s : State) → Disciplined s → Disciplined (pause_all s)
unfolding pause_all
pause_all-Disciplined s d =
    Unchanged-Disciplined (pause_each s.transfers s) _ (drawn-Unchanged _)
      (pause_each-Disciplined s.transfers s d)

pause_active_each-Disciplined :
    (ids : List ℕ) (s : State) → Disciplined s → Disciplined (pause_active_each ids s)
unfolding pause_active_each
pause_active_each-Disciplined [] s d = d
pause_active_each-Disciplined (id ∷ ids) s d = elim (Bool-cases (is_uploading (status_of s id))) [
  | inr e ↦ rw (e, pause_active_each) (pause_active_each-Disciplined ids s d)
  | inl e ↦
      rw (e, pause_active_each)
        (pause_active_each-Disciplined ids (pause id s) (pause-Disciplined id s d))
]

pub pause_active-Disciplined : (s : State) → Disciplined s → Disciplined (pause_active s)
unfolding pause_active
pause_active-Disciplined s d = pause_active_each-Disciplined s.transfers s d

Shrinks-trans : (s t u : State) → Shrinks s t → Shrinks t u → Shrinks s u
Shrinks-trans s t u p q j m h =
    let (m1, h1, f1) = q j m h in let (m2, h2, f2) = p j m1 h1 in (m2, h2, λ f. f1 (f2 f))

resume_one-Shrinks : (id : ℕ) (s : State) → Shrinks s (resume_one id s)
unfolding resume_one
resume_one-Shrinks id s j m u = ground arith

resume_each-Shrinks : (ids : List ℕ) (s : State) → Shrinks s (resume_each ids s)
unfolding resume_each
resume_each-Shrinks [] s = λ j m u. (m, u, λ f. f)
resume_each-Shrinks (id ∷ ids) s =
    Shrinks-trans s (resume_one id s) (resume_each ids (resume_one id s)) (resume_one-Shrinks id s)
      (resume_each-Shrinks ids (resume_one id s))

pub resume_all-Disciplined : (s : State) → Disciplined s → Disciplined (resume_all s)
unfolding resume_all update_badge render_panel
resume_all-Disciplined s d =
    let t = update_badge (render_panel (resume_each s.transfers s)) in
    Shrinks-process_queue s t
      (Shrinks-trans s (resume_each s.transfers s) t (resume_each-Shrinks s.transfers s)
        (λ j m u. (m, u, λ f. f)))
      d

-- `clearCompleted` takes away nothing that is uploading or could be.
pub clear_completed-Disciplined : (s : State) → Disciplined s → Disciplined (clear_completed s)
clear_completed-Disciplined s d = record {
  exclusive = Shrinks-Exclusive s (clear_completed s) shrinks d.exclusive;
  never_idle = idle;
}
  where
    ts : (clear_completed s).transfers ≡ remaining s.heap s.transfers
    ts = (clear_completed_fields s).0

    hp : (clear_completed s).heap ≡ s.heap
    hp = (clear_completed_fields s).3

    left :
        (j : ℕ)
        → contains (clear_completed s).transfers j
          ≡ (contains s.transfers j && not (completes s.heap j))
    left j = rw ts (contains-remaining s.heap s.transfers j)

    shrinks : Shrinks s (clear_completed s)
    shrinks j m u = (
      ground (arith, left j),
      subst (λ g. is_uploading (g j).saved.status ≡ true) hp u,
      λ f. rw hp f,
    )

    idle : NeverIdle (clear_completed s)
    idle none_up j m = rw hp (d.never_idle before j (ground (arith, left j)))
      where
        before : All (λ i. uploads s i ≡ false) s.transfers
        before i mi = elim (Bool-cases (completes s.heap i)) [
          | inl c ↦ ground arith
          | inr c ↦
              subst (λ g. is_uploading (g i).saved.status ≡ false) hp
                (none_up i (ground (arith, left i)))
        ]
