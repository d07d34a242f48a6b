-- ===== src/Transfers/Discipline/Users.antt =====
-- What the user and the browser ask of fruitsalade/webapp/js/transfers.js keeps the discipline of
-- the queue.
use fruit_salade.Base.{
  ℕ, String, ◌≡◌, refl, subst, inl, inr, true, false, ◌&&◌, ◌||◌, Option, none, some, List, [], ◌∷◌,
  arith, ◌==◌, if◌then◌else◌, ==→≡, ==_refl, Bool-cases, is_some, contains, contains-append,
  contains-remove_first, contains_self, contains-append_left,
}
use fruit_salade.Transfers.Model.{paused_by_user, File, State}
use fruit_salade.Transfers.Store.{
  is_uploading, is_paused, is_failed, status_of, file_of, find_transfer, show_panel, update_badge,
  render_panel,
}
use fruit_salade.Transfers.Upload.{process_queue}
use fruit_salade.Transfers.Actions.{
  enqueue, append_stored, stored, abort_if_active, pause, attach, ask_for_file, requeue, resume,
  remove_transfer, cancel,
}
use fruit_salade.Transfers.Discipline.Rules.{
  uploads, Disciplined, Shrinks, Calm-Disciplined, Shrinks-process_queue,
}
use fruit_salade.Transfers.Discipline.Answers.{
  Unchanged, Unchanged-Disciplined, pause_transfer-Disciplined,
}
use fruit_salade.Transfers.Records.Rules.{ids_of, Tidy}
use fruit_salade.Transfers.Records.Bulk.{remove_transfer_fields}

pub pause-Disciplined : (id : ℕ) (s : State) → Disciplined s → Disciplined (pause id s)
unfolding pause
pause-Disciplined id s d = elim (Bool-cases (find_transfer id s && is_uploading (status_of s id))) [
  | inr e ↦ rw e d
  | inl e ↦ rw e (
      pause_transfer-Disciplined id (abort_if_active id s)
        (Unchanged-Disciplined s (abort_if_active id s) aborted d) paused_by_user)
]
  where
    aborted : Unchanged s (abort_if_active id s)
    aborted = unfold abort_if_active in (ground arith, (λ j. ground arith), (λ j. ground arith))

requeue-Shrinks :
    (id : ℕ) (file : Option File) (s : State) → Shrinks s (requeue id (attach file id s))
unfolding requeue attach render_panel update_badge
requeue-Shrinks id none s j m u = ground arith
requeue-Shrinks id (some file) s j m u = ground arith

ask_for_file-Unchanged : (id : ℕ) (s : State) → Unchanged s (ask_for_file id s)
unfolding ask_for_file render_panel
ask_for_file-Unchanged id s = (refl, (λ j. ground arith), (λ j. ground arith))

attached :
    (id : ℕ) (file : File) (s : State) → is_some (file_of (attach (some file) id s) id) ≡ true
unfolding attach
attached id file s = ground (arith, ==_refl id)

resumed :
    (id : ℕ) (file : Option File) (s : State)
    → Disciplined s
    → Disciplined (
        if is_some (file_of (attach file id s) id)
        then process_queue (requeue id (attach file id s))
        else ask_for_file id (attach file id s))
resumed id (some file) s d = rw (attached id file s) (
    Shrinks-process_queue s (requeue id (attach (some file) id s))
      (requeue-Shrinks id (some file) s) d)
resumed id none s d = elim (Bool-cases (is_some (file_of (attach none id s) id))) [
  | inl e ↦
      rw e (Shrinks-process_queue s (requeue id (attach none id s)) (requeue-Shrinks id none s) d)
  | inr e ↦
      rw e (
        unfold attach in
        Unchanged-Disciplined s (ask_for_file id s) (ask_for_file-Unchanged id s) d)
]

pub resume-Disciplined :
    (id : ℕ) (file : Option File) (s : State) → Disciplined s → Disciplined (resume id file s)
unfolding resume
resume-Disciplined id file s d =
    elim (Bool-cases
      (find_transfer id s && (is_paused (status_of s id) || is_failed (status_of s id)))) [
        | inr e ↦ rw e d
        | inl e ↦ rw e (resumed id file s d)
      ]

pub cancel-Disciplined : (id : ℕ) (s : State) → Disciplined s → Disciplined (cancel id s)
unfolding cancel
cancel-Disciplined id s d = elim (Bool-cases (find_transfer id s)) [
  | inr e ↦ rw e d
  | inl e ↦ rw e (Shrinks-process_queue s (remove_transfer id s) shrinks d)
]
  where
    shrinks : Shrinks s (remove_transfer id s)
    shrinks j m u =
        let (ts, st, k, h, db) = remove_transfer_fields id s in
        (
          contains-remove_first id j s.transfers (subst (λ l. contains l j ≡ true) ts m),
          subst (λ g. is_uploading (g j).saved.status ≡ true) h u,
          λ f. rw h f,
        )

pub enqueue-Disciplined :
    (file : File) (path : String) (s : State)
    → Tidy s
    → Disciplined s
    → Disciplined (enqueue file path s)
unfolding enqueue
enqueue-Disciplined file path s t d =
    Calm-Disciplined s (enqueue file path s)
      (record {
        same_array = refl;
        same_uploads = λ j m. ground (arith, old j m);
        same_files = λ j m f. ground (arith, old j m);
        none_more = λ j m e. ground (arith, old j m);
      })
      d
  where
    old : (j : ℕ) → contains s.transfers j ≡ true → (s.next_key == j) ≡ false
    old j m = ground (arith, t.below j (contains-append_left s.transfers (ids_of s.storing) j m))

-- The record that waited is not uploading, so one more in the array starts nothing by itself.
append_stored-Shrinks :
    (s : State) (id : ℕ) (file : File) (rest : List (ℕ × File))
    → uploads s id ≡ false
    → Shrinks s (append_stored id file (record s { storing = rest }))
unfolding append_stored update_badge show_panel render_panel
append_stored-Shrinks s id file rest n j m u =
    ground (arith, contains-append s.transfers (id ∷ []) j, ==→≡ id j)

pub stored-Disciplined : (s : State) → Tidy s → Disciplined s → Disciplined (stored s)
unfolding stored
stored-Disciplined s t d = go s.storing refl
  where
    go : (w : List (ℕ × File)) → s.storing ≡ w → Disciplined (stored s)
    go [] e = rw (e, stored) d
    go ((id, file) ∷ rest) e =
        rw (e, stored)
          (Shrinks-process_queue s (append_stored id file (record s { storing = rest }))
            (append_stored-Shrinks s id file rest
              (t.waiting id (rw e (contains_self id (ids_of rest)))))
            d)
