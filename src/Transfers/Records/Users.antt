-- ===== src/Transfers/Records/Users.antt =====
-- What the user does to one transfer in fruitsalade/webapp/js/transfers.js keeps the ids, and
-- stores what it changes.
use fruit_salade.Base.{
  ℕ, ◌+◌, ◌<◌, String, ◌≡◌, refl, sym, ap, ◌⊎◌, inl, inr, true, false, ◌&&◌, ◌||◌, Option, none,
  some, List, [], ◌∷◌, ◌++◌, append_assoc, arith, if◌then◌else◌, Bool-cases, is_some, contains, All,
  All-snoc, IsNodup-snoc,
}
use fruit_salade.Transfers.Model.{paused_by_user, File, State}
use fruit_salade.Transfers.Store.{
  is_uploading, is_paused, is_failed, status_of, file_of, find_transfer, show_panel, update_badge,
  render_panel,
}
use fruit_salade.Transfers.Upload.{process_queue}
use fruit_salade.Transfers.Actions.{
  enqueue, append_stored, stored, abort_if_active, pause, attach, ask_for_file, requeue, resume,
}
use fruit_salade.Transfers.Records.Rules.{
  Mirrored, ids_of, held, Tidy, Frame, Frame-refl, Frame-trans, Frame-Tidy, process_queue-Frame,
  Frame-process_queue,
}
use fruit_salade.Transfers.Records.Answers.{Frame-of, Frame-aside, pause_transfer-Frame}

abort_if_active-Frame : (id : ℕ) (s : State) → Frame s (abort_if_active id s)
unfolding abort_if_active
abort_if_active-Frame id s =
    Frame-aside s _ (ground arith) (ground arith) (ground arith) (ground arith) (ground arith)

pub pause-Frame : (id : ℕ) (s : State) → Frame s (pause id s)
unfolding pause
pause-Frame id s = elim (Bool-cases (find_transfer id s && is_uploading (status_of s id))) [
  | inr e ↦ rw e (Frame-refl s)
  | inl e ↦ rw e (
      Frame-trans s (abort_if_active id s) _ (abort_if_active-Frame id s)
        (pause_transfer-Frame id (abort_if_active id s) paused_by_user))
]

requeue-Frame : (id : ℕ) (file : Option File) (s : State) → Frame s (requeue id (attach file id s))
unfolding requeue attach render_panel update_badge
requeue-Frame id none s = Frame-of s _ refl refl refl (λ j m u. ground arith) (λ j m. ground arith)
requeue-Frame id (some file) s =
    Frame-of s _ refl refl refl (λ j m u. ground arith) (λ j m. ground arith)

ask_for_file-Frame :
    (id : ℕ) (file : Option File) (s : State) → Frame s (ask_for_file id (attach file id s))
unfolding ask_for_file attach render_panel
ask_for_file-Frame id none s =
    Frame-of s _ refl refl refl (λ j m u. ground arith) (λ j m. ground arith)
ask_for_file-Frame id (some file) s =
    Frame-of s _ refl refl refl (λ j m u. ground arith) (λ j m. ground arith)

pub resume-Frame : (id : ℕ) (file : Option File) (s : State) → Frame s (resume id file s)
unfolding resume
resume-Frame id file s =
    elim (Bool-cases
      (find_transfer id s && (is_paused (status_of s id) || is_failed (status_of s id)))) [
        | inr e ↦ rw e (Frame-refl s)
        | inl e ↦ rw e (go (Bool-cases (is_some (file_of (attach file id s) id))))
      ]
  where
    go :
        (is_some (file_of (attach file id s) id) ≡ true)
          ⊎ (is_some (file_of (attach file id s) id) ≡ false)
        → Frame s (
            if is_some (file_of (attach file id s) id)
            then process_queue (requeue id (attach file id s))
            else ask_for_file id (attach file id s))
    go (inl f) =
        rw f (Frame-process_queue s (requeue id (attach file id s)) (requeue-Frame id file s))
    go (inr f) = rw f (ask_for_file-Frame id file s)

ids_of-append :
    (w : List (ℕ × File)) (id : ℕ) (file : File)
    → ids_of (w ++ (id, file) ∷ []) ≡ ids_of w ++ id ∷ []
ids_of-append [] id file = refl
ids_of-append ((i, f) ∷ w) id file = ap (i ∷◌) (ids_of-append w id file)

fresh_key : (xs : List ℕ) (k : ℕ) → All (λ j. j < k) xs → contains xs k ≡ false
fresh_key xs k h = elim (Bool-cases (contains xs k)) [
  | inr e ↦ e
  | inl e ↦ absurd (omega (arith, h k e))
]

held-enqueue :
    (file : File) (path : String) (s : State)
    → held (enqueue file path s) ≡ held s ++ s.next_key ∷ []
unfolding enqueue
held-enqueue file path s =
    rw (ids_of-append s.storing s.next_key file) (sym (append_assoc s.transfers _ _))

pub enqueue-Tidy : (file : File) (path : String) (s : State) → Tidy s → Tidy (enqueue file path s)
unfolding enqueue
enqueue-Tidy file path s d = record {
  nodup = rw whole (IsNodup-snoc (held s) s.next_key d.nodup (fresh_key _ _ d.below));
  below = rw whole (
      All-snoc (λ j. j < s.next_key + 1) (held s) s.next_key (λ j m. omega (arith, d.below j m))
        (omega arith));
  waiting = rw (ids_of-append s.storing s.next_key file) (
      All-snoc _ (ids_of s.storing) s.next_key (λ j m. ground (arith, d.waiting j m))
        (ground arith));
  mirrored = rw whole (
      All-snoc (Mirrored (enqueue file path s)) (held s) s.next_key
        (λ j m. ground (arith, d.mirrored j m, d.below j m)) (ground arith));
}
  where
    whole : held (enqueue file path s) ≡ held s ++ s.next_key ∷ []
    whole = held-enqueue file path s

-- The first waiting record joins the array with its file.
stored_first :
    (s : State) (id : ℕ) (file : File) (rest : List (ℕ × File))
    → s.storing ≡ (id, file) ∷ rest
    → Tidy s
    → Tidy (append_stored id file (record s { storing = rest }))
unfolding append_stored update_badge show_panel render_panel
stored_first s id file rest w d = record {
  nodup = rw same_held d.nodup;
  below = rw same_held d.below;
  waiting = λ j m. ground (arith, d.waiting j (rw w (ground arith)));
  mirrored = rw same_held (λ j m. ground (arith, d.mirrored j m));
}
  where
    same_held : (s.transfers ++ id ∷ []) ++ ids_of rest ≡ held s
    same_held = rw w (append_assoc s.transfers (id ∷ []) (ids_of rest))

pub stored-Tidy : (s : State) → Tidy s → Tidy (stored s)
unfolding stored
stored-Tidy s d = go s.storing refl
  where
    go : (w : List (ℕ × File)) → s.storing ≡ w → Tidy (stored s)
    go [] e = rw (e, stored) d
    go ((id, file) ∷ rest) e =
        rw (e, stored)
          (Frame-Tidy (append_stored id file (record s { storing = rest })) _
            (process_queue-Frame _) (stored_first s id file rest e d))
