-- ===== src/Transfers/Offline.antt =====
-- `pauseActive` of fruitsalade/webapp/js/transfers.js, the handler of the event `offline`.
use fruit_salade.Base.{
  ℕ, ◌<◌, ◌≡◌, refl, sym, ap, subst, ◌∙◌, ◌⊎◌, inl, inr, true, false, List, [], ◌∷◌, ◌++◌, arith,
  ◌==◌, if◌then◌else◌, ==→≡, ==_refl, Bool-cases, contains, IsNodup, All, contains_self,
  contains-split, contains-append_left, contains-append_right,
}
use fruit_salade.Transfers.Model.{paused, paused_by_user, File, State}
use fruit_salade.Transfers.Store.{status_of, active_count, update_badge, render_panel}
use fruit_salade.Transfers.Upload.{start_upload, process_queue, mark_paused, pause_transfer}
use fruit_salade.Transfers.Actions.{abort_if_active, pause, pause_active_each, pause_active}
use fruit_salade.Transfers.Queue.{
  is_eligible, start_upload-status, Handover, nothing, began, process_queue-Handover,
  active_count_pos,
}
use fruit_salade.Transfers.Records.Rules.{IsNodup-apart}
use fruit_salade.Transfers.Discipline.Rules.{uploads}

-- The loop does nothing where nothing is uploading.
pause_active_each-none :
    (ids : List ℕ) (s : State) → All (λ j. uploads s j ≡ false) ids → pause_active_each ids s ≡ s
unfolding pause_active_each
pause_active_each-none [] s h = refl
pause_active_each-none (id ∷ ids) s h =
    rw (h id (contains_self id ids), pause_active_each)
      (pause_active_each-none ids s (λ j m. h j (ground arith)))

pause_active_each-append :
    (xs ys : List ℕ) (s : State)
    → pause_active_each (xs ++ ys) s ≡ pause_active_each ys (pause_active_each xs s)
unfolding pause_active_each
pause_active_each-append [] ys s = refl
pause_active_each-append (x ∷ xs) ys s = pause_active_each-append xs ys _

-- The first transfer that can start stands in every part of the array, from its beginning on,
-- that has one.
first_in_front :
    (s : State) (e id : ℕ) (front behind before after : List ℕ)
    → front ++ behind ≡ before ++ id ∷ after
    → contains front e ≡ true
    → is_eligible s e ≡ true
    → All (λ j. is_eligible s j ≡ false) before
    → contains front id ≡ true
first_in_front s e id [] behind before after p m g h = cc
first_in_front s e id (x ∷ front) behind [] after p m g h = ground (arith, ==_refl id)
first_in_front s e id (x ∷ front) behind (y ∷ before) after p m g h = elim (Bool-cases (x == e)) [
  | inl q ↦ absurd (cc (g, ==→≡ x e q, p, h y (contains_self y before)))
  | inr q ↦ contains_cons x id front (
      first_in_front s e id front behind before after (cc) (ground arith) g
        (λ j mj. h j (ground arith)))
]
  where
    contains_cons : (a b : ℕ) (l : List ℕ) → contains l b ≡ true → contains (a ∷ l) b ≡ true
    contains_cons a b l h = ground arith

-- The state in which `pause` of an uploading transfer calls `processQueue`.
abbrev halting : ℕ → State → State
halting u s = mark_paused u paused_by_user (abort_if_active u s)

module _ (u : ℕ) (s : State) where
  halting-status : (j : ℕ) → status_of (halting u s) j ≡ (if u == j then paused else status_of s j)
  unfolding mark_paused abort_if_active render_panel update_badge
  halting-status j = ground arith

  halting-eligible : (j : ℕ) → uploads s u ≡ true → is_eligible (halting u s) j ≡ is_eligible s j
  unfolding mark_paused abort_if_active render_panel update_badge
  halting-eligible j up = ground (arith, ==→≡ u j)

  halting-transfers : (halting u s).transfers ≡ s.transfers
  unfolding mark_paused abort_if_active render_panel update_badge
  halting-transfers = ground arith

  -- With `u` alone uploading, none is uploading once `u` is paused.
  halting-All :
      ((j : ℕ) → contains s.transfers j ≡ true → uploads s j ≡ true → j ≡ u)
      → All (λ j. uploads (halting u s) j ≡ false) s.transfers
  halting-All only j m = elim (Bool-cases (uploads (halting u s) j)) [
    | inr e ↦ e
    | inl e ↦ absurd (ground (arith, halting-status j, only j m, ==_refl u))
  ]

  pause-halting :
      contains s.transfers u ≡ true → uploads s u ≡ true → pause u s ≡ process_queue (halting u s)
  unfolding pause pause_transfer
  pause-halting m up = rw (m, up) refl

-- A transfer of a list is uploading.
abbrev pub Restarted : List ℕ → State → Type 0
Restarted front t = (id : ℕ) × (contains front id ≡ true) × (uploads t id ≡ true)

-- What the queue starts in the middle of the loop is not reached by its rest.
started_survives :
    (front behind : List ℕ) (t : State) (id : ℕ) (file : File)
    → All (λ j. contains front j ≡ false) behind
    → All (λ j. uploads t j ≡ false) behind
    → contains front id ≡ true
    → Restarted front (pause_active_each behind (start_upload id file t))
started_survives front behind t id file apart quiet here =
    rw (pause_active_each-none behind (start_upload id file t) untouched) (id, here, started)
  where
    started : uploads (start_upload id file t) id ≡ true
    started = rw (start_upload-status id file t id, ==_refl id) refl

    untouched : All (λ j. uploads (start_upload id file t) j ≡ false) behind
    untouched j m = ground (arith, start_upload-status id file t j, ==→≡ id j, apart j m, quiet j m)

handed_over :
    (u e : ℕ) (front behind : List ℕ) (t r : State)
    → t.transfers ≡ front ++ u ∷ behind
    → All (λ j. contains front j ≡ false) behind
    → All (λ j. uploads t j ≡ false) behind
    → contains front e ≡ true
    → is_eligible t e ≡ true
    → Handover t.transfers t r
    → Restarted front (pause_active_each behind r)
handed_over u e front behind t r p apart quiet here able (nothing h) =
    absurd (cc (able, h e (rw p (contains-append_left front (u ∷ behind) e here))))
handed_over u e front behind t r p apart quiet here able (began id file before after q h qi fi) =
    started_survives front behind t id file apart quiet
      (first_in_front t e id front (u ∷ behind) before after (sym p ∙ q) here able h)

-- When the connection goes, while `u` alone is uploading and a transfer in front of it in the
-- array is queued with its file, the loop pauses `u`, but one in front of `u` is uploading at the
-- end: the pause hands over to the queue, and the loop has already passed what this starts.
pub pause_active_restarts :
    (s : State) (u e : ℕ) (front behind : List ℕ)
    → s.transfers ≡ front ++ u ∷ behind
    → IsNodup (front ++ u ∷ behind)
    → uploads s u ≡ true
    → ((j : ℕ) → contains s.transfers j ≡ true → uploads s j ≡ true → j ≡ u)
    → contains front e ≡ true
    → is_eligible s e ≡ true
    → Restarted front (pause_active s)
unfolding pause_active
pause_active_restarts s u e front behind p d up only here able =
    rw (skip, stop) (go (process_queue-Handover (halting u s)))
  where
    in_array : contains s.transfers u ≡ true
    in_array = rw p (contains-split front behind u)

    apart : All (λ j. contains front j ≡ false) (u ∷ behind)
    apart = IsNodup-apart front (u ∷ behind) d

    front_quiet : All (λ j. uploads s j ≡ false) front
    front_quiet j m = elim (Bool-cases (uploads s j)) [
      | inr h ↦ h
      | inl h ↦ absurd (
          cc (
            m,
            apart u (contains_self u behind),
            only j (rw p (contains-append_left front (u ∷ behind) j m)) h,
          ))
    ]

    skip :
        pause_active_each s.transfers s ≡ pause_active_each (u ∷ behind) (pause_active_each front s)
    skip = ap (λ l. pause_active_each l s) p ∙ pause_active_each-append front (u ∷ behind) s

    stop :
        pause_active_each (u ∷ behind) (pause_active_each front s)
        ≡ pause_active_each behind (process_queue (halting u s))
    stop =
        ap (pause_active_each (u ∷ behind)) (pause_active_each-none front s front_quiet)
        ∙ unfold pause_active_each in
          rw up (ap (pause_active_each behind) (pause-halting u s in_array up))

    quiet : All (λ j. uploads (halting u s) j ≡ false) s.transfers
    quiet = halting-All u s only

    behind_quiet : All (λ j. uploads (halting u s) j ≡ false) behind
    behind_quiet j m = quiet j (rw p (contains-append_right front (u ∷ behind) j (ground arith)))

    go :
        ((0 < active_count (halting u s)) × (process_queue (halting u s) ≡ halting u s))
          ⊎ ((active_count (halting u s) ≡ 0)
              × Handover (halting u s).transfers (halting u s) (process_queue (halting u s)))
        → Restarted front (pause_active_each behind (process_queue (halting u s)))
    go (inl r) = absurd (busy r.0)
      where
        busy : ¬ (0 < active_count (halting u s))
        busy h =
            unfold active_count in
            (let (j, m, w) = active_count_pos (halting u s).heap (halting u s).transfers h in
              cc (w, quiet j (subst (λ l. contains l j ≡ true) (halting-transfers u s) m)))
    go (inr r) =
        handed_over u e front behind (halting u s) _ (halting-transfers u s ∙ p)
          (λ j m. apart j (ground arith)) behind_quiet here (halting-eligible u s e up ∙ able) r.1
