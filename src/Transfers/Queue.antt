-- ===== src/Transfers/Queue.antt =====
-- What `startUpload` and `processQueue` of fruitsalade/webapp/js/transfers.js do to the queue.
use fruit_salade.Base.{
  ℕ, ◌<◌, ◌≡◌, refl, ◌⊎◌, inl, inr, Bool, true, false, ◌&&◌, some, List, [], ◌∷◌, ◌++◌, arith, leb,
  ◌==◌, if◌then◌else◌, ==→≡, Bool-cases, Option-cases, is_some, contains, All, All-cons,
  contains_self,
}
use fruit_salade.Transfers.Model.{Status, queued, uploading, File, Transfer, State, concurrent}
use fruit_salade.Transfers.Store.{
  is_queued, is_uploading, status_of, file_of, active_count_in, active_count, update_badge,
  render_panel,
}
use fruit_salade.Transfers.Upload.{
  upload_small, init_chunked, resume_chunked, start_upload, choose_path, process_queue_from,
  process_queue,
}

-- A transfer that `processQueue` may start.
abbrev pub is_eligible : State → ℕ → Bool
is_eligible s id = is_queued (status_of s id) && is_some (file_of s id)

module _ (id : ℕ) (file : File) (s : State) where
  pub start_upload-status :
      (j : ℕ)
      → status_of (start_upload id file s) j ≡ (if id == j then uploading else status_of s j)
  unfolding start_upload choose_path upload_small init_chunked resume_chunked render_panel
      update_badge
  start_upload-status j = ground arith

  pub start_upload-file : (j : ℕ) → file_of (start_upload id file s) j ≡ file_of s j
  unfolding start_upload choose_path upload_small init_chunked resume_chunked render_panel
      update_badge
  start_upload-file j = ground arith

  pub start_upload-transfers : (start_upload id file s).transfers ≡ s.transfers
  unfolding start_upload choose_path upload_small init_chunked resume_chunked render_panel
      update_badge
  start_upload-transfers = ground arith

-- What the loop of `processQueue` comes to: no transfer can start and nothing changes, or the
-- first that can is started.
pub data Handover (ids : List ℕ) (s : State) : State → Type 0 where
  nothing : ((j : ℕ) → contains ids j ≡ true → is_eligible s j ≡ false) → Handover ids s s
  began :
      (id : ℕ) (file : File) (before after : List ℕ)
      → ids ≡ before ++ id ∷ after
      → ((j : ℕ) → contains before j ≡ true → is_eligible s j ≡ false)
      → status_of s id ≡ queued
      → file_of s id ≡ some file
      → Handover ids s (start_upload id file s)

skip_one :
    (i : ℕ) {ids : List ℕ} {s t : State}
    → is_eligible s i ≡ false
    → Handover ids s t
    → Handover (i ∷ ids) s t
skip_one i {ids} {s} e (nothing h) = nothing (All-cons (λ k. is_eligible s k ≡ false) i ids e h)
skip_one i {ids} {s} e (began id file before after p h q f) =
    began id file (i ∷ before) after (cc) (All-cons (λ k. is_eligible s k ≡ false) i before e h) q f

pub is_queued→≡ : (a : Status) → is_queued a ≡ true → a ≡ queued
is_queued→≡ a h = ground arith

pub process_queue_from_lem : (ids : List ℕ) (s : State) → Handover ids s (process_queue_from ids s)
unfolding process_queue_from
process_queue_from_lem [] s = nothing (λ j m. cc)
process_queue_from_lem (id ∷ ids) s = elim (Bool-cases (is_queued (status_of s id))) [
  | inr q ↦ rw q (skip_one id (rw q refl) (process_queue_from_lem ids s))
  | inl q ↦ rw q (elim (Option-cases (file_of s id)) [
    | inl f ↦ rw f (skip_one id (rw (q, f) refl) (process_queue_from_lem ids s))
    | inr (file, f) ↦ rw f (began id file [] ids refl (λ j m. cc) (is_queued→≡ _ q) f)
  ])
]

-- With an upload under way `processQueue` does nothing; otherwise it starts the first that can be.
pub process_queue-Handover :
    (s : State)
    → ((0 < active_count s) × (process_queue s ≡ s))
      ⊎ ((active_count s ≡ 0) × Handover s.transfers s (process_queue s))
unfolding process_queue
process_queue-Handover s = elim (Bool-cases (leb concurrent (active_count s))) [
  | inl b ↦ inl (ground arith, rw b refl)
  | inr b ↦ inr (ground arith, rw b (process_queue_from_lem s.transfers s))
]

-- `activeCount` is 0 exactly when no transfer of the array is uploading.
pub active_count_zero :
    (h : ℕ → Transfer) (ids : List ℕ)
    → active_count_in h ids ≡ 0
    → All (λ j. is_uploading (h j).saved.status ≡ false) ids
unfolding active_count_in
active_count_zero h [] z j m = cc
active_count_zero h (id ∷ ids) z j m = elim (Bool-cases (is_uploading (h id).saved.status)) [
  | inl e ↦ absurd (ground arith)
  | inr e ↦
      All-cons (λ k. is_uploading (h k).saved.status ≡ false) id ids e
        (active_count_zero h ids (ground arith)) j m
]

pub active_count_pos :
    (h : ℕ → Transfer) (ids : List ℕ)
    → 0 < active_count_in h ids
    → (j : ℕ) × (contains ids j ≡ true) × (is_uploading (h j).saved.status ≡ true)
unfolding active_count_in
active_count_pos h [] p = absurd (omega arith)
active_count_pos h (id ∷ ids) p = elim (Bool-cases (is_uploading (h id).saved.status)) [
  | inl e ↦ (id, contains_self id ids, e)
  | inr e ↦ (let (j, m, u) = active_count_pos h ids (ground arith) in (j, ground arith, u))
]

-- `processQueue` does nothing while a transfer of the array is uploading. Otherwise it starts the
-- first of the array that is queued and has its file, and nothing if there is none; to start one
-- changes no status but its own, and no file.
pub process_queue_first :
    (s : State)
    → ((j : ℕ) × (contains s.transfers j ≡ true)
        × (is_uploading (status_of s j) ≡ true)
        × (process_queue s ≡ s))
      ⊎ (All (λ j. is_uploading (status_of s j) ≡ false) s.transfers
          × Handover s.transfers s (process_queue s)
          × ((j : ℕ)
              → (status_of (process_queue s) j ≡ status_of s j)
                ⊎ ((status_of s j ≡ queued) × (status_of (process_queue s) j ≡ uploading)))
          × ((j : ℕ) → file_of (process_queue s) j ≡ file_of s j))
unfolding active_count
process_queue_first s = elim (process_queue-Handover s) [
  | inl r ↦ inl (let (j, m, u) = active_count_pos s.heap s.transfers r.0 in (j, m, u, r.1))
  | inr r ↦ inr (
    active_count_zero s.heap s.transfers r.0,
    r.1,
    statuses s.transfers (process_queue s) r.1,
    files s.transfers (process_queue s) r.1,
  )
]
  where
    statuses :
        (ids : List ℕ) (t : State)
        → Handover ids s t
        → (j : ℕ)
        → (status_of t j ≡ status_of s j) ⊎ ((status_of s j ≡ queued) × (status_of t j ≡ uploading))
    statuses ids t (nothing h) j = inl refl
    statuses ids t (began id file before after p h q f) j =
        ground (arith, start_upload-status id file s j, q, ==→≡ id j)

    files : (ids : List ℕ) (t : State) → Handover ids s t → (j : ℕ) → file_of t j ≡ file_of s j
    files ids t (nothing h) j = refl
    files ids t (began id file before after p h q f) j = start_upload-file id file s j
