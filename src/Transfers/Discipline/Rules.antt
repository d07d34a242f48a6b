-- ===== src/Transfers/Discipline/Rules.antt =====
-- The discipline of the queue of fruitsalade/webapp/js/transfers.js: one upload at a time, never
-- idle. Two kinds of changes keep it: those that start nothing, and those before `processQueue`.
use fruit_salade.Base.{
  ℕ, ◌≡◌, refl, sym, subst, ◌∙◌, inl, inr, Bool, true, false, some, ◌==◌, ==→≡, ==_refl, Bool-cases,
  is_some, contains, All, contains-split,
}
use fruit_salade.Transfers.Model.{File, State}
use fruit_salade.Transfers.Store.{is_uploading, status_of, file_of, active_count}
use fruit_salade.Transfers.Upload.{start_upload, process_queue}
use fruit_salade.Transfers.Queue.{
  is_eligible, start_upload-status, start_upload-file, start_upload-transfers, Handover, nothing,
  began, process_queue-Handover, active_count_zero, active_count_pos,
}

abbrev pub uploads : State → ℕ → Bool
uploads s id = is_uploading (status_of s id)

-- Two transfers of the array that are uploading are one, and it has its file.
pub record Exclusive (s : State) : Type 0 where
  pub one_upload :
      (i j : ℕ)
      → contains s.transfers i ≡ true
      → contains s.transfers j ≡ true
      → uploads s i ≡ true
      → uploads s j ≡ true
      → i ≡ j
  pub with_file :
      (i : ℕ) → contains s.transfers i ≡ true → uploads s i ≡ true → is_some (file_of s i) ≡ true

-- While nothing is uploading, no transfer could be.
abbrev pub NeverIdle : State → Type 0
NeverIdle s =
    All (λ j. uploads s j ≡ false) s.transfers → All (λ j. is_eligible s j ≡ false) s.transfers

pub record Disciplined (s : State) : Type 0 where
  pub exclusive : Exclusive s
  pub never_idle : NeverIdle s

-- A change after which no more is uploading than before, and no file is lost.
abbrev pub Shrinks : State → State → Type 0
Shrinks s t =
    (j : ℕ)
    → contains t.transfers j ≡ true
    → uploads t j ≡ true
    → (contains s.transfers j ≡ true)
      × (uploads s j ≡ true)
      × (is_some (file_of s j) ≡ true → is_some (file_of t j) ≡ true)

pub Shrinks-Exclusive : (s t : State) → Shrinks s t → Exclusive s → Exclusive t
Shrinks-Exclusive s t h e = record {
  one_upload =
      λ i j mi mj ui uj. e.one_upload i j (h i mi ui).0 (h j mj uj).0 (h i mi ui).1 (h j mj uj).1;
  with_file = λ i m u. (h i m u).2 (e.with_file i (h i m u).0 (h i m u).1);
}

-- A change after which the same transfers are uploading, with their files, and none more can start.
pub record Calm (s t : State) : Type 0 where
  pub same_array : t.transfers ≡ s.transfers
  pub same_uploads : All (λ j. uploads t j ≡ uploads s j) s.transfers
  pub same_files :
      All (λ j. is_some (file_of s j) ≡ true → is_some (file_of t j) ≡ true) s.transfers
  pub none_more : All (λ j. is_eligible t j ≡ true → is_eligible s j ≡ true) s.transfers

pub Calm-Disciplined : (s t : State) → Calm s t → Disciplined s → Disciplined t
Calm-Disciplined s t c d = record {
  exclusive = Shrinks-Exclusive s t shrinks d.exclusive;
  never_idle = idle;
}
  where
    in_s : (j : ℕ) → contains t.transfers j ≡ true → contains s.transfers j ≡ true
    in_s j m = subst (λ l. contains l j ≡ true) c.same_array m

    in_t : (j : ℕ) → contains s.transfers j ≡ true → contains t.transfers j ≡ true
    in_t j m = subst (λ l. contains l j ≡ true) (sym c.same_array) m

    shrinks : Shrinks s t
    shrinks j m u = (in_s j m, sym (c.same_uploads j (in_s j m)) ∙ u, c.same_files j (in_s j m))

    idle : NeverIdle t
    idle none_up j m = elim (Bool-cases (is_eligible t j)) [
      | inr e ↦ e
      | inl e ↦ cc (
        c.none_more j (in_s j m) e,
        d.never_idle (λ i mi. sym (c.same_uploads i mi) ∙ none_up i (in_t i mi)) j (in_s j m),
      )
    ]

start_upload_other :
    (id : ℕ) (file : File) (s : State) (j : ℕ)
    → (id == j) ≡ false
    → uploads (start_upload id file s) j ≡ uploads s j
start_upload_other id file s j e = rw (start_upload-status id file s j, e) refl

start_upload_self : (id : ℕ) (file : File) (s : State) → uploads (start_upload id file s) id ≡ true
start_upload_self id file s = rw (start_upload-status id file s id, ==_refl id) refl

began-Exclusive :
    (s : State) (id : ℕ) (file : File)
    → active_count s ≡ 0
    → file_of s id ≡ some file
    → Exclusive (start_upload id file s)
unfolding active_count
began-Exclusive s id file z f = record {
  one_upload = λ i j mi mj ui uj. sym (only i mi ui) ∙ only j mj uj;
  with_file = λ i m u.
      subst (λ k. is_some (file_of (start_upload id file s) k) ≡ true) (only i m u)
        (rw (start_upload-file id file s id, f) refl);
}
  where
    only :
        (i : ℕ)
        → contains (start_upload id file s).transfers i ≡ true
        → uploads (start_upload id file s) i ≡ true
        → id ≡ i
    only i m u = elim (Bool-cases (id == i)) [
      | inl e ↦ ==→≡ id i e
      | inr e ↦ cc (
        active_count_zero s.heap s.transfers z i
            (subst (λ l. contains l i ≡ true) (start_upload-transfers id file s) m),
        sym (start_upload_other id file s i e) ∙ u,
      )
    ]

-- `processQueue` restores the discipline wherever no two transfers are uploading.
Handover-Disciplined :
    (s t : State) → active_count s ≡ 0 → Handover s.transfers s t → Exclusive s → Disciplined t
unfolding active_count
Handover-Disciplined s t z (nothing h) e = record { exclusive = e; never_idle = λ _. h }
Handover-Disciplined s t z (began id file before after p h q f) e = record {
  exclusive = began-Exclusive s id file z f;
  never_idle = λ none_up. absurd (cc (start_upload_self id file s, none_up id in_array));
}
  where
    in_array : contains (start_upload id file s).transfers id ≡ true
    in_array = rw (start_upload-transfers id file s, p) (contains-split before after id)

pub process_queue-Disciplined : (s : State) → Exclusive s → Disciplined (process_queue s)
unfolding active_count
process_queue-Disciplined s e = elim (process_queue-Handover s) [
  | inr r ↦ Handover-Disciplined s (process_queue s) r.0 r.1 e
  | inl r ↦ rw r.1 (record {
    exclusive = e;
    never_idle = λ none_up.
        (let (j, m, u) = active_count_pos s.heap s.transfers r.0 in absurd (cc (none_up j m)));
  })
]

-- A change that starts nothing, and then `processQueue`.
pub Shrinks-process_queue :
    (s t : State) → Shrinks s t → Disciplined s → Disciplined (process_queue t)
Shrinks-process_queue s t h d = process_queue-Disciplined t (Shrinks-Exclusive s t h d.exclusive)
