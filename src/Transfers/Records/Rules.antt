-- ===== src/Transfers/Records/Rules.antt =====
-- What ties the objects of fruitsalade/webapp/js/transfers.js to their ids and their stored
-- records, and the kind of change that keeps it.
use fruit_salade.Base.{
  ℕ, ◌<◌, ◌≡◌, refl, sym, subst, ◌∙◌, inl, inr, true, false, Option, none, some, List, [], ◌∷◌,
  ◌++◌, arith, ◌==◌, ==→≡, Bool-cases, contains, IsNodup, contains-append, All, contains-split,
}
use fruit_salade.Transfers.Model.{still, File, Saved, State}
use fruit_salade.Transfers.Store.{update_badge, render_panel}
use fruit_salade.Transfers.Upload.{
  upload_small, init_chunked, resume_chunked, start_upload, choose_path, process_queue,
}
use fruit_salade.Transfers.Discipline.Rules.{uploads}
use fruit_salade.Transfers.Queue.{Handover, nothing, began, process_queue-Handover}

-- The fields that are written whenever they change; `loaded` and `speed` lag behind.
abbrev pub durable : Saved → Saved
durable r = record r { loaded = 0; speed = still }

abbrev pub durable_of : Option Saved → Option Saved
durable_of none = none
durable_of (some r) = some (durable r)

-- The stored record of an object has the object's fields.
abbrev pub Mirrored : State → ℕ → Type 0
Mirrored s j = durable_of (s.db j) ≡ some (durable (s.heap j).saved)

abbrev pub ids_of : List (ℕ × File) → List ℕ
ids_of [] = []
ids_of ((id, file) ∷ rest) = id ∷ ids_of rest

-- The ids of the array, and of the records that wait for the database.
abbrev pub held : State → List ℕ
held s = s.transfers ++ ids_of s.storing

pub record Tidy (s : State) : Type 0 where
  pub nodup : IsNodup (held s)
  pub below : All (λ j. j < s.next_key) (held s)
  pub waiting : All (λ j. uploads s j ≡ false) (ids_of s.storing)
  pub mirrored : All (Mirrored s) (held s)

-- A change of objects of the array only, each change of a lasting field stored at once.
pub record Frame (s t : State) : Type 0 where
  pub same_storing : t.storing ≡ s.storing
  pub same_key : t.next_key ≡ s.next_key
  pub same_array : t.transfers ≡ s.transfers
  pub starts : (j : ℕ) → contains s.transfers j ≡ false → uploads s j ≡ false → uploads t j ≡ false
  pub mirrors : (j : ℕ) → Mirrored s j → Mirrored t j

pub Frame-refl : (s : State) → Frame s s
Frame-refl s = record {
  same_storing = refl;
  same_key = refl;
  same_array = refl;
  starts = λ j m u. u;
  mirrors = λ j m. m;
}

pub Frame-trans : (s t u : State) → Frame s t → Frame t u → Frame s u
Frame-trans s t u p q = record {
  same_storing = q.same_storing ∙ p.same_storing;
  same_key = q.same_key ∙ p.same_key;
  same_array = q.same_array ∙ p.same_array;
  starts =
      λ j m h. q.starts j (subst (λ l. contains l j ≡ false) (sym p.same_array) m) (p.starts j m h);
  mirrors = λ j m. q.mirrors j (p.mirrors j m);
}

-- In a list without duplicates, the second part has nothing of the first.
pub IsNodup-apart : (xs ys : List ℕ) → IsNodup (xs ++ ys) → All (λ j. contains xs j ≡ false) ys
IsNodup-apart [] ys h j m = refl
IsNodup-apart (x ∷ xs) ys h j m = elim (Bool-cases (x == j)) [
  | inr e ↦ ground (arith, IsNodup-apart xs ys h.1 j m)
  | inl e ↦ absurd (cc (subst (λ k. contains ys k ≡ true) (sym (==→≡ x j e)) m, apart))
]
  where
    apart : contains ys x ≡ false
    apart = ground (arith, h.0, contains-append xs ys x)

pub Frame-Tidy : (s t : State) → Frame s t → Tidy s → Tidy t
Frame-Tidy s t f d = record {
  nodup = rw same_held d.nodup;
  below = λ j m. rw f.same_key (d.below j (in_s j m));
  waiting = λ j m.
      f.starts j (IsNodup-apart s.transfers (ids_of s.storing) d.nodup j (in_waiting j m))
        (d.waiting j (in_waiting j m));
  mirrored = λ j m. f.mirrors j (d.mirrored j (in_s j m));
}
  where
    same_held : held t ≡ held s
    same_held = rw (f.same_array, f.same_storing) refl

    in_s : (j : ℕ) → contains (held t) j ≡ true → contains (held s) j ≡ true
    in_s j m = subst (λ l. contains l j ≡ true) same_held m

    in_waiting :
        (j : ℕ) → contains (ids_of t.storing) j ≡ true → contains (ids_of s.storing) j ≡ true
    in_waiting j m = subst (λ l. contains (ids_of l) j ≡ true) f.same_storing m

-- `startUpload` of an object of the array, and with it `processQueue`, is such a change.
start_upload-Frame :
    (id : ℕ) (file : File) (s : State)
    → contains s.transfers id ≡ true
    → Frame s (start_upload id file s)
unfolding start_upload choose_path upload_small init_chunked resume_chunked render_panel
    update_badge
start_upload-Frame id file s m = record {
  same_storing = ground arith;
  same_key = ground arith;
  same_array = ground arith;
  starts = λ j n u. ground (arith, ==→≡ id j);
  mirrors = λ j r. ground arith;
}

Handover-Frame : (s t : State) → Handover s.transfers s t → Frame s t
Handover-Frame s t (nothing h) = Frame-refl s
Handover-Frame s t (began id file before after p h q f) =
    start_upload-Frame id file s (rw p (contains-split before after id))

pub process_queue-Frame : (s : State) → Frame s (process_queue s)
process_queue-Frame s = elim (process_queue-Handover s) [
  | inl r ↦ rw r.1 (Frame-refl s)
  | inr r ↦ Handover-Frame s (process_queue s) r.1
]

pub Frame-process_queue : (s t : State) → Frame s t → Frame s (process_queue t)
Frame-process_queue s t f = Frame-trans s t (process_queue t) f (process_queue-Frame t)
