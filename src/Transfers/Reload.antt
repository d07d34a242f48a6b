-- ===== src/Transfers/Reload.antt =====
-- The start of the page in fruitsalade/webapp/js/transfers.js: `init` on what the database holds.
use fruit_salade.Base.{
  ℕ, zero, suc, ◌<◌, ◌≡◌, refl, sym, subst, ◌∙◌, inl, inr, true, false, ◌&&◌, Option, none, some,
  List, [], ◌∷◌, ◌++◌, append-nil, arith, ltb, ◌==◌, if◌then◌else◌, ==→≡, ==_refl, Bool-cases,
  is_some, or_else, contains, IsNodup, contains-append, IsNodup-snoc,
}
use fruit_salade.Transfers.Model.{paused, Saved, State}
use fruit_salade.Transfers.Store.{
  is_uploading, status_of, file_of, modify_saved, db_put, update_badge, render_panel,
}
use fruit_salade.Transfers.Actions.{
  no_record, keys_below, get_all, pause_interrupted, fresh_page, init,
}
use fruit_salade.Transfers.Discipline.Rules.{uploads, Disciplined}
use fruit_salade.Transfers.Records.Rules.{Tidy, Frame, Frame-refl, Frame-trans, Frame-Tidy}
use fruit_salade.Transfers.Records.Answers.{Frame-of, Frame-aside}

-- Every record is stored under a key that the database has given out.
abbrev pub KeysGiven : (ℕ → Option Saved) → ℕ → Type 0
KeysGiven db key = (j : ℕ) → is_some (db j) ≡ true → j < key

pub keys_below-contains :
    (k : ℕ) (db : ℕ → Option Saved) (j : ℕ)
    → contains (keys_below k db) j ≡ (ltb j k && is_some (db j))
unfolding keys_below
keys_below-contains zero db j = ground arith
keys_below-contains (suc k) db j = elim (Bool-cases (k == j)) [
  | inl e ↦
      subst (λ i. contains (keys_below (suc k) db) i ≡ (ltb i (suc k) && is_some (db i)))
        (==→≡ k j e)
        (ground (
          arith,
          keys_below-contains k db k,
          contains-append (keys_below k db) (k ∷ []) k,
          ==_refl k,
        ))
  | inr e ↦ ground (arith, keys_below-contains k db j, contains-append (keys_below k db) (k ∷ []) j)
]

keys_below-IsNodup : (k : ℕ) (db : ℕ → Option Saved) → IsNodup (keys_below k db)
unfolding keys_below
keys_below-IsNodup zero db = tt
keys_below-IsNodup (suc k) db = elim (Bool-cases (is_some (db k))) [
  | inr e ↦ rw (e, keys_below) (keys_below-IsNodup k db)
  | inl e ↦
      rw (e, keys_below)
        (IsNodup-snoc (keys_below k db) k (keys_below-IsNodup k db)
          (ground (arith, keys_below-contains k db k)))
]

-- The loop of `init`.
pause_interrupted-Frame : (ids : List ℕ) (s : State) → Frame s (pause_interrupted ids s)
unfolding pause_interrupted
pause_interrupted-Frame [] s = Frame-refl s
pause_interrupted-Frame (id ∷ ids) s = elim (Bool-cases (is_uploading (status_of s id))) [
  | inr e ↦ rw (e, pause_interrupted) (pause_interrupted-Frame ids s)
  | inl e ↦
      rw (e, pause_interrupted)
        (Frame-trans s _ _
          (Frame-of s
            (db_put id (modify_saved (λ t. record t { status = paused; needs_file = true }) id s))
            refl refl refl (λ j m u. ground arith) (λ j m. ground arith))
          (pause_interrupted-Frame ids _))
]

-- What `init` makes of a stored record.
abbrev pub interrupted : Saved → Saved
interrupted r = if is_uploading r.status then record r { status = paused; needs_file = true } else r

pause_interrupted-saved :
    (ids : List ℕ) (s : State) (j : ℕ)
    → ((pause_interrupted ids s).heap j).saved
      ≡ (if contains ids j then interrupted (s.heap j).saved else (s.heap j).saved)
unfolding pause_interrupted
pause_interrupted-saved [] s j = refl
pause_interrupted-saved (id ∷ ids) s j =
    ground (arith, pause_interrupted-saved ids (pause_interrupted (id ∷ []) s) j, ==→≡ id j)

pause_interrupted-file :
    (ids : List ℕ) (s : State) (j : ℕ) → file_of (pause_interrupted ids s) j ≡ file_of s j
unfolding pause_interrupted
pause_interrupted-file [] s j = refl
pause_interrupted-file (id ∷ ids) s j =
    ground (arith, pause_interrupted-file ids (pause_interrupted (id ∷ []) s) j, ==→≡ id j)

pause_interrupted-db :
    (ids : List ℕ) (s : State) (j : ℕ)
    → (pause_interrupted ids s).db j ≡ (
        if contains ids j && is_uploading (status_of s j)
        then some (interrupted (s.heap j).saved)
        else s.db j)
unfolding pause_interrupted
pause_interrupted-db [] s j = refl
pause_interrupted-db (id ∷ ids) s j =
    ground (arith, pause_interrupted-db ids (pause_interrupted (id ∷ []) s) j, ==→≡ id j)

-- `init` but for what it draws.
init_fields :
    (db : ℕ → Option Saved) (key clock : ℕ)
    → let s = fresh_page db key clock in
      let t = pause_interrupted s.transfers s in
      let u = init db key clock in
      (u.heap ≡ t.heap)
      × (u.db ≡ t.db)
      × (u.transfers ≡ t.transfers)
      × (u.storing ≡ t.storing)
      × (u.next_key ≡ t.next_key)
unfolding init update_badge render_panel
init_fields db key clock = (ground arith, ground arith, ground arith, ground arith, ground arith)

fresh_page-Tidy :
    (db : ℕ → Option Saved) (key clock : ℕ) → KeysGiven db key → Tidy (fresh_page db key clock)
unfolding fresh_page get_all
fresh_page-Tidy db key clock given = record {
  nodup = rw append-nil (keys_below-IsNodup key db);
  below = λ j m. ground (arith, here j m);
  waiting = λ j m. cc;
  mirrored = λ j m. ground (arith, here j m);
}
  where
    here :
        (j : ℕ) → contains (keys_below key db ++ []) j ≡ true → (ltb j key && is_some (db j)) ≡ true
    here j m = sym (keys_below-contains key db j) ∙ rw append-nil at m

pub init-Tidy :
    (db : ℕ → Option Saved) (key clock : ℕ) → KeysGiven db key → Tidy (init db key clock)
init-Tidy db key clock given =
    let s = fresh_page db key clock in
    let t = pause_interrupted s.transfers s in
    let (h, d, ts, st, k) = init_fields db key clock in
    Frame-Tidy t (init db key clock) (Frame-aside t (init db key clock) st k ts h d)
      (Frame-Tidy s t (pause_interrupted-Frame s.transfers s) (fresh_page-Tidy db key clock given))

module _ (db : ℕ → Option Saved) (key clock : ℕ) where
  pub init-transfers : (init db key clock).transfers ≡ keys_below key db
  unfolding fresh_page
  init-transfers =
      let s = fresh_page db key clock in
      rw ((init_fields db key clock).2, (pause_interrupted-Frame s.transfers s).same_array) refl

  init-saved :
      (j : ℕ)
      → contains (keys_below key db) j ≡ true
      → ((init db key clock).heap j).saved ≡ interrupted (or_else (db j) no_record)
  unfolding fresh_page get_all
  init-saved j m =
      let s = fresh_page db key clock in
      rw (init_fields db key clock).0 (ground (arith, pause_interrupted-saved s.transfers s j))

  init-file : (j : ℕ) → file_of (init db key clock) j ≡ none
  unfolding fresh_page get_all
  init-file j =
      let s = fresh_page db key clock in
      rw (init_fields db key clock).0 (ground (arith, pause_interrupted-file s.transfers s j))

  init-db :
      (j : ℕ)
      → contains (keys_below key db) j ≡ true
      → (init db key clock).db j ≡ some (interrupted (or_else (db j) no_record))
  unfolding fresh_page get_all
  init-db j m =
      let s = fresh_page db key clock in
      rw (init_fields db key clock).1
        (ground (arith, pause_interrupted-db s.transfers s j, keys_below-contains key db j))

-- After a reload the array holds exactly the stored records, each as it was stored, but for those
-- that were uploading: they are paused and want their file. No object has its file, and the changed
-- records are stored.
pub init_restores :
    (db : ℕ → Option Saved) (key clock : ℕ)
    → KeysGiven db key
    → let s = init db key clock in
      (j : ℕ)
      → (contains s.transfers j ≡ is_some (db j))
        × (file_of s j ≡ none)
        × ((r : Saved)
            → db j ≡ some r
            → ((s.heap j).saved ≡ interrupted r) × (s.db j ≡ some (interrupted r)))
init_restores db key clock given j = (
  rw (init-transfers db key clock) (ground (arith, keys_below-contains key db j, given j)),
  init-file db key clock j,
  λ r e. (
    ground (arith, init-saved db key clock j (here r e)),
    ground (arith, init-db db key clock j (here r e)),
  ),
)
  where
    here : (r : Saved) → db j ≡ some r → contains (keys_below key db) j ≡ true
    here r e = ground (arith, keys_below-contains key db j, given j)

-- Nothing is uploading, and without its file nothing could be.
pub init-Disciplined : (db : ℕ → Option Saved) (key clock : ℕ) → Disciplined (init db key clock)
init-Disciplined db key clock = record {
  exclusive = record {
    one_upload = λ i j mi mj ui uj. absurd (cc (still i mi));
    with_file = λ i m u. absurd (cc (still i m));
  };
  never_idle = λ none_up j m. ground (arith, init-file db key clock j);
}
  where
    still :
        (j : ℕ)
        → contains (init db key clock).transfers j ≡ true
        → uploads (init db key clock) j ≡ false
    still j m = ground (
      arith,
      init-saved db key clock j (subst (λ l. contains l j ≡ true) (init-transfers db key clock) m),
    )
