-- ===== src/Transfers/Records/Clear.antt =====
-- `clearCompleted` of fruitsalade/webapp/js/transfers.js: the completed transfers leave the array
-- and the database, and no other does.
use fruit_salade.Base.{
  ℕ, ◌≡◌, refl, subst, inl, inr, Bool, true, false, not, ◌&&◌, none, List, [], ◌∷◌, ◌++◌, arith,
  ◌==◌, if◌then◌else◌, ==→≡, ==_refl, Bool-cases, contains, IsNodup, contains-append,
}
use fruit_salade.Transfers.Model.{Transfer, State}
use fruit_salade.Transfers.Store.{
  is_completed, status_of, db_delete, hide_panel, update_badge, render_panel,
}
use fruit_salade.Transfers.Actions.{remaining, delete_completed, clear_completed}
use fruit_salade.Transfers.Records.Rules.{ids_of, held, Tidy, IsNodup-apart}

abbrev pub completes : (ℕ → Transfer) → ℕ → Bool
completes h j = is_completed (h j).saved.status

pub contains-remaining :
    (h : ℕ → Transfer) (ids : List ℕ) (j : ℕ)
    → contains (remaining h ids) j ≡ (contains ids j && not (completes h j))
unfolding remaining
contains-remaining h [] j = refl
contains-remaining h (id ∷ ids) j = elim (Bool-cases (id == j)) [
  | inl e ↦
      subst
        (λ k. contains (remaining h (id ∷ ids)) k ≡ (contains (id ∷ ids) k && not (completes h k)))
        (==→≡ id j e) (ground (arith, contains-remaining h ids id, ==_refl id))
  | inr e ↦ ground (arith, contains-remaining h ids j)
]

contains-remaining-append :
    (h : ℕ → Transfer) (ids ys : List ℕ) (j : ℕ)
    → contains (remaining h ids ++ ys) j ≡ true
    → contains (ids ++ ys) j ≡ true
contains-remaining-append h ids ys j m = ground (
  arith,
  contains-append (remaining h ids) ys j,
  contains-append ids ys j,
  contains-remaining h ids j,
)

absent :
    (h : ℕ → Transfer) (ids ys : List ℕ) (j : ℕ)
    → contains (ids ++ ys) j ≡ false
    → contains (remaining h ids ++ ys) j ≡ false
absent h ids ys j n = elim (Bool-cases (contains (remaining h ids ++ ys) j)) [
  | inr e ↦ e
  | inl e ↦ absurd (cc (contains-remaining-append h ids ys j e))
]

remaining-IsNodup :
    (h : ℕ → Transfer) (ids ys : List ℕ) → IsNodup (ids ++ ys) → IsNodup (remaining h ids ++ ys)
unfolding remaining
remaining-IsNodup h [] ys d = d
remaining-IsNodup h (id ∷ ids) ys d = elim (Bool-cases (completes h id)) [
  | inl e ↦ rw (e, remaining) (remaining-IsNodup h ids ys d.1)
  | inr e ↦ rw (e, remaining) (absent h ids ys id d.0, remaining-IsNodup h ids ys d.1)
]

-- The deletions touch the database only, and there the completed transfers of the array only.
delete_completed-aside :
    (ids : List ℕ) (s : State)
    → let t = delete_completed ids s in
      (t.heap ≡ s.heap) × (t.storing ≡ s.storing) × (t.next_key ≡ s.next_key)
unfolding delete_completed
delete_completed-aside [] s = (refl, refl, refl)
delete_completed-aside (id ∷ ids) s = elim (Bool-cases (is_completed (status_of s id))) [
  | inr e ↦ rw (e, delete_completed) (delete_completed-aside ids s)
  | inl e ↦ rw (e, delete_completed) (delete_completed-aside ids (db_delete id s))
]

pub delete_completed-db :
    (ids : List ℕ) (s : State) (j : ℕ)
    → (delete_completed ids s).db j
      ≡ (if contains ids j && is_completed (status_of s j) then none else s.db j)
unfolding delete_completed
delete_completed-db [] s j = refl
delete_completed-db (id ∷ ids) s j = elim (Bool-cases (is_completed (status_of s id))) [
  | inr e ↦ rw (e, delete_completed) (ground (arith, delete_completed-db ids s j, ==→≡ id j))
  | inl e ↦
      rw (e, delete_completed)
        (ground (arith, delete_completed-db ids (db_delete id s) j, ==→≡ id j))
]

pub clear_completed_fields :
    (s : State)
    → let t = clear_completed s in
      (t.transfers ≡ remaining s.heap s.transfers)
      × (t.storing ≡ s.storing)
      × (t.next_key ≡ s.next_key)
      × (t.heap ≡ s.heap)
      × (t.db ≡ (delete_completed s.transfers s).db)
unfolding clear_completed update_badge render_panel hide_panel
clear_completed_fields s =
    let (h, st, k) = delete_completed-aside s.transfers s in
    (ground arith, ground (arith, st), ground (arith, k), ground (arith, h), ground arith)

pub clear_completed-Tidy : (s : State) → Tidy s → Tidy (clear_completed s)
clear_completed-Tidy s d = record {
  nodup = rw whole (remaining-IsNodup s.heap s.transfers (ids_of s.storing) d.nodup);
  below = λ j m. rw f.2 (d.below j (still j m));
  waiting = λ j m. rw f.3 (d.waiting j (subst (λ l. contains (ids_of l) j ≡ true) f.1 m));
  mirrored = λ j m.
      rw (f.3, f.4, delete_completed-db s.transfers s j, kept j m) (d.mirrored j (still j m));
}
  where
    f :
        ((clear_completed s).transfers ≡ remaining s.heap s.transfers)
        × ((clear_completed s).storing ≡ s.storing)
        × ((clear_completed s).next_key ≡ s.next_key)
        × ((clear_completed s).heap ≡ s.heap)
        × ((clear_completed s).db ≡ (delete_completed s.transfers s).db)
    f = clear_completed_fields s

    whole : held (clear_completed s) ≡ remaining s.heap s.transfers ++ ids_of s.storing
    whole = rw (f.0, f.1) refl

    in_parts :
        (j : ℕ)
        → contains (held (clear_completed s)) j ≡ true
        → contains (remaining s.heap s.transfers ++ ids_of s.storing) j ≡ true
    in_parts j m = subst (λ l. contains l j ≡ true) whole m

    still : (j : ℕ) → contains (held (clear_completed s)) j ≡ true → contains (held s) j ≡ true
    still j m = contains-remaining-append s.heap s.transfers (ids_of s.storing) j (in_parts j m)

    kept :
        (j : ℕ)
        → contains (held (clear_completed s)) j ≡ true
        → (contains s.transfers j && is_completed (status_of s j)) ≡ false
    kept j m = ground (
      arith,
      in_parts j m,
      contains-append (remaining s.heap s.transfers) (ids_of s.storing) j,
      contains-remaining s.heap s.transfers j,
      IsNodup-apart s.transfers (ids_of s.storing) d.nodup j,
    )
