-- ===== src/Notifications/Bursts.antt =====
-- The limit of visible toasts of fruitsalade/webapp/js/notifications.js under a burst of events.
use fruit_salade.Base.{
  ℕ, zero, suc, ◌+◌, ◌≤◌, String, ◌≡◌, refl, ap, subst, ◌∙◌, true, false, List, [], ◌∷◌, ◌++◌,
  arith, if◌then◌else◌, length,
}
use fruit_salade.Notifications.Model.{
  EventData, Toast, Center, update_badge, make_room, show_toast, on_event,
}

abbrev pub visible : List Toast → ℕ
visible [] = 0
visible (t ∷ ts) = let rest = visible ts in if t.leaving then rest else suc rest

-- The same event a number of times, before any toast is gone from the document.
unfoldable pub burst : ℕ → String → EventData → Center → Center
burst zero kind d s = s
burst (suc n) kind d s = burst n kind d (on_event kind d s)

visible-snoc :
    (ts : List Toast) (t : Toast) → t.leaving ≡ false → visible (ts ++ t ∷ []) ≡ visible ts + 1
visible-snoc [] t h = rw h refl
visible-snoc (x ∷ ts) t h = ground (arith, visible-snoc ts t h)

length-snoc : (ts : List Toast) (t : Toast) → length (ts ++ t ∷ []) ≡ length ts + 1
length-snoc [] t = refl
length-snoc (x ∷ ts) t = ground (arith, length-snoc ts t)

-- The first toast is on its way out, and some are behind it.
record IsCrowded (n : ℕ) (ts : List Toast) : Type 0 where
  first : Toast
  others : List Toast
  parts : ts ≡ first ∷ others
  dismissed : first.leaving ≡ true
  behind : visible others ≡ n
  many_behind : 2 ≤ length others

make_room-crowded :
    (t : Toast) (ts : List Toast)
    → 2 ≤ length ts
    → make_room (t ∷ ts) ≡ record t { leaving = true } ∷ ts
unfolding make_room
make_room-crowded t ts h = ground arith

show_toast-IsCrowded :
    (n : ℕ) (s : Center) → IsCrowded n s.toasts → IsCrowded (n + 1) (show_toast s).toasts
unfolding show_toast
show_toast-IsCrowded n s h = record {
  first = record h.first { leaving = true };
  others = h.others ++ record { toast_id = s.next_toast; leaving = false } ∷ [];
  parts = rw h.parts (
      ap (λ l. l ++ record { toast_id = s.next_toast; leaving = false } ∷ [])
        (make_room-crowded h.first h.others h.many_behind));
  dismissed = refl;
  behind = visible-snoc h.others _ refl ∙ ap (λ k. k + 1) h.behind;
  many_behind = omega (
    arith,
    length-snoc h.others (record { toast_id = s.next_toast; leaving = false }),
    h.many_behind,
  );
}

burst-IsCrowded :
    (k n : ℕ) (kind : String) (d : EventData) (s : Center)
    → IsCrowded n s.toasts
    → IsCrowded (k + n) (burst k kind d s).toasts
unfolding burst on_event update_badge
burst-IsCrowded zero n kind d s h = subst (λ m. IsCrowded m s.toasts) (omega arith) h
burst-IsCrowded (suc k) n kind d s h =
    subst (λ m. IsCrowded m (burst k kind d (on_event kind d s)).toasts) (omega arith)
      (burst-IsCrowded k (n + 1) kind d (on_event kind d s) (show_toast-IsCrowded n _ h))

visible-IsCrowded : (n : ℕ) (ts : List Toast) → IsCrowded n ts → visible ts ≡ n
visible-IsCrowded n ts h = rw (h.parts, h.dismissed) h.behind

four :
    (kind : String) (d : EventData) (s : Center)
    → s.toasts ≡ []
    → IsCrowded 3 (burst 4 kind d s).toasts
unfolding burst on_event update_badge show_toast make_room
four kind d s h = rw h (record {
  first = record { toast_id = s.next_toast; leaving = true };
  others = _;
  parts = refl;
  dismissed = refl;
  behind = refl;
  many_behind = omega arith;
})

-- From a document without toasts, four events of one kind and any number of further ones, before
-- any toast is gone from the document: one toast less than there were events is not on its way out,
-- so the number of visible toasts has no limit.
pub visible-burst :
    (k : ℕ) (kind : String) (d : EventData) (s : Center)
    → s.toasts ≡ []
    → visible (burst (suc (suc (suc (suc k)))) kind d s).toasts ≡ k + 3
unfolding burst
visible-burst k kind d s h =
    visible-IsCrowded (k + 3) _ (burst-IsCrowded k 3 kind d (burst 4 kind d s) (four kind d s h))
