-- ===== src/Notifications/Counts.antt =====
-- The counters of fruitsalade/webapp/js/notifications.js: how many notifications are kept, how
-- many are unread, what the badge says, and how many event sources are open.
use fruit_salade.Base.{
  ℕ, zero, suc, ◌+◌, ◌≤◌, String, ◌≡◌, refl, sym, ap, ◌∙◌, inl, inr, false, Option, none, some,
  List, [], ◌∷◌, arith, ltb, if◌then◌else◌, ==_refl, Bool-cases, Option-cases, length, take,
  is_empty, or_text,
}
use fruit_salade.Notifications.Model.{
  EventData, Notification, Target, stay, trash, browser, viewer, Badge, hidden, many, number,
  Center, max_notifications, disconnect, open_source, connect, update_badge, dismiss_toast,
  show_toast, notification, keep_newest, on_event, Incoming, file_created, file_modified,
  file_deleted, file_versioned, message, receive, open_panel, close_panel, toggle_panel,
  navigate_to_file, go_to, click_toast, get_elem?, mark_read, click_read, click_item, all_read,
  mark_all_read, clear_all, Happening, connects, disconnects, receives, toggles, closes,
  clicks_toast, clicks_item, toast_times_out, toast_removed, marks_all_read, clears_all, ticks,
  step, run, start,
}

abbrev pub unread : List Notification → ℕ
unread [] = 0
unread (n ∷ ns) = let rest = unread ns in if n.read then rest else suc rest

abbrev pub badge_for : ℕ → Badge
badge_for n = if ltb 0 n then (if ltb 99 n then many else number n) else hidden

-- The one event source that is open is the one that the module knows.
abbrev pub sources_of : Option ℕ → List ℕ
sources_of none = []
sources_of (some n) = n ∷ []

pub record IsSound (s : Center) : Type 0 where
  pub bounded : length s.notifications ≤ 50
  pub counted : unread s.notifications ≤ s.unread_count
  pub badge_right : s.badge ≡ badge_for s.unread_count
  pub one_source : s.open_sources ≡ sources_of s.source

length-take : (k : ℕ) (ns : List Notification) → length (take k ns) ≤ k
length-take zero ns = omega arith
length-take (suc k) [] = omega arith
length-take (suc k) (n ∷ ns) = omega (arith, length-take k ns)

unread-take : (k : ℕ) (ns : List Notification) → unread (take k ns) ≤ unread ns
unread-take zero ns = omega arith
unread-take (suc k) [] = omega arith
unread-take (suc k) (n ∷ ns) = ground (arith, unread-take k ns)

unread-all_read : (ns : List Notification) → unread (all_read ns) ≡ 0
unfolding all_read
unread-all_read [] = refl
unread-all_read (n ∷ ns) = unread-all_read ns

length-all_read : (ns : List Notification) → length (all_read ns) ≡ length ns
unfolding all_read
length-all_read [] = refl
length-all_read (n ∷ ns) = ap suc (length-all_read ns)

length-mark_read : (ns : List Notification) (i : ℕ) → length (mark_read ns i) ≡ length ns
unfolding mark_read
length-mark_read [] i = refl
length-mark_read (n ∷ ns) zero = refl
length-mark_read (n ∷ ns) (suc i) = ap suc (length-mark_read ns i)

unread-mark_read :
    (ns : List Notification) (i : ℕ) (n : Notification)
    → get_elem? ns i ≡ some n
    → n.read ≡ false
    → suc (unread (mark_read ns i)) ≡ unread ns
unfolding mark_read
unread-mark_read [] i n e r = cc
unread-mark_read (m ∷ ns) zero n e r = ground arith
unread-mark_read (m ∷ ns) (suc i) n e r = ground (arith, unread-mark_read ns i n e r)

disconnect-IsSound : (s : Center) → IsSound s → IsSound (disconnect s)
unfolding disconnect
disconnect-IsSound s h = elim (Option-cases s.source) [
  | inl e ↦ rw (e, disconnect) h
  | inr (n, e) ↦
      rw (e, disconnect)
        (record {
          bounded = h.bounded;
          counted = h.counted;
          badge_right = h.badge_right;
          one_source = rw (h.one_source, e, ==_refl n) refl;
        })
]

connect-IsSound : (token : Option String) (s : Center) → IsSound s → IsSound (connect token s)
unfolding connect
connect-IsSound none s h = disconnect-IsSound s h
connect-IsSound (some t) s h = elim (Bool-cases (is_empty t)) [
  | inl e ↦ rw e (disconnect-IsSound s h)
  | inr e ↦ rw e (opened (disconnect s) (disconnect-IsSound s h) closed)
]
  where
    opened : (c : Center) → IsSound c → c.source ≡ none → IsSound (open_source c)
    opened c k z =
        unfold open_source in
        (record {
          bounded = k.bounded;
          counted = k.counted;
          badge_right = k.badge_right;
          one_source = rw (k.one_source, z) refl;
        })

    closed : (disconnect s).source ≡ none
    closed =
        unfold disconnect in
        elim (Option-cases s.source) [
          | inl e ↦ rw (e, disconnect) e
          | inr (n, e) ↦ rw (e, disconnect) refl
        ]

length-keep_newest : (ns : List Notification) → length (keep_newest ns) ≤ 50
unfolding keep_newest
length-keep_newest ns = elim (Bool-cases (ltb max_notifications (length ns))) [
  | inl e ↦ rw e (length-take max_notifications ns)
  | inr e ↦ rw e (ground arith)
]

unread-keep_newest : (ns : List Notification) → unread (keep_newest ns) ≤ unread ns
unfolding keep_newest
unread-keep_newest ns = elim (Bool-cases (ltb max_notifications (length ns))) [
  | inl e ↦ rw e (unread-take max_notifications ns)
  | inr e ↦ rw e (omega arith)
]

on_event-IsSound :
    (kind : String) (d : EventData) (s : Center) → IsSound s → IsSound (on_event kind d s)
unfolding on_event show_toast update_badge
on_event-IsSound kind d s h =
    let all = notification kind d s.now ∷ s.notifications in
    record {
      bounded = length-keep_newest all;
      counted = omega (arith, unread-keep_newest all, h.counted);
      badge_right = refl;
      one_source = h.one_source;
    }

receive-IsSound : (i : Incoming) (d : EventData) (s : Center) → IsSound s → IsSound (receive i d s)
unfolding receive
receive-IsSound file_created d s h = on_event-IsSound "create" d s h
receive-IsSound file_modified d s h = on_event-IsSound "modify" d s h
receive-IsSound file_deleted d s h = on_event-IsSound "delete" d s h
receive-IsSound file_versioned d s h = on_event-IsSound "version" d s h
receive-IsSound message d s h = on_event-IsSound (or_text d.kind "modify") d s h

-- A change of none of the counted fields.
same-IsSound :
    (s t : Center)
    → t.notifications ≡ s.notifications
    → t.unread_count ≡ s.unread_count
    → t.badge ≡ s.badge
    → t.open_sources ≡ s.open_sources
    → t.source ≡ s.source
    → IsSound s
    → IsSound t
same-IsSound s t a b c o e h = record {
  bounded = rw a h.bounded;
  counted = rw (a, b) h.counted;
  badge_right = c ∙ h.badge_right ∙ ap badge_for (sym b);
  one_source = o ∙ h.one_source ∙ ap sources_of (sym e);
}

go_to-IsSound : (t : Target) (s : Center) → IsSound s → IsSound (go_to t s)
unfolding go_to
go_to-IsSound stay s h = h
go_to-IsSound trash s h = same-IsSound s _ refl refl refl refl refl h
go_to-IsSound (browser p) s h = same-IsSound s _ refl refl refl refl refl h
go_to-IsSound (viewer p) s h = same-IsSound s _ refl refl refl refl refl h

click_read-IsSound :
    (i : ℕ) (n : Notification) (s : Center)
    → get_elem? s.notifications i ≡ some n
    → IsSound s
    → IsSound (click_read i n s)
unfolding click_read update_badge
click_read-IsSound i n s e h = elim (Bool-cases n.read) [
  | inl r ↦ simp r h
  | inr r ↦ simp r (record {
    bounded = omega (arith, length-mark_read s.notifications i, h.bounded);
    counted = omega (arith, unread-mark_read s.notifications i n e r, h.counted);
    badge_right = refl;
    one_source = h.one_source;
  })
]

click_item-IsSound : (i : ℕ) (s : Center) → IsSound s → IsSound (click_item i s)
unfolding click_item close_panel
click_item-IsSound i s h = elim (Option-cases (get_elem? s.notifications i)) [
  | inl e ↦ rw (e, click_item) h
  | inr (n, e) ↦
      rw (e, click_item)
        (go_to-IsSound (navigate_to_file n) _ (
          same-IsSound (click_read i n s) _ refl refl refl refl refl
            (click_read-IsSound i n s e h)))
]

-- Every happening keeps the counters sound.
step-IsSound : (e : Happening) (s : Center) → IsSound s → IsSound (step e s)
unfolding step click_toast dismiss_toast toggle_panel open_panel close_panel mark_all_read clear_all
    update_badge
step-IsSound (connects token) s h = connect-IsSound token s h
step-IsSound disconnects s h = disconnect-IsSound s h
step-IsSound (receives i d) s h = receive-IsSound i d s h
step-IsSound toggles s h =
    same-IsSound s _ (ground arith) (ground arith) (ground arith) (ground arith) (ground arith) h
step-IsSound closes s h = same-IsSound s _ refl refl refl refl refl h
step-IsSound (clicks_toast i n) s h =
    go_to-IsSound (navigate_to_file n) _
      (same-IsSound s (dismiss_toast i s) refl refl refl refl refl h)
step-IsSound (clicks_item i) s h = click_item-IsSound i s h
step-IsSound (toast_times_out n) s h = same-IsSound s _ refl refl refl refl refl h
step-IsSound (toast_removed n) s h = same-IsSound s _ refl refl refl refl refl h
step-IsSound marks_all_read s h = record {
  bounded = omega (arith, length-all_read s.notifications, h.bounded);
  counted = omega (arith, unread-all_read s.notifications);
  badge_right = refl;
  one_source = h.one_source;
}
step-IsSound clears_all s h = record {
  bounded = omega arith;
  counted = omega arith;
  badge_right = refl;
  one_source = h.one_source;
}
step-IsSound (ticks n) s h = same-IsSound s _ refl refl refl refl refl h

run-IsSound_from : (es : List Happening) (s : Center) → IsSound s → IsSound (run es s)
unfolding run
run-IsSound_from [] s h = h
run-IsSound_from (e ∷ es) s h = run-IsSound_from es (step e s) (step-IsSound e s h)

-- After any happenings since the start of the page at most 50 notifications are kept, at most as
-- many of them are unread as the counter says, the badge shows the counter, and exactly the event
-- source that the module knows is open.
pub run-IsSound : (es : List Happening) → IsSound (run es start)
run-IsSound es =
    run-IsSound_from es start (record {
      bounded = omega arith;
      counted = omega arith;
      badge_right = refl;
      one_source = refl;
    })

unread-le-length : (ns : List Notification) → unread ns ≤ length ns
unread-le-length [] = omega arith
unread-le-length (n ∷ ns) = ground (arith, unread-le-length ns)

unread-take_all :
    (k : ℕ) (ns : List Notification)
    → unread ns ≡ length ns
    → k ≤ length ns
    → unread (take k ns) ≡ k
unread-take_all zero ns u h = refl
unread-take_all (suc k) [] u h = absurd (omega arith)
unread-take_all (suc k) (n ∷ ns) u h = ground (arith, unread-take_all k ns, unread-le-length ns)

newest_all :
    (n : Notification) (ns : List Notification)
    → n.read ≡ false
    → length ns ≡ 50
    → unread ns ≡ 50
    → unread (keep_newest (n ∷ ns)) ≡ 50
newest_all n ns r l u = rw cut (unread-take_all 50 (n ∷ ns) (rw r (omega arith)) (omega arith))
  where
    cut : keep_newest (n ∷ ns) ≡ take 50 (n ∷ ns)
    cut = unfold keep_newest in rw l refl

-- With 50 notifications, all unread, one more event leaves 50 unread ones, but the counter goes up:
-- it counts the one that has fallen out of the list.
pub on_event_drifts :
    (kind : String) (d : EventData) (s : Center)
    → length s.notifications ≡ 50
    → unread s.notifications ≡ 50
    → (unread (on_event kind d s).notifications ≡ 50)
      × ((on_event kind d s).unread_count ≡ s.unread_count + 1)
unfolding on_event show_toast update_badge
on_event_drifts kind d s l u =
    (newest_all (notification kind d s.now) s.notifications refl l u, refl)
