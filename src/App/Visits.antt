-- ===== src/App/Visits.antt =====
-- Every visit to the page of fruitsalade/webapp/js/app.js.
use fruit_salade.Base.{
  ◌-◌, String, ◌≡◌, refl, inl, inr, Bool, true, false, not, Option, List, [], ◌∷◌, ◌==◌, Bool-cases,
  is_empty, listed,
}
use fruit_salade.Api.Model.{Session, is_authenticated}
use fruit_salade.App.Model.{
  Theme, Shell, get_route, close_more_menu, open_more_menu, update_tab_bar, share_frame, show_frame,
  show_route, navigate, hash_changed, leave, logout_topbar, logout_menu, toggle_user_menu,
  click_outside, update_theme_label, init_theme, toggle_theme, search_for, search_shortcut,
  on_media_change, Visit, goes, hash_fires, signs_in, token_refused, logs_out_topbar, logs_out_menu,
  taps_more, closes_more, toggles_user, clicks_outside, toggles_bell, media_changes, toggles_theme,
  presses_shortcut, searches, after_visit, after_visits, load,
}
use fruit_salade.Notifications.Model.{Center}
use fruit_salade.App.Frames.{
  IsLabelled, IsConsistent, set_hash-IsConsistent, navigate-IsConsistent, flags-IsGoodFrame,
}

on_media_change-IsConsistent :
    (mobile : Bool) (s : Shell) → IsConsistent s → IsConsistent (on_media_change mobile s)
unfolding on_media_change close_more_menu
on_media_change-IsConsistent true s h = record {
  good_frame = record {
    apart = h.good_frame.apart;
    bar_in_layout = h.good_frame.bar_in_layout;
    tabs_on_mobile = λ e. refl;
    tree_in_sidebar = h.good_frame.tree_in_sidebar;
    closed_sidebar = refl;
    no_backdrop = refl;
  };
  labelled = h.labelled;
}
on_media_change-IsConsistent false s h = record {
  good_frame = record {
    apart = h.good_frame.apart;
    bar_in_layout = h.good_frame.bar_in_layout;
    tabs_on_mobile = λ e. cc;
    tree_in_sidebar = h.good_frame.tree_in_sidebar;
    closed_sidebar = refl;
    no_backdrop = refl;
  };
  labelled = h.labelled;
}

-- A change of neither the frame, the theme nor the width.
same-IsConsistent :
    (s t : Shell)
    → t.frame ≡ s.frame
    → t.theme ≡ s.theme
    → t.is_mobile ≡ s.is_mobile
    → IsConsistent s
    → IsConsistent t
same-IsConsistent s t f e m h = record {
  good_frame = rw (f, m) h.good_frame;
  labelled = rw e h.labelled;
}

dropdown-IsConsistent :
    (b : Bool) (s : Shell)
    → IsConsistent s
    → IsConsistent (record s { frame = record s.frame { user_dropdown = b } })
dropdown-IsConsistent b s h = record {
  good_frame = flags-IsGoodFrame s.is_mobile s.frame s.frame.detail_panel b h.good_frame;
  labelled = h.labelled;
}

hash_changed-IsConsistent : (s : Shell) → IsConsistent s → IsConsistent (hash_changed s)
unfolding hash_changed
hash_changed-IsConsistent s h = elim (Bool-cases (s.changes == 0)) [
  | inl e ↦ rw e h
  | inr e ↦ rw e (
      navigate-IsConsistent _
        (same-IsConsistent s (record s { changes = s.changes - 1 }) refl refl refl h))
]

leave-IsConsistent : (s : Shell) → IsConsistent s → IsConsistent (leave s)
unfolding leave
leave-IsConsistent s h = set_hash-IsConsistent "#login" _ (same-IsConsistent s _ refl refl refl h)

open_more_menu-IsConsistent : (s : Shell) → IsConsistent s → IsConsistent (open_more_menu s)
unfolding open_more_menu close_more_menu
open_more_menu-IsConsistent s h = elim (Bool-cases s.more_menu_open) [
  | inl e ↦ simp e (same-IsConsistent s _ refl refl refl h)
  | inr e ↦ simp e (same-IsConsistent s _ refl refl refl h)
]

after_visit-IsConsistent : (e : Visit) (s : Shell) → IsConsistent s → IsConsistent (after_visit e s)
unfolding after_visit logout_topbar logout_menu close_more_menu toggle_user_menu click_outside
    toggle_theme update_theme_label search_shortcut search_for
after_visit-IsConsistent (goes hash) s h = set_hash-IsConsistent hash s h
after_visit-IsConsistent hash_fires s h = hash_changed-IsConsistent s h
after_visit-IsConsistent (signs_in session) s h = same-IsConsistent s _ refl refl refl h
after_visit-IsConsistent token_refused s h =
    set_hash-IsConsistent "#login" _ (same-IsConsistent s _ refl refl refl h)
after_visit-IsConsistent logs_out_topbar s h =
    leave-IsConsistent _ (dropdown-IsConsistent false s h)
after_visit-IsConsistent logs_out_menu s h =
    leave-IsConsistent _ (same-IsConsistent s (close_more_menu s) refl refl refl h)
after_visit-IsConsistent taps_more s h = open_more_menu-IsConsistent s h
after_visit-IsConsistent closes_more s h = same-IsConsistent s _ refl refl refl h
after_visit-IsConsistent toggles_user s h = dropdown-IsConsistent (not s.frame.user_dropdown) s h
after_visit-IsConsistent clicks_outside s h =
    same-IsConsistent (record s { frame = record s.frame { user_dropdown = false } }) _ refl refl
      refl (dropdown-IsConsistent false s h)
after_visit-IsConsistent toggles_bell s h = same-IsConsistent s _ refl refl refl h
after_visit-IsConsistent (media_changes mobile) s h = on_media_change-IsConsistent mobile s h
after_visit-IsConsistent toggles_theme s h = record {
  good_frame = flags-IsGoodFrame s.is_mobile s.frame s.frame.detail_panel false h.good_frame;
  labelled = refl;
}
after_visit-IsConsistent presses_shortcut s h = elim (Bool-cases (is_authenticated s.session)) [
  | inl e ↦ simp e (set_hash-IsConsistent "#search" s h)
  | inr e ↦ simp e h
]
after_visit-IsConsistent (searches trimmed target) s h = elim (Bool-cases (is_empty trimmed)) [
  | inl e ↦ rw e h
  | inr e ↦ rw e (set_hash-IsConsistent target s h)
]

after_visits-IsConsistent :
    (es : List Visit) (s : Shell) → IsConsistent s → IsConsistent (after_visits es s)
unfolding after_visits
after_visits-IsConsistent [] s h = h
after_visits-IsConsistent (e ∷ es) s h =
    after_visits-IsConsistent es (after_visit e s) (after_visit-IsConsistent e s h)

init_theme-IsLabelled : (dark : Bool) (t : Theme) → IsLabelled (init_theme dark t)
unfolding init_theme update_theme_label
init_theme-IsLabelled dark t = refl

-- From any start of the page, after any visits: the login form and the layout are not shown
-- together, the top bar is shown in the layout only, the tab bar on a narrow screen only, the tree in
-- the sidebar only, and the theme button names the theme that is not on.
pub load-IsConsistent :
    (can_decode : String → Bool) (hash : String) (session : Session) (mobile dark : Bool)
    (saved : Option String) (center : Center) (es : List Visit)
    → IsConsistent (after_visits es (load can_decode hash session mobile dark saved center))
unfolding load
load-IsConsistent can_decode hash session mobile dark saved center es =
    after_visits-IsConsistent es _ (
      navigate-IsConsistent _ (record {
        good_frame = record {
          apart = refl;
          bar_in_layout = λ e. cc;
          tabs_on_mobile = λ e. cc;
          tree_in_sidebar = λ e. refl;
          closed_sidebar = refl;
          no_backdrop = refl;
        };
        labelled = init_theme-IsLabelled dark _;
      }))

-- On the page of a shared link there is no tab bar, but when the screen becomes narrow the tab bar
-- of the signed-in pages is shown on it.
pub on_media_change_shared :
    (s : Shell)
    → get_route s.hash ≡ "share"
    → ((navigate s).frame.tab_bar ≡ false)
      × ((on_media_change true (navigate s)).frame.tab_bar ≡ true)
unfolding navigate show_route show_frame update_tab_bar share_frame on_media_change close_more_menu
    listed
on_media_change_shared s e = rw e (refl, rw e refl)
