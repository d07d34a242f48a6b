-- ===== src/App/Frames.antt =====
-- The rules of what the frame of fruitsalade/webapp/js/app.js shows, kept by `navigate`.
use fruit_salade.Base.{
  String, ◌≡◌, refl, inl, inr, Bool, true, false, not, ◌&&◌, Option, some, arith, if◌then◌else◌,
  Bool-cases, or_text, same_text, listed,
}
use fruit_salade.Api.Model.{is_authenticated}
use fruit_salade.App.Model.{
  Page, Frame, Theme, Shell, admin_routes, more_routes, is_admin, get_route, set_hash,
  close_more_menu, update_tab_bar, login_frame, share_frame, tree_frame, main_frame, draw_page,
  show_frame, show_route, is_public, navigate,
}

-- The login form is not shown with the layout, the top bar only with it, the tab bar only on a
-- narrow screen, the tree only in the sidebar; the sidebar is never slid in.
pub record IsGoodFrame (mobile : Bool) (f : Frame) : Type 0 where
  pub apart : (f.layout && f.login_container) ≡ false
  pub bar_in_layout : f.topbar ≡ true → f.layout ≡ true
  pub tabs_on_mobile : f.tab_bar ≡ true → mobile ≡ true
  pub tree_in_sidebar : f.sidebar_tree ≡ true → f.sidebar ≡ true
  pub closed_sidebar : f.sidebar_open ≡ false
  pub no_backdrop : f.backdrop ≡ false

-- The button offers the light theme exactly when the dark one is on.
abbrev pub IsLabelled : Theme → Type 0
IsLabelled t = t.offers_light ≡ same_text (or_text t.attribute "") "dark"

pub record IsConsistent (s : Shell) : Type 0 where
  pub good_frame : IsGoodFrame s.is_mobile s.frame
  pub labelled : IsLabelled s.theme

login_frame-IsGoodFrame :
    (mobile : Bool) (f : Frame) → IsGoodFrame mobile f → IsGoodFrame mobile (login_frame f)
unfolding login_frame
login_frame-IsGoodFrame mobile f h = record {
  apart = refl;
  bar_in_layout = λ e. cc;
  tabs_on_mobile = λ e. cc;
  tree_in_sidebar = h.tree_in_sidebar;
  closed_sidebar = h.closed_sidebar;
  no_backdrop = h.no_backdrop;
}

share_frame-IsGoodFrame :
    (mobile : Bool) (f : Frame) → IsGoodFrame mobile f → IsGoodFrame mobile (share_frame f)
unfolding share_frame
share_frame-IsGoodFrame mobile f h = record {
  apart = refl;
  bar_in_layout = λ e. refl;
  tabs_on_mobile = λ e. cc;
  tree_in_sidebar = λ e. cc;
  closed_sidebar = h.closed_sidebar;
  no_backdrop = h.no_backdrop;
}

main_frame-IsGoodFrame :
    (route : String) (mobile admin : Bool) (f : Frame)
    → IsGoodFrame mobile f
    → IsGoodFrame mobile (main_frame route mobile admin f)
unfolding main_frame tree_frame
main_frame-IsGoodFrame route mobile admin f h = record {
  apart = ground arith;
  bar_in_layout = ground arith;
  tabs_on_mobile = ground (arith, h.tabs_on_mobile);
  tree_in_sidebar = ground arith;
  closed_sidebar = ground (arith, h.closed_sidebar);
  no_backdrop = ground (arith, h.no_backdrop);
}

-- A change of what is not in the frame's rules.
marked-IsGoodFrame :
    (mobile : Bool) (f : Frame) (link : Option String) (page : Page) (tab : Bool)
    → IsGoodFrame mobile f
    → IsGoodFrame mobile (record f { active_link = link; page = page; more_tab = tab })
marked-IsGoodFrame mobile f link page tab h = record {
  apart = h.apart;
  bar_in_layout = h.bar_in_layout;
  tabs_on_mobile = h.tabs_on_mobile;
  tree_in_sidebar = h.tree_in_sidebar;
  closed_sidebar = h.closed_sidebar;
  no_backdrop = h.no_backdrop;
}

pub flags-IsGoodFrame :
    (mobile : Bool) (f : Frame) (detail dropdown : Bool)
    → IsGoodFrame mobile f
    → IsGoodFrame mobile (record f { detail_panel = detail; user_dropdown = dropdown })
flags-IsGoodFrame mobile f detail dropdown h = record {
  apart = h.apart;
  bar_in_layout = h.bar_in_layout;
  tabs_on_mobile = h.tabs_on_mobile;
  tree_in_sidebar = h.tree_in_sidebar;
  closed_sidebar = h.closed_sidebar;
  no_backdrop = h.no_backdrop;
}

pub show_frame-IsGoodFrame :
    (route : String) (mobile admin reaches : Bool) (f : Frame)
    → IsGoodFrame mobile f
    → IsGoodFrame mobile (show_frame route mobile admin reaches f)
unfolding show_frame update_tab_bar
show_frame-IsGoodFrame route mobile admin reaches f h =
    marked-IsGoodFrame mobile _ (some route) (if reaches then draw_page route f.page else f.page)
      (listed route more_routes) (chosen (same_text route "login") (same_text route "share"))
  where
    chosen :
        (login share : Bool)
        → IsGoodFrame mobile (
            if login
            then login_frame f
            else if share
            then share_frame f
            else main_frame route mobile admin f)
    chosen true share = login_frame-IsGoodFrame mobile f h
    chosen false true = share_frame-IsGoodFrame mobile f h
    chosen false false = main_frame-IsGoodFrame route mobile admin f h

pub set_hash-IsConsistent :
    (hash : String) (s : Shell) → IsConsistent s → IsConsistent (set_hash hash s)
unfolding set_hash
set_hash-IsConsistent hash s h = elim (Bool-cases (same_text s.hash hash)) [
  | inl e ↦ rw e h
  | inr e ↦ rw e (record { good_frame = h.good_frame; labelled = h.labelled })
]

pub navigate-IsConsistent : (s : Shell) → IsConsistent s → IsConsistent (navigate s)
unfolding navigate show_route close_more_menu
navigate-IsConsistent s h =
    chosen (not (is_public (get_route s.hash)) && not (is_authenticated s.session))
      (listed (get_route s.hash) admin_routes && not (is_admin s.session))
  where
    chosen :
        (out barred : Bool)
        → IsConsistent (
            if out
            then set_hash "#login" s
            else if barred
            then set_hash "#browser" s
            else show_route (get_route s.hash) s)
    chosen true barred = set_hash-IsConsistent "#login" s h
    chosen false true = set_hash-IsConsistent "#browser" s h
    chosen false false = record {
      good_frame =
          show_frame-IsGoodFrame (get_route s.hash) s.is_mobile (is_admin s.session) _ _
            (flags-IsGoodFrame s.is_mobile s.frame false s.frame.user_dropdown h.good_frame);
      labelled = h.labelled;
    }
