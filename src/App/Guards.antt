-- ===== src/App/Guards.antt =====
-- The guards of `navigate` of fruitsalade/webapp/js/app.js.
use fruit_salade.Base.{
  String, ◌≡◌, ◌⊎◌, Bool, true, false, not, ◌&&◌, ◌||◌, some, [], ◌∷◌, if◌then◌else◌, is_empty,
  listed,
}
use fruit_salade.Api.Model.{Session, is_authenticated}
use fruit_salade.App.Model.{
  Page, not_found, view, Shell, routes, inherited, admin_routes, is_admin, get_route, path_text,
  is_public,
}

-- Who may see a route: everyone the public ones, who is signed in the others, an administrator
-- those of the administration.
abbrev pub allowed : Session → String → Bool
allowed session route =
    (is_public route || is_authenticated session)
    && (not (listed route admin_routes) || is_admin session)

-- The hash that a guard sends to, for who is not allowed.
abbrev pub way_out : Session → String → String
way_out session route = if is_public route || is_authenticated session then "#browser" else "#login"

-- The hash names a folder or a file with a path that cannot be decoded.
abbrev pub garbled : Shell → Bool
garbled s =
    let route = get_route s.hash in
    let text = path_text route s.hash in
    listed route ("browser" ∷ "viewer" ∷ []) && not (is_empty text) && not (s.can_decode text)

-- What is on the page: the view of the route; or that there is none; or still what was there, where
-- the path cannot be decoded, and under a name that every object inherits.
abbrev pub Drawn : String → Bool → Page → Page → Type 0
Drawn route bad old new =
    ((new ≡ view route) × (listed route routes ≡ true) × (bad ≡ false))
    ⊎ ((new ≡ not_found) × (listed route routes ≡ false) × (listed route inherited ≡ false))
    ⊎ ((new ≡ old) × ((bad || not (listed route routes) && listed route inherited) ≡ true))

-- The page that `navigate` leaves: the hash is a route that is allowed, what belongs to the route is
-- on the page, its link is marked, and no menu is open.
pub record Shown (old s : Shell) : Type 0 where
  pub may : allowed s.session (get_route s.hash) ≡ true
  pub marked : s.frame.active_link ≡ some (get_route s.hash)
  pub drawn : Drawn (get_route s.hash) (garbled s) old.frame.page s.frame.page
  pub more_closed : s.more_menu_open ≡ false
  pub panel_closed : s.center.panel_open ≡ false
  pub same_session : s.session ≡ old.session
