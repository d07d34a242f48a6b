-- ===== src/App/Model.antt =====
-- The state and the functions of fruitsalade/webapp/js/app.js. Of the document it has what is
-- shown; the calls to the tree view, the install banner and the user's name are left out, and so is
-- `openSidebarMobile`, which nothing calls.
use fruit_salade.Base.{
  ℕ, ◌+◌, ◌-◌, String, Bool, true, false, not, ◌&&◌, ◌||◌, Option, none, some, List, [], ◌∷◌, ◌++◌,
  ◌==◌, if◌then◌else◌, or_else, is_empty, or_text, same_text, listed, append,
}
use fruit_salade.Api.Model.{Session, clear_token, is_authenticated}
use fruit_salade.Notifications.Model.{Center, disconnect, connect, close_panel, toggle_panel}
use Prim.Native.Char.{code}

-- What `#app` holds: nothing yet, the view of the route whose handler ran last, or "Page not found".
pub data Page : Type 0 where
  blank not_found : Page
  view : String → Page

-- Which parts of the document are shown; `sidebar_open` is the class `mobile-open`.
pub record Frame : Type 0 where
  pub topbar : Bool
  pub layout : Bool
  pub tab_bar : Bool
  pub login_container : Bool
  pub sidebar : Bool
  pub sidebar_admin : Bool
  pub sidebar_tree : Bool
  pub sidebar_open : Bool
  pub backdrop : Bool
  pub detail_panel : Bool
  pub user_dropdown : Bool
  pub more_tab : Bool  -- highlighted
  pub active_link : Option String
  pub page : Page

-- The attribute `data-theme`, the saved theme, and whether the button offers the light one.
pub record Theme : Type 0 where
  pub attribute : Option String
  pub saved : Option String
  pub offers_light : Bool

-- `changes` counts the `hashchange` events that are still to come; `can_decode` says which texts
-- `decodeURIComponent` takes: on the others it throws.
pub record Shell : Type 0 where
  pub hash : String
  pub changes : ℕ
  pub session : Session
  pub can_decode : String → Bool
  pub is_mobile : Bool
  pub more_menu_open : Bool
  pub frame : Frame
  pub theme : Theme
  pub center : Center

abbrev pub routes : List String
routes =
    "login" ∷ "browser" ∷ "versions" ∷ "shares" ∷ "viewer" ∷ "dashboard" ∷ "users" ∷ "admin-shares"
    ∷ "groups" ∷ "settings" ∷ "storage" ∷ "gallery" ∷ "gallery-plugins" ∷ "share" ∷ "activity"
    ∷ "trash" ∷ "search" ∷ "favorites" ∷ "help" ∷ []

-- The names that every object inherits: `routes[name]` is a function of the language there (an
-- object for `__proto__`), which leaves the page as it is.
abbrev pub inherited : List String
inherited =
    "constructor" ∷ "__proto__" ∷ "__defineGetter__" ∷ "__defineSetter__" ∷ "__lookupGetter__"
    ∷ "__lookupSetter__" ∷ "hasOwnProperty" ∷ "isPrototypeOf" ∷ "propertyIsEnumerable"
    ∷ "toLocaleString" ∷ "toString" ∷ "valueOf" ∷ []

abbrev pub admin_routes : List String
admin_routes = "users" ∷ "groups" ∷ "admin-shares" ∷ "settings" ∷ "storage" ∷ "gallery-plugins" ∷ []

abbrev pub tree_routes : List String
tree_routes = "browser" ∷ "viewer" ∷ "versions" ∷ []

abbrev pub more_routes : List String
more_routes =
    "shares" ∷ "trash" ∷ "favorites" ∷ "search" ∷ "help" ∷ "users" ∷ "groups" ∷ "storage"
    ∷ "gallery-plugins" ∷ "admin-shares" ∷ "settings" ∷ []

abbrev pub is_admin : Session → Bool
is_admin s = same_text (or_text s.is_admin "") "true"

-- `hash.replace('#', '')`: the first one.
unfoldable pub drop_hash : String → String
drop_hash String.[] = String.[]
drop_hash (String.◌∷◌ c s) = if code c == b'#' then s else String.◌∷◌ c (drop_hash s)

-- `hash.split('/')[0]`.
unfoldable pub first_part : String → String
first_part String.[] = String.[]
first_part (String.◌∷◌ c s) = if code c == b'/' then String.[] else String.◌∷◌ c (first_part s)

unfoldable pub get_route : String → String
get_route hash = first_part (or_text (some (drop_hash hash)) "browser")

-- An assignment to `location.hash`; the same value again is no change.
unfoldable pub set_hash : String → Shell → Shell
set_hash h s = if same_text s.hash h then s else record s { hash = h; changes = s.changes + 1 }

unfoldable pub close_more_menu : Shell → Shell
close_more_menu s = record s { more_menu_open = false }

unfoldable pub open_more_menu : Shell → Shell
open_more_menu s =
    if s.more_menu_open then close_more_menu s else record s { more_menu_open = true }

-- The links of the menu that `openMoreMenu` makes, but for Logout.
unfoldable pub more_items : Session → List String
more_items s =
    let own = "favorites" ∷ "shares" ∷ "trash" ∷ "search" ∷ "help" ∷ [] in
    if is_admin s
    then own
      ++ "users" ∷ "groups" ∷ "storage" ∷ "gallery-plugins" ∷ "admin-shares" ∷ "settings" ∷ []
    else own

unfoldable pub update_tab_bar : String → Frame → Frame
update_tab_bar route f = record f { more_tab = listed route more_routes }

unfoldable pub login_frame : Frame → Frame
login_frame f = record f { topbar = false; layout = false; tab_bar = false; login_container = true }

unfoldable pub share_frame : Frame → Frame
share_frame f = record f {
  topbar = false;
  tab_bar = false;
  login_container = false;
  layout = true;
  sidebar = false;
  detail_panel = false;
  sidebar_tree = false;
}

-- On a route with the tree, the sidebar and its backdrop are closed on mobile only.
unfoldable pub tree_frame : String → Bool → Frame → Frame
tree_frame route mobile f =
    if listed route tree_routes
    then record f {
      sidebar_tree = true;
      sidebar_open = if mobile then false else f.sidebar_open;
      backdrop = if mobile then false else f.backdrop;
    }
    else record f { sidebar_tree = false; backdrop = false }

unfoldable pub main_frame : String → Bool → Bool → Frame → Frame
main_frame route mobile admin f = tree_frame route mobile (record f {
  topbar = true;
  layout = true;
  sidebar = true;
  tab_bar = if mobile then true else f.tab_bar;
  login_container = false;
  sidebar_admin = admin;
})

unfoldable pub draw_page : String → Page → Page
draw_page route old =
    if listed route routes then view route else if listed route inherited then old else not_found

-- `s.replace(text, '')`: the first place where the text stands.
unfoldable pub after_front : String → String → Option String
after_front String.[] s = some s
after_front (String.◌∷◌ c p) String.[] = none
after_front (String.◌∷◌ c p) (String.◌∷◌ d s) =
    let rest = after_front p s in if code c == code d then rest else none

unfoldable pub drop_text : String → String → String
drop_text text String.[] = or_else (after_front text String.[]) String.[]
drop_text text (String.◌∷◌ c s) =
    or_else (after_front text (String.◌∷◌ c s)) (String.◌∷◌ c (drop_text text s))

-- `replace(/^\//, '')`.
unfoldable pub drop_slash : String → String
drop_slash String.[] = String.[]
drop_slash (String.◌∷◌ c s) = if code c == b'/' then s else String.◌∷◌ c s

-- The path in the hash, as it stands there.
unfoldable pub path_text : String → String → String
path_text route hash = drop_slash (drop_text (append "#" route) hash)

-- The path of a folder or a file is decoded for the tree view, before the handler is called; where
-- that throws, `navigate` ends.
unfoldable pub reaches_handler : (String → Bool) → String → String → Bool
reaches_handler can_decode route hash =
    let text = path_text route hash in
    if same_text route "browser" || same_text route "viewer"
    then is_empty text || can_decode text
    else true

unfoldable pub show_frame : String → Bool → Bool → Bool → Frame → Frame
show_frame route mobile admin reaches f =
    let shown =
      if same_text route "login"
      then login_frame f
      else if same_text route "share"
      then share_frame f
      else main_frame route mobile admin f in
    update_tab_bar route (record shown {
      active_link = some route;
      page = if reaches then draw_page route f.page else f.page;
    })

-- `navigate` behind its guards.
unfoldable pub show_route : String → Shell → Shell
show_route route s =
    let closed = close_panel s.center in
    let center =
      if same_text route "login" || same_text route "share"
      then closed
      else connect s.session.token closed in
    record (close_more_menu s) {
      center = center;
      frame =
          show_frame route s.is_mobile (is_admin s.session)
            (reaches_handler s.can_decode route s.hash) (record s.frame { detail_panel = false });
    }

abbrev pub is_public : String → Bool
is_public route = same_text route "login" || same_text route "share"

unfoldable pub navigate : Shell → Shell
navigate s =
    let route = get_route s.hash in
    if not (is_public route) && not (is_authenticated s.session)
    then set_hash "#login" s
    else if listed route admin_routes && not (is_admin s.session)
    then set_hash "#browser" s
    else show_route route s

-- The listener of `hashchange`.
unfoldable pub hash_changed : Shell → Shell
hash_changed s = if s.changes == 0 then s else navigate (record s { changes = s.changes - 1 })

-- Both logout links; the one in the user menu hides it, the other closes its menu.
unfoldable pub leave : Shell → Shell
leave s =
    set_hash "#login" (record s { center = disconnect s.center; session = clear_token s.session })

unfoldable pub logout_topbar : Shell → Shell
logout_topbar s = leave (record s { frame = record s.frame { user_dropdown = false } })

unfoldable pub logout_menu : Shell → Shell
logout_menu s = leave (close_more_menu s)

unfoldable pub toggle_user_menu : Shell → Shell
toggle_user_menu s = record s {
  frame = record s.frame { user_dropdown = not s.frame.user_dropdown };
}

-- A click elsewhere in the document.
unfoldable pub click_outside : Shell → Shell
click_outside s = record s {
  frame = record s.frame { user_dropdown = false };
  center = close_panel s.center;
}

unfoldable pub update_theme_label : Theme → Theme
update_theme_label t = record t { offers_light = same_text (or_text t.attribute "") "dark" }

unfoldable pub init_theme : Bool → Theme → Theme
init_theme prefers_dark t = update_theme_label (
    if is_empty (or_text t.saved "")
    then (if prefers_dark then record t { attribute = some "dark" } else t)
    else record t { attribute = t.saved })

unfoldable pub toggle_theme : Theme → Theme
toggle_theme t =
    let next = if same_text (or_text t.attribute "") "dark" then "light" else "dark" in
    update_theme_label (record t { attribute = some next; saved = some next })

-- Enter in the search field; the text is trimmed and encoded by the browser.
unfoldable pub search_for : String → String → Shell → Shell
search_for trimmed target s = if is_empty trimmed then s else set_hash target s

-- Ctrl+K.
unfoldable pub search_shortcut : Shell → Shell
search_shortcut s = if is_authenticated s.session then set_hash "#search" s else s

unfoldable pub on_media_change : Bool → Shell → Shell
on_media_change true s = record s {
  is_mobile = true;
  frame = record s.frame {
    tab_bar = if same_text (get_route s.hash) "login" then s.frame.tab_bar else true;
    sidebar_open = false;
    backdrop = false;
  };
}
on_media_change false s = record (close_more_menu s) {
  is_mobile = false;
  frame = record s.frame { tab_bar = false; sidebar_open = false; backdrop = false };
}

-- What happens to the page. A view signs in, or the server refuses the token.
pub data Visit : Type 0 where
  goes : String → Visit
  hash_fires : Visit
  signs_in : Session → Visit
  token_refused : Visit
  logs_out_topbar logs_out_menu : Visit
  taps_more closes_more toggles_user clicks_outside toggles_bell : Visit
  media_changes : Bool → Visit
  toggles_theme presses_shortcut : Visit
  searches : String → String → Visit

unfoldable pub after_visit : Visit → Shell → Shell
after_visit (goes h) s = set_hash h s
after_visit hash_fires s = hash_changed s
after_visit (signs_in session) s = record s { session = session }
after_visit token_refused s = set_hash "#login" (record s { session = clear_token s.session })
after_visit logs_out_topbar s = logout_topbar s
after_visit logs_out_menu s = logout_menu s
after_visit taps_more s = open_more_menu s
after_visit closes_more s = close_more_menu s
after_visit toggles_user s = toggle_user_menu s
after_visit clicks_outside s = click_outside s
after_visit toggles_bell s = record s { center = toggle_panel s.center }
after_visit (media_changes mobile) s = on_media_change mobile s
after_visit toggles_theme s = record s {
  theme = toggle_theme s.theme;
  frame = record s.frame { user_dropdown = false };
}
after_visit presses_shortcut s = search_shortcut s
after_visit (searches trimmed target) s = search_for trimmed target s

unfoldable pub after_visits : List Visit → Shell → Shell
after_visits [] s = s
after_visits (e ∷ es) s = after_visits es (after_visit e s)

-- The document of index.html, before the script.
abbrev pub fresh_frame : Frame
fresh_frame = record {
  topbar = false;
  layout = false;
  tab_bar = false;
  login_container = false;
  sidebar = true;
  sidebar_admin = false;
  sidebar_tree = true;
  sidebar_open = false;
  backdrop = false;
  detail_panel = false;
  user_dropdown = false;
  more_tab = false;
  active_link = none;
  page = blank;
}

-- The script from its first line to its last.
unfoldable pub load :
    (String → Bool) → String → Session → Bool → Bool → Option String → Center → Shell
load can_decode hash session mobile prefers_dark saved center = navigate (record {
  hash = hash;
  changes = 0;
  session = session;
  can_decode = can_decode;
  is_mobile = mobile;
  more_menu_open = false;
  frame = fresh_frame;
  theme =
      init_theme prefers_dark (record { attribute = none; saved = saved; offers_light = false });
  center = center;
})
