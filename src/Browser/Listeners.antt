-- ===== src/Browser/Listeners.antt =====
-- What each opening of a folder in fruitsalade/webapp/js/views/browser.js leaves on the page: its
-- listener of keys, and its listener of finished transfers.
use fruit_salade.Base.{String, Bool, true, false, List, [], ◌∷◌, ◌++◌, if◌then◌else◌}

-- Whether the document is that of the browser, the folders whose `browserKeyHandler` is attached,
-- those whose listener of `transfer-complete` is, and the folders that were loaded, in order.
pub record Page : Type 0 where
  pub in_browser : Bool
  pub key_handlers : List String
  pub transfer_listeners : List String
  pub loads : List String

-- `renderBrowser` at a path.
unfoldable pub render_browser : String → Page → Page
render_browser path p = record {
  in_browser = true;
  key_handlers = p.key_handlers ++ path ∷ [];
  transfer_listeners = p.transfer_listeners ++ path ∷ [];
  loads = p.loads ++ path ∷ [];
}

-- `browserCleanup` of every view, when the hash is that of another route.
unfoldable pub leave_browser : Page → Page
leave_browser p = record p { in_browser = false; key_handlers = [] }

-- The event `transfer-complete`: every listener calls `loadDir`, which throws in `buildBreadcrumb`
-- where the document has no breadcrumb, and loads its folder in the browser.
unfoldable pub complete_transfers : Page → Page
complete_transfers p =
    if p.in_browser then record p { loads = p.loads ++ p.transfer_listeners } else p

unfoldable pub open_all : List String → Page → Page
open_all [] p = p
open_all (f ∷ fs) p = open_all fs (render_browser f p)

abbrev pub empty_page : Page
empty_page = record { in_browser = false; key_handlers = []; transfer_listeners = []; loads = [] }
