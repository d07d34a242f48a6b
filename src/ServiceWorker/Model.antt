-- ===== src/ServiceWorker/Model.antt =====
-- The handlers of fruitsalade/webapp/service-worker.js over the browser's cache storage. The
-- network is an argument: for each request its response, or nothing when the fetch fails.
use fruit_salade.Base.{
  ℕ, String, Bool, true, false, not, ◌&&◌, ◌||◌, Option, none, some, List, [], ◌∷◌, ltb, leb,
  if◌then◌else◌, or_else, same_text, begins_with, has_part, ends_with, listed, lookup, insert,
}

-- The parts of a URL that the handlers read, and the whole of it, by which a cache is searched.
pub record Url : Type 0 where
  pub href : String
  pub hostname : String
  pub pathname : String

pub record WebRequest : Type 0 where
  pub url : Url
  pub method : String
  pub mode : String

-- A response of a server with its status and body, or one of the two that the worker makes up.
pub data Response : Type 0 where
  from_server : ℕ → String → Response
  offline_page offline_error : Response

-- `response.ok`: the status is 200 to 299. The made-up page has status 200, the other 503.
abbrev pub is_ok : Response → Bool
is_ok (from_server status body) = leb 200 status && ltb status 300
is_ok offline_page = true
is_ok offline_error = false

abbrev pub Network : Type 0
Network = WebRequest → Option Response

-- One cache: responses by the URL of their request. All that is stored came for a GET.
abbrev pub Entries : Type 0
Entries = List (String × Response)

-- `caches`: the caches by name.
abbrev pub Caches : Type 0
Caches = List (String × Entries)

abbrev pub shell_cache : String
shell_cache = "app-shell-fs-v3"

abbrev pub cdn_cache : String
cdn_cache = "cdn-fs-v3"

abbrev pub api_cache : String
api_cache = "api-fs-v3"

abbrev pub content_cache : String
content_cache = "content-fs-v3"

abbrev pub all_caches : List String
all_caches = shell_cache ∷ cdn_cache ∷ api_cache ∷ content_cache ∷ []

-- `cache.match` and `cache.put`.
unfoldable pub match : String → Entries → Option Response
match href es = lookup href es

unfoldable pub put : String → Response → Entries → Entries
put href r es = insert href r es

-- `caches.open(name)`: what the cache holds, and the cache with other entries. To open a cache
-- that is not there makes an empty one; here it is made when something is stored.
unfoldable pub cache_of : String → Caches → Entries
cache_of name cs = or_else (lookup name cs) []

unfoldable pub open_cache : String → Entries → Caches → Caches
open_cache name es cs = insert name es cs

unfoldable pub store : String → WebRequest → Response → Caches → Caches
store name q r cs = open_cache name (put q.url.href r (cache_of name cs)) cs

-- `cache.addAll`: all or nothing.
unfoldable pub add_all : Network → List WebRequest → Entries → Option Entries
add_all net [] es = some es
add_all net (q ∷ qs) es = elim (net q) [
  | none ↦ none
  | some r ↦ (if is_ok r then add_all net qs (put q.url.href r es) else none)
]

-- The handler of `install`; `none` when it is rejected and the worker is not installed.
unfoldable pub install : Network → List WebRequest → Caches → Option Caches
install net shell cs = elim (add_all net shell (cache_of shell_cache cs)) [
  | none ↦ none
  | some es ↦ some (open_cache shell_cache es cs)
]

-- The handler of `activate`: caches of other versions are deleted.
unfoldable pub activate : Caches → Caches
activate [] = []
activate ((n, es) ∷ cs) =
    let rest = activate cs in if listed n all_caches then (n, es) ∷ rest else rest

-- What the handler of `fetch` decides.
pub data Strategy : Type 0 where
  network_only : Strategy
  cache_first_in : String → Strategy
  network_first_in : String → Strategy

unfoldable pub is_shell_path : String → Bool
is_shell_path p =
    begins_with "/app/" p
    && (has_part "/css/" p
        || has_part "/js/" p
        || has_part "/icons/" p
        || ends_with "/index.html" p
        || ends_with "/manifest.json" p
        || ends_with "/service-worker.js" p
        || same_text p "/app/")

unfoldable pub strategy : WebRequest → Strategy
strategy q =
    let p = q.url.pathname in
    if not (same_text q.method "GET")
    then network_only
    else if has_part "/api/v1/auth/" p
    then network_only
    else if same_text q.url.hostname "unpkg.com"
    then cache_first_in cdn_cache
    else if is_shell_path p
    then cache_first_in shell_cache
    else if begins_with "/api/v1/content/" p || begins_with "/api/v1/gallery/thumb/" p
    then cache_first_in content_cache
    else if begins_with "/api/v1/" p
    then network_first_in api_cache
    else network_only

unfoldable pub offline_fallback : WebRequest → Response
offline_fallback q =
    if same_text q.mode "navigate" || begins_with "/app/" q.url.pathname
    then offline_page
    else offline_error

-- `if (response.ok) cache.put(...)`.
unfoldable pub keep_ok : String → WebRequest → Response → Caches → Caches
keep_ok name q r cs = if is_ok r then store name q r cs else cs

unfoldable pub cache_first : Network → String → WebRequest → Caches → Response × Caches
cache_first net name q cs = elim (match q.url.href (cache_of name cs)) [
  | some cached ↦ (cached, cs)
  | none ↦ elim (net q) [ some r ↦ (r, keep_ok name q r cs) | none ↦ (offline_fallback q, cs) ]
]

unfoldable pub network_first : Network → String → WebRequest → Caches → Response × Caches
network_first net name q cs = elim (net q) [
  | some r ↦ (r, keep_ok name q r cs)
  | none ↦ (or_else (match q.url.href (cache_of name cs)) (offline_fallback q), cs)
]

-- The handler of `fetch`. Where it does not respond, the browser asks the network itself, and a
-- failure is the page's: `none`.
unfoldable pub respond : Strategy → Network → WebRequest → Caches → Option Response × Caches
respond network_only net q cs = (net q, cs)
respond (cache_first_in name) net q cs = let (r, cs') = cache_first net name q cs in (some r, cs')
respond (network_first_in name) net q cs =
    let (r, cs') = network_first net name q cs in (some r, cs')

unfoldable pub handle_fetch : Network → WebRequest → Caches → Option Response × Caches
handle_fetch net q cs = respond (strategy q) net q cs

-- `SHELL_URLS`, and the requests that `addAll` makes of them.
abbrev pub shell_urls : List String
shell_urls =
    "/app/" ∷ "/app/index.html" ∷ "/app/css/style.css" ∷ "/app/manifest.json" ∷ "/app/js/api.js"
    ∷ "/app/js/utils.js" ∷ "/app/js/transfers.js" ∷ "/app/js/notifications.js" ∷ "/app/js/app.js"
    ∷ "/app/js/views/login.js" ∷ "/app/js/views/tree.js" ∷ "/app/js/views/browser.js"
    ∷ "/app/js/views/viewer.js" ∷ "/app/js/views/versions.js" ∷ "/app/js/views/shares.js"
    ∷ "/app/js/views/dashboard.js" ∷ "/app/js/views/users.js" ∷ "/app/js/views/admin-shares.js"
    ∷ "/app/js/views/groups.js" ∷ "/app/js/views/storage.js" ∷ "/app/js/views/gallery.js"
    ∷ "/app/js/views/gallery-plugins.js" ∷ "/app/js/views/settings.js" ∷ "/app/js/views/trash.js"
    ∷ "/app/js/views/search.js" ∷ "/app/js/views/share-download.js" ∷ "/app/js/views/help.js"
    ∷ "/app/js/views/map.js" ∷ []

abbrev pub shell_request : String → String → WebRequest
shell_request host path = record {
  url = record { href = path; hostname = host; pathname = path };
  method = "GET";
  mode = "no-cors";
}

abbrev pub shell_requests : String → List String → List WebRequest
shell_requests host [] = []
shell_requests host (u ∷ us) = shell_request host u ∷ shell_requests host us
