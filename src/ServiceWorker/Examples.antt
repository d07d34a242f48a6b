-- ===== src/ServiceWorker/Examples.antt =====
-- The theorems about fruitsalade/webapp/service-worker.js at concrete requests.
use fruit_salade.Base.{String, ◌≡◌, refl, true, none, some, [], ◌∷◌, listed, lookup, insert}
use fruit_salade.ServiceWorker.Model.{
  WebRequest, Response, from_server, is_ok, Caches, cache_first_in, shell_cache, match, put,
  open_cache, cache_of, strategy, handle_fetch, activate, Network, add_all, install, shell_request,
}
use fruit_salade.ServiceWorker.Good.{AllOk}
use fruit_salade.ServiceWorker.Runs.{
  installs, activates, fetches, after_events, after_events-AllOk, starts_offline,
  strategy-shell_urls,
}

abbrev host : String
host = "files.example"

abbrev page_request : WebRequest
page_request = shell_request host "/app/"

abbrev online : Network
online q = some (from_server 200 q.url.pathname)

abbrev dead : Network
dead q = none

empty-AllOk : AllOk []
unfolding match cache_of lookup
empty-AllOk name href r c = cc

after_events-AllOk_example : AllOk (
    after_events
      (installs online (page_request ∷ []) ∷ activates ∷ fetches dead page_request ∷ [])
      [])
after_events-AllOk_example =
    after_events-AllOk
      (installs online (page_request ∷ []) ∷ activates ∷ fetches dead page_request ∷ []) []
      empty-AllOk

abbrev installed : Caches
installed = (shell_cache, ("/app/", from_server 200 "/app/") ∷ []) ∷ []

install_page : install online (page_request ∷ []) [] ≡ some installed
unfolding install add_all put open_cache cache_of lookup insert
install_page = refl

page_in_shell : strategy page_request ≡ cache_first_in shell_cache
unfolding listed
page_in_shell = strategy-shell_urls host "/app/" refl refl

starts_offline_example :
    (r : Response) × (handle_fetch dead page_request (activate installed)
      ≡ (some r, activate installed))
    × (is_ok r ≡ true)
starts_offline_example =
    starts_offline online dead [] [] page_request [] installed empty-AllOk install_page
      page_in_shell
