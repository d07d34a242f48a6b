-- ===== src/ServiceWorker/Runs.antt =====
-- Every life of the worker of fruitsalade/webapp/service-worker.js, and its start without a
-- connection.
use fruit_salade.Base.{
  String, ◌≡◌, refl, ◌⊎◌, inl, inr, Bool, true, false, not, ◌&&◌, Option, none, some, List, [], ◌∷◌,
  ◌++◌, arith, Bool-cases, Option-cases, is_some, or_else, same_text, same_text→≡, same_text_refl,
  begins_with, has_part, ends_with, listed, lookup,
}
use fruit_salade.ServiceWorker.Model.{
  WebRequest, Response, is_ok, Entries, Caches, cache_first_in, shell_cache, all_caches, match, put,
  open_cache, cache_of, strategy, respond, handle_fetch, activate, is_shell_path, Network, add_all,
  install, shell_urls, shell_request,
}
use fruit_salade.ServiceWorker.Laws.{match-put, cache_of-open_cache, cached, cache_first-hit}
use fruit_salade.ServiceWorker.Good.{AllOk, respond-AllOk, install-AllOk, cache_of-activate}

-- The events of the worker. A rejected installation leaves the caches as they were.
pub data WorkerEvent : Type 0 where
  installs : Network → List WebRequest → WorkerEvent
  activates : WorkerEvent
  fetches : Network → WebRequest → WorkerEvent

unfoldable pub after_event : WorkerEvent → Caches → Caches
after_event (installs net shell) cs = or_else (install net shell cs) cs
after_event activates cs = activate cs
after_event (fetches net q) cs = (handle_fetch net q cs).1

unfoldable pub after_events : List WorkerEvent → Caches → Caches
after_events [] cs = cs
after_events (e ∷ es) cs = after_events es (after_event e cs)

pub activate-AllOk : (cs : Caches) → AllOk cs → AllOk (activate cs)
unfolding match lookup
activate-AllOk cs h name href r c = elim (Bool-cases (listed name all_caches)) [
  | inl e ↦ h name href r (rw (cache_of-activate name cs, e) at c)
  | inr e ↦ absurd (cc (rw (cache_of-activate name cs, e) at c))
]

after_event-AllOk : (e : WorkerEvent) (cs : Caches) → AllOk cs → AllOk (after_event e cs)
unfolding after_event handle_fetch
after_event-AllOk (installs net shell) cs h = elim (Option-cases (install net shell cs)) [
  | inl e ↦ rw e h
  | inr (cs', e) ↦ rw e (install-AllOk net shell cs cs' e h)
]
after_event-AllOk activates cs h = activate-AllOk cs h
after_event-AllOk (fetches net q) cs h = respond-AllOk (strategy q) net q cs h

-- From caches that hold responses with an OK status only, any installations, activations and
-- requests lead to such caches, whatever the network answers.
pub after_events-AllOk :
    (es : List WorkerEvent) (cs : Caches) → AllOk cs → AllOk (after_events es cs)
unfolding after_events
after_events-AllOk [] cs h = h
after_events-AllOk (e ∷ es) cs h =
    after_events-AllOk es (after_event e cs) (after_event-AllOk e cs h)

-- `addAll` has stored something for each URL of its list.
put_still :
    (k h : String) (r : Response) (es : Entries)
    → is_some (match h es) ≡ true
    → is_some (match h (put k r es)) ≡ true
put_still k h r es m = ground (arith, match-put k h r es)

add_all_still :
    (net : Network) (qs : List WebRequest) (es es' : Entries) (h : String)
    → add_all net qs es ≡ some es'
    → is_some (match h es) ≡ true
    → is_some (match h es') ≡ true
unfolding add_all
add_all_still net [] es es' h e m = ground arith
add_all_still net (q ∷ qs) es es' h e m = elim (Option-cases (net q)) [
  | inl n ↦ absurd (cc (rw (n, add_all) at e))
  | inr (r, n) ↦ elim (Bool-cases (is_ok r)) [
    | inr o ↦ absurd (ground arith)
    | inl o ↦
        add_all_still net qs (put q.url.href r es) es' h (ground arith)
          (put_still q.url.href h r es m)
  ]
]

add_all_stores :
    (net : Network) (before after : List WebRequest) (q : WebRequest) (es es' : Entries)
    → add_all net (before ++ q ∷ after) es ≡ some es'
    → is_some (match q.url.href es') ≡ true
unfolding add_all
add_all_stores net [] after q es es' e = elim (Option-cases (net q)) [
  | inl n ↦ absurd (cc (rw (n, add_all) at e))
  | inr (r, n) ↦ elim (Bool-cases (is_ok r)) [
    | inr o ↦ absurd (ground arith)
    | inl o ↦
        add_all_still net after (put q.url.href r es) es' q.url.href (ground arith)
          (rw (match-put q.url.href q.url.href r es, same_text_refl q.url.href) refl)
  ]
]
add_all_stores net (p ∷ before) after q es es' e = elim (Option-cases (net p)) [
  | inl n ↦ absurd (cc (rw (n, add_all) at e))
  | inr (r, n) ↦ elim (Bool-cases (is_ok r)) [
    | inr o ↦ absurd (ground arith)
    | inl o ↦ add_all_stores net before after q (put p.url.href r es) es' (ground arith)
  ]
]

is_some→≡ {ℓ} : {A : Type ℓ} (o : Option A) → is_some o ≡ true → (a : A) × (o ≡ some a)
is_some→≡ none h = cc
is_some→≡ (some a) h = (a, refl)

install_stores :
    (net : Network) (before after : List WebRequest) (q : WebRequest) (cs cs' : Caches)
    → install net (before ++ q ∷ after) cs ≡ some cs'
    → is_some (cached shell_cache q.url.href cs') ≡ true
unfolding install
install_stores net before after q cs cs' e =
    elim (Option-cases (add_all net (before ++ q ∷ after) (cache_of shell_cache cs))) [
      | inl a ↦ absurd (cc (rw (a, install) at e))
      | inr (es, a) ↦ opened es (rw (a, install) at e) (add_all_stores net before after q _ es a)
    ]
  where
    opened :
        (es : Entries)
        → some (open_cache shell_cache es cs) ≡ some cs'
        → is_some (match q.url.href es) ≡ true
        → is_some (cached shell_cache q.url.href cs') ≡ true
    opened es same m =
        let value : cs' ≡ open_cache shell_cache es cs = cc in
        rw (value, cache_of-open_cache shell_cache shell_cache es cs, same_text_refl shell_cache) m

-- A worker whose installation succeeded, over caches with OK responses only, and that was then
-- activated, answers each request of the shell that it looks for in the shell cache with an OK
-- response that it holds, whatever the network says, and leaves the caches as they are.
pub starts_offline :
    (net later : Network) (before after : List WebRequest) (q : WebRequest) (cs cs' : Caches)
    → AllOk cs
    → install net (before ++ q ∷ after) cs ≡ some cs'
    → strategy q ≡ cache_first_in shell_cache
    → (r : Response) × (handle_fetch later q (activate cs') ≡ (some r, activate cs'))
      × (is_ok r ≡ true)
unfolding handle_fetch respond
starts_offline net later before after q cs cs' ok e st =
    let (r, m) = is_some→≡ _ (install_stores net before after q cs cs' e) in
    let kept : cached shell_cache q.url.href (activate cs') ≡ some r =
      rw (cache_of-activate shell_cache cs') (unfold listed in m) in
    (
      r,
      rw (st, cache_first-hit later shell_cache q r (activate cs') kept) refl,
      activate-AllOk cs' (install-AllOk net _ cs cs' e ok) shell_cache q.url.href r kept,
    )

-- Requests that are no GET, or that go to the sign-in, get what the network says, and are not
-- stored.
pub handle_fetch_untouched :
    (net : Network) (q : WebRequest) (cs : Caches)
    → (same_text q.method "GET" ≡ false) ⊎ (has_part "/api/v1/auth/" q.url.pathname ≡ true)
    → handle_fetch net q cs ≡ (net q, cs)
unfolding handle_fetch strategy respond
handle_fetch_untouched net q cs h = ground arith

-- A path that the handler of `fetch` sends to the shell cache, on a host that is not the CDN's.
unfoldable pub is_shell_request_path : String → Bool
is_shell_request_path p = not (has_part "/api/v1/auth/" p) && is_shell_path p

unfoldable pub all_shell : List String → Bool
all_shell [] = true
all_shell (u ∷ us) = is_shell_request_path u && all_shell us

all_shell_urls : all_shell shell_urls ≡ true
unfolding all_shell is_shell_request_path is_shell_path begins_with has_part ends_with
all_shell_urls = refl

all_shell-listed :
    (us : List String) (u : String)
    → all_shell us ≡ true
    → listed u us ≡ true
    → is_shell_request_path u ≡ true
unfolding all_shell listed
all_shell-listed [] u a l = cc
all_shell-listed (v ∷ us) u a l = elim (Bool-cases (same_text u v)) [
  | inl e ↦ rw (same_text→≡ u v e) (ground arith)
  | inr e ↦ all_shell-listed us u (ground arith) (ground arith)
]

-- Every URL of the shell is looked for in the shell cache, on any host but the CDN's: what the
-- installation stores is what the page's requests for the shell find.
pub strategy-shell_urls :
    (host u : String)
    → same_text host "unpkg.com" ≡ false
    → listed u shell_urls ≡ true
    → strategy (shell_request host u) ≡ cache_first_in shell_cache
unfolding strategy is_shell_request_path
strategy-shell_urls host u h l = ground (arith, h, all_shell-listed shell_urls u all_shell_urls l)
