-- ===== src/ServiceWorker/Laws.antt =====
-- The caches of fruitsalade/webapp/service-worker.js as maps, and what the strategies do to them.
use fruit_salade.Base.{
  String, ◌≡◌, refl, ap, ◌∙◌, inl, inr, true, ◌&&◌, Option, none, some, arith, if◌then◌else◌,
  Bool-cases, or_else, same_text, same_text→≡, same_text_refl, lookup-insert,
}
use fruit_salade.ServiceWorker.Model.{
  WebRequest, Response, is_ok, Entries, Caches, match, put, open_cache, cache_of, store,
  offline_fallback, keep_ok, cache_first, network_first, Network,
}

pub match-put :
    (k h : String) (r : Response) (es : Entries)
    → match h (put k r es) ≡ (if same_text k h then some r else match h es)
unfolding match put
match-put k h r es = lookup-insert k h r es

pub cache_of-open_cache :
    (n m : String) (es : Entries) (cs : Caches)
    → cache_of n (open_cache m es cs) ≡ (if same_text m n then es else cache_of n cs)
unfolding cache_of open_cache
cache_of-open_cache n m es cs = ground (arith, lookup-insert m n es cs)

-- The response that a cache has for a URL.
abbrev pub cached : String → String → Caches → Option Response
cached name href cs = match href (cache_of name cs)

pub cached-store :
    (n m : String) (h : String) (q : WebRequest) (r : Response) (cs : Caches)
    → cached n h (store m q r cs)
      ≡ (if same_text m n && same_text q.url.href h then some r else cached n h cs)
unfolding store
cached-store n m h q r cs = elim (Bool-cases (same_text m n)) [
  | inl e ↦
      rw (cache_of-open_cache, e, match-put q.url.href h r (cache_of m cs), same_text→≡ m n e) refl
  | inr e ↦ rw (cache_of-open_cache, e) refl
]

cached-store_self :
    (name : String) (q : WebRequest) (r : Response) (cs : Caches)
    → cached name q.url.href (store name q r cs) ≡ some r
cached-store_self name q r cs =
    rw (cached-store name name q.url.href q r cs, same_text_refl name, same_text_refl q.url.href)
      refl

module _ (net : Network) (name : String) (q : WebRequest) (r : Response) (cs : Caches) where
  pub cache_first-hit : cached name q.url.href cs ≡ some r → cache_first net name q cs ≡ (r, cs)
  unfolding cache_first
  cache_first-hit c = rw (c, cache_first) refl

  pub cache_first-miss :
      cached name q.url.href cs ≡ none
      → net q ≡ some r
      → cache_first net name q cs ≡ (r, keep_ok name q r cs)
  unfolding cache_first
  cache_first-miss c n = rw (c, n, cache_first) refl

  pub cache_first-offline :
      cached name q.url.href cs ≡ none
      → net q ≡ none
      → cache_first net name q cs ≡ (offline_fallback q, cs)
  unfolding cache_first
  cache_first-offline c n = rw (c, n, cache_first) refl

  pub network_first-online : net q ≡ some r → network_first net name q cs ≡ (r, keep_ok name q r cs)
  unfolding network_first
  network_first-online n = rw (n, network_first) refl

  pub network_first-offline :
      net q ≡ none
      → network_first net name q cs ≡ (or_else (cached name q.url.href cs) (offline_fallback q), cs)
  unfolding network_first
  network_first-offline n = rw (n, network_first) refl

  keep_ok-store : is_ok r ≡ true → keep_ok name q r cs ≡ store name q r cs
  unfolding keep_ok
  keep_ok-store o = rw o refl

-- Once a response with an OK status was fetched for a URL of which the cache had none, the cache
-- answers: whatever the network would say later, the response is that one, and no cache changes.
pub cache_first_again :
    (net later : Network) (name : String) (q : WebRequest) (r : Response) (cs : Caches)
    → net q ≡ some r
    → is_ok r ≡ true
    → cached name q.url.href cs ≡ none
    → let cs' = (cache_first net name q cs).1 in
      ((cache_first net name q cs).0 ≡ r) × (cache_first later name q cs' ≡ (r, cs'))
cache_first_again net later name q r cs n o c =
    let first =
      cache_first-miss net name q r cs c n ∙ ap (λ d. (r, d)) (keep_ok-store net name q r cs o) in
    rw first (refl, cache_first-hit later name q r _ (cached-store_self name q r cs))

-- A response with an OK status is handed on as the network gave it, and it is the answer for the
-- same URL when the network fails afterwards.
pub network_first_again :
    (net later : Network) (name : String) (q : WebRequest) (r : Response) (cs : Caches)
    → net q ≡ some r
    → is_ok r ≡ true
    → later q ≡ none
    → let cs' = (network_first net name q cs).1 in
      ((network_first net name q cs).0 ≡ r) × (network_first later name q cs' ≡ (r, cs'))
network_first_again net later name q r cs n o l =
    let first =
      network_first-online net name q r cs n ∙ ap (λ d. (r, d)) (keep_ok-store net name q r cs o) in
    rw first
      (refl, network_first-offline later name q r _ l ∙ rw (cached-store_self name q r cs) refl)
