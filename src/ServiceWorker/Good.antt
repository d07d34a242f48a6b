-- ===== src/ServiceWorker/Good.antt =====
-- The caches of fruitsalade/webapp/service-worker.js hold responses with an OK status only, and
-- after an installation the webapp starts without a connection.
use fruit_salade.Base.{
  String, ◌≡◌, inl, inr, true, false, none, some, List, [], ◌∷◌, arith, if◌then◌else◌, Bool-cases,
  Option-cases, same_text, same_text→≡, listed, lookup,
}
use fruit_salade.ServiceWorker.Model.{
  WebRequest, Response, is_ok, Entries, Caches, Strategy, network_only, cache_first_in,
  network_first_in, shell_cache, all_caches, match, put, open_cache, cache_of, keep_ok, cache_first,
  network_first, respond, activate, Network, add_all, install,
}
use fruit_salade.ServiceWorker.Laws.{match-put, cache_of-open_cache, cached, cached-store}

abbrev pub AllOk : Caches → Type 0
AllOk cs = (name href : String) (r : Response) → cached name href cs ≡ some r → is_ok r ≡ true

keep_ok-AllOk :
    (name : String) (q : WebRequest) (r : Response) (cs : Caches)
    → AllOk cs
    → AllOk (keep_ok name q r cs)
unfolding keep_ok
keep_ok-AllOk name q r cs h = elim (Bool-cases (is_ok r)) [
  | inr e ↦ rw e h
  | inl e ↦ rw e (λ n href x c. ground (arith, cached-store n name href q r cs, h n href x))
]

pub respond-AllOk :
    (st : Strategy) (net : Network) (q : WebRequest) (cs : Caches)
    → AllOk cs
    → AllOk (respond st net q cs).1
unfolding respond cache_first network_first
respond-AllOk network_only net q cs h = h
respond-AllOk (cache_first_in name) net q cs h = elim (Option-cases (cached name q.url.href cs)) [
  | inr (r, c) ↦ rw (c, cache_first) h
  | inl c ↦
      rw (c, cache_first)
        (elim (Option-cases (net q)) [
          | inl n ↦ rw n h
          | inr (r, n) ↦ rw n (keep_ok-AllOk name q r cs h)
        ])
]
respond-AllOk (network_first_in name) net q cs h = elim (Option-cases (net q)) [
  | inl n ↦ rw (n, network_first) h
  | inr (r, n) ↦ rw (n, network_first) (keep_ok-AllOk name q r cs h)
]

-- What `addAll` adds.
abbrev EntriesOk : Entries → Type 0
EntriesOk es = (href : String) (r : Response) → match href es ≡ some r → is_ok r ≡ true

put-EntriesOk :
    (h : String) (r : Response) (es : Entries)
    → is_ok r ≡ true
    → EntriesOk es
    → EntriesOk (put h r es)
put-EntriesOk h r es o k href x c = ground (arith, match-put h href r es, k href x)

add_all-EntriesOk :
    (net : Network) (qs : List WebRequest) (es es' : Entries)
    → add_all net qs es ≡ some es'
    → EntriesOk es
    → EntriesOk es'
unfolding add_all
add_all-EntriesOk net [] es es' e k = λ href x c. ground (arith, k href x)
add_all-EntriesOk net (q ∷ qs) es es' e k = elim (Option-cases (net q)) [
  | inl n ↦ absurd (cc (rw (n, add_all) at e))
  | inr (r, n) ↦ elim (Bool-cases (is_ok r)) [
    | inr o ↦ absurd (ground arith)
    | inl o ↦
        add_all-EntriesOk net qs (put q.url.href r es) es' (ground arith)
          (put-EntriesOk q.url.href r es o k)
  ]
]

pub install-AllOk :
    (net : Network) (shell : List WebRequest) (cs cs' : Caches)
    → install net shell cs ≡ some cs'
    → AllOk cs
    → AllOk cs'
unfolding install
install-AllOk net shell cs cs' e h =
    elim (Option-cases (add_all net shell (cache_of shell_cache cs))) [
      | inl a ↦ absurd (cc (rw (a, install) at e))
      | inr (es, a) ↦
          opened es (rw (a, install) at e)
            (add_all-EntriesOk net shell (cache_of shell_cache cs) es a (h shell_cache))
    ]
  where
    opened :
        (es : Entries) → some (open_cache shell_cache es cs) ≡ some cs' → EntriesOk es → AllOk cs'
    opened es same ok name href x c = elim (Bool-cases (same_text shell_cache name)) [
      | inl f ↦ ok href x (here f)
      | inr f ↦ h name href x (elsewhere f)
    ]
      where
        value : cs' ≡ open_cache shell_cache es cs
        value = cc

        here : same_text shell_cache name ≡ true → match href es ≡ some x
        here f = rw (value, cache_of-open_cache name shell_cache es cs, f) at c

        elsewhere : same_text shell_cache name ≡ false → cached name href cs ≡ some x
        elsewhere f = rw (value, cache_of-open_cache name shell_cache es cs, f) at c

lookup-activate :
    (n : String) (cs : Caches)
    → lookup n (activate cs) ≡ (if listed n all_caches then lookup n cs else none)
unfolding activate lookup
lookup-activate n [] = ground arith
lookup-activate n ((m, es) ∷ cs) = elim (Bool-cases (same_text m n)) [
  | inl e ↦ ground (arith, e, same_text→≡ m n e, lookup-activate n cs)
  | inr e ↦ ground (arith, e, lookup-activate n cs)
]

-- `activate` leaves the caches of this version as they are and empties every other.
pub cache_of-activate :
    (n : String) (cs : Caches)
    → cache_of n (activate cs) ≡ (if listed n all_caches then cache_of n cs else [])
unfolding cache_of
cache_of-activate n cs = ground (arith, lookup-activate n cs)
