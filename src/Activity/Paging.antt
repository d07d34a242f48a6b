-- ===== src/Activity/Paging.antt =====
-- The paging of fruitsalade/webapp/js/views/activity.js.
use fruit_salade.Base.{
  ℕ, zero, suc, String, ◌≡◌, refl, sym, ap, ◌∙◌, ◌⊎◌, inl, inr, Bool, true, false, not, ◌&&◌,
  Option, none, some, List, [], ◌∷◌, ◌++◌, append-nil, arith, Bool-cases, length, take, drop,
  is_empty, keep, AllOf, IsOrdered,
}
use fruit_salade.Activity.Model.{
  ActivityEntry, is_none, offers_more, Feed, load_activity, render_entries, answer_activity,
  last_of, load_before, has_button, load_more,
}

-- The server gives the 50 newest entries, or the 50 newest before a time. `earlier` compares times.
module _ (earlier : String → String → Bool) where
  abbrev pub since : Option String → List ActivityEntry → List ActivityEntry
  since none log = log
  since (some t) log = keep (λ e. earlier e.created_at t) log

  abbrev pub page : Option String → List ActivityEntry → List ActivityEntry
  page before log = take 50 (since before log)

  -- The answers to a request, if one is sent.
  abbrev pub served : List ActivityEntry → List (Option String) → Feed → Feed
  served log [] f = f
  served log (before ∷ rest) f = answer_activity (page before log) f

  -- A click on Load More and the answer to the request that it sends.
  unfoldable pub next_page : List ActivityEntry → Feed → Feed
  next_page log f = let g = load_more f in served log (drop (length f.requests) g.requests) g

  unfoldable pub pages : List ActivityEntry → ℕ → Feed → Feed
  pages log zero f = f
  pages log (suc n) f = pages log n (next_page log f)

  -- The log has no two entries with the same time, the newest first, all with a time.
  pub record IsLog (log : List ActivityEntry) : Type 0 where
    pub newest_first : IsOrdered (λ a b. earlier b.created_at a.created_at) log
    pub timed : AllOf (λ e. not (is_empty e.created_at)) log
    pub one_way : (s t : String) → earlier s t ≡ true → earlier t s ≡ false

  keep_all :
      (test : ActivityEntry → Bool) (es : List ActivityEntry) → AllOf test es → keep test es ≡ es
  unfolding keep
  keep_all test [] h = refl
  keep_all test (e ∷ es) h = rw (h.0, keep_all test es h.1) refl

  pub AllOf-middle :
      (test : ActivityEntry → Bool) (zs : List ActivityEntry) (y : ActivityEntry)
      (ys : List ActivityEntry)
      → AllOf test (zs ++ y ∷ ys)
      → test y ≡ true
  AllOf-middle test [] y ys h = h.0
  AllOf-middle test (z ∷ zs) y ys h = AllOf-middle test zs y ys h.1

  -- What the server has before the time of an entry is what comes after it.
  pub since-entry :
      (zs : List ActivityEntry) (y : ActivityEntry) (ys : List ActivityEntry)
      → IsOrdered (λ a b. earlier b.created_at a.created_at) (zs ++ y ∷ ys)
      → ((s t : String) → earlier s t ≡ true → earlier t s ≡ false)
      → since (some y.created_at) (zs ++ y ∷ ys) ≡ ys
  unfolding keep
  since-entry [] y ys h one_way = elim (Bool-cases (earlier y.created_at y.created_at)) [
    | inl e ↦ cc (one_way y.created_at y.created_at e)
    | inr e ↦ rw e (keep_all _ ys h.0)
  ]
  since-entry (z ∷ zs) y ys h one_way =
      rw (one_way y.created_at z.created_at (AllOf-middle _ zs y ys h.0))
        (since-entry zs y ys h.1 one_way)

  pub last-snoc :
      (e : ActivityEntry) (es : List ActivityEntry)
      → (zs : List ActivityEntry) × (y : ActivityEntry) × (e ∷ es ≡ zs ++ y ∷ [])
        × (last_of (e ∷ es) ≡ some y)
  last-snoc e [] = ([], e, refl, refl)
  last-snoc e (d ∷ es) = let (zs, y, p, q) = last-snoc d es in (e ∷ zs, y, ap (λ l. e ∷ l) p, q)

  pub take-drop : (n : ℕ) (xs : List ActivityEntry) → take n xs ++ drop n xs ≡ xs
  take-drop zero xs = refl
  take-drop (suc n) [] = refl
  take-drop (suc n) (x ∷ xs) = ap (λ l. x ∷ l) (take-drop n xs)

  pub full_page : (n : ℕ) (xs : List ActivityEntry) → (drop n xs ≡ []) ⊎ (length (take n xs) ≡ n)
  full_page zero xs = inr refl
  full_page (suc n) [] = inl refl
  full_page (suc n) (x ∷ xs) = elim (full_page n xs) [ inl h ↦ inl h | inr h ↦ inr (ap suc h) ]

  drop_sent : (r : List (Option String)) (x : List (Option String)) → drop (length r) (r ++ x) ≡ x
  drop_sent [] x = refl
  drop_sent (b ∷ r) x = drop_sent r x

  pub drop_none : (n : ℕ) → drop {A = ActivityEntry} n [] ≡ []
  drop_none zero = refl
  drop_none (suc n) = refl

  pub button-render_entries :
      (f : Feed)
      → has_button (render_entries f).shown
        ≡ (not (is_none f.entries) && offers_more (length f.entries))
  unfolding render_entries
  button-render_entries f = ground arith

  -- Without the button nothing happens.
  pub next_page-quiet :
      (log : List ActivityEntry) (f : Feed) → has_button f.shown ≡ false → next_page log f ≡ f
  unfolding next_page load_more
  next_page-quiet log f h = rw h (
      ap (λ l. served log l f)
        (ap (drop (length f.requests)) (sym (append-nil f.requests)) ∙ drop_sent f.requests []))

  -- With it, the page after the last entry is asked for and added.
  pub next_page-more :
      (log : List ActivityEntry) (f : Feed) (y : ActivityEntry)
      → has_button f.shown ≡ true
      → last_of f.entries ≡ some y
      → is_empty y.created_at ≡ false
      → f.loading ≡ false
      → next_page log f
        ≡ answer_activity
            (page (some y.created_at) log)
            (record f { loading = true; requests = f.requests ++ some y.created_at ∷ [] })
  unfolding next_page load_more load_before load_activity
  next_page-more log f y h last timed idle =
      simp (h, last, timed, idle, drop_sent f.requests (some y.created_at ∷ [])) refl
