-- ===== src/Activity/Complete.antt =====
-- That Load More reaches the end of the feed in fruitsalade/webapp/js/views/activity.js.
use fruit_salade.Base.{
  ℕ, zero, suc, ◌+◌, ◌*◌, ◌≤◌, String, ◌≡◌, refl, sym, ap, subst, ◌∙◌, ◌⊎◌, inl, inr, Bool, true,
  false, not, ◌&&◌, Option, none, some, List, [], ◌∷◌, ◌++◌, append_assoc, append-nil, arith,
  Bool-cases, length, take, drop, length-append, is_empty, AllOf, IsOrdered,
}
use fruit_salade.Activity.Model.{
  ActivityEntry, is_none, offers_more, Feed, render_entries, answer_activity, last_of, has_button,
  new_feed,
}
use fruit_salade.Activity.Paging.{
  since, page, next_page, pages, IsLog, AllOf-middle, since-entry, last-snoc, take-drop, full_page,
  drop_none, button-render_entries, next_page-quiet, next_page-more,
}

module _ (earlier : String → String → Bool) (log : List ActivityEntry) (h : IsLog earlier log) where
  -- After some rounds the entries begin the log, with 50 of each round as long as there are more.
  record IsPaged (n : ℕ) (f : Feed) : Type 0 where
    rest : List ActivityEntry
    begins : log ≡ f.entries ++ rest
    full : (rest ≡ []) ⊎ (length f.entries ≡ 50 * n)
    idle : f.loading ≡ false
    seen : f.shown ≡ (render_entries f).shown

  no_button :
      (n : ℕ) (es : List ActivityEntry)
      → 1 ≤ n
      → length es ≡ 50 * n
      → (not (is_none es) && offers_more (length es)) ≡ true
  no_button n [] k e = absurd (omega arith)
  no_button n (x ∷ es) k e = rw e (ground arith)

  next_page-IsPaged_quiet :
      (n : ℕ) (f : Feed) → 1 ≤ n → has_button f.shown ≡ false → IsPaged n f → IsPaged (suc n) f
  next_page-IsPaged_quiet n f k e p = record {
    rest = p.rest;
    begins = p.begins;
    full = inl (elim p.full [
      | inl r ↦ r
      | inr r ↦
          absurd (
            cc
              (no_button n f.entries k r, button-render_entries earlier f, ap has_button p.seen, e))
    ]);
    idle = p.idle;
    seen = p.seen;
  }

  answer-IsPaged :
      (n : ℕ) (f : Feed) (p : IsPaged n f) (zs : List ActivityEntry) (y : ActivityEntry)
      (requests : List (Option String))
      → f.entries ≡ zs ++ y ∷ []
      → IsPaged (suc n) (
          answer_activity
            (page earlier (some y.created_at) log)
            (record f { loading = true; requests = requests }))
  unfolding answer_activity render_entries
  answer-IsPaged n f p zs y requests e = record {
    rest = drop 50 p.rest;
    begins =
        p.begins
        ∙ ap (λ l. f.entries ++ l) (sym (take-drop earlier 50 p.rest))
        ∙ sym (append_assoc f.entries _ _)
        ∙ ap (λ l. (f.entries ++ take 50 l) ++ drop 50 p.rest) (sym after);
    full = elim p.full [
      | inl r ↦ inl (rw r (drop_none earlier 50))
      | inr r ↦ elim (full_page earlier 50 p.rest) [
        | inl d ↦ inl d
        | inr d ↦ inr (length-append f.entries _ ∙ rw (after, d, r) (omega arith))
      ]
    ];
    idle = refl;
    seen = refl;
  }
    where
      whole : log ≡ zs ++ y ∷ p.rest
      whole = p.begins ∙ ap (λ l. l ++ p.rest) e ∙ append_assoc zs (y ∷ []) p.rest

      after : since earlier (some y.created_at) log ≡ p.rest
      after =
          ap (since earlier (some y.created_at)) whole
          ∙ since-entry earlier zs y p.rest
              (subst (IsOrdered (λ a b. earlier b.created_at a.created_at)) whole h.newest_first)
              h.one_way

  last_entry :
      (es : List ActivityEntry)
      → (not (is_none es) && offers_more (length es)) ≡ true
      → (zs : List ActivityEntry) × (y : ActivityEntry) × (es ≡ zs ++ y ∷ [])
        × (last_of es ≡ some y)
  last_entry [] e = absurd (cc e)
  last_entry (x ∷ es) e = last-snoc earlier x es

  next_page-IsPaged_more :
      (n : ℕ) (f : Feed)
      → has_button f.shown ≡ true
      → IsPaged n f
      → IsPaged (suc n) (next_page earlier log f)
  next_page-IsPaged_more n f e p =
      let (zs, y, q, last) =
        last_entry f.entries
          (sym (button-render_entries earlier f) ∙ sym (ap has_button p.seen) ∙ e) in
      subst (IsPaged (suc n))
        (sym (next_page-more earlier log f y e last (timed_last zs y q) p.idle))
        (answer-IsPaged n f p zs y _ q)
    where
      timed_last :
          (zs : List ActivityEntry) (y : ActivityEntry)
          → f.entries ≡ zs ++ y ∷ []
          → is_empty y.created_at ≡ false
      timed_last zs y q = ground (
        arith,
        AllOf-middle earlier _ zs y p.rest (
            subst (AllOf (λ e. not (is_empty e.created_at)))
              (p.begins ∙ ap (λ l. l ++ p.rest) q ∙ append_assoc zs (y ∷ []) p.rest) h.timed),
      )

  next_page-IsPaged :
      (n : ℕ) (f : Feed) → 1 ≤ n → IsPaged n f → IsPaged (suc n) (next_page earlier log f)
  next_page-IsPaged n f k p = elim (Bool-cases (has_button f.shown)) [
    | inl e ↦ next_page-IsPaged_more n f e p
    | inr e ↦
        subst (IsPaged (suc n)) (sym (next_page-quiet earlier log f e))
          (next_page-IsPaged_quiet n f k e p)
  ]

  pages-IsPaged :
      (m n : ℕ) (f : Feed) → 1 ≤ n → IsPaged n f → IsPaged (n + m) (pages earlier log m f)
  unfolding pages
  pages-IsPaged zero n f k p = subst (λ i. IsPaged i f) (omega arith) p
  pages-IsPaged (suc m) n f k p =
      subst (λ i. IsPaged i (pages earlier log m (next_page earlier log f))) (omega arith)
        (pages-IsPaged m (suc n) (next_page earlier log f) (omega arith)
          (next_page-IsPaged n f k p))

  first_page-IsPaged : IsPaged 1 (answer_activity (page earlier none log) new_feed)
  unfolding answer_activity render_entries
  first_page-IsPaged = record {
    rest = drop 50 log;
    begins = sym (take-drop earlier 50 log);
    full = full_page earlier 50 log;
    idle = refl;
    seen = refl;
  }

  none_left : (es : List ActivityEntry) → length es ≡ 0 → es ≡ []
  none_left [] e = refl
  none_left (x ∷ es) e = absurd (omega arith)

  complete : (n : ℕ) (f : Feed) → length log ≤ 50 * n → IsPaged n f → f.entries ≡ log
  complete n f k p = sym (p.begins ∙ ap (λ l. f.entries ++ l) ended ∙ append-nil f.entries)
    where
      ended : p.rest ≡ []
      ended = elim p.full [
        | inl r ↦ r
        | inr r ↦
            none_left p.rest
              (omega (arith, k, r, ap length p.begins, length-append f.entries p.rest))
      ]

  -- Where no two entries of the log have the same time, the clicks on Load More, each answered
  -- before the next, bring every entry of the log, once and in its order: after as many clicks as
  -- there are further pages the entries are the log.
  pub all_pages :
      (m : ℕ)
      → length log ≤ 50 * (1 + m)
      → (pages earlier log m (answer_activity (page earlier none log) new_feed)).entries ≡ log
  all_pages m k = complete (1 + m) _ k (pages-IsPaged m 1 _ (omega arith) first_page-IsPaged)
