-- ===== src/Utils/Progress.antt =====
-- The progress toasts of fruitsalade/webapp/js/utils.js.
use fruit_salade.Base.{
  ℕ, ◌+◌, ◌≤◌, String, ◌≡◌, refl, sym, ap, subst, ◌∙◌, inl, inr, Bool, true, false, Option, none,
  some, List, [], ◌∷◌, ◌++◌, append-nil, arith, ◌==◌, Bool-cases, contains, IsNodup,
  contains-append, IsNodup-snoc,
}
use fruit_salade.Utils.Toast.{
  Toast, Tray, add_toast, show, change, is_element, has_progress, fade, dismiss, without,
  show_progress, update_progress, dismiss_progress, ToastEvent, shows, shows_progress,
  updates_progress, dismisses_progress, dismisses, removes, after_toast, after_toasts, empty_tray,
}

-- The numbers of the progress toasts in the document.
abbrev pub number_of : Option ℕ → List ℕ
number_of none = []
number_of (some n) = n ∷ []

unfoldable pub numbers : List Toast → List ℕ
numbers [] = []
numbers (t ∷ ts) = number_of t.progress ++ numbers ts

-- They are all different, and no later one has the number of an earlier one.
pub record IsNumbered (s : Tray) : Type 0 where
  pub different : IsNodup (numbers s.toasts)
  pub given : (n : ℕ) → contains (numbers s.toasts) n ≡ true → n ≤ s.progress_counter

assoc :
    (p : Option ℕ) (xs ys zs : List ℕ)
    → zs ≡ xs ++ ys
    → number_of p ++ zs ≡ (number_of p ++ xs) ++ ys
assoc none xs ys zs e = e
assoc (some n) xs ys zs e = ap (λ l. n ∷ l) e

numbers-append : (ts us : List Toast) → numbers (ts ++ us) ≡ numbers ts ++ numbers us
unfolding numbers
numbers-append [] us = refl
numbers-append (t ∷ ts) us =
    assoc t.progress (numbers ts) (numbers us) (numbers (ts ++ us)) (numbers-append ts us)

numbers-change :
    (test : Toast → Bool) (f : Toast → Toast) (ts : List Toast)
    → ((t : Toast) → (f t).progress ≡ t.progress)
    → numbers (change test f ts) ≡ numbers ts
unfolding numbers change
numbers-change test f [] h = refl
numbers-change test f (t ∷ ts) h = elim (Bool-cases (test t)) [
  | inl e ↦ rw (e, h t, numbers-change test f ts h) refl
  | inr e ↦ rw (e, numbers-change test f ts h) refl
]

contains-without :
    (n : ℕ) (ts : List Toast) (m : ℕ)
    → contains (numbers ts) m ≡ false
    → contains (numbers (without n ts)) m ≡ false
unfolding numbers without
contains-without n [] m h = refl
contains-without n (t ∷ ts) m h = elim (Bool-cases (t.element == n)) [
  | inl e ↦ rw e (contains-without n ts m behind)
  | inr e ↦ rw e (
      ground (
        arith,
        contains-append (number_of t.progress) (numbers (without n ts)) m,
        contains-append (number_of t.progress) (numbers ts) m,
        contains-without n ts m behind,
      ))
]
  where
    behind : contains (numbers ts) m ≡ false
    behind = ground (arith, contains-append (number_of t.progress) (numbers ts) m)

tail-IsNodup : (p : Option ℕ) (xs : List ℕ) → IsNodup (number_of p ++ xs) → IsNodup xs
tail-IsNodup none xs h = h
tail-IsNodup (some n) xs h = h.1

fewer-IsNodup :
    (p : Option ℕ) (xs ys : List ℕ)
    → IsNodup (number_of p ++ xs)
    → IsNodup ys
    → ((m : ℕ) → contains xs m ≡ false → contains ys m ≡ false)
    → IsNodup (number_of p ++ ys)
fewer-IsNodup none xs ys h k f = k
fewer-IsNodup (some n) xs ys h k f = (f n h.0, k)

without-IsNodup :
    (n : ℕ) (ts : List Toast) → IsNodup (numbers ts) → IsNodup (numbers (without n ts))
unfolding numbers without
without-IsNodup n [] h = h
without-IsNodup n (t ∷ ts) h = elim (Bool-cases (t.element == n)) [
  | inl e ↦ rw e (without-IsNodup n ts (tail-IsNodup t.progress (numbers ts) h))
  | inr e ↦ rw e (
      fewer-IsNodup t.progress (numbers ts) (numbers (without n ts)) h
        (without-IsNodup n ts (tail-IsNodup t.progress (numbers ts) h))
        (λ m. contains-without n ts m))
]

-- A change that keeps the numbers.
same-IsNumbered :
    (s t : Tray)
    → numbers t.toasts ≡ numbers s.toasts
    → t.progress_counter ≡ s.progress_counter
    → IsNumbered s
    → IsNumbered t
same-IsNumbered s t e c h = record {
  different = subst IsNodup (sym e) h.different;
  given = λ n m. rw c (h.given n (sym (ap (λ l. contains l n) e) ∙ m));
}

removed-IsNumbered :
    (n : ℕ) (s : Tray) → IsNumbered s → IsNumbered (record s { toasts = without n s.toasts })
removed-IsNumbered n s h = record {
  different = without-IsNodup n s.toasts h.different;
  given = λ m c. elim (Bool-cases (contains (numbers s.toasts) m)) [
    | inl e ↦ h.given m e
    | inr e ↦ absurd (cc (c, contains-without n s.toasts m e))
  ];
}

show-IsNumbered :
    (message : String) (kind : Option String) (duration : Option ℕ) (s : Tray)
    → IsNumbered s
    → IsNumbered (show message kind duration s)
unfolding show add_toast numbers
show-IsNumbered message kind duration s h =
    same-IsNumbered s _ (numbers-append s.toasts _ ∙ append-nil (numbers s.toasts)) refl h

show_progress-IsNumbered :
    (message : String) (pct : Option ℕ) (s : Tray)
    → IsNumbered s
    → IsNumbered (show_progress message pct s).1
unfolding show_progress add_toast numbers
show_progress-IsNumbered message pct s h = record {
  different =
      subst IsNodup (sym (numbers-append s.toasts _))
        (IsNodup-snoc (numbers s.toasts) (s.progress_counter + 1) h.different fresh);
  given = λ n c. bounded n (ap (λ l. contains l n) (sym (numbers-append s.toasts _)) ∙ c);
}
  where
    fresh : contains (numbers s.toasts) (s.progress_counter + 1) ≡ false
    fresh = elim (Bool-cases (contains (numbers s.toasts) (s.progress_counter + 1))) [
      | inr e ↦ e
      | inl e ↦ absurd (omega (arith, h.given (s.progress_counter + 1) e))
    ]

    bounded :
        (n : ℕ)
        → contains (numbers s.toasts ++ (s.progress_counter + 1) ∷ []) n ≡ true
        → n ≤ s.progress_counter + 1
    bounded n c = elim (Bool-cases (contains (numbers s.toasts) n)) [
      | inl e ↦ omega (arith, h.given n e)
      | inr e ↦ ground (arith, contains-append (numbers s.toasts) ((s.progress_counter + 1) ∷ []) n)
    ]

after_toast-IsNumbered : (e : ToastEvent) (s : Tray) → IsNumbered s → IsNumbered (after_toast e s)
unfolding after_toast update_progress dismiss_progress dismiss
after_toast-IsNumbered (shows message kind duration) s h = show-IsNumbered message kind duration s h
after_toast-IsNumbered (shows_progress message pct) s h = show_progress-IsNumbered message pct s h
after_toast-IsNumbered (updates_progress id message pct) s h =
    same-IsNumbered s _ (numbers-change (has_progress id) _ s.toasts (λ t. refl)) refl h
after_toast-IsNumbered (dismisses_progress id) s h =
    same-IsNumbered s _ (numbers-change (has_progress id) fade s.toasts (λ t. refl)) refl h
after_toast-IsNumbered (dismisses n) s h =
    same-IsNumbered s _ (numbers-change (is_element n) fade s.toasts (λ t. refl)) refl h
after_toast-IsNumbered (removes n) s h = removed-IsNumbered n s h

run-IsNumbered : (es : List ToastEvent) (s : Tray) → IsNumbered s → IsNumbered (after_toasts es s)
unfolding after_toasts
run-IsNumbered [] s h = h
run-IsNumbered (e ∷ es) s h = run-IsNumbered es (after_toast e s) (after_toast-IsNumbered e s h)

-- After any toasts shown, updated, dismissed and removed, the ids of the progress toasts in the
-- document are all different, and none is above the counter.
pub after_toasts-IsNumbered : (es : List ToastEvent) → IsNumbered (after_toasts es empty_tray)
unfolding numbers
after_toasts-IsNumbered es =
    run-IsNumbered es empty_tray (record { different = tt; given = λ n c. cc })
