-- ===== src/Activity/Groups.antt =====
-- The groups by date in fruitsalade/webapp/js/views/activity.js.
use fruit_salade.Base.{
  String, ◌≡◌, refl, sym, ap, ◌∙◌, inl, inr, true, false, ◌||◌, List, [], ◌∷◌, ◌++◌, append_assoc,
  append-nil, arith, if◌then◌else◌, Bool-cases, same_text, same_text→≡, same_text_refl, listed,
  keep, IsKeySet,
}
use fruit_salade.Activity.Model.{
  ActivityEntry, date_key, Groups, add_to_group, group_from, group_entries,
}

-- The entries that stand under a date.
abbrev pub entries_under : String → Groups → List ActivityEntry
entries_under key [] = []
entries_under key ((k, es) ∷ gs) =
    let rest = entries_under key gs in if same_text k key then es ++ rest else rest

abbrev pub keys_of : Groups → List String
keys_of [] = []
keys_of ((k, es) ∷ gs) = k ∷ keys_of gs

listed-add_to_group :
    (d key : String) (e : ActivityEntry) (gs : Groups)
    → listed d (keys_of (add_to_group key e gs)) ≡ (listed d (keys_of gs) || same_text d key)
unfolding add_to_group listed
listed-add_to_group d key e [] = ground arith
listed-add_to_group d key e ((k, es) ∷ gs) = elim (Bool-cases (same_text k key)) [
  | inl q ↦ rw q (ground (arith, ap (same_text d) (same_text→≡ k key q)))
  | inr q ↦ rw q (ground (arith, listed-add_to_group d key e gs))
]

add_to_group-IsKeySet :
    (key : String) (e : ActivityEntry) (gs : Groups)
    → IsKeySet (keys_of gs)
    → IsKeySet (keys_of (add_to_group key e gs))
unfolding add_to_group listed
add_to_group-IsKeySet key e [] h = (refl, tt)
add_to_group-IsKeySet key e ((k, es) ∷ gs) h = elim (Bool-cases (same_text k key)) [
  | inl q ↦ rw q h
  | inr q ↦
      rw q (listed-add_to_group k key e gs ∙ rw (h.0, q) refl, add_to_group-IsKeySet key e gs h.1)
]

-- A date that has no group has no entries.
under-unlisted :
    (d : String) (gs : Groups) → listed d (keys_of gs) ≡ false → entries_under d gs ≡ []
unfolding listed
under-unlisted d [] h = refl
under-unlisted d ((k, es) ∷ gs) h = elim (Bool-cases (same_text k d)) [
  | inl e ↦ cc (same_text→≡ k d e, same_text_refl d)
  | inr e ↦ rw e (under-unlisted d gs (ground arith))
]

under-add_to_group :
    (d key : String) (e : ActivityEntry) (gs : Groups)
    → IsKeySet (keys_of gs)
    → entries_under d (add_to_group key e gs)
      ≡ entries_under d gs ++ (if same_text key d then e ∷ [] else [])
unfolding add_to_group
under-add_to_group d key e [] h = ground arith
under-add_to_group d key e ((k, es) ∷ gs) h = elim (Bool-cases (same_text k key)) [
  | inl q ↦
      rw (q, sym (ap (λ l. same_text l d) (same_text→≡ k key q)))
        (elim (Bool-cases (same_text k d)) [
          | inl m ↦
              rw m (
                rw (own m)
                  (append-nil (es ++ e ∷ []) ∙ ap (λ l. l ++ e ∷ []) (sym (append-nil es))))
          | inr m ↦ rw m (sym (append-nil (entries_under d gs)))
        ])
  | inr q ↦ rw q (elim (Bool-cases (same_text k d)) [
    | inl m ↦ rw m (
        ap (λ l. es ++ l) (under-add_to_group d key e gs h.1)
        ∙ sym (append_assoc es (entries_under d gs) _))
    | inr m ↦ rw m (under-add_to_group d key e gs h.1)
  ])
]
  where
    own : same_text k d ≡ true → entries_under d gs ≡ []
    own m = under-unlisted d gs (sym (ap (λ l. listed l (keys_of gs)) (same_text→≡ k d m)) ∙ h.0)

keep_one :
    (d : String) (e : ActivityEntry) (es : List ActivityEntry)
    → keep (λ x. same_text (date_key x) d) (e ∷ es)
      ≡ (if same_text (date_key e) d then e ∷ [] else []) ++ keep (λ x. same_text (date_key x) d) es
unfolding keep
keep_one d e es = elim (Bool-cases (same_text (date_key e) d)) [
  | inl m ↦ rw m refl
  | inr m ↦ rw m refl
]

group_from_lem :
    (es : List ActivityEntry) (gs : Groups)
    → IsKeySet (keys_of gs)
    → IsKeySet (keys_of (group_from es gs))
      × ((d : String)
          → entries_under d (group_from es gs)
            ≡ entries_under d gs ++ keep (λ e. same_text (date_key e) d) es)
unfolding group_from
group_from_lem [] gs h = (h, λ d. unfold keep in sym (append-nil (entries_under d gs)))
group_from_lem (e ∷ es) gs h =
    let later =
      group_from_lem es (add_to_group (date_key e) e gs)
        (add_to_group-IsKeySet (date_key e) e gs h) in
    (
      later.0,
      λ d.
          later.1 d
          ∙ ap (λ l. l ++ keep (λ x. same_text (date_key x) d) es)
              (under-add_to_group d (date_key e) e gs h)
          ∙ append_assoc (entries_under d gs) _ _
          ∙ ap (λ l. entries_under d gs ++ l) (sym (keep_one d e es)),
    )

-- No date has two groups, and under each date stand exactly the entries of that date, in the order
-- in which they were loaded.
pub group_entries_lem :
    (es : List ActivityEntry)
    → IsKeySet (keys_of (group_entries es))
      × ((d : String)
          → entries_under d (group_entries es) ≡ keep (λ e. same_text (date_key e) d) es)
unfolding group_entries
group_entries_lem es = group_from_lem es [] tt
