-- ===== src/App/Menus.antt =====
-- The More menu and the theme of fruitsalade/webapp/js/app.js.
use fruit_salade.Base.{
  String, ◌≡◌, refl, sym, subst, ◌⊎◌, inl, inr, Bool, true, false, not, ◌&&◌, ◌||◌, none, List, [],
  ◌∷◌, arith, Bool-cases, or_text, same_text, same_text→≡, listed,
}
use fruit_salade.Api.Model.{Session, is_authenticated}
use fruit_salade.App.Model.{
  Frame, Theme, routes, admin_routes, more_routes, is_admin, more_items, update_tab_bar, is_public,
  update_theme_label, init_theme, toggle_theme,
}
use fruit_salade.App.Guards.{allowed}

all_pass : (String → Bool) → List String → Bool
all_pass f [] = true
all_pass f (x ∷ xs) = let rest = all_pass f xs in f x && rest

both : (a b : Bool) → (a && b) ≡ true → (a ≡ true) × (b ≡ true)
both a b h = (ground arith, ground arith)

with_both : (a b : Bool) → ((a || true) && (b || true)) ≡ true
with_both a b = ground arith

refute : (b : Bool) → not b ≡ true → b ≡ false
refute b h = ground arith

all_pass-listed :
    (f : String → Bool) (xs : List String) (r : String)
    → all_pass f xs ≡ true
    → listed r xs ≡ true
    → f r ≡ true
unfolding all_pass listed
all_pass-listed f [] r a l = cc
all_pass-listed f (x ∷ xs) r a l = elim (Bool-cases (same_text r x)) [
  | inl e ↦ subst (λ t. f t ≡ true) (sym (same_text→≡ r x e)) (ground arith)
  | inr e ↦ all_pass-listed f xs r (ground arith) (ground arith)
]

-- A route that the router knows and that highlights the More tab.
abbrev known : String → Bool
known r = listed r routes && listed r more_routes

abbrev known_to_all : String → Bool
known_to_all r = known r && not (listed r admin_routes)

known_items :
    (session : Session) (r : String)
    → listed r (more_items session) ≡ true
    → (known r ≡ true) × ((is_admin session ≡ true) ⊎ (listed r admin_routes ≡ false))
unfolding more_items all_pass listed
known_items session r l = elim (Bool-cases (is_admin session)) [
  | inl e ↦ (all_pass-listed known (more_items session) r (rw e refl) l, inl e)
  | inr e ↦
      let k = all_pass-listed known_to_all (more_items session) r (rw e refl) l in
      let (a, b) = both (known r) (not (listed r admin_routes)) k in
      (a, inr (refute (listed r admin_routes) b))
]

-- Every link of the More menu is a route that the router knows and that the session allows, and on
-- it the More tab is highlighted. This holds for who is signed in, as administrator or not.
pub more_items_lem :
    (session : Session) (r : String)
    → is_authenticated session ≡ true
    → listed r (more_items session) ≡ true
    → (listed r routes ≡ true)
      × (allowed session r ≡ true)
      × ((f : Frame) → (update_tab_bar r f).more_tab ≡ true)
unfolding update_tab_bar
more_items_lem session r a l =
    let (k, w) = known_items session r l in
    let (in_routes, in_more) = both (listed r routes) (listed r more_routes) k in
    (in_routes, may w, λ f. in_more)
  where
    may : (is_admin session ≡ true) ⊎ (listed r admin_routes ≡ false) → allowed session r ≡ true
    may (inl e) = rw (a, e) (with_both (is_public r) (not (listed r admin_routes)))
    may (inr e) = rw (a, e) (with_both (is_public r) true)

-- The theme that was chosen last is the theme after the next start of the page, whatever the system
-- prefers, and choosing twice keeps it light or dark as it was.
pub init_theme-toggle_theme :
    (dark : Bool) (t : Theme)
    → ((init_theme dark (record {
      attribute = none;
      saved = (toggle_theme t).saved;
      offers_light = false;
    })).attribute
        ≡ (toggle_theme t).attribute)
      × ((toggle_theme (toggle_theme t)).offers_light ≡ same_text (or_text t.attribute "") "dark")
unfolding init_theme toggle_theme update_theme_label
init_theme-toggle_theme dark t = elim (Bool-cases (same_text (or_text t.attribute "") "dark")) [
  | inl e ↦ rw e (refl, refl)
  | inr e ↦ rw e (refl, refl)
]
