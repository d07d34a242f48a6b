-- ===== src/App/SigningOut.antt =====
-- The ways out of a session: the logout links of fruitsalade/webapp/js/app.js and a refused token.
use fruit_salade.Base.{
  ℕ, String, ◌≡◌, refl, ap, ◌∙◌, inl, inr, false, List, [], ==_refl, Bool-cases, Option-cases,
  same_text, same_text→≡,
}
use fruit_salade.Api.Model.{clear_token, is_authenticated}
use fruit_salade.App.Model.{
  Shell, set_hash, close_more_menu, leave, logout_topbar, logout_menu, token_refused, after_visit,
}
use fruit_salade.Notifications.Model.{Center, disconnect}
use fruit_salade.Notifications.Counts.{sources_of, IsSound}

set_hash-hash : (h : String) (s : Shell) → (set_hash h s).hash ≡ h
unfolding set_hash
set_hash-hash h s = elim (Bool-cases (same_text s.hash h)) [
  | inl e ↦ rw e (same_text→≡ s.hash h e)
  | inr e ↦ rw e refl
]

set_hash-rest :
    (h : String) (s : Shell)
    → ((set_hash h s).session ≡ s.session) × ((set_hash h s).center ≡ s.center)
unfolding set_hash
set_hash-rest h s = elim (Bool-cases (same_text s.hash h)) [
  | inl e ↦ rw e (refl, refl)
  | inr e ↦ rw e (refl, refl)
]

disconnect-open_sources :
    (c : Center) → c.open_sources ≡ sources_of c.source → (disconnect c).open_sources ≡ []
unfolding disconnect
disconnect-open_sources c h = elim (Option-cases c.source) [
  | inl e ↦ rw (e, disconnect) (h ∙ ap sources_of e)
  | inr (n, e) ↦ rw (e, disconnect) (rw (h, e, ==_refl n) refl)
]

-- Nobody is signed in, the page goes to the login form, and these event sources are open.
pub record SignedOut (sources : List ℕ) (s : Shell) : Type 0 where
  pub nobody : is_authenticated s.session ≡ false
  pub to_login : s.hash ≡ "#login"
  pub sources_left : s.center.open_sources ≡ sources

leave-SignedOut : (s : Shell) → IsSound s.center → SignedOut [] (leave s)
unfolding leave clear_token
leave-SignedOut s h = record {
  nobody = rw (set_hash-rest "#login" _).0 refl;
  to_login = set_hash-hash "#login" _;
  sources_left =
      ap (λ c. c.open_sources) (set_hash-rest "#login" _).1
      ∙ disconnect-open_sources s.center h.one_source;
}

-- Where the notification center's counters are sound, both logout links end the session, go to the
-- login form and close the event source; a refused token ends the session and goes to the login
-- form, too, but leaves open the event source that was.
pub signing_out :
    (s : Shell)
    → IsSound s.center
    → SignedOut [] (logout_topbar s)
      × SignedOut [] (logout_menu s)
      × SignedOut s.center.open_sources (after_visit token_refused s)
unfolding logout_topbar logout_menu close_more_menu after_visit clear_token
signing_out s h = (
  leave-SignedOut (record s { frame = record s.frame { user_dropdown = false } }) h,
  leave-SignedOut (record s { more_menu_open = false }) h,
  record {
    nobody = rw (set_hash-rest "#login" _).0 refl;
    to_login = set_hash-hash "#login" _;
    sources_left = ap (λ c. c.open_sources) (set_hash-rest "#login" _).1;
  },
)
