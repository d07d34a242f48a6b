-- ===== src/Login/Signing.antt =====
-- Who is signed in by fruitsalade/webapp/js/views/login.js.
use fruit_salade.Base.{
  ℕ, String, ◌≡◌, refl, sym, ap, subst, ◌∙◌, inl, inr, Bool, true, false, not, ◌&&◌, Option, none,
  some, List, [], ◌∷◌, arith, ◌==◌, if◌then◌else◌, Bool-cases, is_empty, or_text,
}
use fruit_salade.Api.Model.{
  Session, set_token, clear_token, is_authenticated, resolved, unauthorized, settle,
}
use fruit_salade.Login.Model.{
  LoginData, Form, password_form, totp_form, FormError, LoginRequest, LoginPage, show_form,
  render_login, submit, submit_of, submit_form, show_error, failure_of, set_user, sign_in, accept,
  read_data, take_settled, take_answer, nth_request, answer_found, LoginEvent, renders_login,
  submits_form, login_answered, after_login, after_logins,
}

-- The server lets someone in only with a status other than 401 and data without an error.
abbrev pub is_granted : Option ℕ → Option LoginData → Bool
is_granted none d = false
is_granted (some status) none = false
is_granted (some status) (some d) = not (status == 401) && is_empty (or_text d.error "")

abbrev pub may_sign_in : LoginEvent → Bool
may_sign_in renders_login = false
may_sign_in (submits_form has_code) = false
may_sign_in (login_answered i status d) = is_granted status d

abbrev pub MayNotSignIn : List LoginEvent → Type 0
MayNotSignIn [] = Unit
MayNotSignIn (e ∷ es) = (may_sign_in e ≡ false) × MayNotSignIn es

abbrev pub IsSignedOut : LoginPage → Type 0
IsSignedOut p = is_authenticated p.session ≡ false

show_error-session :
    (r : LoginRequest) (e : FormError) (p : LoginPage) → (show_error r e p).session ≡ p.session
unfolding show_error
show_error-session r e p = elim (Bool-cases (r.form_number == p.form_number)) [
  | inl b ↦ rw b refl
  | inr b ↦ rw b refl
]

read_data-session :
    (status : ℕ) (r : LoginRequest) (d : Option LoginData) (p : LoginPage)
    → (status == 401) ≡ false
    → is_granted (some status) d ≡ false
    → (read_data r d p).session ≡ p.session
unfolding read_data
read_data-session status r none p n h = show_error-session r _ p
read_data-session status r (some d) p n h =
    let refused : is_empty (or_text d.error "") ≡ false = ground arith in
    rw refused (show_error-session r _ p)

settle-refused :
    (status : ℕ) (s : Session)
    → (status == 401) ≡ true
    → settle (some status) s
      ≡ record { outcome = unauthorized; session = clear_token s; goes_to = some "#login" }
unfolding settle
settle-refused status s e = rw e refl

settle-answered :
    (status : ℕ) (s : Session)
    → (status == 401) ≡ false
    → settle (some status) s ≡ record { outcome = resolved status; session = s; goes_to = none }
unfolding settle
settle-answered status s e = rw e refl

take_answer-IsSignedOut :
    (r : LoginRequest) (status : Option ℕ) (d : Option LoginData) (p : LoginPage)
    → is_granted status d ≡ false
    → IsSignedOut p
    → IsSignedOut (take_answer r status d p)
unfolding take_answer take_settled
take_answer-IsSignedOut r none d p h k =
    unfold settle in ap is_authenticated (show_error-session r _ _) ∙ k
take_answer-IsSignedOut r (some status) d p h k = elim (Bool-cases (status == 401)) [
  | inl e ↦
      subst (λ t. IsSignedOut (take_settled r d t p)) (sym (settle-refused status p.session e))
        (ap is_authenticated (show_error-session r _ _) ∙ unfold clear_token in refl)
  | inr e ↦
      subst (λ t. IsSignedOut (take_settled r d t p)) (sym (settle-answered status p.session e))
        (ap is_authenticated (read_data-session status r d _ e h) ∙ k)
]

answer_found-IsSignedOut :
    (found : Option LoginRequest) (status : Option ℕ) (d : Option LoginData) (p : LoginPage)
    → is_granted status d ≡ false
    → IsSignedOut p
    → IsSignedOut (answer_found found status d p)
unfolding answer_found
answer_found-IsSignedOut none status d p h k = k
answer_found-IsSignedOut (some r) status d p h k = take_answer-IsSignedOut r status d p h k

submit_of-session : (f : Form) (c : Bool) (p : LoginPage) → (submit_of f c p).session ≡ p.session
unfolding submit_of submit
submit_of-session password_form c p = refl
submit_of-session (totp_form t) true p = refl
submit_of-session (totp_form t) false p = refl

after_login-IsSignedOut :
    (e : LoginEvent) (p : LoginPage)
    → may_sign_in e ≡ false
    → IsSignedOut p
    → IsSignedOut (after_login e p)
unfolding after_login render_login show_form
after_login-IsSignedOut renders_login p h k = k
after_login-IsSignedOut (submits_form c) p h k =
    unfold submit_form in ap is_authenticated (submit_of-session p.form c p) ∙ k
after_login-IsSignedOut (login_answered i status d) p h k =
    answer_found-IsSignedOut (nth_request i p.in_flight) status d _ h k

-- As long as every answer is a failure of the network, has the status 401, is no JSON or carries an
-- error, nobody is signed in, whatever is submitted and in whatever order the answers come.
pub after_logins-IsSignedOut :
    (es : List LoginEvent) (p : LoginPage)
    → MayNotSignIn es
    → IsSignedOut p
    → IsSignedOut (after_logins es p)
unfolding after_logins
after_logins-IsSignedOut [] p h k = k
after_logins-IsSignedOut (e ∷ es) p h k =
    after_logins-IsSignedOut es (after_login e p) h.1 (after_login-IsSignedOut e p h.0 k)

-- A refused login shows the general error of its form: what the server says of it is not read.
pub refused_login :
    (r : LoginRequest) (d : Option LoginData) (p : LoginPage)
    → (r.form_number == p.form_number) ≡ true
    → ((take_answer r (some 401) d p).error ≡ some (failure_of r.form))
      × (IsSignedOut (take_answer r (some 401) d p))
      × ((take_answer r (some 401) d p).hash ≡ "#login")
unfolding take_answer take_settled settle show_error clear_token
refused_login r d p e = rw e (refl, refl, refl)

abbrev pub sign_in_session : String → String × Bool → Session
sign_in_session token (name, admin) = record {
  token = some token;
  username = some name;
  is_admin = some (if admin then "true" else "false");
}

accept-signed_in :
    (f : Form) (r : LoginRequest) (d : LoginData) (token : String) (u : String × Bool)
    (p : LoginPage)
    → d.requires_2fa ≡ false
    → d.token ≡ some token
    → d.user ≡ some u
    → ((accept f r d p).session ≡ sign_in_session token u) × ((accept f r d p).hash ≡ "#browser")
unfolding accept sign_in set_user set_token
accept-signed_in password_form r d token (name, admin) p s t u = simp (s, t, u) (refl, refl)
accept-signed_in (totp_form c) r d token (name, admin) p s t u = simp (t, u) (refl, refl)

-- An answer that is let in, to either form, with a token and a user and asking for no second factor,
-- signs the user in and goes to the files.
pub signed_in :
    (r : LoginRequest) (status : ℕ) (d : LoginData) (token : String) (u : String × Bool)
    (p : LoginPage)
    → is_granted (some status) (some d) ≡ true
    → d.requires_2fa ≡ false
    → d.token ≡ some token
    → d.user ≡ some u
    → ((take_answer r (some status) (some d) p).session ≡ sign_in_session token u)
      × ((take_answer r (some status) (some d) p).hash ≡ "#browser")
unfolding take_answer take_settled read_data
signed_in r status d token u p h s t v =
    let answered : (status == 401) ≡ false = ground arith in
    let clean : is_empty (or_text d.error "") ≡ true = ground arith in
    rw (settle-answered status p.session answered)
      (rw clean (accept-signed_in r.form r d token u _ s t v))
