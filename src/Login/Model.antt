-- ===== src/Login/Model.antt =====
-- The login form and the form of the second factor of fruitsalade/webapp/js/views/login.js, with the
-- session of js/api.js. The toggle that shows the password is left out.
use fruit_salade.Base.{
  ℕ, zero, suc, ◌+◌, String, Bool, Option, none, some, List, [], ◌∷◌, ◌++◌, ◌==◌, if◌then◌else◌,
  or_else, is_empty, or_text,
}
use fruit_salade.Api.Model.{
  Session, set_token, resolved, unauthorized, failed_request, Settled, settle,
}

-- What the server sends. A missing text is none.
pub record LoginData : Type 0 where
  pub error : Option String
  pub requires_2fa : Bool
  pub totp_token : Option String
  pub token : Option String
  pub user : Option (String × Bool)

pub data Form : Type 0 where
  password_form : Form
  totp_form : Option String → Form

pub data FormError : Type 0 where
  login_failed verification_failed : FormError
  server_says : String → FormError

-- A request, with the form that sent it and the number of that form.
pub record LoginRequest : Type 0 where
  pub form : Form
  pub form_number : ℕ

-- The form that is shown, its number and its error, the requests under way, the session, and the
-- hash of the page.
pub record LoginPage : Type 0 where
  pub form : Form
  pub form_number : ℕ
  pub error : Option FormError
  pub in_flight : List LoginRequest
  pub session : Session
  pub hash : String

unfoldable pub show_form : Form → LoginPage → LoginPage
show_form f p = record p { form = f; form_number = p.form_number + 1; error = none }

-- `renderLogin`.
unfoldable pub render_login : LoginPage → LoginPage
render_login p = show_form password_form p

-- The submit of either form, that of a code where there is one.
unfoldable pub submit : LoginPage → LoginPage
submit p = record p {
  error = none;
  in_flight = p.in_flight ++ record { form = p.form; form_number = p.form_number } ∷ [];
}

unfoldable pub submit_of : Form → Bool → LoginPage → LoginPage
submit_of password_form has_code p = submit p
submit_of (totp_form t) has_code p = if has_code then submit p else record p { error = none }

unfoldable pub submit_form : Bool → LoginPage → LoginPage
submit_form has_code p = submit_of p.form has_code p

-- An error goes to its own form, which may no longer be on the page.
unfoldable pub show_error : LoginRequest → FormError → LoginPage → LoginPage
show_error r e p = if r.form_number == p.form_number then record p { error = some e } else p

abbrev pub failure_of : Form → FormError
failure_of password_form = login_failed
failure_of (totp_form t) = verification_failed

-- What follows `setToken`: a missing user ends the callback with an exception.
unfoldable pub set_user : Option (String × Bool) → LoginRequest → LoginPage → LoginPage
set_user none r p = show_error r (failure_of r.form) p
set_user (some (name, is_admin)) r p = record p {
  session = record p.session {
    username = some name;
    is_admin = some (if is_admin then "true" else "false");
  };
  hash = "#browser";
}

-- A missing token is stored as "undefined".
unfoldable pub sign_in : LoginRequest → LoginData → LoginPage → LoginPage
sign_in r data_of p =
    set_user data_of.user r
      (record p { session = set_token (or_else data_of.token "undefined") p.session })

-- The form of the second factor is asked for by the password form alone.
unfoldable pub accept : Form → LoginRequest → LoginData → LoginPage → LoginPage
accept password_form r data_of p =
    if data_of.requires_2fa then show_form (totp_form data_of.totp_token) p else sign_in r data_of p
accept (totp_form t) r data_of p = sign_in r data_of p

-- The data of an answer, none where it is no JSON.
unfoldable pub read_data : LoginRequest → Option LoginData → LoginPage → LoginPage
read_data r none p = show_error r (failure_of r.form) p
read_data r (some data_of) p =
    if is_empty (or_text data_of.error "")
    then accept r.form r data_of p
    else show_error r (server_says (or_text data_of.error "")) p

unfoldable pub take_settled : LoginRequest → Option LoginData → Settled → LoginPage → LoginPage
take_settled r data_of t p =
    let q = record p { session = t.session; hash = or_else t.goes_to p.hash } in
    elim t.outcome [
      | resolved n ↦ read_data r data_of q
      | unauthorized ↦ show_error r (failure_of r.form) q
      | failed_request ↦ show_error r (failure_of r.form) q
    ]

-- What `API.post` makes of the status, none for a failure of the network.
unfoldable pub take_answer : LoginRequest → Option ℕ → Option LoginData → LoginPage → LoginPage
take_answer r status data_of p = take_settled r data_of (settle status p.session) p

abbrev pub nth_request : ℕ → List LoginRequest → Option LoginRequest
nth_request i [] = none
nth_request zero (r ∷ rs) = some r
nth_request (suc i) (r ∷ rs) = nth_request i rs

abbrev pub without_nth : ℕ → List LoginRequest → List LoginRequest
without_nth i [] = []
without_nth zero (r ∷ rs) = rs
without_nth (suc i) (r ∷ rs) = r ∷ without_nth i rs

unfoldable pub answer_found :
    Option LoginRequest → Option ℕ → Option LoginData → LoginPage → LoginPage
answer_found none status data_of p = p
answer_found (some r) status data_of p = take_answer r status data_of p

pub data LoginEvent : Type 0 where
  renders_login : LoginEvent
  submits_form : Bool → LoginEvent
  login_answered : ℕ → Option ℕ → Option LoginData → LoginEvent

unfoldable pub after_login : LoginEvent → LoginPage → LoginPage
after_login renders_login p = render_login p
after_login (submits_form has_code) p = submit_form has_code p
after_login (login_answered i status data_of) p =
    answer_found (nth_request i p.in_flight) status data_of
      (record p { in_flight = without_nth i p.in_flight })

unfoldable pub after_logins : List LoginEvent → LoginPage → LoginPage
after_logins [] p = p
after_logins (e ∷ es) p = after_logins es (after_login e p)
