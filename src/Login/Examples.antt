-- ===== src/Login/Examples.antt =====
-- The theorems about fruitsalade/webapp/js/views/login.js at concrete inputs.
use fruit_salade.Base.{◌≡◌, refl, true, false, none, some, [], ◌∷◌}
use fruit_salade.Api.Model.{set_token, settle}
use fruit_salade.Login.Model.{
  LoginData, password_form, LoginPage, show_form, submit, submit_of, submit_form, set_user, sign_in,
  accept, read_data, take_settled, take_answer, answer_found, submits_form, login_answered,
  after_login, after_logins,
}
use fruit_salade.Login.Signing.{IsSignedOut, after_logins-IsSignedOut}

abbrev login_page : LoginPage
login_page = record {
  form = password_form;
  form_number = 0;
  error = none;
  in_flight = [];
  session = record { token = none; username = none; is_admin = none };
  hash = "#login";
}

abbrev bad_password : LoginData
bad_password = record {
  error = some "invalid credentials";
  requires_2fa = false;
  totp_token = none;
  token = none;
  user = none;
}

abbrev good_password : LoginData
good_password = record {
  error = none;
  requires_2fa = true;
  totp_token = some "t";
  token = none;
  user = none;
}

abbrev good_code : LoginData
good_code = record {
  error = none;
  requires_2fa = false;
  totp_token = none;
  token = some "s";
  user = some ("ann", false);
}

-- The password, then the code.
signs_in_twice :
    (after_logins
      (submits_form true
        ∷ login_answered 0 (some 200) (some good_password)
        ∷ submits_form true
        ∷ login_answered 0 (some 200) (some good_code)
        ∷ [])
      login_page).session
    ≡ record { token = some "s"; username = some "ann"; is_admin = some "false" }
unfolding after_logins after_login submit_form submit_of submit answer_found take_answer
    take_settled read_data accept sign_in set_user show_form settle set_token
signs_in_twice = refl

after_logins-IsSignedOut_example : IsSignedOut (
    after_logins
      (submits_form true
        ∷ submits_form true
        ∷ login_answered 1 (some 401) (some bad_password)
        ∷ login_answered 0 none none
        ∷ [])
      login_page)
after_logins-IsSignedOut_example =
    after_logins-IsSignedOut
      (submits_form true
        ∷ submits_form true
        ∷ login_answered 1 (some 401) (some bad_password)
        ∷ login_answered 0 none none
        ∷ [])
      login_page (refl, (refl, (refl, (refl, tt)))) refl
