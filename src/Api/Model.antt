-- ===== src/Api/Model.antt =====
-- The session of fruitsalade/webapp/js/api.js and what a request carries. A file is its bytes, and
-- the text of a JSON body is an argument.
use fruit_salade.Base.{
  ℕ, String, Bool, not, Option, none, some, List, ◌==◌, if◌then◌else◌, is_empty, or_text,
}

-- `sessionStorage`.
pub record Session : Type 0 where
  pub token : Option String
  pub username : Option String
  pub is_admin : Option String

abbrev pub get_token : Session → Option String
get_token s = s.token

unfoldable pub set_token : String → Session → Session
set_token t s = record s { token = some t }

unfoldable pub clear_token : Session → Session
clear_token s = record { token = none; username = none; is_admin = none }

-- `!!getToken()`.
abbrev pub is_authenticated : Session → Bool
is_authenticated s = not (is_empty (or_text (get_token s) ""))

pub data Body : Type 0 where
  no_body : Body
  raw : List ℕ → Body
  json : String → Body

pub record Options : Type 0 where
  pub method : String
  pub path : String
  pub authorization : Option String  -- the token after `Bearer `
  pub content_type : Option String
  pub body : Body

unfoldable pub bearer : Session → Option String
bearer s = elim s.token [ none ↦ none | some t ↦ (if is_empty t then none else some t) ]

-- `request`, up to `fetch`.
unfoldable pub request_options :
    String → String → Option String → Option (List ℕ) → Session → Options
request_options method path body (some bytes) s = record {
  method = method;
  path = path;
  authorization = bearer s;
  content_type = none;
  body = raw bytes;
}
request_options method path (some text) none s = record {
  method = method;
  path = path;
  authorization = bearer s;
  content_type = some "application/json";
  body = json text;
}
request_options method path none none s = record {
  method = method;
  path = path;
  authorization = bearer s;
  content_type = none;
  body = no_body;
}

-- What the caller gets.
pub data Outcome : Type 0 where
  resolved : ℕ → Outcome
  unauthorized failed_request : Outcome

-- What an answer does: the outcome, the session, and the hash that the page is sent to.
pub record Settled : Type 0 where
  pub outcome : Outcome
  pub session : Session
  pub goes_to : Option String

-- `request` and the callbacks of `upload`, from the status on; `none` is a failure of the network.
unfoldable pub settle : Option ℕ → Session → Settled
settle none s = record { outcome = failed_request; session = s; goes_to = none }
settle (some status) s =
    if status == 401
    then record { outcome = unauthorized; session = clear_token s; goes_to = some "#login" }
    else record { outcome = resolved status; session = s; goes_to = none }
