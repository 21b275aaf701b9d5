-- ===== src/Http/Types.antt =====
-- What api/httpapi/httpapi.go reads of a request and writes to a response. A handler takes the
-- state of the server and the reading of the clock.
use gamifykit.Prelude.{ℕ, Bool, [], ◌∷◌}
use gamifykit.Prelude.Int.{ℤ}
use gamifykit.Prelude.GoMap.{GoMap}
use gamifykit.Prelude.Text.{Text, text, text_key}
use gamifykit.Core.{
  UserState, Error, integer_overflow, empty_user_id, empty_badge_id, invalid_badge_id, delta_zero,
  backend,
}

-- A missing query value or header is the empty text, as `Get` returns it.
pub record Request : Type 0 where
  pub method : Text
  pub path : Text
  pub query_metric : Text
  pub query_delta : Text
  pub authorization : Text
  pub x_api_key : Text
  pub remote_addr : Text

pub data Body : Type 0 where
  no_body : Body
  error_body : Text → Text → Body
  total_body : ℤ → Body
  ok_body : Body
  state_body : UserState → Body
  health_body : Bool → Body

pub record Response : Type 0 where
  pub status : ℕ
  pub headers : GoMap Text Text
  pub body : Body

-- The texts of the errors.
unfoldable pub error_text : Error → Text
error_text integer_overflow = text "integer overflow in AddSafe"
error_text empty_user_id = text "empty user id"
error_text empty_badge_id = text "empty badge id"
error_text invalid_badge_id = text "invalid badge id"
error_text delta_zero = text "delta cannot be zero"
error_text (backend t) = t

abbrev pub json_headers : GoMap Text Text
json_headers = (text "Content-Type", text "application/json") ∷ []

unfoldable pub write_json : Body → Response
write_json body = record { status = 200; headers = json_headers; body = body }

unfoldable pub write_error : ℕ → Text → Text → Response
write_error status code msg = record {
  status = status;
  headers = json_headers;
  body = error_body code msg;
}

abbrev pub method_get : Text
method_get = text "GET"

abbrev pub method_post : Text
method_post = text "POST"

abbrev pub method_options : Text
method_options = text "OPTIONS"
