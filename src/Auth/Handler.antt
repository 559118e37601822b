-- ===== src/Auth/Handler.antt =====
-- internal/adapter/auth/http/handler: auth_handler.go and user_handler.go. A request is what the
-- JSON decoder made of its body, `none` where it failed. Log lines are not modelled.
pub mod Statuses
use uban_z.Prelude.{
  ℕ, ℤ, String, Bool, true, false, ◌||◌, Option, none, some, ◌==◌, trim_space, Result, ok, err, M,
  if◌then◌else◌,
}
use uban_z.Auth.Domain.{
  User, Error, message, errors_is, invalid_role, invalid_user_data, user_already_exists,
  user_not_found,
}
use uban_z.Auth.Service.{Claims, UserRepository, TokenManager, register, login, get_user_by_id}
use uban_z.Httpx.Response.{Response}

pub record RegisterRequest : Type 0 where
  pub login : String
  pub password : String
  pub role : String
  pub full_name : String

pub record LoginRequest : Type 0 where
  pub login : String
  pub password : String

-- The fields of a user that a response shows.
pub record UserResponse : Type 0 where
  pub id : ℤ
  pub login : String
  pub role : String
  pub full_name : String

pub data Body : Type 0 where
  error_response : String → Body
  user_response : UserResponse → Body
  login_response : (token : String) → Body

abbrev pub is_blank : String → Bool
is_blank value = trim_space value == ""

abbrev pub to_user_response : User → UserResponse
to_user_response user = record {
  id = user.id;
  login = user.login;
  role = user.role;
  full_name = user.full_name;
}

abbrev pub write_status_error : ℕ → String → Response Body
write_status_error status text = record { status = status; body = error_response text }

unfoldable pub user_error_status : Error → ℕ
unfolding errors_is
user_error_status e =
    if errors_is e invalid_role || (errors_is e invalid_user_data || errors_is e user_not_found)
    then 400
    else if errors_is e user_already_exists
    then 409
    else 500

unfoldable pub write_user_error : Error → Response Body
unfolding user_error_status message
write_user_error e = write_status_error (user_error_status e) (message e)

abbrev pub bad_request : Response Body
bad_request = write_status_error 400 "bad request"

module _ {S : Type 0} (repo : UserRepository S) (tokens : TokenManager S) where
  abbrev registered : Result Error User × S → Response Body × S
  registered (ok user, s) =
      (record { status = 200; body = user_response (to_user_response user) }, s)
  registered (err e, s) = (write_user_error e, s)

  unfoldable pub post_auth_register : Option RegisterRequest → S → Response Body × S
  unfolding write_user_error
  post_auth_register none s = (bad_request, s)
  post_auth_register (some req) s =
      if is_blank req.login
        || (is_blank req.password || (is_blank req.role || is_blank req.full_name))
      then (bad_request, s)
      else registered (register repo tokens req.login req.password req.role req.full_name s)

  abbrev logged_in : Result Error String × S → Response Body × S
  logged_in (ok token, s) = (record { status = 200; body = login_response token }, s)
  logged_in (err e, s) = (write_status_error 401 "unauthorized", s)

  unfoldable pub post_auth_login : Option LoginRequest → S → Response Body × S
  post_auth_login none s = (bad_request, s)
  post_auth_login (some req) s =
      if is_blank req.login || is_blank req.password
      then (bad_request, s)
      else logged_in (login repo tokens req.login req.password s)

  abbrev shown : Result Error User × S → Response Body × S
  shown (ok user, s) = (record { status = 200; body = user_response (to_user_response user) }, s)
  shown (err e, s) = (write_user_error e, s)

  -- The claims are those that the middleware put into the context of the request.
  unfoldable pub get_auth_me : Option Claims → S → Response Body × S
  unfolding write_user_error
  get_auth_me none s = (write_status_error 401 "missing token claims", s)
  get_auth_me (some claims) s = shown (get_user_by_id repo tokens claims.user_id s)
