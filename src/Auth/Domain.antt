-- ===== src/Auth/Domain.antt =====
-- internal/core/auth/domain/user.go, with the errors of the adapters that wrap them.
use Prim.Native.String
use uban_z.Prelude.{ℤ, String, Bool, true, false, ◌||◌, ◌==◌}

pub record User : Type 0 where
  pub id : ℤ
  pub login : String
  pub password : String
  pub role : String
  pub full_name : String

pub data Error : Type 0 where
  invalid_role invalid_user_data user_already_exists user_not_found : Error
  no_rows : Error
  pg_error : (code : String) → Error
  other : String → Error
  wrap : String → Error → Error

unfoldable pub errors_is : Error → Error → Bool
errors_is (wrap p e) target = errors_is e target
errors_is invalid_role invalid_role = true
errors_is invalid_user_data invalid_user_data = true
errors_is user_already_exists user_already_exists = true
errors_is user_not_found user_not_found = true
errors_is no_rows no_rows = true
errors_is e target = false

-- `Error()`.
unfoldable pub message : Error → String
message invalid_role = "invalid role"
message invalid_user_data = "invalid user data"
message user_already_exists = "user already exists"
message user_not_found = "user not found"
message no_rows = "no rows in result set"
message (pg_error code) = code
message (other s) = s
message (wrap p e) = String.◌++◌ p (String.◌++◌ ": " (message e))

unfoldable pub is_valid_role : String → Bool
is_valid_role role =
    role == "student_b"
    || (role == "student_m" || (role == "student_a" || (role == "teacher" || role == "admin")))
