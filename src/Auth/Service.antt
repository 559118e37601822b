-- ===== src/Auth/Service.antt =====
-- internal/core/auth/service/auth_service.go and internal/core/auth/ports. `S` stands for the
-- store of users and the clock. `Create` writes the identifier into the user that it is given, so
-- that it returns the user here.
pub mod Accounts
use uban_z.Prelude.{
  ℤ, String, Bool, true, false, not, ◌||◌, ◌==◌, M, ◌>>=◌, ◌>>◌, pure, fail, require, Result, ok,
  err, trim_space, if◌then◌else◌,
}
use uban_z.Auth.Domain.{User, Error, invalid_user_data, invalid_role, other, is_valid_role}

pub record Claims : Type 0 where
  pub user_id : ℤ
  pub login : String
  pub role : String

pub record UserRepository (S : Type 0) : Type 0 where
  pub create : User → M S Error User
  pub get_by_login : String → M S Error User
  pub get_by_id : ℤ → M S Error User

pub record TokenManager (S : Type 0) : Type 0 where
  pub generate : User → M S Error String
  pub verify : String → M S Error Claims

abbrev pub invalid_credentials : Error
invalid_credentials = other "invalid credentials"

-- The user that `Register` hands to the repository.
abbrev pub new_user : String → String → String → String → User
new_user login password role full_name = record {
  id = ℤ.pos 0;
  login = login;
  password = password;
  role = role;
  full_name = full_name;
}

-- `if err != nil { return "", errors.New(...) }`.
abbrev pub or_error : {S A : Type 0} → Error → M S Error A → M S Error A
or_error e m s = elim (m s).0 [ ok a ↦ (ok a, (m s).1) | err x ↦ (err e, (m s).1) ]

module _ {S : Type 0} (repo : UserRepository S) (token_manager : TokenManager S) where
  unfoldable pub register : (login password role full_name : String) → M S Error User
  register login password role full_name = do
    require
        (not (trim_space login == "" || (trim_space password == "" || trim_space full_name == "")))
        invalid_user_data
    require (is_valid_role (trim_space role)) invalid_role
    repo.create (new_user (trim_space login) password (trim_space role) (trim_space full_name))

  unfoldable pub login : (name password : String) → M S Error String
  login name password = do
    require (not (trim_space name == "" || trim_space password == "")) invalid_credentials
    user ← or_error invalid_credentials (repo.get_by_login (trim_space name))
    require (user.password == password) invalid_credentials
    token_manager.generate user

  unfoldable pub get_user_by_id : ℤ → M S Error User
  get_user_by_id id = repo.get_by_id id
