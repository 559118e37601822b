-- ===== src/Auth/Token/Session.antt =====
-- From an account at the auth service to a caller of the booking service.
use uban_z.Prelude.{◌+◌, ◌*◌, ◌≤◌, String, ◌≡◌, ◌∙◌, sym, ap, arith, ok, trim_space, IsInt}
use uban_z.Clock.{Time, hour, second}
use uban_z.Booking.Role.{is_known}
use uban_z.Auth.Domain.{User, is_valid_role}
use uban_z.Auth.Service.{UserRepository, register, login}
use uban_z.Auth.Service.Accounts.{Laws, login-register, register-role}
use uban_z.Auth.Token.{jwt_manager}
use uban_z.Auth.Token.Agreement.{identity-generate}
use uban_z.Httpx.Jwt.{Jwt, IsJwt, epoch}
use uban_z.Httpx.Identity

-- The two services know the same roles.
pub is_valid_role-is_known : (role : String) → is_valid_role role ≡ is_known role
unfolding is_valid_role is_known
is_valid_role-is_known role = ground arith

module _ (jwt : Jwt) (law : IsJwt jwt) {S : Type 0} {Inv : S → Type 0} (repo : UserRepository S)
    (laws : Laws Inv repo) (now : S → Time) (secret : String) where
  -- Over any lawful repository and a token library that reads back what it signed, who registers
  -- and then logs in after 1970 gets a token that the booking service, with the same secret and
  -- until a second before 24 hours have passed, takes for the identifier, the trimmed login and
  -- the trimmed role of that account, where the identifier fits an `int`.
  pub identity-login :
      (name password role full_name raw : String) (u : User) (s t t2 : S) (later : Time)
      → Inv s
      → register repo (jwt_manager jwt now secret) name password role full_name s ≡ (ok u, t)
      → IsInt u.id
      → login repo (jwt_manager jwt now secret) name password t ≡ (ok raw, t2)
      → second * epoch ≤ now t
      → later + second ≤ now t + 24 * hour
      → Identity.verify jwt raw secret later
        ≡ ok (record { user_id = u.id; login = trim_space name; role = trim_space role })
  identity-login name password role full_name raw u s t t2 later v made i logged old young =
      let tokens = jwt_manager jwt now secret in
      let account = login-register repo tokens laws name password role full_name u s t v made in
      let known =
        sym (is_valid_role-is_known u.role)
        ∙ ap (λ x. is_valid_role x.role) account.1
        ∙ register-role repo tokens laws name password role full_name u s t made in
      identity-generate jwt law now secret u raw t t2 later i known (sym account.0 ∙ logged) old
        young
      ∙ ap (λ x. ok (record { user_id = x.id; login = x.login; role = x.role })) account.1
