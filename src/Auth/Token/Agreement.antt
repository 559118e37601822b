-- ===== src/Auth/Token/Agreement.antt =====
-- A token that the auth service issues is understood by both of its readers.
use uban_z.Prelude.{
  ℕ, ◌+◌, ◌*◌, ◌/◌, ◌-◌, ◌≤◌, pos, String, true, Option, some, ◌≡◌, eq_iff, refl, ap, arith, ok,
  itoa, IsInt, atoi-itoa, itoa-nonempty,
}
use uban_z.Clock.{Time, hour, second}
use uban_z.Booking.Role.{is_known, parse_role}
use uban_z.Auth.Domain.{User}
use uban_z.Auth.Token
use uban_z.Auth.Token.{user_claims, user_id_from_claims, claims_of, generate}
use uban_z.Httpx.Jwt.{Jwt, IsJwt, MapClaims, claim, text, number, unix, hmac_key, epoch}
use uban_z.Httpx.Identity
use uban_z.Httpx.Identity.{Identity, identity_of, string_claim, hs256_key}

-- The claims of a user came back.
record Tells (user : User) (parsed : MapClaims) : Type 0 where
  sub : claim "sub" parsed ≡ some (text (itoa user.id))
  login : claim "login" parsed ≡ some (text user.login)
  role : claim "role" parsed ≡ some (text user.role)

claims_of_lem :
    (user : User) (parsed : MapClaims)
    → Tells user parsed
    → IsInt user.id
    → claims_of parsed ≡ ok (record { user_id = user.id; login = user.login; role = user.role })
unfolding claims_of user_id_from_claims
claims_of_lem user parsed tells i = ground (
  arith,
  tells.sub,
  tells.login,
  tells.role,
  atoi-itoa user.id i,
  itoa-nonempty user.id,
  eq_iff (itoa user.id) "",
)

parse_role-known : (r : String) → is_known r ≡ true → parse_role r ≡ some r
unfolding parse_role
parse_role-known r k = rw k refl

identity_of_lem :
    (user : User) (parsed : MapClaims)
    → Tells user parsed
    → IsInt user.id
    → is_known user.role ≡ true
    → identity_of parsed ≡ ok (record { user_id = user.id; login = user.login; role = user.role })
unfolding identity_of string_claim
identity_of_lem user parsed tells i k =
    ground
      (arith, tells.sub, tells.login, tells.role, atoi-itoa user.id i, parse_role-known user.role k)

unix_after : (t : Time) → second * epoch ≤ t → unix t ≡ pos (t / second - epoch)
unix_after t h = ground arith

module _ (jwt : Jwt) (law : IsJwt jwt) {S : Type 0} (now : S → Time) (secret : String) where
  -- Every key function that has the secret for HS256 reads the claims back while the token lives.
  read_token :
      (user : User) (raw : String) (s t : S) (key : String → Option String) (later : Time)
      → generate jwt now secret user s ≡ (ok raw, t)
      → key "HS256" ≡ some secret
      → second * epoch ≤ now s
      → later + second ≤ now s + 24 * hour
      → (parsed : MapClaims) × (jwt.parse key later raw ≡ ok parsed) × Tells user parsed
  unfolding generate user_claims
  read_token user raw s t key later made has_key old young =
      let expiry : ℕ = (now s + 24 * hour) / second - epoch in
      let (parsed, read, texts) =
        law.read_back secret raw (user_claims user (now s)) expiry key later (ground arith) has_key
          (ap (λ z. some (number z)) (unix_after (now s + 24 * hour) (omega arith)))
          (omega arith) in
      (
        parsed,
        read,
        record {
          sub = texts "sub" (itoa user.id) refl;
          login = texts "login" user.login refl;
          role = texts "role" user.role refl;
        },
      )

  -- With a token library that reads back what it signed, a token generated after 1970 for a user
  -- whose identifier fits an `int` is verified by the same manager until a second before 24 hours
  -- have passed, and names the user's identifier, login and role.
  pub verify-generate :
      (user : User) (raw : String) (s t later : S)
      → IsInt user.id
      → generate jwt now secret user s ≡ (ok raw, t)
      → second * epoch ≤ now s
      → now later + second ≤ now s + 24 * hour
      → Token.verify jwt now secret raw later
        ≡ (ok (record { user_id = user.id; login = user.login; role = user.role }), later)
  unfolding Token.verify
  verify-generate user raw s t later i made old young =
      let (parsed, read, tells) =
        read_token user raw s t (hmac_key secret) (now later) made refl old young in
      ground (arith, read, claims_of_lem user parsed tells i)

  -- A token of the auth service names the same user to the booking service.
  pub identity-generate :
      (user : User) (raw : String) (s t : S) (later : Time)
      → IsInt user.id
      → is_known user.role ≡ true
      → generate jwt now secret user s ≡ (ok raw, t)
      → second * epoch ≤ now s
      → later + second ≤ now s + 24 * hour
      → Identity.verify jwt raw secret later
        ≡ ok (record { user_id = user.id; login = user.login; role = user.role })
  unfolding Identity.verify
  identity-generate user raw s t later i k made old young =
      let (parsed, read, tells) =
        read_token user raw s t (hs256_key secret) later made refl old young in
      ground (arith, read, identity_of_lem user parsed tells i k)
