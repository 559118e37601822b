-- ===== src/Auth/Token.antt =====
-- internal/adapter/auth/jwt/jwt_manager.go, and internal/adapter/auth/http/middleware/jwt_mdlwr.go.
pub mod Agreement
pub mod Session
use Prim.Native.Char.{Char, code}
use Prim.Native.String
use uban_z.Prelude.{
  ℕ, ◌+◌, ◌*◌, ℤ, String, Bool, true, false, not, List, [], ◌∷◌, Option, none, some, ◌==◌, eqb,
  Result, ok, err, M, itoa, atoi, is_empty, if◌then◌else◌,
}
use uban_z.Clock.{Time, hour}
use uban_z.Auth.Domain.{User, Error, other, wrap}
use uban_z.Auth.Service.{Claims, TokenManager}
use uban_z.Httpx.Jwt.{Jwt, ClaimValue, text, number, other_value, MapClaims, claim, unix, hmac_key}
use uban_z.Httpx.Identity.{Verdict, passes, unauthorized}

unfoldable pub user_claims : User → Time → MapClaims
unfolding itoa
user_claims user now =
    ("sub", text (itoa user.id))
    ∷ ("user_id", number user.id)
    ∷ ("login", text user.login)
    ∷ ("role", text user.role)
    ∷ ("exp", number (unix (now + 24 * hour)))
    ∷ []

abbrev invalid_claim : {A : Type 0} → String → Result Error A
invalid_claim name = err (other (String.◌++◌ "invalid " (String.◌++◌ name " claim")))

abbrev whole_number : Option ClaimValue → Result Error ℤ
whole_number (some (number n)) = ok n
whole_number _ = invalid_claim "user_id"

abbrev read_sub : Option ℤ → Result Error ℤ
read_sub none = invalid_claim "sub"
read_sub (some id) = ok id

abbrev id_of : Option ClaimValue → Option ClaimValue → Result Error ℤ
id_of (some (text sub)) user_id = if sub == "" then whole_number user_id else read_sub (atoi sub)
id_of _ user_id = whole_number user_id

unfoldable pub user_id_from_claims : MapClaims → Result Error ℤ
unfolding atoi
user_id_from_claims claims = id_of (claim "sub" claims) (claim "user_id" claims)

abbrev text_of : String → Option ClaimValue → Result Error String
text_of name (some (text s)) = ok s
text_of name _ = invalid_claim name

abbrev and_then : {A B : Type 0} → Result Error A → (A → Result Error B) → Result Error B
and_then (ok a) f = f a
and_then (err e) f = err e

-- What `Verify` reads from the claims of a token.
unfoldable pub claims_of : MapClaims → Result Error Claims
unfolding user_id_from_claims
claims_of claims = and_then (user_id_from_claims claims) λ user_id.
    and_then (text_of "login" (claim "login" claims)) λ login.
      and_then (text_of "role" (claim "role" claims))
        λ role. ok (record { user_id = user_id; login = login; role = role })

module _ (jwt : Jwt) {S : Type 0} (now : S → Time) (secret : String) where
  unfoldable pub generate : User → M S Error String
  unfolding user_claims
  generate user s = elim (jwt.sign secret (user_claims user (now s))) [
    | ok raw ↦ (ok raw, s)
    | err e ↦ (err (other e), s)
  ]

  unfoldable pub verify : String → M S Error Claims
  unfolding claims_of
  verify raw s = elim (jwt.parse (hmac_key secret) (now s) raw) [
    | err e ↦ (err (wrap "parse token" (other e)), s)
    | ok claims ↦ (claims_of claims, s)
  ]

  abbrev pub jwt_manager : TokenManager S
  jwt_manager = record { generate = generate; verify = verify }

-- `strings.SplitN(header, " ", 2)`: what stands before and after the first space.
abbrev push_front : Char → Option (String × String) → Option (String × String)
push_front c none = none
push_front c (some parts) = some (String.◌∷◌ c parts.0, parts.1)

unfoldable pub split_space : String → Option (String × String)
split_space String.[] = none
split_space (String.◌∷◌ c s) =
    let rest = split_space s in if eqb (code c) b' ' then some ("", s) else push_front c rest

module _ {S : Type 0} (tokens : TokenManager S) where
  abbrev verdict_of : Result Error Claims × S → Verdict Claims × S
  verdict_of (ok claims, s) = (passes claims, s)
  verdict_of (err e, s) = (unauthorized "invalid token", s)

  abbrev checked : Option (String × String) → S → Verdict Claims × S
  checked none s = (unauthorized "invalid token format", s)
  checked (some parts) s =
      if parts.0 == "Bearer"
      then verdict_of (tokens.verify parts.1 s)
      else (unauthorized "invalid token format", s)

  unfoldable pub jwt_middleware : (header : String) → S → Verdict Claims × S
  unfolding split_space
  jwt_middleware header s =
      if header == "" then (unauthorized "missing token", s) else checked (split_space header) s
