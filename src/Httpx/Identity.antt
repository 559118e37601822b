-- ===== src/Httpx/Identity.antt =====
-- internal/platform/httpx/jwt.go.
use Prim.Native.String
use uban_z.Prelude.{
  ℤ, String, not, ◌||◌, Option, none, some, ◌==◌, Result, ok, err, atoi, has_prefix, drop_text,
  is_empty, if◌then◌else◌,
}
use uban_z.Clock.{Time}
use uban_z.Booking.Role.{Role, parse_role}
use uban_z.Httpx.Jwt.{Jwt, text, number, other_value, MapClaims, claim, hmac_key}

pub record Identity : Type 0 where
  pub user_id : ℤ
  pub login : String
  pub role : Role

unfoldable pub string_claim : MapClaims → String → Result String String
string_claim claims key = elim (claim key claims) [
  | none ↦ err (String.◌++◌ "missing claim: " key)
  | some v ↦ elim v [
    | text s ↦ ok s
    | number n ↦ err (String.◌++◌ "claim is not a string: " key)
    | other_value ↦ err (String.◌++◌ "claim is not a string: " key)
  ]
]

-- `WithValidMethods` and the key function.
abbrev pub hs256_key : String → String → Option String
hs256_key secret alg = if alg == "HS256" then hmac_key secret alg else none

abbrev and_then : {A B : Type 0} → Result String A → (A → Result String B) → Result String B
and_then (ok a) f = f a
and_then (err e) f = err e

abbrev or_else : {A : Type 0} → String → Option A → Result String A
or_else e none = err e
or_else e (some a) = ok a

-- What `verify` reads from the claims of a token.
unfoldable pub identity_of : MapClaims → Result String Identity
unfolding string_claim parse_role atoi
identity_of claims = and_then (string_claim claims "sub") λ sub.
    and_then (or_else "sub is not an integer" (atoi sub)) λ user_id.
      and_then (string_claim claims "login") λ login.
        and_then (string_claim claims "role") λ role_text.
          and_then (or_else "unknown role" (parse_role role_text))
            λ role. ok (record { user_id = user_id; login = login; role = role })

module _ (jwt : Jwt) where
  unfoldable pub verify : (raw secret : String) → Time → Result String Identity
  unfolding identity_of
  verify raw secret now = elim (jwt.parse (hs256_key secret) now raw) [
    | err e ↦ err "token rejected"
    | ok claims ↦ identity_of claims
  ]

-- What a middleware makes of a request: it passes it on, or answers 401 with a message.
pub data Verdict (A : Type 0) : Type 0 where
  passes : A → Verdict A
  unauthorized : String → Verdict A

module _ (jwt : Jwt) where
  abbrev verdict_of : Result String Identity → Verdict (Option Identity)
  verdict_of (ok identity) = passes (some identity)
  verdict_of (err e) = unauthorized "invalid or expired token"

  -- The Authorization header of a request without one is the empty text.
  unfoldable pub parse_token :
      (secret : String) → Time → (header : String) → Verdict (Option Identity)
  unfolding verify has_prefix drop_text
  parse_token secret now header =
      if header == ""
      then passes none
      else if not (has_prefix header "Bearer ") || is_empty (drop_text 7 header)
      then unauthorized "invalid authorization header"
      else verdict_of (verify jwt (drop_text 7 header) secret now)

unfoldable pub require_identity : Option Identity → Verdict Identity
require_identity none = unauthorized "authentication required"
require_identity (some identity) = passes identity
