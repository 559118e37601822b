-- ===== src/Httpx/Jwt.antt =====
-- github.com/golang-jwt/jwt, a library outside this repository: a parameter of what uses it.
use uban_z.Prelude.{
  ℕ, ◌/◌, ◌*◌, ◌+◌, ◌-◌, ◌<◌, ℤ, pos, negsuc, String, List, find, Option, none, some, ◌≡◌, ◌==◌,
  ◌||◌, Result, ok, leb, if◌then◌else◌,
}
use uban_z.Clock.{Time, second, zero_time}

-- A value of a claim; of a number, its whole part.
pub data ClaimValue : Type 0 where
  text : String → ClaimValue
  number : ℤ → ClaimValue
  other_value : ClaimValue

abbrev pub MapClaims : Type 0
MapClaims = List (String × ClaimValue)

-- `claims[key]`.
abbrev entry_value : Option (String × ClaimValue) → Option ClaimValue
entry_value none = none
entry_value (some e) = some e.1

abbrev pub claim : String → MapClaims → Option ClaimValue
claim key claims = entry_value (find (λ e. e.0 == key) claims)

-- `Unix()`: whole seconds since 1970; Go counts its own from the year 1.
abbrev pub epoch : ℕ
epoch = zero_time / second + 62_135_596_800

abbrev pub unix : Time → ℤ
unix t = let s = t / second in if leb epoch s then pos (s - epoch) else negsuc (epoch - s - 1)

-- `jwt.NewWithClaims(HS256, claims).SignedString(secret)`, and `jwt.Parse` at an instant: the key
-- function tells the secret for the algorithm that a token names, or refuses it.
pub record Jwt : Type 0 where
  pub sign : (secret : String) → MapClaims → Result String String
  pub parse : (key : String → Option String) → Time → String → Result String MapClaims

-- The documented behaviour relied on: a signed token that has not expired is read back, its texts
-- unchanged, by a key function that has its secret for HS256.
pub record IsJwt (jwt : Jwt) : Type 0 where
  pub read_back :
      (secret raw : String) (claims : MapClaims) (expiry : ℕ) (key : String → Option String)
      (now : Time)
      → jwt.sign secret claims ≡ ok raw
      → key "HS256" ≡ some secret
      → claim "exp" claims ≡ some (number (pos expiry))
      → now < second * (expiry + epoch)
      → (parsed : MapClaims) × (jwt.parse key now raw ≡ ok parsed)
        × ((name s : String)
            → claim name claims ≡ some (text s)
            → claim name parsed ≡ some (text s))

-- A token signed with an HMAC algorithm.
abbrev pub hmac_key : String → String → Option String
hmac_key secret alg =
    if alg == "HS256" || (alg == "HS384" || alg == "HS512") then some secret else none
