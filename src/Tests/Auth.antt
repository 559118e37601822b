-- ===== src/Tests/Auth.antt =====
-- Accounts and tokens: one user, and a token library that signs the claims of that user only.
use uban_z.Prelude.{
  ℕ, ◌<◌, ◌*◌, ◌+◌, pos, eqb_ℤ, eqb_ℤ_iff, String, Bool, true, false, not, ◌&&◌, List, [], ◌∷◌,
  Option, none, some, ◌≡◌, ◌==◌, eq_iff, refl, subst, ap, ◌∙◌, arith, ltb, trim_space, Result, ok,
  err, M, if◌then◌else◌,
}
use uban_z.Clock.{Time, second}
use uban_z.Auth.Domain.{User, Error}
use uban_z.Auth.Service.{UserRepository, TokenManager, new_user, register, login}
use uban_z.Auth.Service.Accounts.{Laws, login-register, login_sound}
use uban_z.Auth.Memory.{InMemoryUserRepo, new_in_memory_user_repo, Visit, memory_users, get_by_id}
use mathlib.Core.List.{Memᴰ}
use uban_z.Auth.Memory
use uban_z.Auth.Memory.Entries.{get_by_id-entry, IsVisit, memory-Laws, new-IsValid, IsValid}
use uban_z.Auth.Token
use uban_z.Auth.Token.{jwt_manager, generate}
use uban_z.Auth.Token.Agreement.{verify-generate}
use uban_z.Auth.Token.Session.{identity-login}
use uban_z.Auth.Handler.{
  RegisterRequest, UserResponse, user_response, post_auth_register, get_auth_me,
}
use uban_z.Auth.Handler.Statuses.{get_auth_me-register}
use uban_z.Httpx.Jwt.{Jwt, IsJwt, ClaimValue, text, number, other_value, MapClaims, claim, epoch}
use uban_z.Httpx.Identity

abbrev same_value : ClaimValue → ClaimValue → Bool
same_value (text a) (text b) = a == b
same_value (number a) (number b) = eqb_ℤ a b
same_value _ _ = false

abbrev same_claims : MapClaims → MapClaims → Bool
same_claims [] [] = true
same_claims (a ∷ as') (b ∷ bs) = a.0 == b.0 && (same_value a.1 b.1 && same_claims as' bs)
same_claims _ _ = false

same_value_eq : (a b : ClaimValue) → same_value a b ≡ true → a ≡ b
same_value_eq (text a) (text b) h = ground (arith, eq_iff a b)
same_value_eq (number a) (number b) h = ground (arith, eqb_ℤ_iff a b)
same_value_eq (text a) (number b) h = absurd (cc h)
same_value_eq (number a) (text b) h = absurd (cc h)
same_value_eq other_value b h = absurd (cc h)
same_value_eq (text a) other_value h = absurd (cc h)
same_value_eq (number a) other_value h = absurd (cc h)

same_claims_eq : (a b : MapClaims) → same_claims a b ≡ true → a ≡ b
same_claims_eq [] [] h = refl
same_claims_eq [] (b ∷ bs) h = absurd (cc h)
same_claims_eq (a ∷ as') [] h = absurd (cc h)
same_claims_eq (a ∷ as') (b ∷ bs) h =
    ground (arith, eq_iff a.0 b.0, same_value_eq a.1 b.1, same_claims_eq as' bs)

abbrev known_claims : MapClaims
known_claims =
    ("sub", text "1")
    ∷ ("user_id", number (pos 1))
    ∷ ("login", text "ann")
    ∷ ("role", text "teacher")
    ∷ ("exp", number (pos 86400))
    ∷ []

abbrev has_secret : Option String → Bool
has_secret none = false
has_secret (some secret) = secret == "key"

abbrev jwt : Jwt
jwt = record {
  sign = λ secret claims.
      if same_claims claims known_claims && secret == "key" then ok "token" else err "unknown";
  parse = λ key now raw.
      if raw == "token" && (has_secret (key "HS256") && ltb now (second * (86400 + epoch)))
      then ok known_claims
      else err "invalid";
}

signed_facts :
    (secret raw : String) (claims : MapClaims)
    → jwt.sign secret claims ≡ ok raw
    → (claims ≡ known_claims) × ((secret == "key") ≡ true) × (raw ≡ "token")
signed_facts secret raw claims h = ground (arith, same_claims_eq claims known_claims)

expiry_fact :
    (claims : MapClaims) (expiry : ℕ)
    → claims ≡ known_claims
    → claim "exp" claims ≡ some (number (pos expiry))
    → expiry ≡ 86400
expiry_fact claims expiry e h = known (subst (λ c. claim "exp" c ≡ some (number (pos expiry))) e h)
  where
    known : claim "exp" known_claims ≡ some (number (pos expiry)) → expiry ≡ 86400
    known k = ground arith

reads :
    (secret : String) (key : String → Option String) (now : Time)
    → key "HS256" ≡ some secret
    → (secret == "key") ≡ true
    → now < second * (86400 + epoch)
    → jwt.parse key now "token" ≡ ok known_claims
reads secret key now h e young = ground (arith, h)

jwt-IsJwt : IsJwt jwt
jwt-IsJwt = record {
  read_back = λ secret raw claims expiry key now signed has_key expires young.
      let facts = signed_facts secret raw claims signed in
      let at : expiry ≡ 86400 = expiry_fact claims expiry facts.0 expires in
      (
        known_claims,
        ap (jwt.parse key now) facts.2 ∙ reads secret key now has_key facts.1 (omega (arith, at)),
        λ name s h. subst (λ c. claim name c ≡ some (text s)) facts.0 h,
      );
}

abbrev start : Time
start = second * epoch

abbrev now : InMemoryUserRepo → Time
now r = start

abbrev ann : User
ann = record (new_user "ann" "pass" "teacher" "Ann") { id = pos 1 }

abbrev with_ann : InMemoryUserRepo
with_ann = record { users = ("ann", ann) ∷ []; id_seq = 1 }

with_ann-IsValid : IsValid with_ann
with_ann-IsValid = record { keyed = (refl, tt); ids = (omega arith, tt); distinct = (tt, tt) }

abbrev in_order : Visit
in_order es = es

in_order-IsVisit : IsVisit in_order
in_order-IsVisit = record { all_seen = λ e es m. m; only_these = λ e es m. m }

abbrev users : UserRepository InMemoryUserRepo
users = memory_users in_order

memory-Laws_example : Laws IsValid users
memory-Laws_example = memory-Laws in_order

abbrev tokens : TokenManager InMemoryUserRepo
tokens = jwt_manager jwt now "key"

registered :
    register users tokens "ann" "pass" "teacher" "Ann" new_in_memory_user_repo ≡ (ok ann, with_ann)
unfolding register trim_space uban_z.Prelude.is_space uban_z.Auth.Domain.is_valid_role
    uban_z.Auth.Memory.create new_in_memory_user_repo
registered = refl

logged_in : login users tokens "ann" "pass" with_ann ≡ (ok "token", with_ann)
unfolding login trim_space uban_z.Prelude.is_space uban_z.Auth.Memory.get_by_login generate
logged_in = refl

issued : generate jwt now "key" ann with_ann ≡ (ok "token", with_ann)
unfolding generate
issued = refl

identity-login_example :
    Identity.verify jwt "token" "key" start
    ≡ ok (record { user_id = pos 1; login = "ann"; role = "teacher" })
unfolding trim_space uban_z.Prelude.is_space
identity-login_example =
    identity-login jwt jwt-IsJwt users (memory-Laws in_order) now "key" "ann" "pass" "teacher" "Ann"
      "token" ann new_in_memory_user_repo with_ann with_ann start new-IsValid registered
      (omega arith) logged_in (omega arith) (omega arith)

login-register_example :
    (login users tokens "ann" "pass" with_ann ≡ tokens.generate ann with_ann)
    × (ann ≡ record (new_user (trim_space "ann") "pass" (trim_space "teacher") (trim_space "Ann")) {
      id = pos 1;
    })
login-register_example =
    login-register users tokens (memory-Laws in_order) "ann" "pass" "teacher" "Ann" ann
      new_in_memory_user_repo with_ann new-IsValid registered

login_sound_example :
    (u : User) × (users.get_by_login (trim_space "ann") with_ann ≡ (ok u, with_ann))
    × (u.login ≡ trim_space "ann")
    × (u.password ≡ "pass")
    × (tokens.generate u with_ann ≡ (ok "token", with_ann))
login_sound_example =
    login_sound users tokens (memory-Laws in_order) "ann" "pass" "token" with_ann with_ann
      with_ann-IsValid logged_in

found : users.get_by_login (trim_space "ann") with_ann ≡ (ok ann, with_ann)
unfolding trim_space uban_z.Auth.Memory.get_by_login uban_z.Prelude.is_space
found = refl

verify-generate_example :
    Token.verify jwt now "key" "token" with_ann
    ≡ (ok (record { user_id = pos 1; login = "ann"; role = "teacher" }), with_ann)
verify-generate_example =
    verify-generate jwt jwt-IsJwt now "key" ann "token" with_ann with_ann with_ann (omega arith)
      issued (omega arith) (omega arith)

abbrev req : RegisterRequest
req = record { login = "ann"; password = "pass"; role = "teacher"; full_name = "Ann" }

abbrev shown : UserResponse
shown = record { id = pos 1; login = "ann"; role = "teacher"; full_name = "Ann" }

shown_at_registration :
    post_auth_register users tokens (some req) new_in_memory_user_repo
    ≡ (record { status = 200; body = user_response shown }, with_ann)
unfolding post_auth_register trim_space uban_z.Prelude.is_space register
    uban_z.Auth.Domain.is_valid_role uban_z.Auth.Memory.create new_in_memory_user_repo
shown_at_registration = refl

get_auth_me-register_example :
    get_auth_me users tokens
      (some (record { user_id = pos 1; login = "ann"; role = "teacher" }))
      with_ann
    ≡ (record { status = 200; body = user_response shown }, with_ann)
get_auth_me-register_example =
    get_auth_me-register in_order tokens (some req) new_in_memory_user_repo with_ann shown
      (record { user_id = pos 1; login = "ann"; role = "teacher" }) in_order-IsVisit new-IsValid
      shown_at_registration refl

get_by_id-entry_example : Memory.get_by_id in_order (pos 1) with_ann ≡ (ok ann, with_ann)
get_by_id-entry_example =
    get_by_id-entry in_order with_ann ("ann", ann) in_order-IsVisit with_ann-IsValid
      (Memᴰ.head refl)
