-- ===== src/Auth/Handler/Statuses.antt =====
-- What the auth service answers over HTTP while its users are kept in memory.
use uban_z.Prelude.{
  ℕ, suc, ◌∷◌, subst, String, Bool, true, false, not, ◌||◌, ◌&&◌, Option, none, some, ◌≡◌, refl,
  arith, trim_space, if◌then◌else◌, Option-cases, inl, inr,
}
use uban_z.Auth.Domain.{User, is_valid_role, errors_is}
use uban_z.Auth.Service.{new_user, TokenManager, Claims, register, get_user_by_id}
use mathlib.Core.List.{Memᴰ}
use uban_z.Auth.Memory.{InMemoryUserRepo, Visit, create, lookup, numbered_user, memory_users}
use uban_z.Auth.Memory.Entries.{IsVisit, IsValid, create-IsValid, get_by_id-entry}
use uban_z.Auth.Handler.{
  RegisterRequest, UserResponse, is_blank, post_auth_register, get_auth_me, user_response,
  user_error_status,
}

-- Whether a request names everything that an account needs.
abbrev is_complete : RegisterRequest → Bool
is_complete req =
    not (
      is_blank req.login
      || (is_blank req.password || (is_blank req.role || is_blank req.full_name)))

abbrev is_free : Option (String × User) → Bool
is_free none = true
is_free (some e) = false

-- The status of a registration, told from the request and the stored users.
abbrev pub register_status : Option RegisterRequest → InMemoryUserRepo → ℕ
register_status none r = 400
register_status (some req) r =
    if is_complete req && is_valid_role (trim_space req.role)
    then (if is_free (lookup (trim_space req.login) r.users) then 200 else 409)
    else 400

module _ (visit : Visit) (tokens : TokenManager InMemoryUserRepo) where
  -- Over the repository in memory, the status of every registration is the one that
  -- `register_status` tells from the request and the stored users: 400 for a body that cannot be
  -- read, a blank field or an unknown role, 409 for a login that is taken, else 200.
  pub post_auth_register-status :
      (req : Option RegisterRequest) (r : InMemoryUserRepo)
      → (post_auth_register (memory_users visit) tokens req r).0.status ≡ register_status req r
  unfolding post_auth_register register create errors_is user_error_status
  post_auth_register-status none r = refl
  post_auth_register-status (some req) r =
      elim (Option-cases (lookup (trim_space req.login) r.users)) [
        | inl e ↦ ground arith
        | inr (x, e) ↦ ground arith
      ]

  -- Over the repository in memory, in whichever order Go visits its map: after a registration in a
  -- valid state that answered with an account, a request for one's own account with claims of that
  -- identifier is answered with the same account.
  pub get_auth_me-register :
      (req : Option RegisterRequest) (r t : InMemoryUserRepo) (shown : UserResponse)
      (claims : Claims)
      → IsVisit visit
      → IsValid r
      → post_auth_register (memory_users visit) tokens req r
        ≡ (record { status = 200; body = user_response shown }, t)
      → claims.user_id ≡ shown.id
      → get_auth_me (memory_users visit) tokens (some claims) t
        ≡ (record { status = 200; body = user_response shown }, t)
  unfolding post_auth_register register create get_auth_me get_user_by_id
  get_auth_me-register none r t shown claims o v h e = absurd (ground arith)
  get_auth_me-register (some req) r t shown claims o v h e =
      let made : User =
        new_user (trim_space req.login) req.password (trim_space req.role)
          (trim_space req.full_name) in
      elim (Option-cases (lookup (trim_space req.login) r.users)) [
        | inl f ↦
            let entry : String × User = (made.login, numbered_user made r) in
            let kept : IsValid (create made r).1 = create-IsValid made r v in
            let stored : (create made r).1
                ≡ record { users = entry ∷ r.users; id_seq = suc r.id_seq } =
              rw (f, create) refl in
            ground (
              arith,
              f,
              get_by_id-entry visit (record { users = entry ∷ r.users; id_seq = suc r.id_seq })
                  entry o (subst IsValid stored kept) (Memᴰ.head refl),
            )
        | inr (x, f) ↦ absurd (ground arith)
      ]
