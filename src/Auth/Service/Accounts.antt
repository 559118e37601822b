-- ===== src/Auth/Service/Accounts.antt =====
-- What the service promises about accounts over any repository that keeps the laws below.
use uban_z.Prelude.{
  ap, ◌∙◌, String, true, false, ◌≡◌, ◌≢◌, ◌==◌, eq_iff, eq_refl, arith, M, ok, err, trim_space,
  Result-cases, inl, inr,
}
use uban_z.Auth.Domain.{User, Error, is_valid_role}
use uban_z.Auth.Service.{UserRepository, TokenManager, new_user, register, login}

-- What the users of a repository may rely on, in the states that `Inv` holds of.
pub record Laws {S : Type 0} (Inv : S → Type 0) (repo : UserRepository S) : Type 0 where
  pub keeps : (user : User) (s : S) → Inv s → Inv (repo.create user s).1
  pub created :
      (user u : User) (s t : S)
      → Inv s
      → repo.create user s ≡ (ok u, t)
      → (u ≡ record user { id = u.id }) × (repo.get_by_login user.login t ≡ (ok u, t))
  pub found :
      (name : String) (u : User) (s t : S)
      → Inv s
      → repo.get_by_login name s ≡ (ok u, t)
      → (u.login ≡ name) × (t ≡ s)
  pub unique :
      (user u : User) (s t : S)
      → Inv s
      → repo.get_by_login user.login s ≡ (ok u, t)
      → (e : Error) × ((repo.create user s).0 ≡ err e)
  pub others :
      (user : User) (name : String) (s : S)
      → Inv s
      → name ≢ user.login
      → (repo.get_by_login name (repo.create user s).1).0 ≡ (repo.get_by_login name s).0

answered : {S E A : Type 0} (m : M S E A) (s : S) (a : A) → (m s).0 ≡ ok a → m s ≡ (ok a, (m s).1)
answered m s a h = ap (λ x. (x, (m s).1)) h

module _ {S : Type 0} {Inv : S → Type 0} (repo : UserRepository S) (tokens : TokenManager S)
    (laws : Laws Inv repo) where
  register_ok :
      (name password role full_name : String) (u : User) (s t : S)
      → register repo tokens name password role full_name s ≡ (ok u, t)
      → ((trim_space name == "") ≡ false)
        × ((trim_space password == "") ≡ false)
        × (is_valid_role (trim_space role) ≡ true)
        × (repo.create
              (new_user (trim_space name) password (trim_space role) (trim_space full_name))
              s
            ≡ (ok u, t))
  unfolding register
  register_ok name password role full_name u s t h = ground arith

  pub register-role :
      (name password role full_name : String) (u : User) (s t : S)
      → register repo tokens name password role full_name s ≡ (ok u, t)
      → is_valid_role (trim_space role) ≡ true
  register-role name password role full_name u s t h =
      (register_ok name password role full_name u s t h).2

  -- Over any repository that keeps the laws, after a registration that succeeded a login with the
  -- same texts does what generating a token for that user does, and the user has the trimmed
  -- login, role and name and the password as given.
  pub login-register :
      (name password role full_name : String) (u : User) (s t : S)
      → Inv s
      → register repo tokens name password role full_name s ≡ (ok u, t)
      → (login repo tokens name password t ≡ tokens.generate u t)
        × (u
            ≡ record (new_user
                (trim_space name)
                password
                (trim_space role)
                (trim_space full_name)) { id = u.id })
  unfolding login
  login-register name password role full_name u s t v h =
      let made = register_ok name password role full_name u s t h in
      let user : User =
        new_user (trim_space name) password (trim_space role) (trim_space full_name) in
      let kept = laws.created user u s t v made.3 in
      let same : (u.password == password) ≡ true =
        ap (λ x. x.password == password) kept.0 ∙ eq_refl password in
      let again : repo.get_by_login (trim_space name) t ≡ (ok u, t) = kept.1 in
      (ground (arith, made.0, made.1, again, same), kept.0)

  after_read :
      (name password token : String) (u : User) (s t : S)
      → repo.get_by_login (trim_space name) s ≡ (ok u, s)
      → login repo tokens name password s ≡ (ok token, t)
      → (u.password ≡ password) × (tokens.generate u s ≡ (ok token, t))
  unfolding login
  after_read name password token u s t read h = ground (arith, eq_iff u.password password)

  -- Over any repository that keeps the laws, a login that is answered with a token found a stored
  -- user of the trimmed login with that very password, and the token was generated for that user.
  pub login_sound :
      (name password token : String) (s t : S)
      → Inv s
      → login repo tokens name password s ≡ (ok token, t)
      → (u : User) × (repo.get_by_login (trim_space name) s ≡ (ok u, s))
        × (u.login ≡ trim_space name)
        × (u.password ≡ password)
        × (tokens.generate u s ≡ (ok token, t))
  unfolding login
  login_sound name password token s t v h =
      elim (Result-cases (repo.get_by_login (trim_space name) s).0) [
        | inl (u, e) ↦
            let got = answered (repo.get_by_login (trim_space name)) s u e in
            let stays =
              laws.found (trim_space name) u s (repo.get_by_login (trim_space name) s).1 v got in
            let read : repo.get_by_login (trim_space name) s ≡ (ok u, s) =
              got ∙ ap (λ x. (ok u, x)) stays.1 in
            let rest = after_read name password token u s t read h in
            (u, read, stays.0, rest.0, rest.1)
        | inr (x, e) ↦ absurd (ground arith)
      ]

  -- Over any repository that keeps the laws, the registration of a login that a stored user has
  -- fails.
  pub register_taken :
      (name password role full_name : String) (u : User) (s t : S)
      → Inv s
      → repo.get_by_login (trim_space name) s ≡ (ok u, t)
      → (e : Error) × ((register repo tokens name password role full_name s).0 ≡ err e)
  register_taken name password role full_name u s t v h =
      let refused =
        laws.unique (new_user (trim_space name) password (trim_space role) (trim_space full_name)) u
          s t v h in
      elim (Result-cases (register repo tokens name password role full_name s).0) [
        | inr (x, e) ↦ (x, e)
        | inl (made, e) ↦
            let ok_made = answered (register repo tokens name password role full_name) s made e in
            absurd
              (ground (arith, refused.1, register_ok name password role full_name made s _ ok_made))
      ]
