-- ===== src/Auth/Users/Rows.antt =====
-- The repository over the users table.
use uban_z.Prelude.{
  String, true, List, [], ◌∷◌, find, any, some, ◌≡◌, ◌≢◌, ◌==◌, eq_iff, eq_refl, arith, ok, err,
  Result-cases, inl, inr,
}
use uban_z.Auth.Domain.{User, Error}
use uban_z.Auth.Users.{UserTable, create, get_by_login, table_users}
use uban_z.Auth.Service.Accounts.{Laws}

-- Every statement that is still to come is answered.
abbrev pub IsAnswered : UserTable → Type 0
IsAnswered s = s.faults ≡ []

create-IsAnswered : (user : User) (s : UserTable) → IsAnswered s → IsAnswered (create user s).1
unfolding create
create-IsAnswered user s c = ground (arith, c)

create_ok :
    (user u : User) (s t : UserTable)
    → IsAnswered s
    → create user s ≡ (ok u, t)
    → (u ≡ record user { id = u.id }) × (get_by_login user.login t ≡ (ok u, t))
unfolding create get_by_login
create_ok user u s t c h = ground (arith, c, eq_refl user.login)

find_login :
    (name : String) (rows : List User) (u : User)
    → find (λ row. row.login == name) rows ≡ some u
    → (u.login ≡ name) × (any (λ row. row.login == name) rows ≡ true)
find_login name [] u h = absurd (cc h)
find_login name (x ∷ rows) u h = ground (arith, eq_iff x.login name, find_login name rows u)

get_by_login_ok :
    (name : String) (u : User) (s t : UserTable)
    → IsAnswered s
    → get_by_login name s ≡ (ok u, t)
    → (find (λ row. row.login == name) s.rows ≡ some u) × (t ≡ s)
unfolding get_by_login
get_by_login_ok name u s t c h = ground (arith, c)

create_taken :
    (user u : User) (s t : UserTable)
    → IsAnswered s
    → get_by_login user.login s ≡ (ok u, t)
    → (e : Error) × ((create user s).0 ≡ err e)
unfolding create
create_taken user u s t c h = elim (Result-cases (create user s).0) [
  | inr (x, e) ↦ (x, e)
  | inl (made, e) ↦ absurd (clash made e)
]
  where
    clash : (made : User) → (create user s).0 ≡ ok made → ⊥
    clash made e =
        let read = get_by_login_ok user.login u s t c h in
        ground (arith, c, read, find_login user.login s.rows u read.0)

create_others :
    (user : User) (name : String) (s : UserTable)
    → IsAnswered s
    → name ≢ user.login
    → (get_by_login name (create user s).1).0 ≡ (get_by_login name s).0
unfolding create get_by_login
create_others user name s c h = ground (arith, c, eq_iff user.login name)

-- As long as every statement is answered, the repository over the users table keeps the laws of a
-- repository.
pub table-Laws : Laws IsAnswered table_users
table-Laws = record {
  keeps = λ user s c. create-IsAnswered user s c;
  created = λ user u s t c h. create_ok user u s t c h;
  found = λ name u s t c h. (
    (find_login name s.rows u (get_by_login_ok name u s t c h).0).0,
    (get_by_login_ok name u s t c h).1,
  );
  unique = λ user u s t c h. create_taken user u s t c h;
  others = λ user name s c h. create_others user name s c h;
}
