-- ===== src/Auth/Memory.antt =====
-- internal/adapter/auth/repository/in_memory/in_memory_user_repo.go. The map from logins to users
-- is a list of its entries; each holds a copy of its user, so nobody else can change it.
pub mod Entries
use uban_z.Prelude.{
  ℕ, suc, ℤ, pos, eqb_ℤ, String, List, [], ◌∷◌, find, Option, none, some, M, Result, ok, err, ◌==◌,
}
use uban_z.Auth.Domain.{User, Error, user_already_exists, user_not_found}
use uban_z.Auth.Service.{UserRepository}

pub record InMemoryUserRepo : Type 0 where
  pub users : List (String × User)
  pub id_seq : ℕ

unfoldable pub new_in_memory_user_repo : InMemoryUserRepo
new_in_memory_user_repo = record { users = []; id_seq = 0 }

abbrev pub lookup : String → List (String × User) → Option (String × User)
lookup login users = find (λ entry. entry.0 == login) users

abbrev pub with_user_id : ℤ → List (String × User) → Option (String × User)
with_user_id id users = find (λ entry. eqb_ℤ entry.1.id id) users

abbrev pub numbered_user : User → InMemoryUserRepo → User
numbered_user user r = record user { id = pos (suc r.id_seq) }

unfoldable pub create : User → M InMemoryUserRepo Error User
create user r = elim (lookup user.login r.users) [
  | some entry ↦ (err user_already_exists, r)
  | none ↦ (
    ok (numbered_user user r),
    record { users = (user.login, numbered_user user r) ∷ r.users; id_seq = suc r.id_seq },
  )
]

abbrev pub found_or_missing : Option (String × User) → Result Error User
found_or_missing none = err user_not_found
found_or_missing (some entry) = ok entry.1

unfoldable pub get_by_login : String → M InMemoryUserRepo Error User
get_by_login login r = (found_or_missing (lookup login r.users), r)

-- The order in which a loop visits the entries of the map, which Go leaves open.
abbrev pub Visit : Type 0
Visit = List (String × User) → List (String × User)

module _ (visit : Visit) where
  unfoldable pub get_by_id : ℤ → M InMemoryUserRepo Error User
  get_by_id id r = (found_or_missing (with_user_id id (visit r.users)), r)

  abbrev pub memory_users : UserRepository InMemoryUserRepo
  memory_users = record { create = create; get_by_login = get_by_login; get_by_id = get_by_id }
