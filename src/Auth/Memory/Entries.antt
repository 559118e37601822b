-- ===== src/Auth/Memory/Entries.antt =====
-- The repository in memory keeps the laws of a repository, and its identifiers name one user each.
use mathlib.Core.List.{Memᴰ}
use uban_z.Prelude.{
  ℕ, suc, ℤ, pos, negsuc, eqb_ℤ, eqb_ℤ_iff, eqb_ℤ_refl, ◌≤◌, String, Bool, true, false, List, [],
  ◌∷◌, find, All, All-mono, some, ◌≡◌, ◌≢◌, ◌==◌, eq_iff, eq_refl, refl, sym, ap, ◌∙◌, subst, arith,
  ok, err, Option-cases, Bool-cases, inl, inr,
}
use uban_z.Auth.Domain.{User, Error, user_already_exists}
use uban_z.Auth.Memory.{
  new_in_memory_user_repo, InMemoryUserRepo, create, get_by_login, get_by_id, lookup, with_user_id,
  memory_users, Visit,
}
use uban_z.Auth.Service.Accounts.{Laws}

abbrev IsIdBelow : ℕ → ℤ → Type 0
IsIdBelow n (pos k) = k ≤ n
IsIdBelow n (negsuc k) = ⊥

-- No two entries have the same identifier, whatever their order.
abbrev Distinct : List (String × User) → Type 0
Distinct [] = Unit
Distinct (e ∷ es) = All (λ x. eqb_ℤ x.1.id e.1.id ≡ false) es × Distinct es

pub record IsValid (r : InMemoryUserRepo) : Type 0 where
  pub keyed : All (λ e. e.0 ≡ e.1.login) r.users
  pub ids : All (λ e. IsIdBelow r.id_seq e.1.id) r.users
  pub distinct : Distinct r.users

below_fresh :
    (n : ℕ) (z : ℤ) → IsIdBelow n z → IsIdBelow (suc n) z × (eqb_ℤ z (pos (suc n)) ≡ false)
below_fresh n (pos k) h = (omega arith, ground arith)
below_fresh n (negsuc k) h = absurd h

pub create-IsValid : (user : User) (r : InMemoryUserRepo) → IsValid r → IsValid (create user r).1
unfolding create
create-IsValid user r v = elim (Option-cases (lookup user.login r.users)) [
  | inr (e, h) ↦ rw (h, create) v
  | inl h ↦
      rw (h, create)
        (record {
          keyed = (refl, v.keyed);
          ids = (omega arith, All-mono (λ e k. (below_fresh r.id_seq e.1.id k).0) r.users v.ids);
          distinct =
              (All-mono (λ e k. (below_fresh r.id_seq e.1.id k).1) r.users v.ids, v.distinct);
        })
]

find-some :
    (p : String × User → Bool) (P : String × User → Type 0) (es : List (String × User))
    (e : String × User)
    → find p es ≡ some e
    → All P es
    → (p e ≡ true) × P e
find-some p P [] e h k = absurd (cc h)
find-some p P (x ∷ es) e h k = elim (Bool-cases (p x)) [
  | inl t ↦ subst (λ y. (p y ≡ true) × P y) (ground arith) (t, k.0)
  | inr f ↦ find-some p P es e (ground arith) k.1
]

create_ok :
    (user u : User) (r t : InMemoryUserRepo)
    → create user r ≡ (ok u, t)
    → (u ≡ record user { id = u.id }) × (get_by_login user.login t ≡ (ok u, t))
unfolding create get_by_login
create_ok user u r t h = ground (arith, eq_refl user.login)

get_by_login_ok :
    (name : String) (u : User) (r t : InMemoryUserRepo)
    → IsValid r
    → get_by_login name r ≡ (ok u, t)
    → (u.login ≡ name) × (t ≡ r)
unfolding get_by_login
get_by_login_ok name u r t v h = elim (Option-cases (lookup name r.users)) [
  | inl e ↦ absurd (ground arith)
  | inr (x, e) ↦
      let f =
        find-some (λ entry. entry.0 == name) (λ entry. entry.0 ≡ entry.1.login) r.users x e
          v.keyed in
      (ground (arith, f, eq_iff x.0 name), ground arith)
]

create_taken :
    (user u : User) (r t : InMemoryUserRepo)
    → get_by_login user.login r ≡ (ok u, t)
    → (e : Error) × ((create user r).0 ≡ err e)
unfolding create get_by_login
create_taken user u r t h = elim (Option-cases (lookup user.login r.users)) [
  | inl e ↦ absurd (ground arith)
  | inr (x, e) ↦ (user_already_exists, ground arith)
]

create_others :
    (user : User) (name : String) (r : InMemoryUserRepo)
    → name ≢ user.login
    → (get_by_login name (create user r).1).0 ≡ (get_by_login name r).0
unfolding create get_by_login
create_others user name r h = elim (Option-cases (lookup user.login r.users)) [
  | inl e ↦ ground (arith, eq_iff user.login name)
  | inr (x, e) ↦ ground arith
]

-- In whichever order Go visits its map, the repository in memory keeps the laws of a repository,
-- in the states where its keys are the users' logins and its identifiers are distinct and at most
-- the counter.
pub memory-Laws : (visit : Visit) → Laws IsValid (memory_users visit)
memory-Laws visit = record {
  keeps = λ user r v. create-IsValid user r v;
  created = λ user u r t v h. create_ok user u r t h;
  found = λ name u r t v h. get_by_login_ok name u r t v h;
  unique = λ user u r t v h. create_taken user u r t h;
  others = λ user name r v h. create_others user name r h;
}

pub new-IsValid : IsValid new_in_memory_user_repo
unfolding new_in_memory_user_repo
new-IsValid = record { keyed = tt; ids = tt; distinct = tt }

-- An order visits the entries that there are.
pub record IsVisit (visit : Visit) : Type 0 where
  pub all_seen : (e : String × User) (es : List (String × User)) → Memᴰ e es → Memᴰ e (visit es)
  pub only_these : (e : String × User) (es : List (String × User)) → Memᴰ e (visit es) → Memᴰ e es

apart :
    (es : List (String × User)) (e : String × User) (z : ℤ)
    → All (λ x. eqb_ℤ x.1.id z ≡ false) es
    → Memᴰ e es
    → eqb_ℤ e.1.id z ≡ false
apart [] e z h m = elim m [ ]
apart (x ∷ es) e z h (Memᴰ.head k) = ground (arith, k, h.0)
apart (x ∷ es) e z h (Memᴰ.tail m) = apart es e z h.1 m

-- Distinct identifiers name one entry each.
same_entry :
    (es : List (String × User)) (e x : String × User)
    → Distinct es
    → Memᴰ e es
    → Memᴰ x es
    → e.1.id ≡ x.1.id
    → x ≡ e
same_entry [] e x d m n h = elim m [ ]
same_entry (y ∷ es) e x d (Memᴰ.head k) (Memᴰ.head l) h = l ∙ sym k
same_entry (y ∷ es) e x d (Memᴰ.head k) (Memᴰ.tail n) h =
    absurd (ground (arith, k, h, apart es x y.1.id d.0 n, eqb_ℤ_iff x.1.id y.1.id))
same_entry (y ∷ es) e x d (Memᴰ.tail m) (Memᴰ.head l) h =
    absurd (ground (arith, l, h, apart es e y.1.id d.0 m, eqb_ℤ_iff e.1.id y.1.id))
same_entry (y ∷ es) e x d (Memᴰ.tail m) (Memᴰ.tail n) h = same_entry es e x d.1 m n h

-- A search by identifier finds an entry with it, where there is one.
find_member :
    (es : List (String × User)) (e : String × User)
    → Memᴰ e es
    → (x : String × User) × (with_user_id e.1.id es ≡ some x) × Memᴰ x es × (e.1.id ≡ x.1.id)
find_member [] e m = elim m [ ]
find_member (y ∷ es) e (Memᴰ.head k) =
    (y, rw k (rw (eqb_ℤ_refl y.1.id) refl), Memᴰ.head refl, ap (λ (t : String × User). t.1.id) k)
find_member (y ∷ es) e (Memᴰ.tail m) = elim (Bool-cases (eqb_ℤ y.1.id e.1.id)) [
  | inl t ↦ (y, rw t refl, Memᴰ.head refl, sym ((eqb_ℤ_iff y.1.id e.1.id).0 t))
  | inr f ↦ let found = find_member es e m in (found.0, rw f found.1, Memᴰ.tail found.2, found.3)
]

-- In a valid state of the repository in memory, looking up the identifier of any entry finds that
-- entry's user, in whichever order Go visits the map.
pub get_by_id-entry :
    (visit : Visit) (r : InMemoryUserRepo) (e : String × User)
    → IsVisit visit
    → IsValid r
    → Memᴰ e r.users
    → get_by_id visit e.1.id r ≡ (ok e.1, r)
unfolding get_by_id
get_by_id-entry visit r e o v m =
    let found = find_member (visit r.users) e (o.all_seen e r.users m) in
    let same : found.0 ≡ e =
      same_entry r.users e found.0 v.distinct m (o.only_these found.0 r.users found.2) found.3 in
    rw (found.1 ∙ ap some same) refl
