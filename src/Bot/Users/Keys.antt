-- ===== src/Bot/Users/Keys.antt =====
-- The keys of the tables of students and teachers: rows are told apart by their identifier and by
-- their user, and the users set aside for rows that nobody holds are held by nobody else.
use uban_z.Prelude.{
  ℕ, ◌<◌, ℤ, eqb, eqb_ℤ_iff, eqb_ℤ_refl, Bool, true, false, not, ◌&&◌, ◌||◌, List, [], ◌∷◌, any,
  map, ok, ◌≡◌, ◌≢◌, refl, sym, ap, ◌∙◌, inl, inr, arith, Among, Bool-cases, any-eq-false,
  any-eq-true, Among-map, Among-of_map,
}
use uban_z.Bot.Tables.{Account, has_user, holds, is_bound}
use uban_z.Bot.Users.{placeholder, add_user, add_placeholders, rebind_row, rebind}

pub record IsKeyed {D : Type 0} (base : ℕ) (rows : List (Account D)) : Type 0 where
  pub by_id : (a b : Account D) → Among a rows → Among b rows → a.id ≡ b.id → a ≡ b
  pub by_user : (a b : Account D) → Among a rows → Among b rows → a.user_id ≡ b.user_id → a ≡ b
  pub reserved : (a : Account D) (k : ℕ) → Among a rows → a.user_id ≡ placeholder base k → a.id ≡ k

placeholder_inj : (base a b : ℕ) → 0 < base → placeholder base a ≡ placeholder base b → a ≡ b
placeholder_inj base a b h e = ground arith

has_user-add_user :
    (u v : ℤ) (users : List ℤ) → has_user v users ≡ true → has_user v (add_user u users) ≡ true
unfolding add_user
has_user-add_user u v users h = ground arith

pub has_user-add_user_self : (u : ℤ) (users : List ℤ) → has_user u (add_user u users) ≡ true
unfolding add_user
has_user-add_user_self u users = ground (arith, eqb_ℤ_refl u)

module _ {D : Type 0} where
  pub has_user-add_placeholders_old :
      (base : ℕ) (u v : ℤ) (rows : List (Account D)) (users : List ℤ)
      → has_user v users ≡ true
      → has_user v (add_placeholders base u rows users) ≡ true
  unfolding add_placeholders
  has_user-add_placeholders_old base u v [] users h = h
  has_user-add_placeholders_old base u v (a ∷ rows) users h = ground (
    arith,
    has_user-add_placeholders_old base u v rows users,
    has_user-add_user (placeholder base a.id) v (add_placeholders base u rows users),
  )

  has_user-add_placeholders :
      (base : ℕ) (u : ℤ) (a : Account D) (rows : List (Account D)) (users : List ℤ)
      → Among a rows
      → holds u a ≡ true
      → has_user (placeholder base a.id) (add_placeholders base u rows users) ≡ true
  unfolding add_placeholders
  has_user-add_placeholders base u a [] users m h = elim m [ ]
  has_user-add_placeholders base u a (x ∷ rows) users (inl e) h =
      rw (← e)
        (rw h (has_user-add_user_self (placeholder base a.id) (add_placeholders base u rows users)))
  has_user-add_placeholders base u a (x ∷ rows) users (inr m) h = ground (
    arith,
    has_user-add_placeholders base u a rows users m h,
    has_user-add_user (placeholder base x.id) (placeholder base a.id)
        (add_placeholders base u rows users),
  )

  -- An update that takes nobody's user and names known users goes through.
  rebind-eq-ok :
      (test : Account D → Bool) (new : Account D → ℤ) (users : List ℤ) (rows : List (Account D))
      → ((a b : Account D)
          → Among a rows
          → Among b rows
          → test a ≡ true
          → test b ≡ false
          → holds (new a) b ≡ false)
      → ((a : Account D) → Among a rows → test a ≡ true → has_user (new a) users ≡ true)
      → rebind test new users rows ≡ ok (map (rebind_row test new) rows)
  unfolding rebind
  rebind-eq-ok test new users rows free known =
      rw
        (any-eq-false (λ a. test a && any (λ b. not (test b) && holds (new a) b) rows) rows
          λ a m. elim (Bool-cases (test a)) [
            | inr e ↦ rw e
            | inl e ↦ rw e (
                any-eq-false (λ b. not (test b) && holds (new a) b) rows
                  λ b k. ground (arith, free a b m k e))
          ])
        (rw (
          any-eq-false (λ a. test a && not (has_user (new a) users)) rows
            λ a m. ground (arith, known a m)))

  abbrev pub release : ℕ → ℤ → Account D → Account D
  release base u = rebind_row (holds u) (λ a. placeholder base a.id)

  abbrev pub give : ℕ → ℤ → Account D → Account D
  give id u = rebind_row (λ a. eqb a.id id) (λ _. u)

  pub map-IsKeyed :
      {base : ℕ} {rows : List (Account D)}
      → IsKeyed base rows
      → (f : Account D → Account D) → ((a : Account D) → (f a).id ≡ a.id)
      → ((a b : Account D) → Among a rows → Among b rows → (f a).user_id ≡ (f b).user_id → a ≡ b)
      → ((a : Account D) (k : ℕ) → Among a rows → (f a).user_id ≡ placeholder base k → a.id ≡ k)
      → IsKeyed base (map f rows)
  map-IsKeyed {rows} keyed f same inj res = record {
    by_id = λ a' b' m k e.
        let (a, m', p) = Among-of_map f rows m in
        let (b, k', q) = Among-of_map f rows k in
        p
        ∙ ap f (
            keyed.by_id a b m' k'
              (sym (same a) ∙ sym (ap (λ r. r.id) p) ∙ e ∙ ap (λ r. r.id) q ∙ same b))
        ∙ sym q;
    by_user = λ a' b' m k e.
        let (a, m', p) = Among-of_map f rows m in
        let (b, k', q) = Among-of_map f rows k in
        p ∙ ap f (inj a b m' k' (sym (ap (λ r. r.user_id) p) ∙ e ∙ ap (λ r. r.user_id) q)) ∙ sym q;
    reserved = λ a' k m e.
        let (a, m', p) = Among-of_map f rows m in
        ap (λ r. r.id) p ∙ same a ∙ res a k m' (sym (ap (λ r. r.user_id) p) ∙ e);
  }

  module _ {base : ℕ} (positive : 0 < base) {rows : List (Account D)} (keyed : IsKeyed base rows)
      (u : ℤ) where
    pub rebind-release :
        (users : List ℤ)
        → rebind (holds u) (λ a. placeholder base a.id) (add_placeholders base u rows users) rows
          ≡ ok (map (release base u) rows)
    rebind-release users =
        rebind-eq-ok _ _ _ _
          (λ a b m k ha hb. elim (Bool-cases (holds (placeholder base a.id) b)) [
            | inr e ↦ e
            | inl e ↦
                let same =
                  keyed.by_id a b m k (sym (keyed.reserved b a.id k ((eqb_ℤ_iff _ _).0 e))) in
                cc (ap (holds u) same)
          ])
          (λ a m h. has_user-add_placeholders base u a rows users m h)

    release_inj :
        (a b : Account D)
        → Among a rows
        → Among b rows
        → (release base u a).user_id ≡ (release base u b).user_id
        → a ≡ b
    release_inj a b m k e = elim (Bool-cases (holds u a)) [
      | inl p ↦ elim (Bool-cases (holds u b)) [
        | inl q ↦ keyed.by_id a b m k (placeholder_inj base a.id b.id positive (ground arith))
        | inr q ↦ keyed.by_id a b m k (sym (keyed.reserved b a.id k (ground arith)))
      ]
      | inr p ↦ elim (Bool-cases (holds u b)) [
        | inl q ↦ keyed.by_id a b m k (keyed.reserved a b.id m (ground arith))
        | inr q ↦ keyed.by_user a b m k (ground arith)
      ]
    ]

    release-reserved :
        (a : Account D) (k : ℕ)
        → Among a rows
        → (release base u a).user_id ≡ placeholder base k
        → a.id ≡ k
    release-reserved a k m e = elim (Bool-cases (holds u a)) [
      | inl p ↦ placeholder_inj base a.id k positive (ground arith)
      | inr p ↦ keyed.reserved a k m (ground arith)
    ]

    pub release-IsKeyed : IsKeyed base (map (release base u) rows)
    release-IsKeyed =
        map-IsKeyed keyed (release base u) (λ a. ground arith) release_inj release-reserved

    pub unbound-release :
        ((k : ℕ) → u ≢ placeholder base k) → is_bound u (map (release base u) rows) ≡ false
    unbound-release ordinary = any-eq-false (holds u) (map (release base u) rows) λ a' m.
        let (a, k, e) = Among-of_map (release base u) rows m in
        rw e (elim (Bool-cases (holds u a)) [
          | inr p ↦ ground arith
          | inl p ↦ ground (arith, ordinary a.id, eqb_ℤ_iff (placeholder base a.id) u)
        ])

    -- A row that nobody else holds is given to a user that holds none.
    module _ (known : List ℤ) (id : ℕ) (free : is_bound u rows ≡ false)
        (ordinary : (k : ℕ) → u ≢ placeholder base k) (entered : has_user u known ≡ true) where
      unheld : (a : Account D) → Among a rows → holds u a ≡ false
      unheld a m = elim (Bool-cases (holds u a)) [
        | inr e ↦ e
        | inl e ↦ cc (any-eq-true (holds u) rows m e)
      ]

      pub rebind-give : rebind (λ a. eqb a.id id) (λ _. u) known rows ≡ ok (map (give id u) rows)
      rebind-give = rebind-eq-ok _ _ _ _ (λ a b m k p q. unheld b k) (λ a m p. entered)

      give_inj :
          (a b : Account D)
          → Among a rows
          → Among b rows
          → (give id u a).user_id ≡ (give id u b).user_id
          → a ≡ b
      give_inj a b m k e = elim (Bool-cases (eqb a.id id)) [
        | inl p ↦ elim (Bool-cases (eqb b.id id)) [
          | inl q ↦ keyed.by_id a b m k (ground arith)
          | inr q ↦ ground (arith, unheld b k, eqb_ℤ_iff b.user_id u)
        ]
        | inr p ↦ elim (Bool-cases (eqb b.id id)) [
          | inl q ↦ ground (arith, unheld a m, eqb_ℤ_iff a.user_id u)
          | inr q ↦ keyed.by_user a b m k (ground arith)
        ]
      ]

      pub give-IsKeyed : IsKeyed base (map (give id u) rows)
      give-IsKeyed =
          map-IsKeyed keyed (give id u) (λ a. ground arith) give_inj
            (λ a k m e. elim (Bool-cases (eqb a.id id)) [
              | inl p ↦ absurd (ordinary k (ground arith))
              | inr p ↦ keyed.reserved a k m (ground arith)
            ])

  -- Another user's rows are as they were.
  pub is_bound-release :
      (base : ℕ) (u v : ℤ) (rows : List (Account D))
      → v ≢ u
      → ((k : ℕ) → v ≢ placeholder base k)
      → is_bound v (map (release base u) rows) ≡ is_bound v rows
  is_bound-release base u v [] other ordinary = refl
  is_bound-release base u v (a ∷ rows) other ordinary = elim (Bool-cases (holds u a)) [
    | inr p ↦ rw p (ap (λ t. holds v a || t) (is_bound-release base u v rows other ordinary))
    | inl p ↦ ground (
      arith,
      is_bound-release base u v rows other ordinary,
      ordinary a.id,
      eqb_ℤ_iff (placeholder base a.id) v,
      eqb_ℤ_iff a.user_id v,
      eqb_ℤ_iff a.user_id u,
    )
  ]

  pub is_bound-give_self :
      (id : ℕ) (u : ℤ) (a : Account D) (rows : List (Account D))
      → Among a rows
      → a.id ≡ id
      → is_bound u (map (give id u) rows) ≡ true
  is_bound-give_self id u a rows m e =
      any-eq-true (holds u) (map (give id u) rows) (Among-map (give id u) a rows m)
        (ground (arith, eqb_ℤ_refl u))
