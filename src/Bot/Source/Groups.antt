-- ===== src/Bot/Source/Groups.antt =====
-- Each group of a faculty is passed on once.
use uban_z.Prelude.{
  String, true, false, List, [], ◌∷◌, map, ◌==◌, eq_iff, ◌≡◌, ◌≢◌, sym, ap, ◌∙◌, ◌⊎◌, inl, inr,
  arith, All, All-mono, Among, Bool-cases,
}
use uban_z.Page.{Link}
use uban_z.Bot.Source.{Group, group_of_link, key_of, is_seen, groups_of_links}

abbrev pub IsOnce : List Group → Type 0
IsOnce [] = Unit
IsOnce (g ∷ gs) = All (λ h. key_of h ≢ key_of g) gs × IsOnce gs

-- What was seen is not passed on again.
unseen :
    (seen : List String) (links : List Link)
    → All (λ g. is_seen (key_of g) seen ≡ false) (groups_of_links seen links)
unfolding groups_of_links
unseen seen [] = tt
unseen seen (l ∷ links) = elim (Bool-cases (is_seen (key_of (group_of_link l)) seen)) [
  | inl e ↦ rw e (unseen seen links)
  | inr e ↦
      rw e (e, All-mono (λ g h. ground arith) _ (unseen (key_of (group_of_link l) ∷ seen) links))
]

once : (seen : List String) (links : List Link) → IsOnce (groups_of_links seen links)
unfolding groups_of_links
once seen [] = tt
once seen (l ∷ links) = elim (Bool-cases (is_seen (key_of (group_of_link l)) seen)) [
  | inl e ↦ rw e (once seen links)
  | inr e ↦
      let key = key_of (group_of_link l) in
      rw e (
        All-mono (λ g h p. ground (arith, eq_iff key (key_of g))) _ (unseen (key ∷ seen) links),
        once (key ∷ seen) links,
      )
]

covered :
    (seen : List String) (links : List Link) (l : Link)
    → Among l links
    → (is_seen (key_of (group_of_link l)) seen ≡ true)
      ⊎ Among (key_of (group_of_link l)) (map key_of (groups_of_links seen links))
unfolding groups_of_links
covered seen [] l m = elim m [ ]
covered seen (x ∷ links) l (inl p) = elim (Bool-cases (is_seen (key_of (group_of_link x)) seen)) [
  | inl e ↦ inl (ap (λ y. is_seen (key_of (group_of_link y)) seen) p ∙ e)
  | inr e ↦ rw e (inr (inl (ap (λ y. key_of (group_of_link y)) p)))
]
covered seen (x ∷ links) l (inr m) = elim (Bool-cases (is_seen (key_of (group_of_link x)) seen)) [
  | inl e ↦ rw e (covered seen links l m)
  | inr e ↦ rw e (elim (covered (key_of (group_of_link x) ∷ seen) links l m) [
    | inr k ↦ inr (inr k)
    | inl k ↦ elim (Bool-cases (key_of (group_of_link x) == key_of (group_of_link l))) [
      | inl q ↦ inr (inl (sym ((eq_iff (key_of (group_of_link x)) (key_of (group_of_link l))).0 q)))
      | inr q ↦ inl (ground arith)
    ]
  ])
]

-- Of the groups on a faculty's page each is passed on exactly once, by its name and address.
pub groups_of_links-IsOnce :
    (links : List Link)
    → IsOnce (groups_of_links [] links)
      × ((l : Link)
          → Among l links
          → Among (key_of (group_of_link l)) (map key_of (groups_of_links [] links)))
groups_of_links-IsOnce links =
    (once [] links, λ l m. elim (covered [] links l m) [ inl e ↦ absurd (cc e) | inr k ↦ k ])
