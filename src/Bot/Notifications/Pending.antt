-- ===== src/Bot/Notifications/Pending.antt =====
-- A notification waits until its time, and is gone once it is deleted.
use uban_z.Prelude.{
  suc, ◌≤◌, ℤ, leb, leb_iff, eqb, eqb_ℤ, Bool, true, false, not, ◌&&◌, List, [], ◌∷◌, find, filter,
  some, ok, ◌≡◌, refl, inl, inr, ◌⊎◌, arith, Among, Bool-cases, Option-cases, All, All-mono,
  any-eq-true, find-eq-some,
}
use uban_z.Clock.{Time, timestamptz, timestamptz_le, timestamptz_mono}
use uban_z.Bot.Tables.{HomeworkRow, NotificationRow, Db, has_user}
use uban_z.Bot.Session.{Session, calm, exec}
use uban_z.Bot.Homework.{has_number}
use uban_z.Bot.Notifications.{
  Notification, insert_notification, add_notification, join_homeworks, insert_by_time,
  order_by_time, fresh_notification, is_due, pending_notifications, get_pending_notifications,
  is_notification, delete_notification,
}

abbrev pub IsOrdered : List Notification → Type 0
IsOrdered [] = Unit
IsOrdered (n ∷ ns) = All (λ m. n.timestamp ≤ m.timestamp) ns × IsOrdered ns

module _ (P : Notification → Type 0) where
  insert_by_time-All :
      (n : Notification) (ns : List Notification) → P n → All P ns → All P (insert_by_time n ns)
  unfolding insert_by_time
  insert_by_time-All n [] p a = (p, tt)
  insert_by_time-All n (x ∷ xs) p a = elim (Bool-cases (leb n.timestamp x.timestamp)) [
    | inl e ↦ rw e (p, a)
    | inr e ↦ rw e (a.0, insert_by_time-All n xs p a.1)
  ]

  order_by_time-All : (ns : List Notification) → All P ns → All P (order_by_time ns)
  unfolding order_by_time
  order_by_time-All [] a = tt
  order_by_time-All (n ∷ ns) a =
      insert_by_time-All n (order_by_time ns) a.0 (order_by_time-All ns a.1)

insert_by_time-Among :
    (m n : Notification) (ns : List Notification)
    → (m ≡ n) ⊎ Among m ns
    → Among m (insert_by_time n ns)
unfolding insert_by_time
insert_by_time-Among m n [] (inl e) = inl e
insert_by_time-Among m n [] (inr k) = elim k [ ]
insert_by_time-Among m n (x ∷ xs) h = elim (Bool-cases (leb n.timestamp x.timestamp)) [
  | inl e ↦ rw e h
  | inr e ↦ rw e (elim h [
    | inl p ↦ inr (insert_by_time-Among m n xs (inl p))
    | inr (inl p) ↦ inl p
    | inr (inr k) ↦ inr (insert_by_time-Among m n xs (inr k))
  ])
]

order_by_time-Among :
    (m : Notification) (ns : List Notification) → Among m ns → Among m (order_by_time ns)
unfolding order_by_time
order_by_time-Among m [] k = elim k [ ]
order_by_time-Among m (n ∷ ns) (inl e) = insert_by_time-Among m n (order_by_time ns) (inl e)
order_by_time-Among m (n ∷ ns) (inr k) =
    insert_by_time-Among m n (order_by_time ns) (inr (order_by_time-Among m ns k))

insert_by_time-IsOrdered :
    (n : Notification) (ns : List Notification) → IsOrdered ns → IsOrdered (insert_by_time n ns)
unfolding insert_by_time
insert_by_time-IsOrdered n [] s = (tt, tt)
insert_by_time-IsOrdered n (x ∷ xs) s = elim (Bool-cases (leb n.timestamp x.timestamp)) [
  | inl e ↦
      let le = (leb_iff n.timestamp x.timestamp).0 e in
      rw e ((le, All-mono (λ m b. omega arith) xs s.0), s)
  | inr e ↦ rw e (
    insert_by_time-All (λ m. x.timestamp ≤ m.timestamp) n xs (ground arith) s.0,
    insert_by_time-IsOrdered n xs s.1,
  )
]

order_by_time-IsOrdered : (ns : List Notification) → IsOrdered (order_by_time ns)
unfolding order_by_time
order_by_time-IsOrdered [] = tt
order_by_time-IsOrdered (n ∷ ns) =
    insert_by_time-IsOrdered n (order_by_time ns) (order_by_time-IsOrdered ns)

due_le : (ts now : Time) → leb ts (timestamptz now) ≡ true → ts ≤ now
due_le ts now h =
    let le : ts ≤ timestamptz now = (leb_iff ts (timestamptz now)).0 h in
    omega (arith, le, timestamptz_le now)

join_homeworks-due :
    (homeworks : List HomeworkRow) (now : Time) (ns : List NotificationRow)
    → All (λ n. n.timestamp ≤ now) (join_homeworks homeworks (is_due now) ns)
unfolding join_homeworks
join_homeworks-due homeworks now [] = tt
join_homeworks-due homeworks now (n ∷ ns) = elim (Bool-cases (is_due now n)) [
  | inr e ↦ rw e (join_homeworks-due homeworks now ns)
  | inl e ↦ rw e (elim (Option-cases (find (has_number n.homework_id) homeworks)) [
    | inl f ↦ rw f (join_homeworks-due homeworks now ns)
    | inr (h, f) ↦ rw f (due_le n.timestamp now e, join_homeworks-due homeworks now ns)
  ])
]

-- What is pending at a time is due by then, the earliest first.
pub get_pending_notifications-IsOrdered :
    (now : Time) (db : Db)
    → (ns : List Notification) × (get_pending_notifications now (calm db) ≡ (ok ns, calm db))
      × IsOrdered ns
      × All (λ n. n.timestamp ≤ now) ns
unfolding get_pending_notifications exec pending_notifications
get_pending_notifications-IsOrdered now db = (
  pending_notifications now db,
  refl,
  order_by_time-IsOrdered (join_homeworks db.homeworks (is_due now) db.notifications),
  order_by_time-All (λ n. n.timestamp ≤ now) _
      (join_homeworks-due db.homeworks now db.notifications),
)

is_due-true : (now ts : Time) → ts ≤ timestamptz now → leb ts (timestamptz now) ≡ true
is_due-true now ts h = (leb_iff ts (timestamptz now)).1 h

joined_first :
    (n : NotificationRow) (h : HomeworkRow) (now : Time) (homeworks : List HomeworkRow)
    (ns : List NotificationRow)
    → find (has_number n.homework_id) homeworks ≡ some h
    → n.timestamp ≤ timestamptz now
    → join_homeworks homeworks (is_due now) (n ∷ ns)
      ≡ record {
        user_id = n.user_id;
        homework_id = n.homework_id;
        subject = h.text;
        timestamp = n.timestamp;
      }
        ∷ join_homeworks homeworks (is_due now) ns
unfolding join_homeworks
joined_first n h now homeworks ns found due = rw (is_due-true now n.timestamp due) (rw found)

-- Whether a notification is the one that a deletion names.
abbrev is_named : ℤ → ℤ → Time → Notification → Bool
is_named u id ts n =
    eqb_ℤ n.user_id u && (eqb_ℤ n.homework_id id && eqb n.timestamp (timestamptz ts))

not_named :
    (u id : ℤ) (ts now : Time) (homeworks : List HomeworkRow) (ns : List NotificationRow)
    → All
        (λ n. is_named u id ts n ≡ false)
        (join_homeworks homeworks (is_due now) (filter (λ n. not (is_notification u id ts n)) ns))
unfolding join_homeworks
not_named u id ts now homeworks [] = tt
not_named u id ts now homeworks (n ∷ ns) = elim (Bool-cases (is_notification u id ts n)) [
  | inl e ↦ rw e (not_named u id ts now homeworks ns)
  | inr e ↦ rw e (elim (Bool-cases (is_due now n)) [
    | inr d ↦ rw d (not_named u id ts now homeworks ns)
    | inl d ↦ rw d (elim (Option-cases (find (has_number n.homework_id) homeworks)) [
      | inl f ↦ rw f (not_named u id ts now homeworks ns)
      | inr (h, f) ↦ rw f (e, not_named u id ts now homeworks ns)
    ])
  ])
]

module _ (u id : ℤ) (ts : Time) (db : Db) where
  abbrev pub of_homework : HomeworkRow → Notification
  of_homework h = record {
    user_id = u;
    homework_id = id;
    subject = h.text;
    timestamp = timestamptz ts;
  }

  abbrev added : Db
  added = record db {
    notifications = fresh_notification u id ts db ∷ db.notifications;
    notification_seq = suc db.notification_seq;
  }

  add_notification-calm :
      (h : HomeworkRow)
      → has_user u db.users ≡ true
      → find (has_number id) db.homeworks ≡ some h
      → add_notification u id ts (calm db) ≡ (ok tt, calm added)
  unfolding add_notification insert_notification exec
  add_notification-calm h known found =
      let m = find-eq-some (has_number id) db.homeworks found in
      rw known (rw (any-eq-true (has_number id) db.homeworks m.0 m.1))

  -- A notification that is added for a user and a homework that there are is among the pending
  -- ones at its time and at any later one, with the homework's text and its time in whole
  -- microseconds. No statement fails.
  pub add_notification-pending :
      (h : HomeworkRow) (now : Time)
      → has_user u db.users ≡ true
      → find (has_number id) db.homeworks ≡ some h
      → ts ≤ now
      → (after : Session) × (ns : List Notification) × (add_notification u id ts (calm db)
          ≡ (ok tt, after))
        × (get_pending_notifications now after ≡ (ok ns, after))
        × Among (of_homework h) ns
  unfolding get_pending_notifications exec pending_notifications
  add_notification-pending h now known found due = (
    calm added,
    pending_notifications now added,
    add_notification-calm h known found,
    refl,
    order_by_time-Among (of_homework h)
        (join_homeworks db.homeworks (is_due now) added.notifications)
        (rw
          (joined_first (fresh_notification u id ts db) h now db.homeworks db.notifications found
            (timestamptz_mono ts now due))
          (inl refl)),
  )

  -- Once it is deleted it is never pending again.
  pub delete_notification-pending :
      (now : Time)
      → (after : Session) × (ns : List Notification) × (delete_notification u id ts (calm db)
          ≡ (ok tt, after))
        × (get_pending_notifications now after ≡ (ok ns, after))
        × All (λ n. is_named u id ts n ≡ false) ns
  unfolding delete_notification get_pending_notifications exec pending_notifications
  delete_notification-pending now =
      let rest = record db {
        notifications = filter (λ n. not (is_notification u id ts n)) db.notifications;
      } in
      (
        calm rest,
        pending_notifications now rest,
        refl,
        refl,
        order_by_time-All (λ n. is_named u id ts n ≡ false) _
            (not_named u id ts now db.homeworks db.notifications),
      )
