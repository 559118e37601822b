-- ===== src/Bot/Notifications.antt =====
-- timetable-homework-tgbot/internal/infrastracture/repositories/notification_repository.go.
pub mod Pending
use uban_z.Prelude.{
  ℕ, suc, ℤ, pos, leb, eqb, eqb_ℤ, String, Bool, true, false, not, ◌&&◌, List, [], ◌∷◌, any, find,
  filter, Option, none, some, Result, ok, err, M, if◌then◌else◌,
}
use uban_z.Clock.{Time, timestamptz}
use uban_z.Bot.Tables.{HomeworkRow, NotificationRow, Db, has_user}
use uban_z.Bot.Session.{Error, constraint, Session, exec, ask, change, on_error}
use uban_z.Bot.Homework.{has_number}

-- domain.Notification; the subject is the homework's text.
pub record Notification : Type 0 where
  pub user_id : ℤ
  pub homework_id : ℤ
  pub subject : String
  pub timestamp : Time

abbrev pub fresh_notification : ℤ → ℤ → Time → Db → NotificationRow
fresh_notification u id ts db = record {
  id = suc db.notification_seq;
  timestamp = timestamptz ts;
  user_id = u;
  homework_id = id;
}

-- INSERT INTO notifications, under the foreign keys to the user and to the homework.
unfoldable pub insert_notification : ℤ → ℤ → Time → M Db Error (Unit {0})
insert_notification u id ts db =
    if not (has_user u db.users)
    then (
      err (constraint "fk_notifications_user"),
      record db { notification_seq = suc db.notification_seq },
    )
    else if not (any (has_number id) db.homeworks)
    then (
      err (constraint "fk_notifications_homework"),
      record db { notification_seq = suc db.notification_seq },
    )
    else (
      ok tt,
      record db {
        notifications = fresh_notification u id ts db ∷ db.notifications;
        notification_seq = suc db.notification_seq;
      },
    )

unfoldable pub add_notification : ℤ → ℤ → Time → M Session Error (Unit {0})
unfolding exec insert_notification
add_notification u id ts = on_error "AddNotification exec" (exec (insert_notification u id ts))

-- FROM notifications n JOIN homeworks h ON h.id = n.homework_id WHERE the test holds.
unfoldable pub join_homeworks :
    List HomeworkRow → (NotificationRow → Bool) → List NotificationRow → List Notification
join_homeworks homeworks test [] = []
join_homeworks homeworks test (n ∷ ns) =
    let rest = join_homeworks homeworks test ns in
    if test n
    then elim (find (has_number n.homework_id) homeworks) [
      | some h ↦
          record {
            user_id = n.user_id;
            homework_id = n.homework_id;
            subject = h.text;
            timestamp = n.timestamp;
          }
          ∷ rest
      | none ↦ rest
    ]
    else rest

-- ORDER BY n."timestamp".
unfoldable pub insert_by_time : Notification → List Notification → List Notification
insert_by_time n [] = n ∷ []
insert_by_time n (x ∷ xs) =
    if leb n.timestamp x.timestamp then n ∷ x ∷ xs else x ∷ insert_by_time n xs

unfoldable pub order_by_time : List Notification → List Notification
unfolding insert_by_time
order_by_time [] = []
order_by_time (n ∷ ns) = insert_by_time n (order_by_time ns)

abbrev pub is_due : Time → NotificationRow → Bool
is_due now n = leb n.timestamp (timestamptz now)

unfoldable pub pending_notifications : Time → Db → List Notification
unfolding join_homeworks order_by_time
pending_notifications now db =
    order_by_time (join_homeworks db.homeworks (is_due now) db.notifications)

unfoldable pub get_pending_notifications : Time → M Session Error (List Notification)
unfolding exec pending_notifications
get_pending_notifications now =
    on_error "GetPendingNotifications query" (ask (λ db. ok (pending_notifications now db)))

unfoldable pub get_user_notifications : ℤ → M Session Error (List Notification)
unfolding exec join_homeworks order_by_time
get_user_notifications u = on_error "GetUserNotifications query" (
    ask λ db.
      ok (order_by_time (join_homeworks db.homeworks (λ n. eqb_ℤ n.user_id u) db.notifications)))

abbrev pub is_notification : ℤ → ℤ → Time → NotificationRow → Bool
is_notification u id ts n =
    eqb_ℤ n.user_id u && (eqb_ℤ n.homework_id id && eqb n.timestamp (timestamptz ts))

unfoldable pub delete_notification : ℤ → ℤ → Time → M Session Error (Unit {0})
unfolding exec
delete_notification u id ts = on_error "DeleteNotification exec" (
    change λ db. record db {
      notifications = filter (λ n. not (is_notification u id ts n)) db.notifications;
    })
