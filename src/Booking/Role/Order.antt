-- ===== src/Booking/Role/Order.antt =====
-- The order of authority that internal/core/booking/domain/role.go sets up.
use uban_z.Prelude.{◌<◌, ◌≤◌, true, ◌≡◌, ◌↔◌, ◌⊎◌, arith, eq_iff}
use uban_z.Booking.Role.{
  Role, rank, is_known, can_cancel_other, role_student_b, role_student_m, role_student_a,
  role_teacher, role_admin,
}

-- Two known roles of the same rank are the same role.
pub rank_injective : (r o : Role) → is_known r ≡ true → rank r ≡ rank o → r ≡ o
unfolding rank is_known
rank_injective r o k e = ground (
  arith,
  eq_iff r role_student_b,
  eq_iff r role_student_m,
  eq_iff r role_student_a,
  eq_iff r role_teacher,
  eq_iff r role_admin,
  eq_iff o role_student_b,
  eq_iff o role_student_m,
  eq_iff o role_student_a,
  eq_iff o role_teacher,
  eq_iff o role_admin,
)

rank-admin_iff : (r : Role) → (rank r ≡ 5) ↔ (r ≡ role_admin)
unfolding rank
rank-admin_iff r = (λ e. ground (arith, eq_iff r role_admin), λ e. rw e)

pub rank-le : (r : Role) → rank r ≤ 5
unfolding rank
rank-le r = ground arith

pub can_cancel_other_iff :
    (r o : Role)
    → (can_cancel_other r o ≡ true)
      ↔ ((0 < rank r) × (0 < rank o) × ((r ≡ role_admin) ⊎ (rank o < rank r)))
unfolding can_cancel_other
can_cancel_other_iff r o = ground (arith, eq_iff r role_admin)

-- Two roles that may each cancel the other's bookings are both the admin's.
pub can_cancel_other_asymmetric :
    (r o : Role)
    → can_cancel_other r o ≡ true
    → can_cancel_other o r ≡ true
    → (r ≡ role_admin) × (o ≡ role_admin)
can_cancel_other_asymmetric r o h k = ground (
  arith,
  can_cancel_other_iff r o,
  can_cancel_other_iff o r,
  rank-admin_iff r,
  rank-admin_iff o,
  rank-le r,
  rank-le o,
)

pub can_cancel_other_transitive :
    (r o q : Role)
    → can_cancel_other r o ≡ true
    → can_cancel_other o q ≡ true
    → can_cancel_other r q ≡ true
can_cancel_other_transitive r o q h k = ground (
  arith,
  can_cancel_other_iff r o,
  can_cancel_other_iff o q,
  can_cancel_other_iff r q,
  rank-admin_iff r,
  rank-admin_iff o,
  rank-le r,
  rank-le o,
)

pub cancel_admin_booking : (r : Role) → can_cancel_other r role_admin ≡ true → r ≡ role_admin
unfolding rank
cancel_admin_booking r h =
    ground (arith, can_cancel_other_iff r role_admin, rank-admin_iff r, rank-le r)
