-- ===== src/Booking/Role.antt =====
-- internal/core/booking/domain/role.go.
pub mod Order
use uban_z.Prelude.{
  ℕ, ◌<◌, String, Bool, true, false, not, ◌≡◌, Option, none, some, ◌||◌, ◌==◌, ltb, if◌then◌else◌,
}

abbrev pub Role : Type 0
Role = String

abbrev pub role_student_b : Role
role_student_b = "student_b"

abbrev pub role_student_m : Role
role_student_m = "student_m"

abbrev pub role_student_a : Role
role_student_a = "student_a"

abbrev pub role_teacher : Role
role_teacher = "teacher"

abbrev pub role_admin : Role
role_admin = "admin"

-- Higher is more authority; an unknown role has rank 0.
unfoldable pub rank : Role → ℕ
rank r =
    if r == role_student_b
    then 1
    else if r == role_student_m
    then 2
    else if r == role_student_a
    then 3
    else if r == role_teacher
    then 4
    else if r == role_admin
    then 5
    else 0

unfoldable pub is_known : Role → Bool
unfolding rank
is_known r = ltb 0 (rank r)

unfoldable pub can_cancel_other : Role → Role → Bool
unfolding is_known
can_cancel_other r other =
    if not (is_known r) || not (is_known other)
    then false
    else if r == role_admin
    then true
    else ltb (rank other) (rank r)

unfoldable pub parse_role : String → Option Role
unfolding is_known
parse_role s = if is_known s then some s else none
