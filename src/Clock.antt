-- ===== src/Clock.antt =====
-- Instants of Go's `time` package. A `Time` counts nanoseconds from the earliest instant that the
-- type can hold; a location only says how an instant is printed, so `UTC()` changes nothing here.
use uban_z.Prelude.{arith, ◌≤◌, ℕ, ◌-◌, ◌*◌, ◌%◌, ◌^◌, Bool, ltb, eqb}

abbrev pub Time : Type 0
Time = ℕ

-- `time.Time{}`: the type counts its seconds in 64 bits around this instant.
abbrev pub zero_time : Time
zero_time = 2 ^ 63 * 1_000_000_000

abbrev pub is_zero : Time → Bool
is_zero t = eqb t zero_time

abbrev pub before : Time → Time → Bool
before a b = ltb a b

abbrev pub second : ℕ
second = 1_000_000_000

abbrev pub minute : ℕ
minute = 60_000_000_000

abbrev pub hour : ℕ
hour = 3_600_000_000_000

-- What PostgreSQL keeps of an instant that a statement hands it as a TIMESTAMPTZ: whole microseconds,
-- the rest is cut off.
unfoldable pub timestamptz : Time → Time
timestamptz t = t - t % 1000

pub timestamptz_le : (t : Time) → timestamptz t ≤ t
unfolding timestamptz
timestamptz_le t = omega arith

pub timestamptz_mono : (t u : Time) → t ≤ u → timestamptz t ≤ timestamptz u
unfolding timestamptz
timestamptz_mono t u h = omega arith
