-- ===== src/Parser/RoomName.antt =====
-- Room names of the timetable, "3107 (New building)": `normalizeRoom` of
-- internal/core/parser/service/service.go, and `normalizeParsedRoom` with `splitParsedRoomName` of
-- internal/adapter/booking/postgres/store.go.
pub mod Agreement
use uban_z.Prelude.{
  ℕ, suc, ◌+◌, ◌-◌, ℤ, pos, is_nonpositive, String, Bool, not, ◌&&◌, ◌||◌, Option, none, some, ◌==◌,
  ltb, trim_space, last_index, take_text, drop_text, if◌then◌else◌,
}

-- `room[open+1 : close]`.
abbrev pub slice_text : ℕ → ℕ → String → String
slice_text from to s = drop_text from (take_text to s)

abbrev pub name_before : ℕ → String → String
name_before open' room = trim_space (take_text open' room)

abbrev pub building_between : ℕ → ℕ → String → String
building_between open' close room = trim_space (slice_text (suc open') close room)

abbrev pub split_at : String → ℕ → ℕ → Option (String × String)
split_at room open' close =
    if (ltb 0 open' && ltb open' close)
      && not (name_before open' room == "" || building_between open' close room == "")
    then some (name_before open' room, building_between open' close room)
    else none

abbrev pub split_close : String → ℕ → Option ℕ → Option (String × String)
split_close room open' none = none
split_close room open' (some close) = split_at room open' close

abbrev pub split_open : String → Option ℕ → Option (String × String)
split_open room none = none
split_open room (some open') = split_close room open' (last_index b')' room)

-- The name and the building of "name (building)"; both functions of the source look for it.
unfoldable pub split_parens : String → Option (String × String)
split_parens room = split_open room (last_index b'(' room)

abbrev pub or_else {ℓ} : {A : Type ℓ} → Option A → A → A
or_else none d = d
or_else (some a) d = a

unfoldable pub normalize_room : String → String → String × String
normalize_room raw default_building =
    let room = trim_space raw in
    if room == ""
    then ("unknown", default_building)
    else or_else (split_parens room) (room, default_building)

unfoldable pub split_parsed_room_name : String → String × String
split_parsed_room_name raw = or_else (split_parens (trim_space raw)) (trim_space raw, "")

abbrev pub default_imported_room_capacity : ℤ
default_imported_room_capacity = pos 30

-- `if value == "" { value = fallback }`.
abbrev pub or_default : String → String → String
or_default value fallback = if value == "" then fallback else value

abbrev pub split_unless : String → String → String × String
split_unless name building =
    if building == ""
    then (
      or_default (split_parsed_room_name name).0 name,
      or_default (split_parsed_room_name name).1 building,
    )
    else (name, building)

unfoldable pub normalize_parsed_room : String → String → ℤ → String × String × ℤ
normalize_parsed_room name building capacity =
    let (name', building') = split_unless name building in
    (
      or_default name' "unknown",
      or_default building' "НГУ",
      if is_nonpositive capacity then default_imported_room_capacity else capacity,
    )
