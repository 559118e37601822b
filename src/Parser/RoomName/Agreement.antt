-- ===== src/Parser/RoomName/Agreement.antt =====
-- The import and the store agree on what a room is called.
use uban_z.Prelude.{
  ℕ, ℤ, is_nonpositive, String, false, ◌≡◌, ◌≢◌, arith, eq_iff, Option, none, some, trim_space,
  last_index,
}
use uban_z.Parser.RoomName.{
  split_at, split_close, split_open, split_parens, normalize_room, normalize_parsed_room,
  name_before, building_between,
}

abbrev Named : Option (String × String) → Type 0
Named none = Unit
Named (some (name, building)) = (name ≢ "") × (building ≢ "")

split_at-Named : (room : String) (open' close : ℕ) → Named (split_at room open' close)
split_at-Named room open' close =
    ground
      (arith, eq_iff (name_before open' room) "", eq_iff (building_between open' close room) "")

split_close-Named : (room : String) (open' : ℕ) (o : Option ℕ) → Named (split_close room open' o)
split_close-Named room open' none = tt
split_close-Named room open' (some close) = split_at-Named room open' close

split_open-Named : (room : String) (o : Option ℕ) → Named (split_open room o)
split_open-Named room none = tt
split_open-Named room (some open') = split_close-Named room open' (last_index b')' room)

split_parens-Named : (room : String) → Named (split_parens room)
unfolding split_parens
split_parens-Named room = split_open-Named room (last_index b'(' room)

pub normalize_room-named :
    (raw default_building : String)
    → default_building ≢ ""
    → ((normalize_room raw default_building).0 ≢ "")
      × ((normalize_room raw default_building).1 ≢ "")
unfolding normalize_room
normalize_room-named raw d h =
    ground
      (arith, split_parens-Named (trim_space raw), eq_iff (trim_space raw) "", eq_iff "unknown" "")

-- With a default building that is not empty and a positive capacity, what the import made of a
-- room's name is left as it is by the store.
pub normalize_parsed_room-normalize_room :
    (raw default_building : String) (capacity : ℤ)
    → default_building ≢ ""
    → is_nonpositive capacity ≡ false
    → normalize_parsed_room
        (normalize_room raw default_building).0
        (normalize_room raw default_building).1
        capacity
      ≡ ((normalize_room raw default_building).0, (normalize_room raw default_building).1, capacity)
unfolding normalize_parsed_room
normalize_parsed_room-normalize_room raw d capacity h k = ground (
  arith,
  normalize_room-named raw d h,
  eq_iff (normalize_room raw d).0 "",
  eq_iff (normalize_room raw d).1 "",
)
