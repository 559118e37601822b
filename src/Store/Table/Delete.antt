-- ===== src/Store/Table/Delete.antt =====
-- The DELETE statements keep the tables valid, and touch no row that they do not name.
use uban_z.Prelude.{
  ℤ, pos, eqb_ℤ_iff, Bool, true, not, ◌&&◌, List, [], ◌∷◌, filter, All, All-filter, ◌≡◌, arith,
}
use uban_z.Store.Table.{
  RoomRow, BookingRow, Db, has_room, is_booked, is_stale_name, delete_bookings, delete_stale_rooms,
}
use uban_z.Store.Table.Valid.{
  IsSound, IsValid, IdsBelow-filter, RoomIdsBelow-filter, Apart-filter, DistinctRooms-filter,
}

pub delete_bookings-IsValid :
    (test : BookingRow → Bool) (db : Db) → IsValid db → IsValid (delete_bookings test db).1
unfolding delete_bookings
delete_bookings-IsValid test db v = record {
  sound = All-filter (IsSound db.rooms) _ db.bookings v.sound;
  apart = Apart-filter _ db.bookings v.apart;
  booking_ids = IdsBelow-filter _ _ db.bookings v.booking_ids;
  room_ids = v.room_ids;
  distinct = v.distinct;
  capacities = v.capacities;
}

-- A room that a booking stands in survives a deletion that spares booked rooms.
has_room-filter :
    (p : RoomRow → Bool) (id : ℤ) (rooms : List RoomRow)
    → ((r : RoomRow) → pos r.id ≡ id → p r ≡ true)
    → has_room id rooms ≡ true
    → has_room id (filter p rooms) ≡ true
has_room-filter p id [] keep h = h
has_room-filter p id (r ∷ rooms) keep h =
    ground (arith, keep r, eqb_ℤ_iff (pos r.id) id, has_room-filter p id rooms keep)

spared : RoomRow → List BookingRow → Bool
spared r bookings = not (is_stale_name r && not (is_booked r bookings))

spared_of_booked :
    (r : RoomRow) (bookings : List BookingRow)
    → is_booked r bookings ≡ true
    → spared r bookings ≡ true
unfolding spared
spared_of_booked r bookings h = ground arith

IsSound-after :
    (rooms : List RoomRow) (all bs : List BookingRow)
    → ((r : RoomRow) → is_booked r bs ≡ true → is_booked r all ≡ true)
    → All (IsSound rooms) bs
    → All (IsSound (filter (λ r. spared r all) rooms)) bs
IsSound-after rooms all [] within h = tt
IsSound-after rooms all (b ∷ bs) within h = (
  (
    h.0.0,
    h.0.1,
    has_room-filter (λ r. spared r all) b.room_id rooms
        (λ r e. spared_of_booked r all (within r (ground (arith, eqb_ℤ_iff b.room_id (pos r.id)))))
        h.0.2,
  ),
  IsSound-after rooms all bs (λ r k. within r (ground arith)) h.1,
)

pub delete_stale_rooms-IsValid : (db : Db) → IsValid db → IsValid (delete_stale_rooms db)
unfolding delete_stale_rooms spared
delete_stale_rooms-IsValid db v = record {
  sound = IsSound-after db.rooms db.bookings db.bookings (λ r h. h) v.sound;
  apart = v.apart;
  booking_ids = v.booking_ids;
  room_ids = RoomIdsBelow-filter _ _ db.rooms v.room_ids;
  distinct = DistinctRooms-filter _ db.rooms v.distinct;
  capacities = All-filter (λ (r : RoomRow). _) _ db.rooms v.capacities;
}
