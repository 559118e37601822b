-- ===== src/Store/Table/Upsert.antt =====
-- The upsert of a parsed room keeps the tables valid, and returns the room of that name.
use uban_z.Prelude.{
  ℕ, suc, ℤ, is_nonpositive, String, true, false, List, [], ◌∷◌, find, All, All-mono, none, ◌≡◌,
  ◌∙◌, Bool-cases, refl, arith, eq_iff, Option-cases, inl, inr,
}
use uban_z.Store.Table.{
  RoomRow, BookingRow, Db, has_room, same_room, set_capacity, capacity_error, fresh_room,
  upsert_room,
}
use uban_z.Store.Table.Valid.{
  IsSound, IsValid, RoomIdsBelow, RoomIdsBelow-mono, DistinctRooms, OtherRoom,
}

module _ (name building : String) (capacity : ℤ) where
  has_room-set_capacity :
      (id : ℤ) (rs : List RoomRow)
      → has_room id (set_capacity name building capacity rs) ≡ has_room id rs
  unfolding set_capacity
  has_room-set_capacity id [] = refl
  has_room-set_capacity id (r ∷ rs) = ground (arith, has_room-set_capacity id rs)

  RoomIdsBelow-set_capacity :
      (n : ℕ) (rs : List RoomRow)
      → RoomIdsBelow n rs
      → RoomIdsBelow n (set_capacity name building capacity rs)
  unfolding set_capacity
  RoomIdsBelow-set_capacity n [] h = tt
  RoomIdsBelow-set_capacity n (r ∷ rs) h = ground (arith, RoomIdsBelow-set_capacity r.id rs h.1)

  All-OtherRoom-set_capacity :
      (q : RoomRow) (rs : List RoomRow)
      → All (OtherRoom q) rs
      → All (OtherRoom q) (set_capacity name building capacity rs)
  unfolding set_capacity
  All-OtherRoom-set_capacity q [] h = tt
  All-OtherRoom-set_capacity q (r ∷ rs) h = ground (arith, All-OtherRoom-set_capacity q rs h.1)

  DistinctRooms-set_capacity :
      (rs : List RoomRow)
      → DistinctRooms rs
      → DistinctRooms (set_capacity name building capacity rs)
  unfolding set_capacity
  DistinctRooms-set_capacity [] h = tt
  DistinctRooms-set_capacity (r ∷ rs) h =
      let others = All-OtherRoom-set_capacity r rs h.0 in
      let rest = DistinctRooms-set_capacity rs h.1 in
      elim (Bool-cases (same_room name building r)) [
        | inl same ↦ rw same (others, rest)
        | inr other ↦ rw other (others, rest)
      ]

  capacities-set_capacity :
      is_nonpositive capacity ≡ false
      → (rs : List RoomRow) → All (λ (r : RoomRow). is_nonpositive r.capacity ≡ false) rs
      → All
          (λ (r : RoomRow). is_nonpositive r.capacity ≡ false)
          (set_capacity name building capacity rs)
  unfolding set_capacity
  capacities-set_capacity c [] h = tt
  capacities-set_capacity c (r ∷ rs) h = ground (arith, capacities-set_capacity c rs h.1)

  OtherRoom-of_find :
      (q : RoomRow) (rs : List RoomRow)
      → q.name ≡ name
      → q.building ≡ building
      → find (same_room name building) rs ≡ none
      → All (OtherRoom q) rs
  OtherRoom-of_find q [] n b h = tt
  OtherRoom-of_find q (r ∷ rs) n b h = (
    λ eb en. ground (arith, eq_iff r.name name, eq_iff r.building building),
    OtherRoom-of_find q rs n b (ground arith),
  )

capacity_error-eq-none : (c : ℤ) → capacity_error c ≡ none → is_nonpositive c ≡ false
capacity_error-eq-none c h = ground arith

IsSound-mono :
    (rooms rooms' : List RoomRow)
    → ((id : ℤ) → has_room id rooms ≡ true → has_room id rooms' ≡ true)
    → (bs : List BookingRow) → All (IsSound rooms) bs
    → All (IsSound rooms') bs
IsSound-mono rooms rooms' f bs h = All-mono (λ b k. (k.0, k.1, f b.room_id k.2)) bs h

pub upsert_room-IsValid :
    (name building : String) (capacity : ℤ) (db : Db)
    → IsValid db
    → IsValid (upsert_room name building capacity db).1
unfolding upsert_room
upsert_room-IsValid name building capacity db v = elim (Option-cases (capacity_error capacity)) [
  | inr (x, e) ↦
      rw (e, upsert_room)
        (record {
          sound = v.sound;
          apart = v.apart;
          booking_ids = v.booking_ids;
          room_ids = RoomIdsBelow-mono db.rooms (omega arith) v.room_ids;
          distinct = v.distinct;
          capacities = v.capacities;
        })
  | inl e ↦ elim (Option-cases (find (same_room name building) db.rooms)) [
    | inl f ↦
        rw (e, f, upsert_room)
          (record {
            sound =
                IsSound-mono db.rooms (fresh_room name building capacity db ∷ db.rooms)
                  (λ id h. ground arith) db.bookings v.sound;
            apart = v.apart;
            booking_ids = v.booking_ids;
            room_ids = (omega arith, v.room_ids);
            distinct = (
              OtherRoom-of_find name building capacity (fresh_room name building capacity db)
                  db.rooms refl refl f,
              v.distinct,
            );
            capacities = (capacity_error-eq-none capacity e, v.capacities);
          })
    | inr (r, f) ↦
        rw (e, f, upsert_room)
          (record {
            sound =
                IsSound-mono db.rooms _
                  (λ id h. has_room-set_capacity name building capacity id db.rooms ∙ h) db.bookings
                  v.sound;
            apart = v.apart;
            booking_ids = v.booking_ids;
            room_ids =
                RoomIdsBelow-mono (set_capacity name building capacity db.rooms) (omega arith) (
                  RoomIdsBelow-set_capacity name building capacity (suc db.room_seq) db.rooms
                    v.room_ids);
            distinct = DistinctRooms-set_capacity name building capacity db.rooms v.distinct;
            capacities =
                capacities-set_capacity name building capacity (capacity_error-eq-none capacity e)
                  db.rooms v.capacities;
          })
  ]
]

-- An upsert leaves the bookings alone.
pub upsert_room_rest :
    (name building : String) (capacity : ℤ) (db : Db)
    → ((upsert_room name building capacity db).1.bookings ≡ db.bookings)
      × ((upsert_room name building capacity db).1.booking_seq ≡ db.booking_seq)
      × ((upsert_room name building capacity db).1.room_seq ≡ suc db.room_seq)
unfolding upsert_room
upsert_room_rest name building capacity db = elim (Option-cases (capacity_error capacity)) [
  | inr (x, e) ↦ rw (e, upsert_room) (refl, refl, refl)
  | inl e ↦ elim (Option-cases (find (same_room name building) db.rooms)) [
    | inl f ↦ rw (e, f, upsert_room) (refl, refl, refl)
    | inr (r, f) ↦ rw (e, f, upsert_room) (refl, refl, refl)
  ]
]
