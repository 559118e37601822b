-- ===== src/Store/Table/Valid.antt =====
-- What the constraints of migrations/booking promise about the tables.
use uban_z.Prelude.{
  ℕ, suc, ◌≤◌, ◌<◌, is_nonpositive, Bool, true, false, List, [], ◌∷◌, filter, All, All-filter, ◌≡◌,
  ◌≢◌, ◌⊎◌, arith,
}
use uban_z.Booking.Role.{is_known}
use uban_z.Store.Table.{RoomRow, BookingRow, Db, has_room}

-- Two bookings of one room do not share an instant.
abbrev pub Disjoint : BookingRow → BookingRow → Type 0
Disjoint a b = a.room_id ≡ b.room_id → (a.end_time ≤ b.start_time) ⊎ (b.end_time ≤ a.start_time)

abbrev pub Apart : List BookingRow → Type 0
Apart [] = Unit
Apart (b ∷ bs) = All (Disjoint b) bs × Apart bs

-- Identifiers fall along the list and stay at or below the sequence.
abbrev pub IdsBelow : ℕ → List BookingRow → Type 0
IdsBelow n [] = Unit
IdsBelow n (b ∷ bs) = (b.id < n) × IdsBelow b.id bs

abbrev pub RoomIdsBelow : ℕ → List RoomRow → Type 0
RoomIdsBelow n [] = Unit
RoomIdsBelow n (r ∷ rs) = (r.id < n) × RoomIdsBelow r.id rs

-- Another room: rooms_building_name_uniq.
abbrev pub OtherRoom : RoomRow → RoomRow → Type 0
OtherRoom r q = (r.building ≡ q.building) → (r.name ≢ q.name)

abbrev pub DistinctRooms : List RoomRow → Type 0
DistinctRooms [] = Unit
DistinctRooms (r ∷ rs) = All (OtherRoom r) rs × DistinctRooms rs

abbrev pub IsSound : List RoomRow → BookingRow → Type 0
IsSound rooms b =
    (b.start_time < b.end_time)
    × (is_known b.creator_role ≡ true)
    × (has_room b.room_id rooms ≡ true)

pub record IsValid (db : Db) : Type 0 where
  pub sound : All (IsSound db.rooms) db.bookings
  pub apart : Apart db.bookings
  pub booking_ids : IdsBelow (suc db.booking_seq) db.bookings
  pub room_ids : RoomIdsBelow (suc db.room_seq) db.rooms
  pub distinct : DistinctRooms db.rooms
  pub capacities : All (λ r. is_nonpositive r.capacity ≡ false) db.rooms

pub IdsBelow-mono : {m n : ℕ} (bs : List BookingRow) → m ≤ n → IdsBelow m bs → IdsBelow n bs
IdsBelow-mono [] h b = tt
IdsBelow-mono (x ∷ bs) h b = (omega arith, b.1)

pub RoomIdsBelow-mono :
    {m n : ℕ} (rs : List RoomRow) → m ≤ n → RoomIdsBelow m rs → RoomIdsBelow n rs
RoomIdsBelow-mono [] h b = tt
RoomIdsBelow-mono (x ∷ rs) h b = (omega arith, b.1)

pub IdsBelow-filter :
    (p : BookingRow → Bool) (n : ℕ) (bs : List BookingRow)
    → IdsBelow n bs
    → IdsBelow n (filter p bs)
IdsBelow-filter p n [] h = tt
IdsBelow-filter p n (b ∷ bs) h =
    ground (arith, IdsBelow-filter p b.id bs h.1, IdsBelow-mono {m = b.id} {n = n} (filter p bs))

pub RoomIdsBelow-filter :
    (p : RoomRow → Bool) (n : ℕ) (rs : List RoomRow)
    → RoomIdsBelow n rs
    → RoomIdsBelow n (filter p rs)
RoomIdsBelow-filter p n [] h = tt
RoomIdsBelow-filter p n (r ∷ rs) h =
    ground
      (arith, RoomIdsBelow-filter p r.id rs h.1, RoomIdsBelow-mono {m = r.id} {n = n} (filter p rs))

pub Apart-filter : (p : BookingRow → Bool) (bs : List BookingRow) → Apart bs → Apart (filter p bs)
Apart-filter p [] h = tt
Apart-filter p (b ∷ bs) h = ground (arith, Apart-filter p bs h.1, All-filter (Disjoint b) p bs h.0)

pub DistinctRooms-filter :
    (p : RoomRow → Bool) (rs : List RoomRow) → DistinctRooms rs → DistinctRooms (filter p rs)
DistinctRooms-filter p [] h = tt
DistinctRooms-filter p (r ∷ rs) h =
    ground (arith, DistinctRooms-filter p rs h.1, All-filter (OtherRoom r) p rs h.0)
