-- ===== src/Store/Repository/Listing.antt =====
-- The order of the bookings that the repository lists.
use uban_z.Prelude.{
  subst, ℤ, ◌<◌, ◌≤◌, eqb_ℤ, eqb_ℤ_iff, Bool, ◌&&◌, List, [], ◌∷◌, filter, map, All, All-mono, ◌≡◌,
  ◌∙◌, sym, refl, arith, ok, Bool-cases, inl, inr,
}
use uban_z.Booking.Domain.{ScheduleItem}
use uban_z.Booking.Service.{get_room_schedule, schedule_item}
use uban_z.Store.Table.{
  BookingRow, Db, row_le, insert_sorted, order_by_start, select_by_room, count_rows,
}
use uban_z.Store.Table.Valid.{IsValid, IsSound, Disjoint, Apart, Apart-filter}
use uban_z.Store.World.{World, quiet}
use uban_z.Store.Repository.{scan_booking, store_ports}
use uban_z.Store.Repository.Creation.{get_by_id-quiet, list_by_room_id-quiet}

-- A predicate holds of the rows in any order.
module _ (P : BookingRow → Type 0) where
  All-insert_sorted :
      (a : BookingRow) (bs : List BookingRow) → P a → All P bs → All P (insert_sorted a bs)
  unfolding insert_sorted
  All-insert_sorted a [] p h = (p, tt)
  All-insert_sorted a (b ∷ bs) p h = ground (arith, All-insert_sorted a bs p h.1)

  All-order_by_start : (bs : List BookingRow) → All P bs → All P (order_by_start bs)
  unfolding order_by_start
  All-order_by_start [] h = tt
  All-order_by_start (b ∷ bs) h =
      All-insert_sorted b (order_by_start bs) h.0 (All-order_by_start bs h.1)

Disjoint-comm : (a b : BookingRow) → Disjoint a b → Disjoint b a
Disjoint-comm a b h e = elim (h (sym e)) [ inl k ↦ inr k | inr k ↦ inl k ]

Apart-insert_sorted :
    (a : BookingRow) (bs : List BookingRow)
    → All (Disjoint a) bs
    → Apart bs
    → Apart (insert_sorted a bs)
unfolding insert_sorted
Apart-insert_sorted a [] h k = (tt, tt)
Apart-insert_sorted a (b ∷ bs) h k = ground (
  arith,
  Apart-insert_sorted a bs h.1 k.1,
  All-insert_sorted (Disjoint b) a bs (Disjoint-comm a b h.0) k.0,
)

Apart-order_by_start : (bs : List BookingRow) → Apart bs → Apart (order_by_start bs)
unfolding order_by_start
Apart-order_by_start [] h = tt
Apart-order_by_start (b ∷ bs) h =
    Apart-insert_sorted b (order_by_start bs) (All-order_by_start (Disjoint b) bs h.0)
      (Apart-order_by_start bs h.1)

-- Every start is at or behind those before it.
abbrev IsSorted : List BookingRow → Type 0
IsSorted [] = Unit
IsSorted (b ∷ bs) = All (λ (c : BookingRow). b.start_time ≤ c.start_time) bs × IsSorted bs

IsSorted-insert_sorted :
    (a : BookingRow) (bs : List BookingRow) → IsSorted bs → IsSorted (insert_sorted a bs)
unfolding insert_sorted
IsSorted-insert_sorted a [] h = (tt, tt)
IsSorted-insert_sorted a (b ∷ bs) h = elim (Bool-cases (row_le a b)) [
  | inl e ↦
      let le : a.start_time ≤ b.start_time = ground arith in
      rw e (
        (le, All-mono (λ (c : BookingRow) (k : b.start_time ≤ c.start_time). omega arith) bs h.0),
        h,
      )
  | inr e ↦
      let le : b.start_time ≤ a.start_time = ground arith in
      rw e (
        All-insert_sorted (λ (c : BookingRow). b.start_time ≤ c.start_time) a bs le h.0,
        IsSorted-insert_sorted a bs h.1,
      )
]

IsSorted-order_by_start : (bs : List BookingRow) → IsSorted (order_by_start bs)
unfolding order_by_start
IsSorted-order_by_start [] = tt
IsSorted-order_by_start (b ∷ bs) =
    IsSorted-insert_sorted b (order_by_start bs) (IsSorted-order_by_start bs)

-- Each item is over before any later one begins.
abbrev pub Chronological : List ScheduleItem → Type 0
Chronological [] = Unit
Chronological (i ∷ items) =
    All (λ (j : ScheduleItem). i.end_time ≤ j.start_time) items × Chronological items

abbrev OfRoom : ℤ → BookingRow → Type 0
OfRoom id b = (b.room_id ≡ id) × (b.start_time < b.end_time)

over_before :
    (id : ℤ) (b : BookingRow) (bs : List BookingRow)
    → OfRoom id b
    → All (OfRoom id) bs
    → All (Disjoint b) bs
    → All (λ (c : BookingRow). b.start_time ≤ c.start_time) bs
    → All
        (λ (j : ScheduleItem). b.end_time ≤ j.start_time)
        (map schedule_item (map scan_booking bs))
over_before id b [] o h d s = tt
over_before id b (c ∷ bs) o h d s = (
  elim (d.0 (o.0 ∙ sym h.0.0)) [ inl k ↦ k | inr k ↦ absurd (omega arith) ],
  over_before id b bs o h.1 d.1 s.1,
)

Chronological-map :
    (id : ℤ) (bs : List BookingRow)
    → All (OfRoom id) bs
    → Apart bs
    → IsSorted bs
    → Chronological (map schedule_item (map scan_booking bs))
Chronological-map id [] h a s = tt
Chronological-map id (b ∷ bs) h a s =
    (over_before id b bs h.0 h.1 a.0 s.0, Chronological-map id bs h.1 a.1 s.1)

OfRoom-filter :
    (id : ℤ) (db : Db) (bs : List BookingRow)
    → All (IsSound db.rooms) bs
    → All (OfRoom id) (filter (λ (b : BookingRow). eqb_ℤ b.room_id id) bs)
OfRoom-filter id db [] h = tt
OfRoom-filter id db (b ∷ bs) h = ground (arith, eqb_ℤ_iff b.room_id id, OfRoom-filter id db bs h.1)

schedule_rows :
    (id : ℤ) (w : World) (items : List ScheduleItem) (s : World)
    → get_room_schedule store_ports id (quiet w) ≡ (ok items, s)
    → map schedule_item (map scan_booking (select_by_room id w.db)) ≡ items
unfolding get_room_schedule
schedule_rows id w items s h = ground (arith, get_by_id-quiet id w, list_by_room_id-quiet id w)

-- Over valid tables with no other client and no faults, the items of a room's schedule follow one
-- another: each ends before or when every later one starts.
pub get_room_schedule-Chronological :
    (id : ℤ) (w : World) (items : List ScheduleItem) (s : World)
    → IsValid w.db
    → get_room_schedule store_ports id (quiet w) ≡ (ok items, s)
    → Chronological items
unfolding select_by_room
get_room_schedule-Chronological id w items s v h =
    let here = filter (λ (b : BookingRow). eqb_ℤ b.room_id id) w.db.bookings in
    let c =
      Chronological-map id (order_by_start here)
        (All-order_by_start (OfRoom id) here (OfRoom-filter id w.db w.db.bookings v.sound))
        (Apart-order_by_start here (Apart-filter _ w.db.bookings v.apart))
        (IsSorted-order_by_start here) in
    subst Chronological (schedule_rows id w items s h) c

module _ (p : BookingRow → Bool) where
  count-insert_sorted :
      (a : BookingRow) (bs : List BookingRow)
      → count_rows p (insert_sorted a bs) ≡ count_rows p (a ∷ bs)
  unfolding insert_sorted
  count-insert_sorted a [] = refl
  count-insert_sorted a (b ∷ bs) = ground (arith, count-insert_sorted a bs)

  count-order_by_start : (bs : List BookingRow) → count_rows p (order_by_start bs) ≡ count_rows p bs
  unfolding order_by_start
  count-order_by_start [] = refl
  count-order_by_start (b ∷ bs) =
      ground (arith, count-insert_sorted b (order_by_start bs), count-order_by_start bs)

  count-filter :
      (q : BookingRow → Bool) (bs : List BookingRow)
      → count_rows p (filter q bs) ≡ count_rows (λ b. q b && p b) bs
  count-filter q [] = refl
  count-filter q (b ∷ bs) = ground (arith, count-filter q bs)

-- For every test on rows, the query of a room lists as many rows that pass it as the table has for
-- that room.
pub count-select_by_room :
    (p : BookingRow → Bool) (id : ℤ) (db : Db)
    → count_rows p (select_by_room id db) ≡ count_rows (λ b. eqb_ℤ b.room_id id && p b) db.bookings
unfolding select_by_room
count-select_by_room p id db = count-order_by_start p _ ∙ count-filter p _ db.bookings
