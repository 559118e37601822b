-- ===== src/Store/Import/Effects.antt =====
-- What an import of the timetable does to the tables.
use uban_z.Prelude.{
  ℕ, ℤ, String, Bool, List, [], ◌∷◌, Option, none, some, arith, M, inl, inr, Result-cases,
}
use uban_z.Booking.Domain.{Error}
use uban_z.Parser.Domain.{RoomSelector, ScheduleSlot, ImportStats}
use uban_z.Parser.RoomName.{normalize_parsed_room}
use uban_z.Store.Table.{Db, insert_or_skip, upsert_room}
use uban_z.Store.World.{Tx, exec, run_tx}
use uban_z.Store.Import.{
  import_rooms, import_slots, replace_body, upsert_parsed_room, RoomIds, room_of_slot, lookup_room,
  room_key, slot_row, count_slot, one_room_more, start_stats, delete_parsed, delete_stale,
}

module _ (P : Db → Type 0) where
  -- A call inside a transaction that keeps a property of the tables.
  abbrev KeepsTx : {A : Type 0} → M Tx Error A → Type 0
  KeepsTx m = (t : Tx) → P t.db → P (m t).1.db

  run_tx-KeepsTx :
      {A : Type 0} (m : M Db Error A)
      → ((d : Db) → P d → P (m d).1)
      → (fs : List (Option Error)) (db : Db) → P db
      → P (run_tx fs m db).1.db
  run_tx-KeepsTx m h [] db p = h db p
  run_tx-KeepsTx m h (none ∷ fs) db p = h db p
  run_tx-KeepsTx m h (some e ∷ fs) db p = p

  exec-KeepsTx : {A : Type 0} (m : M Db Error A) → ((d : Db) → P d → P (m d).1) → KeepsTx (exec m)
  unfolding exec
  exec-KeepsTx m h t p = run_tx-KeepsTx m h t.tx_faults t.db p

  module _
      (upsert : (name building : String) (capacity : ℤ) (d : Db)
        → P d
        → P (upsert_room name building capacity d).1) where
    upsert_parsed_room-KeepsTx :
        (name building : String) (capacity : ℤ)
        → KeepsTx (upsert_parsed_room name building capacity)
    unfolding upsert_parsed_room
    upsert_parsed_room-KeepsTx name building capacity t p =
        exec-KeepsTx (upsert_room name building capacity) (upsert name building capacity) t p

    import_rooms-KeepsTx :
        (rooms : List RoomSelector) (ids : RoomIds) (stats : ImportStats)
        → KeepsTx (import_rooms rooms ids stats)
    unfolding import_rooms
    import_rooms-KeepsTx [] ids stats t p = p
    import_rooms-KeepsTx (room ∷ rooms) ids stats t p =
        let n : String × String × ℤ = normalize_parsed_room room.name room.building room.capacity in
        let q = upsert_parsed_room-KeepsTx n.0 n.1 n.2 t p in
        elim (Result-cases (upsert_parsed_room n.0 n.1 n.2 t).0) [
          | inl (id, e) ↦ rw e (
              import_rooms-KeepsTx rooms ((room_key n.1 n.0, id) ∷ ids) (one_room_more stats)
                (upsert_parsed_room n.0 n.1 n.2 t).1 q)
          | inr (x, e) ↦ rw e q
        ]

    room_of_slot-KeepsTx :
        (o : Option ℕ) (n : String × String × ℤ) (ids : RoomIds) (stats : ImportStats)
        → KeepsTx (room_of_slot o n ids stats)
    room_of_slot-KeepsTx (some id) n ids stats t p = p
    room_of_slot-KeepsTx none n ids stats t p =
        ground (arith, upsert_parsed_room-KeepsTx n.0 n.1 n.2 t p)

    module _
        (insert : (id : ℕ) (slot : ScheduleSlot) (d : Db)
          → P d
          → P (insert_or_skip (slot_row id slot) d).1) where
      import_slots-KeepsTx :
          (slots : List ScheduleSlot) (ids : RoomIds) (stats : ImportStats)
          → KeepsTx (import_slots slots ids stats)
      unfolding import_slots
      import_slots-KeepsTx [] ids stats t p = p
      import_slots-KeepsTx (slot ∷ slots) ids stats t p =
          let n : String × String × ℤ =
            normalize_parsed_room slot.room_name slot.building slot.capacity in
          let m : M Tx Error (ℕ × RoomIds × ImportStats) =
            room_of_slot (lookup_room (room_key n.1 n.0) ids) n ids stats in
          let q = room_of_slot-KeepsTx (lookup_room (room_key n.1 n.0) ids) n ids stats t p in
          elim (Result-cases (m t).0) [
            | inr (x, e) ↦ rw e q
            | inl (found, e) ↦
                let stored : M Tx Error Bool = exec (insert_or_skip (slot_row found.0 slot)) in
                let q2 =
                  exec-KeepsTx (insert_or_skip (slot_row found.0 slot)) (insert found.0 slot)
                    (m t).1 q in
                elim (Result-cases (stored (m t).1).0) [
                  | inr (x, f) ↦ rw e (rw f q2)
                  | inl (inserted, f) ↦ rw e (
                      rw f (
                        import_slots-KeepsTx slots found.1 (count_slot inserted found.2)
                          (stored (m t).1).1 q2))
                ]
          ]

      module _ (parsed : (d : Db) → P d → P (delete_parsed d).1)
          (stale : (d : Db) → P d → P (delete_stale d).1) where
        pub replace_body-KeepsTx :
            (rooms : List RoomSelector) (slots : List ScheduleSlot)
            → KeepsTx (replace_body rooms slots)
        unfolding replace_body
        replace_body-KeepsTx rooms slots t p =
            let p1 = exec-KeepsTx delete_parsed parsed t p in
            let t1 : Tx = (exec delete_parsed t).1 in
            let p2 = exec-KeepsTx delete_stale stale t1 p1 in
            let t2 : Tx = (exec delete_stale t1).1 in
            let p3 = import_rooms-KeepsTx rooms [] (start_stats rooms slots) t2 p2 in
            elim (Result-cases (exec delete_parsed t).0) [
              | inr (x, e) ↦ rw e p1
              | inl (u, e) ↦ elim (Result-cases (exec delete_stale t1).0) [
                | inr (x, f) ↦ rw e (rw f p2)
                | inl (u2, f) ↦
                    elim (Result-cases (import_rooms rooms [] (start_stats rooms slots) t2).0) [
                      | inr (x, g) ↦ rw e (rw f (rw g p3))
                      | inl (found, g) ↦
                          rw e (rw f (rw g (import_slots-KeepsTx slots found.0 found.1 _ p3)))
                    ]
              ]
            ]
