-- ===== src/Store/Import/Counts.antt =====
-- The statistics of an import, and the rows that it leaves.
use uban_z.Prelude.{
  ℕ, suc, ◌+◌, ℤ, String, Bool, true, false, not, List, [], ◌∷◌, length, filter, any, ltb,
  if◌then◌else◌, Option, none, some, ◌≡◌, ◌∙◌, subst, ap, refl, arith, Result, ok, err, M, then_run,
  inl, inr, Option-cases, Result-cases,
}
use uban_z.Booking.Domain.{Error}
use uban_z.Parser.Domain.{RoomSelector, ScheduleSlot, ImportStats}
use uban_z.Parser.RoomName.{normalize_parsed_room}
use uban_z.Store.Table.{
  BookingRow, Db, is_parsed, insert_or_skip, upsert_room, broken_constraint, count_rows,
  delete_bookings, delete_stale_rooms, exists_parsed,
}
use uban_z.Store.Table.Upsert.{upsert_room_rest}
use uban_z.Store.World.{
  World, Tx, end_tx, quiet, exec, run_tx, transact, begin_func, query, run_others,
}
use uban_z.Store.Repository.{has_parsed_schedule}
use uban_z.Store.Import.{
  import_rooms, import_slots, replace_body, replace_parsed_schedule, upsert_parsed_room, RoomIds,
  room_of_slot, lookup_room, room_key, slot_row, count_slot, one_room_more, start_stats,
  delete_parsed, delete_stale,
}
use uban_z.Store.Import.Replacement.{with_tx_faults}

abbrev pub parsed_rows : Db → ℕ
parsed_rows db = count_rows is_parsed db.bookings

-- How the statistics of a part of an import that handled `n` slots grew with the rows.
record Grows (stats : ImportStats) (before n : ℕ) (s : ImportStats) (db : Db) : Type 0 where
  handled :
      s.lessons_imported + s.lessons_skipped ≡ stats.lessons_imported + stats.lessons_skipped + n
  rows : parsed_rows db + stats.lessons_imported ≡ before + s.lessons_imported
  seen : s.rooms_seen ≡ stats.rooms_seen
  expanded : s.lessons_expanded ≡ stats.lessons_expanded

abbrev IsCounted :
    {A : Type 0} → (A → ImportStats) → ImportStats → ℕ → ℕ → Result Error A × Tx → Type 0
IsCounted f stats before n (ok a, t) = Grows stats before n (f a) t.db
IsCounted f stats before n (err e, t) = Unit

exec_ok :
    {A : Type 0} (m : M Db Error A) (t : Tx) (a : A)
    → (exec m t).0 ≡ ok a
    → ((m t.db).0 ≡ ok a) × ((exec m t).1.db ≡ (m t.db).1)
unfolding exec
exec_ok m t a h = lemma m t.tx_faults t.db a h
  where
    lemma :
        {A : Type 0} (m : M Db Error A) (fs : List (Option Error)) (db : Db) (a : A)
        → (run_tx fs m db).0 ≡ ok a
        → ((m db).0 ≡ ok a) × ((run_tx fs m db).1.db ≡ (m db).1)
    lemma m [] db a h = (h, refl)
    lemma m (none ∷ fs) db a h = (h, refl)
    lemma m (some e ∷ fs) db a h = absurd (cc h)

upsert_parsed_room_bookings :
    (name building : String) (capacity : ℤ) (t : Tx)
    → (upsert_parsed_room name building capacity t).1.db.bookings ≡ t.db.bookings
unfolding upsert_parsed_room exec
upsert_parsed_room_bookings name building capacity t = lemma t.tx_faults
  where
    lemma :
        (fs : List (Option Error))
        → (run_tx fs (upsert_room name building capacity) t.db).1.db.bookings ≡ t.db.bookings
    lemma [] = (upsert_room_rest name building capacity t.db).0
    lemma (none ∷ fs) = (upsert_room_rest name building capacity t.db).0
    lemma (some e ∷ fs) = refl

insert_counts :
    (id : ℕ) (slot : ScheduleSlot) (db : Db) (inserted : Bool)
    → (insert_or_skip (slot_row id slot) db).0 ≡ ok inserted
    → (if inserted then suc (parsed_rows db) else parsed_rows db)
      ≡ parsed_rows (insert_or_skip (slot_row id slot) db).1
unfolding insert_or_skip
insert_counts id slot db inserted h =
    elim (Option-cases (broken_constraint (slot_row id slot) db)) [
      | inl e ↦ ground arith
      | inr (x, e) ↦ ground arith
    ]

Grows-trans :
    (a b c : ImportStats) (before m n total : ℕ) (db1 db2 : Db)
    → m + n ≡ total
    → Grows a before m b db1
    → Grows b (parsed_rows db1) n c db2
    → Grows a before total c db2
Grows-trans a b c before m n total db1 db2 sum g h = record {
  handled = omega (arith, sum, g.handled, h.handled);
  rows = omega (arith, g.rows, h.rows);
  seen = h.seen ∙ g.seen;
  expanded = h.expanded ∙ g.expanded;
}

IsCounted-after :
    {A : Type 0} (f : A → ImportStats) (a b : ImportStats) (before m n total : ℕ) (db : Db)
    (r : Result Error A × Tx)
    → m + n ≡ total
    → Grows a before m b db
    → IsCounted f b (parsed_rows db) n r
    → IsCounted f a before total r
IsCounted-after f a b before m n total db (ok x, t) sum g h =
    Grows-trans a b (f x) before m n total db t.db sum g h
IsCounted-after f a b before m n total db (err e, t) sum g h = tt

-- A step after another.
IsCounted-then :
    {A B : Type 0} (f : A → ImportStats) (g : B → ImportStats) (stats : ImportStats) (before n : ℕ)
    (k : A → M Tx Error B) (r : Result Error A × Tx)
    → IsCounted f stats before 0 r
    → ((a : A) (t : Tx) → r.0 ≡ ok a → IsCounted g (f a) (parsed_rows t.db) n (k a t))
    → IsCounted g stats before n (then_run k r.0 r.1)
IsCounted-then f g stats before n k (ok a, t) h rest =
    IsCounted-after g stats (f a) before 0 n n t.db (k a t) (omega arith) h (rest a t refl)
IsCounted-then f g stats before n k (err e, t) h rest = tt

upsert-Grows :
    (n : String × String × ℤ) (stats : ImportStats) (t : Tx)
    → Grows stats (parsed_rows t.db) 0 (one_room_more stats) (upsert_parsed_room n.0 n.1 n.2 t).1.db
upsert-Grows n stats t = record {
  handled = omega arith;
  rows = rw (upsert_parsed_room_bookings n.0 n.1 n.2 t) (omega arith);
  seen = refl;
  expanded = refl;
}

room_of_slot-IsCounted :
    (o : Option ℕ) (n : String × String × ℤ) (ids : RoomIds) (stats : ImportStats) (t : Tx)
    → IsCounted (λ found. found.2) stats (parsed_rows t.db) 0 (room_of_slot o n ids stats t)
room_of_slot-IsCounted (some id) n ids stats t = record {
  handled = omega arith;
  rows = omega arith;
  seen = refl;
  expanded = refl;
}
room_of_slot-IsCounted none n ids stats t =
    elim (Result-cases (upsert_parsed_room n.0 n.1 n.2 t).0) [
      | inr (x, e) ↦ rw e tt
      | inl (id, e) ↦ rw e (upsert-Grows n stats t)
    ]

import_rooms-IsCounted :
    (rooms : List RoomSelector) (ids : RoomIds) (stats : ImportStats) (t : Tx)
    → IsCounted (λ found. found.1) stats (parsed_rows t.db) 0 (import_rooms rooms ids stats t)
unfolding import_rooms
import_rooms-IsCounted [] ids stats t = record {
  handled = omega arith;
  rows = omega arith;
  seen = refl;
  expanded = refl;
}
import_rooms-IsCounted (room ∷ rooms) ids stats t =
    let n : String × String × ℤ = normalize_parsed_room room.name room.building room.capacity in
    elim (Result-cases (upsert_parsed_room n.0 n.1 n.2 t).0) [
      | inr (x, e) ↦ rw e tt
      | inl (id, e) ↦ rw e (
          IsCounted-after (λ found. found.1) stats (one_room_more stats) (parsed_rows t.db) 0 0 0
            (upsert_parsed_room n.0 n.1 n.2 t).1.db
            (import_rooms rooms ((room_key n.1 n.0, id) ∷ ids) (one_room_more stats)
              (upsert_parsed_room n.0 n.1 n.2 t).1)
            refl (upsert-Grows n stats t)
            (import_rooms-IsCounted rooms ((room_key n.1 n.0, id) ∷ ids) (one_room_more stats)
              (upsert_parsed_room n.0 n.1 n.2 t).1))
    ]

insert-Grows :
    (id : ℕ) (slot : ScheduleSlot) (stats : ImportStats) (t : Tx) (inserted : Bool)
    → (exec (insert_or_skip (slot_row id slot)) t).0 ≡ ok inserted
    → Grows stats
        (parsed_rows t.db)
        1
        (count_slot inserted stats)
        (exec (insert_or_skip (slot_row id slot)) t).1.db
insert-Grows id slot stats t true h =
    let done = exec_ok (insert_or_skip (slot_row id slot)) t true h in
    let counted = insert_counts id slot t.db true done.0 in
    rw done.1 (record {
      handled = omega arith;
      rows = omega (arith, counted);
      seen = refl;
      expanded = refl;
    })
insert-Grows id slot stats t false h =
    let done = exec_ok (insert_or_skip (slot_row id slot)) t false h in
    let counted = insert_counts id slot t.db false done.0 in
    rw done.1 (record {
      handled = omega arith;
      rows = omega (arith, counted);
      seen = refl;
      expanded = refl;
    })

import_slots-IsCounted :
    (slots : List ScheduleSlot) (ids : RoomIds) (stats : ImportStats) (t : Tx)
    → IsCounted (λ s. s) stats (parsed_rows t.db) (length slots) (import_slots slots ids stats t)
unfolding import_slots
import_slots-IsCounted [] ids stats t = record {
  handled = omega arith;
  rows = omega arith;
  seen = refl;
  expanded = refl;
}
import_slots-IsCounted (slot ∷ slots) ids stats t =
    let n : String × String × ℤ =
      normalize_parsed_room slot.room_name slot.building slot.capacity in
    let m : M Tx Error (ℕ × RoomIds × ImportStats) =
      room_of_slot (lookup_room (room_key n.1 n.0) ids) n ids stats in
    let q = room_of_slot-IsCounted (lookup_room (room_key n.1 n.0) ids) n ids stats t in
    IsCounted-then (λ found. found.2) (λ s. s) stats (parsed_rows t.db) (suc (length slots)) _ (m t)
      q
      (λ found t1 _. elim (Result-cases (exec (insert_or_skip (slot_row found.0 slot)) t1).0) [
        | inr (x, e) ↦ rw e tt
        | inl (inserted, e) ↦
            let t2 : Tx = (exec (insert_or_skip (slot_row found.0 slot)) t1).1 in
            rw e (
              IsCounted-after (λ s. s) found.2 (count_slot inserted found.2) (parsed_rows t1.db) 1
                (length slots) (suc (length slots)) t2.db
                (import_slots slots found.1 (count_slot inserted found.2) t2) (omega arith)
                (insert-Grows found.0 slot found.2 t1 inserted e)
                (import_slots-IsCounted slots found.1 (count_slot inserted found.2) t2))
      ])

-- The transaction empties the parsed rows before it counts.
count_unparsed :
    (bs : List BookingRow) → count_rows is_parsed (filter (λ b. not (is_parsed b)) bs) ≡ 0
count_unparsed [] = refl
count_unparsed (b ∷ bs) = ground (arith, count_unparsed bs)

emptied :
    (t : Tx) (u u2 : Unit {0})
    → (exec delete_parsed t).0 ≡ ok u
    → (exec delete_stale (exec delete_parsed t).1).0 ≡ ok u2
    → parsed_rows (exec delete_stale (exec delete_parsed t).1).1.db ≡ 0
unfolding delete_bookings delete_stale_rooms
emptied t u u2 e f =
    rw ((exec_ok delete_stale (exec delete_parsed t).1 u2 f).1, (exec_ok delete_parsed t u e).1)
      (count_unparsed t.db.bookings)

replace_body-IsCounted :
    (rooms : List RoomSelector) (slots : List ScheduleSlot) (t : Tx)
    → IsCounted (λ s. s) (start_stats rooms slots) 0 (length slots) (replace_body rooms slots t)
unfolding replace_body
replace_body-IsCounted rooms slots t = elim (Result-cases (exec delete_parsed t).0) [
  | inr (x, e) ↦ rw e tt
  | inl (u, e) ↦
      let t1 : Tx = (exec delete_parsed t).1 in
      elim (Result-cases (exec delete_stale t1).0) [
        | inr (x, f) ↦ rw e (rw f tt)
        | inl (u2, f) ↦
            let t2 : Tx = (exec delete_stale t1).1 in
            rw e (
              rw f (
                IsCounted-then (λ found. found.1) (λ s. s) (start_stats rooms slots) 0
                  (length slots) _ (import_rooms rooms [] (start_stats rooms slots) t2)
                  (subst
                    (λ k.
                      IsCounted (λ found. found.1) (start_stats rooms slots) k 0
                        (import_rooms rooms [] (start_stats rooms slots) t2))
                    (emptied t u u2 e f)
                    (import_rooms-IsCounted rooms [] (start_stats rooms slots) t2))
                  (λ found t3 _. import_slots-IsCounted slots found.0 found.1 t3)))
      ]
]

end_tx-IsCounted :
    (old : Db) (r : Result Error ImportStats × Tx) (stats : ImportStats) (n : ℕ) (s : ImportStats)
    (db : Db)
    → IsCounted (λ x. x) stats 0 n r
    → end_tx old r ≡ (ok s, db)
    → Grows stats 0 n s db
end_tx-IsCounted old (ok a, t) stats n s db g h =
    subst (λ x. Grows stats 0 n x db) (cc h) (subst (λ d. Grows stats 0 n a d) (cc h) g)
end_tx-IsCounted old (err e, t) stats n s db g h = absurd (cc h)

-- With no other client and no fault of the commit, a `ReplaceParsedSchedule` that succeeds has
-- imported or skipped each slot once, has counted all rooms and slots it was given, and leaves as
-- many parsed rows as it counted imported.
pub replace_parsed_schedule-counts :
    (rooms : List RoomSelector) (slots : List ScheduleSlot) (faults : List (Option Error))
    (w s : World) (stats : ImportStats)
    → replace_parsed_schedule rooms slots (with_tx_faults faults w) ≡ (ok stats, s)
    → (stats.lessons_imported + stats.lessons_skipped ≡ length slots)
      × (parsed_rows s.db ≡ stats.lessons_imported)
      × (stats.rooms_seen ≡ length rooms)
      × (stats.lessons_expanded ≡ length slots)
unfolding replace_parsed_schedule begin_func transact query run_others
replace_parsed_schedule-counts rooms slots faults w s stats h =
    let r : Result Error ImportStats × Tx =
      replace_body rooms slots (record { db = w.db; tx_faults = faults }) in
    let g =
      end_tx-IsCounted w.db r (start_stats rooms slots) (length slots) stats s.db
        (replace_body-IsCounted rooms slots (record { db = w.db; tx_faults = faults })) (ended h) in
    (omega (arith, g.handled), omega (arith, g.rows), g.seen, g.expanded)
  where
    ended :
        replace_parsed_schedule rooms slots (with_tx_faults faults w) ≡ (ok stats, s)
        → end_tx w.db (replace_body rooms slots (record { db = w.db; tx_faults = faults }))
          ≡ (ok stats, s.db)
    ended h = ap (λ r. (r.0, r.1.db)) h

any-count : (bs : List BookingRow) → any is_parsed bs ≡ ltb 0 (count_rows is_parsed bs)
any-count [] = refl
any-count (b ∷ bs) = ground (arith, any-count bs)

-- With no other client and no fault of the commit, after a `ReplaceParsedSchedule` that succeeded
-- `HasParsedSchedule` answers, with no faults, whether at least one lesson was counted as
-- imported.
pub has_parsed_schedule-replace_parsed_schedule :
    (rooms : List RoomSelector) (slots : List ScheduleSlot) (faults : List (Option Error))
    (w s : World) (stats : ImportStats)
    → replace_parsed_schedule rooms slots (with_tx_faults faults w) ≡ (ok stats, s)
    → (has_parsed_schedule (quiet s)).0 ≡ ok (ltb 0 stats.lessons_imported)
unfolding has_parsed_schedule query exists_parsed
has_parsed_schedule-replace_parsed_schedule rooms slots faults w s stats h =
    let counts = replace_parsed_schedule-counts rooms slots faults w s stats h in
    rw (any-count s.db.bookings, counts.1) refl
