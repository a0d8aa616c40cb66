-- ===== src/Maintenance/Laws.antt =====
-- What a cleanup and a sweep remove, and what stays (memory_router/maintenance.py).
use hindsight_memory_router.Common.{
  arith, ◌≡◌, refl, ◌≤◌, inl, inr, Bool-cases, eq_iff, String, Bool, Option, some, none, ok, List,
  [], ◌∷◌, if◌then◌else◌,
}
use hindsight_memory_router.Common.Table.{find_where, delete_where, select_where, count_where}
use hindsight_memory_router.Common.Table.Laws.{
  find_where-delete_self, find_where-delete_ne, find_where-none,
}
use hindsight_memory_router.Quarantine.{
  Item, Db, Event, Detail, has_id, delete_item, insert_event, event_of,
}
use hindsight_memory_router.Maintenance.{size_of, delete_rows}

-- the tables after the loop
unfoldable pub dropped : List Item → List Item → List Item
dropped [] items = items
dropped (row ∷ rows) items = dropped rows (delete_where (has_id row.quarantine_id) items)

unfoldable pub logged :
    (Item → List (String × Detail)) → Option String → String → List Item → List Event → List Event
logged details actor at [] events = events
logged details actor at (row ∷ rows) events =
    logged details actor at rows
      (event_of row.quarantine_id "cleanup" at (details row) actor ∷ events)

pub delete_rows_done :
    (details : Item → List (String × Detail)) (actor : Option String) (at : String)
    (rows : List Item) (db : Db)
    → delete_rows details actor at rows db
      ≡ ok (
        tt,
        record { items = dropped rows db.items; events = logged details actor at rows db.events },
      )
unfolding delete_rows dropped logged delete_item insert_event
delete_rows_done details actor at [] db = refl
delete_rows_done details actor at (row ∷ rows) db = delete_rows_done details actor at rows record {
  items = delete_where (has_id row.quarantine_id) db.items;
  events = event_of row.quarantine_id "cleanup" at (details row) actor ∷ db.events;
}

-- a row is left unless one with its id is among those that are removed
abbrev pub left : Option Item → Option Item → Option Item
left none found = found
left (some r) found = none

left-none : (o : Option Item) → left o none ≡ none
left-none none = refl
left-none (some r) = refl

pub find_where-dropped :
    (j : String) (rows items : List Item)
    → find_where (has_id j) (dropped rows items)
      ≡ left (find_where (has_id j) rows) (find_where (has_id j) items)
unfolding dropped find_where
find_where-dropped j [] items = refl
find_where-dropped j (row ∷ rows) items = elim (Bool-cases (has_id j row)) [
  | inl own ↦
      let gone : find_where (has_id j) (delete_where (has_id row.quarantine_id) items) ≡ none =
        find_where-delete_self (has_id j) (has_id row.quarantine_id) items (λ x p. ground (
          arith,
          eq_iff row.quarantine_id j,
          eq_iff x.quarantine_id j,
          eq_iff x.quarantine_id row.quarantine_id,
        )) in
      ground (
        arith,
        find_where-dropped j rows (delete_where (has_id row.quarantine_id) items),
        left-none (find_where (has_id j) rows),
      )
  | inr other ↦
      let same : find_where (has_id j) (delete_where (has_id row.quarantine_id) items)
          ≡ find_where (has_id j) items =
        find_where-delete_ne (has_id j) (has_id row.quarantine_id) items (λ x p. ground (
          arith,
          eq_iff row.quarantine_id j,
          eq_iff x.quarantine_id j,
          eq_iff x.quarantine_id row.quarantine_id,
        )) in
      ground (arith, find_where-dropped j rows (delete_where (has_id row.quarantine_id) items))
]

abbrev pub only_if : (Item → Bool) → Option Item → Option Item
only_if p none = none
only_if p (some r) = if p r then some r else none

pub find_where-select_where :
    (j : String) (p : Item → Bool) (items : List Item)
    → count_where (has_id j) items ≤ 1
    → find_where (has_id j) (select_where p items) ≡ only_if p (find_where (has_id j) items)
unfolding find_where select_where count_where
find_where-select_where j p [] u = refl
find_where-select_where j p (x ∷ xs) u =
    ground (arith, find_where-select_where j p xs, find_where-none (has_id j) xs)

pub size_of-select_where :
    (p : Item → Bool) (items : List Item) → size_of (select_where p items) ≡ count_where p items
unfolding size_of select_where count_where
size_of-select_where p [] = refl
size_of-select_where p (x ∷ xs) = ground (arith, size_of-select_where p xs)

-- the row of an id after the rows that meet a test are removed
abbrev pub remaining : (Item → Bool) → Option Item → Option Item
remaining p none = none
remaining p (some r) = if p r then none else some r

left-only_if : (p : Item → Bool) (o : Option Item) → left (only_if p o) o ≡ remaining p o
left-only_if p none = refl
left-only_if p (some r) = ground arith

pub dropped-select_where :
    (j : String) (p : Item → Bool) (items : List Item)
    → count_where (has_id j) items ≤ 1
    → find_where (has_id j) (dropped (select_where p items) items)
      ≡ remaining p (find_where (has_id j) items)
dropped-select_where j p items u =
    rw (find_where-dropped j (select_where p items) items, find_where-select_where j p items u)
      (left-only_if p (find_where (has_id j) items))
