-- ===== src/Maintenance/Sizes.antt =====
-- How many rows the deletions of a batch remove (memory_router/maintenance.py).
use hindsight_memory_router.Common.{
  ==_self, eq_iff, arith, ◌≡◌, refl, ◌≤◌, ◌+◌, inl, inr, Bool-cases, ℕ, zero, suc, String, Bool,
  false, [], ◌∷◌, List, ◌==◌,
}
use hindsight_memory_router.Common.Table.{count_where, select_where, delete_where}
use hindsight_memory_router.Common.Table.Laws.{count_where-delete_where}
use hindsight_memory_router.Quarantine.{Item, has_id}
use hindsight_memory_router.Review.Machine.{IsUnique}
use hindsight_memory_router.Maintenance.{size_of, order_by_expiry, insert_by_expiry, limit_rows}
use hindsight_memory_router.Maintenance.Laws.{dropped}

count_where-insert_by_expiry :
    (p : Item → Bool) (row : Item) (rows : List Item)
    → count_where p (insert_by_expiry row rows) ≡ count_where p (row ∷ rows)
unfolding count_where insert_by_expiry
count_where-insert_by_expiry p row [] = refl
count_where-insert_by_expiry p row (r ∷ rows) =
    ground (arith, count_where-insert_by_expiry p row rows)

count_where-order_by_expiry :
    (p : Item → Bool) (rows : List Item) → count_where p (order_by_expiry rows) ≡ count_where p rows
unfolding count_where order_by_expiry
count_where-order_by_expiry p [] = refl
count_where-order_by_expiry p (r ∷ rows) = ground (
  arith,
  count_where-insert_by_expiry p r (order_by_expiry rows),
  count_where-order_by_expiry p rows,
)

count_where-limit_rows :
    (p : Item → Bool) (n : ℕ) (rows : List Item)
    → count_where p (limit_rows n rows) ≤ count_where p rows
unfolding count_where limit_rows
count_where-limit_rows p zero rows = ground arith
count_where-limit_rows p (suc n) [] = ground arith
count_where-limit_rows p (suc n) (r ∷ rows) = ground (arith, count_where-limit_rows p n rows)

count_where-select_where :
    (p q : Item → Bool) (rows : List Item)
    → count_where p (select_where q rows) ≤ count_where p rows
unfolding count_where select_where
count_where-select_where p q [] = ground arith
count_where-select_where p q (r ∷ rows) = ground (arith, count_where-select_where p q rows)

-- no id is more often in the batch than in the table
pub count_where-batch :
    (j : String) (limit : ℕ) (q : Item → Bool) (rows : List Item)
    → count_where (has_id j) (limit_rows limit (order_by_expiry (select_where q rows)))
      ≤ count_where (has_id j) rows
count_where-batch j limit q rows = ground (
  arith,
  count_where-limit_rows (has_id j) limit (order_by_expiry (select_where q rows)),
  count_where-order_by_expiry (has_id j) (select_where q rows),
  count_where-select_where (has_id j) q rows,
)

size_of-delete_where :
    (p : Item → Bool) (rows : List Item)
    → size_of rows ≡ size_of (delete_where p rows) + count_where p rows
unfolding size_of delete_where count_where
size_of-delete_where p [] = refl
size_of-delete_where p (r ∷ rows) = ground (arith, size_of-delete_where p rows)

-- a deletion by another id leaves the count of an id
count_where-delete_other :
    (j k : String) (rows : List Item)
    → (j == k) ≡ false
    → count_where (has_id j) (delete_where (has_id k) rows) ≡ count_where (has_id j) rows
unfolding delete_where count_where
count_where-delete_other j k [] ne = refl
count_where-delete_other j k (r ∷ rows) ne = ground (
  arith,
  count_where-delete_other j k rows ne,
  eq_iff r.quarantine_id j,
  eq_iff r.quarantine_id k,
)

remaining_counted :
    (row : Item) (rows items : List Item)
    → IsUnique items
    → ((j : String) → count_where (has_id j) (row ∷ rows) ≤ count_where (has_id j) items)
    → (j : String)
    → count_where (has_id j) rows
      ≤ count_where (has_id j) (delete_where (has_id row.quarantine_id) items)
unfolding count_where
remaining_counted row rows items u h j = elim (Bool-cases (j == row.quarantine_id)) [
  | inr other ↦ ground (arith, h j, count_where-delete_other j row.quarantine_id items other)
  | inl same ↦ ground (arith, h j, u j, eq_iff j row.quarantine_id, ==_self j)
]

first_counted :
    (row : Item) (rows items : List Item)
    → IsUnique items
    → count_where (has_id row.quarantine_id) (row ∷ rows)
      ≤ count_where (has_id row.quarantine_id) items
    → count_where (has_id row.quarantine_id) items ≡ 1
unfolding count_where
first_counted row rows items u h = ground (arith, u row.quarantine_id, ==_self row.quarantine_id)

-- Rows with ids of the table, none twice, that are removed one after the other: the table has as
-- many rows less as there are.
pub size_of-dropped :
    (rows items : List Item)
    → IsUnique items
    → ((j : String) → count_where (has_id j) rows ≤ count_where (has_id j) items)
    → size_of items ≡ size_of (dropped rows items) + size_of rows
unfolding size_of dropped
size_of-dropped [] items u h = ground arith
size_of-dropped (row ∷ rows) items u h =
    let id = row.quarantine_id in
    let rest =
      size_of-dropped rows (delete_where (has_id id) items)
        (λ j. ground (arith, u j, count_where-delete_where (has_id j) (has_id id) items))
        (remaining_counted row rows items u h) in
    let one : count_where (has_id id) items ≡ 1 = first_counted row rows items u (h id) in
    ground (arith, rest, size_of-delete_where (has_id id) items)
