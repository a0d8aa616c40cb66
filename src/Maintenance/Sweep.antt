-- ===== src/Maintenance/Sweep.antt =====
-- A sweep removes only rows that have expired, and all of them when the batch is not full
-- (memory_router/maintenance.py).
use hindsight_memory_router.Maintenance.Sizes.{count_where-batch, size_of-dropped}
use hindsight_memory_router.Common.{
  ◌+◌, ltb, false, arith, ◌≡◌, refl, ◌≤◌, ◌<◌, ◌⊎◌, ◌≢◌, inl, inr, Bool-cases, Option-cases, ℕ,
  zero, suc, String, Bool, true, Option, some, none, ok, List, [], ◌∷◌, ◌||◌, is_some,
}
use hindsight_memory_router.Common.Table.{find_where, select_where}
use hindsight_memory_router.Quarantine.{Item, Db, has_id, transaction}
use hindsight_memory_router.Review.Machine.{IsUnique}
use hindsight_memory_router.Maintenance.{
  size_of, is_swept, sweep_details, sweep_batch, order_by_expiry, insert_by_expiry, limit_rows,
}
use hindsight_memory_router.Maintenance.Laws.{
  dropped, logged, delete_rows_done, only_if, find_where-dropped, find_where-select_where,
}

find_where-insert_by_expiry :
    (j : String) (row : Item) (rows : List Item)
    → is_some (find_where (has_id j) (insert_by_expiry row rows))
      ≡ (has_id j row || is_some (find_where (has_id j) rows))
unfolding find_where insert_by_expiry
find_where-insert_by_expiry j row [] = ground arith
find_where-insert_by_expiry j row (r ∷ rows) =
    ground (arith, find_where-insert_by_expiry j row rows)

find_where-order_by_expiry :
    (j : String) (rows : List Item)
    → is_some (find_where (has_id j) (order_by_expiry rows)) ≡ is_some (find_where (has_id j) rows)
unfolding find_where order_by_expiry
find_where-order_by_expiry j [] = refl
find_where-order_by_expiry j (r ∷ rows) = ground (
  arith,
  find_where-insert_by_expiry j r (order_by_expiry rows),
  find_where-order_by_expiry j rows,
)

find_where-limit_rows :
    (j : String) (n : ℕ) (rows : List Item)
    → is_some (find_where (has_id j) (limit_rows n rows)) ≡ true
    → is_some (find_where (has_id j) rows) ≡ true
unfolding find_where limit_rows
find_where-limit_rows j zero rows h = absurd (ground arith)
find_where-limit_rows j (suc n) [] h = h
find_where-limit_rows j (suc n) (r ∷ rows) h = ground (arith, find_where-limit_rows j n rows)

size_of-limit_rows : (n : ℕ) (rows : List Item) → size_of (limit_rows n rows) ≤ n
unfolding size_of limit_rows
size_of-limit_rows zero rows = ground arith
size_of-limit_rows (suc n) [] = ground arith
size_of-limit_rows (suc n) (r ∷ rows) = ground (arith, size_of-limit_rows n rows)

limit_rows_all :
    (n : ℕ) (rows : List Item) → size_of (limit_rows n rows) < n → limit_rows n rows ≡ rows
unfolding size_of limit_rows
limit_rows_all zero rows h = absurd (ground arith)
limit_rows_all (suc n) [] h = refl
limit_rows_all (suc n) (r ∷ rows) h = ground (arith, limit_rows_all n rows)

-- whether there is a row, and it is one to be swept
abbrev pub swept_one : String → Option Item → Bool
swept_one at none = false
swept_one at (some r) = is_swept at r

-- What became of a row when n rows were removed: it was to be swept and is gone; or it is as it was,
-- and then it was not to be swept unless the batch was full.
abbrev pub IsSwept : String → ℕ → ℕ → Option Item → Option Item → Type 0
IsSwept at limit n before after =
    ((swept_one at before ≡ true) × (after ≡ none))
    ⊎ ((after ≡ before) × ((limit ≤ n) ⊎ (swept_one at before ≡ false)))

only_if-some :
    (p : Item → Bool) (o : Option Item)
    → is_some (only_if p o) ≡ true
    → (r : Item) × (o ≡ some r) × (p r ≡ true)
only_if-some p none h = absurd (ground arith)
only_if-some p (some r) h = elim (Bool-cases (p r)) [
  | inl fits ↦ (r, refl, fits)
  | inr other ↦ absurd (ground arith)
]

-- the rows of one batch
abbrev batch : ℕ → String → Db → List Item
batch limit at db = limit_rows limit (order_by_expiry (select_where (is_swept at) db.items))

sweep_batch_done :
    (limit : ℕ) (at : String) (db : Db)
    → sweep_batch limit at db ≡ (
      ok (size_of (batch limit at db)),
      record {
        items = dropped (batch limit at db) db.items;
        events = logged sweep_details none at (batch limit at db) db.events;
      },
    )
unfolding sweep_batch transaction
sweep_batch_done limit at db =
    ground (arith, delete_rows_done sweep_details none at (batch limit at db) db)

module _ (limit : ℕ) (at : String) (db : Db) (u : IsUnique db.items) where
  all_listed :
      (j : String)
      → size_of (batch limit at db) < limit
      → swept_one at (find_where (has_id j) db.items) ≡ true
      → find_where (has_id j) (batch limit at db) ≢ none
  all_listed j less due absent =
      let all = limit_rows_all limit (order_by_expiry (select_where (is_swept at) db.items)) less in
      let same : batch limit at db ≡ order_by_expiry (select_where (is_swept at) db.items) = all in
      let e = find_where-order_by_expiry j (select_where (is_swept at) db.items) in
      let f = find_where-select_where j (is_swept at) db.items (u j) in
      elim (Option-cases (find_where (has_id j) db.items)) [
        | inl missing ↦ absurd (ground arith)
        | inr (r, found) ↦
            let listed : is_some
                  (find_where (has_id j) (order_by_expiry (select_where (is_swept at) db.items)))
                ≡ true =
              ground arith in
            absurd (ground arith)
      ]

  kept_row :
      (j : String)
      → find_where (has_id j) (batch limit at db) ≡ none
      → (limit ≤ size_of (batch limit at db))
        ⊎ (swept_one at (find_where (has_id j) db.items) ≡ false)
  kept_row j absent = elim (Bool-cases (ltb (size_of (batch limit at db)) limit)) [
    | inr full ↦ inl (ground arith)
    | inl below ↦
        let less : size_of (batch limit at db) < limit = ground arith in
        elim (Bool-cases (swept_one at (find_where (has_id j) db.items))) [
          | inr other ↦ inr other
          | inl due ↦ absurd (all_listed j less due absent)
        ]
  ]

  row-IsSwept :
      (j : String)
      → IsSwept at limit
          (size_of (batch limit at db))
          (find_where (has_id j) db.items)
          (find_where (has_id j) (dropped (batch limit at db) db.items))
  row-IsSwept j =
      let e = find_where-dropped j (batch limit at db) db.items in
      elim (Option-cases (find_where (has_id j) (batch limit at db))) [
        | inl absent ↦ inr (ground arith, kept_row j absent)
        | inr (x, there) ↦
            let listed : is_some (find_where (has_id j) (select_where (is_swept at) db.items))
                ≡ true =
              ground (
                arith,
                find_where-limit_rows j limit
                    (order_by_expiry (select_where (is_swept at) db.items)),
                find_where-order_by_expiry j (select_where (is_swept at) db.items),
              ) in
            let (r, found, expired) =
              only_if-some (is_swept at) (find_where (has_id j) db.items)
                (ground (arith, find_where-select_where j (is_swept at) db.items (u j))) in
            inl (ground arith, ground arith)
      ]

  -- A sweep succeeds. The number n that it returns is at most its limit, and the table has exactly n
  -- rows less. Each row was reviewable and expired and is gone, or is as it was; and unless the batch
  -- was full, what is left was not both reviewable and expired (from unique ids).
  pub sweep_batch-IsSwept :
      (j : String)
      → (n : ℕ) × (db' : Db) × (sweep_batch limit at db ≡ (ok n, db'))
        × (n ≤ limit)
        × (size_of db.items ≡ size_of db'.items + n)
        × IsSwept at limit n (find_where (has_id j) db.items) (find_where (has_id j) db'.items)
  sweep_batch-IsSwept j = (
    size_of (batch limit at db),
    record {
      items = dropped (batch limit at db) db.items;
      events = logged sweep_details none at (batch limit at db) db.events;
    },
    sweep_batch_done limit at db,
    size_of-limit_rows limit (order_by_expiry (select_where (is_swept at) db.items)),
    size_of-dropped (batch limit at db) db.items u
        (λ k. count_where-batch k limit (is_swept at) db.items),
    row-IsSwept j,
  )
