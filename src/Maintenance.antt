-- ===== src/Maintenance.antt =====
-- The removal of items that nobody reviews (memory_router/maintenance.py): the cleanup that an
-- administrator previews and then confirms, and the sweep of expired items. The time of a cleanup's
-- filter is parsed by a parameter, to a cutoff and whether the boundary is included. The details of the
-- events of a cleanup, which hold its filter, are an argument.
mod Laws
mod Cleanup
mod Sizes
mod Sweep
mod Tests
use hindsight_memory_router.Json.{Json, Items, null, string, array, nil, cons}
use hindsight_memory_router.Common.{
  ℕ, zero, suc, ◌+◌, String, Bool, true, false, Option, none, some, List, [], ◌∷◌, ◌++◌, ◌==◌,
  nat_eq, text_le, not, ◌&&◌, ◌||◌, if◌then◌else◌, member, Error, http_error, Result, ok, err,
  and_then, raise_if,
}
use hindsight_memory_router.Common.Table.{select_where, count_where, sum_of}
use hindsight_memory_router.Quarantine.{
  Item, Detail, text, optional, Tx, Exec, ◌>>=◌, ◌>>◌, pure, check, transaction, delete_item,
  insert_event, reviewable, in_review, final, is_expired,
}
use hindsight_memory_router.Envelope.{reasons}

abbrev pub batch_limit : ℕ
batch_limit = 1000

abbrev pub invalid_cleanup : Error
invalid_cleanup = http_error 400 "invalid_cleanup"

-- the reasons of the filter, all of them texts of the list
unfoldable pub selected_reasons : Items → Result (List String)
selected_reasons nil = ok []
selected_reasons (cons (string t) xs) =
    if member t reasons
    then and_then (selected_reasons xs) (λ ts. ok (t ∷ ts))
    else err invalid_cleanup
selected_reasons (cons other xs) = err invalid_cleanup

abbrev pub parsed_reasons : Json → Result (List String)
parsed_reasons null = ok []
parsed_reasons (array xs) = selected_reasons xs
parsed_reasons other = err invalid_cleanup

-- `reason IN (...)`, left out when no reason is given
unfoldable pub has_reason : List String → Item → Bool
has_reason [] item = true
has_reason (t ∷ ts) item = member item.reason (t ∷ ts)

-- created_at <= ? or created_at < ?
unfoldable pub is_older : Option (String × Bool) → Item → Bool
is_older none item = true
is_older (some (cutoff, inclusive)) item =
    if inclusive then text_le item.created_at cutoff else not (text_le cutoff item.created_at)

-- REVIEWABLE_FILTER_SQL and CLEANUP_FILTER_SQL
unfoldable pub in_scope_of_cleanup : String → Item → Bool
in_scope_of_cleanup scope item =
    if scope == "pending"
    then reviewable item.status
    else not (in_review item.status || final item.status)

abbrev pub parsed_cutoff : (Json → Result (String × Bool)) → Json → Result (Option (String × Bool))
parsed_cutoff parse_cutoff null = ok none
parsed_cutoff parse_cutoff older_than = and_then (parse_cutoff older_than) (λ c. ok (some c))

-- cleanup_params: the WHERE clause
unfoldable pub cleanup_params :
    (Json → Result (String × Bool)) → String → Json → Json → Result (Item → Bool)
cleanup_params parse_cutoff scope chosen older_than =
    and_then (raise_if (not ((scope == "pending") || (scope == "all"))) invalid_cleanup) λ u.
      and_then (parsed_reasons chosen) λ ts.
        and_then (parsed_cutoff parse_cutoff older_than) λ cutoff.
          ok (λ item. in_scope_of_cleanup scope item && has_reason ts item && is_older cutoff item)

-- preview_cleanup, for a WHERE clause
unfoldable pub preview_selected : (Item → Bool) → Tx (ℕ × ℕ)
preview_selected where_ db = ok (
  (count_where where_ db.items, sum_of (λ i. i.encrypted_bytes) (select_where where_ db.items)),
  db,
)

unfoldable pub size_of : List Item → ℕ
size_of [] = 0
size_of (row ∷ rows) = 1 + size_of rows

-- the loop of `cleanup`, and of `sweep_expired`, whose details are the row's
unfoldable pub delete_rows :
    (Item → List (String × Detail)) → Option String → String → List Item → Tx (Unit {0})
delete_rows details actor at [] = pure tt
delete_rows details actor at (row ∷ rows) = do
  delete_item row.quarantine_id
  insert_event row.quarantine_id "cleanup" at (details row) actor
  delete_rows details actor at rows

-- cleanup, for a WHERE clause
unfoldable pub cleanup_selected :
    (Item → Bool) → List (String × Detail) → ℕ → String → Option String → Exec (ℕ × ℕ)
cleanup_selected where_ details expected_count at actor = transaction λ db.
    let rows = select_where where_ db.items in
    (check (
          raise_if (not (nat_eq (size_of rows) expected_count))
            (http_error 409 "quarantine_cleanup_changed"))
        >> delete_rows (λ row. details) actor at rows
        >> pure (size_of rows, sum_of (λ i. i.encrypted_bytes) rows))
      db

module _ (parse_cutoff : Json → Result (String × Bool)) where
  unfoldable pub preview_cleanup : String → Json → Json → Exec (ℕ × ℕ)
  preview_cleanup scope chosen older_than db =
      elim (cleanup_params parse_cutoff scope chosen older_than) [
        | err e ↦ (err e, db)
        | ok where_ ↦ transaction (preview_selected where_) db
      ]

  unfoldable pub cleanup :
      String → Json → Json → List (String × Detail) → ℕ → String → Option String → Exec (ℕ × ℕ)
  cleanup scope chosen older_than details expected_count at actor db =
      elim (cleanup_params parse_cutoff scope chosen older_than) [
        | err e ↦ (err e, db)
        | ok where_ ↦ cleanup_selected where_ details expected_count at actor db
      ]

-- ORDER BY expires_at
abbrev pub expiry : Item → String
expiry item = elim item.expires_at [ none ↦ "" | some t ↦ t ]

unfoldable pub insert_by_expiry : Item → List Item → List Item
insert_by_expiry row [] = row ∷ []
insert_by_expiry row (r ∷ rows) =
    let rest = insert_by_expiry row rows in
    if text_le (expiry row) (expiry r) then row ∷ r ∷ rows else r ∷ rest

unfoldable pub order_by_expiry : List Item → List Item
order_by_expiry [] = []
order_by_expiry (row ∷ rows) = insert_by_expiry row (order_by_expiry rows)

-- LIMIT ?
unfoldable pub limit_rows : ℕ → List Item → List Item
limit_rows zero rows = []
limit_rows (suc n) [] = []
limit_rows (suc n) (row ∷ rows) = row ∷ limit_rows n rows

-- the WHERE clause of _SWEEP_SQL
abbrev pub is_swept : String → Item → Bool
is_swept at item = reviewable item.status && is_expired item at

abbrev pub sweep_details : Item → List (String × Detail)
sweep_details row = ("reason", text "expired") ∷ ("expires_at", optional row.expires_at) ∷ []

-- sweep_expired, with its batch limit
unfoldable pub sweep_batch : ℕ → String → Exec ℕ
sweep_batch limit at = transaction λ db.
    let rows = limit_rows limit (order_by_expiry (select_where (is_swept at) db.items)) in
    (delete_rows sweep_details none at rows >> pure (size_of rows)) db

unfoldable pub sweep_expired : String → Exec ℕ
sweep_expired at = sweep_batch batch_limit at
