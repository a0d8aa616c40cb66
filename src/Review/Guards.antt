-- ===== src/Review/Guards.antt =====
-- The checks of a review and `_mutate_review` (memory_router/review_repository.py).
-- `parse_iso` is Python's `datetime.fromisoformat`: microseconds since year 1, or `none` where it
-- raises `ValueError`.
use hindsight_memory_router.Common.{
  ℕ, ◌+◌, ◌*◌, String, Bool, true, false, not, ◌||◌, Option, none, some, [], ◌∷◌, ◌==◌, leb, Error,
  Result, ok, err, http_error, raise_if, if◌then◌else◌,
}
use hindsight_memory_router.Common.Table.{delete_where, update_where}
use hindsight_memory_router.Quarantine.{
  Status, postponed, review_in_progress, review_side_effect_started, review_side_effect_completed,
  status_eq, reviewable, Item, text, flag, Db, Tx, Exec, ◌>>=◌, ◌>>◌, pure, raise, check,
  transaction, has_id, select_item, insert_event, is_expired,
}

abbrev pub not_found : Error
not_found = http_error 404 "quarantine_not_found"

abbrev pub review_changed : Error
review_changed = http_error 409 "quarantine_review_changed"

abbrev pub already_finalized : Error
already_finalized = http_error 409 "quarantine_already_finalized"

abbrev pub item_expired : Error
item_expired = http_error 409 "quarantine_expired"

abbrev pub invalid_action : Error
invalid_action = http_error 409 "invalid_review_action"

abbrev pub elapsed : Option ℕ → Option ℕ → ℕ → Bool
elapsed (some updated) (some current) seconds = leb (updated + seconds * 1000000) current
elapsed _ _ seconds = false

-- _stale: a time that does not parse is never stale
unfoldable pub stale : (String → Option ℕ) → String → String → ℕ → Bool
stale parse_iso updated_at at seconds = elapsed (parse_iso updated_at) (parse_iso at) seconds

unfoldable pub assert_reviewable : Item → String → Result (Unit {0})
assert_reviewable item at =
    if not (reviewable item.status)
    then err already_finalized
    else raise_if (is_expired item at) item_expired

-- `expected is not None and value != expected`
abbrev pub differs : Option String → String → Bool
differs none value = false
differs (some expected) value = not (value == expected)

unfoldable pub assert_snapshot : Item → Option String → Option String → Result (Unit {0})
assert_snapshot item expected_sha256 expected_updated_at =
    if differs expected_sha256 item.sha256
    then err review_changed
    else raise_if (differs expected_updated_at item.updated_at) review_changed

-- `WHERE quarantine_id=? AND status='review_in_progress'`
abbrev pub is_claim : String → Item → Bool
is_claim id item = elim (has_id id item) [
  | true ↦ status_eq item.status review_in_progress
  | false ↦ false
]

abbrev pub reset : String → Item → Item
reset at item = record item { status = postponed; updated_at = at }

unfoldable pub expire_stale_claim : Item → String → Tx (Unit {0})
expire_stale_claim item at db =
    insert_event item.quarantine_id "expired" at
      (("recovered", flag true) ∷ ("previous_status", text "review_in_progress") ∷ []) none
      (record db { items = delete_where (is_claim item.quarantine_id) db.items })

unfoldable pub restore_stale_claim : Item → String → Tx (Unit {0})
restore_stale_claim item at db =
    insert_event item.quarantine_id "review_interrupted" at
      (("outcome", text "postponed") ∷ ("recovered", flag true) ∷ []) none
      (record db { items = update_where (is_claim item.quarantine_id) (reset at) db.items })

abbrev pub claim_is_stale : (String → Option ℕ) → Item → String → Option ℕ → Bool
claim_is_stale parse_iso item at none = false
claim_is_stale parse_iso item at (some seconds) =
    if status_eq item.status review_in_progress
    then stale parse_iso item.updated_at at seconds
    else false

-- _recover_stale_for_action: the item as it then stands, and whether it expired
unfoldable pub recover_stale_for_action :
    (String → Option ℕ) → Item → String → Option ℕ → Tx (Item × Bool)
recover_stale_for_action parse_iso item at stale_seconds =
    if not (claim_is_stale parse_iso item at stale_seconds)
    then pure (item, false)
    else if is_expired item at
    then (do expire_stale_claim item at; pure (item, true))
    else do restore_stale_claim item at; pure (reset at item, false)

abbrev pub or_raise : {A : Type 0} → Option A → Error → Tx A
or_raise none e = raise e
or_raise (some a) e = pure a

-- the transaction of `_mutate_review`; `none` means that the claim had expired
unfoldable pub mutate_transaction :
    {T : Type 0}
    → (String → Option ℕ)
    → String
    → String
    → Option ℕ
    → (Item → Tx T)
    → Option String
    → Option String
    → Tx (Option T)
mutate_transaction parse_iso id at stale_seconds mutation expected_sha256 expected_updated_at = do
  found ← select_item id
  item ← or_raise found not_found
  check (assert_snapshot item expected_sha256 expected_updated_at)
  recovered ← recover_stale_for_action parse_iso item at stale_seconds
  if recovered.1 then pure none else do
    check (assert_reviewable recovered.0 at)
    result ← mutation recovered.0
    pure (some result)

-- `if expired: raise`, after the commit
abbrev pub report : {T : Type 0} → Result (Option T) × Db → Result T × Db
report (ok (some result), db) = (ok result, db)
report (ok none, db) = (err item_expired, db)
report (err e, db) = (err e, db)

-- _mutate_review
unfoldable pub mutate_review :
    {T : Type 0}
    → (String → Option ℕ)
    → String
    → String
    → Option ℕ
    → (Item → Tx T)
    → Option String
    → Option String
    → Exec T
mutate_review parse_iso id at stale_seconds mutation expected_sha256 expected_updated_at db =
    report (
      transaction
        (mutate_transaction parse_iso id at stale_seconds mutation expected_sha256
          expected_updated_at)
        db)

-- _require_review_state and its three instances
unfoldable pub require_review_state : String → String → Status → Option String → Tx Item
require_review_state id at status expected_sha256 = do
  found ← select_item id
  item ← or_raise found review_changed
  check
      (raise_if (not (status_eq item.status status) || not (item.updated_at == at)) review_changed)
  check (raise_if (differs expected_sha256 item.sha256) review_changed)
  pure item

abbrev pub require_in_progress : String → String → Option String → Tx Item
require_in_progress id at = require_review_state id at review_in_progress

abbrev pub require_side_effect_started : String → String → Option String → Tx Item
require_side_effect_started id at = require_review_state id at review_side_effect_started

abbrev pub require_side_effect_completed : String → String → Option String → Tx Item
require_side_effect_completed id at = require_review_state id at review_side_effect_completed

unfoldable pub require_reviewable : String → String → Tx Item
require_reviewable id at = do
  found ← select_item id
  item ← or_raise found not_found
  check (assert_reviewable item at)
  pure item
