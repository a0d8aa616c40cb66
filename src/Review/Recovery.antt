-- ===== src/Review/Recovery.antt =====
-- Recovery of side effects and of interrupted claims (memory_router/review_repository.py).
use hindsight_memory_router.Common.{
  ℕ, String, not, Option, some, List, [], ◌∷◌, raise_if, if◌then◌else◌,
}
use hindsight_memory_router.Common.Table.{select_where}
use hindsight_memory_router.Quarantine.{
  postponed, review_in_progress, review_side_effect_started, review_side_effect_completed,
  status_eq, Item, text, Tx, Exec, ◌>>=◌, ◌>>◌, pure, check, transaction, select_item, update_item,
  insert_event, is_expired, Detail,
}
use hindsight_memory_router.Review.Guards.{
  invalid_action, stale, assert_snapshot, expire_stale_claim, restore_stale_claim, or_raise,
  not_found,
}
use hindsight_memory_router.Review.Actions.{with_status}

-- _require_side_effect_started, by a snapshot of the whole item
unfoldable pub require_started_snapshot : String → String → String → Tx Item
require_started_snapshot id expected_sha256 expected_updated_at = do
  found ← select_item id
  item ← or_raise found not_found
  check (raise_if (not (status_eq item.status review_side_effect_started)) invalid_action)
  check (assert_snapshot item (some expected_sha256) (some expected_updated_at))
  pure item

abbrev pub reconciled : String → List (String × Detail)
reconciled action =
    ("action", text action) ∷ ("previous_status", text "review_side_effect_started") ∷ []

unfoldable pub confirm_side_effect_applied :
    String → String → String → String → Option String → Exec (Unit {0})
confirm_side_effect_applied id at expected_sha256 expected_updated_at actor = transaction do
  item ← require_started_snapshot id expected_sha256 expected_updated_at
  update_item id (with_status review_side_effect_completed at)
  insert_event id "review_reconciled" at (reconciled "confirmed_applied") actor

unfoldable pub confirm_side_effect_not_applied :
    String → String → String → String → Option String → Exec (Unit {0})
confirm_side_effect_not_applied id at expected_sha256 expected_updated_at actor = transaction do
  item ← require_started_snapshot id expected_sha256 expected_updated_at
  update_item id (with_status postponed at)
  insert_event id "review_reconciled" at (reconciled "confirmed_not_applied") actor

-- one row of the loop in `recover_interrupted`
unfoldable pub recover_row : (String → Option ℕ) → String → ℕ → Item → Tx (Unit {0})
recover_row parse_iso at stale_seconds row =
    if not (stale parse_iso row.updated_at at stale_seconds)
    then pure tt
    else if is_expired row at
    then expire_stale_claim row at
    else restore_stale_claim row at

unfoldable pub recover_rows : (String → Option ℕ) → String → ℕ → List Item → Tx (Unit {0})
recover_rows parse_iso at stale_seconds [] = pure tt
recover_rows parse_iso at stale_seconds (row ∷ rows) = do
  recover_row parse_iso at stale_seconds row
  recover_rows parse_iso at stale_seconds rows

unfoldable pub recover_interrupted : (String → Option ℕ) → String → ℕ → Exec (Unit {0})
recover_interrupted parse_iso at stale_seconds = transaction λ db.
    recover_rows parse_iso at stale_seconds
      (select_where (λ i. status_eq i.status review_in_progress) db.items) db
