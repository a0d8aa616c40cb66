-- ===== src/Review/Actions.antt =====
-- The operations of a review (memory_router/review_repository.py), each one transaction.
use hindsight_memory_router.Common.{
  ℕ, ◌+◌, String, Bool, true, false, not, Option, none, some, List, [], ◌∷◌, ◌==◌, leb, http_error,
  runtime_error, raise_if, if◌then◌else◌,
}
use hindsight_memory_router.Quarantine.{
  Status, postponed, review_in_progress, review_side_effect_started, review_side_effect_completed,
  reviewed_allowed, reviewed_blocked, Kind, recalled_memory, status_eq, kind_eq, reviewable, Item,
  Detail, text, optional, number, Tx, Exec, ◌>>=◌, ◌>>◌, pure, check, transaction, select_item,
  update_item, delete_item, insert_event,
}
use hindsight_memory_router.Review.Guards.{
  invalid_action, assert_snapshot, mutate_review, require_in_progress, require_side_effect_started,
  require_side_effect_completed, require_reviewable,
}

-- the constant's text, as in the database
abbrev pub status_text : Status → String
status_text Status.pending = "pending"
status_text postponed = "postponed"
status_text review_in_progress = "review_in_progress"
status_text review_side_effect_started = "review_side_effect_started"
status_text review_side_effect_completed = "review_side_effect_completed"
status_text reviewed_allowed = "reviewed_allowed"
status_text reviewed_blocked = "reviewed_blocked"

-- status=?, updated_at=?
abbrev pub with_status : Status → String → Item → Item
with_status status at item = record item { status = status; updated_at = at }

abbrev pub at_limit : ℕ → Option ℕ → Bool
at_limit count none = false
at_limit count (some most) = leb most count

abbrev pub postpone_row : String → Item → Item
postpone_row at item = record item {
  status = postponed;
  postpone_count = item.postpone_count + 1;
  updated_at = at;
}

-- `apply` inside `postpone`
unfoldable pub postpone_item : String → String → Option ℕ → Option String → Item → Tx (Option Item)
postpone_item id at max_postpones actor item = do
  check (
      raise_if (at_limit item.postpone_count max_postpones)
        (http_error 409 "postpone_limit_reached"))
  update_item id (postpone_row at)
  insert_event id "postponed" at (("postpone_count", number (item.postpone_count + 1)) ∷ []) actor
  select_item id

unfoldable pub postpone :
    (String → Option ℕ) → String → String → Option ℕ → Option ℕ → Option String → Exec (Option Item)
postpone parse_iso id at stale_seconds max_postpones actor =
    mutate_review parse_iso id at stale_seconds (postpone_item id at max_postpones actor) none none

-- `encrypted_envelope=NULL,encrypted_bytes=0`
abbrev pub clear_row : Status → String → Item → Item
clear_row status at item = record item {
  status = status;
  envelope = none;
  encrypted_bytes = 0;
  updated_at = at;
}

abbrev pub verdict : Status → String
verdict reviewed_allowed = "reviewed_allowed"
verdict _ = "reviewed_blocked"

abbrev pub recall_details : Item → List (String × Detail)
recall_details item =
    ("source_bank", optional item.source_bank)
    ∷ ("source_memory_id", optional item.source_memory_id)
    ∷ ("source_content_sha256", optional item.source_content_sha256)
    ∷ []

unfoldable pub mark_recalled : Item → Status → String → Option String → Tx (Unit {0})
mark_recalled item status at actor = do
  update_item item.quarantine_id (clear_row status at)
  insert_event item.quarantine_id (verdict status) at (recall_details item) actor

unfoldable pub mark_memory_reviewed :
    String → Status → String → Option String → Option String → Exec (Unit {0})
mark_memory_reviewed id status at expected_sha256 expected_updated_at = transaction do
  item ← require_reviewable id at
  check (assert_snapshot item expected_sha256 expected_updated_at)
  check (raise_if (not (kind_eq item.kind recalled_memory)) invalid_action)
  mark_recalled item status at none

abbrev pub claim_status : Bool → Status
claim_status true = review_side_effect_started
claim_status false = review_in_progress

abbrev pub claim_row : Status → String → Option String → Item → Item
claim_row status at none item = with_status status at item
claim_row status at (some bank) item = record item {
  status = status;
  updated_at = at;
  bank_id = some bank;
}

-- `apply` inside `claim_review`; the result is the item before the claim
unfoldable pub claim_item : String → Kind → String → Bool → Option String → Item → Tx Item
claim_item id kind at side_effect target_bank item = do
  check (raise_if (not (kind_eq item.kind kind)) invalid_action)
  update_item id (claim_row (claim_status side_effect) at target_bank)
  if side_effect
      then insert_event id "review_side_effect_started" at
          (("previous_status", text (status_text item.status)) ∷ []) none
      else pure tt
  pure item

unfoldable pub claim_review :
    (String → Option ℕ)
    → String
    → Kind
    → String
    → Option ℕ
    → Bool
    → Option String
    → Option String
    → Option String
    → Exec Item
claim_review parse_iso id kind at stale_seconds side_effect expected_sha256 expected_updated_at
      target_bank =
    mutate_review parse_iso id at stale_seconds (claim_item id kind at side_effect target_bank)
      expected_sha256 expected_updated_at

unfoldable pub complete_side_effect : String → String → Option String → Exec (Unit {0})
complete_side_effect id at expected_sha256 = transaction do
  item ← require_side_effect_started id at expected_sha256
  update_item id (with_status review_side_effect_completed at)
  insert_event id "review_side_effect_completed" at [] none

-- what `interrupt_review` finds; `none` is its early return
abbrev pub interruptible : Option Item → String → Bool
interruptible none at = false
interruptible (some current) at =
    if status_eq current.status review_in_progress
    then current.updated_at == at
    else if status_eq current.status review_side_effect_started
    then current.updated_at == at
    else false

abbrev pub interrupted_details : Status → String → List (String × Detail)
interrupted_details status error_kind =
    ("outcome", text "restored")
    ∷ ("status", text (status_text status))
    ∷ ("error_kind", text error_kind)
    ∷ []

unfoldable pub interrupt_review : Item → String → String → Exec (Unit {0})
interrupt_review claimed at error_kind = transaction do
  current ← select_item claimed.quarantine_id
  if not (interruptible current at) then pure tt else do
    check (raise_if (not (reviewable claimed.status)) (runtime_error "cannot restore review"))
    update_item claimed.quarantine_id (with_status claimed.status at)
    insert_event claimed.quarantine_id "review_interrupted" at
        (interrupted_details claimed.status error_kind) none

unfoldable pub finish_approve_retain :
    String → String → List (String × Detail) → Option String → Exec (Unit {0})
finish_approve_retain id at details expected_sha256 = transaction do
  item ← require_side_effect_completed id at expected_sha256
  delete_item item.quarantine_id
  insert_event id "approved" at details none

unfoldable pub finish_approve_memory :
    String → String → Option String → Option String → Exec (Unit {0})
finish_approve_memory id at expected_sha256 actor = transaction do
  item ← require_in_progress id at expected_sha256
  check (raise_if (not (kind_eq item.kind recalled_memory)) invalid_action)
  mark_recalled item reviewed_allowed at actor

unfoldable pub finish_reject_memory :
    String → String → Option String → Option String → Exec (Unit {0})
finish_reject_memory id at expected_sha256 actor = transaction do
  item ← require_side_effect_completed id at expected_sha256
  mark_recalled item reviewed_blocked at actor

-- `apply` inside `remove`
unfoldable pub remove_item : String → String → String → Option String → Item → Tx (Unit {0})
remove_item id event_type at actor item = do
  delete_item item.quarantine_id
  insert_event id event_type at [] actor

unfoldable pub remove :
    (String → Option ℕ) → String → String → String → Option ℕ → Option String → Exec (Unit {0})
remove parse_iso id event_type at stale_seconds actor =
    mutate_review parse_iso id at stale_seconds (remove_item id event_type at actor) none none
