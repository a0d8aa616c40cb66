-- ===== src/Admission/Writes.antt =====
-- The writes of `store` (memory_router/repository.py): `insert_item`, `_refresh`, `_reopen_expired` and
-- `_reopen_reviewed_memory`. A repeated primary key raises the database's error.
use hindsight_memory_router.Quarantine.{
  Status, reviewed_allowed, status_eq, flag, reviewable, number, has_id, pure, insert_event,
  security_event, text, expired, update_item, recalled_memory, ◌>>◌, Detail, recall_request,
  pending, Tx, retain_request, Kind, Item,
}
use hindsight_memory_router.Common.{
  opt_eq, runtime_error, err, not, ◌++◌, [], ◌&&◌, ◌∷◌, ◌==◌, is_some, ◌+◌, if◌then◌else◌, none,
  false, true, List, Option, ℕ, some, Bool, String,
}
use hindsight_memory_router.Common.Table.{find_where}
use Prim.Native.String.{len}

-- how `store` looks for the existing row: the argument `mode`
pub data Mode : Type 0 where
  by_memory by_request by_id : Mode

abbrev pub by_request_mode : Mode → Bool
by_request_mode by_request = true
by_request_mode _ = false

abbrev pub by_memory_mode : Mode → Bool
by_memory_mode by_memory = true
by_memory_mode _ = false

abbrev pub status_of : Option Item → (Status → Bool) → Bool
status_of none test = false
status_of (some e) test = test e.status

-- the row that is inserted
abbrev pub with_envelope : String → Item → Item
with_envelope encrypted item = record item {
  envelope = some encrypted;
  encrypted_bytes = len encrypted;
}

abbrev pub kind_text : Kind → String
kind_text retain_request = "retain_request"
kind_text recall_request = "recall_request"
kind_text recalled_memory = "recalled_memory"
kind_text security_event = "security_event"

abbrev pub evidence_details : Item → List (String × Detail)
evidence_details item =
    ("kind", text (kind_text item.kind))
    ∷ ("reason", text item.reason)
    ∷ ("sha256", text item.sha256)
    ∷ []

unfoldable pub insert_item : Item → String → Tx (Unit {0})
insert_item item encrypted db =
    if is_some (find_where (has_id item.quarantine_id) db.items)
    then err (runtime_error "IntegrityError")
    else insert_event item.quarantine_id "quarantined" item.created_at (evidence_details item) none
        (record db { items = with_envelope encrypted item ∷ db.items })

-- the columns that `_refresh` sets
abbrev pub refresh_row : Item → String → Item → Item
refresh_row item encrypted old = record old {
  updated_at = item.updated_at;
  kind = item.kind;
  reason = item.reason;
  writer_id = item.writer_id;
  source = item.source;
  source_bank = item.source_bank;
  source_memory_id = item.source_memory_id;
  source_content_sha256 = item.source_content_sha256;
  dedupe_key = item.dedupe_key;
  sha256 = item.sha256;
  envelope = some encrypted;
  encrypted_bytes = len encrypted;
  requarantine_count = old.requarantine_count + 1;
  bank_id = item.bank_id;
}

unfoldable pub refresh : String → Item → String → ℕ → Tx (Unit {0})
refresh id item encrypted count = do
  update_item id (refresh_row item encrypted)
  if item.reason == "auth_failed"
      then pure tt
      else insert_event id "requarantined" item.updated_at
          (evidence_details item ++ (("requarantine_count", number count) ∷ [])) none

-- the columns that `_reopen_expired` sets
abbrev pub reopen_expired_row : Item → String → Item → Item
reopen_expired_row item encrypted old = record old {
  created_at = item.created_at;
  updated_at = item.updated_at;
  kind = item.kind;
  reason = item.reason;
  writer_id = item.writer_id;
  source = item.source;
  source_bank = item.source_bank;
  source_memory_id = item.source_memory_id;
  source_content_sha256 = item.source_content_sha256;
  dedupe_key = item.dedupe_key;
  sha256 = item.sha256;
  envelope = some encrypted;
  encrypted_bytes = len encrypted;
  status = pending;
  postpone_count = 0;
  requarantine_count = old.requarantine_count + 1;
  expires_at = item.expires_at;
  bank_id = item.bank_id;
}

unfoldable pub reopen_expired : String → Item → String → Tx (Unit {0})
reopen_expired id item encrypted = do
  update_item id (reopen_expired_row item encrypted)
  insert_event id "requarantined" item.updated_at
      (evidence_details item ++ (("expired", flag true) ∷ [])) none

-- the columns that `_reopen_reviewed_memory` sets
abbrev pub reopen_reviewed_row : Item → String → Item → Item
reopen_reviewed_row item encrypted old = record old {
  created_at = item.created_at;
  updated_at = item.updated_at;
  reason = item.reason;
  writer_id = item.writer_id;
  source = item.source;
  source_content_sha256 = item.source_content_sha256;
  sha256 = item.sha256;
  envelope = some encrypted;
  encrypted_bytes = len encrypted;
  status = pending;
  postpone_count = 0;
  requarantine_count = old.requarantine_count + 1;
  expires_at = item.expires_at;
}

unfoldable pub reopen_reviewed_memory : String → Item → String → Bool → Tx (Unit {0})
reopen_reviewed_memory id item encrypted content_changed = do
  update_item id (reopen_reviewed_row item encrypted)
  insert_event id (if content_changed then "content_changed" else "safety_reopened") item.updated_at
      (("kind", text (kind_text item.kind)) ∷ ("sha256", text item.sha256) ∷ []) none

-- the branches at the end of `store` on the existing row
unfoldable pub rewrite : Mode → Item → String → String → Item → Tx (Unit {0})
rewrite mode item encrypted at e =
    if expired e at
    then reopen_expired e.quarantine_id item encrypted
    else if by_request_mode mode && not (reviewable e.status)
    then pure tt
    else if by_memory_mode mode && status_eq e.status reviewed_allowed
    then reopen_reviewed_memory e.quarantine_id item encrypted
        (not (opt_eq e.source_content_sha256 item.source_content_sha256))
    else refresh e.quarantine_id item encrypted (e.requarantine_count + 1)

unfoldable pub write_row : Mode → Item → String → String → Option Item → Tx (Unit {0})
write_row mode item encrypted at none = insert_item item encrypted
write_row mode item encrypted at (some e) = rewrite mode item encrypted at e
