-- ===== src/Admission/Tests.antt =====
-- A store on a concrete table, and the theorem at it.
use hindsight_memory_router.Common.{◌≡◌, refl, ok, true, ◌≤◌, arith, []}
use hindsight_memory_router.Quarantine.{transaction, insert_event, retain_request, Item, Db}
use hindsight_memory_router.Common.Table.{find_where, sum_of, count_where}
use hindsight_memory_router.Admission.Capacity.{
  in_scope, assert_writer_capacity, assert_bank_capacity, assert_totals,
  assert_security_event_capacity, assert_capacity, live_bytes, live_pending, Limits,
}
use hindsight_memory_router.Admission.Writes.{insert_item, write_row}
use hindsight_memory_router.Admission.Bounds.{store_capacity}
use hindsight_memory_router.Admission.{
  is_write_stale, admit, Status, none, find_where, some, find_existing, by_request, transaction,
  store, Request,
}
use hindsight_memory_router.Review.Machine.{IsUnique}

abbrev incoming : Item
incoming = record {
  quarantine_id = "q_a";
  created_at = "2026-01-01T00:00:00.000Z";
  updated_at = "2026-01-01T00:00:00.000Z";
  kind = retain_request;
  reason = "suspicious_content";
  writer_id = some "agent";
  source = some "openclaw";
  source_bank = none;
  source_memory_id = none;
  source_content_sha256 = none;
  dedupe_key = some "k";
  bank_id = some "bank";
  sha256 = "aa";
  envelope = none;
  encrypted_bytes = 0;
  status = Status.pending;
  postpone_count = 0;
  requarantine_count = 0;
  expires_at = none;
}

abbrev limits : Limits
limits = record {
  max_pending_items = 1;
  max_pending_items_per_writer = 1;
  max_encrypted_bytes = 10;
  max_pending_items_per_bank = 1;
}

abbrev request : Request
request = record {
  item = incoming;
  encrypted = "{}";
  mode = by_request;
  at = "2026-01-01T00:00:00.000Z";
  require_reviewable = true;
  expected_snapshot = some none;
  evidence = none;
  before_store = λ existing. ok tt;
}

abbrev empty : Db
empty = record { items = []; events = [] }

abbrev stored_db : Db
stored_db = (store (λ i. i.sha256) limits request empty).1

stored : store (λ i. i.sha256) limits request empty ≡ (ok tt, stored_db)
unfolding store transaction find_existing find_where admit is_write_stale assert_capacity
    assert_security_event_capacity assert_totals assert_bank_capacity assert_writer_capacity
    count_where sum_of write_row insert_item insert_event in_scope
stored = refl

empty-IsUnique : IsUnique empty.items
unfolding count_where
empty-IsUnique j = ground arith

store_capacity_example :
    (count_where (live_pending request.at) stored_db.items ≤ 1)
    × (sum_of (live_bytes request.at) stored_db.items ≤ 10)
store_capacity_example =
    store_capacity (λ i. i.sha256) limits request empty stored_db empty-IsUnique refl stored
