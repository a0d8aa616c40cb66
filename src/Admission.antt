-- ===== src/Admission.antt =====
-- Admission to the quarantine: `QuarantineRepository.store` with its capacity checks
-- (memory_router/repository.py). The incoming item's envelope is the text that `json.dumps` makes of it.
-- The fingerprint of a row, the comparison of evidence and the callback `before_store` are arguments:
-- a hash, a hash comparison, and a charge of the rate limiter that may raise. Limits below 0 read as 0.
pub mod Capacity
pub mod Writes
pub mod Effects
pub mod Bounds
mod Tests
use hindsight_memory_router.Admission.Writes.{status_of, by_request_mode, Mode}
use hindsight_memory_router.Quarantine.{
  in_review, reviewable, ◌>>◌, has_id, kind_eq, check, transaction, Exec, Status, Item,
}
use Writes.{by_id, by_request, by_memory}
use hindsight_memory_router.Common.{
  ◌||◌, opt_eq, not, none, raise_if, ◌&&◌, and_then, some, ◌==◌, Result, false, List, http_error,
  Bool, Option, Error, String,
}
use hindsight_memory_router.Admission.Capacity.{sql_eq}
use hindsight_memory_router.Common.Table.{find_where}
use Prim.Native.String.{len}
use hindsight_memory_router.Admission.Capacity
use hindsight_memory_router.Admission.Writes

pub record Request : Type 0 where
  pub item : Item
  pub encrypted : String
  pub mode : Mode
  pub at : String
  pub require_reviewable : Bool
  pub expected_snapshot : Option (Option String)
  pub evidence : Option (String → Item → Bool)
  pub before_store : Option Item → Result (Unit {0})

-- _find_existing
unfoldable pub find_existing : Mode → Item → List Item → Option Item
find_existing by_memory item items =
    find_where
      (λ i.
        sql_eq i.source_bank item.source_bank && sql_eq i.source_memory_id item.source_memory_id)
      items
find_existing by_request item items = find_where (λ i. sql_eq i.dedupe_key item.dedupe_key) items
find_existing by_id item items = find_where (has_id item.quarantine_id) items

-- _same_evidence
unfoldable pub same_evidence : Item → Item → Option (String → Item → Bool) → Bool
same_evidence item existing evidence =
    item.quarantine_id == existing.quarantine_id
    && kind_eq item.kind existing.kind
    && item.reason == existing.reason
    && opt_eq item.writer_id existing.writer_id
    && opt_eq item.source existing.source
    && opt_eq item.source_bank existing.source_bank
    && opt_eq item.source_memory_id existing.source_memory_id
    && opt_eq item.source_content_sha256 existing.source_content_sha256
    && opt_eq item.dedupe_key existing.dedupe_key
    && opt_eq item.bank_id existing.bank_id
    && (item.sha256 == existing.sha256
        || elim evidence [ none ↦ false | some matches ↦ matches item.sha256 existing ])

-- the snapshot that the caller took differs from the row as it now stands, and not only in form
unfoldable pub is_write_stale : (Item → String) → Request → Option Item → Bool
is_write_stale fingerprint request none = false
is_write_stale fingerprint request (some e) = elim request.expected_snapshot [
  | none ↦ false
  | some snapshot ↦
      not (opt_eq snapshot (some (fingerprint e)))
      && not (same_evidence request.item e request.evidence)
]

abbrev pub request_in_review : Error
request_in_review = http_error 409 "quarantine_request_in_review"

abbrev pub item_in_review : Error
item_in_review = http_error 409 "quarantine_item_in_review"

abbrev pub write_stale : Error
write_stale = http_error 409 "quarantine_write_stale"

-- the checks at the head of `store`, in the order of the source
unfoldable pub admit :
    (Item → String) → Capacity.Limits → Request → Option Item → List Item → Result (Unit {0})
admit fingerprint limits request existing items =
    and_then
      (raise_if
        (request.require_reviewable
          && by_request_mode request.mode
          && status_of existing (λ s. not (reviewable s)))
        request_in_review)
      λ _. and_then (raise_if (status_of existing in_review) item_in_review) λ _.
        and_then (raise_if (is_write_stale fingerprint request existing) write_stale) λ _.
          and_then
            (Capacity.assert_capacity request.item request.encrypted existing limits request.at
              items)
            λ _. request.before_store existing

-- repository.store
unfoldable pub store : (Item → String) → Capacity.Limits → Request → Exec (Unit {0})
store fingerprint limits request = transaction λ db.
    let existing = find_existing request.mode request.item db.items in
    (check (admit fingerprint limits request existing db.items)
        >> Writes.write_row request.mode request.item request.encrypted request.at existing)
      db
