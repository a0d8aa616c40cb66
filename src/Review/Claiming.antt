-- ===== src/Review/Claiming.antt =====
-- A claim: what it does, whom it keeps out, and how it ends (memory_router/review_repository.py, as
-- memory_router/admin.py calls it).
pub mod Ends
pub mod Snapshot
use hindsight_memory_router.Common.{
  ◌∙◌, ◌==◌, inl, ap, arith, false, inr, Bool-cases, true, some, ok, ◌≡◌, ℕ, Option, Bool, String,
}
use hindsight_memory_router.Review.Refines.Successes.{after_recovery, mutate_review_acted}
use hindsight_memory_router.Common.Table.Laws.{count_where-update_where}
use hindsight_memory_router.Quarantine.{
  is_expired, reviewable, kind_eq, has_id, Db, Item, insert_event, update_item, Kind,
}
use hindsight_memory_router.Review.Refines.Lookups.{quarantine_id-find}
use hindsight_memory_router.Review.Refines.Claims.{claim_row-id}
use hindsight_memory_router.Common.Table.{update_where, find_where}
use hindsight_memory_router.Review.Actions.{claim_status, claim_row, claim_item, claim_review}
use hindsight_memory_router.Review.Machine.Laws.{find-after_write}
use hindsight_memory_router.Review.Machine.{IsUnique}

pub record IsClaimed (parse_iso : String → Option ℕ) (id at : String) (kind : Kind)
    (seconds : Option ℕ) (side : Bool) (bank : Option String) (r : Item) (start db : Db)
    : Type 0 where
  pub old : Item
  pub old_found : find_where (has_id id) start.items ≡ some old
  pub former : r ≡ after_recovery parse_iso at seconds old
  pub row : find_where (has_id id) db.items ≡ some (claim_row (claim_status side) at bank r)
  pub open_ : reviewable r.status ≡ true
  pub live : is_expired r at ≡ false
  pub kind_fits : kind_eq r.kind kind ≡ true
  pub own : r.quarantine_id ≡ id
  pub unique : IsUnique db.items

pub claim_item_done :
    (id : String) (kind : Kind) (at : String) (side : Bool) (bank : Option String) (item r : Item)
    (db db' : Db)
    → claim_item id kind at side bank item db ≡ ok (r, db')
    → (r ≡ item)
      × (kind_eq item.kind kind ≡ true)
      × (db'.items ≡ update_where (has_id id) (claim_row (claim_status side) at bank) db.items)
unfolding claim_item update_item insert_event
claim_item_done id kind at side bank item r db db' h = elim (Bool-cases (kind_eq item.kind kind)) [
  | inr bad ↦ absurd (ground arith)
  | inl fits ↦ elim (Bool-cases side) [
    | inl t ↦ (ground arith, fits, ground arith)
    | inr f ↦ (ground arith, fits, ground arith)
  ]
]

-- A claim that succeeds has moved the row of a live, reviewable item of the wanted kind to the
-- claimed status, with the claim's time, and returns the item as it was before, after the recovery
-- of a stale claim.
pub claim_review-IsClaimed :
    (parse_iso : String → Option ℕ) (id : String) (kind : Kind) (at : String) (seconds : Option ℕ)
    (side : Bool) (sha updated bank : Option String) (db db' : Db) (r : Item)
    → IsUnique db.items
    → claim_review parse_iso id kind at seconds side sha updated bank db ≡ (ok r, db')
    → IsClaimed parse_iso id at kind seconds side bank r db db'
unfolding claim_review
claim_review-IsClaimed p id kind at seconds side sha updated bank db db' r u h =
    let acted =
      mutate_review_acted p id at seconds (claim_item id kind at side bank) sha updated db db' r u
        h in
    let (same, fits, items) =
      claim_item_done id kind at side bank acted.item r acted.before db' acted.done in
    record {
      old = acted.old;
      old_found = acted.old_found;
      former = same ∙ acted.item_is;
      row =
          rw (items, same)
            (find-after_write id (claim_row (claim_status side) at bank) acted.before.items
              acted.item (claim_row-id (claim_status side) at bank) acted.found);
      open_ = rw same acted.open_;
      live = rw same acted.live;
      kind_fits = rw same fits;
      own = rw same (quarantine_id-find id acted.before.items acted.item acted.found);
      unique = λ j.
          rw
            (
              items,
              count_where-update_where (has_id j) (has_id id)
                  (claim_row (claim_status side) at bank) acted.before.items
                  (λ i. ap (λ q. q == j) (claim_row-id (claim_status side) at bank i)),
            )
            (acted.unique j);
    }
