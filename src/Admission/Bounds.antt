-- ===== src/Admission/Bounds.antt =====
-- The capacity limits hold after every write that `store` admits.
use hindsight_memory_router.Common.{
  inl, inr, Result-cases, ==_self, ◌+◌, refl, none, ◌&&◌, ◌-◌, true, arith, ok, ◌≡◌, ◌≤◌, bit, Bool,
  Option, String,
}
use hindsight_memory_router.Admission.Writes.{
  write_row, by_id, by_request, by_memory, reopen_reviewed_row, reopen_expired_row, refresh_row,
  with_envelope,
}
use hindsight_memory_router.Quarantine.{transaction, Db, Item}
use hindsight_memory_router.Admission.{
  is_write_stale, in_review, false, not, status_of, has_id, find_where, reviewable, by_request_mode,
  some, len, Request, List, transaction, Mode, admit, find_existing, store,
}
use hindsight_memory_router.Common.Table.Laws.{count_where-eq-sum_of, find_where_by}
use hindsight_memory_router.Admission.Effects.{write_row_sum, IsBounded, weight}
use hindsight_memory_router.Admission.Capacity.{
  assert_writer_capacity, assert_bank_capacity, assert_security_event_capacity, if_live, bytes_of,
  holds, live_pending, Limits, live_bytes, assert_capacity, assert_totals,
}
use hindsight_memory_router.Common.Table.{sum_of, count_where}
use hindsight_memory_router.Review.Machine.{IsUnique}

pub find_existing-own :
    (mode : Mode) (item e : Item) (items : List Item)
    → IsUnique items
    → find_existing mode item items ≡ some e
    → find_where (has_id e.quarantine_id) items ≡ some e
unfolding find_existing
find_existing-own by_memory item e items u h =
    find_where_by _ (has_id e.quarantine_id) items e h (==_self e.quarantine_id) (u e.quarantine_id)
find_existing-own by_request item e items u h =
    find_where_by _ (has_id e.quarantine_id) items e h (==_self e.quarantine_id) (u e.quarantine_id)
find_existing-own by_id item e items u h =
    find_where_by _ (has_id e.quarantine_id) items e h (==_self e.quarantine_id) (u e.quarantine_id)

-- a store that succeeds has passed the checks and made its write
pub store_done :
    (fingerprint : Item → String) (limits : Limits) (request : Request) (db db' : Db)
    → store fingerprint limits request db ≡ (ok tt, db')
    → (admit fingerprint limits request (find_existing request.mode request.item db.items) db.items
        ≡ ok tt)
      × (write_row request.mode request.item request.encrypted request.at
            (find_existing request.mode request.item db.items)
            db
          ≡ ok (tt, db'))
unfolding store transaction
store_done fp limits request db db' h =
    elim (Result-cases
      (admit fp limits request (find_existing request.mode request.item db.items) db.items)) [
        | inr (x, e) ↦ absurd (ground arith)
        | inl (v, e) ↦
            elim (Result-cases (
              write_row request.mode request.item request.encrypted request.at
                (find_existing request.mode request.item db.items) db)) [
                  | inr (x, q) ↦ absurd (ground arith)
                  | inl ((v', d), q) ↦ (ground arith, ground arith)
                ]
      ]

-- what the checks establish
pub admit_passed :
    (fingerprint : Item → String) (limits : Limits) (request : Request) (existing : Option Item)
    (items : List Item)
    → request.require_reviewable ≡ true
    → admit fingerprint limits request existing items ≡ ok tt
    → ((by_request_mode request.mode && status_of existing (λ s. not (reviewable s))) ≡ false)
      × (status_of existing in_review ≡ false)
      × (is_write_stale fingerprint request existing ≡ false)
      × (assert_capacity request.item request.encrypted existing limits request.at items ≡ ok tt)
unfolding admit
admit_passed fp limits request existing items req h =
    (ground arith, ground arith, ground arith, ground arith)

pub assert_capacity_passed :
    (item : Item) (encrypted : String) (existing : Option Item) (limits : Limits) (at : String)
    (items : List Item)
    → assert_capacity item encrypted existing limits at items ≡ ok tt
    → (assert_security_event_capacity item existing items ≡ ok tt)
      × (assert_totals encrypted (if_live at existing) limits at items ≡ ok tt)
      × (assert_bank_capacity item (if_live at existing) limits at items ≡ ok tt)
      × (assert_writer_capacity item (if_live at existing) limits at items ≡ ok tt)
unfolding assert_capacity
assert_capacity_passed item encrypted existing limits at items h =
    (ground arith, ground arith, ground arith, ground arith)

live_weight :
    (at : String) (existing : Option Item)
    → weight (λ i. bit (live_pending at i)) existing
      ≡ bit (holds (if_live at existing) (λ e. reviewable e.status))
live_weight at none = refl
live_weight at (some e) = ground arith

bytes_weight :
    (at : String) (existing : Option Item)
    → weight (live_bytes at) existing ≡ bytes_of (if_live at existing)
bytes_weight at none = refl
bytes_weight at (some e) = ground arith

bit-le_one : (b : Bool) → bit b ≤ 1
bit-le_one b = ground arith

pending-IsBounded :
    (at : String) (item : Item) (encrypted : String)
    → IsBounded (λ i. bit (live_pending at i)) item encrypted 1
pending-IsBounded at item encrypted = record {
  inserted = bit-le_one _;
  refreshed = λ e. bit-le_one _;
  reopened = λ e. bit-le_one _;
  reviewed = λ e. bit-le_one _;
}

live_bytes-le : (at : String) (i : Item) → live_bytes at i ≤ i.encrypted_bytes
live_bytes-le at i = ground arith

bytes-IsBounded :
    (at : String) (item : Item) (encrypted : String)
    → IsBounded (live_bytes at) item encrypted (len encrypted)
bytes-IsBounded at item encrypted = record {
  inserted = live_bytes-le at (with_envelope encrypted item);
  refreshed = λ e. live_bytes-le at (refresh_row item encrypted e);
  reopened = λ e. live_bytes-le at (reopen_expired_row item encrypted e);
  reviewed = λ e. live_bytes-le at (reopen_reviewed_row item encrypted e);
}

-- what `_assert_capacity` checks of the totals, as numbers
assert_totals_numbers :
    (encrypted : String) (live : Option Item) (limits : Limits) (at : String) (items : List Item)
    → assert_totals encrypted live limits at items ≡ ok tt
    → (count_where (live_pending at) items - bit (holds live (λ e. reviewable e.status)) + 1
        ≤ limits.max_pending_items)
      × (sum_of (live_bytes at) items - bytes_of live + len encrypted ≤ limits.max_encrypted_bytes)
unfolding assert_totals
assert_totals_numbers encrypted live limits at items h = (ground arith, ground arith)

-- After a store that succeeds, at the time of the store, no more than `max_pending_items` rows are
-- reviewable and not expired, and the rows that are not expired hold at most `max_encrypted_bytes`.
-- This wants unique ids and `require_reviewable_request`, which `QuarantineStore.put` always sets.
pub store_capacity :
    (fingerprint : Item → String) (limits : Limits) (request : Request) (db db' : Db)
    → IsUnique db.items
    → request.require_reviewable ≡ true
    → store fingerprint limits request db ≡ (ok tt, db')
    → (count_where (live_pending request.at) db'.items ≤ limits.max_pending_items)
      × (sum_of (live_bytes request.at) db'.items ≤ limits.max_encrypted_bytes)
store_capacity fp limits request db db' u req h =
    let existing = find_existing request.mode request.item db.items in
    let (admitted, written) = store_done fp limits request db db' h in
    let (open_, free, fresh, capacity) =
      admit_passed fp limits request existing db.items req admitted in
    let (events, totals, bank, writer) =
      assert_capacity_passed request.item request.encrypted existing limits request.at db.items
        capacity in
    let (pending_ok, bytes_ok) =
      assert_totals_numbers request.encrypted (if_live request.at existing) limits request.at
        db.items totals in
    let own = λ (e : Item) (q : existing ≡ some e).
      find_existing-own request.mode request.item e db.items u q in
    let counts =
      write_row_sum (λ i. bit (live_pending request.at i)) 1 request.mode request.item
        request.encrypted request.at existing db db'
        (pending-IsBounded request.at request.item request.encrypted) u own open_ written in
    let bytes =
      write_row_sum (live_bytes request.at) (len request.encrypted) request.mode request.item
        request.encrypted request.at existing db db'
        (bytes-IsBounded request.at request.item request.encrypted) u own open_ written in
    (
      omega (
        arith,
        counts,
        pending_ok,
        live_weight request.at existing,
        count_where-eq-sum_of (live_pending request.at) db.items,
        count_where-eq-sum_of (live_pending request.at) db'.items,
      ),
      omega (arith, bytes, bytes_ok, bytes_weight request.at existing),
    )
