-- ===== src/Review/Claiming/Snapshot.antt =====
-- A claim is of the very content that its caller has seen: the item that it returns has the hash that
-- was expected.
use hindsight_memory_router.Common.{
  arith, ◌≡◌, inl, inr, Bool-cases, Option-cases, Result-cases, eq_iff, ℕ, String, Bool, true,
  false, Option, none, some, ok,
}
use hindsight_memory_router.Common.Table.{find_where}
use hindsight_memory_router.Quarantine.{
  Item, Kind, Db, has_id, select_item, is_expired, insert_event, transaction,
}
use hindsight_memory_router.Review.Guards.{
  assert_snapshot, assert_reviewable, claim_is_stale, recover_stale_for_action, expire_stale_claim,
  restore_stale_claim, mutate_transaction, mutate_review,
}
use hindsight_memory_router.Review.Actions.{claim_item, claim_review}
use hindsight_memory_router.Review.Claiming.{claim_item_done}

assert_snapshot-sha256 :
    (item : Item) (k : String) (updated : Option String)
    → assert_snapshot item (some k) updated ≡ ok tt
    → item.sha256 ≡ k
unfolding assert_snapshot
assert_snapshot-sha256 item k updated h = ground (arith, eq_iff item.sha256 k)

recover_stale_for_action-sha256 :
    (parse_iso : String → Option ℕ) (at : String) (seconds : Option ℕ) (item r : Item) (x : Bool)
    (db db' : Db)
    → recover_stale_for_action parse_iso item at seconds db ≡ ok ((r, x), db')
    → r.sha256 ≡ item.sha256
unfolding recover_stale_for_action expire_stale_claim restore_stale_claim insert_event
recover_stale_for_action-sha256 p at seconds item r x db db' h =
    elim (Bool-cases (claim_is_stale p item at seconds)) [
      | inr fresh ↦ ground arith
      | inl old ↦ elim (Bool-cases (is_expired item at)) [
        | inl late ↦ ground arith
        | inr live ↦ ground arith
      ]
    ]

claim_transaction-sha256 :
    (parse_iso : String → Option ℕ) (id : String) (kind : Kind) (at : String) (seconds : Option ℕ)
    (side : Bool) (k : String) (updated bank : Option String) (db db' : Db) (r : Item)
    → mutate_transaction parse_iso id at seconds
        (claim_item id kind at side bank)
        (some k)
        updated
        db
      ≡ ok (some r, db')
    → r.sha256 ≡ k
unfolding mutate_transaction select_item
claim_transaction-sha256 p id kind at seconds side k updated bank db db' r h =
    elim (Option-cases (find_where (has_id id) db.items)) [
      | inl missing ↦ absurd (ground arith)
      | inr (item, found) ↦ elim (Result-cases (assert_snapshot item (some k) updated)) [
        | inr (x, e) ↦ absurd (ground arith)
        | inl (tt, snap) ↦ elim (Result-cases (recover_stale_for_action p item at seconds db)) [
          | inr (x, e) ↦ absurd (ground arith)
          | inl (((now, true), mid), rec) ↦ absurd (ground arith)
          | inl (((now, false), mid), rec) ↦ elim (Result-cases (assert_reviewable now at)) [
            | inr (x, e) ↦ absurd (ground arith)
            | inl (v, fine) ↦ elim (Result-cases (claim_item id kind at side bank now mid)) [
              | inr (x, e) ↦ absurd (ground arith)
              | inl ((q, last), done) ↦
                  let (same, fits, items) =
                    claim_item_done id kind at side bank now q mid last done in
                  let own =
                    recover_stale_for_action-sha256 p at seconds item now false db mid rec in
                  let seen = assert_snapshot-sha256 item k updated snap in ground arith
            ]
          ]
        ]
      ]
    ]

pub claim_review-sha256 :
    (parse_iso : String → Option ℕ) (id : String) (kind : Kind) (at : String) (seconds : Option ℕ)
    (side : Bool) (k : String) (updated bank : Option String) (db db' : Db) (r : Item)
    → claim_review parse_iso id kind at seconds side (some k) updated bank db ≡ (ok r, db')
    → r.sha256 ≡ k
unfolding claim_review mutate_review transaction
claim_review-sha256 p id kind at seconds side k updated bank db db' r h =
    elim (Result-cases
      (mutate_transaction p id at seconds (claim_item id kind at side bank) (some k) updated db)) [
        | inr (x, e) ↦ absurd (ground arith)
        | inl ((none, d), e) ↦ absurd (ground arith)
        | inl ((some b, d), e) ↦
            claim_transaction-sha256 p id kind at seconds side k updated bank db d r (ground arith)
      ]
