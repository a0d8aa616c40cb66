-- ===== src/Review/Refines/Refusals.antt =====
-- When a review is refused, and that a refusal leaves the tables as they were.
use hindsight_memory_router.Review.Guards.{
  report, already_finalized, assert_snapshot, claim_is_stale, assert_reviewable,
  recover_stale_for_action, mutate_transaction, mutate_review,
}
use hindsight_memory_router.Quarantine.{
  ◌>>=◌, status_of_eq, status_eq, reviewable, has_id, Db, review_in_progress, Tx, Item, select_item,
  transaction,
}
use hindsight_memory_router.Common.{
  ok, refl, none, inr, inl, Result-cases, Bool-cases, some, err, false, ◌≡◌, Error, ◌≢◌, ℕ, Option,
  String,
}
use hindsight_memory_router.Common.Table.{find_where}

fresh_claim :
    (parse_iso : String → Option ℕ) (r : Item) (at : String) (seconds : Option ℕ)
    → r.status ≢ review_in_progress
    → claim_is_stale parse_iso r at seconds ≡ false
fresh_claim p r at none ne = refl
fresh_claim p r at (some n) ne = elim (Bool-cases (status_eq r.status review_in_progress)) [
  | inl same ↦ absurd (ne (status_of_eq r.status review_in_progress same))
  | inr other ↦ rw other
]

recover_fresh :
    (parse_iso : String → Option ℕ) (r : Item) (at : String) (seconds : Option ℕ) (db : Db)
    → claim_is_stale parse_iso r at seconds ≡ false
    → recover_stale_for_action parse_iso r at seconds db ≡ ok ((r, false), db)
unfolding recover_stale_for_action
recover_fresh p r at seconds db fresh = rw fresh

assert_not_reviewable :
    (r : Item) (at : String)
    → reviewable r.status ≡ false
    → assert_reviewable r at ≡ err already_finalized
unfolding assert_reviewable
assert_not_reviewable r at h = rw h

refuse :
    {T : Type 0} (parse_iso : String → Option ℕ) (id at : String) (seconds : Option ℕ)
    (mutation : Item → Tx T) (sha updated : Option String) (db : Db) (r : Item)
    → find_where (has_id id) db.items ≡ some r
    → reviewable r.status ≡ false
    → claim_is_stale parse_iso r at seconds ≡ false
    → (e : Error) × (mutate_transaction parse_iso id at seconds mutation sha updated db ≡ err e)
unfolding mutate_transaction select_item
refuse p id at seconds mutation sha updated db r found no_review fresh =
    elim (Result-cases (assert_snapshot r sha updated)) [
      | inr (x, e) ↦ (x, rw (found, ◌>>=◌) (rw (e, ◌>>=◌)))
      | inl (v, e) ↦ (
        already_finalized,
        rw (found, ◌>>=◌)
            (rw (e, ◌>>=◌)
              (rw (recover_fresh p r at seconds db fresh, ◌>>=◌)
                (rw (assert_not_reviewable r at no_review)))),
      )
    ]

-- A review of a row that is not reviewable (in review, with a side effect started or completed, or
-- final) and is no stale claim raises and changes nothing, whatever mutation it would run.
pub mutate_review_refuses :
    {T : Type 0} (parse_iso : String → Option ℕ) (id at : String) (seconds : Option ℕ)
    (mutation : Item → Tx T) (sha updated : Option String) (db : Db) (r : Item)
    → find_where (has_id id) db.items ≡ some r
    → reviewable r.status ≡ false
    → claim_is_stale parse_iso r at seconds ≡ false
    → (e : Error) × (mutate_review parse_iso id at seconds mutation sha updated db ≡ (err e, db))
unfolding mutate_review transaction
mutate_review_refuses p id at seconds mutation sha updated db r found no_review fresh =
    let (e, q) = refuse p id at seconds mutation sha updated db r found no_review fresh in
    (e, rw (q, transaction, report))
