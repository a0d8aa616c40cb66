-- ===== src/Administration/Laws.antt =====
-- The write of an approved retain request, once the item is claimed for it (memory_router/admin.py).
use hindsight_memory_router.Review.Claiming.Ends.{
  claimed-former, complete_passes, finish_passes, interrupt_passes,
}
use hindsight_memory_router.Review.Refines.Successes.{after_recovery}
use hindsight_memory_router.Review.Guards.{already_finalized}
use hindsight_memory_router.Administration.{
  AdminActor, require_item, require_status, require_claim_candidate, Stage, Service, exec, now,
  side_effect, side_effect_definitely_failed, error_kind,
}
use hindsight_memory_router.Administration.Decisions.{postpone_review, reject}
use hindsight_memory_router.Review.Machine.Laws.{find-after_write}
use hindsight_memory_router.Common.{
  [], ◌∷◌, arith, ◌≡◌, refl, sym, ◌∙◌, String, true, false, some, none, List, Error, ok, err,
}
use hindsight_memory_router.Administration.Approval.{approve, execute_retain_approval}
use hindsight_memory_router.Json.{Json, Fields}
use hindsight_memory_router.Envelope.{is_quarantine_id}
use mathlib.Core.Path.{subst}
use hindsight_memory_router.Common.Table.{find_where, update_where}
use hindsight_memory_router.Quarantine.{
  Item, Db, Detail, transaction, select_item, has_id, in_review, retain_request,
  review_side_effect_started, review_side_effect_completed, event_of,
}
use hindsight_memory_router.Review.Machine.{IsUnique, after_write}
use hindsight_memory_router.Review.Actions.{
  claim_review, claim_row, with_status, interrupted_details,
}
use hindsight_memory_router.Review.Claiming.{claim_review-IsClaimed}
use hindsight_memory_router.Review.Claiming.Snapshot.{claim_review-sha256}

-- what other requests do leaves a row alone that is in review
abbrev pub LeavesAlone : {W : Type 0} → Service W → String → Type 0
LeavesAlone {W} service id =
    (s : Stage W) (row : Item)
    → in_review row.status ≡ true
    → find_where (has_id id) s.db.items ≡ some row
    → find_where (has_id id) (service.wait s).db.items ≡ some row

-- the row that a claim for a side effect has left
abbrev pub started_row : String → String → Item → Item
started_row at bank r = claim_row review_side_effect_started at (some bank) r

-- an item whose side effect has started is no candidate for a claim
require_claim_candidate_refuses :
    {W : Type 0} (service : Service W) (id : String) (s : Stage W) (row : Item)
    → is_quarantine_id id ≡ true
    → find_where (has_id id) (service.wait s).db.items ≡ some row
    → row.status ≡ review_side_effect_started
    → require_claim_candidate service id s ≡ (err already_finalized, service.wait s)
unfolding require_claim_candidate require_status require_item exec transaction select_item
require_claim_candidate_refuses service id s row valid found st = ground arith

module _ {W : Type 0} (service : Service W) (id writer_id bank : String) (body : Json)
    (details : List (String × Detail)) (item r : Item) (at : String) (s s1 s2 s3 : Stage W)
    (db : Db) (alone : LeavesAlone service id)
    (consumed : service.consume_retain writer_id s ≡ (ok tt, s1))
    (clock : now service s1 ≡ (ok at, s2)) (u : IsUnique (service.wait s2).db.items)
    (claim : claim_review service.parse_iso id retain_request at
        (some service.review_stale_seconds)
        true
        (some item.sha256)
        (some item.updated_at)
        (some bank)
        (service.wait s2).db
      ≡ (ok r, db)) where
  -- Once the item is claimed, an approval whose write is accepted goes through: it returns, and the
  -- row is gone. The ids are unique, and the other requests and the write leave a row in review alone.
  pub execute_retain_approval_completes :
      (value : Json)
      → service.retain bank body (record (service.wait s2) { db = db }) ≡ (ok value, s3)
      → find_where (has_id id) s3.db.items ≡ find_where (has_id id) db.items
      → (s' : Stage W) × (execute_retain_approval service id item writer_id bank body details s
          ≡ (ok tt, s'))
        × (find_where (has_id id) s'.db.items ≡ none)
  unfolding execute_retain_approval exec side_effect
  execute_retain_approval_completes value written kept =
      let c =
        claim_review-IsClaimed service.parse_iso id retain_request at
          (some service.review_stale_seconds) true (some item.sha256) (some item.updated_at)
          (some bank) (service.wait s2).db db r u claim in
      let sha : r.sha256 ≡ item.sha256 =
        claim_review-sha256 service.parse_iso id retain_request at
          (some service.review_stale_seconds) true item.sha256 (some item.updated_at) (some bank)
          (service.wait s2).db db r claim in
      let found = alone s3 (started_row at bank r) refl (kept ∙ c.row) in
      let (db1, completed, found1) =
        complete_passes id at item.sha256 (service.wait s3).db (started_row at bank r) found refl
          refl sha in
      let s4 : Stage W = record (service.wait s3) { db = db1 } in
      let found2 =
        alone s4 (with_status review_side_effect_completed at (started_row at bank r)) refl
          found1 in
      let (db2, finished, gone) =
        finish_passes id at item.sha256 details (service.wait s4).db
          (with_status review_side_effect_completed at (started_row at bank r)) found2 refl refl
          sha in
      (record (service.wait s4) { db = db2 }, ground arith, gone)

  -- If the item, whose row before is `old`, is claimed and the write fails for certain, the approval
  -- raises the error of the write and puts the status of `old` back on the claimed row, so that it can
  -- be reviewed again; the content stays. If `old` was itself a stale claim, which claiming recovers
  -- first, the status put back is postponed. The ids are unique, and the other requests and the write
  -- leave a row in review alone.
  pub execute_retain_approval_restores :
      (e : Error) (old : Item)
      → find_where (has_id id) (service.wait s2).db.items ≡ some old
      → service.retain bank body (record (service.wait s2) { db = db }) ≡ (err e, s3)
      → side_effect_definitely_failed e ≡ true
      → find_where (has_id id) s3.db.items ≡ find_where (has_id id) db.items
      → let former = after_recovery service.parse_iso at (some service.review_stale_seconds) old in
        (s' : Stage W) × (execute_retain_approval service id item writer_id bank body details s
          ≡ (err e, s'))
        × (find_where (has_id id) s'.db.items
            ≡ some (with_status former.status at (started_row at bank former)))
  unfolding execute_retain_approval exec side_effect
  execute_retain_approval_restores e old first failed certain kept =
      let c =
        claim_review-IsClaimed service.parse_iso id retain_request at
          (some service.review_stale_seconds) true (some item.sha256) (some item.updated_at)
          (some bank) (service.wait s2).db db r u claim in
      let found = alone s3 (started_row at bank r) refl (kept ∙ c.row) in
      let interrupted =
        interrupt_passes r at (error_kind e) true (some bank) (service.wait s3).db
          (subst
            (λ k. find_where (has_id k) (service.wait s3).db.items ≡ some (started_row at bank r))
            (sym c.own) found)
          c.open_ in
      let db' : Db =
        after_write r.quarantine_id (with_status r.status at)
          (event_of r.quarantine_id "review_interrupted" at
              (interrupted_details r.status (error_kind e)) none
            ∷ [])
          (service.wait s3).db in
      (
        record (service.wait s3) { db = db' },
        ground arith,
        subst
            (λ x.
              find_where (has_id id) db'.items
              ≡ some (with_status x.status at (started_row at bank x)))
            (claimed-former service.parse_iso id at retain_request
              (some service.review_stale_seconds) true (some bank) r old (service.wait s2).db db c
              first)
            (subst
              (λ k.
                find_where (has_id id)
                  (update_where (has_id k) (with_status r.status at) (service.wait s3).db.items)
                ≡ some (with_status r.status at (started_row at bank r)))
              (sym c.own)
              (find-after_write id (with_status r.status at) (service.wait s3).db.items
                (started_row at bank r) (λ i. refl) found)),
      )

  -- If the item is claimed and it is unknown whether the write was done, the approval raises the error
  -- and changes nothing more. Then the next request to approve, reject or postpone the item, whose id
  -- is well formed, does not get past its first check: it raises that the item is not pending and
  -- leaves the tables as it finds them. The ids are unique, and the other requests and the write leave
  -- a row in review alone.
  pub execute_retain_approval_uncertain :
      (e : Error) (again : Fields) (actor : AdminActor)
      → is_quarantine_id id ≡ true
      → service.retain bank body (record (service.wait s2) { db = db }) ≡ (err e, s3)
      → side_effect_definitely_failed e ≡ false
      → find_where (has_id id) s3.db.items ≡ find_where (has_id id) db.items
      → (execute_retain_approval service id item writer_id bank body details s ≡ (err e, s3))
        × (approve service id again actor s3 ≡ (err already_finalized, service.wait s3))
        × (reject service id actor s3 ≡ (err already_finalized, service.wait s3))
        × (postpone_review service id actor s3 ≡ (err already_finalized, service.wait s3))
  unfolding execute_retain_approval exec side_effect approve reject postpone_review
  execute_retain_approval_uncertain e again actor valid failed unknown kept =
      let c =
        claim_review-IsClaimed service.parse_iso id retain_request at
          (some service.review_stale_seconds) true (some item.sha256) (some item.updated_at)
          (some bank) (service.wait s2).db db r u claim in
      let refused =
        require_claim_candidate_refuses service id s3 (started_row at bank r) valid
          (alone s3 (started_row at bank r) refl (kept ∙ c.row)) refl in
      (ground arith, ground arith, ground arith, ground arith)
