-- ===== src/Review/Claiming/Ends.antt =====
-- How a claim keeps others out, and the ways in which it ends.
use hindsight_memory_router.Common.{
  ap, ◌∙◌, sym, ◌∷◌, err, [], eq_iff, Error, arith, refl, ok, ==_self, none, ◌⊎◌, true, false, some,
  ◌≡◌, List, ℕ, Option, String, Bool,
}
use hindsight_memory_router.Quarantine.{
  ◌>>=◌, status_eq_self, event_of, retain_request, review_side_effect_started,
  review_side_effect_completed, Detail, has_id, transaction, Kind, insert_event, Db, Item,
  delete_item, select_item, reviewable, update_item, Status,
}
use hindsight_memory_router.Review.Claiming.{
  IsClaimed, after_recovery, find-after_write, claim_review-IsClaimed,
}
use hindsight_memory_router.Common.Table.{update_where, find_where}
use mathlib.Core.Path.{subst}
use hindsight_memory_router.Review.Actions.{
  claim_item, interrupted_details, with_status, interruptible, claim_row, claim_status,
  interrupt_review, complete_side_effect, claim_review, finish_approve_retain,
}
use hindsight_memory_router.Common.Table.Laws.{find_where-delete_self}
use hindsight_memory_router.Review.Refines.Refusals.{mutate_review_refuses}
use hindsight_memory_router.Review.Machine.{after_erase, after_write, IsUnique}
use hindsight_memory_router.Review.Guards.{claim_is_stale, stale, require_review_state}
use hindsight_memory_router.Review.Refines.Claims.{claim_row-status}
use hindsight_memory_router.Review.Refines.Lookups.{quarantine_id-find}

claim_status_closed : (side : Bool) → reviewable (claim_status side) ≡ false
claim_status_closed true = refl
claim_status_closed false = refl

pub claim_row_at :
    (s : Status) (at : String) (bank : Option String) (i : Item)
    → (claim_row s at bank i).updated_at ≡ at
claim_row_at s at none i = refl
claim_row_at s at (some b) i = refl

pub claim_row_sha256 :
    (s : Status) (at : String) (bank : Option String) (i : Item)
    → (claim_row s at bank i).sha256 ≡ i.sha256
claim_row_sha256 s at none i = refl
claim_row_sha256 s at (some b) i = refl

-- a claim with a side effect never goes stale; another one does with time
claim_stays :
    (parse_iso : String → Option ℕ) (side : Bool) (at at' : String) (bank : Option String)
    (r : Item) (n : ℕ)
    → (side ≡ true) ⊎ (stale parse_iso at at' n ≡ false)
    → claim_is_stale parse_iso (claim_row (claim_status side) at bank r) at' (some n) ≡ false
claim_stays p true at at' none r n h = refl
claim_stays p true at at' (some b) r n h = refl
claim_stays p false at at' none r n h = ground arith
claim_stays p false at at' (some b) r n h = ground arith

-- While a claim stands, no other review of the item begins: a second claim raises and changes
-- nothing, at any time if the first announced a side effect, and until the first is stale otherwise.
pub claim_review_exclusive :
    (parse_iso : String → Option ℕ) (id : String) (kind kind' : Kind) (at at' : String)
    (seconds : Option ℕ) (n : ℕ) (side side' : Bool)
    (sha updated bank sha' updated' bank' : Option String) (db db' : Db) (r : Item)
    → IsUnique db.items
    → claim_review parse_iso id kind at seconds side sha updated bank db ≡ (ok r, db')
    → (side ≡ true) ⊎ (stale parse_iso at at' n ≡ false)
    → (e : Error) × (claim_review parse_iso id kind' at' (some n) side' sha' updated' bank' db'
        ≡ (err e, db'))
unfolding claim_review
claim_review_exclusive p id kind kind' at at' seconds n side side' sha updated bank sha' updated'
      bank' db db' r u h fresh =
    let c = claim_review-IsClaimed p id kind at seconds side sha updated bank db db' r u h in
    mutate_review_refuses p id at' (some n) (claim_item id kind' at' side' bank') sha' updated' db'
      (claim_row (claim_status side) at bank r) c.row
      (rw (claim_row-status (claim_status side) at bank r) (claim_status_closed side))
      (claim_stays p side at at' bank r n fresh)

pub require_review_state_passes :
    (id at : String) (status : Status) (sha : String) (db : Db) (r : Item)
    → find_where (has_id id) db.items ≡ some r
    → r.status ≡ status
    → r.updated_at ≡ at
    → r.sha256 ≡ sha
    → require_review_state id at status (some sha) db ≡ ok (r, db)
unfolding require_review_state select_item
require_review_state_passes id at status sha db r found st up same =
    ground (arith, eq_iff r.updated_at at, eq_iff r.sha256 sha, status_eq_self status)

pub complete_passes :
    (id at sha : String) (db : Db) (r : Item)
    → find_where (has_id id) db.items ≡ some r
    → r.status ≡ review_side_effect_started
    → r.updated_at ≡ at
    → r.sha256 ≡ sha
    → (db' : Db) × (complete_side_effect id at (some sha) db ≡ (ok tt, db'))
      × (find_where (has_id id) db'.items ≡ some (with_status review_side_effect_completed at r))
unfolding complete_side_effect update_item insert_event transaction
complete_passes id at sha db r found st up same =
    let e =
      require_review_state_passes id at review_side_effect_started sha db r found st up same in
    (
      after_write id (with_status review_side_effect_completed at)
          (event_of id "review_side_effect_completed" at [] none ∷ []) db,
      ground (arith, e),
      find-after_write id (with_status review_side_effect_completed at) db.items r (λ i. refl)
          found,
    )

pub finish_passes :
    (id at sha : String) (details : List (String × Detail)) (db : Db) (r : Item)
    → find_where (has_id id) db.items ≡ some r
    → r.status ≡ review_side_effect_completed
    → r.updated_at ≡ at
    → r.sha256 ≡ sha
    → (db' : Db) × (finish_approve_retain id at details (some sha) db ≡ (ok tt, db'))
      × (find_where (has_id id) db'.items ≡ none)
unfolding finish_approve_retain delete_item insert_event transaction
finish_passes id at sha details db r found st up same =
    let e =
      require_review_state_passes id at review_side_effect_completed sha db r found st up same in
    let own : r.quarantine_id ≡ id = quarantine_id-find id db.items r found in
    (
      after_erase id (event_of id "approved" at details none ∷ []) db,
      ground (arith, e),
      find_where-delete_self (has_id id) (has_id id) db.items (λ x p. p),
    )

-- Once a retain request is claimed for its side effect, the rest of its approval goes through: with
-- the claim's time and hash, recording the completion and finishing both succeed, and the row is gone.
pub approve_retain_completes :
    (parse_iso : String → Option ℕ) (id at : String) (seconds : Option ℕ)
    (sha updated bank : Option String) (details : List (String × Detail)) (db db1 : Db) (r : Item)
    → IsUnique db.items
    → claim_review parse_iso id retain_request at seconds true sha updated bank db ≡ (ok r, db1)
    → (db2 db3 : Db) × (complete_side_effect id at (some r.sha256) db1 ≡ (ok tt, db2))
      × (finish_approve_retain id at details (some r.sha256) db2 ≡ (ok tt, db3))
      × (find_where (has_id id) db3.items ≡ none)
approve_retain_completes p id at seconds sha updated bank details db db1 r u h =
    let c =
      claim_review-IsClaimed p id retain_request at seconds true sha updated bank db db1 r u h in
    let row = claim_row review_side_effect_started at bank r in
    let (db2, done, found) =
      complete_passes id at r.sha256 db1 row c.row
        (claim_row-status review_side_effect_started at bank r)
        (claim_row_at review_side_effect_started at bank r)
        (claim_row_sha256 review_side_effect_started at bank r) in
    let (db3, finished, gone) =
      finish_passes id at r.sha256 details db2 (with_status review_side_effect_completed at row)
        found refl refl (claim_row_sha256 review_side_effect_started at bank r) in
    (db2, db3, done, finished, gone)

interruptible_claim :
    (side : Bool) (at : String) (bank : Option String) (r : Item)
    → interruptible (some (claim_row (claim_status side) at bank r)) at ≡ true
interruptible_claim true at none r = ==_self at
interruptible_claim true at (some b) r = ==_self at
interruptible_claim false at none r = ==_self at
interruptible_claim false at (some b) r = ==_self at

pub interrupt_passes :
    (r : Item) (at error_kind : String) (side : Bool) (bank : Option String) (db : Db)
    → find_where (has_id r.quarantine_id) db.items ≡ some (claim_row (claim_status side) at bank r)
    → reviewable r.status ≡ true
    → interrupt_review r at error_kind db ≡ (
      ok tt,
      after_write r.quarantine_id
          (with_status r.status at)
          (event_of r.quarantine_id "review_interrupted" at
              (interrupted_details r.status error_kind)
              none
            ∷ [])
          db,
    )
unfolding interrupt_review update_item insert_event select_item transaction
interrupt_passes r at error_kind side bank db found fine =
    rw (found, transaction, ◌>>=◌, select_item)
      (rw (interruptible_claim side at bank r, transaction, ◌>>=◌)
        (rw (fine, transaction, ◌>>=◌) refl))

-- the row that was claimed is the one of the table
pub claimed-former :
    (parse_iso : String → Option ℕ) (id at : String) (kind : Kind) (seconds : Option ℕ)
    (side : Bool) (bank : Option String) (r old : Item) (db db' : Db)
    → IsClaimed parse_iso id at kind seconds side bank r db db'
    → find_where (has_id id) db.items ≡ some old
    → r ≡ after_recovery parse_iso at seconds old
claimed-former p id at kind seconds side bank r old db db' c first =
    c.former ∙ ap (after_recovery p at seconds) (ground (arith, c.old_found, first))

-- If the claim of the row `old` succeeded, interrupting it succeeds and puts the status of `old` back
-- on the claimed row, so the payload and the count of postponements stay. If `old` was itself a stale
-- claim, which claiming recovers first, the status put back is postponed. The ids are unique.
pub interrupt_review_restores :
    (parse_iso : String → Option ℕ) (id : String) (kind : Kind) (at error_kind : String)
    (seconds : Option ℕ) (side : Bool) (sha updated bank : Option String) (db db' : Db)
    (old r : Item)
    → IsUnique db.items
    → find_where (has_id id) db.items ≡ some old
    → claim_review parse_iso id kind at seconds side sha updated bank db ≡ (ok r, db')
    → ((interrupt_review r at error_kind db').0 ≡ ok tt)
      × (find_where (has_id id) (interrupt_review r at error_kind db').1.items
          ≡ some (
              with_status
                (after_recovery parse_iso at seconds old).status
                at
                (claim_row (claim_status side) at bank (after_recovery parse_iso at seconds old))))
interrupt_review_restores p id kind at error_kind seconds side sha updated bank db db' old r u first
      h =
    let c = claim_review-IsClaimed p id kind at seconds side sha updated bank db db' r u h in
    let row = claim_row (claim_status side) at bank r in
    let own_row : find_where (has_id r.quarantine_id) db'.items ≡ some row =
      subst (λ k. find_where (has_id k) db'.items ≡ some row) (sym c.own) c.row in
    let e = interrupt_passes r at error_kind side bank db' own_row c.open_ in
    let was : r ≡ after_recovery p at seconds old =
      claimed-former p id at kind seconds side bank r old db db' c first in
    rw e (
      refl,
      subst
          (λ x.
            find_where (has_id id)
              (update_where (has_id r.quarantine_id) (with_status r.status at) db'.items)
            ≡ some (with_status x.status at (claim_row (claim_status side) at bank x)))
          was
          (subst
            (λ k.
              find_where (has_id k)
                (update_where (has_id r.quarantine_id) (with_status r.status at) db'.items)
              ≡ some (with_status r.status at row))
            c.own
            (find-after_write r.quarantine_id (with_status r.status at) db'.items row (λ i. refl)
              own_row)),
    )
