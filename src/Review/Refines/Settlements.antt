-- ===== src/Review/Refines/Settlements.antt =====
-- The operations on a row that is already claimed, or that need no claim: each makes the one move that
-- is its own.
use hindsight_memory_router.Common.{
  ◌||◌, Bool, Bool-cases, false, ◌⊎◌, Option-cases, List, refl, none, inr, true, arith, inl, some,
  Option, ok, ◌≡◌, String,
}
use hindsight_memory_router.Quarantine.{
  status_eq_self, Detail, reviewed_allowed, postponed, delete_item, reviewable, review_in_progress,
  reviewed_blocked, select_item, final, Status, event_of, review_side_effect_completed,
  review_side_effect_started, has_id, Item, insert_event, Db, update_item,
}
use hindsight_memory_router.Review.Actions.{
  recall_details, interrupted_details, interruptible, verdict, clear_row, finish_approve_retain,
  mark_recalled, interrupt_review, finish_reject_memory, mark_memory_reviewed,
  finish_approve_memory, with_status, complete_side_effect,
}
use hindsight_memory_router.Review.Refines.Lookups.{
  quarantine_id-find, require_reviewable_cases, require_started_snapshot_cases,
  require_review_state_cases,
}
use hindsight_memory_router.Review.Machine.{may_move, IsLegal}
use hindsight_memory_router.Review.Recovery.{
  reconciled, confirm_side_effect_applied, confirm_side_effect_not_applied,
}
use hindsight_memory_router.Review.Moves.{
  Moved, untouched, from_to, is, one_write, one_erase, transaction-Moved,
}
use mathlib.Core.List.{[]}
use Prim.Native.String.{[], String}
use hindsight_memory_router.Common.Table.{find_where}

pub complete_side_effect-Moved :
    (id at : String) (sha : Option String) (db : Db)
    → Moved
        (from_to (is review_side_effect_started) (some review_side_effect_completed))
        id
        db
        (complete_side_effect id at sha db).1
unfolding complete_side_effect update_item insert_event
complete_side_effect-Moved id at sha db = transaction-Moved id _ db λ a db' h.
    elim (require_review_state_cases id at review_side_effect_started sha db) [
      | inl e ↦ absurd (ground arith)
      | inr (r, found, st, up, e) ↦
          one_write id db db' r (with_status review_side_effect_completed at)
            (event_of id "review_side_effect_completed" at [] none) found (λ i. refl) (ground arith)
            (ground arith) (ground arith)
    ]

pub finish_approve_retain-Moved :
    (id at : String) (details : List (String × Detail)) (sha : Option String) (db : Db)
    → Moved
        (from_to (is review_side_effect_completed) none)
        id
        db
        (finish_approve_retain id at details sha db).1
unfolding finish_approve_retain delete_item insert_event
finish_approve_retain-Moved id at details sha db = transaction-Moved id _ db λ a db' h.
    elim (require_review_state_cases id at review_side_effect_completed sha db) [
      | inl e ↦ absurd (ground arith)
      | inr (r, found, st, up, e) ↦
          one_erase id db db' r (event_of id "approved" at details none) found (ground arith)
            (ground arith) (ground (arith, quarantine_id-find id db.items r found))
    ]

mark_recalled-IsLegal :
    (r : Item) (status : Status) (at : String)
    → final status ≡ true
    → may_move r.status status ≡ true
    → IsLegal r (clear_row status at r)
mark_recalled-IsLegal r status at fin moves = record {
  moved = moves;
  payload = rw fin (refl, refl);
  sha256 = refl;
  kind = refl;
  created_at = refl;
  expires_at = refl;
}

-- marking a row as reviewed, in a state that allows it
pub mark_recalled-Moved :
    {allowed : Status → Option Status → Bool} (id : String) (r : Item) (status : Status)
    (at : String) (actor : Option String) (db db' : Db) (a : Unit {0})
    → find_where (has_id id) db.items ≡ some r
    → final status ≡ true
    → may_move r.status status ≡ true
    → allowed r.status (some status) ≡ true
    → mark_recalled r status at actor db ≡ ok (a, db')
    → Moved allowed id db db'
unfolding mark_recalled update_item insert_event
mark_recalled-Moved id r status at actor db db' a found fin moves m h =
    one_write id db db' r (clear_row status at)
      (event_of id (verdict status) at (recall_details r) actor) found (λ i. refl)
      (mark_recalled-IsLegal r status at fin moves) m
      (ground (arith, quarantine_id-find id db.items r found))

pub finish_reject_memory-Moved :
    (id at : String) (sha actor : Option String) (db : Db)
    → Moved
        (from_to (is review_side_effect_completed) (some reviewed_blocked))
        id
        db
        (finish_reject_memory id at sha actor db).1
unfolding finish_reject_memory
finish_reject_memory-Moved id at sha actor db = transaction-Moved id _ db λ a db' h.
    elim (require_review_state_cases id at review_side_effect_completed sha db) [
      | inl e ↦ absurd (ground arith)
      | inr (r, found, st, up, e) ↦
          mark_recalled-Moved id r reviewed_blocked at actor db db' a found refl (rw st)
            (ground arith) (ground arith)
    ]

pub finish_approve_memory-Moved :
    (id at : String) (sha actor : Option String) (db : Db)
    → Moved
        (from_to (is review_in_progress) (some reviewed_allowed))
        id
        db
        (finish_approve_memory id at sha actor db).1
unfolding finish_approve_memory
finish_approve_memory-Moved id at sha actor db = transaction-Moved id _ db λ a db' h.
    elim (require_review_state_cases id at review_in_progress sha db) [
      | inl e ↦ absurd (ground arith)
      | inr (r, found, st, up, e) ↦
          mark_recalled-Moved id r reviewed_allowed at actor db db' a found refl (rw st)
            (ground arith) (ground arith)
    ]

from_reviewable : (s t : Status) → reviewable s ≡ true → final t ≡ true → may_move s t ≡ true
from_reviewable s t h fin = ground arith

pub mark_memory_reviewed-Moved :
    (id : String) (status : Status) (at : String) (sha updated : Option String) (db : Db)
    → final status ≡ true
    → Moved
        (from_to reviewable (some status))
        id
        db
        (mark_memory_reviewed id status at sha updated db).1
unfolding mark_memory_reviewed
mark_memory_reviewed-Moved id status at sha updated db fin = transaction-Moved id _ db λ a db' h.
    elim (require_reviewable_cases id at db) [
      | inl (x, e) ↦ absurd (ground arith)
      | inr (r, found, st, e) ↦
          mark_recalled-Moved id r status at none db db' a found fin
            (from_reviewable r.status status st fin) (ground (arith, status_eq_self status))
            (ground arith)
    ]

pub confirm_side_effect_applied-Moved :
    (id at sha updated : String) (actor : Option String) (db : Db)
    → Moved
        (from_to (is review_side_effect_started) (some review_side_effect_completed))
        id
        db
        (confirm_side_effect_applied id at sha updated actor db).1
unfolding confirm_side_effect_applied update_item insert_event
confirm_side_effect_applied-Moved id at sha updated actor db = transaction-Moved id _ db λ a db' h.
    elim (require_started_snapshot_cases id sha updated db) [
      | inl (x, e) ↦ absurd (ground arith)
      | inr (r, found, st, same, up, e) ↦
          one_write id db db' r (with_status review_side_effect_completed at)
            (event_of id "review_reconciled" at (reconciled "confirmed_applied") actor) found
            (λ i. refl) (ground arith) (ground arith) (ground arith)
    ]

pub confirm_side_effect_not_applied-Moved :
    (id at sha updated : String) (actor : Option String) (db : Db)
    → Moved
        (from_to (is review_side_effect_started) (some postponed))
        id
        db
        (confirm_side_effect_not_applied id at sha updated actor db).1
unfolding confirm_side_effect_not_applied update_item insert_event
confirm_side_effect_not_applied-Moved id at sha updated actor db =
    transaction-Moved id _ db λ a db' h. elim (require_started_snapshot_cases id sha updated db) [
      | inl (x, e) ↦ absurd (ground arith)
      | inr (r, found, st, same, up, e) ↦
          one_write id db db' r (with_status postponed at)
            (event_of id "review_reconciled" at (reconciled "confirmed_not_applied") actor) found
            (λ i. refl) (ground arith) (ground arith) (ground arith)
    ]

-- in review, or with a side effect started
abbrev pub is_claimed : Status → Bool
is_claimed s = is review_in_progress s || is review_side_effect_started s

interrupt_moves :
    (s t : Status)
    → (s ≡ review_in_progress) ⊎ (s ≡ review_side_effect_started)
    → reviewable t ≡ true
    → (may_move s t ≡ true) × (final t ≡ false)
interrupt_moves s t h k = ground arith

pub interrupt_review-Moved :
    (claimed : Item) (at kind : String) (db : Db)
    → Moved
        (from_to is_claimed (some claimed.status))
        claimed.quarantine_id
        db
        (interrupt_review claimed at kind db).1
unfolding interrupt_review update_item insert_event select_item
interrupt_review-Moved claimed at kind db = transaction-Moved claimed.quarantine_id _ db λ a db' h.
    elim (Option-cases (find_where (has_id claimed.quarantine_id) db.items)) [
      | inl missing ↦ untouched (ground arith)
      | inr (r, found) ↦ elim (Bool-cases (interruptible (some r) at)) [
        | inr early ↦ untouched (ground arith)
        | inl claim ↦
            let (moves, open_) =
              interrupt_moves r.status claimed.status (ground arith) (ground arith) in
            one_write claimed.quarantine_id db db' r (with_status claimed.status at)
              (event_of claimed.quarantine_id "review_interrupted" at
                (interrupted_details claimed.status kind) none)
              found (λ i. refl)
              (record {
                moved = moves;
                payload = rw open_ (refl, refl);
                sha256 = refl;
                kind = refl;
                created_at = refl;
                expires_at = refl;
              })
              (ground (arith, status_eq_self claimed.status)) (ground arith)
      ]
    ]
