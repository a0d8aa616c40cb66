-- ===== src/Review/Commands.antt =====
-- The operations on one item as commands, so that a schedule of requests is a list of commands.
pub mod Safety
use hindsight_memory_router.Review.Refines.Settlements.{
  confirm_side_effect_not_applied-Moved, confirm_side_effect_applied-Moved,
  finish_reject_memory-Moved, finish_approve_memory-Moved, finish_approve_retain-Moved,
  interrupt_review-Moved, complete_side_effect-Moved, mark_memory_reviewed-Moved,
}
use hindsight_memory_router.Review.Recovery.{
  confirm_side_effect_not_applied, confirm_side_effect_applied,
}
use hindsight_memory_router.Review.Actions.{
  finish_reject_memory, finish_approve_memory, finish_approve_retain, interrupt_review,
  complete_side_effect, mark_memory_reviewed, remove, claim_review, postpone,
}
use hindsight_memory_router.Review.Refines.Claims.{
  remove-Reviewed, claim_review-Reviewed, postpone-Reviewed,
}
use hindsight_memory_router.Review.Moves.{Moved, Reviewed, from_to, is, Moved-Steps, Reviewed-Steps}
use hindsight_memory_router.Review.Refines.Settlements.{is_claimed, mark_memory_reviewed-Moved}
use hindsight_memory_router.Quarantine.{
  reviewable, review_in_progress, review_side_effect_started, review_side_effect_completed,
}
use hindsight_memory_router.Common.{none, some}
use mathlib.Core.List.{[]}
use hindsight_memory_router.Quarantine.{
  Detail, postponed, Item, reviewed_blocked, Kind, Exec, reviewed_allowed, final, Db, Status,
}
use hindsight_memory_router.Review.Machine.{Steps, IsUnique}
use hindsight_memory_router.Common.{
  refl, true, err, List, ℕ, ◌≡◌, ok, Option, String, Bool, Result, ◌∷◌,
}
use mathlib.Core.Bool.{false}

pub data Command : Type 0 where
  postponing :
      (id at : String)
      → (stale_seconds max_postpones : Option ℕ) → (actor : Option String) → Command
  claiming :
      (id : String)
      → Kind
      → (at : String) → (stale_seconds : Option ℕ) → (side_effect : Bool)
      → (sha updated bank : Option String) → Command
  removing :
      (id event_type at : String) → (stale_seconds : Option ℕ) → (actor : Option String) → Command
  marking :
      (id : String) → (allowed : Bool) → (at : String) → (sha updated : Option String) → Command
  completing : (id at : String) → (sha : Option String) → Command
  interrupting : (claimed : Item) → (at error_kind : String) → Command
  approving_retain : (id at : String) → List (String × Detail) → (sha : Option String) → Command
  approving_memory : (id at : String) → (sha actor : Option String) → Command
  rejecting_memory : (id at : String) → (sha actor : Option String) → Command
  applied : (id at sha updated : String) → (actor : Option String) → Command
  not_applied : (id at sha updated : String) → (actor : Option String) → Command

-- the item that a command names
abbrev pub target : Command → String
target (postponing id _ _ _ _) = id
target (claiming id _ _ _ _ _ _ _) = id
target (removing id _ _ _ _) = id
target (marking id _ _ _ _) = id
target (completing id _ _) = id
target (interrupting claimed _ _) = claimed.quarantine_id
target (approving_retain id _ _ _) = id
target (approving_memory id _ _ _) = id
target (rejecting_memory id _ _ _) = id
target (applied id _ _ _ _) = id
target (not_applied id _ _ _ _) = id

-- the returned value is dropped
abbrev void : {A : Type 0} → Result A × Db → Result (Unit {0}) × Db
void (ok a, db) = (ok tt, db)
void (err e, db) = (err e, db)

abbrev mark : Bool → Status
mark true = reviewed_allowed
mark false = reviewed_blocked

unfoldable pub run : (String → Option ℕ) → Command → Exec (Unit {0})
run parse_iso (postponing id at seconds most actor) db =
    void (postpone parse_iso id at seconds most actor db)
run parse_iso (claiming id kind at seconds side sha updated bank) db =
    void (claim_review parse_iso id kind at seconds side sha updated bank db)
run parse_iso (removing id event_type at seconds actor) db =
    remove parse_iso id event_type at seconds actor db
run parse_iso (marking id allowed at sha updated) db =
    mark_memory_reviewed id (mark allowed) at sha updated db
run parse_iso (completing id at sha) db = complete_side_effect id at sha db
run parse_iso (interrupting claimed at error_kind) db = interrupt_review claimed at error_kind db
run parse_iso (approving_retain id at details sha) db = finish_approve_retain id at details sha db
run parse_iso (approving_memory id at sha actor) db = finish_approve_memory id at sha actor db
run parse_iso (rejecting_memory id at sha actor) db = finish_reject_memory id at sha actor db
run parse_iso (applied id at sha updated actor) db =
    confirm_side_effect_applied id at sha updated actor db
run parse_iso (not_applied id at sha updated actor) db =
    confirm_side_effect_not_applied id at sha updated actor db

-- a schedule: the requests of any number of reviewers, in the order of their transactions
unfoldable pub run_all : (String → Option ℕ) → List Command → Db → Db
run_all parse_iso [] db = db
run_all parse_iso (c ∷ cs) db = run_all parse_iso cs (run parse_iso c db).1

void_state : {A : Type 0} (x : Result A × Db) → (void x).1 ≡ x.1
void_state (ok a, db) = refl
void_state (err e, db) = refl

-- The one move of a command: the statuses from which it goes, and the one to which it goes, `none` where
-- it removes the row.
abbrev pub permitted : Command → Status → Option Status → Bool
permitted (postponing _ _ _ _ _) = from_to reviewable (some postponed)
permitted (claiming _ _ _ _ true _ _ _) = from_to reviewable (some review_side_effect_started)
permitted (claiming _ _ _ _ false _ _ _) = from_to reviewable (some review_in_progress)
permitted (removing _ _ _ _ _) = from_to reviewable none
permitted (marking _ true _ _ _) = from_to reviewable (some reviewed_allowed)
permitted (marking _ false _ _ _) = from_to reviewable (some reviewed_blocked)
permitted (completing _ _ _) =
    from_to (is review_side_effect_started) (some review_side_effect_completed)
permitted (interrupting claimed _ _) = from_to is_claimed (some claimed.status)
permitted (approving_retain _ _ _ _) = from_to (is review_side_effect_completed) none
permitted (approving_memory _ _ _ _) = from_to (is review_in_progress) (some reviewed_allowed)
permitted (rejecting_memory _ _ _ _) =
    from_to (is review_side_effect_completed) (some reviewed_blocked)
permitted (applied _ _ _ _ _) =
    from_to (is review_side_effect_started) (some review_side_effect_completed)
permitted (not_applied _ _ _ _ _) = from_to (is review_side_effect_started) (some postponed)

-- What a command may have done to the tables. Postponing, claiming and removing recover a stale claim
-- first.
abbrev pub IsMoveOf : (String → Option ℕ) → Command → Db → Db → Type 0
IsMoveOf parse_iso (postponing id at seconds most actor) db db' =
    Reviewed parse_iso at seconds (permitted (postponing id at seconds most actor)) id db db'
IsMoveOf parse_iso (claiming id kind at seconds side sha updated bank) db db' =
    Reviewed parse_iso at seconds (permitted (claiming id kind at seconds side sha updated bank)) id
      db db'
IsMoveOf parse_iso (removing id event_type at seconds actor) db db' =
    Reviewed parse_iso at seconds (permitted (removing id event_type at seconds actor)) id db db'
IsMoveOf parse_iso c db db' = Moved (permitted c) (target c) db db'

-- Each command, whether it succeeds or raises, leaves the tables as they were or makes the one move
-- that is its own: one row, that of the item that it names, goes from a status from which this command
-- may go to the one to which it leads, or is removed where it removes. The move is legal: only a final
-- row loses its payload, and hash, kind, creation and expiry stay. Postponing, claiming and removing may
-- first put a stale claim back as postponed, or remove it, if it is expired, and do nothing else. The
-- ids are unique.
pub run-IsMoveOf :
    (parse_iso : String → Option ℕ) (c : Command) (db : Db)
    → IsUnique db.items
    → IsMoveOf parse_iso c db (run parse_iso c db).1
unfolding run
run-IsMoveOf p (postponing id at seconds most actor) db u =
    rw void_state (postpone-Reviewed p id at seconds most actor db u)
run-IsMoveOf p (claiming id kind at seconds true sha updated bank) db u =
    rw void_state (claim_review-Reviewed p id kind at seconds true sha updated bank db u)
run-IsMoveOf p (claiming id kind at seconds false sha updated bank) db u =
    rw void_state (claim_review-Reviewed p id kind at seconds false sha updated bank db u)
run-IsMoveOf p (removing id event_type at seconds actor) db u =
    remove-Reviewed p id event_type at seconds actor db u
run-IsMoveOf p (marking id true at sha updated) db u =
    mark_memory_reviewed-Moved id reviewed_allowed at sha updated db refl
run-IsMoveOf p (marking id false at sha updated) db u =
    mark_memory_reviewed-Moved id reviewed_blocked at sha updated db refl
run-IsMoveOf p (completing id at sha) db u = complete_side_effect-Moved id at sha db
run-IsMoveOf p (interrupting claimed at error_kind) db u =
    interrupt_review-Moved claimed at error_kind db
run-IsMoveOf p (approving_retain id at details sha) db u =
    finish_approve_retain-Moved id at details sha db
run-IsMoveOf p (approving_memory id at sha actor) db u =
    finish_approve_memory-Moved id at sha actor db
run-IsMoveOf p (rejecting_memory id at sha actor) db u =
    finish_reject_memory-Moved id at sha actor db
run-IsMoveOf p (applied id at sha updated actor) db u =
    confirm_side_effect_applied-Moved id at sha updated actor db
run-IsMoveOf p (not_applied id at sha updated actor) db u =
    confirm_side_effect_not_applied-Moved id at sha updated actor db

-- such a move is a run of the review's state machine
IsMoveOf-Steps :
    (parse_iso : String → Option ℕ) (c : Command) (db db' : Db)
    → IsMoveOf parse_iso c db db'
    → Steps (target c) db db'
IsMoveOf-Steps p (postponing id at seconds most actor) db db' m =
    Reviewed-Steps p at seconds _ id db db' m
IsMoveOf-Steps p (claiming id kind at seconds side sha updated bank) db db' m =
    Reviewed-Steps p at seconds _ id db db' m
IsMoveOf-Steps p (removing id event_type at seconds actor) db db' m =
    Reviewed-Steps p at seconds _ id db db' m
IsMoveOf-Steps p (marking id allowed at sha updated) db db' m = Moved-Steps _ id db db' m
IsMoveOf-Steps p (completing id at sha) db db' m = Moved-Steps _ id db db' m
IsMoveOf-Steps p (interrupting claimed at error_kind) db db' m =
    Moved-Steps _ claimed.quarantine_id db db' m
IsMoveOf-Steps p (approving_retain id at details sha) db db' m = Moved-Steps _ id db db' m
IsMoveOf-Steps p (approving_memory id at sha actor) db db' m = Moved-Steps _ id db db' m
IsMoveOf-Steps p (rejecting_memory id at sha actor) db db' m = Moved-Steps _ id db db' m
IsMoveOf-Steps p (applied id at sha updated actor) db db' m = Moved-Steps _ id db db' m
IsMoveOf-Steps p (not_applied id at sha updated actor) db db' m = Moved-Steps _ id db db' m

-- Each command is a run of the review's state machine on the item that it names.
pub run-Steps :
    (parse_iso : String → Option ℕ) (c : Command) (db : Db)
    → IsUnique db.items
    → Steps (target c) db (run parse_iso c db).1
run-Steps p c db u = IsMoveOf-Steps p c db (run p c db).1 (run-IsMoveOf p c db u)
