-- ===== src/Review/Refines/Claims.antt =====
-- Claiming, postponing and removing an item make the one move that is their own, after the recovery of
-- a stale claim.
use hindsight_memory_router.Review.Machine.{IsUnique, may_leave, IsLegal, may_move}
use hindsight_memory_router.Quarantine.{
  review_in_progress, final, text, number, event_of, review_side_effect_started, select_item, Kind,
  Db, insert_event, update_item, delete_item, reviewable, Item, Status,
}
use hindsight_memory_router.Review.Moves.{Reviewed, rewritten, from_to, one_write, one_erase}
use hindsight_memory_router.Quarantine.{postponed}
use mathlib.Core.List.{[]}
use hindsight_memory_router.Common.{◌∷◌, ◌+◌, arith, refl, some, true, ℕ, ◌≡◌, Option, Bool, String}
use hindsight_memory_router.Review.Refines.Lookups.{quarantine_id-find}
use hindsight_memory_router.Review.Actions.{
  status_text, claim_status, postpone_row, claim_row, remove_item, remove, claim_item,
  postpone_item, postpone, claim_review,
}
use mathlib.Core.Bool.{false}
use Prim.Native.String.{[], String}
use hindsight_memory_router.Review.Refines.Mutations.{mutate_review-Reviewed, Obeys}
use mathlib.Core.Option.{none}

claim_moves :
    (s : Status) (side : Bool)
    → reviewable s ≡ true
    → (may_move s (claim_status side) ≡ true) × (final (claim_status side) ≡ false)
claim_moves s side h = ground arith

pub claim_row-status :
    (status : Status) (at : String) (bank : Option String) (i : Item)
    → (claim_row status at bank i).status ≡ status
claim_row-status status at none i = refl
claim_row-status status at (some b) i = refl

pub claim_row-id :
    (status : Status) (at : String) (bank : Option String) (i : Item)
    → (claim_row status at bank i).quarantine_id ≡ i.quarantine_id
claim_row-id status at none i = refl
claim_row-id status at (some b) i = refl

claim-IsLegal :
    (side : Bool) (at : String) (bank : Option String) (r : Item)
    → reviewable r.status ≡ true
    → IsLegal r (claim_row (claim_status side) at bank r)
claim-IsLegal true at none r h = ground arith
claim-IsLegal true at (some b) r h = ground arith
claim-IsLegal false at none r h = ground arith
claim-IsLegal false at (some b) r h = ground arith

claim_allowed :
    (side : Bool) (at : String) (bank : Option String) (r : Item)
    → reviewable r.status ≡ true
    → from_to reviewable
        (some (claim_status side))
        r.status
        (some (claim_row (claim_status side) at bank r).status)
      ≡ true
claim_allowed true at none r h = ground arith
claim_allowed true at (some b) r h = ground arith
claim_allowed false at none r h = ground arith
claim_allowed false at (some b) r h = ground arith

claim_item-Obeys :
    (id : String) (kind : Kind) (at : String) (side : Bool) (bank : Option String)
    → Obeys (from_to reviewable (some (claim_status side))) id (claim_item id kind at side bank)
unfolding claim_item update_item insert_event
claim_item-Obeys id kind at true bank item db db' a found fine h =
    one_write id db db' item (claim_row review_side_effect_started at bank)
      (event_of id "review_side_effect_started" at
        (("previous_status", text (status_text item.status)) ∷ []) none)
      found (claim_row-id review_side_effect_started at bank) (claim-IsLegal true at bank item fine)
      (claim_allowed true at bank item fine) (ground arith)
claim_item-Obeys id kind at false bank item db db' a found fine h =
    rewritten item (claim_row review_in_progress at bank) [] found
      (claim_row-id review_in_progress at bank) (claim-IsLegal false at bank item fine)
      (claim_allowed false at bank item fine) (ground arith)

pub claim_review-Reviewed :
    (parse_iso : String → Option ℕ) (id : String) (kind : Kind) (at : String) (seconds : Option ℕ)
    (side : Bool) (sha updated bank : Option String) (db : Db)
    → IsUnique db.items
    → Reviewed parse_iso at seconds
        (from_to reviewable (some (claim_status side)))
        id
        db
        (claim_review parse_iso id kind at seconds side sha updated bank db).1
unfolding claim_review
claim_review-Reviewed parse_iso id kind at seconds side sha updated bank db u =
    mutate_review-Reviewed _ parse_iso id at seconds (claim_item id kind at side bank) sha updated
      db (claim_item-Obeys id kind at side bank) u

postpone-IsLegal :
    (at : String) (r : Item) → reviewable r.status ≡ true → IsLegal r (postpone_row at r)
postpone-IsLegal at r h = ground arith

postpone_item-Obeys :
    (id at : String) (most : Option ℕ) (actor : Option String)
    → Obeys (from_to reviewable (some postponed)) id (postpone_item id at most actor)
unfolding postpone_item update_item insert_event select_item
postpone_item-Obeys id at most actor item db db' a found fine h =
    one_write id db db' item (postpone_row at)
      (event_of id "postponed" at (("postpone_count", number (item.postpone_count + 1)) ∷ []) actor)
      found (λ i. refl) (postpone-IsLegal at item fine) (ground arith) (ground arith)

pub postpone-Reviewed :
    (parse_iso : String → Option ℕ) (id at : String) (seconds most : Option ℕ)
    (actor : Option String) (db : Db)
    → IsUnique db.items
    → Reviewed parse_iso at seconds
        (from_to reviewable (some postponed))
        id
        db
        (postpone parse_iso id at seconds most actor db).1
unfolding postpone
postpone-Reviewed parse_iso id at seconds most actor db u =
    mutate_review-Reviewed _ parse_iso id at seconds (postpone_item id at most actor) none none db
      (postpone_item-Obeys id at most actor) u

remove-IsLegal : (s : Status) → reviewable s ≡ true → may_leave s ≡ true
remove-IsLegal s h = ground arith

remove_item-Obeys :
    (id type at : String) (actor : Option String)
    → Obeys (from_to reviewable none) id (remove_item id type at actor)
unfolding remove_item delete_item insert_event
remove_item-Obeys id type at actor item db db' a found fine h =
    one_erase id db db' item (event_of id type at [] actor) found (remove-IsLegal item.status fine)
      (ground arith) (ground (arith, quarantine_id-find id db.items item found))

pub remove-Reviewed :
    (parse_iso : String → Option ℕ) (id type at : String) (seconds : Option ℕ)
    (actor : Option String) (db : Db)
    → IsUnique db.items
    → Reviewed parse_iso at seconds
        (from_to reviewable none)
        id
        db
        (remove parse_iso id type at seconds actor db).1
unfolding remove
remove-Reviewed parse_iso id type at seconds actor db u =
    mutate_review-Reviewed _ parse_iso id at seconds (remove_item id type at actor) none none db
      (remove_item-Obeys id type at actor) u
