-- ===== src/Review/Tests.antt =====
-- Runs of the review on concrete rows, and the theorems at them.
use hindsight_memory_router.Review.Guards.{
  require_review_state, assert_reviewable, recover_stale_for_action, assert_snapshot,
  mutate_transaction, mutate_review, stale,
}
use hindsight_memory_router.Common.Table.{delete_where, update_where, count_where, find_where}
use hindsight_memory_router.Quarantine.{
  delete_item, insert_event, update_item, recalled_memory, select_item, Status, transaction, has_id,
  reviewed_blocked, Event, retain_request, Db, Item,
}
use hindsight_memory_router.Review.Claiming.Ends.{interrupt_review_restores, claim_review_exclusive}
use hindsight_memory_router.Review.Refines.Refusals.{mutate_review_refuses}
use hindsight_memory_router.Review.Actions.{
  claim_item, claim_status, claim_row, finish_approve_retain, with_status, remove_item,
  complete_side_effect, interrupt_review, claim_review,
}
use hindsight_memory_router.Common.{
  inr, ◌*◌, err, refl, ◌++◌, ok, false, none, some, eq_iff, [], ◌≡◌, arith, ℕ, ◌≢◌, true, Error,
  ◌∷◌, Option, Bool, List, String,
}
use hindsight_memory_router.Review.Commands.{
  approving_retain, completing, run-IsMoveOf, claiming, run, target, Command, run_all,
}
use hindsight_memory_router.Review.Commands.Safety.{
  events-run_all, find-run_ne, find-run_all-final, run_all-IsSettled,
}
use Prim.Native.String.{len}
use hindsight_memory_router.Review.Moves.{Reviewed, from_to}
use hindsight_memory_router.Quarantine.{reviewable, review_side_effect_started}
use hindsight_memory_router.Review.Machine.{IsUnique}
use hindsight_memory_router.Review.Machine.Laws.{IsSettled}

abbrev parse : String → Option ℕ
parse s = some (len s * 60000000)

abbrev retained : Item
retained = record {
  quarantine_id = "q_a";
  created_at = "2026-01-01T00:00:00.000Z";
  updated_at = "2026-01-01T00:00:00.000Z";
  kind = retain_request;
  reason = "suspicious_content";
  writer_id = some "agent";
  source = some "openclaw";
  source_bank = none;
  source_memory_id = none;
  source_content_sha256 = none;
  dedupe_key = some "k";
  bank_id = some "bank";
  sha256 = "aa";
  envelope = some "{}";
  encrypted_bytes = 2;
  status = Status.pending;
  postpone_count = 0;
  requarantine_count = 0;
  expires_at = none;
}

abbrev settled : Item
settled = record retained {
  status = reviewed_blocked;
  envelope = none;
  encrypted_bytes = 0;
  kind = recalled_memory;
}

abbrev one_row : Item → Db
one_row item = record { items = item ∷ []; events = [] }

one_row-IsUnique : (item : Item) → IsUnique (one_row item).items
unfolding count_where
one_row-IsUnique item j = ground arith

one_row-IsSettled : IsSettled (one_row settled).items
unfolding find_where
one_row-IsSettled j r found fin = ground arith

abbrev at : String
at = "2026-01-02T00:00:00.000Z"

abbrev claimed_db : Bool → Db
claimed_db side =
    (claim_review parse "q_a" retain_request at (some 60) side none none (some "bank")
      (one_row retained)).1

claimed :
    (side : Bool)
    → claim_review parse "q_a" retain_request at
        (some 60)
        side
        none
        none
        (some "bank")
        (one_row retained)
      ≡ (ok retained, claimed_db side)
unfolding claim_review mutate_review mutate_transaction transaction select_item find_where
    assert_snapshot recover_stale_for_action assert_reviewable claim_item update_item insert_event
    update_where
claimed true = refl
claimed false = refl

abbrev schedule : List Command
schedule =
    claiming "q_a" retain_request at (some 60) true none none none
    ∷ completing "q_a" at none
    ∷ approving_retain "q_a" at [] none
    ∷ []

-- the schedule of an approval removes the row
run_all-schedule : (run_all parse schedule (one_row retained)).items ≡ []
unfolding run_all run claim_review mutate_review mutate_transaction transaction select_item
    find_where assert_snapshot recover_stale_for_action assert_reviewable claim_item update_item
    insert_event update_where complete_side_effect require_review_state finish_approve_retain
    delete_item delete_where
run_all-schedule = refl

run-IsMoveOf_example :
    Reviewed parse at
      (some 60)
      (from_to reviewable (some review_side_effect_started))
      "q_a"
      (one_row retained)
      (run parse
        (claiming "q_a" retain_request at (some 60) true none none none)
        (one_row retained)).1
run-IsMoveOf_example =
    run-IsMoveOf parse (claiming "q_a" retain_request at (some 60) true none none none)
      (one_row retained) (one_row-IsUnique retained)

find-run_all-final_example :
    find_where (has_id "q_a") (run_all parse schedule (one_row settled)).items ≡ some settled
unfolding find_where
find-run_all-final_example =
    find-run_all-final parse schedule (one_row settled) "q_a" settled (one_row-IsUnique settled)
      refl refl

run_all-IsSettled_example : IsSettled (run_all parse schedule (one_row settled)).items
run_all-IsSettled_example =
    run_all-IsSettled parse schedule (one_row settled) (one_row-IsUnique settled) one_row-IsSettled

events-run_all_example :
    (es : List Event) × ((run_all parse schedule (one_row retained)).events ≡ es ++ [])
events-run_all_example =
    events-run_all parse schedule (one_row retained) (one_row-IsUnique retained)

abbrev other : Command
other = claiming "q_b" retain_request at (some 60) true none none none

q_b-ne-q_a : target other ≢ "q_a"
q_b-ne-q_a e = ground (arith, eq_iff "q_b" "q_a")

find-run_ne_example :
    find_where (has_id "q_a") (run parse other (one_row retained)).1.items
    ≡ find_where (has_id "q_a") (one_row retained).items
find-run_ne_example =
    find-run_ne parse other (one_row retained) "q_a" (one_row-IsUnique retained) q_b-ne-q_a

claim_review_exclusive_example :
    (e : Error) × (claim_review parse "q_a" retain_request at
        (some 60)
        true
        none
        none
        none
        (claimed_db false)
      ≡ (err e, claimed_db false))
unfolding stale
claim_review_exclusive_example =
    claim_review_exclusive parse "q_a" retain_request retain_request at at (some 60) 60 false true
      none none (some "bank") none none none (one_row retained) (claimed_db false) retained
      (one_row-IsUnique retained) (claimed false) (inr refl)

interrupt_review_restores_example :
    ((interrupt_review retained at "unknown" (claimed_db true)).0 ≡ ok tt)
    × (find_where (has_id "q_a") (interrupt_review retained at "unknown" (claimed_db true)).1.items
        ≡ some (
            with_status Status.pending at
              (claim_row (claim_status true) at (some "bank") retained)))
unfolding find_where
interrupt_review_restores_example =
    interrupt_review_restores parse "q_a" retain_request at "unknown" (some 60) true none none
      (some "bank") (one_row retained) (claimed_db true) retained retained
      (one_row-IsUnique retained) refl (claimed true)

mutate_review_refuses_example :
    (e : Error) × (mutate_review parse "q_a" at
        (some 60)
        (remove_item "q_a" "rejected" at none)
        none
        none
        (one_row settled)
      ≡ (err e, one_row settled))
unfolding find_where
mutate_review_refuses_example =
    mutate_review_refuses parse "q_a" at (some 60) (remove_item "q_a" "rejected" at none) none none
      (one_row settled) settled refl refl refl
