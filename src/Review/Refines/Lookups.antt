-- ===== src/Review/Refines/Lookups.antt =====
-- What the lookups and the checks of a review establish when they pass.

-- the outcome of `_require_review_state`
use hindsight_memory_router.Review.Guards.{
  already_finalized, item_expired, invalid_action, not_found, assert_snapshot, assert_reviewable,
  require_reviewable, differs, review_changed, require_review_state,
}
use hindsight_memory_router.Common.{
  ◌&&◌, true, Error, eq_iff, List, ◌==◌, ◌||◌, not, Bool-cases, inr, arith, inl, Option-cases, ok,
  some, ◌⊎◌, err, ◌≡◌, Option, String,
}
use hindsight_memory_router.Quarantine.{
  is_expired, reviewable, review_side_effect_started, status_of_eq, status_eq, has_id, Item, Db,
  Status, select_item,
}
use hindsight_memory_router.Common.Table.Laws.{find_where-true}
use hindsight_memory_router.Review.Recovery.{require_started_snapshot}
use hindsight_memory_router.Common.Table.{find_where}
use Prim.Native.String.{String}

pub require_review_state_cases :
    (id at : String) (status : Status) (sha : Option String) (db : Db)
    → (require_review_state id at status sha db ≡ err review_changed)
      ⊎ ((r : Item) × (find_where (has_id id) db.items ≡ some r)
          × (r.status ≡ status)
          × (r.updated_at ≡ at)
          × (require_review_state id at status sha db ≡ ok (r, db)))
unfolding require_review_state select_item
require_review_state_cases id at status sha db =
    elim (Option-cases (find_where (has_id id) db.items)) [
      | inl missing ↦ inl (ground arith)
      | inr (r, found) ↦
          elim (Bool-cases (not (status_eq r.status status) || not (r.updated_at == at))) [
            | inl bad ↦ inl (ground arith)
            | inr good ↦ elim (Bool-cases (differs sha r.sha256)) [
              | inl bad ↦ inl (ground arith)
              | inr same ↦ inr (
                r,
                found,
                status_of_eq r.status status (ground arith),
                ground (arith, eq_iff r.updated_at at),
                ground arith,
              )
            ]
          ]
    ]

pub require_reviewable_cases :
    (id at : String) (db : Db)
    → ((e : Error) × (require_reviewable id at db ≡ err e))
      ⊎ ((r : Item) × (find_where (has_id id) db.items ≡ some r)
          × (reviewable r.status ≡ true)
          × (require_reviewable id at db ≡ ok (r, db)))
unfolding require_reviewable select_item assert_reviewable
require_reviewable_cases id at db = elim (Option-cases (find_where (has_id id) db.items)) [
  | inl missing ↦ inl (not_found, ground arith)
  | inr (r, found) ↦ elim (Bool-cases (reviewable r.status)) [
    | inl fine ↦ elim (Bool-cases (is_expired r at)) [
      | inl late ↦ inl (item_expired, ground arith)
      | inr live ↦ inr (r, found, fine, ground arith)
    ]
    | inr bad ↦ inl (already_finalized, ground arith)
  ]
]

pub require_started_snapshot_cases :
    (id sha updated : String) (db : Db)
    → ((e : Error) × (require_started_snapshot id sha updated db ≡ err e))
      ⊎ ((r : Item) × (find_where (has_id id) db.items ≡ some r)
          × (r.status ≡ review_side_effect_started)
          × (r.sha256 ≡ sha)
          × (r.updated_at ≡ updated)
          × (require_started_snapshot id sha updated db ≡ ok (r, db)))
unfolding require_started_snapshot select_item assert_snapshot
require_started_snapshot_cases id sha updated db =
    elim (Option-cases (find_where (has_id id) db.items)) [
      | inl missing ↦ inl (not_found, ground arith)
      | inr (r, found) ↦ elim (Bool-cases (status_eq r.status review_side_effect_started)) [
        | inr bad ↦ inl (invalid_action, ground arith)
        | inl started ↦ elim (Bool-cases (r.sha256 == sha && r.updated_at == updated)) [
          | inr bad ↦ inl (review_changed, ground arith)
          | inl same ↦ inr (
            r,
            found,
            status_of_eq r.status review_side_effect_started started,
            ground (arith, eq_iff r.sha256 sha),
            ground (arith, eq_iff r.updated_at updated),
            ground arith,
          )
        ]
      ]
    ]

-- the key of the row that a lookup by id finds
pub quarantine_id-find :
    (id : String) (items : List Item) (r : Item)
    → find_where (has_id id) items ≡ some r
    → r.quarantine_id ≡ id
quarantine_id-find id items r found =
    (eq_iff r.quarantine_id id).0 (find_where-true (has_id id) items r found)
