-- ===== src/Admission/Effects.antt =====
-- What the write of `store` does to a sum over the rows.
use hindsight_memory_router.Quarantine.{
  reviewed_allowed, status_eq, expired, reviewable, Db, has_id, update_item, insert_event, Item,
}
use hindsight_memory_router.Admission.Writes.{
  by_memory_mode, status_of, by_request_mode, reopen_reviewed_row, reopen_expired_row, refresh_row,
  Mode, reopen_reviewed_memory, with_envelope, reopen_expired, insert_item, refresh, write_row,
  rewrite,
}
use hindsight_memory_router.Common.{
  inr, inl, refl, Bool-cases, ◌∷◌, ok, false, arith, not, ◌+◌, ◌&&◌, ◌≡◌, none, some, ◌≤◌, Option,
  List, ℕ, String,
}
use hindsight_memory_router.Common.Table.Laws.{sum_of-update_where}
use hindsight_memory_router.Common.Table.{update_where, find_where, sum_of}
use hindsight_memory_router.Review.Machine.{IsUnique}

-- `w` counts every row that `store` writes for the item at most `bound`
pub record IsBounded (w : Item → ℕ) (item : Item) (encrypted : String) (bound : ℕ) : Type 0 where
  pub inserted : w (with_envelope encrypted item) ≤ bound
  pub refreshed : (e : Item) → w (refresh_row item encrypted e) ≤ bound
  pub reopened : (e : Item) → w (reopen_expired_row item encrypted e) ≤ bound
  pub reviewed : (e : Item) → w (reopen_reviewed_row item encrypted e) ≤ bound

abbrev pub weight : (Item → ℕ) → Option Item → ℕ
weight w none = 0
weight w (some e) = w e

replaced_sum :
    (w : Item → ℕ) (f : Item → Item) (bound : ℕ) (items items' : List Item) (e : Item)
    → IsUnique items
    → find_where (has_id e.quarantine_id) items ≡ some e
    → w (f e) ≤ bound
    → items' ≡ update_where (has_id e.quarantine_id) f items
    → sum_of w items' + w e ≤ sum_of w items + bound
replaced_sum w f bound items items' e u found le q = rw q (
    omega
      (arith, sum_of-update_where w (has_id e.quarantine_id) f items e (u e.quarantine_id) found))

rewrite_sum :
    (w : Item → ℕ) (bound : ℕ) (mode : Mode) (item : Item) (encrypted at : String) (e : Item)
    (db db' : Db)
    → IsBounded w item encrypted bound
    → IsUnique db.items
    → find_where (has_id e.quarantine_id) db.items ≡ some e
    → (by_request_mode mode && not (reviewable e.status)) ≡ false
    → rewrite mode item encrypted at e db ≡ ok (tt, db')
    → sum_of w db'.items + w e ≤ sum_of w db.items + bound
unfolding rewrite refresh reopen_expired reopen_reviewed_memory update_item insert_event
rewrite_sum w bound mode item encrypted at e db db' b u found open_ h =
    elim (Bool-cases (expired e at)) [
      | inl late ↦
          replaced_sum w (reopen_expired_row item encrypted) bound db.items db'.items e u found
            (b.reopened e) (ground arith)
      | inr live ↦ elim (Bool-cases (by_memory_mode mode && status_eq e.status reviewed_allowed)) [
        | inl again ↦
            replaced_sum w (reopen_reviewed_row item encrypted) bound db.items db'.items e u found
              (b.reviewed e) (ground arith)
        | inr plain ↦
            replaced_sum w (refresh_row item encrypted) bound db.items db'.items e u found
              (b.refreshed e) (ground arith)
      ]
    ]

pub write_row_sum :
    (w : Item → ℕ) (bound : ℕ) (mode : Mode) (item : Item) (encrypted at : String)
    (existing : Option Item) (db db' : Db)
    → IsBounded w item encrypted bound
    → IsUnique db.items
    → ((e : Item) → existing ≡ some e → find_where (has_id e.quarantine_id) db.items ≡ some e)
    → (by_request_mode mode && status_of existing (λ s. not (reviewable s))) ≡ false
    → write_row mode item encrypted at existing db ≡ ok (tt, db')
    → sum_of w db'.items + weight w existing ≤ sum_of w db.items + bound
unfolding write_row insert_item insert_event sum_of
write_row_sum w bound mode item encrypted at none db db' b u found open_ h =
    let q : db'.items ≡ with_envelope encrypted item ∷ db.items = ground arith in
    rw q (omega (arith, b.inserted))
write_row_sum w bound mode item encrypted at (some e) db db' b u found open_ h =
    rewrite_sum w bound mode item encrypted at e db db' b u (found e refl) open_ h
