-- ===== src/Administration/Reconciliation.antt =====
-- What a reconciliation reports is what the table holds (memory_router/admin.py).
use hindsight_memory_router.Common.Action.{Act-cases}
use hindsight_memory_router.Json.{Json, Fields}
use hindsight_memory_router.Common.{
  arith, ◌≡◌, refl, inl, inr, Bool-cases, Option-cases, Result-cases, String, Option, some, none,
  ok, sym, List,
}
use mathlib.Core.Path.{subst}
use hindsight_memory_router.Common.Table.{find_where, update_where, delete_where}
use hindsight_memory_router.Common.Table.Laws.{find_where-delete_self}
use hindsight_memory_router.Quarantine.{
  Status, Item, Db, Detail, Kind, retain_request, recall_request, recalled_memory, security_event,
  has_id, status_eq, status_of_eq, postponed, reviewed_blocked, review_side_effect_started,
  review_side_effect_completed, transaction, select_item, update_item, delete_item, insert_event,
}
use hindsight_memory_router.Review.Guards.{require_review_state}
use hindsight_memory_router.Review.Actions.{
  with_status, clear_row, finish_approve_retain, finish_reject_memory, mark_recalled,
}
use hindsight_memory_router.Review.Recovery.{
  require_started_snapshot, confirm_side_effect_applied, confirm_side_effect_not_applied,
}
use hindsight_memory_router.Review.Machine.Laws.{find-after_write}
use hindsight_memory_router.Review.Refines.Lookups.{quarantine_id-find}
use hindsight_memory_router.Policy.{lookup_field, or_null}
use hindsight_memory_router.Administration.{
  Stage, Service, AdminActor, label, exec, now, require_item,
}
use hindsight_memory_router.Administration.Verification.{require_item_found}
use hindsight_memory_router.Administration.Decisions.{
  Reconcile, confirmed_applied, confirmed_not_applied, Outcome, approved, kept, reconcile_action,
  required, contradicts, reconcile_details, reconcile, reconcile_item, reconcile_applied,
  reconcile_started,
}

-- the row of an id, by what a reconciliation says became of it
abbrev pub IsReported : Outcome → String → Db → Type 0
IsReported approved id db = find_where (has_id id) db.items ≡ none
IsReported (kept status) id db =
    (row : Item) × (find_where (has_id id) db.items ≡ some row) × (row.status ≡ status)

require_review_state_found :
    (id at : String) (status : Status) (sha : Option String) (db db' : Db) (r : Item)
    → require_review_state id at status sha db ≡ ok (r, db')
    → (find_where (has_id id) db.items ≡ some r) × (db' ≡ db)
unfolding require_review_state select_item
require_review_state_found id at status sha db db' r h =
    elim (Option-cases (find_where (has_id id) db.items)) [
      | inl missing ↦ absurd (ground arith)
      | inr (item, found) ↦ (ground arith, ground arith)
    ]

finish_approve_retain-gone :
    (id at sha : String) (details : List (String × Detail)) (db db' : Db) (v : Unit {0})
    → finish_approve_retain id at details (some sha) db ≡ (ok v, db')
    → find_where (has_id id) db'.items ≡ none
unfolding finish_approve_retain delete_item insert_event transaction
finish_approve_retain-gone id at sha details db db' v h =
    elim (Result-cases (require_review_state id at review_side_effect_completed (some sha) db)) [
      | inr (x, e) ↦ absurd (ground arith)
      | inl ((r, d), e) ↦
          let (found, same) =
            require_review_state_found id at review_side_effect_completed (some sha) db d r e in
          let own = quarantine_id-find id db.items r found in
          let left : db'.items ≡ delete_where (has_id r.quarantine_id) db.items = ground arith in
          rw (left, own) (find_where-delete_self (has_id id) (has_id id) db.items (λ x p. p))
    ]

finish_reject_memory-blocked :
    (id at sha : String) (actor : Option String) (db db' : Db) (v : Unit {0})
    → finish_reject_memory id at (some sha) actor db ≡ (ok v, db')
    → IsReported (kept reviewed_blocked) id db'
unfolding finish_reject_memory mark_recalled update_item insert_event transaction
finish_reject_memory-blocked id at sha actor db db' v h =
    elim (Result-cases (require_review_state id at review_side_effect_completed (some sha) db)) [
      | inr (x, e) ↦ absurd (ground arith)
      | inl ((r, d), e) ↦
          let (found, same) =
            require_review_state_found id at review_side_effect_completed (some sha) db d r e in
          let own = quarantine_id-find id db.items r found in
          let left : db'.items
              ≡ update_where (has_id r.quarantine_id) (clear_row reviewed_blocked at) db.items =
            ground arith in
          (
            clear_row reviewed_blocked at r,
            rw left (
                subst
                  (λ k.
                    find_where (has_id id)
                      (update_where (has_id k) (clear_row reviewed_blocked at) db.items)
                    ≡ some (clear_row reviewed_blocked at r))
                  (sym own)
                  (find-after_write id (clear_row reviewed_blocked at) db.items r (λ i. refl)
                    found)),
            refl,
          )
    ]

require_started_snapshot_found :
    (id sha updated : String) (db db' : Db) (r : Item)
    → require_started_snapshot id sha updated db ≡ ok (r, db')
    → (find_where (has_id id) db.items ≡ some r) × (db' ≡ db)
unfolding require_started_snapshot select_item
require_started_snapshot_found id sha updated db db' r h =
    elim (Option-cases (find_where (has_id id) db.items)) [
      | inl missing ↦ absurd (ground arith)
      | inr (item, found) ↦ (ground arith, ground arith)
    ]

confirm_side_effect_not_applied-postponed :
    (id at sha updated : String) (actor : Option String) (db db' : Db) (v : Unit {0})
    → confirm_side_effect_not_applied id at sha updated actor db ≡ (ok v, db')
    → IsReported (kept postponed) id db'
unfolding confirm_side_effect_not_applied update_item insert_event transaction
confirm_side_effect_not_applied-postponed id at sha updated actor db db' v h =
    elim (Result-cases (require_started_snapshot id sha updated db)) [
      | inr (x, e) ↦ absurd (ground arith)
      | inl ((r, d), e) ↦
          let (found, same) = require_started_snapshot_found id sha updated db d r e in
          let left : db'.items ≡ update_where (has_id id) (with_status postponed at) db.items =
            ground arith in
          (
            with_status postponed at r,
            rw left (find-after_write id (with_status postponed at) db.items r (λ i. refl) found),
            refl,
          )
    ]

module _ {W : Type 0} (service : Service W) (id at sha updated actor : String) where
  reconcile_applied-IsReported :
      (item : Item) (decision : Json) (kind : Kind) (s s' : Stage W) (outcome : Outcome)
      → item.kind ≡ kind
      → reconcile_applied service id at item decision sha updated actor s ≡ (ok outcome, s')
      → IsReported outcome id s'.db
  unfolding reconcile_applied exec
  reconcile_applied-IsReported item decision recall_request s s' outcome k h = absurd (ground arith)
  reconcile_applied-IsReported item decision security_event s s' outcome k h = absurd (ground arith)
  reconcile_applied-IsReported item decision retain_request s s' outcome k h =
      elim (Bool-cases (contradicts decision "approve")) [
        | inl other ↦ absurd (ground arith)
        | inr fits ↦
            elim (Act-cases
              (confirm_side_effect_applied id at sha updated (some actor) (service.wait s).db)) [
                | inr (x, db1, e) ↦ absurd (ground arith)
                | inl (v, db1, e) ↦
                    let s1 = service.wait (record (service.wait s) { db = db1 }) in
                    elim (Act-cases (
                      finish_approve_retain id at (reconcile_details item actor) (some sha)
                        s1.db)) [
                          | inr (x, db2, f) ↦ absurd (ground arith)
                          | inl (w, db2, f) ↦
                              let gone =
                                finish_approve_retain-gone id at sha (reconcile_details item actor)
                                  s1.db db2 w f in
                              let same : outcome ≡ approved = ground arith in
                              let left : s'.db ≡ db2 = ground arith in rw (same, left) gone
                        ]
              ]
      ]
  reconcile_applied-IsReported item decision recalled_memory s s' outcome k h =
      elim (Bool-cases (contradicts decision "reject")) [
        | inl other ↦ absurd (ground arith)
        | inr fits ↦
            elim (Act-cases
              (confirm_side_effect_applied id at sha updated (some actor) (service.wait s).db)) [
                | inr (x, db1, e) ↦ absurd (ground arith)
                | inl (v, db1, e) ↦
                    let s1 = service.wait (record (service.wait s) { db = db1 }) in
                    elim (Act-cases (finish_reject_memory id at (some sha) (some actor) s1.db)) [
                      | inr (x, db2, f) ↦ absurd (ground arith)
                      | inl (w, db2, f) ↦
                          let blocked =
                            finish_reject_memory-blocked id at sha (some actor) s1.db db2 w f in
                          let same : outcome ≡ kept reviewed_blocked = ground arith in
                          let left : s'.db ≡ db2 = ground arith in rw (same, left) blocked
                    ]
              ]
      ]

  reconcile_action-IsReported :
      (item : Item) (action : Reconcile) (decision : Json) (s s' : Stage W) (outcome : Outcome)
      → reconcile_started service id at item action decision sha updated actor s ≡ (ok outcome, s')
      → IsReported outcome id s'.db
  unfolding reconcile_started exec
  reconcile_action-IsReported item confirmed_applied decision s s' outcome h =
      reconcile_applied-IsReported item decision item.kind s s' outcome refl h
  reconcile_action-IsReported item confirmed_not_applied decision s s' outcome h =
      elim (Act-cases
        (confirm_side_effect_not_applied id at sha updated (some actor) (service.wait s).db)) [
          | inr (x, db1, e) ↦ absurd (ground arith)
          | inl (v, db1, e) ↦
              let after =
                confirm_side_effect_not_applied-postponed id at sha updated (some actor)
                  (service.wait s).db db1 v e in
              let same : outcome ≡ kept postponed = ground arith in
              let left : s'.db ≡ db1 = ground arith in rw (same, left) after
        ]

module _ {W : Type 0} (service : Service W) where
  reconcile_item-IsReported :
      (id : String) (action : Reconcile) (decision : Json) (sha updated actor : String)
      (s s' : Stage W) (outcome : Outcome)
      → reconcile_item service id action decision sha updated actor s ≡ (ok outcome, s')
      → (item : Item) × (find_where (has_id id) (service.wait s).db.items ≡ some item)
        × (item.status ≡ review_side_effect_started)
        × IsReported outcome id s'.db
  unfolding reconcile_item now
  reconcile_item-IsReported id action decision sha updated actor s s' outcome h =
      elim (Act-cases (require_item service id s)) [
        | inr (x, s1, e) ↦ absurd (ground arith)
        | inl (item, s1, e) ↦
            let (valid, found) = require_item_found service id s s1 item e in
            elim (Bool-cases (status_eq item.status review_side_effect_started)) [
              | inr other ↦ absurd (ground arith)
              | inl started ↦ (
                item,
                found,
                status_of_eq item.status review_side_effect_started started,
                reconcile_action-IsReported service id (service.iso_now s1.world).0 sha updated
                    actor item action decision (record s1 { world = (service.iso_now s1.world).1 })
                    s' outcome (ground arith),
              )
            ]
      ]

  -- A reconciliation that returns was of an item whose side effect had started, and what it reports
  -- is what the table then holds: of an approved item there is no row, and else the row has the
  -- reported status.
  pub reconcile-IsReported :
      (id : String) (body : Fields) (actor : AdminActor) (s s' : Stage W) (action : Reconcile)
      (outcome : Outcome)
      → reconcile service id body actor s ≡ (ok (action, outcome), s')
      → (item : Item) × (find_where (has_id id) (service.wait s).db.items ≡ some item)
        × (item.status ≡ review_side_effect_started)
        × IsReported outcome id s'.db
  unfolding reconcile
  reconcile-IsReported id body actor s s' action outcome h =
      let decision = or_null (lookup_field "decision" body) in
      elim (Result-cases (reconcile_action (lookup_field "action" body))) [
        | inr (x, e) ↦ absurd (ground arith)
        | inl (a, e) ↦ elim (Result-cases (required (lookup_field "expected_sha256" body))) [
          | inr (x, f) ↦ absurd (ground arith)
          | inl (sha, f) ↦
              elim (Result-cases (required (lookup_field "expected_updated_at" body))) [
                | inr (x, g) ↦ absurd (ground arith)
                | inl (updated, g) ↦
                    elim (Act-cases
                      (reconcile_item service id a decision sha updated (label actor) s)) [
                        | inr (x, s1, q) ↦ absurd (ground arith)
                        | inl (o, s1, q) ↦
                            reconcile_item-IsReported id a decision sha updated (label actor) s s'
                              outcome (ground arith)
                      ]
              ]
        ]
      ]
