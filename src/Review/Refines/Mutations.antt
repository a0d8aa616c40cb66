-- ===== src/Review/Refines/Mutations.antt =====
-- `_mutate_review` and the operations that go through it.
use hindsight_memory_router.Quarantine.{
  check, ◌>>◌, is_expired, status_of_eq, pure, status_eq, select_item, ◌>>=◌, reviewable, Tx, flag,
  text, event_of, review_in_progress, has_id, Db, insert_event, Item,
}
use hindsight_memory_router.Review.Guards.{
  assert_snapshot, claim_is_stale, mutate_transaction, report, mutate_review, assert_reviewable,
  recover_stale_for_action, reset, is_claim, expire_stale_claim, restore_stale_claim,
}
use hindsight_memory_router.Common.{
  Result-cases, Option-cases, inl, inr, err, Bool-cases, if◌then◌else◌, Bool, ℕ, false, Result,
  Option, refl, none, ◌∷◌, eq_iff, ok, some, arith, true, ◌≡◌, String,
}
use hindsight_memory_router.Review.Machine.{IsUnique}
use hindsight_memory_router.Review.Machine.Laws.{find-after_write}
use hindsight_memory_router.Review.Moves.{
  Moved, Reviewed, direct, expired_claim, put_back, untouched, from_to, one_write, one_erase,
  transaction_ends,
}
use hindsight_memory_router.Quarantine.{Status, postponed}
use mathlib.Core.List.{[]}
use Prim.Native.String.{[], String}
use hindsight_memory_router.Common.Table.Laws.{delete_where_agree, update_where_agree}
use hindsight_memory_router.Common.Table.{update_where, delete_where, find_where}
use hindsight_memory_router.Review.Refines.Lookups.{quarantine_id-find}

claim_is_own : (id : String) (i : Item) → is_claim id i ≡ true → has_id id i ≡ true
claim_is_own id i h = ground arith

-- a stale claim of the one row is put back, or removed, as a step of the machine
pub restore-Step :
    (id at : String) (r : Item) (db db' : Db) (a : Unit {0})
    → IsUnique db.items
    → find_where (has_id id) db.items ≡ some r
    → r.status ≡ review_in_progress
    → restore_stale_claim r at db ≡ ok (a, db')
    → Moved (from_to (λ s. true) (some postponed)) id db db'
      × (find_where (has_id id) db'.items ≡ some (reset at r))
unfolding restore_stale_claim insert_event
restore-Step id at r db db' a u found st h =
    let own : r.quarantine_id ≡ id = quarantine_id-find id db.items r found in
    let agree : update_where (is_claim id) (reset at) db.items
        ≡ update_where (has_id id) (reset at) db.items =
      update_where_agree (is_claim id) (has_id id) (claim_is_own id) (reset at) db.items r (u id)
        found (ground (arith, eq_iff r.quarantine_id id)) in
    let items : db'.items ≡ update_where (has_id id) (reset at) db.items = cc in
    (
      one_write id db db' r (reset at)
          (event_of id "review_interrupted" at
            (("outcome", text "postponed") ∷ ("recovered", flag true) ∷ []) none)
          found (λ i. refl) (ground arith) refl (ground arith),
      rw items (find-after_write id (reset at) db.items r (λ i. refl) found),
    )

expire-Step :
    (id at : String) (r : Item) (db db' : Db) (a : Unit {0})
    → IsUnique db.items
    → find_where (has_id id) db.items ≡ some r
    → r.status ≡ review_in_progress
    → expire_stale_claim r at db ≡ ok (a, db')
    → Moved (from_to (λ s. true) none) id db db'
unfolding expire_stale_claim insert_event
expire-Step id at r db db' a u found st h =
    let own : r.quarantine_id ≡ id = quarantine_id-find id db.items r found in
    let agree : delete_where (is_claim id) db.items ≡ delete_where (has_id id) db.items =
      delete_where_agree (is_claim id) (has_id id) (claim_is_own id) db.items r (u id) found
        (ground (arith, eq_iff r.quarantine_id id)) in
    one_erase id db db' r
      (event_of id "expired" at
        (("recovered", flag true) ∷ ("previous_status", text "review_in_progress") ∷ []) none)
      found (ground arith) refl (ground arith)

-- what `_mutate_review` hands to its mutation
abbrev pub Obeys : {T : Type 0} → (Status → Option Status → Bool) → String → (Item → Tx T) → Type 0
Obeys {T} allowed id mutation =
    (item : Item) (db db' : Db) (a : T)
    → find_where (has_id id) db.items ≡ some item
    → reviewable item.status ≡ true
    → mutation item db ≡ ok (a, db')
    → Moved allowed id db db'

-- the rest of the transaction, after the recovery
abbrev pub act : {T : Type 0} → String → (Item → Tx T) → Item × Bool → Tx (Option T)
act at mutation recovered = if recovered.1 then pure none else do
  check (assert_reviewable recovered.0 at)
  result ← mutation recovered.0
  pure (some result)

act-Moved :
    {T : Type 0} (allowed : Status → Option Status → Bool) (id at : String) (mutation : Item → Tx T)
    (item : Item) (db db' : Db) (o : Option T)
    → Obeys allowed id mutation
    → find_where (has_id id) db.items ≡ some item
    → act at mutation (item, false) db ≡ ok (o, db')
    → Moved allowed id db db'
unfolding assert_reviewable
act-Moved allowed id at mutation item db db' o obeys found h =
    elim (Bool-cases (reviewable item.status)) [
      | inr bad ↦ absurd (ground arith)
      | inl fine ↦ elim (Bool-cases (is_expired item at)) [
        | inl late ↦ absurd (ground arith)
        | inr live ↦ elim (Result-cases (mutation item db)) [
          | inr (x, e) ↦ absurd (ground arith)
          | inl ((a, db1), e) ↦
              let q : db' ≡ db1 = ground arith in rw q (obeys item db db1 a found fine e)
        ]
      ]
    ]

pub claim_is_stale-claimed :
    (parse_iso : String → Option ℕ) (item : Item) (at : String) (seconds : Option ℕ)
    → claim_is_stale parse_iso item at seconds ≡ true
    → status_eq item.status review_in_progress ≡ true
claim_is_stale-claimed parse_iso item at none h = cc
claim_is_stale-claimed parse_iso item at (some n) h = ground arith

report_state : {T : Type 0} (x : Result (Option T) × Db) → (report x).1 ≡ x.1
report_state (ok (some a), db) = refl
report_state (ok none, db) = refl
report_state (err e, db) = refl

-- the three outcomes of the recovery
recovery-Reviewed :
    {T : Type 0} (allowed : Status → Option Status → Bool) (parse_iso : String → Option ℕ)
    (id at : String) (seconds : Option ℕ) (mutation : Item → Tx T) (item : Item) (db db' : Db)
    (o : Option T)
    → Obeys allowed id mutation
    → IsUnique db.items
    → find_where (has_id id) db.items ≡ some item
    → (recover_stale_for_action parse_iso item at seconds >>= act at mutation) db ≡ ok (o, db')
    → Reviewed parse_iso at seconds allowed id db db'
unfolding recover_stale_for_action
recovery-Reviewed allowed parse_iso id at seconds mutation item db db' o obeys u found h =
    elim (Bool-cases (claim_is_stale parse_iso item at seconds)) [
      | inr fresh ↦
          direct (act-Moved allowed id at mutation item db db' o obeys found (ground arith))
      | inl old ↦
          let st : item.status ≡ review_in_progress =
            status_of_eq item.status review_in_progress
              (claim_is_stale-claimed parse_iso item at seconds old) in
          elim (Bool-cases (is_expired item at)) [
            | inl late ↦ elim (Result-cases (expire_stale_claim item at db)) [
              | inr (x, e) ↦ absurd (ground arith)
              | inl ((a, db1), e) ↦
                  let q : db' ≡ db1 = ground arith in
                  expired_claim item found old late
                    (rw q (expire-Step id at item db db1 a u found st e))
            ]
            | inr live ↦ elim (Result-cases (restore_stale_claim item at db)) [
              | inr (x, e) ↦ absurd (ground arith)
              | inl ((a, db1), e) ↦
                  let (s, found') = restore-Step id at item db db1 a u found st e in
                  put_back item db1 found old live s (
                    act-Moved allowed id at mutation (reset at item) db1 db' o obeys found'
                      (ground arith))
            ]
          ]
    ]

pub mutate_review-Reviewed :
    {T : Type 0} (allowed : Status → Option Status → Bool) (parse_iso : String → Option ℕ)
    (id at : String) (seconds : Option ℕ) (mutation : Item → Tx T) (sha updated : Option String)
    (db : Db)
    → Obeys allowed id mutation
    → IsUnique db.items
    → Reviewed parse_iso at seconds allowed id db
        (mutate_review parse_iso id at seconds mutation sha updated db).1
unfolding mutate_review mutate_transaction select_item
mutate_review-Reviewed allowed parse_iso id at seconds mutation sha updated db obeys u =
    rw report_state (
      transaction_ends (λ db'. Reviewed parse_iso at seconds allowed id db db') _ db
        (direct (untouched refl))
        λ o db' h. elim (Option-cases (find_where (has_id id) db.items)) [
          | inl missing ↦ absurd (ground arith)
          | inr (item, found) ↦ elim (Result-cases (assert_snapshot item sha updated)) [
            | inr (x, e) ↦ absurd (ground arith)
            | inl (v, e) ↦
                recovery-Reviewed allowed parse_iso id at seconds mutation item db db' o obeys u
                  found (ground arith)
          ]
        ])
