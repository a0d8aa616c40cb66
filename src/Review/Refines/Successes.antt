-- ===== src/Review/Refines/Successes.antt =====
-- What a successful review has done: the mutation ran on the reviewable, live row of the id.
use hindsight_memory_router.Review.Moves.{Moved-Steps}
use hindsight_memory_router.Common.{
  refl, if◌then◌else◌, none, true, false, Bool-cases, arith, inl, Option-cases, inr, some,
  Result-cases, ok, ◌≡◌, ℕ, Option, String,
}
use hindsight_memory_router.Review.Machine.Laws.{Steps-IsUnique}
use hindsight_memory_router.Review.Guards.{
  reset, restore_stale_claim, expire_stale_claim, assert_snapshot, claim_is_stale,
  recover_stale_for_action, assert_reviewable, mutate_transaction, mutate_review,
}
use hindsight_memory_router.Review.Refines.Mutations.{restore-Step, claim_is_stale-claimed, act}
use hindsight_memory_router.Quarantine.{
  status_of_eq, review_in_progress, is_expired, ◌>>=◌, reviewable, has_id, Db, Tx, transaction,
  Item, select_item,
}
use hindsight_memory_router.Common.Table.{find_where}
use hindsight_memory_router.Review.Machine.{IsUnique}

-- the item that a review of a row acts on: a stale claim is put back as postponed first, any other
-- row is taken as it is
abbrev pub after_recovery : (String → Option ℕ) → String → Option ℕ → Item → Item
after_recovery parse_iso at seconds old =
    if claim_is_stale parse_iso old at seconds then reset at old else old

pub record IsActedOn {T : Type 0} (parse_iso : String → Option ℕ) (id at : String)
    (seconds : Option ℕ) (mutation : Item → Tx T) (a : T) (db db' : Db) : Type 0 where
  pub old : Item
  pub old_found : find_where (has_id id) db.items ≡ some old
  pub item : Item
  pub item_is : item ≡ after_recovery parse_iso at seconds old
  pub before : Db
  pub unique : IsUnique before.items
  pub found : find_where (has_id id) before.items ≡ some item
  pub open_ : reviewable item.status ≡ true
  pub live : is_expired item at ≡ false
  pub done : mutation item before ≡ ok (a, db')

act_acted :
    {T : Type 0} (parse_iso : String → Option ℕ) (id at : String) (seconds : Option ℕ)
    (mutation : Item → Tx T) (old item : Item) (start db db' : Db) (a : T)
    → find_where (has_id id) start.items ≡ some old
    → item ≡ after_recovery parse_iso at seconds old
    → IsUnique db.items
    → find_where (has_id id) db.items ≡ some item
    → act at mutation (item, false) db ≡ ok (some a, db')
    → IsActedOn parse_iso id at seconds mutation a start db'
unfolding assert_reviewable
act_acted parse_iso id at seconds mutation old item start db db' a first same u found h =
    elim (Bool-cases (reviewable item.status)) [
      | inr bad ↦ absurd (ground arith)
      | inl fine ↦ elim (Bool-cases (is_expired item at)) [
        | inl late ↦ absurd (ground arith)
        | inr live ↦ elim (Result-cases (mutation item db)) [
          | inr (x, e) ↦ absurd (ground arith)
          | inl ((b, db1), e) ↦ record {
            old = old;
            old_found = first;
            item_is = same;
            item = item;
            before = db;
            unique = u;
            found = found;
            open_ = fine;
            live = live;
            done = ground arith;
          }
        ]
      ]
    ]

recovery_acted :
    {T : Type 0} (parse_iso : String → Option ℕ) (id at : String) (seconds : Option ℕ)
    (mutation : Item → Tx T) (item : Item) (db db' : Db) (a : T)
    → IsUnique db.items
    → find_where (has_id id) db.items ≡ some item
    → (recover_stale_for_action parse_iso item at seconds >>= act at mutation) db ≡ ok (some a, db')
    → IsActedOn parse_iso id at seconds mutation a db db'
unfolding recover_stale_for_action
recovery_acted parse_iso id at seconds mutation item db db' a u found h =
    elim (Bool-cases (claim_is_stale parse_iso item at seconds)) [
      | inr fresh ↦
          act_acted parse_iso id at seconds mutation item item db db db' a found (rw fresh refl) u
            found (ground arith)
      | inl old ↦
          let st : item.status ≡ review_in_progress =
            status_of_eq item.status review_in_progress
              (claim_is_stale-claimed parse_iso item at seconds old) in
          elim (Bool-cases (is_expired item at)) [
            | inl late ↦ elim (Result-cases (expire_stale_claim item at db)) [
              | inr (x, e) ↦ absurd (ground arith)
              | inl ((v, db1), e) ↦ absurd (ground arith)
            ]
            | inr live ↦ elim (Result-cases (restore_stale_claim item at db)) [
              | inr (x, e) ↦ absurd (ground arith)
              | inl ((v, db1), e) ↦
                  let (s, found') = restore-Step id at item db db1 v u found st e in
                  act_acted parse_iso id at seconds mutation item (reset at item) db db1 db' a found
                    (rw old refl) (Steps-IsUnique id (Moved-Steps _ id db db1 s) u) found'
                    (ground arith)
            ]
          ]
    ]

transaction_acted :
    {T : Type 0} (parse_iso : String → Option ℕ) (id at : String) (seconds : Option ℕ)
    (mutation : Item → Tx T) (sha updated : Option String) (db db' : Db) (a : T)
    → IsUnique db.items
    → mutate_transaction parse_iso id at seconds mutation sha updated db ≡ ok (some a, db')
    → IsActedOn parse_iso id at seconds mutation a db db'
unfolding mutate_transaction select_item
transaction_acted parse_iso id at seconds mutation sha updated db db' a u h =
    elim (Option-cases (find_where (has_id id) db.items)) [
      | inl missing ↦ absurd (ground arith)
      | inr (item, found) ↦ elim (Result-cases (assert_snapshot item sha updated)) [
        | inr (x, e) ↦ absurd (ground arith)
        | inl (v, e) ↦
            recovery_acted parse_iso id at seconds mutation item db db' a u found (ground arith)
      ]
    ]

pub mutate_review_acted :
    {T : Type 0} (parse_iso : String → Option ℕ) (id at : String) (seconds : Option ℕ)
    (mutation : Item → Tx T) (sha updated : Option String) (db db' : Db) (a : T)
    → IsUnique db.items
    → mutate_review parse_iso id at seconds mutation sha updated db ≡ (ok a, db')
    → IsActedOn parse_iso id at seconds mutation a db db'
unfolding mutate_review transaction
mutate_review_acted parse_iso id at seconds mutation sha updated db db' a u h =
    elim (Result-cases (mutate_transaction parse_iso id at seconds mutation sha updated db)) [
      | inr (x, e) ↦ absurd (ground arith)
      | inl ((none, d), e) ↦ absurd (ground arith)
      | inl ((some b, d), e) ↦
          transaction_acted parse_iso id at seconds mutation sha updated db db' a u (ground arith)
    ]
