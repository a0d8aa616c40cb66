-- ===== src/Review/Moves.antt =====
-- What one command may do to the row that it names: nothing, or the one move that is its own.
use hindsight_memory_router.Common.{
  ◌≡◌, refl, inl, inr, Result-cases, ℕ, ◌&&◌, String, Bool, true, false, Option, none, some, List,
  [], ◌∷◌, ok,
}
use hindsight_memory_router.Common.Table.{find_where}
use hindsight_memory_router.Quarantine.{
  Status, postponed, status_eq, Item, Event, Db, Tx, has_id, transaction, is_expired,
}
use hindsight_memory_router.Review.Guards.{claim_is_stale}
use hindsight_memory_router.Review.Machine.{
  IsLegal, may_leave, after_write, after_erase, Steps, here, next, write, erase,
}

-- the status of a row after a move, where `none` is that the row is gone
abbrev is_same : Option Status → Option Status → Bool
is_same none none = true
is_same (some s) (some t) = status_eq s t
is_same _ _ = false

-- a move from one of some statuses to the given one
abbrev pub from_to : (Status → Bool) → Option Status → Status → Option Status → Bool
from_to from to s t = from s && is_same t to

abbrev pub is : Status → Status → Bool
is s t = status_eq t s

-- The table is as it was, or its one row of the id has made an allowed move, which is a legal one.
pub data Moved (allowed : Status → Option Status → Bool) (id : String) (db db' : Db) : Type 0 where
  untouched : db' ≡ db → Moved allowed id db db'
  rewritten :
      (r : Item) (f : Item → Item) (es : List Event)
      → find_where (has_id id) db.items ≡ some r
      → ((i : Item) → (f i).quarantine_id ≡ i.quarantine_id)
      → IsLegal r (f r)
      → allowed r.status (some (f r).status) ≡ true
      → db' ≡ after_write id f es db
      → Moved allowed id db db'
  removed :
      (r : Item) (es : List Event)
      → find_where (has_id id) db.items ≡ some r
      → may_leave r.status ≡ true
      → allowed r.status none ≡ true
      → db' ≡ after_erase id es db
      → Moved allowed id db db'

-- A review that may first recover a stale claim. It makes the allowed move; or the claim was stale and
-- expired, and its row is removed and nothing else is done; or the claim was stale, its row is put back
-- as postponed, and the allowed move is made from there.
pub data Reviewed (parse_iso : String → Option ℕ) (at : String) (seconds : Option ℕ)
    (allowed : Status → Option Status → Bool) (id : String) (db db' : Db) : Type 0 where
  direct : Moved allowed id db db' → Reviewed parse_iso at seconds allowed id db db'
  expired_claim :
      (r : Item)
      → find_where (has_id id) db.items ≡ some r
      → claim_is_stale parse_iso r at seconds ≡ true
      → is_expired r at ≡ true
      → Moved (from_to (λ s. true) none) id db db'
      → Reviewed parse_iso at seconds allowed id db db'
  put_back :
      (r : Item) (mid : Db)
      → find_where (has_id id) db.items ≡ some r
      → claim_is_stale parse_iso r at seconds ≡ true
      → is_expired r at ≡ false
      → Moved (from_to (λ s. true) (some postponed)) id db mid
      → Moved allowed id mid db'
      → Reviewed parse_iso at seconds allowed id db db'

pub one_write :
    {allowed : Status → Option Status → Bool} (id : String) (db db' : Db) (r : Item)
    (f : Item → Item) (e : Event)
    → find_where (has_id id) db.items ≡ some r
    → ((i : Item) → (f i).quarantine_id ≡ i.quarantine_id)
    → IsLegal r (f r)
    → allowed r.status (some (f r).status) ≡ true
    → db' ≡ after_write id f (e ∷ []) db
    → Moved allowed id db db'
one_write id db db' r f e found k l m q = rewritten r f (e ∷ []) found k l m q

pub one_erase :
    {allowed : Status → Option Status → Bool} (id : String) (db db' : Db) (r : Item) (e : Event)
    → find_where (has_id id) db.items ≡ some r
    → may_leave r.status ≡ true
    → allowed r.status none ≡ true
    → db' ≡ after_erase id (e ∷ []) db
    → Moved allowed id db db'
one_erase id db db' r e found l m q = removed r (e ∷ []) found l m q

-- a transaction that raises leaves the state as it was
pub transaction_ends :
    {A : Type 0} (P : Db → Type 0) (m : Tx A) (db : Db)
    → P db
    → ((a : A) (db' : Db) → m db ≡ ok (a, db') → P db')
    → P (transaction m db).1
unfolding transaction
transaction_ends P m db kept h = elim (Result-cases (m db)) [
  | inl ((a, db'), e) ↦ rw (e, transaction) (h a db' e)
  | inr (x, e) ↦ rw (e, transaction) kept
]

pub transaction-Moved :
    {A : Type 0} {allowed : Status → Option Status → Bool} (id : String) (m : Tx A) (db : Db)
    → ((a : A) (db' : Db) → m db ≡ ok (a, db') → Moved allowed id db db')
    → Moved allowed id db (transaction m db).1
transaction-Moved {allowed} id m db h =
    transaction_ends (λ db'. Moved allowed id db db') m db (untouched refl) h

pub Moved-Steps :
    (allowed : Status → Option Status → Bool) (id : String) (db db' : Db)
    → Moved allowed id db db'
    → Steps id db db'
Moved-Steps allowed id db db' (untouched q) = rw q here
Moved-Steps allowed id db db' (rewritten r f es found k l m q) =
    next (write r f es found k l q) here
Moved-Steps allowed id db db' (removed r es found l m q) = next (erase r es found l q) here

pub Steps-append : (id : String) {a b c : Db} → Steps id a b → Steps id b c → Steps id a c
Steps-append id here t = t
Steps-append id (next s rest) t = next s (Steps-append id rest t)

pub Reviewed-Steps :
    (parse_iso : String → Option ℕ) (at : String) (seconds : Option ℕ)
    (allowed : Status → Option Status → Bool) (id : String) (db db' : Db)
    → Reviewed parse_iso at seconds allowed id db db'
    → Steps id db db'
Reviewed-Steps p at seconds allowed id db db' (direct m) = Moved-Steps allowed id db db' m
Reviewed-Steps p at seconds allowed id db db' (expired_claim r found old late m) =
    Moved-Steps (from_to (λ s. true) none) id db db' m
Reviewed-Steps p at seconds allowed id db db' (put_back r mid found old live m n) =
    Steps-append id (Moved-Steps (from_to (λ s. true) (some postponed)) id db mid m)
      (Moved-Steps allowed id mid db' n)
