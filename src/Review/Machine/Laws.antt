-- ===== src/Review/Machine/Laws.antt =====
-- What every sequence of the machine's transitions keeps.
use mathlib.Core.List.{append_assoc}
use hindsight_memory_router.Common.{
  inr, [], inl, ◌++◌, Bool-cases, refl, sym, String, ◌≡◌, ◌≢◌, true, false, none, some, List, ◌==◌,
  eq_iff, arith, ap, ◌∙◌,
}
use hindsight_memory_router.Common.Table.Laws.{
  find_where-delete_self, count_where-update_where, count_where-delete_where, find_where-update_ne,
  find_where-update_self, find_where-delete_ne,
}
use hindsight_memory_router.Quarantine.{Event, Status, final, Item, Db, has_id}
use hindsight_memory_router.Common.Table.{find_where, update_where}
use hindsight_memory_router.Review.Machine.{
  may_move, may_leave, IsLegal, IsUnique, Step, write, erase, Steps, here, next,
}

pub has_id_ne : {id j : String} → id ≢ j → (i : Item) → has_id id i ≡ true → has_id j i ≡ false
has_id_ne {id} {j} ne i h = ground (arith, eq_iff i.quarantine_id id, eq_iff i.quarantine_id j)

keeps_key :
    (f : Item → Item) (j : String)
    → ((i : Item) → (f i).quarantine_id ≡ i.quarantine_id)
    → (i : Item) → has_id j (f i) ≡ has_id j i
keeps_key f j k i = ap (λ q. q == j) (k i)

pub Step-IsUnique :
    (id : String) (db db' : Db) → Step id db db' → IsUnique db.items → IsUnique db'.items
Step-IsUnique id db db' (write r f es found k l e) u j =
    rw e (rw (count_where-update_where (has_id j) (has_id id) f db.items (keeps_key f j k)) (u j))
Step-IsUnique id db db' (erase r es found l e) u j =
    rw e (omega (arith, u j, count_where-delete_where (has_id j) (has_id id) db.items))

pub Steps-IsUnique :
    (id : String) {db db' : Db} → Steps id db db' → IsUnique db.items → IsUnique db'.items
Steps-IsUnique id here u = u
Steps-IsUnique id (next s rest) u = Steps-IsUnique id rest (Step-IsUnique id _ _ s u)

Step-frame :
    (id : String) (db db' : Db) (j : String)
    → id ≢ j
    → Step id db db'
    → find_where (has_id j) db'.items ≡ find_where (has_id j) db.items
Step-frame id db db' j ne (write r f es found k l e) =
    rw e (find_where-update_ne (has_id j) (has_id id) f db.items (has_id_ne ne) (keeps_key f j k))
Step-frame id db db' j ne (erase r es found l e) =
    rw e (find_where-delete_ne (has_id j) (has_id id) db.items (has_id_ne ne))

pub Steps-frame :
    (id j : String) {db db' : Db}
    → id ≢ j
    → Steps id db db'
    → find_where (has_id j) db'.items ≡ find_where (has_id j) db.items
Steps-frame id j ne here = refl
Steps-frame id j ne (next s rest) = Steps-frame id j ne rest ∙ Step-frame id _ _ j ne s

-- the row of the id after a write
pub find-after_write :
    (id : String) (f : Item → Item) (items : List Item) (r : Item)
    → ((i : Item) → (f i).quarantine_id ≡ i.quarantine_id)
    → find_where (has_id id) items ≡ some r
    → find_where (has_id id) (update_where (has_id id) f items) ≡ some (f r)
find-after_write id f items r k found =
    find_where-update_self (has_id id) (has_id id) f items r (keeps_key f id k) found (λ x h. h)

final_stays : (s t : Status) → final s ≡ true → may_move s t ≡ false
final_stays s t h = ground arith

final_remains : (s : Status) → final s ≡ true → may_leave s ≡ false
final_remains s h = ground arith

-- a row with a final status cannot move
Step-ne-final :
    (id : String) (db db' : Db) (r : Item)
    → find_where (has_id id) db.items ≡ some r
    → final r.status ≡ true
    → Step id db db'
    → ⊥
Step-ne-final id db db' r h fin (write r' f es found k l e) =
    ground (arith, l.moved, final_stays r.status (f r').status)
Step-ne-final id db db' r h fin (erase r' es found l e) = ground (arith, final_remains r.status)

pub Steps-final :
    (id : String) (r : Item) {db db' : Db}
    → find_where (has_id id) db.items ≡ some r
    → final r.status ≡ true
    → Steps id db db'
    → db' ≡ db
Steps-final id r h fin here = refl
Steps-final id r h fin (next s rest) = absurd (Step-ne-final id _ _ r h fin s)

-- a final row holds no payload
abbrev pub IsSettled : List Item → Type 0
IsSettled items =
    (j : String) (r : Item)
    → find_where (has_id j) items ≡ some r
    → final r.status ≡ true
    → (r.envelope ≡ none) × (r.encrypted_bytes ≡ 0)

Legal-payload :
    (r r' : Item)
    → IsLegal r r'
    → final r'.status ≡ true
    → (r'.envelope ≡ none) × (r'.encrypted_bytes ≡ 0)
Legal-payload r r' l fin = rw fin at l.payload

own_settled :
    (id : String) (db db' : Db) (r : Item)
    → Step id db db'
    → find_where (has_id id) db'.items ≡ some r
    → final r.status ≡ true
    → (r.envelope ≡ none) × (r.encrypted_bytes ≡ 0)
own_settled id db db' r (write r' f es found k l e) h fin =
    let same : some (f r') ≡ some r =
      sym (find-after_write id f db.items r' k found)
      ∙ sym (ap (λ (d : Db). find_where (has_id id) d.items) e)
      ∙ h in
    let same' : f r' ≡ r = cc in rw (← same') (Legal-payload r' (f r') l (rw same' fin))
own_settled id db db' r (erase r' es found l e) h fin =
    let gone : find_where (has_id id) db'.items ≡ none =
      rw e (find_where-delete_self (has_id id) (has_id id) db.items (λ x p. p)) in
    cc

Step-IsSettled :
    (id : String) (db db' : Db) → Step id db db' → IsSettled db.items → IsSettled db'.items
Step-IsSettled id db db' s inv j r h fin = elim (Bool-cases (id == j)) [
  | inl same ↦ let e : id ≡ j = (eq_iff id j).0 same in own_settled id db db' r s (rw e h) fin
  | inr other ↦
      let ne : id ≢ j = λ e. ground (arith, eq_iff id j) in
      inv j r (sym (Step-frame id db db' j ne s) ∙ h) fin
]

pub Steps-IsSettled :
    (id : String) {db db' : Db} → Steps id db db' → IsSettled db.items → IsSettled db'.items
Steps-IsSettled id here inv = inv
Steps-IsSettled id (next s rest) inv = Steps-IsSettled id rest (Step-IsSettled id _ _ s inv)

-- the log only grows
Step-events :
    (id : String) (db db' : Db)
    → Step id db db'
    → (es : List Event) × (db'.events ≡ es ++ db.events)
Step-events id db db' (write r f es found k l e) = (es, ap (λ (d : Db). d.events) e)
Step-events id db db' (erase r es found l e) = (es, ap (λ (d : Db). d.events) e)

pub Steps-events :
    (id : String) {db db' : Db}
    → Steps id db db'
    → (es : List Event) × (db'.events ≡ es ++ db.events)
Steps-events id here = ([], refl)
Steps-events id (next s rest) =
    let (es, p) = Step-events id _ _ s in
    let (fs, q) = Steps-events id rest in (fs ++ es, cc (q, p, append_assoc fs es _))
