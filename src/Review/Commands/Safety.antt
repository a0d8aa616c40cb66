-- ===== src/Review/Commands/Safety.antt =====
-- What no schedule of review commands can break.
use hindsight_memory_router.Common.{
  refl, arith, inr, eq_iff, inl, ◌==◌, Bool-cases, true, some, ◌++◌, ◌≢◌, ◌≡◌, List, ℕ, Option,
  String, ◌∷◌,
}
use hindsight_memory_router.Review.Machine.Laws.{
  Steps-final, Steps-events, Steps-IsSettled, Steps-frame, Steps-IsUnique, IsSettled,
}
use mathlib.Core.List.{append_assoc, []}
use hindsight_memory_router.Quarantine.{final, has_id, Event}
use hindsight_memory_router.Review.Commands.{
  run-Steps, target, run, IsUnique, Item, Db, Command, run_all,
}
use hindsight_memory_router.Common.Table.{find_where}

pub run-IsUnique :
    (parse_iso : String → Option ℕ) (c : Command) (db : Db)
    → IsUnique db.items
    → IsUnique (run parse_iso c db).1.items
run-IsUnique p c db u = Steps-IsUnique (target c) (run-Steps p c db u) u

-- A command touches no item but the one that it names.
pub find-run_ne :
    (parse_iso : String → Option ℕ) (c : Command) (db : Db) (j : String)
    → IsUnique db.items
    → target c ≢ j
    → find_where (has_id j) (run parse_iso c db).1.items ≡ find_where (has_id j) db.items
find-run_ne p c db j u ne = Steps-frame (target c) j ne (run-Steps p c db u)

find-run-final :
    (parse_iso : String → Option ℕ) (c : Command) (db : Db) (id : String) (r : Item)
    → IsUnique db.items
    → find_where (has_id id) db.items ≡ some r
    → final r.status ≡ true
    → find_where (has_id id) (run parse_iso c db).1.items ≡ some r
find-run-final p c db id r u found fin = elim (Bool-cases (target c == id)) [
  | inl same ↦
      let e : target c ≡ id = (eq_iff (target c) id).0 same in
      let q : (run p c db).1 ≡ db =
        Steps-final (target c) r (rw e found) fin (run-Steps p c db u) in
      rw q found
  | inr other ↦
      let ne : target c ≢ id = λ e. ground (arith, eq_iff (target c) id) in
      rw (find-run_ne p c db id u ne) found
]

-- A final decision on an item stays: whatever commands follow, its row stays as it is.
pub find-run_all-final :
    (parse_iso : String → Option ℕ) (cs : List Command) (db : Db) (id : String) (r : Item)
    → IsUnique db.items
    → find_where (has_id id) db.items ≡ some r
    → final r.status ≡ true
    → find_where (has_id id) (run_all parse_iso cs db).items ≡ some r
unfolding run_all
find-run_all-final p [] db id r u found fin = found
find-run_all-final p (c ∷ cs) db id r u found fin =
    find-run_all-final p cs (run p c db).1 id r (run-IsUnique p c db u)
      (find-run-final p c db id r u found fin) fin

-- From a table where every final row has lost its payload, no schedule leaves a final row with one.
pub run_all-IsSettled :
    (parse_iso : String → Option ℕ) (cs : List Command) (db : Db)
    → IsUnique db.items
    → IsSettled db.items
    → IsSettled (run_all parse_iso cs db).items
unfolding run_all
run_all-IsSettled p [] db u s = s
run_all-IsSettled p (c ∷ cs) db u s =
    run_all-IsSettled p cs (run p c db).1 (run-IsUnique p c db u)
      (Steps-IsSettled (target c) (run-Steps p c db u) s)

-- The log of events only grows: every schedule adds its events in front of those that were there.
pub events-run_all :
    (parse_iso : String → Option ℕ) (cs : List Command) (db : Db)
    → IsUnique db.items
    → (es : List Event) × ((run_all parse_iso cs db).events ≡ es ++ db.events)
unfolding run_all
events-run_all p [] db u = ([], refl)
events-run_all p (c ∷ cs) db u =
    let (es, e) = Steps-events (target c) (run-Steps p c db u) in
    let (fs, f) = events-run_all p cs (run p c db).1 (run-IsUnique p c db u) in
    (fs ++ es, cc (e, f, append_assoc fs es db.events))
