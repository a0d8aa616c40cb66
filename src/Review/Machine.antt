-- ===== src/Review/Machine.antt =====
-- The state machine that the review promises: which moves a row may make, and what a move keeps.
-- A transition rewrites or removes the one row of an id and adds events to the log.
pub mod Laws
use hindsight_memory_router.Common.{
  ℕ, ◌≤◌, String, ◌≡◌, Bool, true, false, Option, none, some, List, ◌++◌,
}
use hindsight_memory_router.Common.Table.{count_where, find_where, update_where, delete_where}
use hindsight_memory_router.Quarantine.{
  Status, pending, postponed, review_in_progress, review_side_effect_started,
  review_side_effect_completed, reviewed_allowed, reviewed_blocked, final, Item, Event, Db, has_id,
}

-- From where to where a status may go.
abbrev pub may_move : Status → Status → Bool
may_move pending postponed = true
may_move pending review_in_progress = true
may_move pending review_side_effect_started = true
may_move pending reviewed_allowed = true
may_move pending reviewed_blocked = true
may_move postponed postponed = true
may_move postponed review_in_progress = true
may_move postponed review_side_effect_started = true
may_move postponed reviewed_allowed = true
may_move postponed reviewed_blocked = true
may_move review_in_progress pending = true
may_move review_in_progress postponed = true
may_move review_in_progress reviewed_allowed = true
may_move review_side_effect_started pending = true
may_move review_side_effect_started postponed = true
may_move review_side_effect_started review_side_effect_completed = true
may_move review_side_effect_completed reviewed_blocked = true
may_move _ _ = false

-- From where a row may be removed: a rejected or an expired item, and a completed approval.
abbrev pub may_leave : Status → Bool
may_leave pending = true
may_leave postponed = true
may_leave review_in_progress = true
may_leave review_side_effect_completed = true
may_leave _ = false

-- A final row has lost its payload; any other move keeps it.
abbrev pub PayloadFits : Bool → Item → Item → Type 0
PayloadFits true old new = (new.envelope ≡ none) × (new.encrypted_bytes ≡ 0)
PayloadFits false old new =
    (new.envelope ≡ old.envelope) × (new.encrypted_bytes ≡ old.encrypted_bytes)

pub record IsLegal (old new : Item) : Type 0 where
  pub moved : may_move old.status new.status ≡ true
  pub payload : PayloadFits (final new.status) old new
  pub sha256 : new.sha256 ≡ old.sha256
  pub kind : new.kind ≡ old.kind
  pub created_at : new.created_at ≡ old.created_at
  pub expires_at : new.expires_at ≡ old.expires_at

-- the primary key
abbrev pub IsUnique : List Item → Type 0
IsUnique items = (j : String) → count_where (has_id j) items ≤ 1

abbrev pub after_write : String → (Item → Item) → List Event → Db → Db
after_write id f es db = record {
  items = update_where (has_id id) f db.items;
  events = es ++ db.events;
}

abbrev pub after_erase : String → List Event → Db → Db
after_erase id es db = record {
  items = delete_where (has_id id) db.items;
  events = es ++ db.events;
}

pub data Step (id : String) (db db' : Db) : Type 0 where
  write :
      (r : Item) (f : Item → Item) (es : List Event)
      → find_where (has_id id) db.items ≡ some r
      → ((i : Item) → (f i).quarantine_id ≡ i.quarantine_id)
      → IsLegal r (f r)
      → db' ≡ after_write id f es db
      → Step id db db'
  erase :
      (r : Item) (es : List Event)
      → find_where (has_id id) db.items ≡ some r
      → may_leave r.status ≡ true
      → db' ≡ after_erase id es db
      → Step id db db'

pub data Steps (id : String) : Db → Db → Type 0 where
  here : {db : Db} → Steps id db db
  next : {db mid db' : Db} → Step id db mid → Steps id mid db' → Steps id db db'
