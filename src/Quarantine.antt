-- ===== src/Quarantine.antt =====
-- The tables of the quarantine and its transactions (memory_router/repository.py, db.py's schema).
-- A row's envelope is the text that `json.dumps` made of it; `encrypted_bytes` is its length in
-- UTF-8. Times are the ISO texts that `iso_now` writes, compared as texts. The events stand with the
-- newest first; their random `event_id` is left out.
use hindsight_memory_router.Common.{
  arith, ◌≡◌, ℕ, String, Bool, true, false, Option, none, some, List, ◌∷◌, ◌==◌, ◌++◌, [], nat_eq,
  text_le, ◌&&◌, Error, Result, ok, err,
}
use hindsight_memory_router.Common.Table.{find_where, update_where, delete_where}

pub data Status : Type 0 where
  pending postponed review_in_progress review_side_effect_started : Status
  review_side_effect_completed reviewed_allowed reviewed_blocked : Status

pub data Kind : Type 0 where
  retain_request recall_request recalled_memory security_event : Kind

abbrev pub status_rank : Status → ℕ
status_rank pending = 0
status_rank postponed = 1
status_rank review_in_progress = 2
status_rank review_side_effect_started = 3
status_rank review_side_effect_completed = 4
status_rank reviewed_allowed = 5
status_rank reviewed_blocked = 6

abbrev pub kind_rank : Kind → ℕ
kind_rank retain_request = 0
kind_rank recall_request = 1
kind_rank recalled_memory = 2
kind_rank security_event = 3

abbrev pub status_eq : Status → Status → Bool
status_eq a b = nat_eq (status_rank a) (status_rank b)

abbrev pub kind_eq : Kind → Kind → Bool
kind_eq a b = nat_eq (kind_rank a) (kind_rank b)

-- status in REVIEWABLE_STATUSES
abbrev pub reviewable : Status → Bool
reviewable pending = true
reviewable postponed = true
reviewable _ = false

-- status in IN_REVIEW_STATUSES
abbrev pub in_review : Status → Bool
in_review review_in_progress = true
in_review review_side_effect_started = true
in_review review_side_effect_completed = true
in_review _ = false

-- status in FINAL_STATUSES
abbrev pub final : Status → Bool
final reviewed_allowed = true
final reviewed_blocked = true
final _ = false

-- a row of `quarantine_items`
pub record Item : Type 0 where
  pub quarantine_id : String
  pub created_at : String
  pub updated_at : String
  pub kind : Kind
  pub reason : String
  pub writer_id : Option String
  pub source : Option String
  pub source_bank : Option String
  pub source_memory_id : Option String
  pub source_content_sha256 : Option String
  pub dedupe_key : Option String
  pub bank_id : Option String
  pub sha256 : String
  pub envelope : Option String
  pub encrypted_bytes : ℕ
  pub status : Status
  pub postpone_count : ℕ
  pub requarantine_count : ℕ
  pub expires_at : Option String

-- one entry of an event's JSON details
pub data Detail : Type 0 where
  text : String → Detail
  optional : Option String → Detail
  number : ℕ → Detail
  flag : Bool → Detail

-- a row of `quarantine_events`
pub record Event : Type 0 where
  pub subject : String
  pub occurred_at : String
  pub event_type : String
  pub details : List (String × Detail)

pub record Db : Type 0 where
  pub items : List Item
  pub events : List Event

-- the work inside `async with db.transaction() as tx`: raising loses what was written
abbrev pub Tx {ℓ} : Type ℓ → Type ℓ
Tx A = Db → Result (A × Db)

-- a whole call of the repository: a raise comes back with the state that it leaves
abbrev pub Exec {ℓ} : Type ℓ → Type ℓ
Exec A = Db → Result A × Db

infixl 5 ◌>>=◌ ◌>>◌
abbrev pub ◌>>=◌ : {A B : Type 0} → Tx A → (A → Tx B) → Tx B
◌>>=◌ m f db = elim (m db) [ err e ↦ err e | ok (a, db') ↦ f a db' ]

abbrev pub ◌>>◌ : {B : Type 0} → Tx (Unit {0}) → Tx B → Tx B
m >> n = m >>= λ _. n

abbrev pub pure : {A : Type 0} → A → Tx A
pure a db = ok (a, db)

abbrev pub raise : {A : Type 0} → Error → Tx A
raise e db = err e

abbrev pub check : Result (Unit {0}) → Tx (Unit {0})
check (ok u) db = ok (tt, db)
check (err e) db = err e

-- commit on success, roll back on a raise
unfoldable pub transaction : {A : Type 0} → Tx A → Exec A
transaction m db = elim (m db) [ ok (a, db') ↦ (ok a, db') | err e ↦ (err e, db) ]

abbrev pub has_id : String → Item → Bool
has_id id item = item.quarantine_id == id

-- repository.get and the SELECTs by id, with `stored`
unfoldable pub select_item : String → Tx (Option Item)
select_item id db = ok (find_where (has_id id) db.items, db)

unfoldable pub update_item : String → (Item → Item) → Tx (Unit {0})
update_item id f db = ok (tt, record db { items = update_where (has_id id) f db.items })

unfoldable pub delete_item : String → Tx (Unit {0})
delete_item id db = ok (tt, record db { items = delete_where (has_id id) db.items })

-- payload["actor"] = actor
abbrev pub with_actor : List (String × Detail) → Option String → List (String × Detail)
with_actor details none = details
with_actor details (some actor) = details ++ (("actor", text actor) ∷ [])

abbrev pub event_of : String → String → String → List (String × Detail) → Option String → Event
event_of id type at details actor = record {
  subject = id;
  occurred_at = at;
  event_type = type;
  details = with_actor details actor;
}

unfoldable pub insert_event :
    String → String → String → List (String × Detail) → Option String → Tx (Unit {0})
insert_event id type at details actor db =
    ok (tt, record db { events = event_of id type at details actor ∷ db.events })

-- is_expired
abbrev pub is_expired : Item → String → Bool
is_expired item at = elim item.expires_at [ none ↦ false | some t ↦ text_le t at ]

-- _expired
abbrev pub expired : Item → String → Bool
expired item at = reviewable item.status && is_expired item at

pub status_of_eq : (a b : Status) → status_eq a b ≡ true → a ≡ b
status_of_eq a b h = ground arith

pub status_eq_self : (s : Status) → status_eq s s ≡ true
status_eq_self s = ground arith
