-- ===== src/Admission/Capacity.antt =====
-- `_assert_capacity` and what it counts (memory_router/repository.py).
use hindsight_memory_router.Common.{
  ltb, ok, nat_eq, ◌+◌, opt_eq, ◌-◌, leb, bit, ◌&&◌, not, and_then, raise_if, ◌||◌, is_some, ◌==◌,
  none, Result, false, List, http_error, if◌then◌else◌, Bool, some, Option, ℕ, Error, String,
}
use hindsight_memory_router.Common.Table.{sum_of, count_where}
use hindsight_memory_router.Quarantine.{
  is_expired, security_event, expired, kind_eq, reviewable, Item,
}
use Prim.Native.String.{len}

-- the dataclass `Capacity`
pub record Limits : Type 0 where
  pub max_pending_items : ℕ
  pub max_pending_items_per_writer : ℕ
  pub max_encrypted_bytes : ℕ
  pub max_pending_items_per_bank : ℕ

abbrev pub security_event_identity_limit : ℕ
security_event_identity_limit = 64

-- SQL's `=`, which no NULL meets
abbrev pub sql_eq : Option String → Option String → Bool
sql_eq (some s) (some t) = s == t
sql_eq _ _ = false

-- status IN ('pending','postponed') AND (expires_at IS NULL OR expires_at > at)
abbrev pub live_pending : String → Item → Bool
live_pending at i = reviewable i.status && not (is_expired i at)

-- the bytes of a row that count: those of an expired reviewable row do not
abbrev pub live_bytes : String → Item → ℕ
live_bytes at i = if expired i at then 0 else i.encrypted_bytes

abbrev pub is_security_event : Item → Bool
is_security_event i = kind_eq i.kind security_event

abbrev pub unknown_writer : Item → Bool
unknown_writer i = i.reason == "unknown_writer"

-- the WHERE clauses of `_scoped_pending_count`
unfoldable pub in_scope : Item → Item → Bool
in_scope item i =
    if unknown_writer item
    then unknown_writer i
    else if is_some item.writer_id
    then not (unknown_writer i) && sql_eq i.writer_id item.writer_id
    else not (unknown_writer i) && not (is_some i.writer_id) && kind_eq i.kind item.kind

-- _same_scope
unfoldable pub same_scope : Item → Item → Bool
same_scope left right =
    if unknown_writer left || unknown_writer right
    then unknown_writer left && unknown_writer right
    else if is_some left.writer_id || is_some right.writer_id
    then is_some left.writer_id && opt_eq left.writer_id right.writer_id
    else kind_eq left.kind right.kind

-- `existing_live`: the row that the write replaces, unless it has expired
abbrev pub if_live : String → Option Item → Option Item
if_live at none = none
if_live at (some e) = if expired e at then none else some e

abbrev pub holds : Option Item → (Item → Bool) → Bool
holds none test = false
holds (some e) test = test e

abbrev pub bytes_of : Option Item → ℕ
bytes_of none = 0
bytes_of (some e) = e.encrypted_bytes

abbrev pub capacity_exceeded : Error
capacity_exceeded = http_error 507 "quarantine_capacity_exceeded"

-- _assert_bank_capacity
unfoldable pub assert_bank_capacity :
    Item → Option Item → Limits → String → List Item → Result (Unit {0})
assert_bank_capacity item live limits at items =
    let counted = count_where (λ i. live_pending at i && sql_eq i.bank_id item.bank_id) items in
    let own = bit (holds live (λ e. reviewable e.status && opt_eq e.bank_id item.bank_id)) in
    if nat_eq limits.max_pending_items_per_bank 0 || not (is_some item.bank_id)
    then ok tt
    else raise_if (ltb limits.max_pending_items_per_bank (counted - own + 1))
        (http_error 507 "quarantine_bank_capacity_exceeded")

-- the last part of `_assert_capacity`: the writer's share
unfoldable pub assert_writer_capacity :
    Item → Option Item → Limits → String → List Item → Result (Unit {0})
assert_writer_capacity item live limits at items =
    let scoped = count_where (λ i. live_pending at i && in_scope item i) items in
    let own = bit (holds live (λ e. reviewable e.status && same_scope item e)) in
    if nat_eq limits.max_pending_items_per_writer 0
    then ok tt
    else raise_if (ltb limits.max_pending_items_per_writer (scoped - own + 1))
        (http_error 507 "quarantine_writer_capacity_exceeded")

-- _assert_security_event_capacity
unfoldable pub assert_security_event_capacity : Item → Option Item → List Item → Result (Unit {0})
assert_security_event_capacity item existing items =
    raise_if
      (is_security_event item
        && not (is_some existing)
        && leb security_event_identity_limit (count_where is_security_event items))
      (http_error 507 "quarantine_security_event_capacity_exceeded")

-- the totals of `_assert_capacity`; the row that is replaced was counted, so `-` does not stop at 0
unfoldable pub assert_totals :
    String → Option Item → Limits → String → List Item → Result (Unit {0})
assert_totals encrypted live limits at items =
    let next_pending =
      count_where (live_pending at) items - bit (holds live (λ e. reviewable e.status)) + 1 in
    let next_bytes = sum_of (live_bytes at) items - bytes_of live + len encrypted in
    raise_if
      (ltb limits.max_pending_items next_pending || ltb limits.max_encrypted_bytes next_bytes)
      capacity_exceeded

-- _assert_capacity
unfoldable pub assert_capacity :
    Item → String → Option Item → Limits → String → List Item → Result (Unit {0})
assert_capacity item encrypted existing limits at items =
    let live = if_live at existing in
    and_then (assert_security_event_capacity item existing items) λ _.
      and_then (assert_totals encrypted live limits at items) λ _.
        and_then (assert_bank_capacity item live limits at items)
          λ _. assert_writer_capacity item live limits at items
