-- ===== src/RateLimit.antt =====
-- The sliding windows and the leases (memory_router/rate_limit.py) over their tables.
-- One call is one transaction, which an advisory lock orders, so a raise rolls back. The clock of
-- the database is a parameter. Times and windows are numbers of milliseconds; where the source
-- compares `t <= now - window`, which may be negative, the model has `t + window <= now`.
mod Laws
mod Windows
mod Tests
use hindsight_memory_router.Common.{
  ℕ, String, Bool, true, false, Option, none, some, List, [], ◌∷◌, ◌++◌, ◌==◌, ◌+◌, ◌-◌, leb, ltb,
  not, ◌&&◌, ◌||◌, if◌then◌else◌, Error, http_error, runtime_error, Result, ok, err, raise_if,
  and_then, bit, is_some, map, max,
}
use hindsight_memory_router.Common.Table.{
  count_where, find_where, update_where, delete_where, select_where,
}

-- the named tuple `Bucket`
pub record Bucket : Type 0 where
  pub key : String
  pub maximum : ℕ
  pub window_ms : ℕ

-- the named tuple `Distinct`
pub record Distinct : Type 0 where
  pub scope : String
  pub identity : String
  pub maximum : ℕ
  pub window_ms : ℕ

-- a row of `quarantine_rate_limit_events`
pub record Event : Type 0 where
  pub bucket : String
  pub occurred_at_ms : ℕ

-- a row of `quarantine_rate_limit_identities`
pub record Identity : Type 0 where
  pub scope : String
  pub identity : String
  pub occurred_at_ms : ℕ

pub record Tables : Type 0 where
  pub events : List Event
  pub identities : List Identity

abbrev pub rate_limited : Error
rate_limited = http_error 429 "quarantine_rate_limited"

-- `t <= now - window`
abbrev pub is_stale : ℕ → ℕ → ℕ → Bool
is_stale now window t = leb (t + window) now

abbrev pub in_bucket : String → Event → Bool
in_bucket key e = e.bucket == key

-- the DELETE of `_check_buckets`, one bucket after another
unfoldable pub expire_buckets : List Bucket → ℕ → List Event → List Event
expire_buckets [] now events = events
expire_buckets (b ∷ bs) now events = expire_buckets bs now (
    delete_where (λ (e : Event). in_bucket b.key e && is_stale now b.window_ms e.occurred_at_ms)
      events)

unfoldable pub full : List Bucket → List Event → Bool
full [] events = false
full (b ∷ bs) events = leb b.maximum (count_where (in_bucket b.key) events) || full bs events

-- _check_buckets
unfoldable pub check_buckets : List Bucket → ℕ → List Event → Result (List Event)
check_buckets buckets now events =
    let kept = expire_buckets buckets now events in
    and_then (raise_if (full buckets kept) rate_limited) (λ _. ok kept)

-- _insert_buckets
unfoldable pub insert_buckets : List Bucket → ℕ → List Event → List Event
insert_buckets [] now events = events
insert_buckets (b ∷ bs) now events =
    record { bucket = b.key; occurred_at_ms = now } ∷ insert_buckets bs now events

-- a row of `principal_concurrency_leases`
pub record Lease : Type 0 where
  pub bucket : String
  pub lease_id : String
  pub expires_at_ms : ℕ

abbrev pub concurrency_limited : Error
concurrency_limited = http_error 429 "principal_concurrency_limited"

abbrev pub lease_lost : Error
lease_lost = runtime_error "principal concurrency lease was lost"

abbrev pub leased : String → Lease → Bool
leased bucket l = l.bucket == bucket

abbrev pub is_lease : String → String → Lease → Bool
is_lease bucket id l = leased bucket l && (l.lease_id == id)

abbrev pub lapsed : String → ℕ → Lease → Bool
lapsed bucket now l = leased bucket l && leb l.expires_at_ms now

-- _acquire, with `lease_ms`; the primary key of the INSERT is (bucket, lease_id)
unfoldable pub acquire : ℕ → String → String → ℕ → ℕ → List Lease → Result (List Lease)
acquire lease_ms bucket id maximum now leases =
    let kept = delete_where (lapsed bucket now) leases in
    if leb maximum (count_where (leased bucket) kept)
    then err concurrency_limited
    else if is_some (find_where (is_lease bucket id) kept)
    then err (runtime_error "duplicate key")
    else ok (record { bucket = bucket; lease_id = id; expires_at_ms = now + lease_ms } ∷ kept)

abbrev pub renewable : String → String → ℕ → Lease → Bool
renewable bucket id now l = is_lease bucket id l && ltb now l.expires_at_ms

abbrev pub renewed : ℕ → Lease → Lease
renewed expires l = record l { expires_at_ms = expires }

-- _refresh
unfoldable pub refresh_lease : ℕ → String → String → ℕ → List Lease → Result (List Lease)
refresh_lease lease_ms bucket id now leases =
    if is_some (find_where (renewable bucket id now) leases)
    then ok (update_where (renewable bucket id now) (renewed (now + lease_ms)) leases)
    else err lease_lost

-- _release
unfoldable pub release : String → String → List Lease → List Lease
release bucket id leases = delete_where (is_lease bucket id) leases
