-- ===== src/RateLimit/Windows.antt =====
-- `_PostgresSession.consume_many_distinct` and its steps (memory_router/rate_limit.py). The advisory
-- locks of `_lock_scopes` order the transactions and have no other effect here.
use hindsight_memory_router.RateLimit.{
  Bucket, Distinct, Event, Identity, Tables, rate_limited, is_stale, check_buckets, insert_buckets,
}
use hindsight_memory_router.Common.{
  ℕ, String, Bool, true, false, Option, none, some, List, [], ◌∷◌, ◌==◌, ◌+◌, leb, ltb, not, ◌&&◌,
  if◌then◌else◌, Result, ok, err, and_then, bit, is_some, max, text_le, member,
}
use hindsight_memory_router.Common.Table.{
  count_where, find_where, update_where, delete_where, select_where,
}

-- the row of `quarantine_rate_limit_state` with the tables, and the fields of a session
pub record Session : Type 0 where
  pub tables : Tables
  pub max_window_ms : Option ℕ
  pub global_sweep : Bool
  pub max_window_cache : Option ℕ
  pub observed_max_window : Option ℕ

abbrev pub is_active_bucket : Bucket → Bool
is_active_bucket b = ltb 0 b.maximum && ltb 0 b.window_ms

abbrev pub is_active_identity : Distinct → Bool
is_active_identity d = ltb 0 d.maximum && ltb 0 d.window_ms

-- a value of the dict under its key, in the order of the keys; a later one replaces an earlier one
unfoldable pub put_bucket : Bucket → List Bucket → List Bucket
put_bucket b [] = b ∷ []
put_bucket b (c ∷ cs) =
    let rest = put_bucket b cs in
    if b.key == c.key then b ∷ cs else if text_le b.key c.key then b ∷ c ∷ cs else c ∷ rest

unfoldable pub put_buckets : List Bucket → List Bucket → List Bucket
put_buckets [] kept = kept
put_buckets (b ∷ bs) kept = put_buckets bs (if is_active_bucket b then put_bucket b kept else kept)

-- _normalize_buckets
unfoldable pub normalize_buckets : List Bucket → List Bucket
normalize_buckets buckets = put_buckets buckets []

abbrev pub same_identity : Distinct → Distinct → Bool
same_identity d e = (d.scope == e.scope) && (d.identity == e.identity)

-- (scope, identity) in the order of tuples
abbrev pub identity_le : Distinct → Distinct → Bool
identity_le d e =
    if d.scope == e.scope then text_le d.identity e.identity else text_le d.scope e.scope

unfoldable pub put_identity : Distinct → List Distinct → List Distinct
put_identity d [] = d ∷ []
put_identity d (e ∷ es) =
    let rest = put_identity d es in
    if same_identity d e then d ∷ es else if identity_le d e then d ∷ e ∷ es else e ∷ rest

unfoldable pub put_identities : List Distinct → List Distinct → List Distinct
put_identities [] kept = kept
put_identities (d ∷ ds) kept =
    put_identities ds (if is_active_identity d then put_identity d kept else kept)

-- _normalize_identities
unfoldable pub normalize_identities : List Distinct → List Distinct
normalize_identities identities = put_identities identities []

-- max(windows), of a list that is not empty
unfoldable pub max_window : List Bucket → List Distinct → ℕ
max_window [] [] = 0
max_window [] (d ∷ ds) = max d.window_ms (max_window [] ds)
max_window (b ∷ bs) ds = max b.window_ms (max_window bs ds)

abbrev pub or_zero : Option ℕ → ℕ
or_zero none = 0
or_zero (some n) = n

-- the part of `_record_max_window` that reads and raises the row
abbrev pub raise_max_window : ℕ → Session → Session
raise_max_window window s = record s {
  max_window_ms =
      if ltb (or_zero s.max_window_ms) window
      then some (max (or_zero s.max_window_ms) window)
      else s.max_window_ms;
  observed_max_window = some (max (or_zero s.max_window_ms) window);
}

-- _record_max_window
unfoldable pub record_max_window : ℕ → Session → Session
record_max_window window s = elim s.max_window_cache [
  | none ↦ if s.global_sweep then raise_max_window window s else s
  | some cached ↦
      if leb window cached
      then record s { observed_max_window = some cached }
      else raise_max_window window s
]

-- the two DELETEs of `_global_sweep`
abbrev pub sweep_tables : ℕ → ℕ → Tables → Tables
sweep_tables now window t = record {
  events = delete_where (λ (e : Event). is_stale now window e.occurred_at_ms) t.events;
  identities = delete_where (λ (i : Identity). is_stale now window i.occurred_at_ms) t.identities;
}

-- _global_sweep
unfoldable pub sweep_globally : ℕ → Session → Session
sweep_globally now s =
    let window = or_zero s.max_window_ms in
    let s' = record s { observed_max_window = some (max (or_zero s.observed_max_window) window) } in
    if leb window 0 then s' else record s' { tables = sweep_tables now window s.tables }

abbrev pub in_scope : String → Identity → Bool
in_scope scope i = i.scope == scope

abbrev pub is_identity : String → String → Identity → Bool
is_identity scope identity i = in_scope scope i && (i.identity == identity)

-- how many of the identities the table has
unfoldable pub existing : String → List Distinct → List Identity → ℕ
existing scope [] rows = 0
existing scope (d ∷ ds) rows =
    bit (is_some (find_where (is_identity scope d.identity) rows)) + existing scope ds rows

-- len({identity ...})
unfoldable pub count_distinct : List Distinct → ℕ
count_distinct [] = 0
count_distinct (d ∷ ds) =
    bit (not (is_some (find_where (λ (e : Distinct). e.identity == d.identity) ds)))
    + count_distinct ds

-- `_check_distinct_scope` on the values of one scope; `count + additions > maximum` with
-- `additions = distinct - existing` is written without the difference
unfoldable pub check_distinct_scope :
    String → List Distinct → ℕ → List Identity → Result (List Identity)
check_distinct_scope scope [] now rows = ok rows
check_distinct_scope scope (d ∷ ds) now rows =
    let kept =
      delete_where (λ (i : Identity). in_scope scope i && is_stale now d.window_ms i.occurred_at_ms)
        rows in
    if ltb (d.maximum + existing scope (d ∷ ds) kept)
      (count_where (in_scope scope) kept + count_distinct (d ∷ ds))
    then err rate_limited
    else ok kept

-- the scopes of `by_scope`, each once, in the order in which they come
unfoldable pub scopes : List String → List Distinct → List String
scopes seen [] = []
scopes seen (d ∷ ds) =
    let rest = scopes (d.scope ∷ seen) ds in if member d.scope seen then rest else d.scope ∷ rest

unfoldable pub check_scopes :
    List String → List Distinct → ℕ → List Identity → Result (List Identity)
check_scopes [] identities now rows = ok rows
check_scopes (scope ∷ rest) identities now rows =
    and_then
      (check_distinct_scope scope (select_where (λ (d : Distinct). d.scope == scope) identities) now
        rows)
      (check_scopes rest identities now)

-- INSERT ... ON CONFLICT(scope,identity) DO UPDATE
unfoldable pub upsert_identity : ℕ → Distinct → List Identity → List Identity
upsert_identity now d rows =
    if is_some (find_where (is_identity d.scope d.identity) rows)
    then update_where (is_identity d.scope d.identity)
        (λ (i : Identity). record i { occurred_at_ms = now }) rows
    else record { scope = d.scope; identity = d.identity; occurred_at_ms = now } ∷ rows

unfoldable pub upsert_identities : ℕ → List Distinct → List Identity → List Identity
upsert_identities now [] rows = rows
upsert_identities now (d ∷ ds) rows = upsert_identities now ds (upsert_identity now d rows)

-- consume_many_distinct from the normalized lists on
unfoldable pub consume_normalized : List Bucket → List Distinct → ℕ → Session → Result Session
consume_normalized buckets identities now s =
    let s1 = record_max_window (max_window buckets identities) s in
    let s2 = if s1.global_sweep then sweep_globally now s1 else s1 in
    and_then (check_buckets buckets now s2.tables.events) (λ events.
      and_then (check_scopes (scopes [] identities) identities now s2.tables.identities) (λ rows.
        ok record s2 {
          tables = record {
            events = insert_buckets buckets now events;
            identities = upsert_identities now identities rows;
          };
        }))

abbrev pub nothing_to_consume : List Bucket → List Distinct → Bool
nothing_to_consume [] [] = true
nothing_to_consume _ _ = false

-- `now` is `at_ms`, or the clock of the database
unfoldable pub consume_many_distinct : List Bucket → List Distinct → ℕ → Session → Result Session
consume_many_distinct buckets identities now s =
    if nothing_to_consume (normalize_buckets buckets) (normalize_identities identities)
    then ok s
    else consume_normalized (normalize_buckets buckets) (normalize_identities identities) now s
