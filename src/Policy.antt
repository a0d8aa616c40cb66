-- ===== src/Policy.antt =====
-- What a request may retain and recall (memory_router/policy.py).
-- Scans, the quarantine store, the rate limits and the memory service are an environment over a
-- state `W`: each takes the state and returns a result, or a raise, with the next one. The dict of
-- review states and the set of invalidated identities, which the methods share and mutate, are the
-- fields `states` and `dirty` of a scene, and outlive a raise. Logging is left out.
mod Values
pub mod Recall
pub mod Retain
mod Tests
pub use Values.*
pub use hindsight_memory_router.Common.Action.{Call, ◌>>=◌, ◌>>◌, pure, raise, lift, catch}
pub use hindsight_memory_router.Json.{canonical_json}
unfoldable pub use Values.{
  lookup_field, put_field, string_projection, projected_entries, projected_values, or_null,
  insert_sorted, sorted, joined, update_fields,
}
use hindsight_memory_router.Json.{Json, Items, Fields, string, object, field, end, rfc8785_safe}
use hindsight_memory_router.Common.{
  ℕ, String, Bool, true, false, Option, none, some, List, [], ◌∷◌, ◌==◌, nat_eq, not, ◌&&◌, ◌||◌,
  if◌then◌else◌, Error, http_error, gateway_error, value_error, runtime_error, Result, ok, err,
  and_then, opt_eq,
}
use hindsight_memory_router.Quarantine.{Status, Kind, Item, Db}

-- SafetyFinding and SafetyResult (security_models.py), by what the policy reads
pub record Finding : Type 0 where
  pub matched : String
  pub reason : String
  pub detector : Option String

pub record Scan : Type 0 where
  pub findings : List Finding
  pub transformations : List String

-- SafetyResult.safe
abbrev pub no_findings : List Finding → Bool
no_findings [] = true
no_findings (f ∷ fs) = false

abbrev pub is_safe : Scan → Bool
is_safe scan = no_findings scan.findings

-- MemoryReviewState and MemoryIdentity (repository.py)
pub record ReviewState : Type 0 where
  pub status : Status
  pub source_content_sha256 : Option String

abbrev pub Identity : Type 0
Identity = String × String

abbrev pub same : Identity → Identity → Bool
same (a, b) (c, d) = (a == c) && (b == d)

abbrev pub States : Type 0
States = List (Identity × ReviewState)

-- dict.get
unfoldable pub state_of : Identity → States → Option ReviewState
state_of i [] = none
state_of i ((j, s) ∷ states) = let rest = state_of i states in if same j i then some s else rest

unfoldable pub forget : Identity → States → States
forget i [] = []
forget i ((j, s) ∷ states) = let rest = forget i states in if same j i then rest else (j, s) ∷ rest

unfoldable pub contains : Identity → List Identity → Bool
contains i [] = false
contains i (j ∷ js) = same j i || contains i js

unfoldable pub discard : Identity → List Identity → List Identity
discard i [] = []
discard i (j ∷ js) = let rest = discard i js in if same j i then rest else j ∷ rest

-- whether a row of `quarantine_items` has one of the identities, and which
unfoldable pub row_identity : List Identity → Item → Option Identity
row_identity [] item = none
row_identity ((bank, memory) ∷ keys) item =
    let rest = row_identity keys item in
    if opt_eq item.source_bank (some bank) && opt_eq item.source_memory_id (some memory)
    then some (bank, memory)
    else rest

-- QuarantineRepository.find_memory_review_states: a later row replaces an earlier one
unfoldable pub review_states : List Identity → List Item → States → States
review_states keys [] states = states
review_states keys (item ∷ items) states = review_states keys items (elim (row_identity keys item) [
  | none ↦ states
  | some i ↦
      (i, record { status = item.status; source_content_sha256 = item.source_content_sha256 })
      ∷ states
])

-- the dict that `store.put` is given
pub record Input : Type 0 where
  pub writer_id : Option String
  pub source : String
  pub kind : Kind
  pub reason : String
  pub bank_id : Option String
  pub source_bank : Option String
  pub source_memory_id : Option String
  pub source_content_sha256 : Option String
  pub dedupe_key : Option String
  pub payload : Json

-- what a bank answers: its results, and the maps that `RecallResponse` declares
pub record Response : Type 0 where
  pub results : List Fields
  pub maps : List (String × Json)

pub record Env (W : Type 0) : Type 0 where
  pub dumps : Json → Result String
  pub sha256_hex : String → String
  pub repr : Json → String
  pub scan_recalled : Json → Bool → Call W Scan
  pub scan_aggregate : Json → List ℕ → Call W Scan
  pub scan_request : Json → Call W Scan
  pub scan_response : Json → Call W Scan
  pub put : Input → Call W String
  pub table : W → List Item
  pub consume_recall : String → Call W (Unit {0})
  pub consume_retain : String → Call W (Unit {0})
  pub recall : String → Json → Call W Response
  pub retain : String → Json → Call W Json

pub record Scene (W : Type 0) : Type 0 where
  pub world : W
  pub states : States
  pub dirty : List Identity

abbrev pub Act : Type 0 → Type 0 → Type 0
Act W A = Call (Scene W) A

-- a call of the environment
abbrev pub call : {W A : Type 0} → Call W A → Act W A
call c s = let (r, w) = c s.world in (r, record s { world = w })

-- `_QUARANTINE_ERRORS` and `_quarantine_unavailable` of a `HttpError`
abbrev pub expected_status : String → Option ℕ
expected_status code =
    if (code == "quarantine_capacity_exceeded")
      || (code == "quarantine_writer_capacity_exceeded")
      || (code == "quarantine_security_event_capacity_exceeded")
    then some 507
    else if code == "quarantine_rate_limited"
    then some 429
    else if code == "quarantine_item_too_large"
    then some 413
    else if (code == "quarantine_request_in_review")
        || (code == "quarantine_item_in_review")
        || (code == "quarantine_write_stale")
    then some 409
    else none

abbrev pub is_expected : Option ℕ → ℕ → Bool
is_expected none status = false
is_expected (some n) status = nat_eq n status

-- a gateway error has a status and a code of its own, which are in neither list
abbrev pub quarantine_unavailable : Error → Bool
quarantine_unavailable (http_error status code) =
    nat_eq status 507 || nat_eq status 429 || is_expected (expected_status code) status
quarantine_unavailable (gateway_error kind upstream status) = nat_eq status 507 || nat_eq status 429
quarantine_unavailable _ = false

abbrev pub is_too_large : Error → Bool
is_too_large (http_error status code) = nat_eq status 413 && (code == "quarantine_item_too_large")
is_too_large _ = false

module _ {W : Type 0} (env : Env W) where
  -- recalled_content_digest
  unfoldable pub recalled_content_digest : Fields → Result String
  recalled_content_digest result =
      and_then
        (canonical_json env.dumps (
          object (
            field "id" (string_projection (or_null (lookup_field "id" result)))
              (field "text" (string_projection (or_null (lookup_field "text" result))) end))))
        (λ t. ok (env.sha256_hex t))

  -- _audit_digest
  unfoldable pub audit_digest : Json → String
  audit_digest v = elim (canonical_json env.dumps v) [
    | ok t ↦ env.sha256_hex t
    | err e ↦ env.sha256_hex (env.repr v)
  ]

  -- str(result["id"])
  abbrev pub id_of : Fields → Result String
  id_of result = elim (lookup_field "id" result) [
    | none ↦ err (runtime_error "KeyError")
    | some v ↦ ok (text_of env.repr v)
  ]
