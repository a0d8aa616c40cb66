-- ===== src/Administration.antt =====
-- The service behind the review (memory_router/admin.py): what it checks and what it calls.
-- A stage is the tables and the rest of the world. `wait` stands for what other requests do before a
-- transaction of this one begins, and each call of the environment may change the tables too. Logging
-- is left out.
pub mod Approval
pub mod Decisions
mod Laws
mod Verification
mod Target
mod Reconciliation
mod Tests
use hindsight_memory_router.Review.Actions.{interrupt_review}
use hindsight_memory_router.Json.{Json, Fields, null, string}
use hindsight_memory_router.Common.{
  ℕ, String, Bool, true, false, Option, none, some, List, [], ◌∷◌, ◌==◌, leb, ltb, not, ◌&&◌,
  opt_eq, if◌then◌else◌, Error, http_error, gateway_error, value_error, runtime_error, GatewayKind,
  timeout, http, invalid_response, network, response_too_large, unsafe_response,
  response_scan_unavailable, Result, ok, err, and_then, raise_if,
}
use hindsight_memory_router.Common.Action.{Call, ◌>>=◌, ◌>>◌, pure, raise, lift, catch}
use hindsight_memory_router.Quarantine.{
  Status, Item, Db, Exec, transaction, select_item, is_expired, reviewable, status_eq,
}
use hindsight_memory_router.Policy.{Scan, lookup_field}
use hindsight_memory_router.Policy.Retain.{RetainBody}
use hindsight_memory_router.Principals.{PrincipalRegistry}
use hindsight_memory_router.Envelope.{is_quarantine_id}

pub record Stage (W : Type 0) : Type 0 where
  pub db : Db
  pub world : W

abbrev pub Act : Type 0 → Type 0 → Type 0
Act W A = Call (Stage W) A

-- QuarantineAdminService, with the functions of the other modules that it calls. `write_banks` has
-- the write bank of each registered writer.
pub record Service (W : Type 0) : Type 0 where
  pub wait : Stage W → Stage W
  pub iso_now : W → String × W
  pub parse_iso : String → Option ℕ
  pub dumps : Json → Result String
  pub sha256_hex : String → String
  pub parse_retain_body : Json → Result RetainBody
  pub scan_request : RetainBody → String → Act W Scan
  pub assert_retain_bounds : RetainBody → Result (Unit {0})
  pub consume_retain : String → Act W (Unit {0})
  pub retain : String → Json → Act W Json
  pub invalidate_memory : String → String → String → Act W Json
  pub write_banks : List (String × String)
  pub principal_resolver : Option PrincipalRegistry
  pub max_postpones : ℕ
  pub review_stale_seconds : ℕ

-- AdminActor
pub record AdminActor : Type 0 where
  pub token_scope : Option String
  pub principal : Option String

-- `value or other`
abbrev pub or_else : Option String → String → String
or_else none other = other
or_else (some t) other = if t == "" then other else t

-- AdminActor.label
abbrev pub label : AdminActor → String
label actor = or_else actor.principal (or_else actor.token_scope "unknown")

abbrev pub conflict : String → Error
conflict code = http_error 409 code

-- _side_effect_definitely_failed
abbrev pub is_client_error : Option ℕ → Bool
is_client_error none = false
is_client_error (some status) = leb 400 status && ltb status 500

unfoldable pub side_effect_definitely_failed : Error → Bool
side_effect_definitely_failed (gateway_error http upstream status) = is_client_error upstream
side_effect_definitely_failed (gateway_error kind upstream status) = false
side_effect_definitely_failed _ = true

abbrev pub gateway_kind_text : GatewayKind → String
gateway_kind_text timeout = "timeout"
gateway_kind_text http = "http"
gateway_kind_text invalid_response = "invalid_response"
gateway_kind_text network = "network"
gateway_kind_text response_too_large = "response_too_large"
gateway_kind_text unsafe_response = "unsafe_response"
gateway_kind_text response_scan_unavailable = "response_scan_unavailable"

-- `error.kind if isinstance(error, HindsightGatewayError) else "unknown"`
abbrev pub error_kind : Error → String
error_kind (gateway_error kind upstream status) = gateway_kind_text kind
error_kind _ = "unknown"

-- `status in` the four of _require_claim_candidate
abbrev pub is_claim_candidate : Status → Bool
is_claim_candidate Status.pending = true
is_claim_candidate Status.postponed = true
is_claim_candidate Status.review_in_progress = true
is_claim_candidate Status.review_side_effect_completed = true
is_claim_candidate _ = false

-- and the four of _require_reviewable
abbrev pub is_readable : Status → Bool
is_readable Status.review_side_effect_started = true
is_readable Status.review_side_effect_completed = true
is_readable status = reviewable status

module _ {W : Type 0} (service : Service W) where
  -- a call of the repository
  unfoldable pub exec : {A : Type 0} → Exec A → Act W A
  exec m s = let s1 = service.wait s in let (r, db) = m s1.db in (r, record s1 { db = db })

  unfoldable pub now : Act W String
  now s = let (t, w) = service.iso_now s.world in (ok t, record s { world = w })

  -- _require_item
  unfoldable pub require_item : String → Act W Item
  require_item id =
      if not (is_quarantine_id id) then raise (http_error 400 "invalid_quarantine_id") else do
        found ← exec (transaction (select_item id))
        elim found [ none ↦ raise (http_error 404 "quarantine_not_found") | some item ↦ pure item ]

  -- _assert_not_expired, of an item that is returned then
  unfoldable pub assert_not_expired : Item → Act W Item
  assert_not_expired item = do
    at ← now
    if is_expired item at then raise (conflict "quarantine_expired") else pure item

  -- what _require_reviewable and _require_claim_candidate share, with the statuses that they let pass
  unfoldable pub require_status : (Status → Bool) → String → Act W Item
  require_status passes id = do
    item ← require_item id
    if not (passes item.status)
        then raise (conflict "quarantine_already_finalized")
        else if reviewable item.status
        then assert_not_expired item
        else pure item

  unfoldable pub require_reviewable : String → Act W Item
  require_reviewable id = require_status is_readable id

  unfoldable pub require_claim_candidate : String → Act W Item
  require_claim_candidate id = require_status is_claim_candidate id

  -- read_item: the record and its envelope
  unfoldable pub read_item : String → Act W (Item × String)
  read_item id = do
    item ← require_reviewable id
    elim item.envelope [
      | none ↦ raise (conflict "quarantine_payload_unavailable")
      | some envelope ↦ pure (record item { envelope = none }, envelope)
    ]

  -- the call of another service under a claim: when it has failed for certain, the claim is undone
  unfoldable pub side_effect : Item → String → Act W Json → Act W Json
  side_effect claimed at m = catch m λ e.
      if side_effect_definitely_failed e
      then exec (interrupt_review claimed at (error_kind e)) >> raise e
      else raise e
