-- ===== src/Application.antt =====
-- The gates of the application: rates, credentials and bodies (memory_router/app.py,
-- `authenticate_principal` of memory_router/principal_gate.py).
-- The limiters, the resolver's `authenticate_request` and the store of the auditor are an environment
-- over a state `W`. A body is the list of its chunks, each a list of bytes, and the number of its
-- content-length header, where that is all digits; `json.loads` is a parameter. Logging, metrics and
-- the headers of responses are left out.
pub mod Routes
pub mod Scopes
pub mod Banks
pub mod Gates
pub mod Monitor
pub mod Serve
pub mod Bodies
mod Tests
use hindsight_memory_router.Json.{Json, object, end, assert_json_depth}
use hindsight_memory_router.Common.{
  ℕ, ◌+◌, zero, min, String, Bool, true, false, Option, none, some, List, [], ◌∷◌, ◌++◌, ◌==◌, ◌&&◌,
  ◌||◌, not, ltb, nat_eq, starts_with, opt_eq, if◌then◌else◌, Error, http_error, gateway_error,
  value_error, runtime_error, Result, ok, err, and_then,
}
use hindsight_memory_router.Common.Action.{Call, ◌>>=◌, ◌>>◌, pure, raise, lift, catch}
use hindsight_memory_router.RateLimit.{Bucket}
use hindsight_memory_router.Policy.{concat}
use hindsight_memory_router.Principals.{
  PrincipalRegistry, PrincipalSession, Authentication, authenticated, LimitOperation, recall,
  retain, reflect, config, admin, scope_limit_operation,
}
use hindsight_memory_router.Tokens.{
  AdminTokens, router_authorized, admin_authorized, admin_token_recognized,
}

pub record HttpRequest : Type 0 where
  pub method : String
  pub pathname : String
  pub query : List (String × String)
  pub authorization : Option String
  pub claimed_agent : Option String
  pub content_length : Option ℕ
  pub chunks : List (List ℕ)

-- the fields of `Runtime` that the gates read
pub record Runtime (W : Type 0) : Type 0 where
  pub router_token : Option String
  pub allow_anonymous : Bool
  pub admin_tokens : AdminTokens
  pub resolver : Option PrincipalRegistry
  pub authenticate_request : Option String → Call W Authentication
  pub auth_prefilter : List Bucket → Call W (Unit {0})
  pub auth_limiter : List Bucket → Call W (Unit {0})
  pub principal_limiter : List Bucket → Call W (Unit {0})
  pub admin_limiter : List Bucket → Call W (Unit {0})
  pub concurrency : String → ℕ → Call W Json → Call W Json
  pub is_lease_unavailable : Error → Bool
  pub persist : String → Call W (Unit {0})
  pub auth_failure_max : ℕ
  pub auth_failure_window : ℕ
  pub admin_read_max : ℕ
  pub admin_write_max : ℕ
  pub admin_window : ℕ
  pub max_body_bytes : ℕ
  pub loads : List ℕ → Option Json

abbrev pub max_json_depth : ℕ
max_json_depth = 64

-- The handlers of the rates: a 429 is renamed, another HttpError passes, and anything else says that
-- the control is not available.
unfoldable pub rate_error : String → String → Error → Error
rate_error limited unavailable (http_error status code) =
    if nat_eq status 429 then http_error 429 limited else http_error status code
rate_error limited unavailable (gateway_error kind upstream status) =
    if nat_eq status 429 then http_error 429 limited else gateway_error kind upstream status
rate_error limited unavailable e = http_error 503 unavailable

abbrev pub operation_text : LimitOperation → String
operation_text recall = "recall"
operation_text retain = "retain"
operation_text reflect = "reflect"
operation_text config = "config"
operation_text admin = "admin"

-- the handlers of `_with_principal_concurrency`; `ConcurrencyLeaseUnavailable` is a `RuntimeError`
-- that the test tells
unfoldable pub concurrency_error : (Error → Bool) → Error → Error
concurrency_error is_lease_unavailable (http_error status code) =
    if code == "principal_concurrency_limited"
    then http_error 429 "principal_concurrency_limited"
    else http_error status code
concurrency_error is_lease_unavailable (gateway_error kind upstream status) =
    gateway_error kind upstream status
concurrency_error is_lease_unavailable e =
    if is_lease_unavailable e then http_error 503 "principal_concurrency_unavailable" else e

unfoldable pub size : List ℕ → ℕ
size [] = 0
size (b ∷ bs) = size bs + 1

-- the loop over `request.stream()`
unfoldable pub read_chunks : ℕ → List (List ℕ) → List ℕ → Result (List ℕ)
read_chunks limit [] body = ok body
read_chunks limit (chunk ∷ chunks) body =
    let read = read_chunks limit chunks (body ++ chunk) in
    if ltb limit (size (body ++ chunk)) then err (http_error 413 "payload_too_large") else read

abbrev pub is_longer : ℕ → Option ℕ → Bool
is_longer limit none = false
is_longer limit (some length) = ltb limit length

-- json.loads, and _assert_json_depth
unfoldable pub parse_bytes : (List ℕ → Option Json) → List ℕ → Result (Option Json)
parse_bytes loads [] = ok none
parse_bytes loads (b ∷ bs) = elim (loads (b ∷ bs)) [
  | none ↦ err (http_error 400 "invalid_json")
  | some value ↦ elim (assert_json_depth value max_json_depth) [
    | ok u ↦ ok (some value)
    | err e ↦ err (http_error 400 "json_too_deep")
  ]
]

abbrev pub limit_of : ℕ → Option ℕ → ℕ
limit_of most none = most
limit_of most (some n) = min most n

abbrev pub or_object : Option Json → Json
or_object none = object end
or_object (some value) = value

module _ {W : Type 0} (runtime : Runtime W) where
  -- _json_body with `empty_as_none`
  unfoldable pub json_body_or_empty : HttpRequest → Option ℕ → Result (Option Json)
  json_body_or_empty http max_bytes =
      let limit = limit_of runtime.max_body_bytes max_bytes in
      if is_longer limit http.content_length
      then err (http_error 413 "payload_too_large")
      else and_then (read_chunks limit http.chunks []) (parse_bytes runtime.loads)

  -- _json_body
  abbrev pub json_body : HttpRequest → Option ℕ → Result Json
  json_body http max_bytes =
      and_then (json_body_or_empty http max_bytes) (λ value. ok (or_object value))

  abbrev pub failures : String → List Bucket
  failures group =
      record {
        key = concat ("auth-failure:" ∷ group ∷ []);
        maximum = runtime.auth_failure_max;
        window_ms = runtime.auth_failure_window;
      }
      ∷ []

  -- _auth_failure_rate
  unfoldable pub auth_failure_rate : String → Call W (Unit {0})
  auth_failure_rate group =
      catch (runtime.auth_prefilter (failures group) >> runtime.auth_limiter (failures group))
        (λ e. raise (rate_error "auth_rate_limited" "auth_rate_unavailable" e))

  -- _principal_rate
  unfoldable pub principal_rate : PrincipalSession → String → Call W (Unit {0})
  principal_rate session scope =
      let operation = scope_limit_operation scope in
      let limit = session.limits operation in
      catch
        (runtime.principal_limiter (
          record {
            key =
                concat ("principal:" ∷ session.principal_id ∷ ":" ∷ operation_text operation ∷ []);
            maximum = limit.rate_limit_max;
            window_ms = limit.rate_limit_window_ms;
          }
          ∷ []))
        (λ e. raise (rate_error "principal_rate_limited" "principal_rate_unavailable" e))

  -- _with_principal_concurrency
  unfoldable pub with_principal_concurrency : PrincipalSession → String → Call W Json → Call W Json
  with_principal_concurrency session scope operation =
      let name = scope_limit_operation scope in
      catch
        (runtime.concurrency (concat (session.principal_id ∷ ":" ∷ operation_text name ∷ []))
          (session.limits name).concurrency_max operation)
        (λ e. raise (concurrency_error runtime.is_lease_unavailable e))

  abbrev pub is_read : String → Bool
  is_read method = (method == "GET") || (method == "HEAD")

  -- _admin_rate
  unfoldable pub admin_rate : String → Call W (Unit {0})
  admin_rate method =
      catch
        (runtime.admin_limiter (
          record {
            key = if is_read method then "admin:read" else "admin:write";
            maximum = if is_read method then runtime.admin_read_max else runtime.admin_write_max;
            window_ms = runtime.admin_window;
          }
          ∷ []))
        (λ e. raise (rate_error "admin_rate_limited" "admin_rate_unavailable" e))

  -- _router_auth
  unfoldable pub router_auth : HttpRequest → Call W Bool
  router_auth http =
      if router_authorized http.authorization runtime.router_token runtime.allow_anonymous
      then pure true
      else auth_failure_rate "router" >> (runtime.persist "router" >> pure false)

  -- _admin_auth
  unfoldable pub admin_auth : HttpRequest → String → Call W Bool
  admin_auth http scope =
      if admin_authorized http.authorization scope runtime.admin_tokens
      then pure true
      else (auth_failure_rate "admin"
          >> (if admin_token_recognized http.authorization runtime.admin_tokens
              then pure false
              else runtime.persist "admin" >> pure false))

  abbrev pub is_other_agent : Option String → PrincipalSession → Bool
  is_other_agent none session = false
  is_other_agent (some claimed) session = not (claimed == session.principal_id)

  -- on_failure() and the audit
  abbrev pub charge_failure : String → Call W (Unit {0})
  charge_failure group = auth_failure_rate group >> runtime.persist "router"

  abbrev pub claimed_session :
      HttpRequest → String → Authentication → Call W (Option PrincipalSession)
  claimed_session http group (authenticated session) =
      if is_other_agent http.claimed_agent session
      then charge_failure group >> raise (http_error 403 "agent_claim_mismatch")
      else pure (some session)
  claimed_session http group _ = charge_failure group >> pure none

  -- authenticate_principal; `on_failure` charges the group
  unfoldable pub authenticate_principal : HttpRequest → String → Call W (Option PrincipalSession)
  authenticate_principal http group =
      runtime.authenticate_request http.authorization >>= claimed_session http group
