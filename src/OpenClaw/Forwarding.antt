-- ===== src/OpenClaw/Forwarding.antt =====
-- `OpenClawFacade` (memory_router/openclaw.py).
use hindsight_memory_router.Json.{Json, Fields, string, object, array, end, field, canonical_json}
use hindsight_memory_router.Common.{
  String, Bool, true, false, Option, none, some, List, [], ◌∷◌, ◌==◌, ◌&&◌, ◌||◌, not,
  if◌then◌else◌, Error, http_error, gateway_error, value_error, invalid_response,
  response_scan_unavailable, Result, ok, err,
}
use hindsight_memory_router.Common.Action.{Call, ◌>>=◌, ◌>>◌, pure, raise, lift, catch}
use hindsight_memory_router.Principals.{lookup}
use hindsight_memory_router.Facade.{FacadeRoute}
use hindsight_memory_router.Quarantine.{security_event}
use hindsight_memory_router.Policy.{Finding, Scan, Input, is_safe, concat}
use hindsight_memory_router.Policy.Recall.Decide.{public_entries}
use hindsight_memory_router.Policy.Recall.Requests.{findings_of}
use hindsight_memory_router.Dispatch.{Forward}
use hindsight_memory_router.OpenClaw.{
  Env, Upstream, forwarded, validate_required_query, request_evidence, scan_input,
  validate_request_bounds, facade_path,
}
use hindsight_memory_router.OpenClaw.Contracts.{
  validate_openclaw_response, validate_facade_response,
}

abbrev pub suspicious : Error
suspicious = http_error 422 "suspicious_content"

abbrev pub unsafe_upstream : Error
unsafe_upstream = http_error 502 "hindsight_unsafe_response"

abbrev pub scan_unavailable : Error
scan_unavailable = http_error 503 "facade_scan_unavailable"

unfoldable pub all_limits : List Finding → Bool
all_limits [] = true
all_limits (f ∷ fs) =
    ((f.matched == "facade_field_limit") || (f.matched == "facade_time_limit")) && all_limits fs

-- _only_scan_limit_findings
unfoldable pub only_scan_limit_findings : Scan → Bool
only_scan_limit_findings scan = not (is_safe scan) && all_limits scan.findings

abbrev pub is_scan_unavailable : Error → Bool
is_scan_unavailable (http_error status code) = code == "facade_scan_unavailable"
is_scan_unavailable _ = false

-- a ValueError of the contract
abbrev pub contract_error : Error → Error
contract_error (value_error text) = gateway_error invalid_response none 502
contract_error e = e

abbrev pub contract : Result (Unit {0}) → Result (Unit {0})
contract (ok u) = ok u
contract (err e) = err (contract_error e)

module _ {W : Type 0} (env : Env W) where
  -- the digest of `_audit`
  abbrev pub digest_of : Json → String
  digest_of value = elim (canonical_json env.dumps value) [
    | ok text ↦ env.sha256_hex text
    | err e ↦ env.sha256_hex (env.type_repr value)
  ]

  abbrev pub event : String → String → Json → Option Scan → String → Option String → Input
  event writer_id reason value scan source bank_id = record {
    writer_id = some writer_id;
    source = source;
    kind = security_event;
    reason = reason;
    bank_id = bank_id;
    source_bank = none;
    source_memory_id = none;
    source_content_sha256 = none;
    dedupe_key = some (concat (reason ∷ ":" ∷ writer_id ∷ ":" ∷ digest_of value ∷ []));
    payload = object (
        field "action" (string reason) (
          field "content_sha256" (string (digest_of value))
            (field "findings" (array (public_entries (findings_of scan))) end)));
  }

  -- _audit: what the store raises is logged only
  unfoldable pub audit :
      String → String → Json → Option Scan → String → Option String → Call W (Unit {0})
  audit writer_id reason value scan source bank_id =
      catch (env.put (event writer_id reason value scan source bank_id)) (λ e. pure tt)

  -- the writer of `_target_bank`
  abbrev pub write_bank_of : Forward → Option String → Call W String
  write_bank_of f (some write_bank) = pure write_bank
  write_bank_of f none =
      audit f.writer_id "openclaw_unknown_writer"
        (object
          (field "method" (string f.route.method) (field "resource" (string f.route.resource) end)))
        none f.source none
      >> raise (http_error 404 "unknown_writer")

  abbrev pub bank_or : Forward → Option String → Call W String
  bank_or f (some bank) = pure bank
  bank_or f none = write_bank_of f (lookup f.writer_id env.writers)

  -- _target_bank
  unfoldable pub target_bank : Forward → Call W String
  target_bank f = bank_or f f.bank_override

  -- _validate_safe_request
  unfoldable pub validate_safe_request :
      Forward → Fields → List (String × String) → Call W (Unit {0})
  validate_safe_request f evidence query =
      env.scan_request (scan_input evidence) f.route.request_scan f.writer_id query >>= λ scan.
      if is_safe scan
      then pure tt
      else (audit f.writer_id "openclaw_suspicious_request" (object evidence) (some scan) f.source
            f.bank_override
          >> raise suspicious)

  abbrev pub separates_page_ids : Option FacadeRoute → Bool
  separates_page_ids none = false
  separates_page_ids (some route) =
      (route.method == "POST") && (route.template == "knowledge-base/pages")

  -- validate_safe_response
  unfoldable pub validate_safe_response :
      String → String → String → Json → Option String → Option FacadeRoute → Call W (Unit {0})
  validate_safe_response resource writer_id source value bank_id route =
      env.scan_facade_response value writer_id (separates_page_ids route) >>= λ scan.
      if only_scan_limit_findings scan
      then raise scan_unavailable
      else if is_safe scan
      then pure tt
      else (audit writer_id "openclaw_suspicious_provider_response"
            (object (field "resource" (string resource) (field "response" value end))) (some scan)
            source bank_id
          >> raise unsafe_upstream)

  -- the response of a write that could not be scanned may have been applied
  abbrev pub uncertain_write : FacadeRoute → Error → Error
  uncertain_write route e =
      if route.read || not (is_scan_unavailable e)
      then e
      else gateway_error response_scan_unavailable none 502

  abbrev pub validate_value : Forward → Option Json → Call W (Unit {0})
  validate_value f none = pure tt
  validate_value f (some value) =
      catch
        (validate_safe_response f.route.resource f.writer_id f.source value f.bank_override
          (some f.route))
        (λ e. raise (uncertain_write f.route e))

  abbrev pub validate_contract : Forward → Option Json → Result (Unit {0})
  validate_contract f value = contract (
      if f.route.strict_contract
      then validate_openclaw_response env.is_valid f.route.method f.route.resource
          (lookup "mental_model_id" f.params) value
      else validate_facade_response value f.route.response f.route.allow_empty_response)

  abbrev pub charge : Forward → Call W (Unit {0})
  charge f = if f.route.read then env.consume_recall f.writer_id else env.consume_retain f.writer_id

  abbrev pub upstream : Forward → String → List (String × String) → Upstream
  upstream f bank query = record {
    operation = concat ("openclaw_" ∷ f.route.operation ∷ []);
    method = f.route.method;
    path = facade_path env.quote env.urlencode f.route bank f.params query;
    body = f.body;
    expected_status = f.route.success_status;
    allow_empty_response = f.route.allow_empty_response;
  }

  -- the request to the service, and the checks of what it answers
  unfoldable pub exchange : Forward → String → List (String × String) → Call W (Option Json)
  exchange f bank query = env.openclaw_request (upstream f bank query) >>= λ value.
      validate_value f value >> (lift (validate_contract f value) >> pure value)

  -- the checks of a request
  unfoldable pub admit_request : Forward → List (String × String) → Call W (Unit {0})
  admit_request f query =
      lift (validate_required_query f.route query)
      >> (lift (validate_request_bounds env.limits f.route f.body)
          >> (charge f >> validate_safe_request f (request_evidence f query) query))

  -- forward
  unfoldable pub forward : Forward → Call W (Option Json)
  forward f =
      let query = forwarded f.route.query_params f.query in
      target_bank f >>= λ bank. admit_request f query >> exchange f bank query
