-- ===== src/Policy/Retain.antt =====
-- What a retain may write, and where it is queued instead (memory_router/policy.py).
-- A parsed body is its items and its other entries.
pub mod Laws
use hindsight_memory_router.Json.{
  Json, Items, Fields, null, string, array, object, nil, cons, end, field,
}
use hindsight_memory_router.Common.{
  ℕ, String, Bool, true, false, Option, none, some, List, [], ◌∷◌, ◌==◌, ◌&&◌, ◌||◌, map,
  if◌then◌else◌, Error, http_error, gateway_error, response_scan_unavailable, unsafe_response,
  value_error, runtime_error, Result, ok, err,
}
use hindsight_memory_router.Quarantine.{retain_request}
use hindsight_memory_router.Policy.{
  Finding, Scan, is_safe, no_findings, Env, Act, ◌>>=◌, ◌>>◌, pure, raise, lift, call, catch,
  lookup_field, put_field, optional_text,
}
use hindsight_memory_router.Policy.Recall.Requests.{request_dedupe_key, transformed, findings_of}

pub record RetainBody : Type 0 where
  pub items : List Fields
  pub rest : Fields

-- what the caller gets: the acknowledgment of the memory service, or the place in the queue
pub data Retained : Type 0 where
  acknowledged : Json → Retained
  queued : (reason quarantine_id : String) → List Finding → Retained

pub data IdentityMode : Type 0 where
  legacy principal : IdentityMode

abbrev pub mode_text : IdentityMode → String
mode_text legacy = "legacy"
mode_text principal = "principal"

abbrev pub objects : List Fields → Items
objects [] = nil
objects (fs ∷ rest) = cons (object fs) (objects rest)

-- the dict of a body
abbrev pub body_json : RetainBody → Json
body_json body = object (put_field "items" (array (objects body.items)) body.rest)

-- dict(copied.get("metadata") or {}); a parsed item's metadata is a dict or None
abbrev pub metadata_of : Option Json → Fields
metadata_of (some (object fs)) = fs
metadata_of _ = end

-- one round of the loop of `prepare_retain_body`
unfoldable pub prepare_item : String → String → String → String → Fields → Fields
prepare_item writer source bank decision item =
    put_field "metadata"
      (object (
        put_field "router_target_bank" (string bank) (
          put_field "router_decision" (string decision) (
            put_field "router_source" (string source) (
              put_field "router_writer_id" (string writer)
                (metadata_of (lookup_field "metadata" item)))))))
      item

unfoldable pub prepare_retain_body : RetainBody → String → String → String → String → RetainBody
prepare_retain_body body writer source bank decision = record body {
  items = map (prepare_item writer source bank decision) body.items;
}

-- finding.matched in {"facade_field_limit", "facade_time_limit"}
abbrev pub only_limits : List Finding → Bool
only_limits [] = true
only_limits (f ∷ fs) =
    ((f.matched == "facade_field_limit") || (f.matched == "facade_time_limit")) && only_limits fs

-- the error after a write whose acknowledgment cannot be returned
abbrev pub unacknowledged : Scan → Error
unacknowledged scan =
    if only_limits scan.findings
    then gateway_error response_scan_unavailable none 502
    else gateway_error unsafe_response none 502

-- except HttpError, around the scan of the response
abbrev pub scan_failed : Error → Error
scan_failed (http_error status code) = gateway_error response_scan_unavailable none 502
scan_failed (gateway_error kind upstream status) = gateway_error response_scan_unavailable none 502
scan_failed e = e

module _ {W : Type 0} (env : Env W) where
  abbrev pub retain_payload : String → Json → IdentityMode → Option String → Fields
  retain_payload writer body mode bank = field "action" (string "retain") (
      field "writer_id" (string writer) (
        field "body" body (
          field "identity_mode" (string (mode_text mode))
            (field "target_bank" (optional_text bank) end))))

  -- _quarantine_retain
  unfoldable pub quarantine_retain :
      String
      → String
      → String
      → RetainBody
      → Option String
      → Option Scan
      → IdentityMode
      → Act W Retained
  quarantine_retain writer source reason body bank scan mode = do
    let payload = retain_payload writer (body_json body) mode bank
    key ← lift (request_dedupe_key env retain_request writer bank (object payload))
    id ← call (
        env.put record {
          writer_id = some writer;
          source = source;
          kind = retain_request;
          reason = reason;
          bank_id = bank;
          source_bank = none;
          source_memory_id = none;
          source_content_sha256 = none;
          dedupe_key = some key;
          payload = object (transformed payload scan);
        })
    pure (queued reason id (findings_of scan))

  -- the write of a safe body, and the check of what comes back
  unfoldable pub write_retain : String → String → RetainBody → String → Act W Retained
  write_retain identity bank body source = do
    value ←
        call (env.retain bank (body_json (prepare_retain_body body identity source bank "allowed")))
    scan ← catch (call (env.scan_response value)) (λ e. raise (scan_failed e))
    if is_safe scan then pure (acknowledged value) else raise (unacknowledged scan)

  -- _retain_to_bank
  unfoldable pub retain_to_bank :
      String → String → RetainBody → String → IdentityMode → Act W Retained
  retain_to_bank identity bank body source mode = do
    call (env.consume_retain identity)
    scan ← call (env.scan_request (body_json body))
    if is_safe scan
        then write_retain identity bank body source
        else quarantine_retain identity source "suspicious_content" body (some bank) (some scan)
            mode

  -- retain_bank
  unfoldable pub retain_bank : String → String → RetainBody → String → Act W Retained
  retain_bank principal_id bank body source = retain_to_bank principal_id bank body source principal
