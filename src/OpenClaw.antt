-- ===== src/OpenClaw.antt =====
-- Requests that the facade passes on to the memory service (memory_router/openclaw.py).
-- The service, the scans, the limits' charges and the quarantine store are an environment over a
-- state `W`; `quote` and `urlencode` of urllib.parse are parameters. Logging is left out.
pub mod Contracts
pub mod Forwarding
pub mod Laws
pub mod Segments
pub mod Filled
pub mod Confinement
mod Tests
use Prim.Native.String
use hindsight_memory_router.Json.{
  Json, Items, Fields, null, string, integer, object, array, nil, cons, end, field, canonical_json,
}
use hindsight_memory_router.Common.{
  ℕ, ◌+◌, zero, String, Bool, true, false, Option, none, some, List, [], ◌∷◌, ◌==◌, ◌&&◌, ◌||◌, not,
  member, if◌then◌else◌, Error, http_error, gateway_error, runtime_error, Result, ok, err, and_then,
  raise_if,
}
use hindsight_memory_router.Common.Action.{Call, ◌>>=◌, ◌>>◌, pure, raise, lift, catch}
use hindsight_memory_router.Principals.{lookup}
use hindsight_memory_router.Facade.{FacadeRoute, RequestScanMode, Segment, literal, parameter, join}
use hindsight_memory_router.Limits.{HindsightLimitConfig, assert_recall_bounds, assert_item_bounds}
use hindsight_memory_router.Quarantine.{security_event}
use hindsight_memory_router.Policy.{Finding, Scan, Input, is_safe, concat, lookup_field, put_field}
use hindsight_memory_router.Policy.Recall.Decide.{public_entries}
use hindsight_memory_router.Policy.Recall.Requests.{findings_of}
use hindsight_memory_router.Dispatch.{Forward}
use hindsight_memory_router.OpenClaw.Contracts.{Model}

-- what `openclaw_request` of the gateway is given
pub record Upstream : Type 0 where
  pub operation : String
  pub method : String
  pub path : String
  pub body : Option Fields
  pub expected_status : ℕ
  pub allow_empty_response : Bool

pub record Env (W : Type 0) : Type 0 where
  pub writers : List (String × String)
  pub limits : HindsightLimitConfig
  pub dumps : Json → Result String
  pub sha256_hex : String → String
  pub type_repr : Json → String
  pub quote : String → String
  pub urlencode : List (String × String) → String
  pub is_valid : Model → Option Json → Bool
  pub consume_recall : String → Call W (Unit {0})
  pub consume_retain : String → Call W (Unit {0})
  pub scan_request : Fields → RequestScanMode → String → List (String × String) → Call W Scan
  pub scan_facade_response : Json → String → Bool → Call W Scan
  pub openclaw_request : Upstream → Call W (Option Json)
  pub put : Input → Call W (Unit {0})

-- [(key, value) ... if key in route.query_params]
unfoldable pub forwarded : List String → List (String × String) → List (String × String)
forwarded keys [] = []
forwarded keys ((key, value) ∷ query) =
    let rest = forwarded keys query in if member key keys then (key, value) ∷ rest else rest

abbrev pub keys_of : List (String × String) → List String
keys_of [] = []
keys_of ((key, value) ∷ query) = key ∷ keys_of query

unfoldable pub all_supplied : List String → List String → Bool
all_supplied [] supplied = true
all_supplied (name ∷ names) supplied = member name supplied && all_supplied names supplied

abbrev pub invalid_request : Error
invalid_request = http_error 400 "invalid_request"

-- _validate_required_query
unfoldable pub validate_required_query : FacadeRoute → List (String × String) → Result (Unit {0})
validate_required_query route query =
    raise_if (not (all_supplied route.required_query_params (keys_of query))) invalid_request

abbrev pub query_items : List (String × String) → Items
query_items [] = nil
query_items ((key, value) ∷ query) =
    cons (object (field "key" (string key) (field "value" (string value) end))) (query_items query)

-- params[name]; every name is in the dict that a matched route makes
abbrev pub param : List (String × String) → String → String
param params name = elim (lookup name params) [ none ↦ "" | some value ↦ value ]

unfoldable pub put_params : List (String × String) → List String → Fields → Fields
put_params params [] evidence = evidence
put_params params (name ∷ names) evidence =
    put_params params names (put_field name (string (param params name)) evidence)

abbrev pub put_body : Option Fields → Fields → Fields
put_body none evidence = evidence
put_body (some body) evidence = put_field "body" (object body) evidence

-- request_evidence
unfoldable pub request_evidence : Forward → List (String × String) → Fields
request_evidence f query = put_body f.body (
    put_params f.params f.route.params (
      field "bank_id" (string f.writer_id) (
        field "resource" (string f.route.resource)
          (field "query" (array (query_items query)) end))))

-- scan_input: the evidence without the resource and the query
unfoldable pub scan_input : Fields → Fields
scan_input end = end
scan_input (field key value rest) =
    let others = scan_input rest in
    if (key == "resource") || (key == "query") then others else field key value others

unfoldable pub count_items : Items → ℕ
count_items nil = 0
count_items (cons x xs) = count_items xs + 1

-- body["query"] and body.get("max_tokens") of a body that `parse_reflect_body` returned
abbrev pub query_of : Option Json → Result String
query_of (some (string query)) = ok query
query_of _ = err (runtime_error "KeyError")

abbrev pub max_tokens_of : Option Json → Option ℕ
max_tokens_of (some (integer false n)) = some n
max_tokens_of _ = none

abbrev pub reflect_bounds : HindsightLimitConfig → Fields → Result (Unit {0})
reflect_bounds config body =
    and_then (query_of (lookup_field "query" body))
      λ query. assert_recall_bounds config query (max_tokens_of (lookup_field "max_tokens" body))

abbrev pub extract_bounds : HindsightLimitConfig → Fields → Option Json → Result (Unit {0})
extract_bounds config body (some (array items)) =
    assert_item_bounds config (count_items items) (object body)
extract_bounds config body _ = err invalid_request

-- _validate_request_bounds
unfoldable pub validate_request_bounds :
    HindsightLimitConfig → FacadeRoute → Option Fields → Result (Unit {0})
validate_request_bounds config route none = ok tt
validate_request_bounds config route (some body) =
    and_then (if route.resource == "reflect" then reflect_bounds config body else ok tt) λ u.
      if route.template == "memories/dry-run-extract"
      then extract_bounds config body (lookup_field "items" body)
      else ok tt

-- suffix.replace("{" + name + "}", quote(params[name], safe="")), for the names of the template
abbrev pub filled : (String → String) → List (String × String) → List Segment → List String
filled quote params [] = []
filled quote params (literal s ∷ rest) = s ∷ filled quote params rest
filled quote params (parameter name ∷ rest) = quote (param params name) ∷ filled quote params rest

-- f"/{suffix}" and "?" + urlencode(query), where they are not empty
abbrev pub after : String → String → String
after separator text = if text == "" then "" else String.◌++◌ separator text

abbrev pub query_text : (List (String × String) → String) → List (String × String) → String
query_text urlencode [] = ""
query_text urlencode (pair ∷ query) = String.◌++◌ "?" (urlencode (pair ∷ query))

abbrev pub bank_path : (String → String) → String → String
bank_path quote bank = String.◌++◌ "/v1/default/banks/" (quote bank)

-- _facade_path
unfoldable pub facade_path :
    (String → String)
    → (List (String × String) → String)
    → FacadeRoute
    → String
    → List (String × String)
    → List (String × String)
    → String
facade_path quote urlencode route bank params query = String.◌++◌ (bank_path quote bank) (
    String.◌++◌ (after "/" (join "/" (filled quote params route.segments)))
      (query_text urlencode query))
