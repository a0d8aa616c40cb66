-- ===== src/Application/Routes.antt =====
-- The routes of the administration and the entry of every other request (memory_router/app.py,
-- `principal_admin_metadata_response` of memory_router/principal_gate.py).
-- A request to the administration is first read as a call, which is then run.
use hindsight_memory_router.Json.{Json, Fields, object, string, end, field}
use hindsight_memory_router.Common.{
  String, Bool, true, false, Option, none, some, List, [], ◌∷◌, ◌++◌, ◌==◌, ◌&&◌, ◌||◌, not,
  is_some, starts_with, if◌then◌else◌, http_error, runtime_error, Result, ok, err,
}
use hindsight_memory_router.Common.Action.{Call, ◌>>=◌, ◌>>◌, pure, raise, lift}
use hindsight_memory_router.Principals.{
  PrincipalRegistry, PrincipalSession, quarantine_review_banks,
}
use hindsight_memory_router.Facade.{Segment, literal, parameter, match_segments, split_path}
use hindsight_memory_router.Tokens.{admin_authorized, admin_token_scope}
use hindsight_memory_router.Dispatch.{HttpResponse, require_grant, is_empty, group}
use hindsight_memory_router.Application.{
  HttpRequest, Runtime, json_body, admin_auth, admin_rate, principal_rate, authenticate_principal,
}

-- the service of the administration; the last text is the slot of the token, which the actor records
pub record AdminService (W : Type 0) : Type 0 where
  pub list_queue : List (String × String) → Option (List String) → Call W Json
  pub stats : Call W Json
  pub bank_stats : List String → Call W Json
  pub cleanup : Fields → String → Call W Json
  pub read_item : String → Call W Json
  pub approve : String → Fields → String → Call W Json
  pub reject : String → String → Call W Json
  pub postpone : String → String → Call W Json
  pub reconcile : String → Fields → String → Call W Json

pub data ItemAction : Type 0 where
  approve reject postpone reconcile : ItemAction

-- A request of the administration. A path of an item that no method answers is still decoded.
pub data AdminCall : Type 0 where
  queue stats cleanup not_found : AdminCall
  read_item other_item : (segment : String) → AdminCall
  act : ItemAction → (segment : String) → AdminCall

-- _scope
unfoldable pub scope_of : String → String → String
scope_of method path =
    if method == "GET"
    then "read"
    else if (method == "POST") && (path == "/admin/quarantine/cleanup")
    then "cleanup"
    else "review"

abbrev pub items : List Segment
items =
    literal "" ∷ literal "admin" ∷ literal "quarantine" ∷ literal "items" ∷ parameter "item" ∷ []

abbrev pub action_items : List Segment
action_items = items ++ (parameter "action" ∷ [])

-- the action of the path, which the pattern lists
abbrev pub action_of : String → Option ItemAction
action_of text =
    if text == "approve"
    then some approve
    else if text == "reject"
    then some reject
    else if text == "postpone"
    then some postpone
    else if text == "reconcile"
    then some reconcile
    else none

abbrev pub acted : String → String → Option ItemAction → AdminCall
acted method segment none = not_found
acted method segment (some action) =
    if method == "POST" then act action segment else other_item segment

-- _admin_item_response, up to its calls
unfoldable pub item_call : String → List String → AdminCall
item_call method path = elim (match_segments items path) [
  | some groups ↦
      if method == "GET" then read_item (group "item" groups) else other_item (group "item" groups)
  | none ↦ elim (match_segments action_items path) [
    | some groups ↦ acted method (group "item" groups) (action_of (group "action" groups))
    | none ↦ not_found
  ]
]

-- _authorized_admin_response, up to its calls
unfoldable pub admin_call : String → String → AdminCall
admin_call method path =
    if (method == "GET") && (path == "/admin/quarantine/queue")
    then queue
    else if (method == "GET") && (path == "/admin/quarantine/stats")
    then stats
    else if (method == "POST") && (path == "/admin/quarantine/cleanup")
    then cleanup
    else item_call method (split_path path)

abbrev pub body_object : Json → Result Fields
body_object (object fs) = ok fs
body_object _ = err (http_error 400 "invalid_request")

abbrev pub error_payload : String → Json
error_payload code = object (field "error" (string code) end)

abbrev pub unauthorized : HttpResponse
unauthorized = record { status = 401; payload = error_payload "unauthorized" }

-- request.query_params.get, which is the last value
unfoldable pub last_value : String → List (String × String) → Option String
last_value name [] = none
last_value name ((key, value) ∷ query) =
    let later = last_value name query in
    if is_some later then later else if key == name then some value else none

abbrev pub starts_with_of : String → Option String → Bool
starts_with_of prefix none = false
starts_with_of prefix (some text) = starts_with prefix text

module _ {W : Type 0} (runtime : Runtime W) (decode : String → Result String)
    (service : AdminService W) where
  abbrev pub run_action : HttpRequest → String → String → ItemAction → Call W Json
  run_action http slot id approve = lift (json_body runtime http none) >>= λ value.
      lift (body_object value) >>= λ body. service.approve id body slot
  run_action http slot id reject = service.reject id slot
  run_action http slot id postpone = service.postpone id slot
  run_action http slot id reconcile = lift (json_body runtime http none) >>= λ value.
      lift (body_object value) >>= λ body. service.reconcile id body slot

  abbrev pub answered : Call W Json → Call W HttpResponse
  answered call = call >>= λ payload. pure record { status = 200; payload = payload }

  abbrev pub no_endpoint : Call W HttpResponse
  no_endpoint = pure record { status = 404; payload = error_payload "admin_endpoint_not_found" }

  -- the calls of _authorized_admin_response
  unfoldable pub run_call : HttpRequest → String → AdminCall → Call W HttpResponse
  run_call http slot queue = answered (service.list_queue http.query none)
  run_call http slot stats = answered service.stats
  run_call http slot cleanup = lift (json_body runtime http none) >>= λ value.
      lift (body_object value) >>= λ body. answered (service.cleanup body slot)
  run_call http slot (read_item segment) =
      lift (decode segment) >>= λ id. answered (service.read_item id)
  run_call http slot (act action segment) =
      lift (decode segment) >>= λ id. answered (run_action http slot id action)
  run_call http slot (other_item segment) = lift (decode segment) >>= λ id. no_endpoint
  run_call http slot not_found = no_endpoint

  -- the banks that a principal may ask about
  abbrev pub scoped_banks :
      PrincipalRegistry → PrincipalSession → Option String → Result (List String)
  scoped_banks registry session (some bank) =
      elim (require_grant registry session "quarantine.review" bank) [
        | ok u ↦ ok (bank ∷ [])
        | err e ↦ err e
      ]
  scoped_banks registry session none =
      let banks = quarantine_review_banks registry session in
      if is_empty banks
      then elim (require_grant registry session "quarantine.review" "-") [
        | ok u ↦ ok banks
        | err e ↦ err e
      ]
      else ok banks

  abbrev pub is_metadata : HttpRequest → Bool
  is_metadata http =
      (http.method == "GET")
      && ((http.pathname == "/admin/quarantine/queue")
          || (http.pathname == "/admin/quarantine/stats"))

  -- principal_admin_metadata_response, past the authentication
  unfoldable pub answer_metadata :
      PrincipalRegistry → HttpRequest → Option PrincipalSession → Call W HttpResponse
  answer_metadata registry http none = pure unauthorized
  answer_metadata registry http (some session) =
      if not (is_metadata http)
      then pure unauthorized
      else (lift (scoped_banks registry session (last_value "bank_id" http.query)) >>= λ banks.
          principal_rate runtime session "quarantine.review"
          >> answered (
              if http.pathname == "/admin/quarantine/stats"
              then service.bank_stats banks
              else service.list_queue http.query (some banks)))

  -- the end of _dispatch_admin, with the slot of the token
  unfoldable pub answer_admin : HttpRequest → Option String → Call W HttpResponse
  answer_admin http none = raise (runtime_error "no matching admin token slot")
  answer_admin http (some slot) =
      admin_rate runtime http.method >> run_call http slot (admin_call http.method http.pathname)

  abbrev pub is_principal : HttpRequest → Bool
  is_principal http = starts_with_of "Bearer mr_" http.authorization

  abbrev pub answer_known : HttpRequest → String → Bool → Call W HttpResponse
  answer_known http scope true =
      answer_admin http (admin_token_scope http.authorization scope runtime.admin_tokens)
  answer_known http scope false = pure unauthorized

  -- a request without the token of its scope
  unfoldable pub answer_stranger :
      HttpRequest → String → Option PrincipalRegistry → Call W HttpResponse
  answer_stranger http scope (some registry) =
      if is_principal http
      then authenticate_principal runtime http "admin" >>= answer_metadata registry http
      else admin_auth runtime http scope >>= answer_known http scope
  answer_stranger http scope none = admin_auth runtime http scope >>= answer_known http scope

  -- _dispatch_admin, of a path below `/admin/`
  unfoldable pub dispatch_admin : HttpRequest → Call W HttpResponse
  dispatch_admin http =
      let scope : String = scope_of http.method http.pathname in
      if admin_authorized http.authorization scope runtime.admin_tokens
      then answer_known http scope true
      else answer_stranger http scope runtime.resolver
