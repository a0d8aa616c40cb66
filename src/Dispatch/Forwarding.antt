-- ===== src/Dispatch/Forwarding.antt =====
-- The routes of the facade, and the order of the handlers (`_dispatch_facade` and `dispatch` of
-- memory_router/request_dispatch.py).
use hindsight_memory_router.Json.{Json, Fields, null, object}
use hindsight_memory_router.Common.{
  ℕ, String, Bool, Option, none, some, List, [], ◌∷◌, ◌==◌, not, is_some, map, if◌then◌else◌,
  starts_with, Error, http_error, gateway_error, value_error, runtime_error, Result, ok, err,
  and_then,
}
use hindsight_memory_router.Common.Action.{Call, ◌>>=◌, ◌>>◌, pure, lift}
use hindsight_memory_router.Principals.{PrincipalSession, scope_limit_operation}
use hindsight_memory_router.Facade.{
  FacadeRoute, BodyMode, no_body, optional, required, facade_scope, join, split_path,
}
use hindsight_memory_router.Facade.Table.{match_facade_route}
use hindsight_memory_router.Validation.{parse_reflect_body}
use hindsight_memory_router.Dispatch.{
  HttpResponse, Services, Dependencies, Request, require, require_grant, group, memory_route,
  is_bank_list, answer_bank_list, answer_memory, answer_legacy_memory, answer_denied,
}

abbrev pub Matched : Type 0
Matched = FacadeRoute × List (String × String)

unfoldable pub decode_all : (String → Result String) → List String → Result (List String)
decode_all decode [] = ok []
decode_all decode (part ∷ parts) =
    and_then (decode part) λ decoded. and_then (decode_all decode parts) λ rest. ok (decoded ∷ rest)

-- the handler of a HttpError of the decoding
unfoldable pub undecodable : Error → Option Matched → Result (Option Matched)
undecodable (http_error status code) matched =
    if code == "invalid_path_segment"
    then err (http_error status code)
    else if is_some matched
    then err (http_error status code)
    else ok none
undecodable (gateway_error kind upstream status) matched =
    if is_some matched then err (gateway_error kind upstream status) else ok none
undecodable (value_error text) matched = err (value_error text)
undecodable (runtime_error text) matched = err (runtime_error text)

-- _match_facade
unfoldable pub match_facade : (String → Result String) → Request → Result (Option Matched)
match_facade decode request =
    let matched = match_facade_route request.method request.pathname in
    if not (starts_with "/v1/default/banks/" request.pathname)
    then ok matched
    else elim (decode_all decode (split_path request.pathname)) [
      | ok parts ↦ ok (match_facade_route request.method (join "/" parts))
      | err e ↦ undecodable e matched
    ]

abbrev pub invalid_request : Error
invalid_request = http_error 400 "invalid_request"

-- what `_facade_body` makes of what it reads
unfoldable pub accept_body : BodyMode → Option Json → Result (Option Fields)
accept_body no_body raw = ok none
accept_body required none = err invalid_request
accept_body optional none = ok none
accept_body required (some null) = err invalid_request
accept_body optional (some null) = ok none
accept_body mode (some (object fs)) = ok (some fs)
accept_body mode (some _) = err invalid_request

abbrev pub body_limit : Option PrincipalSession → String → Option ℕ
body_limit none scope = none
body_limit (some p) scope = some (p.limits (scope_limit_operation scope)).max_body_bytes

abbrev pub writer_of : Option PrincipalSession → String → String
writer_of none bank = bank
writer_of (some p) bank = p.principal_id

abbrev pub override_of : Option PrincipalSession → String → Option String
override_of none bank = none
override_of (some p) bank = some bank

abbrev pub source_of : Option PrincipalSession → String
source_of none = "openclaw"
source_of (some p) = p.source

abbrev pub named : List (String × String) → String → String × String
named groups name = (name, group name groups)

-- the match of _dispatch_memory, of a POST only
abbrev pub posted : Request → Option (String × Bool)
posted request = if request.method == "POST" then memory_route request.pathname else none

module _ {W : Type 0} (deps : Dependencies W) (services : Services W) where
  -- _facade_body
  abbrev pub facade_body : BodyMode → Option PrincipalSession → String → Call W (Option Fields)
  facade_body no_body principal scope = pure none
  facade_body mode principal scope =
      deps.json_body_or_empty (body_limit principal scope) >>= λ raw. lift (accept_body mode raw)

  abbrev pub checked_reflect : FacadeRoute → Option Fields → Result (Option Fields)
  checked_reflect route none = ok none
  checked_reflect route (some fs) =
      if route.template == "reflect"
      then and_then (parse_reflect_body deps.dumps deps.validate_recall (object fs))
          (λ body. ok (some body.fields))
      else ok (some fs)

  abbrev pub scope_of : Option PrincipalSession → FacadeRoute → Request → Result String
  scope_of none route request = facade_scope deps.parse_bool route []
  scope_of (some p) route request = facade_scope deps.parse_bool route request.query

  -- the rate and the grant of a principal
  abbrev pub admit_principal : Option PrincipalSession → String → String → Call W (Unit {0})
  admit_principal none scope bank = pure tt
  admit_principal (some p) scope bank =
      deps.principal_rate p scope
      >> (lift (require deps.resolver) >>= λ resolver. lift (require_grant resolver p scope bank))

  abbrev pub run : Option PrincipalSession → String → Call W Json → Call W Json
  run none scope operation = operation
  run (some p) scope operation = deps.concurrency p scope operation

  -- _dispatch_facade, past the match
  unfoldable pub answer_facade :
      Request → Option PrincipalSession → FacadeRoute → List (String × String) → Call W HttpResponse
  answer_facade request principal route groups =
      let bank : String = group "bank" groups in
      lift (scope_of principal route request) >>= λ scope.
      admit_principal principal scope bank
      >> (facade_body route.body principal scope >>= λ raw.
          lift (checked_reflect route raw) >>= λ body.
          run principal scope (
            services.forward record {
              route = route;
              writer_id = writer_of principal bank;
              params = map (named groups) route.params;
              body = body;
              query = request.query;
              bank_override = override_of principal bank;
              source = source_of principal;
            })
          >>= λ payload. pure record { status = route.success_status; payload = payload })

  -- the facade, then the denial
  unfoldable pub answer_matched :
      Request → Option PrincipalSession → Option Matched → Call W HttpResponse
  answer_matched request principal (some (route, groups)) =
      answer_facade request principal route groups
  answer_matched request principal none = answer_denied deps services request principal

  unfoldable pub answer_memory_of : Option PrincipalSession → String → Bool → Call W HttpResponse
  answer_memory_of (some p) bank is_recall = answer_memory deps services p bank is_recall
  answer_memory_of none bank is_recall = answer_legacy_memory deps services bank is_recall

  -- the memories, or what comes after them
  unfoldable pub answer_path :
      Request → Option PrincipalSession → Option (String × Bool) → Call W HttpResponse
  answer_path request principal (some (segment, is_recall)) =
      lift (deps.decode_path_segment segment) >>= λ bank. answer_memory_of principal bank is_recall
  answer_path request principal none =
      lift (match_facade deps.decode_path_segment request) >>= λ matched.
      answer_matched request principal matched

  -- AuthenticatedRequestDispatcher.dispatch
  unfoldable pub dispatch : Request → Option PrincipalSession → Call W HttpResponse
  dispatch request none = answer_path request none (posted request)
  dispatch request (some p) =
      if is_bank_list request
      then answer_bank_list deps services request p
      else answer_path request (some p) (posted request)
