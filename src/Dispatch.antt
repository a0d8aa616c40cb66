-- ===== src/Dispatch.antt =====
-- Which handler an authenticated request goes to, and what is checked before it
-- (memory_router/request_dispatch.py, `require_grant` of memory_router/principal_gate.py).
-- What the handlers call is an environment over a state `W`; Application has the calls of app.py.
-- The `EMPTY_BODY` of a reader is `none`. Logging is left out.
pub mod Query
pub mod Forwarding
pub mod Monitor
pub mod Tests
pub use Query.*
use hindsight_memory_router.Common.{
  ◌++◌, ℕ, String, Bool, true, false, Option, none, some, List, [], ◌∷◌, ◌==◌, ◌&&◌, ◌||◌, not,
  if◌then◌else◌, Error, http_error, runtime_error, Result, ok, err, and_then, raise_if,
}
unfoldable pub use Query.{bank_list_query}
use hindsight_memory_router.Json.{Json, Fields}
use hindsight_memory_router.Common.Action.{Call, ◌>>=◌, ◌>>◌, pure, raise, lift}
use hindsight_memory_router.Principals.{
  PrincipalRegistry, PrincipalSession, PrincipalGrant, ResolvedPrincipalLimit, lookup, authorize,
  list_banks, scope_limit_operation,
}
use hindsight_memory_router.Facade.{
  FacadeRoute, Segment, literal, prefix, match_segments, split_path,
}
use hindsight_memory_router.Limits.{
  HindsightLimitConfig, assert_recall_bounds, assert_retain_bounds,
}
use hindsight_memory_router.Validation.{RecallBody, parse_recall_body, parse_retain_body}
use hindsight_memory_router.Policy.Retain.{RetainBody}

-- JSONResponse, with its status
pub record HttpResponse : Type 0 where
  pub status : ℕ
  pub payload : Json

-- the keyword arguments of `OpenClawFacade.forward`
pub record Forward : Type 0 where
  pub route : FacadeRoute
  pub writer_id : String
  pub params : List (String × String)
  pub body : Option Fields
  pub query : List (String × String)
  pub bank_override : Option String
  pub source : String

-- the operations of the policy, its facade and the gateway that a request may reach
pub record Services (W : Type 0) : Type 0 where
  pub recall_bank : String → String → RecallBody → String → Call W Json
  pub retain_bank : String → String → RetainBody → String → Call W Json
  pub recall : String → RecallBody → Call W Json
  pub retain : String → RetainBody → Call W Json
  pub forward : Forward → Call W Json
  pub list_banks : List String → Option String → ℕ → ℕ → Call W Json
  pub validate_banks : String → String → Json → Call W (Unit {0})
  pub deny_endpoint : String → String → Option String → Option String → Call W Json

-- DispatchDependencies, with the readers of texts and bodies, the limits of the policy and the write
-- bank of each of its writers
pub record Dependencies (W : Type 0) : Type 0 where
  pub resolver : Option PrincipalRegistry
  pub json_body : Option ℕ → Call W Json
  pub json_body_or_empty : Option ℕ → Call W (Option Json)
  pub principal_rate : PrincipalSession → String → Call W (Unit {0})
  pub concurrency : PrincipalSession → String → Call W Json → Call W Json
  pub decode_path_segment : String → Result String
  pub dumps : Json → Result String
  pub validate_recall : Fields → Option RecallBody
  pub validate_retain : Fields → Option RetainBody
  pub parse_int : String → Option (Bool × ℕ)
  pub parse_bool : String → Option Bool
  pub limits : HindsightLimitConfig
  pub writers : List (String × String)

pub record Request : Type 0 where
  pub method : String
  pub pathname : String
  pub query : List (String × String)

-- _require
unfoldable pub require {ℓ} : {A : Type ℓ} → Option A → Result A
require none = err (runtime_error "component is not initialized")
require (some a) = ok a

abbrev pub denied : Error
denied = http_error 403 "authorization_denied"

-- require_grant
unfoldable pub require_grant :
    PrincipalRegistry → PrincipalSession → String → String → Result (Unit {0})
require_grant registry session scope bank =
    raise_if (not (authorize registry session scope bank)) denied

-- match.group(name)
abbrev pub group : String → List (String × String) → String
group name groups = elim (lookup name groups) [ none ↦ "" | some value ↦ value ]

-- the two shapes of MEMORY_ROUTE: the bank, and whether the suffix is there
unfoldable pub memory_route : String → Option (String × Bool)
memory_route pathname =
    elim (match_segments (prefix ++ (literal "memories" ∷ [])) (split_path pathname)) [
      | some groups ↦ some (group "bank" groups, false)
      | none ↦
          elim (match_segments (prefix ++ (literal "memories" ∷ literal "recall" ∷ []))
            (split_path pathname)) [ some groups ↦ some (group "bank" groups, true) | none ↦ none ]
    ]

abbrev pub is_empty : List String → Bool
is_empty [] = true
is_empty (b ∷ banks) = false

abbrev pub is_bank_list : Request → Bool
is_bank_list request = (request.method == "GET") && (request.pathname == "/v1/default/banks")

abbrev pub first_five : List String → List String
first_five (a ∷ b ∷ c ∷ d ∷ e ∷ rest) = a ∷ b ∷ c ∷ d ∷ e ∷ []
first_five path = path

unfoldable pub any_bank : String → List PrincipalGrant → Bool
any_bank candidate [] = false
any_bank candidate (g ∷ gs) = (g.bank == candidate) || any_bank candidate gs

module _ {W : Type 0} (deps : Dependencies W) where
  -- _bank_path_segment
  unfoldable pub bank_path_segment : String → Option String
  bank_path_segment pathname = elim (match_segments prefix (first_five (split_path pathname))) [
    | none ↦ none
    | some groups ↦ elim (deps.decode_path_segment (group "bank" groups)) [
      | ok bank ↦ some bank
      | err e ↦ none
    ]
  ]

  -- _granted_denied_bank
  unfoldable pub granted_denied_bank : String → PrincipalSession → Option String
  granted_denied_bank pathname principal = elim (bank_path_segment pathname) [
    | none ↦ none
    | some candidate ↦ if any_bank candidate principal.grants then some candidate else none
  ]

  -- _known_denied_bank, with the write bank that its caller reads
  unfoldable pub known_denied_bank : String → Option (String × String)
  known_denied_bank pathname = elim (bank_path_segment pathname) [
    | none ↦ none
    | some candidate ↦ elim (lookup candidate deps.writers) [
      | none ↦ none
      | some write_bank ↦ some (candidate, write_bank)
    ]
  ]

module _ {W : Type 0} (deps : Dependencies W) (services : Services W) where
  -- list_safe_banks
  abbrev pub list_safe_banks : PrincipalSession → List String → Option String → ℕ → ℕ → Call W Json
  list_safe_banks principal banks q limit offset =
      services.list_banks banks q limit offset >>= λ payload.
      services.validate_banks principal.principal_id principal.source payload >> pure payload

  -- _dispatch_bank_list, past the resolver
  unfoldable pub answer_banks : PrincipalRegistry → Request → PrincipalSession → Call W HttpResponse
  answer_banks resolver request principal =
      let banks = list_banks resolver principal in
      deps.principal_rate principal "bank.list"
      >> (lift (raise_if (is_empty banks) denied)
          >> (lift (bank_list_query deps.parse_int request.query) >>= λ asked.
              let (q, limit, offset) = asked in
              deps.concurrency principal "bank.list"
                (list_safe_banks principal banks q limit offset)
              >>= λ payload. pure record { status = 200; payload = payload }))

  -- _dispatch_bank_list, past its test
  unfoldable pub answer_bank_list : Request → PrincipalSession → Call W HttpResponse
  answer_bank_list request principal =
      lift (require deps.resolver) >>= λ resolver. answer_banks resolver request principal

  -- the branch of a recall in _dispatch_memory, past the grant
  abbrev pub answer_recall : PrincipalSession → String → ℕ → Call W Json
  answer_recall principal bank body_limit = deps.json_body (some body_limit) >>= λ value.
      lift (parse_recall_body deps.dumps deps.validate_recall value) >>= λ body.
      lift (assert_recall_bounds deps.limits body.query body.max_tokens)
      >> deps.concurrency principal "memory.recall"
          (services.recall_bank principal.principal_id bank body principal.source)

  abbrev pub answer_retain : PrincipalSession → String → ℕ → Call W Json
  answer_retain principal bank body_limit = deps.json_body (some body_limit) >>= λ value.
      lift (parse_retain_body deps.dumps deps.validate_retain value) >>= λ body.
      lift (assert_retain_bounds deps.limits body)
      >> deps.concurrency principal "memory.retain"
          (services.retain_bank principal.principal_id bank body principal.source)

  -- _dispatch_memory for a principal, past the decoding of the bank
  unfoldable pub answer_memory : PrincipalSession → String → Bool → Call W HttpResponse
  answer_memory principal bank is_recall =
      let scope : String = if is_recall then "memory.recall" else "memory.retain" in
      let body_limit = (principal.limits (scope_limit_operation scope)).max_body_bytes in
      deps.principal_rate principal scope
      >> (lift (require deps.resolver) >>= λ resolver.
          lift (require_grant resolver principal scope bank)
          >> ((if is_recall
                then answer_recall principal bank body_limit
                else answer_retain principal bank body_limit)
              >>= λ payload. pure record { status = 200; payload = payload }))

  -- _dispatch_legacy_memory
  unfoldable pub answer_legacy_memory : String → Bool → Call W HttpResponse
  answer_legacy_memory writer_id true = deps.json_body none >>= λ value.
      lift (parse_recall_body deps.dumps deps.validate_recall value) >>= λ body.
      lift (assert_recall_bounds deps.limits body.query body.max_tokens)
      >> (services.recall writer_id body >>= λ payload.
          pure record { status = 200; payload = payload })
  answer_legacy_memory writer_id false = deps.json_body none >>= λ value.
      lift (parse_retain_body deps.dumps deps.validate_retain value) >>= λ body.
      lift (assert_retain_bounds deps.limits body)
      >> (services.retain writer_id body >>= λ payload.
          pure record { status = 200; payload = payload })

  abbrev pub deny_legacy : Request → Option (String × String) → Call W Json
  deny_legacy request none = services.deny_endpoint request.method request.pathname none none
  deny_legacy request (some (writer_id, write_bank)) =
      services.deny_endpoint request.method request.pathname (some writer_id) (some write_bank)

  -- _dispatch_denied
  unfoldable pub answer_denied : Request → Option PrincipalSession → Call W HttpResponse
  answer_denied request (some principal) =
      deps.principal_rate principal "bank.admin"
      >> (services.deny_endpoint request.method request.pathname (some principal.principal_id)
            (granted_denied_bank deps request.pathname principal)
          >>= λ payload. pure record { status = 404; payload = payload })
  answer_denied request none =
      deny_legacy request (known_denied_bank deps request.pathname) >>= λ payload.
      pure record { status = 404; payload = payload }
