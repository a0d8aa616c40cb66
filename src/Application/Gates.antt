-- ===== src/Application/Gates.antt =====
-- A service of the administration behind a check of every call (memory_router/app.py): of the token,
-- or of the grants of the principal that the request authenticates as.
use hindsight_memory_router.Common.{
  ◌≡◌, String, Bool, true, false, Option, none, some, List, opt_eq, is_some, if◌then◌else◌,
  runtime_error, Result,
}
use hindsight_memory_router.Principals.{PrincipalRegistry, PrincipalSession}
use hindsight_memory_router.Application.Routes.{AdminService}
use hindsight_memory_router.Dispatch.Monitor.{all_authorized}
use hindsight_memory_router.Application.{ok}
use hindsight_memory_router.Common.Action.{Call, raise}
use hindsight_memory_router.Json.{Json}
use hindsight_memory_router.Tokens.{AdminTokens, admin_token_scope}

abbrev pub gated_queue :
    {W : Type 0}
    → Bool
    → (List String → Bool)
    → (List (String × String) → Option (List String) → Call W Json)
    → List (String × String)
    → Option (List String)
    → Call W Json
gated_queue gate scoped service query none =
    if gate then service query none else raise (runtime_error "refused")
gated_queue gate scoped service query (some banks) =
    if scoped banks then service query (some banks) else raise (runtime_error "refused")

-- A service that asks `reads` before it reads for a token, `scoped` before it reads for banks, and
-- `reviews` and `cleans` of the slot that is to be recorded.
abbrev pub gated :
    {W : Type 0}
    → Bool
    → (List String → Bool)
    → (String → Bool)
    → (String → Bool)
    → AdminService W
    → AdminService W
gated reads scoped reviews cleans service = record {
  list_queue = gated_queue reads scoped service.list_queue;
  stats = if reads then service.stats else raise (runtime_error "refused");
  bank_stats =
      λ banks. if scoped banks then service.bank_stats banks else raise (runtime_error "refused");
  cleanup = λ body slot.
      if cleans slot then service.cleanup body slot else raise (runtime_error "refused");
  read_item = λ id. if reads then service.read_item id else raise (runtime_error "refused");
  approve = λ id body slot.
      if reviews slot then service.approve id body slot else raise (runtime_error "refused");
  reject =
      λ id slot. if reviews slot then service.reject id slot else raise (runtime_error "refused");
  postpone =
      λ id slot. if reviews slot then service.postpone id slot else raise (runtime_error "refused");
  reconcile = λ id body slot.
      if reviews slot then service.reconcile id body slot else raise (runtime_error "refused");
}

-- the request bears a token of the scope
abbrev pub bears : AdminTokens → Option String → String → Bool
bears tokens authorization scope = is_some (admin_token_scope authorization scope tokens)

-- the request bears the token of the slot, and the slot is one of the scope
abbrev pub bears_as : AdminTokens → Option String → String → String → Bool
bears_as tokens authorization scope slot =
    opt_eq (admin_token_scope authorization scope tokens) (some slot)

-- the authentication has given a principal, who may review each of the banks
abbrev pub may_review :
    Option PrincipalRegistry → Result (Option PrincipalSession) → List String → Bool
may_review (some registry) (ok (some session)) banks =
    all_authorized registry session "quarantine.review" banks
may_review _ _ banks = false

pub may_review-holds :
    (resolver : Option PrincipalRegistry) (answer : Result (Option PrincipalSession))
    (registry : PrincipalRegistry) (session : PrincipalSession) (banks : List String)
    → resolver ≡ some registry
    → answer ≡ ok (some session)
    → all_authorized registry session "quarantine.review" banks ≡ true
    → may_review resolver answer banks ≡ true
may_review-holds resolver answer registry session banks r a m = rw (r, a) m

-- The service behind a check of every call: reading for a token asks for a token of the scope `read`,
-- reading for banks asks `scoped`, a decision asks for the slot's token in `review`, the cleanup for
-- it in `cleanup`.
abbrev pub monitored :
    {W : Type 0}
    → AdminTokens
    → Option String
    → (List String → Bool)
    → AdminService W
    → AdminService W
monitored tokens authorization scoped service =
    gated (bears tokens authorization "read") scoped (bears_as tokens authorization "review")
      (bears_as tokens authorization "cleanup") service
