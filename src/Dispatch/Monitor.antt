-- ===== src/Dispatch/Monitor.antt =====
-- Dispatching a principal's request asks the services only for what its grants allow
-- (memory_router/request_dispatch.py): a monitor that checks every call of them changes nothing.
pub mod Handlers
pub mod Laws
use hindsight_memory_router.Json.{Json, Fields}
use hindsight_memory_router.Common.{
  arith, ◌≡◌, refl, sym, ◌∙◌, ap, eq_iff, ==_self, inl, inr, Bool-cases, Option-cases, Result-cases,
  ℕ, String, Bool, true, false, Option, none, some, List, [], ◌∷◌, ◌==◌, ◌&&◌, not, opt_eq, is_some,
  member, if◌then◌else◌, Error, runtime_error, Result, ok, err, raise_if,
}
use hindsight_memory_router.Common.Action.{Call, ◌>>=◌, ◌>>◌, pure, raise, lift}
use hindsight_memory_router.Principals.{
  PrincipalRegistry, PrincipalSession, authorize, granted, lookup, list_banks, banks_with_scope,
}
use hindsight_memory_router.Principals.Laws.{member-banks_with_scope}
use hindsight_memory_router.Facade.{FacadeRoute, facade_scope}
use hindsight_memory_router.Dispatch.{
  HttpResponse, Forward, Services, Dependencies, Request, require, require_grant, group, any_bank,
  answer_bank_list, answer_memory, answer_denied, answer_recall, answer_retain, granted_denied_bank,
  bank_path_segment, bank_list_query, list_safe_banks,
}
use hindsight_memory_router.Dispatch.Forwarding.{
  Matched, answer_facade, answer_matched, answer_memory_of, answer_path, dispatch, posted,
  match_facade, scope_of, admit_principal, facade_body, checked_reflect, run,
}

-- what the monitor does with a call that it does not allow
abbrev pub refused : {W A : Type 0} → Call W A
refused = raise (runtime_error "refused")

unfoldable pub all_authorized : PrincipalRegistry → PrincipalSession → String → List String → Bool
all_authorized registry session scope [] = true
all_authorized registry session scope (b ∷ bs) =
    authorize registry session scope b && all_authorized registry session scope bs

abbrev pub scope_allows :
    PrincipalRegistry → PrincipalSession → Option String → Result String → Bool
scope_allows registry session (some bank) (ok scope) = authorize registry session scope bank
scope_allows registry session _ _ = false

abbrev pub bank_allows : PrincipalSession → Option String → Bool
bank_allows session none = true
bank_allows session (some bank) = any_bank bank session.grants

-- the name and the source that a call gives are the session's
abbrev pub is_own : PrincipalSession → String → String → Bool
is_own session principal_id source =
    (principal_id == session.principal_id) && (source == session.source)

module _ {W : Type 0} (registry : PrincipalRegistry) (session : PrincipalSession)
    (parse_bool : String → Option Bool) where
  abbrev pub monitored_recall_bank :
      {B : Type 0}
      → String
      → (String → String → B → String → Call W Json)
      → String
      → String
      → B
      → String
      → Call W Json
  monitored_recall_bank scope service principal_id bank body source =
      if is_own session principal_id source && authorize registry session scope bank
      then service principal_id bank body source
      else refused

  abbrev pub monitored_forward : (Forward → Call W Json) → Forward → Call W Json
  monitored_forward service f =
      if is_own session f.writer_id f.source
        && scope_allows registry session f.bank_override (facade_scope parse_bool f.route f.query)
      then service f
      else refused

  abbrev pub monitored_list_banks :
      (List String → Option String → ℕ → ℕ → Call W Json)
      → List String
      → Option String
      → ℕ
      → ℕ
      → Call W Json
  monitored_list_banks service banks q limit offset =
      if all_authorized registry session "bank.list" banks
      then service banks q limit offset
      else refused

  abbrev pub monitored_validate_banks :
      (String → String → Json → Call W (Unit {0})) → String → String → Json → Call W (Unit {0})
  monitored_validate_banks service principal_id source payload =
      if is_own session principal_id source then service principal_id source payload else refused

  abbrev pub monitored_deny_endpoint :
      (String → String → Option String → Option String → Call W Json)
      → String
      → String
      → Option String
      → Option String
      → Call W Json
  monitored_deny_endpoint service method path writer_id bank =
      if opt_eq writer_id (some session.principal_id) && bank_allows session bank
      then service method path writer_id bank
      else refused

  -- The services behind a monitor. It allows a call that gives the session's own name and source,
  -- where the session holds the scope of the call on its bank, and none that is not for a principal.
  abbrev pub monitored : Services W → Services W
  monitored services = record {
    recall_bank = monitored_recall_bank "memory.recall" services.recall_bank;
    retain_bank = monitored_recall_bank "memory.retain" services.retain_bank;
    recall = λ writer_id body. refused;
    retain = λ writer_id body. refused;
    forward = monitored_forward services.forward;
    list_banks = monitored_list_banks services.list_banks;
    validate_banks = monitored_validate_banks services.validate_banks;
    deny_endpoint = monitored_deny_endpoint services.deny_endpoint;
  }
