-- ===== src/Dispatch/Monitor/Laws.antt =====
-- Every handler behaves the same behind the monitor (memory_router/request_dispatch.py).
use hindsight_memory_router.Common.Action.{Act-cases, ◌>>◌, raise}
use hindsight_memory_router.Dispatch.{
  is_bank_list, denied, Services, Dependencies, Request, require, require_grant, group,
  answer_bank_list,
}
use hindsight_memory_router.Common.{
  arith, ◌≡◌, sym, ◌∙◌, ap, inl, inr, Bool-cases, Result-cases, String, Bool, true, false, Option,
  none, some, List, ◌&&◌, if◌then◌else◌, Error, ok, err,
}
use hindsight_memory_router.Principals.{PrincipalRegistry, PrincipalSession, authorize}
use hindsight_memory_router.Facade.{FacadeRoute, facade_scope}
use hindsight_memory_router.Dispatch.Forwarding.{
  Matched, answer_facade, answer_matched, answer_memory_of, answer_path, dispatch, posted,
  match_facade,
}
use hindsight_memory_router.Dispatch.Monitor.{refused, scope_allows, is_own, monitored}
use hindsight_memory_router.Dispatch.Monitor.Handlers.{
  guarded, own, answer_memory-monitored, answer_banks-monitored, answer_denied-monitored,
}

module _ {W : Type 0} (registry : PrincipalRegistry) (session : PrincipalSession)
    (deps : Dependencies W) (services : Services W) where
  answer_facade-denied :
      (any : Services W) (request : Request) (route : FacadeRoute) (groups : List (String × String))
      (scope : String) (s : W)
      → deps.resolver ≡ some registry
      → facade_scope deps.parse_bool route request.query ≡ ok scope
      → authorize registry session scope (group "bank" groups) ≡ false
      → answer_facade deps any request (some session) route groups s
        ≡ (deps.principal_rate session scope >> raise denied) s
  unfolding answer_facade require require_grant
  answer_facade-denied any request route groups scope s r q h =
      elim (Act-cases (deps.principal_rate session scope s)) [
        | inl (u, t, p) ↦ ground arith
        | inr (e, t, p) ↦ ground arith
      ]

  answer_facade-unscoped :
      (any : Services W) (request : Request) (route : FacadeRoute) (groups : List (String × String))
      (s : W) (e : Error)
      → facade_scope deps.parse_bool route request.query ≡ err e
      → answer_facade deps any request (some session) route groups s ≡ (err e, s)
  unfolding answer_facade
  answer_facade-unscoped any request route groups s e q = ground arith

  answer_facade-monitored_granted :
      (request : Request) (route : FacadeRoute) (groups : List (String × String)) (s : W)
      → (is_own session session.principal_id session.source
          && scope_allows registry session
              (some (group "bank" groups))
              (facade_scope deps.parse_bool route request.query))
        ≡ true
      → answer_facade deps
          (guarded registry session deps services)
          request
          (some session)
          route
          groups
          s
        ≡ answer_facade deps services request (some session) route groups s
  unfolding answer_facade
  answer_facade-monitored_granted request route groups s h =
      ap
        (λ c.
          answer_facade deps
            (record services { forward = λ f. if c then services.forward f else refused }) request
            (some session) route groups s)
        h

  answer_facade-monitored :
      (request : Request) (route : FacadeRoute) (groups : List (String × String)) (s : W)
      → deps.resolver ≡ some registry
      → answer_facade deps
          (guarded registry session deps services)
          request
          (some session)
          route
          groups
          s
        ≡ answer_facade deps services request (some session) route groups s
  answer_facade-monitored request route groups s r =
      let bank : String = group "bank" groups in
      elim (Result-cases (facade_scope deps.parse_bool route request.query)) [
        | inr (e, q) ↦
            answer_facade-unscoped (guarded registry session deps services) request route groups s e
              q
            ∙ sym (answer_facade-unscoped services request route groups s e q)
        | inl (scope, q) ↦ elim (Bool-cases (authorize registry session scope bank)) [
          | inl h ↦
              answer_facade-monitored_granted request route groups s
                (ground (arith, own registry session deps services))
          | inr h ↦
              answer_facade-denied (guarded registry session deps services) request route groups
                scope s r q h
              ∙ sym (answer_facade-denied services request route groups scope s r q h)
        ]
      ]

  answer_matched-monitored :
      (request : Request) (matched : Option Matched) (s : W)
      → deps.resolver ≡ some registry
      → answer_matched deps
          (guarded registry session deps services)
          request
          (some session)
          matched
          s
        ≡ answer_matched deps services request (some session) matched s
  unfolding answer_matched
  answer_matched-monitored request none s r =
      answer_denied-monitored registry session deps services request s
  answer_matched-monitored request (some (route, groups)) s r =
      answer_facade-monitored request route groups s r

  answer_path-monitored :
      (request : Request) (memory : Option (String × Bool)) (s : W)
      → deps.resolver ≡ some registry
      → answer_path deps (guarded registry session deps services) request (some session) memory s
        ≡ answer_path deps services request (some session) memory s
  unfolding answer_path answer_memory_of
  answer_path-monitored request none s r =
      elim (Result-cases (match_facade deps.decode_path_segment request)) [
        | inl (matched, q) ↦ ground (arith, answer_matched-monitored request matched s r)
        | inr (e, q) ↦ ground arith
      ]
  answer_path-monitored request (some (segment, is_recall)) s r =
      elim (Result-cases (deps.decode_path_segment segment)) [
        | inl (bank, q) ↦
            ground
              (arith, answer_memory-monitored registry session deps services bank is_recall s r)
        | inr (e, q) ↦ ground arith
      ]

  answer_bank_list-monitored :
      (request : Request) (s : W)
      → deps.resolver ≡ some registry
      → answer_bank_list deps (guarded registry session deps services) request session s
        ≡ answer_bank_list deps services request session s
  unfolding answer_bank_list require
  answer_bank_list-monitored request s r =
      ground (arith, answer_banks-monitored registry session deps services request s)

  -- The handling of a request of a session by its registry does not change when a monitor stands
  -- before the services.
  pub dispatch-monitored :
      (request : Request) (s : W)
      → deps.resolver ≡ some registry
      → dispatch deps (monitored registry session deps.parse_bool services) request (some session) s
        ≡ dispatch deps services request (some session) s
  unfolding dispatch
  dispatch-monitored request s r = elim (Bool-cases (is_bank_list request)) [
    | inl q ↦ ground (arith, answer_bank_list-monitored request s r)
    | inr q ↦ ground (arith, answer_path-monitored request (posted request) s r)
  ]
