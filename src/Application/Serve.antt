-- ===== src/Application/Serve.antt =====
-- The entry of every request but the probes (`dispatch` of memory_router/app.py), over the gates, the
-- administration and the dispatcher. The endpoints of the metrics, of the version and of the human
-- login are parameters. A start and a stop of the process are left out, so every component is there.
use hindsight_memory_router.Common.{
  inr, inl, Bool-cases, arith, ◌≡◌, refl, Bool, true, false, Option, none, some, ◌==◌, ◌&&◌,
  starts_with, if◌then◌else◌, ok,
}
use hindsight_memory_router.Common.Action.{Call, ◌>>=◌, pure, lift}
use hindsight_memory_router.Principals.{PrincipalRegistry, PrincipalSession}
use hindsight_memory_router.Dispatch.{HttpResponse, Request, Services, Dependencies}
use hindsight_memory_router.Dispatch.Forwarding.{dispatch}
use hindsight_memory_router.Dispatch.Monitor.{monitored}
use hindsight_memory_router.Dispatch.Monitor.Laws.{dispatch-monitored}
use hindsight_memory_router.Application.{
  HttpRequest, Runtime, json_body, json_body_or_empty, principal_rate, with_principal_concurrency,
  router_auth, authenticate_principal,
}
use hindsight_memory_router.Application.Routes.{
  AdminService, dispatch_admin, error_payload, unauthorized,
}

-- what else the entry reaches
pub record Endpoints (W : Type 0) : Type 0 where
  pub human : Option (HttpRequest → Call W HttpResponse)
  pub metrics_enabled : Bool
  pub metrics : HttpRequest → Call W HttpResponse
  pub version : Call W HttpResponse
  pub administration : AdminService W

module _ {W : Type 0} (runtime : Runtime W) (endpoints : Endpoints W) (base : Dependencies W) where
  -- the `DispatchDependencies` that the entry makes of a request
  abbrev pub dependencies : HttpRequest → Dependencies W
  dependencies http = record base {
    resolver = runtime.resolver;
    json_body = λ most. lift (json_body runtime http most);
    json_body_or_empty = λ most. lift (json_body_or_empty runtime http most);
    principal_rate = principal_rate runtime;
    concurrency = with_principal_concurrency runtime;
  }

  abbrev pub request_of : HttpRequest → Request
  request_of http = record { method = http.method; pathname = http.pathname; query = http.query }

  abbrev pub human_response :
      HttpRequest → Option (HttpRequest → Call W HttpResponse) → Call W HttpResponse
  human_response http none = pure record { status = 404; payload = error_payload "not_found" }
  human_response http (some human) = human http

  abbrev pub is_version : HttpRequest → Bool
  is_version http = (http.method == "GET") && (http.pathname == "/version")

  -- the handler of a request that is authenticated, as a principal or by the token of the router
  unfoldable pub answer : Services W → HttpRequest → Option PrincipalSession → Call W HttpResponse
  answer services http principal =
      if is_version http
      then endpoints.version
      else dispatch (dependencies http) services (request_of http) principal

  abbrev pub answer_principal :
      Services W → HttpRequest → Option PrincipalSession → Call W HttpResponse
  answer_principal services http none = pure unauthorized
  answer_principal services http (some session) = answer services http (some session)

  abbrev pub answer_token : Services W → HttpRequest → Bool → Call W HttpResponse
  answer_token services http false = pure unauthorized
  answer_token services http true = answer services http none

  unfoldable pub answer_router :
      Services W → HttpRequest → Option PrincipalRegistry → Call W HttpResponse
  answer_router services http (some registry) =
      authenticate_principal runtime http "router" >>= answer_principal services http
  answer_router services http none = router_auth runtime http >>= answer_token services http

  abbrev pub is_metrics : HttpRequest → Bool
  is_metrics http =
      (http.pathname == "/metrics") && (http.method == "GET") && endpoints.metrics_enabled

  -- dispatch
  unfoldable pub serve : Services W → HttpRequest → Call W HttpResponse
  serve services http =
      if starts_with "/auth/human/" http.pathname
      then human_response http endpoints.human
      else if starts_with "/admin/" http.pathname
      then dispatch_admin runtime base.decode_path_segment endpoints.administration http
      else if is_metrics http
      then endpoints.metrics http
      else answer_router services http runtime.resolver

  answer-monitored :
      (registry : PrincipalRegistry) (session : PrincipalSession) (services : Services W)
      (http : HttpRequest) (s : W)
      → runtime.resolver ≡ some registry
      → answer (monitored registry session base.parse_bool services) http (some session) s
        ≡ answer services http (some session) s
  unfolding answer
  answer-monitored registry session services http s r = elim (Bool-cases (is_version http)) [
    | inl q ↦ rw q refl
    | inr q ↦
        rw q
          (dispatch-monitored registry session (dependencies http) services (request_of http) s r)
  ]

  answer_router-monitored :
      (registry : PrincipalRegistry) (session : PrincipalSession) (services : Services W)
      (http : HttpRequest) (resolver : Option PrincipalRegistry) (s w : W)
      → runtime.resolver ≡ some registry
      → resolver ≡ some registry
      → authenticate_principal runtime http "router" s ≡ (ok (some session), w)
      → answer_router (monitored registry session base.parse_bool services) http resolver s
        ≡ answer_router services http resolver s
  unfolding answer_router
  answer_router-monitored registry session services http none s w r e a = absurd (ground arith)
  answer_router-monitored registry session services http (some found) s w r e a =
      ground (arith, answer-monitored registry session services http w r)

  -- Where the runtime has a registry of principals, and the credentials of a request authenticate a
  -- session in the state in which it arrives, the request is handled the same, whatever its path, when
  -- a monitor stands before the services. The monitor refuses all calls that are not for a principal;
  -- a recall, a retain or a forwarded request that does not bear the session's name and source, or for
  -- whose scope the session is not authorized on the bank; a list of banks one of which the session
  -- may not list; and a denial that does not bear the session's name, or that gives a bank which no
  -- grant of the session names.
  pub serve-monitored :
      (registry : PrincipalRegistry) (session : PrincipalSession) (services : Services W)
      (http : HttpRequest) (s w : W)
      → runtime.resolver ≡ some registry
      → authenticate_principal runtime http "router" s ≡ (ok (some session), w)
      → serve (monitored registry session base.parse_bool services) http s ≡ serve services http s
  unfolding serve
  serve-monitored registry session services http s w r a =
      let routed =
        answer_router-monitored registry session services http runtime.resolver s w r r a in
      elim (Bool-cases (starts_with "/auth/human/" http.pathname)) [
        | inl p ↦ rw p refl
        | inr p ↦ elim (Bool-cases (starts_with "/admin/" http.pathname)) [
          | inl q ↦ rw (p, q) refl
          | inr q ↦ elim (Bool-cases (is_metrics http)) [
            | inl m ↦ rw (p, q, m) refl
            | inr m ↦ rw (p, q, m) routed
          ]
        ]
      ]
