-- ===== src/Application/Tests.antt =====
-- An administration over a log of the calls of its service, and the theorem at it.
use hindsight_memory_router.Application.Monitor.{dispatch_admin-monitored}
use hindsight_memory_router.Application.Gates.{monitored, may_review}
use hindsight_memory_router.Json.{
  assert_json_depth, depth_loop, push_entries, push_fields, Json, string, object, end,
}
use hindsight_memory_router.Application.Bodies.{json_body_or_empty-IsBounded, stream}
use hindsight_memory_router.Json.Laws.{depth}
use hindsight_memory_router.Application.{
  limit_of, parse_bytes, ℕ, size, read_chunks, Option, json_body_or_empty, authenticate_principal,
  admin_rate, auth_failure_rate, admin_auth, HttpRequest, Runtime,
}
use hindsight_memory_router.Common.{◌≤◌, ◌≡◌, refl, String, false, none, some, List, [], ◌∷◌, ok}
use hindsight_memory_router.Dispatch.Monitor
use hindsight_memory_router.Dispatch.Tests.{registry, session, services, deps}
use hindsight_memory_router.Principals.{authenticated, lookup, unknown_key}
use hindsight_memory_router.Application.Serve.{Endpoints, serve, serve-monitored}
use hindsight_memory_router.Facade.{match_segments, split_path, cut}
use hindsight_memory_router.Tokens.{
  admin_authorized, admin_token_scope, admin_slot_candidates, any_matches, bearer_matches,
  first_match, admin_token_recognized,
}
use hindsight_memory_router.Application.Routes.{
  run_call, item_call, admin_call, answer_admin, answer_stranger, scope_of, AdminService,
  dispatch_admin, unauthorized,
}
use hindsight_memory_router.Common.Action.{Call, pure}

abbrev said : String → Call (List String) Json
said text log = (ok (string text), text ∷ log)

abbrev runtime : Runtime (List String)
runtime = record {
  router_token = none;
  allow_anonymous = false;
  admin_tokens = record { legacy = none; read = some "r"; review = some "w"; cleanup = none };
  resolver = none;
  authenticate_request = λ authorization. pure unknown_key;
  auth_prefilter = λ buckets. pure tt;
  auth_limiter = λ buckets. pure tt;
  principal_limiter = λ buckets. pure tt;
  admin_limiter = λ buckets. pure tt;
  concurrency = λ bucket most operation. operation;
  is_lease_unavailable = λ e. false;
  persist = λ group log. (ok tt, group ∷ log);
  auth_failure_max = 10;
  auth_failure_window = 1000;
  admin_read_max = 10;
  admin_write_max = 10;
  admin_window = 1000;
  max_body_bytes = 100;
  loads = λ bytes. some (object end);
}

abbrev service : AdminService (List String)
service = record {
  list_queue = λ query banks. said "list_queue";
  stats = said "stats";
  bank_stats = λ banks. said "bank_stats";
  cleanup = λ body slot. said "cleanup";
  read_item = λ id. said "read_item";
  approve = λ id body slot. said "approve";
  reject = λ id slot. said slot;
  postpone = λ id slot. said "postpone";
  reconcile = λ id body slot. said "reconcile";
}

-- a rejection with a token
abbrev rejecting : String → HttpRequest
rejecting authorization = record {
  method = "POST";
  pathname = "/admin/quarantine/items/q1/reject";
  query = [];
  authorization = some authorization;
  claimed_agent = none;
  content_length = none;
  chunks = [];
}

rejected :
    dispatch_admin runtime (λ segment. ok segment) service (rejecting "Bearer w") []
    ≡ (ok record { status = 200; payload = string "review" }, "review" ∷ [])
unfolding dispatch_admin scope_of admin_authorized admin_token_scope admin_slot_candidates
    any_matches bearer_matches first_match answer_admin admin_rate admin_call item_call run_call
    match_segments split_path cut lookup
rejected = refl

-- the token for reading decides nothing, and is not counted as a guess
read_only :
    dispatch_admin runtime (λ segment. ok segment) service (rejecting "Bearer r") []
    ≡ (ok unauthorized, [])
unfolding dispatch_admin scope_of admin_authorized admin_slot_candidates any_matches bearer_matches
    answer_stranger admin_auth auth_failure_rate admin_token_recognized
read_only = refl

-- the runtime where the credentials of every request are the agent's
abbrev of_agent : Runtime (List String)
of_agent = record runtime {
  resolver = some registry;
  authenticate_request = λ authorization. pure (authenticated session);
}

abbrev endpoints : Endpoints (List String)
endpoints = record {
  human = none;
  metrics_enabled = false;
  metrics = λ http. pure unauthorized;
  version = pure unauthorized;
  administration = service;
}

abbrev recalling : HttpRequest
recalling = record {
  method = "POST";
  pathname = "/v1/default/banks/work/memories/recall";
  query = [];
  authorization = some "Bearer mr_agent";
  claimed_agent = some "agent";
  content_length = none;
  chunks = (1 ∷ []) ∷ [];
}

abbrev reading_stats : HttpRequest
reading_stats = record recalling { method = "GET"; pathname = "/admin/quarantine/stats" }

dispatch_admin-monitored_example :
    dispatch_admin of_agent
      (λ segment. ok segment)
      (monitored of_agent.admin_tokens
        (some "Bearer mr_agent")
        (may_review (some registry) (authenticate_principal of_agent reading_stats "admin" []).0)
        service)
      reading_stats
      []
    ≡ dispatch_admin of_agent (λ segment. ok segment) service reading_stats []
dispatch_admin-monitored_example =
    dispatch_admin-monitored of_agent (λ segment. ok segment) service reading_stats []

is_agent : authenticate_principal of_agent recalling "router" [] ≡ (ok (some session), [])
unfolding authenticate_principal
is_agent = refl

serve-monitored_example :
    serve of_agent endpoints deps
      (Monitor.monitored registry session deps.parse_bool services)
      recalling
      []
    ≡ serve of_agent endpoints deps services recalling []
serve-monitored_example =
    serve-monitored of_agent endpoints deps registry session services recalling [] [] refl is_agent

abbrev body : Option ℕ
body = some 10

read_body : json_body_or_empty runtime recalling body ≡ ok (some (object end))
unfolding json_body_or_empty read_chunks size parse_bytes assert_json_depth depth_loop push_entries
    push_fields hindsight_memory_router.Json.size
read_body = refl

json_body_or_empty-IsBounded_example :
    (runtime.loads (stream recalling.chunks []) ≡ some (object end))
    × (size (stream recalling.chunks []) ≤ 100)
    × (size (stream recalling.chunks []) ≤ limit_of 100 body)
    × (depth (object end) ≤ 64)
json_body_or_empty-IsBounded_example =
    json_body_or_empty-IsBounded runtime recalling body (object end) read_body
