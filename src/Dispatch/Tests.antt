-- ===== src/Dispatch/Tests.antt =====
-- A dispatcher over a log of the services that are called, and the theorems at it.
use hindsight_memory_router.Dispatch.Query.{
  any_unsupported, count_key, ranged, bank_list_query, get_or,
}
use hindsight_memory_router.Limits.{assert_recall_bounds}
use hindsight_memory_router.Principals.{
  authorize, lookup, granted, policy_allows, Principal, PrincipalRegistry, PrincipalSession,
  PrincipalGrant, limits_for,
}
use hindsight_memory_router.Facade.{match_segments, split_path, cut}
use hindsight_memory_router.Json.{rfc8785_safe, Json, string, object, end}
use hindsight_memory_router.Dispatch.{
  require_grant, require, answer_memory, memory_route, Services, Dependencies, Request,
}
use hindsight_memory_router.Validation.{has_routing_key, parse_body}
use hindsight_memory_router.Dispatch.Forwarding.{answer_memory_of, answer_path, dispatch}
use hindsight_memory_router.Common.{
  member, ◌≡◌, ◌≤◌, refl, String, false, none, some, List, [], ◌∷◌, ok, err, http_error,
}
use hindsight_memory_router.Dispatch.Query.Laws.{bank_list_query-InRange, AllSupported}
use hindsight_memory_router.Common.Action.{Call, pure}

abbrev grants : List PrincipalGrant
grants = record { bank = "work"; scopes = "memory.recall" ∷ [] } ∷ []

abbrev agent : Principal
agent = record { keys = []; grants = grants; limits = λ op. none; source = "application" }

abbrev pub registry : PrincipalRegistry
registry = record { principals = ("agent", agent) ∷ []; defaults = λ op. none; banks = [] }

abbrev pub session : PrincipalSession
session = record {
  principal_id = "agent";
  key_id = "k";
  grants = grants;
  limits = limits_for registry agent;
  source = "application";
}

abbrev said : String → Call (List String) Json
said name log = (ok (string name), name ∷ log)

abbrev pub services : Services (List String)
services = record {
  recall_bank = λ id bank body source. said "recall_bank";
  retain_bank = λ id bank body source. said "retain_bank";
  recall = λ id body. said "recall";
  retain = λ id body. said "retain";
  forward = λ f. said "forward";
  list_banks = λ banks q limit offset. said "list_banks";
  validate_banks = λ id source payload. pure tt;
  deny_endpoint = λ method path writer bank. said "deny_endpoint";
}

abbrev pub deps : Dependencies (List String)
deps = record {
  resolver = some registry;
  json_body = λ most. pure (object end);
  json_body_or_empty = λ most. pure none;
  principal_rate = λ p scope. pure tt;
  concurrency = λ p scope operation. operation;
  decode_path_segment = λ segment. ok segment;
  dumps = λ value. ok "";
  validate_recall = λ fs. some record { query = "q"; max_tokens = none; fields = fs };
  validate_retain = λ fs. some record { items = []; rest = fs };
  parse_int = λ text. some (false, 7);
  parse_bool = λ text. none;
  limits = record {
    retain_writer_max = 10;
    retain_global_max = 10;
    recall_writer_max = 10;
    recall_global_max = 10;
    rate_limit_window_ms = 1000;
    max_retain_items = 10;
    max_retain_content_bytes = 100;
    max_recall_query_bytes = 100;
    max_recall_max_tokens = 100;
  };
  writers = [];
}

abbrev pub recall_work : Request
recall_work = record {
  method = "POST";
  pathname = "/v1/default/banks/work/memories/recall";
  query = [];
}

abbrev retain_work : Request
retain_work = record { method = "POST"; pathname = "/v1/default/banks/work/memories"; query = [] }

recalled :
    dispatch deps services recall_work (some session) []
    ≡ (ok record { status = 200; payload = string "recall_bank" }, "recall_bank" ∷ [])
unfolding dispatch answer_path memory_route match_segments split_path cut answer_memory_of
    answer_memory require require_grant authorize granted policy_allows lookup member parse_body
    has_routing_key assert_recall_bounds rfc8785_safe
recalled = refl

-- the principal may not retain
retain_denied :
    dispatch deps services retain_work (some session) []
    ≡ (err (http_error 403 "authorization_denied"), [])
unfolding dispatch answer_path memory_route match_segments split_path cut answer_memory_of
    answer_memory require require_grant authorize granted policy_allows lookup member
retain_denied = refl

abbrev asked : List (String × String)
asked = ("limit", "7") ∷ []

accepted : bank_list_query deps.parse_int asked ≡ ok (none, 7, 7)
unfolding bank_list_query any_unsupported count_key lookup ranged member
accepted = refl

bank_list_query-InRange_example :
    AllSupported asked
    × (count_key "q" asked ≤ 1)
    × (count_key "limit" asked ≤ 1)
    × (count_key "offset" asked ≤ 1)
    × (7 ≤ 500)
    × (deps.parse_int (get_or "limit" "100" asked) ≡ some (false, 7))
    × (deps.parse_int (get_or "offset" "0" asked) ≡ some (false, 7))
bank_list_query-InRange_example = bank_list_query-InRange deps.parse_int asked none 7 7 accepted
