-- ===== src/OpenClaw/Tests.antt =====
-- A facade over a log of the requests to the memory service, and the theorems at it.
use hindsight_memory_router.Common.{
  ap, ◌≡◌, refl, String, true, none, some, List, [], ◌∷◌, ok, Bool-cases, inl, inr, ◌&&◌, ◌||◌, not,
  if◌then◌else◌, arith, Bool,
}
use hindsight_memory_router.Facade.{
  cut, split_path, match_segments, first_match, FacadeRoute, literal, parameter, route, defaults,
  no_body,
}
use hindsight_memory_router.OpenClaw.Confinement.{confined, forward-confined}
use hindsight_memory_router.OpenClaw.Filled.{IsQuote}
use hindsight_memory_router.Paths.{is_dot_segment}
use hindsight_memory_router.OpenClaw.Segments.{is_relative, no_question, no_dots_in}
use hindsight_memory_router.Paths.Splitting.{no_slash}
use hindsight_memory_router.Facade.Table.{match_facade_route}
use hindsight_memory_router.Principals.{lookup}
use hindsight_memory_router.OpenClaw.{
  put_params, all_supplied, facade_path, scan_input, request_evidence, Env, forwarded,
  validate_required_query, validate_request_bounds,
}
use hindsight_memory_router.OpenClaw.Contracts.{validate_facade_response}
use hindsight_memory_router.OpenClaw.Forwarding.{
  only_scan_limit_findings, validate_safe_response, exchange, validate_safe_request, admit_request,
  target_bank, forward, validate_contract,
}
use hindsight_memory_router.Json.{object, end}
use hindsight_memory_router.Common.Action.{pure}
use hindsight_memory_router.Policy.{Scan}
use hindsight_memory_router.Dispatch.{Forward}
use hindsight_memory_router.OpenClaw.Laws.{RequestIsSafe, AnswerIsSafe, forward-IsSafe}

abbrev clean : Scan
clean = record { findings = []; transformations = [] }

abbrev env : Env (List String)
env = record {
  writers = ("writer", "work") ∷ [];
  limits = record {
    retain_writer_max = 10;
    retain_global_max = 10;
    recall_writer_max = 10;
    recall_global_max = 10;
    rate_limit_window_ms = 1000;
    max_retain_items = 10;
    max_retain_content_bytes = 100;
    max_recall_query_bytes = 100;
    max_recall_max_tokens = 100;
  };
  dumps = λ value. ok "";
  sha256_hex = λ text. "digest";
  type_repr = λ value. "type";
  quote = λ text. text;
  urlencode = λ query. "";
  is_valid = λ model value. true;
  consume_recall = λ writer. pure tt;
  consume_retain = λ writer. pure tt;
  scan_request = λ input mode writer query. pure clean;
  scan_facade_response = λ value writer separate. pure clean;
  openclaw_request = λ u log. (ok (some (object end)), u.path ∷ log);
  put = λ input. pure tt;
}

abbrev get_memory : FacadeRoute
get_memory = route "GET" (literal "memories" ∷ parameter "memory_id" ∷ []) true no_body defaults

abbrev asked : Forward
asked = record {
  route = get_memory;
  writer_id = "agent";
  params = ("memory_id", "m1") ∷ [];
  body = none;
  query = [];
  bank_override = some "work";
  source = "application";
}

answered :
    forward env asked [] ≡ (ok (some (object end)), "/v1/default/banks/work/memories/m1" ∷ [])
unfolding forward target_bank admit_request validate_required_query validate_request_bounds
    request_evidence scan_input validate_safe_request exchange facade_path validate_safe_response
    forwarded all_supplied put_params only_scan_limit_findings validate_facade_response lookup
answered = refl

forward-IsSafe_example :
    (validate_required_query get_memory (forwarded [] []) ≡ ok tt)
    × (validate_request_bounds env.limits get_memory none ≡ ok tt)
    × RequestIsSafe env asked (forwarded [] [])
    × AnswerIsSafe env asked (some (object end))
    × (validate_contract env asked (some (object end)) ≡ ok tt)
forward-IsSafe_example =
    forward-IsSafe env asked (some (object end)) [] ("/v1/default/banks/work/memories/m1" ∷ [])
      answered

-- a text that is safe as it stands, and another one in place of any other
abbrev is_safe : String → Bool
is_safe t = no_slash t && no_question t && (is_relative t || not (is_dot_segment t))

abbrev quote : String → String
quote t = if is_safe t then t else "%25"

quote-IsQuote : IsQuote quote
unfolding no_slash no_question is_dot_segment hindsight_memory_router.Paths.percent_dots
quote-IsQuote t = elim (Bool-cases (is_safe t)) [
  | inl safe ↦ (ground arith, ground arith, λ plain. ground arith)
  | inr other ↦
      let same : quote t ≡ "%25" = rw other refl in
      (ap no_slash same, ap no_question same, λ plain. ap is_dot_segment same)
]

abbrev pathname : String
pathname = "/v1/default/banks/work/memories/m1"

get_matched :
    match_facade_route "GET" pathname
    ≡ some (get_memory, ("bank", "work") ∷ ("memory_id", "m1") ∷ [])
unfolding match_facade_route first_match match_segments split_path cut
get_matched = refl

forward-confined_example :
    forward (confined "work" get_memory (record env { quote = quote })) asked []
    ≡ forward (record env { quote = quote }) asked []
unfolding no_dots_in
forward-confined_example =
    forward-confined (record env { quote = quote }) "work" "GET" pathname
      (("bank", "work") ∷ ("memory_id", "m1") ∷ []) asked [] quote-IsQuote get_matched refl refl
