-- ===== src/Policy/Tests.antt =====
-- A policy over a log of what is quarantined, where the scan refuses what holds the text "evil", and
-- the theorems at it.
use hindsight_memory_router.Json.{
  Json, Items, Fields, null, boolean, integer, real, string, array, object, nil, cons, end, field,
  rfc8785_safe,
}
use hindsight_memory_router.Common.{
  ◌≡◌, refl, ◌⊎◌, String, Bool, true, false, none, List, [], ◌∷◌, ◌==◌, ◌||◌, if◌then◌else◌,
  gateway_error, unsafe_response, Result, ok, err,
}
use hindsight_memory_router.Policy.{
  Finding, Scan, Input, Response, Env, Scene, lookup_field, put_field, string_projection,
  recalled_content_digest, review_states, state_of, contains, or_null,
}
use hindsight_memory_router.Policy.Recall.Decide.{
  keep_responses, keep_results, keep_result, allow_recalled_or_degrade, allow_recalled, decide,
  pass_if_safe, quarantine_recalled, refresh_dirty_review_state,
}
use hindsight_memory_router.Policy.Recall.Answer.{
  Answer, recall_from_read_banks, gather_answer, recall_from_banks, ask_banks, sort_outcomes,
  allowed_recall_results, merge_fields, merge_responses, allow_recall_aggregate, map_of,
}
use hindsight_memory_router.Policy.Recall.Bounds.{Answered, recall_from_read_banks-Answered}
use hindsight_memory_router.Policy.Retain.{
  RetainBody, legacy, body_json, write_retain, retain_to_bank,
}
use hindsight_memory_router.Policy.Retain.Laws.{
  retain_to_bank_unsafe, write_retain_unacknowledged, is_gateway_error,
}

mutual
  holds_evil : Json → Bool
  holds_evil null = false
  holds_evil (boolean b) = false
  holds_evil (integer s n) = false
  holds_evil (real finite t) = false
  holds_evil (string t) = t == "evil"
  holds_evil (array xs) = evil_items xs
  holds_evil (object fs) = evil_fields fs

  evil_items : Items → Bool
  evil_items nil = false
  evil_items (cons x xs) = holds_evil x || evil_items xs

  evil_fields : Fields → Bool
  evil_fields end = false
  evil_fields (field k x fs) = holds_evil x || evil_fields fs

abbrev finding : Finding
finding = record { matched = "rule"; reason = "evil"; detector = none }

scan_of : Json → Scan
scan_of v =
    if holds_evil v
    then record { findings = finding ∷ []; transformations = [] }
    else record { findings = []; transformations = [] }

abbrev Log : Type 0
Log = List Input

abbrev memory : String → String → Fields
memory id text = field "id" (string id) (field "text" (string text) end)

abbrev bank_answer : Response
bank_answer = record { results = memory "m1" "evil" ∷ memory "m2" "good" ∷ []; maps = [] }

abbrev env : Env Log
env = record {
  dumps = λ v. ok "json";
  sha256_hex = λ t. t;
  repr = λ v. "repr";
  scan_recalled = λ v stable log. (ok (scan_of v), log);
  scan_aggregate = λ v positions log. (ok (scan_of v), log);
  scan_request = λ v log. (ok (scan_of v), log);
  scan_response = λ v log. (ok (scan_of v), log);
  put = λ input log. (ok "q_a", input ∷ log);
  table = λ log. [];
  consume_recall = λ writer log. (ok tt, log);
  consume_retain = λ writer log. (ok tt, log);
  recall = λ bank body log. (ok bank_answer, log);
  retain = λ bank body log. (ok body, log);
}

abbrev scene : Scene Log
scene = record { world = []; states = []; dirty = [] }

-- the evil one of two memories is kept back
abbrev answer : Answer
answer = record {
  results = record { bank = "work"; result = memory "m2" "good"; reviewed = false } ∷ [];
  maps = [];
  failed_banks = 0;
}

abbrev outcome : Result Answer × Scene Log
outcome = recall_from_read_banks env "agent" ("work" ∷ []) (string "hello") "openclaw" scene

recall_kept : outcome ≡ (ok answer, outcome.1)
unfolding recall_from_read_banks gather_answer recall_from_banks ask_banks sort_outcomes
    allowed_recall_results keep_responses keep_results keep_result allow_recalled_or_degrade
    allow_recalled decide pass_if_safe quarantine_recalled refresh_dirty_review_state merge_fields
    merge_responses allow_recall_aggregate map_of recalled_content_digest string_projection
    rfc8785_safe lookup_field put_field or_null review_states state_of contains scan_of holds_evil
recall_kept = refl

recall_from_read_banks-Answered_example :
    Answered env "agent" "openclaw" ("work" ∷ []) (string "hello") answer scene
recall_from_read_banks-Answered_example =
    recall_from_read_banks-Answered env "agent" "openclaw" ("work" ∷ []) (string "hello") answer
      scene outcome.1 recall_kept

abbrev spoofed : Fields
spoofed =
    field "content" (string "hello")
      (field "metadata" (object (field "router_writer_id" (string "someone else") end)) end)

abbrev writer_key : String
writer_key = "router_writer_id"

abbrev evil_body : RetainBody
evil_body = record { items = field "content" (string "evil") end ∷ []; rest = end }

evil_scanned :
    env.scan_request (body_json evil_body) []
    ≡ (ok record { findings = finding ∷ []; transformations = [] }, [])
unfolding scan_of holds_evil put_field
evil_scanned = refl

retain_to_bank_unsafe_example :
    retain_to_bank
      (record env { retain = λ bank body log. (err (gateway_error unsafe_response none 502), log) })
      "agent"
      "work"
      evil_body
      "openclaw"
      legacy
      scene
    ≡ retain_to_bank env "agent" "work" evil_body "openclaw" legacy scene
retain_to_bank_unsafe_example =
    retain_to_bank_unsafe env (λ bank body log. (err (gateway_error unsafe_response none 502), log))
      "agent" "work" evil_body "openclaw" legacy
      record { findings = finding ∷ []; transformations = [] } scene [] [] refl evil_scanned refl

abbrev echo : Env Log
echo = record env { retain = λ bank body log. (ok (string "evil"), log) }

write_refused :
    write_retain echo "agent" "work" evil_body "openclaw" scene
    ≡ (err (gateway_error unsafe_response none 502), scene)
unfolding write_retain scan_of holds_evil
write_refused = refl

write_retain_unacknowledged_example :
    (scene.world ≡ (echo.scan_response (string "evil") []).1)
    × ((is_gateway_error (gateway_error unsafe_response none 502) ≡ true)
        ⊎ ((echo.scan_response (string "evil") []).0
            ≡ err (gateway_error unsafe_response none 502)))
write_retain_unacknowledged_example =
    write_retain_unacknowledged echo "agent" "work" evil_body "openclaw" (string "evil") scene scene
      [] (gateway_error unsafe_response none 502) refl write_refused
