-- ===== src/Policy/Recall/Answer.antt =====
-- The answer to a recall: the banks that are asked, the maps that are merged, and the scan of the
-- whole (memory_router/policy.py). `asyncio.gather` asks the banks at once; here one after another.
-- The certification of scores in the audit of an aggregate is left out.
use hindsight_memory_router.Policy.{
  Scan, Input, Finding, is_safe, Identity, review_states, Response, Call, Env, Act, ◌>>=◌, ◌>>◌,
  pure, lift, call, catch, audit_digest, concat, put_field, lookup_field, text_of, update_fields,
}
use hindsight_memory_router.Json.{
  Json, Items, Fields, null, boolean, integer, string, array, object, nil, cons, end, field,
}
use hindsight_memory_router.Common.{
  ℕ, String, Bool, true, false, Option, none, some, List, [], ◌∷◌, ◌++◌, ◌==◌, ◌+◌, nat_eq, not,
  if◌then◌else◌, gateway_error, Result, ok, err,
}
use hindsight_memory_router.Policy.Recall.Decide.{Kept, keep_responses, event_input, public_entries}
use hindsight_memory_router.Policy.Recall.Requests.{quarantine_recall_or_degrade, only_bank}

pub record Answer : Type 0 where
  pub results : List Kept
  pub maps : List (String × Option Fields)
  pub failed_banks : ℕ

-- _RECALL_RESPONSE_MAP_FIELDS
abbrev pub map_fields : List String
map_fields = "chunks" ∷ "entities" ∷ "source_facts" ∷ "trace" ∷ []

abbrev pub kept_items : List Kept → Items
kept_items [] = nil
kept_items (k ∷ ks) = cons (object k.result) (kept_items ks)

abbrev pub map_json : Option Fields → Json
map_json none = null
map_json (some fs) = object fs

abbrev pub map_entries : List (String × Option Fields) → Fields → Fields
map_entries [] rest = rest
map_entries ((k, v) ∷ maps) rest = field k (map_json v) (map_entries maps rest)

abbrev pub failure_entries : ℕ → Fields
failure_entries failed =
    if nat_eq failed 0
    then end
    else field "partial" (boolean true) (field "failed_banks" (integer false failed) end)

-- the dict `combined`
abbrev pub combined : Answer → Json
combined a = object (
    field "results" (array (kept_items a.results))
      (map_entries a.maps (failure_entries a.failed_banks)))

-- reviewed_positions, counted from `n`
abbrev pub reviewed_positions : ℕ → List Kept → List ℕ
reviewed_positions n [] = []
reviewed_positions n (k ∷ ks) =
    let rest = reviewed_positions (n + 1) ks in if k.reviewed then n ∷ rest else rest

-- the value of a map in a response, if it has the key
unfoldable pub map_of : String → List (String × Json) → Option Json
map_of k [] = none
map_of k ((n, v) ∷ maps) = let rest = map_of k maps in if n == k then some v else rest

abbrev pub detector_entry : Option String → Fields
detector_entry none = end
detector_entry (some d) = field "detector" (string d) end

abbrev pub reasons : List Finding → Items
reasons [] = nil
reasons (f ∷ fs) =
    cons (object (field "reason" (string f.reason) (detector_entry f.detector))) (reasons fs)

-- key or "-"
abbrev pub key_text : Option String → String
key_text none = "-"
key_text (some k) = if k == "" then "-" else k

module _ {W : Type 0} (env : Env W) where
  abbrev pub hashed_key : Option String → Json
  hashed_key none = null
  hashed_key (some k) = string (env.sha256_hex k)

  abbrev pub evidence_of : String → Option String → Json → Json
  evidence_of name none value = object (field name value end)
  evidence_of name (some key) value = object (field name (object (field key value end)) end)

  -- a put whose failure is only logged
  unfoldable pub try_put : Input → Act W (Unit {0})
  try_put input = catch (call (env.put input) >>= λ id. pure tt) (λ e. pure tt)

  -- _allow_recall_supplemental_or_degrade
  unfoldable pub allow_recall_supplemental_or_degrade :
      String → String → String → String → Option String → Json → Act W Bool
  allow_recall_supplemental_or_degrade writer source bank name key value = do
    let evidence = evidence_of name key value
    scan ← call (env.scan_recalled evidence false)
    let digest = audit_digest env evidence
    if is_safe scan then pure true else do
      try_put (
          event_input env writer source "recalled_suspicious_supplemental" (some bank)
            (concat (
              "recalled-supplemental:"
              ∷ bank
              ∷ ":"
              ∷ name
              ∷ ":"
              ∷ key_text key
              ∷ ":"
              ∷ digest
              ∷ []))
            (object (
              field "action" (string "recalled_supplemental_blocked") (
                field "bank_id" (string bank) (
                  field "field" (string name) (
                    field "entry_key_sha256" (hashed_key key) (
                      field "content_sha256" (string digest)
                        (field "findings" (array (public_entries scan.findings)) end))))))))
      pure false

  -- the loop of `_merge_recall_map` over the entries
  unfoldable pub merge_entries : String → String → String → String → Fields → Fields → Act W Fields
  merge_entries writer source bank name end merged = pure merged
  merge_entries writer source bank name (field key entry value) merged = do
    allowed ← allow_recall_supplemental_or_degrade writer source bank name (some key) entry
    merge_entries writer source bank name value
        (if allowed then put_field key entry merged else merged)

  -- _merge_recall_map
  unfoldable pub merge_recall_map :
      String → String → String → String → Fields → Fields → Act W Fields
  merge_recall_map writer source bank name value merged =
      if not (name == "trace") then merge_entries writer source bank name value merged else do
        allowed ← allow_recall_supplemental_or_degrade writer source bank name none (object value)
        pure (if allowed then update_fields merged value else merged)

  -- a response's share in `_merged_recall_field`: whether it has the field, whether that is a map
  abbrev pub merge_response :
      String
      → String
      → String
      → String
      → Option Json
      → Bool × Bool × Fields
      → Act W (Bool × Bool × Fields)
  merge_response writer source bank name (some (object value)) (present, is_map, merged) = do
    more ← merge_recall_map writer source bank name value merged
    pure (true, true, more)
  merge_response writer source bank name none (present, is_map, merged) =
      pure (present, is_map, merged)
  merge_response writer source bank name (some other) (present, is_map, merged) =
      pure (true, is_map, merged)

  unfoldable pub merge_responses :
      String
      → String
      → String
      → List (String × Response)
      → Bool × Bool × Fields
      → Act W (Bool × Bool × Fields)
  merge_responses writer source name [] so_far = pure so_far
  merge_responses writer source name ((bank, response) ∷ responses) so_far = do
    next ← merge_response writer source bank name (map_of name response.maps) so_far
    merge_responses writer source name responses next

  abbrev pub merged_entry :
      String → Bool × Bool × Fields → List (String × Option Fields) → List (String × Option Fields)
  merged_entry name (present, is_map, merged) rest =
      if not present then rest else (name, (if is_map then some merged else none)) ∷ rest

  -- the loop over _RECALL_RESPONSE_MAP_FIELDS
  unfoldable pub merge_fields :
      String
      → String
      → List String
      → List (String × Response)
      → Act W (List (String × Option Fields))
  merge_fields writer source [] responses = pure []
  merge_fields writer source (name ∷ names) responses = do
    merged ← merge_responses writer source name responses (false, false, end)
    rest ← merge_fields writer source names responses
    pure (merged_entry name merged rest)

  -- the identities of the results that have an id
  abbrev pub result_identities : String → List Fields → List Identity
  result_identities bank [] = []
  result_identities bank (result ∷ results) = elim (lookup_field "id" result) [
    | none ↦ result_identities bank results
    | some v ↦ (bank, text_of env.repr v) ∷ result_identities bank results
  ]

  abbrev pub identities : List (String × Response) → List Identity
  identities [] = []
  identities ((bank, response) ∷ responses) =
      result_identities bank response.results ++ identities responses

  -- states = ..., dirty = set()
  abbrev pub read_states : List Identity → Act W (Unit {0})
  read_states keys s =
      (ok tt, record s { states = review_states keys (env.table s.world) []; dirty = [] })

  -- _allowed_recall_results
  unfoldable pub allowed_recall_results :
      String → String → List (String × Response) → Act W (List Kept)
  allowed_recall_results writer source responses = do
    read_states (identities responses)
    keep_responses env writer source responses

  abbrev pub attempt : {A : Type 0} → Call W A → Act W (Result A)
  attempt c s = let (r, w) = c s.world in (ok r, record s { world = w })

  unfoldable pub ask_banks : List String → Json → Act W (List (String × Result Response))
  ask_banks [] body = pure []
  ask_banks (bank ∷ banks) body = do
    outcome ← attempt (env.recall bank body)
    rest ← ask_banks banks body
    pure ((bank, outcome) ∷ rest)

  -- the loop of `_recall_from_banks` over the outcomes
  unfoldable pub sort_outcomes :
      List (String × Result Response) → Result (List (String × Response) × ℕ)
  sort_outcomes [] = ok ([], 0)
  sort_outcomes ((bank, ok response) ∷ outcomes) = elim (sort_outcomes outcomes) [
    | err e ↦ err e
    | ok (responses, failed) ↦ ok ((bank, response) ∷ responses, failed)
  ]
  sort_outcomes ((bank, err (gateway_error kind upstream status)) ∷ outcomes) =
      elim (sort_outcomes outcomes) [
        | err e ↦ err e
        | ok (responses, failed) ↦ ok (responses, failed + 1)
      ]
  sort_outcomes ((bank, err e) ∷ outcomes) = err e

  -- _recall_from_banks
  unfoldable pub recall_from_banks : List String → Json → Act W (List (String × Response) × ℕ)
  recall_from_banks banks body = do outcomes ← ask_banks banks body; lift (sort_outcomes outcomes)

  abbrev pub aggregate_input : String → String → Answer → Option String → Scan → Input
  aggregate_input writer source answer bank scan =
      event_input env writer source "recalled_suspicious_aggregate" bank
        (concat ("recalled-aggregate:" ∷ writer ∷ ":" ∷ (audit_digest env (combined answer)) ∷ []))
        (object (
          field "action" (string "recalled_aggregate_blocked") (
            field "content_sha256" (string (audit_digest env (combined answer)))
              (field "findings" (array (reasons scan.findings)) end))))

  -- _allow_recall_aggregate
  unfoldable pub allow_recall_aggregate : String → String → Answer → Option String → Act W Bool
  allow_recall_aggregate writer source answer bank = do
    scan ← call (env.scan_aggregate (combined answer) (reviewed_positions 0 answer.results))
    if is_safe scan
        then pure true
        else do try_put (aggregate_input writer source answer bank scan); pure false

  abbrev pub empty_answer : ℕ → Answer
  empty_answer failed = record { results = []; maps = []; failed_banks = failed }

  -- _recall_from_read_banks, once the request is found safe
  unfoldable pub gather_answer : String → String → List String → Json → Act W Answer
  gather_answer writer source banks body = do
    asked ← recall_from_banks banks body
    kept ← allowed_recall_results writer source asked.0
    maps ← merge_fields writer source map_fields asked.0
    let answer : Answer = record { results = kept; maps = maps; failed_banks = asked.1 }
    allowed ← allow_recall_aggregate writer source answer (only_bank banks)
    pure (if allowed then answer else empty_answer asked.1)

  -- _recall_from_read_banks
  unfoldable pub recall_from_read_banks : String → List String → Json → String → Act W Answer
  recall_from_read_banks writer banks body source = do
    call (env.consume_recall writer)
    scan ← call (env.scan_request body)
    if is_safe scan then gather_answer writer source banks body else do
      quarantine_recall_or_degrade env writer source "suspicious_query" body banks (some scan)
      pure (empty_answer 0)

  -- recall_bank
  unfoldable pub recall_bank : String → String → Json → String → Act W Answer
  recall_bank principal bank body source = recall_from_read_banks principal (bank ∷ []) body source
