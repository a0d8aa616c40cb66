-- ===== src/QuarantineStore.antt =====
-- What `QuarantineStore.put` decides before it writes (memory_router/quarantine_store.py,
-- `security_event_identity` of memory_router/dedupe.py): the id of an item, whether it is known, what
-- is charged for it, and the row that is built. Limits below 0 read as 0. The family of a request is an
-- argument; so is `parse_iso` with the addition of days, as a function on texts.
mod Laws
mod Tests
use Prim.Native.String
use hindsight_memory_router.Json.{
  Json, Items, null, string, array, object, field, end, nil, cons, canonical_json,
}
use hindsight_memory_router.Common.{
  ℕ, zero, suc, ◌-◌, ◌/◌, min, String, Bool, true, false, Option, none, some, List, [], ◌∷◌, ◌==◌,
  not, ◌&&◌, ◌||◌, is_some, leb, nat_eq, if◌then◌else◌, Error, http_error, Result, ok, err,
  and_then, raise_if,
}
use hindsight_memory_router.Quarantine.{
  Kind, retain_request, recall_request, recalled_memory, security_event, Item, Status, reviewable,
  status_eq, review_in_progress, kind_eq,
}
use hindsight_memory_router.RateLimit.{Bucket, Distinct}
use hindsight_memory_router.Policy.{Input, concat, optional_text}
use hindsight_memory_router.Envelope.{one_of, alphanumeric}

-- QuarantineLimits
pub record Limits : Type 0 where
  pub max_item_bytes : ℕ
  pub max_pending_items : ℕ
  pub max_pending_items_per_writer : ℕ
  pub max_pending_items_per_bank : ℕ
  pub max_encrypted_bytes : ℕ
  pub rate_limit_max : ℕ
  pub rate_limit_window_ms : ℕ
  pub rate_limit_global_max : ℕ
  pub distinct_family_limit_max : ℕ
  pub requarantine_ops_max : ℕ
  pub item_ttl_days : ℕ

-- t[:n] and t[n:]
unfoldable pub take_text : ℕ → String → String
take_text zero t = ""
take_text (suc n) String.[] = ""
take_text (suc n) (String.◌∷◌ c rest) = String.◌∷◌ c (take_text n rest)

unfoldable pub drop_text : ℕ → String → String
drop_text zero t = t
drop_text (suc n) String.[] = ""
drop_text (suc n) (String.◌∷◌ c rest) = drop_text n rest

-- re.sub(r"[^0-9A-Za-z]", "", t)
unfoldable pub only_alphanumeric : String → String
only_alphanumeric String.[] = ""
only_alphanumeric (String.◌∷◌ c rest) =
    let kept = only_alphanumeric rest in
    if one_of alphanumeric (String.◌∷◌ c String.[]) then String.◌∷◌ c kept else kept

-- a key that is there and not empty
abbrev pub truthy : Option String → Option String
truthy none = none
truthy (some t) = if t == "" then none else some t

abbrev pub is_request : Kind → Bool
is_request retain_request = true
is_request recall_request = true
is_request _ = false

-- source_bank and source_memory_id, both given
abbrev pub memory_of : Input → Option (String × String)
memory_of input = elim input.source_bank [
  | none ↦ none
  | some bank ↦ elim input.source_memory_id [ none ↦ none | some memory ↦ some (bank, memory) ]
]

module _ (dumps : Json → Result String) (sha256_hex : String → String) where
  -- security_event_identity
  unfoldable pub security_event_identity : Input → Result String
  security_event_identity input =
      and_then
        (canonical_json dumps (
          object (
            field "writer_id" (optional_text input.writer_id) (
              field "bank_id" (optional_text input.bank_id) (
                field "source" (string input.source) (
                  field "reason" (string input.reason) (
                    field "identity" (optional_text input.dedupe_key) (
                      field "payload"
                        (if is_some (truthy input.dedupe_key) then null else input.payload)
                        end))))))))
        (λ t. ok (concat ("security-event:" ∷ sha256_hex t ∷ [])))

  -- the first step of `put`
  unfoldable pub identified : Input → Result Input
  identified input =
      if kind_eq input.kind security_event
      then and_then (security_event_identity input) (λ t. ok (record input { dedupe_key = some t }))
      else ok input

  -- _deduped_id
  unfoldable pub deduped_id : String → String → String
  deduped_id prefix key = String.◌++◌ "q_" (
      String.◌++◌ (String.◌++◌ prefix (take_text 48 (sha256_hex key)))
        (String.◌++◌ "_" (drop_text 48 (sha256_hex key))))

  -- the last lines of _resolve_id, with secrets.token_hex(8)
  unfoldable pub stamped_id : String → String → String
  stamped_id timestamp token =
      String.◌++◌ "q_" (String.◌++◌ (only_alphanumeric timestamp) (String.◌++◌ "_" token))

  -- _resolve_id
  unfoldable pub resolve_id : Input → String → String → Result String
  resolve_id input timestamp token = elim input.kind [
    | security_event ↦ elim (truthy input.dedupe_key) [
      | none ↦ ok (stamped_id timestamp token)
      | some key ↦ ok (deduped_id "security" key)
    ]
    | recalled_memory ↦ elim (memory_of input) [
      | none ↦ ok (stamped_id timestamp token)
      | some (bank, memory) ↦
          and_then (canonical_json dumps (array (cons (string bank) (cons (string memory) nil))))
            (λ t. ok (deduped_id "memoryv2" t))
    ]
    | request ↦ elim (truthy input.dedupe_key) [
      | none ↦ ok (stamped_id timestamp token)
      | some key ↦ ok (deduped_id "request" key)
    ]
  ]

-- _known_identity
unfoldable pub known_identity : Input → Bool → Bool
known_identity input item_exists =
    (is_some (truthy input.dedupe_key) && not (kind_eq input.kind recalled_memory)
      || (kind_eq input.kind recalled_memory && is_some (memory_of input)))
    && item_exists

-- _anonymous_auth_failure
unfoldable pub anonymous_auth_failure : Input → Bool
anonymous_auth_failure input =
    kind_eq input.kind security_event
    && (input.reason == "auth_failed")
    && not (is_some input.writer_id)
    && not (is_some input.bank_id)

-- _assert_writable
unfoldable pub assert_writable : Input → Option Item → Result (Unit {0})
assert_writable input none = ok tt
assert_writable input (some existing) =
    if is_request input.kind
      && is_some (truthy input.dedupe_key)
      && not (reviewable existing.status)
    then err (http_error 409 "quarantine_request_in_review")
    else raise_if (status_eq existing.status review_in_progress)
        (http_error 409 "quarantine_item_in_review")

-- the call of the limiter that `_charge` makes
pub data Charge : Type 0 where
  nothing : Charge
  consume_many : List Bucket → Charge
  consume_many_distinct : List Bucket → List Distinct → Charge

abbrev pub writer_of_charge : Input → String
writer_of_charge input =
    if input.reason == "unknown_writer"
    then "unknown-writer"
    else elim (truthy input.writer_id) [ none ↦ "unknown-writer" | some w ↦ w ]

abbrev pub family_identities : Limits → Option (String × String) → List Distinct
family_identities limits none = []
family_identities limits (some (scope, identity)) =
    record {
      scope = concat ("quarantine-request-family:" ∷ scope ∷ []);
      identity = identity;
      maximum = limits.distinct_family_limit_max;
      window_ms = limits.rate_limit_window_ms;
    }
    ∷ []

-- _charge
unfoldable pub charge : Limits → Input → Bool → Option (String × String) → Charge
charge limits input known family =
    let bucket : String → ℕ → Bucket =
      λ key most. record { key = key; maximum = most; window_ms = limits.rate_limit_window_ms } in
    if known
    then consume_many (
        bucket
          (if anonymous_auth_failure input
            then "quarantine-requarantine-ops:auth-audit"
            else "quarantine-requarantine-ops")
          limits.requarantine_ops_max
        ∷ [])
    else if nat_eq limits.rate_limit_max 0
    then nothing
    else if anonymous_auth_failure input
    then consume_many (bucket "quarantine-writes:auth-audit" limits.rate_limit_global_max ∷ [])
    else consume_many_distinct
        (bucket (concat ("quarantine-writes:writer:" ∷ writer_of_charge input ∷ []))
            limits.rate_limit_max
          ∷ bucket "quarantine-writes" limits.rate_limit_global_max
          ∷ [])
        (family_identities limits family)

-- _effective_writer_limit; the divisor is at least 1
unfoldable pub effective_writer_limit : Limits → ℕ
effective_writer_limit limits =
    if nat_eq limits.max_pending_items_per_writer 0
    then 0
    else min (min limits.max_pending_items_per_writer (limits.max_pending_items - 1))
        ((limits.max_encrypted_bytes - 1) / limits.max_item_bytes)

-- _build_item, without the envelope; `after_days` parses a time and adds days
unfoldable pub build_item :
    Limits → (String → ℕ → Option String) → Input → String → String → String → Result Item
build_item limits after_days input timestamp quarantine_id sha256 =
    let item : Item = record {
      quarantine_id = quarantine_id;
      created_at = timestamp;
      updated_at = timestamp;
      kind = input.kind;
      reason = input.reason;
      writer_id = input.writer_id;
      source = some input.source;
      source_bank = input.source_bank;
      source_memory_id = input.source_memory_id;
      source_content_sha256 = input.source_content_sha256;
      dedupe_key = input.dedupe_key;
      bank_id = input.bank_id;
      sha256 = sha256;
      envelope = none;
      encrypted_bytes = 0;
      status = Status.pending;
      postpone_count = 0;
      requarantine_count = 0;
      expires_at = none;
    } in
    if nat_eq limits.item_ttl_days 0
    then ok item
    else elim (after_days timestamp limits.item_ttl_days) [
      | none ↦ err (http_error 400 "invalid_quarantine_timestamp")
      | some t ↦ ok (record item { expires_at = some t })
    ]
