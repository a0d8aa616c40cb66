-- ===== src/Envelope.antt =====
-- The decrypted quarantine object and its canonical text (memory_router/envelope.py).
-- The entries that `extra="allow"` lets through are dropped: no code reads them back.
use hindsight_memory_router.Common.{
  zero, suc, suc, String, Bool, true, false, Option, none, some, List, [], ◌∷◌, ◌==◌, not, ◌&&◌,
  ◌||◌, if◌then◌else◌, member, value_error, Result, ok, err, and_then, raise_if, ℕ,
}
use hindsight_memory_router.Json.{Json, Fields, string, object, field, end, canonical_json}
use hindsight_memory_router.Policy.{lookup_field}
use Prim.Native.String

abbrev pub lower_hex : String
lower_hex = "0123456789abcdef"

abbrev pub other_letters : String
other_letters = "ghijklmnopqrstuvwxyzABCDEFGHIJKLMNOPQRSTUVWXYZ"

abbrev pub alphanumeric : String
alphanumeric = String.◌++◌ lower_hex other_letters

-- whether a text holds a character, itself a text of length one
unfoldable pub one_of : String → String → Bool
one_of String.[] character = false
one_of (String.◌∷◌ c rest) character =
    (String.◌∷◌ c String.[] == character) || one_of rest character

unfoldable pub all_of : String → String → Bool
all_of allowed String.[] = true
all_of allowed (String.◌∷◌ c rest) = one_of allowed (String.◌∷◌ c String.[]) && all_of allowed rest

-- [0-9a-f]{n}
unfoldable pub is_hex : ℕ → String → Bool
is_hex zero String.[] = true
is_hex (suc n) (String.◌∷◌ c rest) = one_of lower_hex (String.◌∷◌ c String.[]) && is_hex n rest
is_hex _ _ = false

-- [0-9A-Za-z]*_[0-9a-f]{16}, with at least one character before the line if none was seen
unfoldable pub is_id_tail : Bool → String → Bool
is_id_tail seen String.[] = false
is_id_tail seen (String.◌∷◌ c rest) =
    let more = is_id_tail true rest in
    if one_of alphanumeric (String.◌∷◌ c String.[])
    then more
    else (String.◌∷◌ c String.[] == "_") && seen && is_hex 16 rest

-- QUARANTINE_ID_RE.fullmatch
unfoldable pub is_quarantine_id : String → Bool
is_quarantine_id (String.◌∷◌ a (String.◌∷◌ b rest)) =
    (String.◌∷◌ a String.[] == "q") && (String.◌∷◌ b String.[] == "_") && is_id_tail false rest
is_quarantine_id _ = false

-- _REASONS
abbrev pub reasons : List String
reasons =
    "unknown_writer" ∷ "suspicious_content" ∷ "suspicious_query" ∷ "recalled_suspicious_memory"
    ∷ "recalled_suspicious_supplemental" ∷ "recalled_suspicious_aggregate" ∷ "denied_endpoint"
    ∷ "auth_failed" ∷ "openclaw_suspicious_request" ∷ "openclaw_unknown_writer"
    ∷ "openclaw_suspicious_provider_response" ∷ []

-- DecryptedQuarantine
pub record Decrypted : Type 0 where
  pub quarantine_id : String
  pub created_at : String
  pub reason : String
  pub payload : Json
  pub writer_id : Option String
  pub source : Option String

-- an entry that must be a text and not empty
unfoldable pub required_text : String → Fields → Result String
required_text key value = elim (lookup_field key value) [
  | some (string t) ↦ if t == "" then err (value_error "must be a non-empty string") else ok t
  | other ↦ err (value_error "must be a non-empty string")
]

-- one that may be left out
unfoldable pub optional_strings_are_non_empty : String → Fields → Result (Option String)
optional_strings_are_non_empty key value = elim (lookup_field key value) [
  | none ↦ ok none
  | some v ↦ and_then (required_text key value) (λ t. ok (some t))
]

unfoldable pub required_payload : Fields → Result Json
required_payload value = elim (lookup_field "payload" value) [
  | none ↦ err (value_error "decrypted quarantine payload is missing")
  | some v ↦ ok v
]

abbrev pub with_payload : Fields → String → String → String → Json → Result Decrypted
with_payload value id created reason payload =
    and_then (optional_strings_are_non_empty "writer_id" value) λ writer.
      and_then (optional_strings_are_non_empty "source" value) λ source. ok record {
        quarantine_id = id;
        created_at = created;
        reason = reason;
        payload = payload;
        writer_id = writer;
        source = source;
      }

-- DecryptedQuarantine.model_validate: the validator of the whole object comes first
unfoldable pub model_validate : Json → Result Decrypted
model_validate (object value) = and_then (required_text "quarantine_id" value) λ id.
    and_then (required_text "created_at" value) λ created.
      and_then (required_text "reason" value) λ reason.
        and_then (raise_if (not (member reason reasons)) (value_error "invalid quarantine reason"))
          λ u. and_then (required_payload value) (with_payload value id created reason)
model_validate other = err (value_error "decrypted quarantine object must be an object")

unfoldable pub parse_decrypted : (Json → Result String) → Json → Result Decrypted
parse_decrypted dumps value =
    and_then (model_validate value)
      λ parsed. and_then (canonical_json dumps parsed.payload) λ t. ok parsed

-- `if key in value: result[key] = value[key]`
abbrev pub optional_field : String → Option String → Fields → Fields
optional_field key none fs = fs
optional_field key (some t) fs = field key (string t) fs

-- `result` of _prepare_decrypted
unfoldable pub prepared_fields : Decrypted → Fields
prepared_fields d = field "quarantine_id" (string d.quarantine_id) (
    field "created_at" (string d.created_at) (
      field "reason" (string d.reason) (
        optional_field "writer_id" d.writer_id
          (optional_field "source" d.source (field "payload" d.payload end)))))

-- canonical_decrypted; a parsed object passes the second parse of _prepare_decrypted as it is
unfoldable pub canonical_decrypted : (Json → Result String) → Decrypted → Result String
canonical_decrypted dumps d = canonical_json dumps (object (prepared_fields d))
