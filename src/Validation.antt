-- ===== src/Validation.antt =====
-- Reading the body of a retain, a recall and a reflect (memory_router/validation.py).
-- Pydantic's validation of a model, with its dump, is a parameter, which is `none` where it raises.
-- The dict of a recall body is kept with what the bounds read from it. An error keeps its code; the
-- message, which names the field, is left out.
mod Laws
use hindsight_memory_router.Common.{
  ℕ, String, Bool, true, false, Option, none, some, List, [], ◌∷◌, ◌||◌, member, if◌then◌else◌,
  Error, http_error, Result, ok, err,
}
use hindsight_memory_router.Json.{Json, Fields, object, end, field, canonical_json}
use hindsight_memory_router.Policy.Retain.{RetainBody}

pub record RecallBody : Type 0 where
  pub query : String
  pub max_tokens : Option ℕ
  pub fields : Fields

-- _ROUTING_KEYS
abbrev pub routing_keys : List String
routing_keys = "bankId" ∷ "bank_id" ∷ "bank_ids" ∷ []

-- the test of _reject_routing_keys
unfoldable pub has_routing_key : Fields → Bool
has_routing_key end = false
has_routing_key (field k v fs) = member k routing_keys || has_routing_key fs

abbrev pub or_invalid {ℓ} : {A : Type ℓ} → Error → Option A → Result A
or_invalid invalid none = err invalid
or_invalid invalid (some a) = ok a

-- The order of the checks that the three readers share: an object, no routing key, JSON values
-- only, then the model.
unfoldable pub parse_body {ℓ} :
    {A : Type ℓ} → (Json → Result String) → Error → (Fields → Option A) → Json → Result A
parse_body dumps invalid validate (object fs) =
    if has_routing_key fs then err invalid else elim (canonical_json dumps (object fs)) [
      | err e ↦ err invalid
      | ok t ↦ or_invalid invalid (validate fs)
    ]
parse_body dumps invalid validate _ = err invalid

abbrev pub parse_retain_body :
    (Json → Result String) → (Fields → Option RetainBody) → Json → Result RetainBody
parse_retain_body dumps validate value =
    parse_body dumps (http_error 400 "invalid_retain_body") validate value

abbrev pub parse_recall_body :
    (Json → Result String) → (Fields → Option RecallBody) → Json → Result RecallBody
parse_recall_body dumps validate value =
    parse_body dumps (http_error 400 "invalid_recall_body") validate value

abbrev pub parse_reflect_body :
    (Json → Result String) → (Fields → Option RecallBody) → Json → Result RecallBody
parse_reflect_body dumps validate value =
    parse_body dumps (http_error 400 "invalid_reflect_body") validate value
