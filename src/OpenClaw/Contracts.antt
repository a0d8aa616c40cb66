-- ===== src/OpenClaw/Contracts.antt =====
-- What the memory service must answer to a facade request (memory_router/openclaw_contracts.py).
-- Pydantic's validation of a model is a parameter.
use hindsight_memory_router.Common.{
  not, String, Bool, true, false, Option, none, some, ◌==◌, ◌&&◌, ◌||◌, is_some, if◌then◌else◌,
  value_error, Result, ok, err,
}
use hindsight_memory_router.Json.{Json, object, array}
use hindsight_memory_router.Facade.{ResponseMode}

pub data Model : Type 0 where
  bank_profile bank_config mental_model mental_model_list : Model
  create_mental_model reflection : Model

-- validate_facade_response; `None` is `none`
unfoldable pub validate_facade_response : Option Json → ResponseMode → Bool → Result (Unit {0})
validate_facade_response none mode allow_empty =
    if allow_empty then ok tt else err (value_error "facade response")
validate_facade_response (some (object fs)) ResponseMode.object allow_empty = ok tt
validate_facade_response (some (array xs)) ResponseMode.array allow_empty = ok tt
validate_facade_response (some value) mode allow_empty = err (value_error "facade response")

-- _response_model
unfoldable pub response_model : String → String → Option String → Option Model
response_model method resource mental_model_id =
    if (resource == "mental-models")
      && is_some mental_model_id
      && ((method == "GET") || (method == "PATCH"))
    then some mental_model
    else if (resource == "mental-models") && not (is_some mental_model_id)
    then if method == "GET"
      then some mental_model_list
      else if method == "POST"
      then some create_mental_model
      else none
    else if (method == "PUT") && (resource == "")
    then some bank_profile
    else if (method == "PATCH") && (resource == "config")
    then some bank_config
    else if (method == "POST") && (resource == "reflect")
    then some reflection
    else none

abbrev pub is_object : Option Json → Bool
is_object (some (object fs)) = true
is_object _ = false

abbrev pub checked_model :
    (Model → Option Json → Bool) → Option Json → Option Model → Result (Unit {0})
checked_model is_valid value none = err (value_error "unsupported contract")
checked_model is_valid value (some model) =
    if is_valid model value then ok tt else err (value_error "invalid response")

-- validate_openclaw_response
unfoldable pub validate_openclaw_response :
    (Model → Option Json → Bool) → String → String → Option String → Option Json → Result (Unit {0})
validate_openclaw_response is_valid method resource mental_model_id value =
    if (method == "DELETE") && (resource == "mental-models") && is_some mental_model_id
    then if not (is_some value) || is_object value
      then ok tt
      else err (value_error "mental model delete response")
    else checked_model is_valid value (response_model method resource mental_model_id)
