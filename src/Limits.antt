-- ===== src/Limits.antt =====
-- What a retain and a recall may hold, and what they are charged (memory_router/limits.py). The call of
-- the rate limiter is a parameter over a state `W`. A header that an error carries is left out.
mod Laws
use Prim.Native.String
use hindsight_memory_router.Json.{Json, string_value_bytes, Fields}
use hindsight_memory_router.Common.{
  ℕ, ◌+◌, String, Bool, true, false, Option, none, some, List, [], ◌∷◌, ltb, nat_eq, if◌then◌else◌,
  Error, http_error, gateway_error, Result, ok, err, and_then, raise_if,
}
use hindsight_memory_router.Common.Action.{Call, raise, catch}
use hindsight_memory_router.RateLimit.{Bucket}
use hindsight_memory_router.Policy.{concat}
use hindsight_memory_router.Policy.Retain.{RetainBody, body_json}

-- HindsightLimitConfig
pub record HindsightLimitConfig : Type 0 where
  pub retain_writer_max : ℕ
  pub retain_global_max : ℕ
  pub recall_writer_max : ℕ
  pub recall_global_max : ℕ
  pub rate_limit_window_ms : ℕ
  pub max_retain_items : ℕ
  pub max_retain_content_bytes : ℕ
  pub max_recall_query_bytes : ℕ
  pub max_recall_max_tokens : ℕ

-- len(items)
unfoldable pub length : List Fields → ℕ
length [] = 0
length (item ∷ items) = length items + 1

-- assert_retain_bounds of a dict with as many items
unfoldable pub assert_item_bounds : HindsightLimitConfig → ℕ → Json → Result (Unit {0})
assert_item_bounds config items body =
    and_then
      (raise_if (ltb config.max_retain_items items) (http_error 413 "retain_item_limit_exceeded"))
      λ u. and_then (string_value_bytes body) λ bytes.
        raise_if (ltb config.max_retain_content_bytes bytes)
          (http_error 413 "retain_content_too_large")

-- assert_retain_bounds of a parsed body
unfoldable pub assert_retain_bounds : HindsightLimitConfig → RetainBody → Result (Unit {0})
assert_retain_bounds config body = assert_item_bounds config (length body.items) (body_json body)

-- max_tokens is given and above the limit
abbrev pub exceeds : Option ℕ → ℕ → Bool
exceeds none most = false
exceeds (some n) most = ltb most n

-- assert_recall_bounds, of the query and of max_tokens
unfoldable pub assert_recall_bounds : HindsightLimitConfig → String → Option ℕ → Result (Unit {0})
assert_recall_bounds config query max_tokens =
    and_then
      (raise_if (ltb config.max_recall_query_bytes (String.len query))
        (http_error 413 "recall_query_too_large"))
      λ u.
        raise_if (exceeds max_tokens config.max_recall_max_tokens)
          (http_error 413 "recall_max_tokens_exceeded")

-- except HttpError, with the status 429
abbrev pub limited : Error → Error
limited (http_error status code) =
    if nat_eq status 429 then http_error 429 "hindsight_rate_limited" else http_error status code
limited (gateway_error kind upstream status) =
    if nat_eq status 429
    then http_error 429 "hindsight_rate_limited"
    else gateway_error kind upstream status
limited e = e

module _ {W : Type 0} (config : HindsightLimitConfig)
    (consume_many : List Bucket → Call W (Unit {0})) where
  -- _consume
  unfoldable pub consume : String → String → ℕ → ℕ → Call W (Unit {0})
  consume kind writer_id writer_max global_max =
      catch
        (consume_many (
          record {
            key = concat ("hindsight:" ∷ kind ∷ ":writer:" ∷ writer_id ∷ []);
            maximum = writer_max;
            window_ms = config.rate_limit_window_ms;
          }
          ∷ record {
            key = concat ("hindsight:" ∷ kind ∷ ":global" ∷ []);
            maximum = global_max;
            window_ms = config.rate_limit_window_ms;
          }
          ∷ []))
        (λ e. raise (limited e))

  unfoldable pub consume_retain : String → Call W (Unit {0})
  consume_retain writer_id =
      consume "retain" writer_id config.retain_writer_max config.retain_global_max

  unfoldable pub consume_recall : String → Call W (Unit {0})
  consume_recall writer_id =
      consume "recall" writer_id config.recall_writer_max config.recall_global_max
