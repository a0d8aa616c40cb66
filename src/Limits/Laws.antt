-- ===== src/Limits/Laws.antt =====
-- A body that passes the bounds is within them (memory_router/limits.py).
use hindsight_memory_router.Limits.{
  assert_item_bounds, HindsightLimitConfig, length, assert_retain_bounds,
}
use hindsight_memory_router.Common.{arith, ◌≡◌, ◌≤◌, inl, inr, Bool-cases, ltb, ok}
use hindsight_memory_router.Json.Laws.{text_bytes, string_value_bytes-text_bytes}
use hindsight_memory_router.Policy.Retain.{RetainBody, body_json}

-- A retain that passes has at most the configured number of items, and the UTF-8 length of all texts
-- that are values of its body, at any depth, is at most the configured one.
pub assert_retain_bounds-text_bytes :
    (config : HindsightLimitConfig) (body : RetainBody)
    → assert_retain_bounds config body ≡ ok tt
    → (length body.items ≤ config.max_retain_items)
      × (text_bytes (body_json body) ≤ config.max_retain_content_bytes)
unfolding assert_retain_bounds assert_item_bounds
assert_retain_bounds-text_bytes config body h =
    let e = string_value_bytes-text_bytes (body_json body) in
    elim (Bool-cases (ltb config.max_retain_items (length body.items))) [
      | inl many ↦ absurd (ground arith)
      | inr few ↦
          elim (Bool-cases (ltb config.max_retain_content_bytes (text_bytes (body_json body)))) [
            | inl long ↦ absurd (ground arith)
            | inr short ↦ (ground arith, ground arith)
          ]
    ]
