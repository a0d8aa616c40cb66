-- ===== src/Json/Tests.antt =====
-- The walks on a concrete value, and the theorems at it.
use hindsight_memory_router.Json.Laws.{
  depth, text_bytes, assert_json_depth-depth, string_value_bytes-text_bytes,
}
use hindsight_memory_router.Json.{
  Json, null, integer, string, array, object, nil, cons, end, field, too_deep, not_finite,
  rfc8785_safe, assert_json_depth, string_value_bytes, depth_loop, push_items, push_fields,
  push_entries, size, extend, extend_items, extend_fields, bytes_loop,
}
use hindsight_memory_router.Common.{◌≡◌, refl, false, leb, if◌then◌else◌, ok, err}

-- {"a": ["xy", [null]], "b": "é"}
abbrev body : Json
body = object (
    field "a" (array (cons (string "xy") (cons (array (cons null nil)) nil)))
      (field "b" (string "é") end))

body_too_deep : assert_json_depth body 3 ≡ err too_deep
unfolding assert_json_depth depth_loop push_entries push_items push_fields size
body_too_deep = refl

body_deep : assert_json_depth body 4 ≡ ok tt
unfolding assert_json_depth depth_loop push_entries push_items push_fields size
body_deep = refl

body_bytes : string_value_bytes body ≡ ok 4
unfolding string_value_bytes bytes_loop extend extend_items extend_fields size
body_bytes = refl

body_unsafe : rfc8785_safe (array (cons (integer false 9007199254740992) nil)) ≡ err not_finite
unfolding rfc8785_safe
body_unsafe = refl

assert_json_depth-depth_example :
    assert_json_depth body 3 ≡ (if leb (depth body) 3 then ok tt else err too_deep)
assert_json_depth-depth_example = assert_json_depth-depth body 3

string_value_bytes-text_bytes_example : string_value_bytes body ≡ ok (text_bytes body)
string_value_bytes-text_bytes_example = string_value_bytes-text_bytes body
