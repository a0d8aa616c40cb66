-- ===== src/Json.antt =====
-- JSON values as Python holds them, and the walks over them (memory_router/canonical.py and
-- `_string_value_bytes` of memory_router/limits.py).
-- An `int` is its sign and its absolute value. A `float` is its `repr` with whether it is finite.
-- A text has no lone surrogates, so `encode("utf-8")` always succeeds. A stack is a list whose head is
-- the Python list's end, so that `pop` takes the head. The loops take fuel.
pub mod Laws
mod Tests
use Prim.Native.String
use hindsight_memory_router.Common.{
  ℕ, zero, suc, ◌+◌, max, String, Bool, true, false, List, [], ◌∷◌, ltb, leb, not, ◌&&◌,
  if◌then◌else◌, Error, runtime_error, value_error, Result, ok, err, and_then,
}

mutual
  pub data Json : Type 0 where
    null : Json
    boolean : Bool → Json
    integer : (negative : Bool) → ℕ → Json
    real : (finite : Bool) → String → Json
    string : String → Json
    array : Items → Json
    object : Fields → Json

  pub data Items : Type 0 where
    nil : Items
    cons : Json → Items → Items

  pub data Fields : Type 0 where
    end : Fields
    field : String → Json → Fields → Fields

-- 2 ** 53 - 1
abbrev pub max_safe_integer : ℕ
max_safe_integer = 9007199254740991

abbrev pub not_finite : Error
not_finite = value_error "non-finite JSON number"

abbrev pub too_deep : Error
too_deep = value_error "JSON nesting depth exceeds limit"

abbrev pub out_of_fuel : Error
out_of_fuel = runtime_error "out of fuel"

-- _rfc8785_safe
unfoldable mutual
  pub rfc8785_safe : Json → Result Json
  rfc8785_safe null = ok null
  rfc8785_safe (boolean b) = ok (boolean b)
  rfc8785_safe (integer s n) = if leb n max_safe_integer then ok (integer s n) else err not_finite
  rfc8785_safe (real finite t) = if finite then ok (real finite t) else err not_finite
  rfc8785_safe (string t) = ok (string t)
  rfc8785_safe (array xs) = and_then (safe_items xs) (λ ys. ok (array ys))
  rfc8785_safe (object fs) = and_then (safe_fields fs) (λ gs. ok (object gs))

  pub safe_items : Items → Result Items
  safe_items nil = ok nil
  safe_items (cons x xs) =
      and_then (rfc8785_safe x) (λ y. and_then (safe_items xs) (λ ys. ok (cons y ys)))

  pub safe_fields : Fields → Result Fields
  safe_fields end = ok end
  safe_fields (field k x fs) =
      and_then (rfc8785_safe x) (λ y. and_then (safe_fields fs) (λ gs. ok (field k y gs)))

-- canonical_json: what is not JSON, or cannot be printed, is a ValueError
abbrev pub canonical_json : (Json → Result String) → Json → Result String
canonical_json dumps v = elim (and_then (rfc8785_safe v) dumps) [
  | ok t ↦ ok t
  | err e ↦ err (value_error "value must contain JSON values only")
]

-- `stack.extend((entry, depth) for entry in entries)`
unfoldable pub push_items : Items → ℕ → List (Json × ℕ) → List (Json × ℕ)
push_items nil depth stack = stack
push_items (cons x xs) depth stack = push_items xs depth ((x, depth) ∷ stack)

unfoldable pub push_fields : Fields → ℕ → List (Json × ℕ) → List (Json × ℕ)
push_fields end depth stack = stack
push_fields (field k x fs) depth stack = push_fields fs depth ((x, depth) ∷ stack)

-- what a round of the loop pushes for the value that it popped
unfoldable pub push_entries : Json → ℕ → List (Json × ℕ) → List (Json × ℕ)
push_entries (array xs) depth stack = push_items xs depth stack
push_entries (object fs) depth stack = push_fields fs depth stack
push_entries _ depth stack = stack

-- the loop of `assert_json_depth`
unfoldable pub depth_loop : ℕ → ℕ → List (Json × ℕ) → Result (Unit {0})
depth_loop zero max_depth stack = err out_of_fuel
depth_loop (suc fuel) max_depth [] = ok tt
depth_loop (suc fuel) max_depth ((current, depth) ∷ stack) =
    let rest = depth_loop fuel max_depth (push_entries current (depth + 1) stack) in
    if ltb max_depth depth then err too_deep else rest

-- how many values a value holds, itself included
unfoldable mutual
  pub size : Json → ℕ
  size null = 1
  size (boolean b) = 1
  size (integer s n) = 1
  size (real finite t) = 1
  size (string t) = 1
  size (array xs) = size_items xs + 1
  size (object fs) = size_fields fs + 1

  pub size_items : Items → ℕ
  size_items nil = 0
  size_items (cons x xs) = size x + size_items xs

  pub size_fields : Fields → ℕ
  size_fields end = 0
  size_fields (field k x fs) = size x + size_fields fs

unfoldable pub assert_json_depth : Json → ℕ → Result (Unit {0})
assert_json_depth value max_depth = depth_loop (size value + 1) max_depth ((value, 1) ∷ [])

-- `pending.extend(...)`
unfoldable pub extend_items : Items → List Json → List Json
extend_items nil pending = pending
extend_items (cons x xs) pending = extend_items xs (x ∷ pending)

unfoldable pub extend_fields : Fields → List Json → List Json
extend_fields end pending = pending
extend_fields (field k x fs) pending = extend_fields fs (x ∷ pending)

unfoldable pub extend : Json → List Json → List Json
extend (array xs) pending = extend_items xs pending
extend (object fs) pending = extend_fields fs pending
extend _ pending = pending

-- what a round adds to `total`
abbrev pub own_bytes : Json → ℕ
own_bytes (string t) = String.len t
own_bytes _ = 0

-- the loop of `_string_value_bytes`
unfoldable pub bytes_loop : ℕ → List Json → ℕ → Result ℕ
bytes_loop zero pending total = err out_of_fuel
bytes_loop (suc fuel) [] total = ok total
bytes_loop (suc fuel) (current ∷ pending) total =
    bytes_loop fuel (extend current pending) (total + own_bytes current)

unfoldable pub string_value_bytes : Json → Result ℕ
string_value_bytes value = bytes_loop (size value + 1) (value ∷ []) 0
