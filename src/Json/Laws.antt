-- ===== src/Json/Laws.antt =====
-- The walks end, and compute what a recursion on the value does (memory_router/canonical.py,
-- memory_router/limits.py).
use Prim.Native.String
use hindsight_memory_router.Common.{
  arith, ◌≡◌, refl, ℕ, zero, suc, ◌+◌, ◌≤◌, ◌<◌, max, Bool, true, List, [], ◌∷◌, leb, ◌&&◌,
  if◌then◌else◌, ok, err,
}
use hindsight_memory_router.Json.{
  Json, Items, Fields, null, boolean, integer, real, string, array, object, nil, cons, end, field,
  max_safe_integer, too_deep, not_finite, rfc8785_safe, safe_items, safe_fields, push_items,
  push_fields, push_entries, depth_loop, size, size_items, size_fields, assert_json_depth,
  extend_items, extend_fields, extend, own_bytes, bytes_loop, string_value_bytes,
}

-- how deep a value nests; a value that holds none has depth 1
mutual
  pub depth : Json → ℕ
  depth null = 1
  depth (boolean b) = 1
  depth (integer s n) = 1
  depth (real finite t) = 1
  depth (string t) = 1
  depth (array xs) = depth_items xs + 1
  depth (object fs) = depth_fields fs + 1

  pub depth_items : Items → ℕ
  depth_items nil = 0
  depth_items (cons x xs) = max (depth x) (depth_items xs)

  pub depth_fields : Fields → ℕ
  depth_fields end = 0
  depth_fields (field k x fs) = max (depth x) (depth_fields fs)

-- the UTF-8 bytes of all the texts that are values, keys left aside
mutual
  pub text_bytes : Json → ℕ
  text_bytes null = 0
  text_bytes (boolean b) = 0
  text_bytes (integer s n) = 0
  text_bytes (real finite t) = 0
  text_bytes (string t) = String.len t
  text_bytes (array xs) = text_bytes_items xs
  text_bytes (object fs) = text_bytes_fields fs

  pub text_bytes_items : Items → ℕ
  text_bytes_items nil = 0
  text_bytes_items (cons x xs) = text_bytes x + text_bytes_items xs

  pub text_bytes_fields : Fields → ℕ
  text_bytes_fields end = 0
  text_bytes_fields (field k x fs) = text_bytes x + text_bytes_fields fs

-- all entries of a stack, at their depths, stay within the limit
fits : ℕ → List (Json × ℕ) → Bool
fits m [] = true
fits m ((v, d) ∷ stack) = leb (d + depth v) (m + 1) && fits m stack

stack_size : List (Json × ℕ) → ℕ
stack_size [] = 0
stack_size ((v, d) ∷ stack) = size v + stack_size stack

push_items-fits :
    (m d : ℕ) (xs : Items) (stack : List (Json × ℕ))
    → d ≤ m + 1
    → fits m (push_items xs d stack) ≡ (leb (d + depth_items xs) (m + 1) && fits m stack)
unfolding push_items fits depth
push_items-fits m d nil stack h = ground arith
push_items-fits m d (cons x xs) stack h = ground (arith, push_items-fits m d xs ((x, d) ∷ stack))

push_fields-fits :
    (m d : ℕ) (fs : Fields) (stack : List (Json × ℕ))
    → d ≤ m + 1
    → fits m (push_fields fs d stack) ≡ (leb (d + depth_fields fs) (m + 1) && fits m stack)
unfolding push_fields fits depth
push_fields-fits m d end stack h = ground arith
push_fields-fits m d (field k x fs) stack h =
    ground (arith, push_fields-fits m d fs ((x, d) ∷ stack))

push_entries-fits :
    (m d : ℕ) (v : Json) (stack : List (Json × ℕ))
    → d ≤ m
    → fits m (push_entries v (d + 1) stack) ≡ (leb (d + depth v) (m + 1) && fits m stack)
unfolding push_entries depth
push_entries-fits m d (array xs) stack h = ground (arith, push_items-fits m (d + 1) xs stack)
push_entries-fits m d (object fs) stack h = ground (arith, push_fields-fits m (d + 1) fs stack)
push_entries-fits m d _ stack h = ground arith

push_items-size :
    (d : ℕ) (xs : Items) (stack : List (Json × ℕ))
    → stack_size (push_items xs d stack) ≡ size_items xs + stack_size stack
unfolding push_items stack_size size
push_items-size d nil stack = omega arith
push_items-size d (cons x xs) stack = omega (arith, push_items-size d xs ((x, d) ∷ stack))

push_fields-size :
    (d : ℕ) (fs : Fields) (stack : List (Json × ℕ))
    → stack_size (push_fields fs d stack) ≡ size_fields fs + stack_size stack
unfolding push_fields stack_size size
push_fields-size d end stack = omega arith
push_fields-size d (field k x fs) stack = omega (arith, push_fields-size d fs ((x, d) ∷ stack))

push_entries-size :
    (d : ℕ) (v : Json) (stack : List (Json × ℕ))
    → stack_size (push_entries v d stack) + 1 ≡ size v + stack_size stack
unfolding push_entries size
push_entries-size d (array xs) stack = omega (arith, push_items-size d xs stack)
push_entries-size d (object fs) stack = omega (arith, push_fields-size d fs stack)
push_entries-size d _ stack = omega arith

pub depth_pos : (v : Json) → 1 ≤ depth v
unfolding depth
depth_pos (array xs) = omega arith
depth_pos _ = omega arith

-- with more fuel than values on the stack, the loop decides whether all of them fit
depth_loop_lem :
    (fuel m : ℕ) (stack : List (Json × ℕ))
    → stack_size stack < fuel
    → depth_loop fuel m stack ≡ (if fits m stack then ok tt else err too_deep)
unfolding depth_loop stack_size fits
depth_loop_lem zero m stack h = absurd (omega arith)
depth_loop_lem (suc fuel) m [] h = refl
depth_loop_lem (suc fuel) m ((v, d) ∷ stack) h = ground (
  arith,
  depth_pos v,
  push_entries-fits m d v stack,
  push_entries-size (d + 1) v stack,
  depth_loop_lem fuel m (push_entries v (d + 1) stack),
)

-- The loop over the stack ends, and refuses a value exactly if it nests deeper than the limit.
pub assert_json_depth-depth :
    (v : Json) (m : ℕ) → assert_json_depth v m ≡ (if leb (depth v) m then ok tt else err too_deep)
unfolding assert_json_depth stack_size fits
assert_json_depth-depth v m =
    ground (arith, depth_pos v, depth_loop_lem (size v + 1) m ((v, 1) ∷ []))

pending_size : List Json → ℕ
pending_size [] = 0
pending_size (v ∷ pending) = size v + pending_size pending

pending_bytes : List Json → ℕ
pending_bytes [] = 0
pending_bytes (v ∷ pending) = text_bytes v + pending_bytes pending

extend_items-sums :
    (xs : Items) (pending : List Json)
    → (pending_size (extend_items xs pending) ≡ size_items xs + pending_size pending)
      × (pending_bytes (extend_items xs pending) ≡ text_bytes_items xs + pending_bytes pending)
unfolding extend_items pending_size pending_bytes size text_bytes
extend_items-sums nil pending = omega arith
extend_items-sums (cons x xs) pending = omega (arith, extend_items-sums xs (x ∷ pending))

extend_fields-sums :
    (fs : Fields) (pending : List Json)
    → (pending_size (extend_fields fs pending) ≡ size_fields fs + pending_size pending)
      × (pending_bytes (extend_fields fs pending) ≡ text_bytes_fields fs + pending_bytes pending)
unfolding extend_fields pending_size pending_bytes size text_bytes
extend_fields-sums end pending = omega arith
extend_fields-sums (field k x fs) pending = omega (arith, extend_fields-sums fs (x ∷ pending))

extend-sums :
    (v : Json) (pending : List Json)
    → (pending_size (extend v pending) + 1 ≡ size v + pending_size pending)
      × (pending_bytes (extend v pending) + own_bytes v ≡ text_bytes v + pending_bytes pending)
unfolding extend size text_bytes
extend-sums (array xs) pending = omega (arith, extend_items-sums xs pending)
extend-sums (object fs) pending = omega (arith, extend_fields-sums fs pending)
extend-sums _ pending = omega arith

bytes_loop_lem :
    (fuel : ℕ) (pending : List Json) (total : ℕ)
    → pending_size pending < fuel
    → bytes_loop fuel pending total ≡ ok (total + pending_bytes pending)
unfolding bytes_loop pending_size pending_bytes
bytes_loop_lem zero pending total h = absurd (omega arith)
bytes_loop_lem (suc fuel) [] total h = ground arith
bytes_loop_lem (suc fuel) (v ∷ pending) total h =
    ground
      (arith, extend-sums v pending, bytes_loop_lem fuel (extend v pending) (total + own_bytes v))

-- The loop over the pending values ends, and its total is the UTF-8 length of all texts that are
-- values of the body, at any depth, keys left aside.
pub string_value_bytes-text_bytes : (v : Json) → string_value_bytes v ≡ ok (text_bytes v)
unfolding string_value_bytes pending_size pending_bytes
string_value_bytes-text_bytes v = ground (arith, bytes_loop_lem (size v + 1) (v ∷ []) 0)

-- all integers are exact in a double, and all floats finite
mutual
  pub is_canonical : Json → Bool
  is_canonical null = true
  is_canonical (boolean b) = true
  is_canonical (integer s n) = leb n max_safe_integer
  is_canonical (real finite t) = finite
  is_canonical (string t) = true
  is_canonical (array xs) = canonical_items xs
  is_canonical (object fs) = canonical_fields fs

  canonical_items : Items → Bool
  canonical_items nil = true
  canonical_items (cons x xs) = is_canonical x && canonical_items xs

  canonical_fields : Fields → Bool
  canonical_fields end = true
  canonical_fields (field k x fs) = is_canonical x && canonical_fields fs

mutual
  unfolding rfc8785_safe is_canonical

  rfc8785_safe_lem : (v : Json) → rfc8785_safe v ≡ (if is_canonical v then ok v else err not_finite)
  rfc8785_safe_lem null = refl
  rfc8785_safe_lem (boolean b) = refl
  rfc8785_safe_lem (integer s n) = ground arith
  rfc8785_safe_lem (real finite t) = ground arith
  rfc8785_safe_lem (string t) = refl
  rfc8785_safe_lem (array xs) = ground (arith, safe_items_lem xs)
  rfc8785_safe_lem (object fs) = ground (arith, safe_fields_lem fs)

  safe_items_lem :
      (xs : Items) → safe_items xs ≡ (if canonical_items xs then ok xs else err not_finite)
  safe_items_lem nil = refl
  safe_items_lem (cons x xs) = ground (arith, rfc8785_safe_lem x, safe_items_lem xs)

  safe_fields_lem :
      (fs : Fields) → safe_fields fs ≡ (if canonical_fields fs then ok fs else err not_finite)
  safe_fields_lem end = refl
  safe_fields_lem (field k x fs) = ground (arith, rfc8785_safe_lem x, safe_fields_lem fs)

-- The check before canonical JSON hands back the very value, or raises: it raises exactly if, at
-- some depth, an integer is beyond 2^53 - 1 in absolute value or a float is not finite.
pub rfc8785_safe-is_canonical :
    (v : Json) → rfc8785_safe v ≡ (if is_canonical v then ok v else err not_finite)
rfc8785_safe-is_canonical v = rfc8785_safe_lem v
