-- ===== src/Paths.antt =====
-- The path of a request before it is matched (memory_router/paths.py).
pub mod Splitting
pub mod Decoding
mod Laws
mod Tests
use Prim.Native.String
use hindsight_memory_router.Common.{
  String, Bool, true, false, Option, none, some, List, [], ◌∷◌, ◌==◌, ◌&&◌, ◌||◌, not, reverse,
  is_some, if◌then◌else◌,
}
use hindsight_memory_router.Facade.{join, split_path}

-- _PERCENT_DOT.sub(".", segment)
unfoldable pub percent_dots : String → String
percent_dots (String.◌∷◌ a (String.◌∷◌ b (String.◌∷◌ c rest))) =
    let x : String = String.◌∷◌ a String.[] in
    let y : String = String.◌∷◌ b String.[] in
    let z : String = String.◌∷◌ c String.[] in
    elim ((x == "%") && (y == "2") && ((z == "e") || (z == "E"))) [
      | true ↦ String.◌∷◌ "." (percent_dots rest)
      | false ↦ String.◌∷◌ a (percent_dots (String.◌∷◌ b (String.◌∷◌ c rest)))
    ]
percent_dots t = t

-- dot_segment in {".", ".."}
unfoldable pub is_dot_segment : String → Bool
is_dot_segment segment = (percent_dots segment == ".") || (percent_dots segment == "..")

-- `output and output != [""]`; the list has the last segment first
abbrev pub can_pop : List String → Bool
can_pop [] = false
can_pop (s ∷ []) = not (s == "")
can_pop (s ∷ t ∷ rest) = true

abbrev pub pop : List String → List String
pop [] = []
pop (s ∷ rest) = rest

-- _apply_dot_segment
unfoldable pub apply_dot_segment : List String → String → Bool → List String
apply_dot_segment output segment trailing =
    let popped = if (segment == "..") && can_pop output then pop output else output in
    if trailing then "" ∷ popped else popped

abbrev pub is_last : List String → Bool
is_last [] = true
is_last (s ∷ rest) = false

-- the loop of _normalize_dot_segments
unfoldable pub normalize_loop : List String → List String → List String
normalize_loop [] output = output
normalize_loop (segment ∷ rest) output = normalize_loop rest (
    if is_dot_segment segment
    then apply_dot_segment output (percent_dots segment) (is_last rest)
    else segment ∷ output)

-- the segments in their order again
unfoldable pub in_order : List String → List String → List String
in_order [] rest = rest
in_order (s ∷ output) rest = in_order output (s ∷ rest)

-- _normalize_dot_segments
unfoldable pub normalize_dot_segments : String → String
normalize_dot_segments path = join "/" (in_order (normalize_loop (split_path path) []) [])
