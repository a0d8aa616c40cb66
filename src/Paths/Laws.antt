-- ===== src/Paths/Laws.antt =====
-- No dot segment survives the normalisation of a path (memory_router/paths.py).
use mathlib.Core.Path.{subst}
use hindsight_memory_router.Common.{
  arith, ◌≡◌, refl, sym, inl, inr, Bool-cases, String, Bool, true, false, List, [], ◌∷◌, ◌&&◌, not,
}
use hindsight_memory_router.Facade.{join, cut, split_path}
use hindsight_memory_router.Paths.{
  percent_dots, is_dot_segment, apply_dot_segment, normalize_loop, in_order, normalize_dot_segments,
  pop, is_last,
}
use hindsight_memory_router.Paths.Splitting.{no_slashes, no_slash-empty, cut-no_slashes, cut-join}

-- none of the segments is `.` or `..`, in plain or with percent-encoded dots
unfoldable pub no_dots : List String → Bool
no_dots [] = true
no_dots (s ∷ rest) = not (is_dot_segment s) && no_dots rest

pop-no_dots : (output : List String) → no_dots output ≡ true → no_dots (pop output) ≡ true
unfolding no_dots
pop-no_dots [] h = h
pop-no_dots (s ∷ rest) h = ground arith

pop-no_slashes : (output : List String) → no_slashes output ≡ true → no_slashes (pop output) ≡ true
unfolding no_slashes
pop-no_slashes [] h = h
pop-no_slashes (s ∷ rest) h = ground arith

empty_is_plain : is_dot_segment "" ≡ false
unfolding is_dot_segment percent_dots
empty_is_plain = refl

apply_dot_segment-no_dots :
    (output : List String) (segment : String) (trailing : Bool)
    → no_dots output ≡ true
    → no_dots (apply_dot_segment output segment trailing) ≡ true
unfolding apply_dot_segment no_dots
apply_dot_segment-no_dots output segment trailing h =
    ground (arith, pop-no_dots output h, empty_is_plain)

apply_dot_segment-no_slashes :
    (output : List String) (segment : String) (trailing : Bool)
    → no_slashes output ≡ true
    → no_slashes (apply_dot_segment output segment trailing) ≡ true
unfolding apply_dot_segment no_slashes
apply_dot_segment-no_slashes output segment trailing h =
    ground (arith, pop-no_slashes output h, no_slash-empty)

normalize_loop-no_dots :
    (segments output : List String)
    → no_dots output ≡ true
    → no_dots (normalize_loop segments output) ≡ true
unfolding normalize_loop no_dots
normalize_loop-no_dots [] output h = h
normalize_loop-no_dots (s ∷ rest) output h = elim (Bool-cases (is_dot_segment s)) [
  | inl dot ↦
      let next =
        normalize_loop-no_dots rest (apply_dot_segment output (percent_dots s) (is_last rest))
          (apply_dot_segment-no_dots output (percent_dots s) (is_last rest) h) in
      ground arith
  | inr plain ↦ let next = normalize_loop-no_dots rest (s ∷ output) (ground arith) in ground arith
]

normalize_loop-no_slashes :
    (segments output : List String)
    → no_slashes segments ≡ true
    → no_slashes output ≡ true
    → no_slashes (normalize_loop segments output) ≡ true
unfolding normalize_loop no_slashes
normalize_loop-no_slashes [] output k h = h
normalize_loop-no_slashes (s ∷ rest) output k h = elim (Bool-cases (is_dot_segment s)) [
  | inl dot ↦
      let next =
        normalize_loop-no_slashes rest (apply_dot_segment output (percent_dots s) (is_last rest))
          (ground arith) (apply_dot_segment-no_slashes output (percent_dots s) (is_last rest) h) in
      ground arith
  | inr plain ↦
      let next = normalize_loop-no_slashes rest (s ∷ output) (ground arith) (ground arith) in
      ground arith
]

in_order-no_dots :
    (output rest : List String)
    → no_dots output ≡ true
    → no_dots rest ≡ true
    → no_dots (in_order output rest) ≡ true
unfolding in_order no_dots
in_order-no_dots [] rest h k = k
in_order-no_dots (s ∷ output) rest h k =
    in_order-no_dots output (s ∷ rest) (ground arith) (ground arith)

in_order-no_slashes :
    (output rest : List String)
    → no_slashes output ≡ true
    → no_slashes rest ≡ true
    → no_slashes (in_order output rest) ≡ true
unfolding in_order no_slashes
in_order-no_slashes [] rest h k = k
in_order-no_slashes (s ∷ output) rest h k =
    in_order-no_slashes output (s ∷ rest) (ground arith) (ground arith)

split-join-no_dots :
    (segments : List String)
    → no_slashes segments ≡ true
    → no_dots segments ≡ true
    → no_dots (split_path (join "/" segments)) ≡ true
unfolding split_path cut no_dots no_slashes
split-join-no_dots [] k h = ground (arith, empty_is_plain)
split-join-no_dots (p ∷ ps) k h =
    subst (λ l. no_dots l ≡ true) (sym (cut-join p ps (ground arith) (ground arith))) h

split_path-no_slashes : (path : String) → no_slashes (split_path path) ≡ true
unfolding split_path
split_path-no_slashes path = cut-no_slashes path "" no_slash-empty

none_slashed : no_slashes [] ≡ true
unfolding no_slashes
none_slashed = refl

none_dotted : no_dots [] ≡ true
unfolding no_dots
none_dotted = refl

-- No segment of a normalised path is a dot segment, in plain or with percent-encoded dots.
pub normalize_dot_segments-no_dots :
    (path : String) → no_dots (split_path (normalize_dot_segments path)) ≡ true
unfolding normalize_dot_segments
normalize_dot_segments-no_dots path =
    let output = normalize_loop (split_path path) [] in
    split-join-no_dots (in_order output [])
      (in_order-no_slashes output []
        (normalize_loop-no_slashes (split_path path) [] (split_path-no_slashes path) none_slashed)
        none_slashed)
      (in_order-no_dots output [] (normalize_loop-no_dots (split_path path) [] none_dotted)
        none_dotted)
