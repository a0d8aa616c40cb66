-- ===== src/Paths/Tests.antt =====
-- A path that climbs with encoded dots, and the theorem at it.
use hindsight_memory_router.Common.{
  some, if◌then◌else◌, member, ◌==◌, ok, Option, String, ◌≡◌, refl, true,
}
use hindsight_memory_router.Paths.Decoding.Laws.{is_plain, decode_path_segment-is_plain, here}
use hindsight_memory_router.Paths.Splitting.{no_slash}
use hindsight_memory_router.Paths.Decoding.{decode_path_segment, has_invalid_percent, probe_loop}
use hindsight_memory_router.Facade.{cut, split_path}
use hindsight_memory_router.Paths.{
  percent_dots, is_dot_segment, apply_dot_segment, normalize_loop, in_order, normalize_dot_segments,
}
use hindsight_memory_router.Paths.Laws.{no_dots, normalize_dot_segments-no_dots}

climbed : normalize_dot_segments "/a/%2E./b" ≡ "/b"
unfolding normalize_dot_segments split_path cut normalize_loop is_dot_segment percent_dots
    apply_dot_segment in_order
climbed = refl

normalize_dot_segments-no_dots_example :
    no_dots (split_path (normalize_dot_segments "/a/%2E./b")) ≡ true
normalize_dot_segments-no_dots_example = normalize_dot_segments-no_dots "/a/%2E./b"

-- a reading of percent escapes that knows one escape
abbrev unquote : String → Option String
unquote text = if text == "a%20b" then some "a b" else some text

decoded : decode_path_segment unquote "a%20b" ≡ ok "a b"
unfolding decode_path_segment has_invalid_percent probe_loop no_slash member
decoded = refl

decode_path_segment-is_plain_example : is_plain "a b" ≡ true
decode_path_segment-is_plain_example =
    decode_path_segment-is_plain unquote "a%20b" "a b" "a b" decoded (here "a b")
