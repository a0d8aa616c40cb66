-- ===== src/Paths/Decoding.antt =====
-- Decoding a segment of a path (`_decode_path_segment` of memory_router/paths.py).
-- `unquote` of urllib.parse is a parameter, which is `none` where it raises a ValueError.
pub mod Laws
use Prim.Native.String
use hindsight_memory_router.Common.{
  ℕ, zero, suc, String, Bool, true, false, Option, none, some, List, [], ◌∷◌, ◌==◌, ◌&&◌, ◌||◌, not,
  member, if◌then◌else◌, Error, http_error, Result, ok, err, and_then,
}
use hindsight_memory_router.Paths.Splitting.{no_slash}

abbrev pub invalid_encoding : Error
invalid_encoding = http_error 400 "invalid_path_encoding"

abbrev pub invalid_segment : Error
invalid_segment = http_error 400 "invalid_path_segment"

-- [0-9A-Fa-f]
abbrev pub hex_digits : List String
hex_digits =
    "0" ∷ "1" ∷ "2" ∷ "3" ∷ "4" ∷ "5" ∷ "6" ∷ "7" ∷ "8" ∷ "9" ∷ "a" ∷ "b" ∷ "c" ∷ "d" ∷ "e" ∷ "f"
    ∷ "A" ∷ "B" ∷ "C" ∷ "D" ∷ "E" ∷ "F" ∷ []

abbrev pub starts_with_hex : String → Bool
starts_with_hex (String.◌∷◌ a (String.◌∷◌ b rest)) =
    member (String.◌∷◌ a String.[]) hex_digits && member (String.◌∷◌ b String.[]) hex_digits
starts_with_hex _ = false

-- _INVALID_PERCENT.search(value)
unfoldable pub has_invalid_percent : String → Bool
has_invalid_percent String.[] = false
has_invalid_percent (String.◌∷◌ c rest) =
    ((String.◌∷◌ c String.[] == "%") && not (starts_with_hex rest)) || has_invalid_percent rest

-- probe in {".", ".."}
abbrev pub is_dots : String → Bool
is_dots probe = (probe == ".") || (probe == "..")

module _ (unquote : String → Option String) where
  -- The loop over the probes, with as many rounds as are left. The first clause is its `else`.
  unfoldable pub probe_loop : ℕ → String → Result (Unit {0})
  probe_loop zero probe = if is_dots probe then err invalid_segment else err invalid_encoding
  probe_loop (suc rounds) probe =
      if not (no_slash probe)
      then err invalid_segment
      else if is_dots probe
      then err invalid_segment
      else elim (unquote probe) [
        | none ↦ ok tt
        | some next_probe ↦ if next_probe == probe then ok tt else probe_loop rounds next_probe
      ]

  -- _decode_path_segment
  unfoldable pub decode_path_segment : String → Result String
  decode_path_segment value =
      if has_invalid_percent value then err invalid_encoding else elim (unquote value) [
        | none ↦ err invalid_encoding
        | some decoded ↦ and_then (probe_loop 8 decoded) (λ u. ok decoded)
      ]
