-- ===== src/Dispatch/Query.antt =====
-- The query of the list of banks (`_bank_list_query` of memory_router/request_dispatch.py).
-- `int(text, 10)` is a parameter: whether the number is below 0, and its absolute value.
pub mod Laws
use hindsight_memory_router.Common.{
  ℕ, String, Bool, false, Option, none, some, List, [], ◌∷◌, ◌==◌, ◌+◌, ◌&&◌, ◌||◌, not, ltb, bit,
  member, if◌then◌else◌, Error, http_error, Result, ok, err,
}
use hindsight_memory_router.Principals.{lookup}

abbrev pub invalid_query : Error
invalid_query = http_error 400 "invalid_query"

abbrev pub list_keys : List String
list_keys = "q" ∷ "limit" ∷ "offset" ∷ []

-- any(key not in ...)
unfoldable pub any_unsupported : List (String × String) → Bool
any_unsupported [] = false
any_unsupported ((key, value) ∷ pairs) = not (member key list_keys) || any_unsupported pairs

-- sum(1 for key, _ in pairs if key == name)
unfoldable pub count_key : String → List (String × String) → ℕ
count_key name [] = 0
count_key name ((key, value) ∷ pairs) = bit (key == name) + count_key name pairs

abbrev pub any_duplicate : List String → List (String × String) → Bool
any_duplicate [] pairs = false
any_duplicate (name ∷ names) pairs = ltb 1 (count_key name pairs) || any_duplicate names pairs

-- query_params.get(name, default)
abbrev pub get_or : String → String → List (String × String) → String
get_or name default pairs = elim (lookup name pairs) [ none ↦ default | some value ↦ value ]

abbrev pub in_range : Bool × ℕ → Bool × ℕ → Bool
in_range (limit_below, limit) (offset_below, offset) =
    not limit_below && not (ltb 500 limit) && not offset_below

unfoldable pub ranged :
    Option String → Option (Bool × ℕ) → Option (Bool × ℕ) → Result (Option String × ℕ × ℕ)
ranged q (some limit) (some offset) =
    if in_range limit offset then ok (q, limit.1, offset.1) else err invalid_query
ranged q _ _ = err invalid_query

-- _bank_list_query
unfoldable pub bank_list_query :
    (String → Option (Bool × ℕ)) → List (String × String) → Result (Option String × ℕ × ℕ)
bank_list_query parse_int pairs =
    if any_unsupported pairs || any_duplicate list_keys pairs
    then err invalid_query
    else ranged (lookup "q" pairs) (parse_int (get_or "limit" "100" pairs))
        (parse_int (get_or "offset" "0" pairs))
