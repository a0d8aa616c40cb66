-- ===== src/Dispatch/Query/Laws.antt =====
-- The bounds of a query that is accepted (`_bank_list_query` of memory_router/request_dispatch.py).
use hindsight_memory_router.Common.{
  arith, ◌≡◌, ◌≤◌, inl, inr, Bool-cases, Option-cases, ℕ, String, Bool, true, false, Option, some,
  List, [], ◌∷◌, ◌||◌, member, ok,
}
use hindsight_memory_router.Dispatch.Query.{
  list_keys, any_unsupported, any_duplicate, count_key, get_or, in_range, ranged, bank_list_query,
}

-- the key of every pair is one of the three
pub data AllSupported : List (String × String) → Type 0 where
  no_pair : AllSupported []
  one_more :
      (key value : String) (pairs : List (String × String))
      → member key list_keys ≡ true
      → AllSupported pairs
      → AllSupported ((key, value) ∷ pairs)

any_unsupported-AllSupported :
    (pairs : List (String × String)) → any_unsupported pairs ≡ false → AllSupported pairs
unfolding any_unsupported
any_unsupported-AllSupported [] h = no_pair
any_unsupported-AllSupported ((key, value) ∷ pairs) h =
    one_more key value pairs (ground arith) (any_unsupported-AllSupported pairs (ground arith))

-- A query that is accepted has no other key than q, limit and offset, each of them once at most, and
-- its limit and its offset are the numbers that are given, or 100 and 0 where they are not, which are
-- not below 0; the limit is at most 500.
pub bank_list_query-InRange :
    (parse_int : String → Option (Bool × ℕ)) (pairs : List (String × String)) (q : Option String)
    (limit offset : ℕ)
    → bank_list_query parse_int pairs ≡ ok (q, limit, offset)
    → AllSupported pairs
      × (count_key "q" pairs ≤ 1)
      × (count_key "limit" pairs ≤ 1)
      × (count_key "offset" pairs ≤ 1)
      × (limit ≤ 500)
      × (parse_int (get_or "limit" "100" pairs) ≡ some (false, limit))
      × (parse_int (get_or "offset" "0" pairs) ≡ some (false, offset))
unfolding bank_list_query ranged
bank_list_query-InRange parse_int pairs q limit offset h =
    elim (Bool-cases (any_unsupported pairs || any_duplicate list_keys pairs)) [
      | inl bad ↦ absurd (ground arith)
      | inr good ↦ elim (Option-cases (parse_int (get_or "limit" "100" pairs))) [
        | inl p ↦ absurd (ground arith)
        | inr ((l0, l), p) ↦ elim (Option-cases (parse_int (get_or "offset" "0" pairs))) [
          | inl p' ↦ absurd (ground arith)
          | inr ((o0, o), p') ↦ elim (Bool-cases (in_range (l0, l) (o0, o))) [
            | inr out ↦ absurd (ground arith)
            | inl within ↦ (
              any_unsupported-AllSupported pairs (ground arith),
              ground arith,
              ground arith,
              ground arith,
              ground arith,
              ground arith,
              ground arith,
            )
          ]
        ]
      ]
    ]
