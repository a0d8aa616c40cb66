-- ===== src/Validation/Laws.antt =====
-- What a body that is read satisfies (memory_router/validation.py).
use hindsight_memory_router.Common.{
  refl, arith, ◌≡◌, Bool-cases, inl, inr, Option-cases, Result-cases, String, false, Option, some,
  Error, Result, ok,
}
use hindsight_memory_router.Json.{
  Json, Fields, null, boolean, integer, real, string, array, object, canonical_json,
}
use hindsight_memory_router.Validation.{has_routing_key, parse_body}

-- A body that is read is an object without a routing key, holds JSON values only, and its model
-- accepts it and reads what is returned.
pub parse_body-IsAccepted {ℓ} :
    {A : Type ℓ} (dumps : Json → Result String) (invalid : Error) (validate : Fields → Option A)
    (value : Json) (a : A)
    → parse_body dumps invalid validate value ≡ ok a
    → (fs : Fields) × (value ≡ object fs)
      × (has_routing_key fs ≡ false)
      × ((text : String) × (canonical_json dumps (object fs) ≡ ok text))
      × (validate fs ≡ some a)
unfolding parse_body
parse_body-IsAccepted dumps invalid validate (object fs) a h =
    elim (Bool-cases (has_routing_key fs)) [
      | inl q ↦ absurd (ground arith)
      | inr q ↦ elim (Result-cases (canonical_json dumps (object fs))) [
        | inr (e, r) ↦ absurd (ground arith)
        | inl (t, r) ↦ elim (Option-cases (validate fs)) [
          | inl v ↦ absurd (ground arith)
          | inr (b, v) ↦ (fs, refl, q, (t, r), ground arith)
        ]
      ]
    ]
parse_body-IsAccepted dumps invalid validate null a h = cc
parse_body-IsAccepted dumps invalid validate (boolean b) a h = cc
parse_body-IsAccepted dumps invalid validate (integer s n) a h = cc
parse_body-IsAccepted dumps invalid validate (real f t) a h = cc
parse_body-IsAccepted dumps invalid validate (string t) a h = cc
parse_body-IsAccepted dumps invalid validate (array xs) a h = cc
