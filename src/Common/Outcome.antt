-- ===== src/Common/Outcome.antt =====
-- errors.py: what a handler raises, and results that carry it.
-- `HttpError` keeps its status and code; the message and the headers are left out, since no code
-- reads them back. `HindsightGatewayError` (hindsight.py), a subclass of it, keeps its kind, the
-- upstream's status and its own status. `ValueError` is apart; every other exception is `RuntimeError`.
use Prim.Native.Nat.{ℕ}
use Prim.Native.String.{String}
use mathlib.Core.Path.{◌≡◌, refl}
use mathlib.Core.Bool.{Bool, true, false}
use mathlib.Core.Option.{Option}
use mathlib.Core.Logic.{◌⊎◌, inl, inr}

pub data GatewayKind : Type 0 where
  timeout http invalid_response network response_too_large unsafe_response : GatewayKind
  response_scan_unavailable : GatewayKind

pub data Error : Type 0 where
  http_error : ℕ → String → Error
  gateway_error : GatewayKind → (upstream_status : Option ℕ) → (status : ℕ) → Error
  value_error : String → Error
  runtime_error : String → Error

pub data Result {ℓ} (A : Type ℓ) : Type ℓ where
  ok : A → Result A
  err : Error → Result A

abbrev pub and_then {ℓ κ} : {A : Type ℓ} {B : Type κ} → Result A → (A → Result B) → Result B
and_then (ok a) f = f a
and_then (err e) f = err e

-- `if failed: raise e`
abbrev pub raise_if : Bool → Error → Result (Unit {0})
raise_if true e = err e
raise_if false e = ok tt

pub Result-cases {ℓ} :
    {A : Type ℓ} (r : Result A) → ((a : A) × (r ≡ ok a)) ⊎ ((e : Error) × (r ≡ err e))
Result-cases (ok a) = inl (a, refl)
Result-cases (err e) = inr (e, refl)
