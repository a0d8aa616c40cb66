-- ===== src/RateLimit/Laws.antt =====
-- The leases of a bucket (memory_router/rate_limit.py).
use hindsight_memory_router.Common.{
  ap, ◌+◌, arith, refl, ℕ, String, List, [], ◌∷◌, ok, err, Result, ◌≤◌, inl, inr, Bool-cases,
  eq_iff, is_some,
}
use hindsight_memory_router.RateLimit.{
  Lease, acquire, refresh_lease, release, leased, lapsed, is_lease, renewable, renewed,
}
use hindsight_memory_router.Common.Table.{find_where, count_where, delete_where}
use hindsight_memory_router.Common.Table.Laws.{count_where-delete_where, count_where-update_where}

-- the calls of one limiter of this maximum on a bucket, and those on other buckets
pub data Call : Type 0 where
  acquiring : (bucket id : String) (now : ℕ) → Call
  refreshing : (bucket id : String) (now : ℕ) → Call
  releasing : (bucket id : String) → Call

-- the state that a transaction leaves, which is the old one under a raise
abbrev pub settle : List Lease → Result (List Lease) → List Lease
settle leases (ok leases') = leases'
settle leases (err e) = leases

unfoldable pub call : ℕ → (String → ℕ) → Call → List Lease → List Lease
call lease_ms maximum (acquiring bucket id now) leases =
    settle leases (acquire lease_ms bucket id (maximum bucket) now leases)
call lease_ms maximum (refreshing bucket id now) leases =
    settle leases (refresh_lease lease_ms bucket id now leases)
call lease_ms maximum (releasing bucket id) leases = release bucket id leases

unfoldable pub call_all : ℕ → (String → ℕ) → List Call → List Lease → List Lease
call_all lease_ms maximum [] leases = leases
call_all lease_ms maximum (c ∷ cs) leases =
    call_all lease_ms maximum cs (call lease_ms maximum c leases)

acquire-IsBounded :
    (lease_ms : ℕ) (maximum : String → ℕ) (bucket id b : String) (now : ℕ) (leases : List Lease)
    → count_where (leased b) leases ≤ maximum b
    → count_where
        (leased b)
        (settle leases (acquire lease_ms bucket id (maximum bucket) now leases))
      ≤ maximum b
unfolding acquire count_where
acquire-IsBounded lease_ms maximum bucket id b now leases h =
    elim (Bool-cases
      (is_some (find_where (is_lease bucket id) (delete_where (lapsed bucket now) leases)))) [
        | inl q ↦ ground (arith, count_where-delete_where (leased b) (lapsed bucket now) leases)
        | inr q ↦ ground (
          arith,
          eq_iff bucket b,
          ap maximum,
          count_where-delete_where (leased b) (lapsed bucket now) leases,
        )
      ]

refresh_lease-IsBounded :
    (lease_ms : ℕ) (bucket id b : String) (now n : ℕ) (leases : List Lease)
    → count_where (leased b) leases ≤ n
    → count_where (leased b) (settle leases (refresh_lease lease_ms bucket id now leases)) ≤ n
unfolding refresh_lease
refresh_lease-IsBounded lease_ms bucket id b now n leases h =
    elim (Bool-cases (is_some (find_where (renewable bucket id now) leases))) [
      | inl q ↦ ground (
        arith,
        count_where-update_where (leased b) (renewable bucket id now) (renewed (now + lease_ms))
            leases (λ x. refl),
      )
      | inr q ↦ ground arith
    ]

call-IsBounded :
    (lease_ms : ℕ) (maximum : String → ℕ) (c : Call) (b : String) (leases : List Lease)
    → count_where (leased b) leases ≤ maximum b
    → count_where (leased b) (call lease_ms maximum c leases) ≤ maximum b
unfolding call release
call-IsBounded lease_ms maximum (acquiring bucket id now) b leases h =
    acquire-IsBounded lease_ms maximum bucket id b now leases h
call-IsBounded lease_ms maximum (refreshing bucket id now) b leases h =
    refresh_lease-IsBounded lease_ms bucket id b now (maximum b) leases h
call-IsBounded lease_ms maximum (releasing bucket id) b leases h =
    omega (arith, h, count_where-delete_where (leased b) (is_lease bucket id) leases)

-- In every interleaving of acquisitions, refreshes and releases, whether they return or raise, a
-- bucket that starts with no more leases than its maximum never has more, provided that every
-- acquisition in a bucket passes the same maximum.
pub call_all-IsBounded :
    (lease_ms : ℕ) (maximum : String → ℕ) (cs : List Call) (b : String) (leases : List Lease)
    → count_where (leased b) leases ≤ maximum b
    → count_where (leased b) (call_all lease_ms maximum cs leases) ≤ maximum b
unfolding call_all
call_all-IsBounded lease_ms maximum [] b leases h = h
call_all-IsBounded lease_ms maximum (c ∷ cs) b leases h =
    call_all-IsBounded lease_ms maximum cs b (call lease_ms maximum c leases)
      (call-IsBounded lease_ms maximum c b leases h)
