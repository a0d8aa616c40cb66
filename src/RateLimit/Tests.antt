-- ===== src/RateLimit/Tests.antt =====
-- Leases on a concrete table, and the theorem at it.
use hindsight_memory_router.RateLimit.Laws.{
  call_all-IsBounded, Call, acquiring, refreshing, releasing, call_all,
}
use hindsight_memory_router.RateLimit.{Lease, acquire, concurrency_limited, leased}
use hindsight_memory_router.Common.{arith, ◌≡◌, refl, List, [], ◌∷◌, err, ◌≤◌}
use hindsight_memory_router.Common.Table.{count_where, delete_where}

abbrev held : List Lease
held = record { bucket = "agent"; lease_id = "a"; expires_at_ms = 30000 } ∷ []

-- a bucket with its maximum of live leases refuses another one
acquire_refused : acquire 30000 "agent" "b" 1 100 held ≡ err concurrency_limited
unfolding acquire count_where delete_where
acquire_refused = refl

abbrev calls : List Call
calls =
    acquiring "agent" "b" 100
    ∷ refreshing "agent" "a" 200
    ∷ releasing "agent" "a"
    ∷ acquiring "agent" "b" 300
    ∷ []

held_leq : count_where (leased "agent") held ≤ 1
unfolding count_where
held_leq = omega arith

call_all-IsBounded_example :
    count_where (leased "agent") (call_all 30000 (λ bucket. 1) calls held) ≤ 1
call_all-IsBounded_example = call_all-IsBounded 30000 (λ bucket. 1) calls "agent" held held_leq
