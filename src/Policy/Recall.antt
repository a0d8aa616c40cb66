-- ===== src/Policy/Recall.antt =====
-- Which recalled memories reach the caller (memory_router/policy.py).
pub mod Decide
pub mod Laws
pub mod Decided
pub mod Answer
pub mod Requests
pub mod Bounds
