-- ===== src/Review.antt =====
-- The review of quarantined items (memory_router/review_repository.py).
-- `Guards` has the checks and the shared transaction of a review, `Actions` the operations, and the
-- other modules prove what the operations do.
pub mod Guards
pub mod Actions
pub mod Recovery
pub mod Machine
pub mod Moves
pub mod Refines
pub mod Claiming
pub mod Commands
mod Tests
