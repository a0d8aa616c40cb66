-- ===== src/Review/Refines.antt =====
-- Every operation of a review makes moves of `Moves`, and with that a run of the machine of `Machine`.
pub mod Lookups
pub mod Settlements
pub mod Mutations
pub mod Claims
pub mod Refusals
pub mod Successes
use hindsight_memory_router.Common.{refl}
