-- ===== src/Tokens/Tests.antt =====
-- The cleanup token does not open the review.
use hindsight_memory_router.Common.{◌≡◌, refl, false, none, some}
use hindsight_memory_router.Tokens.{
  AdminTokens, bearer_matches, admin_slot_candidates, any_matches, admin_authorized,
}

abbrev tokens : AdminTokens
tokens = record { legacy = none; read = none; review = some "a"; cleanup = some "b" }

refused : admin_authorized (some "Bearer b") "review" tokens ≡ false
unfolding admin_authorized admin_slot_candidates any_matches bearer_matches
refused = refl
