-- ===== src/Tokens/Laws.antt =====
-- Which slot's token opens a scope of the administration (memory_router/auth.py).
use hindsight_memory_router.Common.{
  arith, ◌≡◌, refl, sym, ◌∙◌, eq_iff, String, Bool, true, Option, none, some, List, [], ◌∷◌, ◌==◌,
  ◌&&◌, ◌||◌, is_some,
}
use hindsight_memory_router.Tokens.{
  AdminTokens, is_set, bearer_matches, admin_slot_candidates, any_matches, first_match,
  admin_authorized, admin_token_scope,
}

bearer_matches-is_set :
    (authorization token : Option String)
    → bearer_matches authorization token ≡ true
    → is_set token ≡ true
unfolding bearer_matches
bearer_matches-is_set (some a) (some t) h = ground arith
bearer_matches-is_set (some a) none h = absurd (ground arith)
bearer_matches-is_set none token h = absurd (ground arith)

any_matches-first_match :
    (authorization : Option String) (slots : List (String × Option String))
    → any_matches authorization slots ≡ is_some (first_match authorization slots)
unfolding any_matches first_match
any_matches-first_match authorization [] = refl
any_matches-first_match authorization ((slot, token) ∷ rest) =
    ground
      (arith, any_matches-first_match authorization rest, bearer_matches-is_set authorization token)

bearer_if_set :
    (authorization token : Option String)
    → (is_set token && bearer_matches authorization token) ≡ bearer_matches authorization token
bearer_if_set authorization token = ground (arith, bearer_matches-is_set authorization token)

-- who may do what: legacy tokens everything, review tokens reading and reviewing, the others their own
abbrev pub may_enter : Option String → String → AdminTokens → Bool
may_enter authorization scope tokens =
    bearer_matches authorization tokens.legacy
    || ((scope == "read") && bearer_matches authorization tokens.read)
    || (((scope == "read") || (scope == "review")) && bearer_matches authorization tokens.review)
    || ((scope == "cleanup") && bearer_matches authorization tokens.cleanup)

-- A request enters a scope of the administration exactly when it bears the legacy token, the token of
-- the scope, or for reading that of review; and then, and only then, a slot is named for it.
pub admin_authorized-may_enter :
    (authorization : Option String) (scope : String) (tokens : AdminTokens)
    → (admin_authorized authorization scope tokens ≡ may_enter authorization scope tokens)
      × (is_some (admin_token_scope authorization scope tokens)
          ≡ may_enter authorization scope tokens)
unfolding admin_authorized admin_token_scope admin_slot_candidates any_matches
admin_authorized-may_enter authorization scope tokens =
    let slots = admin_slot_candidates scope tokens in
    let entered : admin_authorized authorization scope tokens
        ≡ may_enter authorization scope tokens =
      ground (
        arith,
        eq_iff scope "read",
        eq_iff scope "review",
        eq_iff scope "cleanup",
        eq_iff "read" "review",
        eq_iff "read" "cleanup",
        eq_iff "review" "cleanup",
        bearer_if_set authorization tokens.legacy,
        bearer_if_set authorization tokens.read,
        bearer_if_set authorization tokens.review,
        bearer_if_set authorization tokens.cleanup,
      ) in
    (entered, sym (any_matches-first_match authorization slots) ∙ entered)
