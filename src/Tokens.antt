-- ===== src/Tokens.antt =====
-- The bearer tokens of the router and of its administration (memory_router/auth.py). `compare_digest` on
-- SHA-256 digests is taken as the equality of what is hashed.
mod Laws
mod Tests
use hindsight_memory_router.Common.{
  String, Bool, true, false, Option, none, some, List, [], ◌∷◌, ◌==◌, not, ◌&&◌, ◌||◌,
  if◌then◌else◌,
}
use hindsight_memory_router.Policy.{concat}

-- the configured tokens, by slot
pub record AdminTokens : Type 0 where
  pub legacy : Option String
  pub read : Option String
  pub review : Option String
  pub cleanup : Option String

-- a text that is there and not empty
abbrev pub is_set : Option String → Bool
is_set none = false
is_set (some t) = not (t == "")

-- bearer_matches
unfoldable pub bearer_matches : Option String → Option String → Bool
bearer_matches (some presented) (some token) =
    not (presented == "") && not (token == "") && (presented == concat ("Bearer " ∷ token ∷ []))
bearer_matches _ _ = false

-- router_authorized
unfoldable pub router_authorized : Option String → Option String → Bool → Bool
router_authorized authorization token allow_anonymous =
    if is_set token then bearer_matches authorization token else allow_anonymous

-- _admin_slot_candidates
unfoldable pub admin_slot_candidates : String → AdminTokens → List (String × Option String)
admin_slot_candidates scope tokens =
    ("legacy", tokens.legacy)
    ∷ (if scope == "read"
        then ("read", tokens.read) ∷ ("review", tokens.review) ∷ []
        else if scope == "review"
        then ("review", tokens.review) ∷ []
        else if scope == "cleanup"
        then ("cleanup", tokens.cleanup) ∷ []
        else [])

unfoldable pub any_matches : Option String → List (String × Option String) → Bool
any_matches authorization [] = false
any_matches authorization ((slot, token) ∷ rest) =
    (is_set token && bearer_matches authorization token) || any_matches authorization rest

unfoldable pub first_match : Option String → List (String × Option String) → Option String
first_match authorization [] = none
first_match authorization ((slot, token) ∷ rest) =
    let others = first_match authorization rest in
    if bearer_matches authorization token then some slot else others

-- admin_authorized
unfoldable pub admin_authorized : Option String → String → AdminTokens → Bool
admin_authorized authorization scope tokens =
    any_matches authorization (admin_slot_candidates scope tokens)

-- admin_token_scope
unfoldable pub admin_token_scope : Option String → String → AdminTokens → Option String
admin_token_scope authorization scope tokens =
    first_match authorization (admin_slot_candidates scope tokens)

-- admin_token_recognized
unfoldable pub admin_token_recognized : Option String → AdminTokens → Bool
admin_token_recognized authorization tokens = any_matches authorization (
    ("legacy", tokens.legacy)
    ∷ ("read", tokens.read)
    ∷ ("review", tokens.review)
    ∷ ("cleanup", tokens.cleanup)
    ∷ [])
