-- ===== src/Facade/Tests.antt =====
-- Two requests matched to routes, and the theorems at them.
use hindsight_memory_router.Common.{◌≢◌, ◌≡◌, refl, String, true, false, none, some, List, [], ◌∷◌}
use hindsight_memory_router.Facade.{
  literal, parameter, FacadeRoute, defaults, route, no_body, required, match_segments, first_match,
  facade_scope, split_path, cut,
}
use hindsight_memory_router.Facade.Table.{match_facade_route}
use hindsight_memory_router.Facade.Laws.{may_write, match_facade_route-may_write}

abbrev patch_memory : FacadeRoute
patch_memory =
    route "PATCH" (literal "memories" ∷ parameter "memory_id" ∷ []) false required defaults

abbrev pathname : String
pathname = "/v1/default/banks/work/memories/m1"

abbrev groups : List (String × String)
groups = ("bank", "work") ∷ ("memory_id", "m1") ∷ []

patch_matched : match_facade_route "PATCH" pathname ≡ some (patch_memory, groups)
unfolding match_facade_route first_match match_segments split_path cut
patch_matched = refl

-- a static segment goes before a parameter
list_matched :
    match_facade_route "GET" "/v1/default/banks/work/memories/list"
    ≢ some (
      route "GET" (literal "memories" ∷ parameter "memory_id" ∷ []) true no_body defaults,
      ("bank", "work") ∷ ("memory_id", "list") ∷ [],
    )
unfolding match_facade_route first_match match_segments split_path cut
list_matched = cc

unmatched : match_facade_route "POST" pathname ≡ none
unfolding match_facade_route first_match match_segments split_path cut
unmatched = refl

match_facade_route-may_write_example :
    may_write (facade_scope (λ value. none) patch_memory []) ≡ true
match_facade_route-may_write_example =
    match_facade_route-may_write (λ value. none) [] "PATCH" pathname patch_memory groups
      patch_matched refl
