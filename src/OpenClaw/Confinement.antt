-- ===== src/OpenClaw/Confinement.antt =====
-- A facade request for a bank asks the memory service only for paths of that bank
-- (memory_router/openclaw.py): a gateway that checks the path changes nothing.
use hindsight_memory_router.Common.{
  arith, ◌≡◌, ◌∙◌, ap, String, Bool, true, false, some, List, ◌∷◌, if◌then◌else◌, runtime_error,
}
use hindsight_memory_router.OpenClaw.Forwarding.{
  audit, validate_safe_response, validate_safe_request, exchange, admit_request, target_bank,
  forward,
}
use hindsight_memory_router.Common.Action.{raise}
use hindsight_memory_router.Facade.{Segment, literal, FacadeRoute, split_path}
use hindsight_memory_router.Facade.Table.{match_facade_route}
use hindsight_memory_router.Dispatch.{Forward}
use hindsight_memory_router.OpenClaw.{Env, facade_path, filled, forwarded}
use hindsight_memory_router.OpenClaw.Segments.{
  before_query, is_relative, follows, no_dots_in, is_template, match_facade_route-is_template,
}
use hindsight_memory_router.OpenClaw.Filled.{IsQuote, base-follows, filled-follows, path_segments}

-- The path, without its query, has the segments of the bank's path and then those of the template,
-- none of them a dot segment, so that it stays below the bank however it is resolved.
abbrev pub is_confined : String → List Segment → String → Bool
is_confined quoted template path =
    follows
      (literal "" ∷ literal "v1" ∷ literal "default" ∷ literal "banks" ∷ literal quoted ∷ template)
      (split_path (before_query path))

module _ (quote : String → String) (quoting : IsQuote quote) where
  facade_path-is_confined :
      (urlencode : List (String × String) → String) (route : FacadeRoute) (bank : String)
      (params query : List (String × String))
      → is_template route ≡ true
      → is_relative bank ≡ false
      → no_dots_in params ≡ true
      → is_confined
          (quote bank)
          route.segments
          (facade_path quote urlencode route bank params query)
        ≡ true
  facade_path-is_confined urlencode route bank params query h b d =
      let (_, _, dots) = quoting bank in
      ap
        (follows (
          literal ""
          ∷ literal "v1"
          ∷ literal "default"
          ∷ literal "banks"
          ∷ literal (quote bank)
          ∷ route.segments))
        (path_segments quote quoting urlencode route bank params query h)
      ∙ base-follows (quote bank) route.segments (filled quote params route.segments) (dots b)
          (filled-follows quote quoting params route.segments d (ground arith))

-- the environment with a gateway that refuses what is not of the bank and of the route
abbrev pub confined : {W : Type 0} → String → FacadeRoute → Env W → Env W
confined bank route env = record env {
  openclaw_request = λ u.
      if is_confined (env.quote bank) route.segments u.path
      then env.openclaw_request u
      else raise (runtime_error "refused");
}

-- A request for a bank that overrides the writer's, on a route of the table, behaves the same where the
-- gateway refuses every path that is not the bank's path followed by the route's segments, where each
-- parameter is one segment and no segment is a dot segment. The bank and the parameters are not
-- "." or "..", and `quote` leaves no slash and no question mark and makes a dot segment of nothing
-- else.
pub forward-confined :
    {W : Type 0} (env : Env W) (bank method pathname : String) (groups : List (String × String))
    (f : Forward) (s : W)
    → IsQuote env.quote
    → match_facade_route method pathname ≡ some (f.route, groups)
    → is_relative bank ≡ false
    → no_dots_in f.params ≡ true
    → forward (confined bank f.route env) (record f { bank_override = some bank }) s
      ≡ forward env (record f { bank_override = some bank }) s
unfolding forward target_bank admit_request exchange validate_safe_request validate_safe_response
    audit
forward-confined env bank method pathname groups f s quoting matched b d =
    ap
      (λ c.
        forward
          (record env {
            openclaw_request =
                λ u. if c then env.openclaw_request u else raise (runtime_error "refused");
          })
          (record f { bank_override = some bank }) s)
      (facade_path-is_confined env.quote quoting env.urlencode f.route bank f.params
        (forwarded f.route.query_params f.query)
        (match_facade_route-is_template method pathname f.route groups matched) b d)
