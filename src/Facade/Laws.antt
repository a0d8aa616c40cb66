-- ===== src/Facade/Laws.antt =====
-- Matching a path, and the scopes of the routes that write (memory_router/facade_routes.py,
-- `facade_scope` of memory_router/principals.py).
use hindsight_memory_router.Common.{
  member, ◌∙◌, arith, ◌≡◌, ◌≢◌, refl, String, Bool, true, false, Option, none, some, List, [], ◌∷◌,
  ◌==◌, is_some, ◌&&◌, ◌||◌, not, Result, ok, err, eq_iff, ==_self, inl, inr, Option-cases,
  Bool-cases,
}
use hindsight_memory_router.Facade.{
  Segment, literal, parameter, FacadeRoute, match_segments, pattern_of, first_match, facade_scope,
  split_path,
}
use mathlib.Core.Path.{subst}
use hindsight_memory_router.Facade.Table.{facade_routes, match_facade_route}

-- a path that is an instance of a template, with the values of its parameters
pub data Instance : List Segment → List String → List (String × String) → Type 0 where
  done : Instance [] [] []
  here :
      (s : String) (segments : List Segment) (path : List String) (groups : List (String × String))
      → Instance segments path groups
      → Instance (literal s ∷ segments) (s ∷ path) groups
  bind :
      (n p : String) (segments : List Segment) (path : List String)
      (groups : List (String × String))
      → p ≢ ""
      → Instance segments path groups
      → Instance (parameter n ∷ segments) (p ∷ path) ((n, p) ∷ groups)

pub Instance-match_segments :
    {segments : List Segment} {path : List String} {groups : List (String × String)}
    → Instance segments path groups
    → match_segments segments path ≡ some groups
unfolding match_segments
Instance-match_segments done = refl
Instance-match_segments (here s segments path groups i) =
    ground (arith, ==_self s, Instance-match_segments i)
Instance-match_segments (bind n p segments path groups h i) =
    ground (arith, eq_iff p "", Instance-match_segments i)

pub match_segments-Instance :
    (segments : List Segment) (path : List String) (groups : List (String × String))
    → match_segments segments path ≡ some groups
    → Instance segments path groups
unfolding match_segments
match_segments-Instance [] [] groups h = subst (Instance [] []) (ground arith) done
match_segments-Instance [] (p ∷ path) groups h = absurd (ground arith)
match_segments-Instance (literal s ∷ segments) [] groups h = absurd (ground arith)
match_segments-Instance (parameter n ∷ segments) [] groups h = absurd (ground arith)
match_segments-Instance (literal s ∷ segments) (p ∷ path) groups h = elim (Bool-cases (s == p)) [
  | inr q ↦ absurd (ground arith)
  | inl q ↦
      subst (λ t. Instance (literal s ∷ segments) (t ∷ path) groups) ((eq_iff s p).0 q)
        (here s segments path groups (match_segments-Instance segments path groups (ground arith)))
]
match_segments-Instance (parameter n ∷ segments) (p ∷ path) groups h =
    elim (Option-cases (match_segments segments path)) [
      | inl q ↦ absurd (ground arith)
      | inr (rest, q) ↦ subst (Instance (parameter n ∷ segments) (p ∷ path)) (ground arith) (
          bind n p segments path rest (λ e. ground (arith, eq_iff p ""))
            (match_segments-Instance segments path rest q))
    ]

-- every route of a list passes a test
unfoldable pub every : (FacadeRoute → Bool) → List FacadeRoute → Bool
every p [] = true
every p (r ∷ rs) = p r && every p rs

pub first_match-every :
    (p : FacadeRoute → Bool) (rs : List FacadeRoute) (method : String) (path : List String)
    (r : FacadeRoute) (groups : List (String × String))
    → every p rs ≡ true
    → first_match rs method path ≡ some (r, groups)
    → (p r ≡ true) × (r.method ≡ method) × (match_segments (pattern_of r) path ≡ some groups)
unfolding first_match every
first_match-every p [] method path r groups a h = absurd (ground arith)
first_match-every p (q ∷ rs) method path r groups a h = elim (Bool-cases (q.method == method)) [
  | inr e ↦ first_match-every p rs method path r groups (ground arith) (ground arith)
  | inl e ↦ elim (Option-cases (match_segments (pattern_of q) path)) [
    | inl f ↦ first_match-every p rs method path r groups (ground arith) (ground arith)
    | inr (found, f) ↦
        let same : q ≡ r = ground arith in
        subst
          (λ t.
            (p t ≡ true) × (t.method ≡ method) × (match_segments (pattern_of t) path ≡ some groups))
          same (ground arith, (eq_iff q.method method).0 e, f ∙ ground arith)
  ]
]

-- A route that a method and a path are matched to has that method, and the path is an instance of
-- its pattern, its groups the values of the bank and of the parameters.
pub match_facade_route-Instance :
    (method pathname : String) (r : FacadeRoute) (groups : List (String × String))
    → match_facade_route method pathname ≡ some (r, groups)
    → (r.method ≡ method) × Instance (pattern_of r) (split_path pathname) groups
unfolding match_facade_route every
match_facade_route-Instance method pathname r groups h =
    let (_, m, e) =
      first_match-every (λ r. true) facade_routes method (split_path pathname) r groups refl h in
    (m, match_segments-Instance (pattern_of r) (split_path pathname) groups e)

-- the scopes that let a principal write
abbrev pub may_write : Result String → Bool
may_write (ok scope) =
    (scope == "memory.retain") || (scope == "bank.config.write") || (scope == "bank.admin")
may_write (err e) = false

-- a read, or a scope that lets a principal write
abbrev pub is_guarded : (String → Option Bool) → List (String × String) → FacadeRoute → Bool
is_guarded parse_bool query r = r.read || may_write (facade_scope parse_bool r query)

facade_routes-is_guarded :
    (parse_bool : String → Option Bool) (query : List (String × String))
    → every (is_guarded parse_bool query) facade_routes ≡ true
unfolding every facade_scope member
facade_routes-is_guarded parse_bool query = refl

-- A request that is matched to a route which is not a read asks for memory.retain,
-- bank.config.write or bank.admin, whatever its query.
pub match_facade_route-may_write :
    (parse_bool : String → Option Bool) (query : List (String × String)) (method pathname : String)
    (r : FacadeRoute) (groups : List (String × String))
    → match_facade_route method pathname ≡ some (r, groups)
    → r.read ≡ false
    → may_write (facade_scope parse_bool r query) ≡ true
unfolding match_facade_route
match_facade_route-may_write parse_bool query method pathname r groups h w =
    let (guarded, _, _) =
      first_match-every (is_guarded parse_bool query) facade_routes method (split_path pathname) r
        groups (facade_routes-is_guarded parse_bool query) h in
    ground arith

first_match-none :
    (rs : List FacadeRoute) (method : String) (path : List String)
    → first_match rs method path ≡ none
    → every (λ r. not ((r.method == method) && is_some (match_segments (pattern_of r) path))) rs
      ≡ true
unfolding first_match every
first_match-none [] method path h = refl
first_match-none (r ∷ rs) method path h = elim (Option-cases (match_segments (pattern_of r) path)) [
  | inl e ↦ ground (arith, first_match-none rs method path)
  | inr (groups, e) ↦ ground (arith, first_match-none rs method path)
]

-- A path is refused only if no route of the table has its method and matches it.
pub match_facade_route-none :
    (method pathname : String)
    → match_facade_route method pathname ≡ none
    → every
        (λ r.
          not
            ((r.method == method) && is_some (match_segments (pattern_of r) (split_path pathname))))
        facade_routes
      ≡ true
unfolding match_facade_route
match_facade_route-none method pathname h =
    first_match-none facade_routes method (split_path pathname) h
