-- ===== src/OpenClaw/Segments.antt =====
-- The segments of the paths that the facade asks for (memory_router/openclaw.py, the routes of
-- memory_router/openclaw_contract.py).
use Prim.Native.String
use text.Mathlib.TextLemmas.{nil-append, cons-append}
use hindsight_memory_router.Common.{
  if◌then◌else◌, arith, ◌≡◌, refl, sym, ◌∙◌, ap, String, Bool, true, false, some, List, [], ◌∷◌,
  ◌==◌, ◌&&◌, ◌||◌, not,
}
use hindsight_memory_router.Facade.{Segment, literal, parameter, FacadeRoute, split_path}
use hindsight_memory_router.Facade.Table.{facade_routes, match_facade_route}
use hindsight_memory_router.Facade.Laws.{every, first_match-every}
use hindsight_memory_router.Paths.{is_dot_segment}
use hindsight_memory_router.Paths.Splitting.{no_slash}
use hindsight_memory_router.OpenClaw.{query_text}

-- the text before the query
unfoldable pub before_query : String → String
before_query String.[] = ""
before_query (String.◌∷◌ c rest) =
    if String.◌∷◌ c String.[] == "?" then "" else String.◌∷◌ c (before_query rest)

unfoldable pub no_question : String → Bool
no_question String.[] = true
no_question (String.◌∷◌ c rest) = not (String.◌∷◌ c String.[] == "?") && no_question rest

-- "." or ".."
abbrev pub is_relative : String → Bool
is_relative text = (text == ".") || (text == "..")

-- The segments follow the template: its literals stand in their places, each of its parameters is one
-- segment, nothing is left over, and no segment is a dot segment.
unfoldable pub follows : List Segment → List String → Bool
follows [] [] = true
follows (literal s ∷ template) (p ∷ path) =
    (s == p) && not (is_dot_segment p) && follows template path
follows (parameter name ∷ template) (p ∷ path) = not (is_dot_segment p) && follows template path
follows _ _ = false

-- no value is "." or ".."
unfoldable pub no_dots_in : List (String × String) → Bool
no_dots_in [] = true
no_dots_in ((name, value) ∷ params) = not (is_relative value) && no_dots_in params

-- the literals of a template hold no separator and are no dot segments
unfoldable pub plain_literals : List Segment → Bool
plain_literals [] = true
plain_literals (literal s ∷ template) =
    no_slash s && no_question s && not (is_dot_segment s) && plain_literals template
plain_literals (parameter name ∷ template) = plain_literals template

-- a template is empty or starts with a word
abbrev pub starts_with_word : List Segment → Bool
starts_with_word [] = true
starts_with_word (literal s ∷ template) = not (s == "")
starts_with_word (parameter name ∷ template) = false

abbrev pub is_template : FacadeRoute → Bool
is_template r = starts_with_word r.segments && plain_literals r.segments

facade_routes-is_template : every is_template facade_routes ≡ true
unfolding every plain_literals no_slash no_question is_dot_segment
    hindsight_memory_router.Paths.percent_dots
facade_routes-is_template = refl

pub match_facade_route-is_template :
    (method pathname : String) (r : FacadeRoute) (groups : List (String × String))
    → match_facade_route method pathname ≡ some (r, groups)
    → is_template r ≡ true
unfolding match_facade_route
match_facade_route-is_template method pathname r groups h =
    let (template, _, _) =
      first_match-every is_template facade_routes method (split_path pathname) r groups
        facade_routes-is_template h in
    template

pub no_question-append :
    (a b : String) → no_question (String.◌++◌ a b) ≡ (no_question a && no_question b)
unfolding no_question
no_question-append String.[] b = ap no_question (nil-append b)
no_question-append (String.◌∷◌ c a) b =
    rw (cons-append c a b) (ground (arith, no_question-append a b))

pub before_query-append :
    (a b : String)
    → no_question a ≡ true
    → before_query (String.◌++◌ a b) ≡ String.◌++◌ a (before_query b)
unfolding before_query no_question
before_query-append String.[] b h =
    ap before_query (nil-append b) ∙ sym (nil-append (before_query b))
before_query-append (String.◌∷◌ c a) b h =
    rw (cons-append c a b, cons-append c a (before_query b))
      (ground (arith, before_query-append a b))

pub before_query-query_text :
    (urlencode : List (String × String) → String) (query : List (String × String))
    → before_query (query_text urlencode query) ≡ ""
unfolding before_query
before_query-query_text urlencode [] = refl
before_query-query_text urlencode (pair ∷ query) =
    rw (cons-append "?" "" (urlencode (pair ∷ query))) refl
