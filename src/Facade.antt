-- ===== src/Facade.antt =====
-- The bank-scoped routes of the facade, how a path is matched to one, and the scope that it asks for
-- (memory_router/facade_routes.py, `facade_scope` of memory_router/principals.py).
-- A template is its list of segments. No literal of a template holds a `/`, so the replacements of
-- `/` in `resource` are joins with another separator. The pattern of a route is matched segment by
-- segment, `[^/]+` being a segment that is not empty.
pub mod Table
pub mod Laws
mod Tests
use Prim.Native.String
use Prim.Native.String.{◌++◌}
use hindsight_memory_router.Common.{
  ℕ, String, Bool, true, false, Option, none, some, List, [], ◌∷◌, ◌==◌, nat_eq, not, ◌&&◌, ◌||◌,
  if◌then◌else◌, member, Result, ok, err, http_error, and_then,
}

pub data Segment : Type 0 where
  literal : String → Segment
  parameter : String → Segment

pub data BodyMode : Type 0 where
  no_body optional required : BodyMode

pub data ResponseMode : Type 0 where
  object array : ResponseMode

pub data RequestScanMode : Type 0 where
  recall retain : RequestScanMode

pub record FacadeRoute : Type 0 where
  pub method : String
  pub segments : List Segment
  pub template : String
  pub read : Bool
  pub request_scan : RequestScanMode
  pub body : BodyMode
  pub strict_contract : Bool
  pub success_status : ℕ
  pub body_label : String
  pub resource : String
  pub operation : String
  pub params : List String
  pub query_params : List String
  pub required_query_params : List String
  pub response : ResponseMode
  pub allow_empty_response : Bool

-- the keyword arguments of `_route` that have a default
pub record Options : Type 0 where
  pub request_scan : Option RequestScanMode
  pub strict : Bool
  pub success_status : ℕ
  pub body_label : Option String
  pub query : List String
  pub required_query : List String
  pub response : ResponseMode
  pub allow_empty_response : Bool

abbrev pub defaults : Options
defaults = record {
  request_scan = none;
  strict = false;
  success_status = 200;
  body_label = none;
  query = [];
  required_query = [];
  response = object;
  allow_empty_response = false;
}

-- sep.join(parts)
abbrev pub join_more : String → List String → String
join_more sep [] = ""
join_more sep (p ∷ ps) = sep ++ (p ++ join_more sep ps)

abbrev pub join : String → List String → String
join sep [] = ""
join sep (p ∷ ps) = p ++ join_more sep ps

abbrev pub shown : List Segment → List String
shown [] = []
shown (literal s ∷ rest) = s ∷ shown rest
shown (parameter n ∷ rest) = ("{" ++ (n ++ "}")) ∷ shown rest

abbrev pub literals : List Segment → List String
literals [] = []
literals (literal s ∷ rest) = s ∷ literals rest
literals (parameter n ∷ rest) = literals rest

abbrev pub parameters : List Segment → List String
parameters [] = []
parameters (literal s ∷ rest) = parameters rest
parameters (parameter n ∷ rest) = n ∷ parameters rest

-- `value or other`, on texts
abbrev pub or_text : String → String → String
or_text s other = if s == "" then other else s

abbrev pub label_of : Option String → List Segment → String
label_of none segments = or_text (join " " (literals segments)) "bank"
label_of (some label) segments = label

abbrev pub scan_of : Option RequestScanMode → Bool → RequestScanMode
scan_of (some mode) read = mode
scan_of none true = recall
scan_of none false = retain

abbrev pub is_no_body : BodyMode → Bool
is_no_body no_body = true
is_no_body _ = false

-- set(required_query) <= set(query)
abbrev pub all_in : List String → List String → Bool
all_in [] ys = true
all_in (x ∷ xs) ys = member x ys && all_in xs ys

-- `_route`, past the check of `required_query`
abbrev pub route : String → List Segment → Bool → BodyMode → Options → FacadeRoute
route method segments read body o = record {
  method = method;
  segments = segments;
  template = join "/" (shown segments);
  read = read;
  request_scan = scan_of o.request_scan read;
  body = body;
  strict_contract = o.strict;
  success_status = o.success_status;
  body_label = label_of o.body_label segments;
  resource = join "/" (literals segments);
  operation = or_text (join "_" (literals segments)) "bank";
  params = parameters segments;
  query_params = o.query;
  required_query_params = o.required_query;
  response = o.response;
  allow_empty_response =
      o.allow_empty_response || (method == "DELETE") || ((method == "POST") && is_no_body body);
}

-- path.split("/"), with the segment that is being read
unfoldable pub cut : String → String → List String
cut String.[] current = current ∷ []
cut (String.◌∷◌ c rest) current =
    let character : String = String.◌∷◌ c String.[] in
    let inside = cut rest (current ++ character) in
    let next = current ∷ cut rest "" in if character == "/" then next else inside

unfoldable pub split_path : String → List String
unfolding cut
split_path path = cut path ""

-- the suffix of the pattern: the groups that it binds
unfoldable pub match_segments : List Segment → List String → Option (List (String × String))
match_segments [] [] = some []
match_segments (literal s ∷ segments) (p ∷ path) =
    let rest = match_segments segments path in if s == p then rest else none
match_segments (parameter n ∷ segments) (p ∷ path) =
    let rest = match_segments segments path in
    if p == "" then none else elim rest [ none ↦ none | some groups ↦ some ((n, p) ∷ groups) ]
match_segments _ _ = none

-- /v1/default/banks/(?P<bank>[^/]+)
abbrev pub prefix : List Segment
prefix = literal "" ∷ literal "v1" ∷ literal "default" ∷ literal "banks" ∷ parameter "bank" ∷ []

abbrev pub pattern_of : FacadeRoute → List Segment
pattern_of r =
    literal "" ∷ literal "v1" ∷ literal "default" ∷ literal "banks" ∷ parameter "bank" ∷ r.segments

unfoldable pub first_match :
    List FacadeRoute → String → List String → Option (FacadeRoute × List (String × String))
first_match [] method path = none
first_match (r ∷ rs) method path =
    let rest = first_match rs method path in
    if not (r.method == method)
    then rest
    else elim (match_segments (pattern_of r) path) [ none ↦ rest | some groups ↦ some (r, groups) ]

-- _operation_read_scope; `parse_bool` is pydantic's reading of a boolean
unfoldable pub any_payload : (String → Option Bool) → List (String × String) → Option Bool
any_payload parse_bool [] = some false
any_payload parse_bool ((k, v) ∷ query) =
    let rest = any_payload parse_bool query in
    if not (k == "include_payload") then rest else elim (parse_bool v) [
      | none ↦ none
      | some b ↦ elim rest [ none ↦ none | some c ↦ some (b || c) ]
    ]

abbrev pub payload_scope : Option Bool → Result String
payload_scope none = err (http_error 400 "invalid_query")
payload_scope (some true) = ok "memory.recall"
payload_scope (some false) = ok "bank.config.read"

abbrev pub bank_level_read_resources : List String
bank_level_read_resources =
    "stats" ∷ "stats/memories-timeseries" ∷ "tags" ∷ "audit-logs/stats" ∷ "llm-requests/stats" ∷ []

abbrev pub bank_manage_resources : List String
bank_manage_resources = "consolidate" ∷ "consolidation/recover" ∷ []

-- resource == "operations" or resource.startswith("operations/"), by the first literal
abbrev pub under_operations : List String → Bool
under_operations [] = false
under_operations (s ∷ rest) = s == "operations"

unfoldable pub facade_scope :
    (String → Option Bool) → FacadeRoute → List (String × String) → Result String
facade_scope parse_bool r query =
    if r.template == "reflect"
    then ok "memory.reflect"
    else if r.template == "memories/dry-run-extract"
    then ok "memory.retain"
    else if (r.resource == "") || member r.resource bank_manage_resources
    then ok "bank.admin"
    else if r.resource == "config"
    then ok (if r.read then "bank.config.read" else "bank.config.write")
    else if member r.resource bank_level_read_resources
    then ok "bank.config.read"
    else if r.read && (r.template == "operations/{operation_id}")
    then payload_scope (any_payload parse_bool query)
    else if under_operations (literals r.segments)
    then ok (if r.read then "bank.config.read" else "bank.admin")
    else ok (if r.read then "memory.recall" else "memory.retain")
