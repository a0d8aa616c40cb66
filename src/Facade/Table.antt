-- ===== src/Facade/Table.antt =====
-- The table of routes (`FACADE_ROUTES` of memory_router/facade_routes.py), in the order in which
-- they are tried.
use hindsight_memory_router.Common.{String, true, false, Option, some, List, [], ◌∷◌, ◌++◌}
use hindsight_memory_router.Facade.{
  literal, parameter, no_body, optional, required, ResponseMode, RequestScanMode, FacadeRoute,
  defaults, route, first_match, split_path,
}

-- the OpenClaw plugin contract and the management of a bank
abbrev pub bank_routes : List FacadeRoute
bank_routes =
    route "PUT" ([]) false required (record defaults { strict = true; body_label = some "bank" })
    ∷ route "PATCH" (literal "config" ∷ []) false required
        (record defaults { strict = true; body_label = some "bank config" })
    ∷ route "GET" (literal "mental-models" ∷ []) true no_body (record defaults {
      strict = true;
      query =
          "tags" ∷ "tags_match" ∷ "detail" ∷ "limit" ∷ "offset" ∷ "exclude_knowledge_pages" ∷ [];
    })
    ∷ route "POST" (literal "mental-models" ∷ []) false required
        (record defaults { strict = true; body_label = some "mental-model" })
    ∷ route "GET" (literal "mental-models" ∷ parameter "mental_model_id" ∷ []) true no_body
        (record defaults { strict = true; query = "detail" ∷ [] })
    ∷ route "PATCH" (literal "mental-models" ∷ parameter "mental_model_id" ∷ []) false required
        (record defaults { strict = true; body_label = some "mental-model" })
    ∷ route "DELETE" (literal "mental-models" ∷ parameter "mental_model_id" ∷ []) false no_body
        (record defaults { strict = true })
    ∷ route "POST" (literal "reflect" ∷ []) true required
        (record defaults { strict = true; body_label = some "reflect" })
    ∷ route "PATCH" ([]) false required (record defaults { body_label = some "bank" })
    ∷ route "DELETE" ([]) false no_body defaults
    ∷ route "GET" (literal "config" ∷ []) true no_body defaults
    ∷ route "DELETE" (literal "config" ∷ []) false no_body defaults
    ∷ route "GET" (literal "stats" ∷ []) true no_body (record defaults { query = "refresh" ∷ [] })
    ∷ route "GET" (literal "stats" ∷ literal "memories-timeseries" ∷ []) true no_body
        (record defaults { query = "period" ∷ "time_field" ∷ [] })
    ∷ route "GET" (literal "tags" ∷ []) true no_body
        (record defaults { query = "q" ∷ "source" ∷ "limit" ∷ "offset" ∷ [] })
    ∷ route "GET" (literal "graph" ∷ []) true no_body (record defaults {
      query = "type" ∷ "limit" ∷ "q" ∷ "tags" ∷ "tags_match" ∷ "document_id" ∷ "chunk_id" ∷ [];
    })
    ∷ route "POST" (literal "consolidate" ∷ []) false optional defaults
    ∷ route "POST" (literal "consolidation" ∷ literal "recover" ∷ []) false no_body defaults
    ∷ []

-- memories, documents and entities
abbrev pub memory_routes : List FacadeRoute
memory_routes =
    route "GET" (literal "memories" ∷ literal "list" ∷ []) true no_body (record defaults {
      query =
          "type" ∷ "q" ∷ "consolidation_state" ∷ "state" ∷ "document_id" ∷ "entity_id" ∷ "tags"
          ∷ "tags_match" ∷ "time_field" ∷ "start_date" ∷ "end_date" ∷ "limit" ∷ "offset" ∷ [];
    })
    ∷ route "DELETE" (literal "memories" ∷ []) false no_body
        (record defaults { query = "type" ∷ [] })
    ∷ route "POST" (literal "memories" ∷ literal "dry-run-extract" ∷ []) true required
        (record defaults { request_scan = some RequestScanMode.retain })
    ∷ route "GET" (literal "memories" ∷ parameter "memory_id" ∷ []) true no_body defaults
    ∷ route "PATCH" (literal "memories" ∷ parameter "memory_id" ∷ []) false required defaults
    ∷ route "GET" (literal "memories" ∷ parameter "memory_id" ∷ literal "history" ∷ []) true no_body
        (record defaults { response = ResponseMode.array })
    ∷ route "DELETE" (literal "memories" ∷ parameter "memory_id" ∷ literal "observations" ∷ [])
        false no_body defaults
    ∷ route "GET" (literal "documents" ∷ []) true no_body (record defaults {
      query =
          "q" ∷ "tags" ∷ "tags_match" ∷ "time_field" ∷ "start_date" ∷ "end_date" ∷ "limit"
          ∷ "offset" ∷ [];
    })
    ∷ route "GET" (literal "documents" ∷ parameter "document_id" ∷ []) true no_body defaults
    ∷ route "PATCH" (literal "documents" ∷ parameter "document_id" ∷ []) false required defaults
    ∷ route "DELETE" (literal "documents" ∷ parameter "document_id" ∷ []) false no_body defaults
    ∷ route "GET" (literal "documents" ∷ parameter "document_id" ∷ literal "chunks" ∷ []) true
        no_body (record defaults { query = "limit" ∷ "offset" ∷ [] })
    ∷ route "POST" (literal "documents" ∷ parameter "document_id" ∷ literal "reprocess" ∷ []) false
        no_body defaults
    ∷ route "GET" (literal "entities" ∷ []) true no_body
        (record defaults { query = "limit" ∷ "offset" ∷ "tags" ∷ "tags_match" ∷ "tag_groups" ∷ [] })
    ∷ route "GET" (literal "entities" ∷ literal "graph" ∷ []) true no_body (record defaults {
      query = "limit" ∷ "min_count" ∷ "tags" ∷ "tags_match" ∷ "tag_groups" ∷ [];
    })
    ∷ route "GET" (literal "entities" ∷ parameter "entity_id" ∷ []) true no_body
        (record defaults { query = "tags" ∷ "tags_match" ∷ "tag_groups" ∷ [] })
    ∷ []

-- mental models, directives, observations and background operations
abbrev pub operation_routes : List FacadeRoute
operation_routes =
    route "POST" (literal "mental-models" ∷ parameter "mental_model_id" ∷ literal "refresh" ∷ [])
      false optional (record defaults { allow_empty_response = true })
    ∷ route "POST" (literal "mental-models" ∷ parameter "mental_model_id" ∷ literal "clear" ∷ [])
        false no_body defaults
    ∷ route "POST"
        (literal "mental-models" ∷ parameter "mental_model_id" ∷ literal "dry-run-refresh" ∷ [])
        true no_body defaults
    ∷ route "GET" (literal "mental-models" ∷ parameter "mental_model_id" ∷ literal "history" ∷ [])
        true no_body (record defaults { response = ResponseMode.array })
    ∷ route "GET" (literal "directives" ∷ []) true no_body (record defaults {
      query = "tags" ∷ "tags_match" ∷ "active_only" ∷ "limit" ∷ "offset" ∷ [];
    })
    ∷ route "POST" (literal "directives" ∷ []) false required defaults
    ∷ route "GET" (literal "directives" ∷ parameter "directive_id" ∷ []) true no_body defaults
    ∷ route "PATCH" (literal "directives" ∷ parameter "directive_id" ∷ []) false required defaults
    ∷ route "DELETE" (literal "directives" ∷ parameter "directive_id" ∷ []) false no_body defaults
    ∷ route "GET" (literal "observations" ∷ literal "scopes" ∷ []) true no_body
        (record defaults { query = "limit" ∷ "offset" ∷ [] })
    ∷ route "DELETE" (literal "observations" ∷ []) false no_body defaults
    ∷ route "GET" (literal "operations" ∷ []) true no_body (record defaults {
      query = "status" ∷ "type" ∷ "limit" ∷ "offset" ∷ "exclude_parents" ∷ [];
    })
    ∷ route "GET" (literal "operations" ∷ parameter "operation_id" ∷ []) true no_body
        (record defaults { query = "include_payload" ∷ [] })
    ∷ route "DELETE" (literal "operations" ∷ parameter "operation_id" ∷ []) false no_body defaults
    ∷ route "DELETE" (literal "operations" ∷ parameter "operation_id" ∷ literal "delete" ∷ []) false
        no_body defaults
    ∷ route "POST" (literal "operations" ∷ parameter "operation_id" ∷ literal "retry" ∷ []) false
        no_body defaults
    ∷ []

-- the knowledge base and what is observed of a bank
abbrev pub knowledge_routes : List FacadeRoute
knowledge_routes =
    route "GET" (literal "knowledge-base" ∷ literal "search" ∷ []) true no_body (record defaults {
      query = "q" ∷ "limit" ∷ "tags" ∷ "tags_match" ∷ "tag_groups" ∷ [];
      required_query = "q" ∷ [];
    })
    ∷ route "GET" (literal "knowledge-base" ∷ literal "tree" ∷ []) true no_body
        (record defaults { query = "tags" ∷ "tags_match" ∷ "tag_groups" ∷ [] })
    ∷ route "POST" (literal "knowledge-base" ∷ literal "folders" ∷ []) false required
        (record defaults { success_status = 201 })
    ∷ route "POST" (literal "knowledge-base" ∷ literal "pages" ∷ []) false required
        (record defaults { success_status = 201 })
    ∷ route "GET" (literal "knowledge-base" ∷ literal "pages" ∷ parameter "page_id" ∷ []) true
        no_body defaults
    ∷ route "PATCH" (literal "knowledge-base" ∷ literal "nodes" ∷ parameter "node_id" ∷ []) false
        required defaults
    ∷ route "DELETE" (literal "knowledge-base" ∷ literal "nodes" ∷ parameter "node_id" ∷ []) false
        no_body defaults
    ∷ route "GET" (literal "audit-logs" ∷ []) true no_body (record defaults {
      query = "action" ∷ "transport" ∷ "start_date" ∷ "end_date" ∷ "limit" ∷ "offset" ∷ [];
    })
    ∷ route "GET" (literal "audit-logs" ∷ literal "stats" ∷ []) true no_body
        (record defaults { query = "action" ∷ "period" ∷ [] })
    ∷ route "GET" (literal "llm-requests" ∷ []) true no_body (record defaults {
      query =
          "status" ∷ "operation" ∷ "scope" ∷ "call_type" ∷ "provider" ∷ "trace_id" ∷ "document_id"
          ∷ "memory_id" ∷ "group" ∷ "start_date" ∷ "end_date" ∷ "limit" ∷ "offset" ∷ [];
    })
    ∷ route "GET" (literal "llm-requests" ∷ literal "stats" ∷ []) true no_body
        (record defaults { query = "operation" ∷ "call_type" ∷ "period" ∷ [] })
    ∷ []

abbrev pub facade_routes : List FacadeRoute
facade_routes = bank_routes ++ (memory_routes ++ (operation_routes ++ knowledge_routes))

unfoldable pub match_facade_route : String → String → Option (FacadeRoute × List (String × String))
match_facade_route method pathname = first_match facade_routes method (split_path pathname)
