-- ===== src/Frontend/Answers.antt =====
-- internal/frontend/aggregate.go and shape.go: what the endpoint answers, and the shape of every
-- result. JSON is carried as its bytes; the SDK's decoders of it are parameters.
use mcp_reverse_proxy.Prelude.{
  Bool, Option, none, some, List, [], ◌∷◌, map, if◌then◌else◌, Result, ok, err, ◌>>=◌, nat_eq,
  list_eq, Bytes, codes,
}
use mcp_reverse_proxy.Prelude.Int.{ℤ, pos, negsuc, gtb}
use mcp_reverse_proxy.Prelude.Maps.{Map}
use mcp_reverse_proxy.Backend.Normalize.{
  Cache, cache_scope_private, default_ttl_ms, result_type_complete,
}
use mcp_reverse_proxy.Backend.Types.{
  Tool, Prompt, Resource, ResourceTemplate, ToolResult, PromptResult, ResourceContents,
}
use mcp_reverse_proxy.Aggregate.Surface.{Surface}
use mcp_reverse_proxy.Aggregate.Gateway.{
  GatewayError, not_found, bad_uri, unknown_backend, answered, backend_unavailable, panicked,
}
use mcp_reverse_proxy.Frontend.Gate.{supported_versions}
use mcp_reverse_proxy.Frontend.Tenant.{
  TenantError, gateway_error, unauthenticated, unresolved, no_surface,
}

-- -32602.
abbrev pub code_invalid_params : ℤ
code_invalid_params = negsuc 32601

-- What each result has: the completion type, and the caching hints of those that have them.
pub record Hints : Type 0 where
  pub result_type : Bytes
  pub cache : Cache

-- A prompt with its decoded arguments.
pub record ListedPrompt (A : Type 0) : Type 0 where
  pub name : Bytes
  pub title : Bytes
  pub description : Bytes
  pub arguments : List A

-- The results of the SDK, over its argument, content, message and resource content types.
pub data McpResult (A C M R : Type 0) : Type 0 where
  discover_result : List Bytes → Hints → McpResult A C M R
  tools_result : List Tool → Hints → McpResult A C M R
  call_result : List C → Bool → McpResult A C M R
  prompts_result : List (ListedPrompt A) → Hints → McpResult A C M R
  prompt_result : Bytes → List M → McpResult A C M R
  resources_result : List Resource → Hints → McpResult A C M R
  templates_result : List ResourceTemplate → Hints → McpResult A C M R
  contents_result : List R → Hints → McpResult A C M R

-- `cacheable`.
unfoldable pub cacheable : Cache → Cache
cacheable c = record {
  ttl_ms = if gtb c.ttl_ms (pos 0) then c.ttl_ms else default_ttl_ms;
  cache_scope = cache_scope_private;
}

-- Both fields.
unfoldable pub shape_hints : Hints → Hints
shape_hints h = record { result_type = result_type_complete; cache = cacheable h.cache }

-- `shape`: the completion type of a resource's contents is the SDK's.
unfoldable pub shape : {A C M R : Type 0} → McpResult A C M R → McpResult A C M R
shape (discover_result versions h) = discover_result supported_versions (shape_hints h)
shape (tools_result tools h) = tools_result tools (shape_hints h)
shape (call_result content is_error) = call_result content is_error
shape (prompts_result prompts h) = prompts_result prompts (shape_hints h)
shape (prompt_result description messages) = prompt_result description messages
shape (resources_result resources h) = resources_result resources (shape_hints h)
shape (templates_result templates h) = templates_result templates (shape_hints h)
shape (contents_result contents h) =
    contents_result contents (record h { cache = cacheable h.cache })

-- What a client is told: a JSON-RPC error with a code, or the error as it is.
pub data AnswerError (F : Type 0) : Type 0 where
  coded : ℤ → GatewayError F → AnswerError F
  passed_on : TenantError F → AnswerError F
  undecodable : AnswerError F

unfoldable pub dispatch_gateway : {F : Type 0} → GatewayError F → AnswerError F
dispatch_gateway not_found = coded code_invalid_params not_found
dispatch_gateway bad_uri = coded code_invalid_params bad_uri
dispatch_gateway (unknown_backend id) = coded code_invalid_params (unknown_backend id)
dispatch_gateway (answered e) = passed_on (gateway_error (answered e))
dispatch_gateway (backend_unavailable id e) = passed_on (gateway_error (backend_unavailable id e))
dispatch_gateway panicked = passed_on (gateway_error panicked)

-- `dispatchError`.
unfoldable pub dispatch_error : {F : Type 0} → TenantError F → AnswerError F
dispatch_error unauthenticated = passed_on unauthenticated
dispatch_error unresolved = passed_on unresolved
dispatch_error (no_surface e) = passed_on (no_surface e)
dispatch_error (gateway_error e) = dispatch_gateway e

-- `Backend` of frontend.go, which a tenant is.
pub record Surfaces (F : Type 0) : Type 0 where
  pub surface : Result (TenantError F) Surface
  pub call_tool : Bytes → Bytes → Result (TenantError F) ToolResult
  pub get_prompt : Bytes → Map Bytes Bytes → Result (TenantError F) PromptResult
  pub read_resource : Bytes → Result (TenantError F) ResourceContents

-- The requests that `serve` answers; one without parameters has empty ones.
pub data McpRequest : Type 0 where
  list_tools : McpRequest
  call_tool : Bytes → Bytes → McpRequest
  list_prompts : McpRequest
  get_prompt : Bytes → Map Bytes Bytes → McpRequest
  list_resources : McpRequest
  list_templates : McpRequest
  read_resource : Bytes → McpRequest

-- Hints with a lifetime alone.
unfoldable pub lasting : ℤ → Hints
lasting ttl = record { result_type = []; cache = record { ttl_ms = ttl; cache_scope = [] } }

-- Decoding with no bytes leaves the field empty.
unfoldable pub decoded : {X : Type 0} → (Bytes → Option (List X)) → Bytes → Option (List X)
decoded decode [] = some []
decoded decode (b ∷ raw) = decode (b ∷ raw)

unfoldable pub or_undecodable : {F X : Type 0} → Option X → Result (AnswerError F) X
or_undecodable none = err undecodable
or_undecodable (some x) = ok x

unfoldable pub surfaced :
    {F : Type 0} → Result (TenantError F) Surface → Result (AnswerError F) Surface
surfaced (ok s) = ok s
surfaced (err e) = err (passed_on e)

unfoldable pub dispatched : {F X : Type 0} → Result (TenantError F) X → Result (AnswerError F) X
dispatched (ok x) = ok x
dispatched (err e) = err (dispatch_error e)

-- `schemaOf`: an empty object schema for a tool that has none.
unfoldable pub schema_of : Bytes → Bytes
schema_of [] = codes "{\"type\":\"object\"}"
schema_of (b ∷ raw) = b ∷ raw

unfoldable pub with_schema : Tool → Tool
with_schema t = record t { input_schema = schema_of t.input_schema }

-- The decoders of the four kinds of content.
module _ {F A C M R : Type 0} (schema_of : Bytes → Bytes)
    (decode_arguments : Bytes → Option (List A)) (decode_content : Bytes → Option (List C))
    (decode_messages : Bytes → Option (List M)) (decode_contents : Bytes → Option (List R)) where
  unfoldable pub listed_prompt : Prompt → Result (AnswerError F) (ListedPrompt A)
  listed_prompt p = do
    arguments ← or_undecodable (decoded decode_arguments p.arguments)
    ok (record {
      name = p.name;
      title = p.title;
      description = p.description;
      arguments = arguments;
    })

  -- The loop of `listPrompts`.
  unfoldable pub prompts_of : List Prompt → Result (AnswerError F) (List (ListedPrompt A))
  prompts_of [] = ok []
  prompts_of (p ∷ ps) = do q ← listed_prompt p; qs ← prompts_of ps; ok (q ∷ qs)

  -- `serve`, with `listTools` and the others.
  unfoldable pub serve : Surfaces F → McpRequest → Result (AnswerError F) (McpResult A C M R)
  serve b list_tools = do
    s ← surfaced b.surface
    ok (tools_result (map with_schema s.tools) (lasting s.ttl_ms))
  serve b (call_tool name arguments) = do
    r ← dispatched (b.call_tool name arguments)
    content ← or_undecodable (decoded decode_content r.content)
    ok (call_result content r.is_error)
  serve b list_prompts = do
    s ← surfaced b.surface
    prompts ← prompts_of s.prompts
    ok (prompts_result prompts (lasting s.ttl_ms))
  serve b (get_prompt name arguments) = do
    r ← dispatched (b.get_prompt name arguments)
    messages ← or_undecodable (decoded decode_messages r.messages)
    ok (prompt_result r.description messages)
  serve b list_resources = do
    s ← surfaced b.surface
    ok (resources_result s.resources (lasting s.ttl_ms))
  serve b list_templates = do
    s ← surfaced b.surface
    ok (templates_result s.templates (lasting s.ttl_ms))
  serve b (read_resource uri) = do
    r ← dispatched (b.read_resource uri)
    contents ← or_undecodable (decoded decode_contents r.contents)
    ok (contents_result contents (lasting r.cache.ttl_ms))

  -- `shapeResults` around `serve`.
  unfoldable pub answer : Surfaces F → McpRequest → Result (AnswerError F) (McpResult A C M R)
  answer b r = serve b r >>= (λ res. ok (shape res))
