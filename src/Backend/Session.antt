-- ===== src/Backend/Session.antt =====
-- internal/backend/sdk.go: a session with one backend, and what each of its requests comes to. The
-- protocol SDK's client session and the JSON encoder are parameters; of the SDK's results the model
-- keeps the fields that the code reads.
pub mod Conforming
pub mod Listed
use mcp_reverse_proxy.Prelude.{
  Bool, Option, none, some, List, [], ◌∷◌, map, Result, ok, err, ◌>>=◌, Bytes,
}
use mcp_reverse_proxy.Prelude.Int.{ℤ}
use mcp_reverse_proxy.Prelude.Maps.{Map}
use mcp_reverse_proxy.Backend.Normalize.{
  CallError, BackendError, not_connected, plain, Cache, normalize_cache, normalize_result_type,
  normalize_error, result_type_complete,
}
use mcp_reverse_proxy.Backend.Types.{
  Source, Tool, ToolList, ToolResult, Prompt, PromptList, PromptResult, Resource, ResourceList,
  ResourceTemplate, ResourceTemplateList, ResourceContents,
}

-- What the SDK's listings have in common.
pub record SdkList (X : Type 0) : Type 0 where
  pub entries : List X
  pub result_type : Bytes
  pub ttl_ms : ℤ
  pub cache_scope : Bytes

-- Over the SDK's schemas; a nil schema is `none`.
pub record SdkTool (S : Type 0) : Type 0 where
  pub name : Bytes
  pub title : Bytes
  pub description : Bytes
  pub input_schema : Option S

pub record SdkPrompt (A : Type 0) : Type 0 where
  pub name : Bytes
  pub title : Bytes
  pub description : Bytes
  pub arguments : List A

pub record SdkResource : Type 0 where
  pub uri : Bytes
  pub name : Bytes
  pub title : Bytes
  pub description : Bytes
  pub mime_type : Bytes

pub record SdkTemplate : Type 0 where
  pub uri_template : Bytes
  pub name : Bytes
  pub title : Bytes
  pub description : Bytes
  pub mime_type : Bytes

pub record SdkCall (C : Type 0) : Type 0 where
  pub content : List C
  pub is_error : Bool

pub record SdkPromptResult (M : Type 0) : Type 0 where
  pub description : Bytes
  pub messages : List M

pub record SdkContents (R : Type 0) : Type 0 where
  pub contents : List R
  pub ttl_ms : ℤ
  pub cache_scope : Bytes

-- `mcp.ClientSession`: how it answers each request, over the SDK's types of schemas, content,
-- arguments, messages and resource contents.
pub record ClientSession (S C A M R E : Type 0) : Type 0 where
  pub list_tools : Result (CallError E) (SdkList (SdkTool S))
  pub call_tool : Bytes → Bytes → Result (CallError E) (SdkCall C)
  pub list_prompts : Result (CallError E) (SdkList (SdkPrompt A))
  pub get_prompt : Bytes → Map Bytes Bytes → Result (CallError E) (SdkPromptResult M)
  pub list_resources : Result (CallError E) (SdkList SdkResource)
  pub list_resource_templates : Result (CallError E) (SdkList SdkTemplate)
  pub read_resource : Bytes → Result (CallError E) (SdkContents R)

-- `json.Marshal` at each of the types.
pub record Encoder (S C A M R E : Type 0) : Type 0 where
  pub schema : S → Result E Bytes
  pub content : List C → Result E Bytes
  pub arguments : List A → Result E Bytes
  pub messages : List M → Result E Bytes
  pub contents : List R → Result E Bytes

-- `sdkConnection`.
pub record SdkConnection (S C A M R E : Type 0) : Type 0 where
  pub server_id : Bytes
  pub era : Bytes
  pub revision : Bytes
  pub session : Option (ClientSession S C A M R E)

-- `normalizeCache(Cache{...})` of a listing.
unfoldable pub list_cache : {X : Type 0} → SdkList X → Cache
list_cache l = normalize_cache (record { ttl_ms = l.ttl_ms; cache_scope = l.cache_scope })

unfoldable pub encoded : {E : Type 0} → Result E Bytes → Result (BackendError E) Bytes
encoded (ok raw) = ok raw
encoded (err e) = err (plain e)

-- `jsonrpc.CodeInvalidParams` is a parameter.
module _ {E : Type 0} (invalid : ℤ) where
  unfoldable pub normalized :
      {X : Type 0} → Bytes → Result (CallError E) X → Result (BackendError E) X
  normalized id (ok x) = ok x
  normalized id (err e) = err (normalize_error invalid id e)

  -- The start that the requests share: a session, and its answer with the error normalised.
  unfoldable pub ask :
      {T X : Type 0} → Bytes → (T → Result (CallError E) X) → Option T → Result (BackendError E) X
  ask id request none = err not_connected
  ask id request (some session) = normalized id (request session)

module _ {S C A M R E : Type 0} (encoder : Encoder S C A M R E) where
  unfoldable pub schema_bytes : Option S → Result (BackendError E) Bytes
  schema_bytes none = ok []
  schema_bytes (some schema) = encoded (encoder.schema schema)

  unfoldable pub tool_of : SdkTool S → Result (BackendError E) Tool
  tool_of t = do
    schema ← schema_bytes t.input_schema
    ok (record {
      name = t.name;
      title = t.title;
      description = t.description;
      input_schema = schema;
    })

  -- The loop of `ListTools`.
  unfoldable pub tools_of : List (SdkTool S) → Result (BackendError E) (List Tool)
  tools_of [] = ok []
  tools_of (t ∷ ts) = do tool ← tool_of t; tools ← tools_of ts; ok (tool ∷ tools)

  unfoldable pub argument_bytes : List A → Result (BackendError E) Bytes
  argument_bytes [] = ok []
  argument_bytes (a ∷ arguments) = encoded (encoder.arguments (a ∷ arguments))

  unfoldable pub prompt_of : SdkPrompt A → Result (BackendError E) Prompt
  prompt_of p = do
    arguments ← argument_bytes p.arguments
    ok (record {
      name = p.name;
      title = p.title;
      description = p.description;
      arguments = arguments;
    })

  -- The loop of `ListPrompts`.
  unfoldable pub prompts_of : List (SdkPrompt A) → Result (BackendError E) (List Prompt)
  prompts_of [] = ok []
  prompts_of (p ∷ ps) = do prompt ← prompt_of p; prompts ← prompts_of ps; ok (prompt ∷ prompts)

  -- The body of the loop of `ListResources`.
  unfoldable pub resource_of : SdkResource → Resource
  resource_of r = record {
    uri = r.uri;
    name = r.name;
    title = r.title;
    description = r.description;
    mime_type = r.mime_type;
  }

  -- The body of the loop of `ListResourceTemplates`.
  unfoldable pub template_of : SdkTemplate → ResourceTemplate
  template_of t = record {
    uri_template = t.uri_template;
    name = t.name;
    title = t.title;
    description = t.description;
    mime_type = t.mime_type;
  }

  module _ (invalid : ℤ) (c : SdkConnection S C A M R E) where
    unfoldable pub list_tools : Result (BackendError E) ToolList
    list_tools = do
      res ← ask invalid c.server_id (λ s. s.list_tools) c.session
      tools ← tools_of res.entries
      ok (record {
        tools = tools;
        result_type = normalize_result_type res.result_type;
        cache = list_cache res;
      })

    unfoldable pub call_tool : Bytes → Bytes → Result (BackendError E) ToolResult
    call_tool name arguments = do
      res ← ask invalid c.server_id (λ s. s.call_tool name arguments) c.session
      content ← encoded (encoder.content res.content)
      ok (record { content = content; is_error = res.is_error; result_type = result_type_complete })

    unfoldable pub list_prompts : Result (BackendError E) PromptList
    list_prompts = do
      res ← ask invalid c.server_id (λ s. s.list_prompts) c.session
      prompts ← prompts_of res.entries
      ok (record {
        prompts = prompts;
        result_type = normalize_result_type res.result_type;
        cache = list_cache res;
      })

    unfoldable pub get_prompt : Bytes → Map Bytes Bytes → Result (BackendError E) PromptResult
    get_prompt name arguments = do
      res ← ask invalid c.server_id (λ s. s.get_prompt name arguments) c.session
      messages ← encoded (encoder.messages res.messages)
      ok (record {
        description = res.description;
        messages = messages;
        result_type = result_type_complete;
      })

    unfoldable pub list_resources : Result (BackendError E) ResourceList
    list_resources = do
      res ← ask invalid c.server_id (λ s. s.list_resources) c.session
      ok (record {
        resources = map resource_of res.entries;
        result_type = normalize_result_type res.result_type;
        cache = list_cache res;
      })

    unfoldable pub list_resource_templates : Result (BackendError E) ResourceTemplateList
    list_resource_templates = do
      res ← ask invalid c.server_id (λ s. s.list_resource_templates) c.session
      ok (record {
        templates = map template_of res.entries;
        result_type = normalize_result_type res.result_type;
        cache = list_cache res;
      })

    unfoldable pub read_resource : Bytes → Result (BackendError E) ResourceContents
    read_resource uri = do
      res ← ask invalid c.server_id (λ s. s.read_resource uri) c.session
      contents ← encoded (encoder.contents res.contents)
      ok (record {
        contents = contents;
        result_type = result_type_complete;
        cache = normalize_cache (record { ttl_ms = res.ttl_ms; cache_scope = res.cache_scope });
      })

    -- The requests of the `Connection`.
    unfoldable pub connection : Source (BackendError E)
    connection = record {
      list_tools = list_tools;
      call_tool = call_tool;
      list_prompts = list_prompts;
      get_prompt = get_prompt;
      list_resources = list_resources;
      list_resource_templates = list_resource_templates;
      read_resource = read_resource;
    }
