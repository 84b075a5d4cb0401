-- ===== src/Backend/Types.antt =====
-- internal/backend/backend.go: what backends offer and answer. JSON is carried as its bytes.
use mcp_reverse_proxy.Prelude.{Bool, List, Result, nat_eq, list_eq, Bytes}
use mcp_reverse_proxy.Prelude.Maps.{Map}
use mcp_reverse_proxy.Backend.Normalize.{Cache}

pub record Tool : Type 0 where
  pub name : Bytes
  pub title : Bytes
  pub description : Bytes
  pub input_schema : Bytes

pub record ToolList : Type 0 where
  pub tools : List Tool
  pub result_type : Bytes
  pub cache : Cache

pub record ToolResult : Type 0 where
  pub content : Bytes
  pub is_error : Bool
  pub result_type : Bytes

pub record Prompt : Type 0 where
  pub name : Bytes
  pub title : Bytes
  pub description : Bytes
  pub arguments : Bytes

pub record PromptList : Type 0 where
  pub prompts : List Prompt
  pub result_type : Bytes
  pub cache : Cache

pub record PromptResult : Type 0 where
  pub description : Bytes
  pub messages : Bytes
  pub result_type : Bytes

pub record Resource : Type 0 where
  pub uri : Bytes
  pub name : Bytes
  pub title : Bytes
  pub description : Bytes
  pub mime_type : Bytes

pub record ResourceList : Type 0 where
  pub resources : List Resource
  pub result_type : Bytes
  pub cache : Cache

pub record ResourceTemplate : Type 0 where
  pub uri_template : Bytes
  pub name : Bytes
  pub title : Bytes
  pub description : Bytes
  pub mime_type : Bytes

pub record ResourceTemplateList : Type 0 where
  pub templates : List ResourceTemplate
  pub result_type : Bytes
  pub cache : Cache

pub record ResourceContents : Type 0 where
  pub contents : Bytes
  pub result_type : Bytes
  pub cache : Cache

-- The requests of `Connection`, which `aggregate.Source` has too: what each is answered with.
pub record Source (E : Type 0) : Type 0 where
  pub list_tools : Result E ToolList
  pub call_tool : Bytes → Bytes → Result E ToolResult
  pub list_prompts : Result E PromptList
  pub get_prompt : Bytes → Map Bytes Bytes → Result E PromptResult
  pub list_resources : Result E ResourceList
  pub list_resource_templates : Result E ResourceTemplateList
  pub read_resource : Bytes → Result E ResourceContents
