-- ===== src/Examples/Session.antt =====
-- A session with a backend at concrete inputs. Schemas, content and arguments are texts, and JSON
-- is a text between quotes.
use mcp_reverse_proxy.Prelude.{
  ◌≡◌, refl, ◌↔◌, true, false, none, some, List, [], ◌∷◌, ◌++◌, Result, ok, err, nat_eq, list_eq,
  Bytes, codes, is_empty,
}
use mcp_reverse_proxy.Prelude.Int.{pos, negsuc}
use mcp_reverse_proxy.Config.Types.{era_modern}
use mcp_reverse_proxy.Backend.Normalize.{wire, session_gone, int_eq, normalize_result_type}
use mcp_reverse_proxy.Backend.Types.{ToolList}
use mcp_reverse_proxy.Backend.Session.{
  SdkList, SdkTool, ClientSession, Encoder, SdkConnection, connection, list_tools, list_cache,
  read_resource,
}
use mcp_reverse_proxy.Backend.Session.Conforming.{Conforms, connection-Conforms}
use mcp_reverse_proxy.Backend.Session.Listed.{Describe, list_tools_iff}
use mcp_reverse_proxy.Backend.Interpose.{new_conn, request, method_discover}
use mcp_reverse_proxy.Backend.Interpose.Traces.{Event, client_writes, timer_fires}
use mcp_reverse_proxy.Backend.Interpose.Probe.{after}
use mcp_reverse_proxy.Backend.Connect.{Handshake, Settles, connect, connect-Settles}

abbrev quoted : Bytes → Result Bytes Bytes
quoted s = ok (codes "'" ++ s ++ codes "'")

abbrev joined : List Bytes → Result Bytes Bytes
joined [] = quoted []
joined (s ∷ ss) = quoted s

abbrev quoting : Encoder Bytes Bytes Bytes Bytes Bytes Bytes
quoting = record {
  schema = quoted;
  content = joined;
  arguments = joined;
  messages = joined;
  contents = joined;
}

-- A legacy backend: no result types, no hints, and the retired code for a missing resource.
abbrev legacy_tools : SdkList (SdkTool Bytes)
legacy_tools = record {
  entries =
      record { name = codes "log"; title = []; description = []; input_schema = some (codes "s") }
      ∷ record { name = codes "diff"; title = []; description = []; input_schema = none }
      ∷ [];
  result_type = [];
  ttl_ms = pos 0;
  cache_scope = codes "public";
}

abbrev legacy : ClientSession Bytes Bytes Bytes Bytes Bytes Bytes
legacy = record {
  list_tools = ok legacy_tools;
  call_tool = λ name arguments. ok (record { content = arguments ∷ []; is_error = false });
  list_prompts = err (session_gone (codes "EOF"));
  get_prompt = λ name arguments. err (session_gone (codes "EOF"));
  list_resources = err (session_gone (codes "EOF"));
  list_resource_templates = err (session_gone (codes "EOF"));
  read_resource = λ uri. err (wire (negsuc 32001) (codes "no such resource"));
}

abbrev opened : SdkConnection Bytes Bytes Bytes Bytes Bytes Bytes
opened = record {
  server_id = codes "git";
  era = codes "legacy";
  revision = codes "2025-11-25";
  session = some legacy;
}

connection-Conforms_example : Conforms (codes "git") (connection quoting (negsuc 32601) opened)
unfolding int_eq
connection-Conforms_example = connection-Conforms (negsuc 32601) refl quoting opened

abbrev listed : ToolList
listed = record {
  tools =
      record { name = codes "log"; title = []; description = []; input_schema = codes "'s'" }
      ∷ record { name = codes "diff"; title = []; description = []; input_schema = [] }
      ∷ [];
  result_type = codes "complete";
  cache = record { ttl_ms = pos 60000; cache_scope = codes "private" };
}

listed_test : list_tools quoting (negsuc 32601) opened ≡ ok listed
unfolding list_tools mcp_reverse_proxy.Backend.Session.ask
    mcp_reverse_proxy.Backend.Session.normalized mcp_reverse_proxy.Backend.Session.tools_of
    mcp_reverse_proxy.Backend.Session.tool_of mcp_reverse_proxy.Backend.Session.schema_bytes
    mcp_reverse_proxy.Backend.Session.encoded list_cache normalize_result_type
    mcp_reverse_proxy.Backend.Normalize.normalize_cache is_empty
listed_test = refl

list_tools_iff_example : (list_tools quoting (negsuc 32601) opened ≡ ok listed) ↔ (
    (s : ClientSession Bytes Bytes Bytes Bytes Bytes Bytes) × (res : SdkList (SdkTool Bytes))
    × (opened.session ≡ some s)
    × (s.list_tools ≡ ok res)
    × Describe quoting res.entries listed.tools
    × (listed.result_type ≡ normalize_result_type res.result_type)
    × (listed.cache ≡ list_cache res))
list_tools_iff_example = list_tools_iff quoting (negsuc 32601) opened listed

-- A backend pinned to the modern era is silent until the probe's deadline.
abbrev silence : List (Event Bytes)
silence = client_writes (request (codes "1") method_discover) ∷ timer_fires 1 ∷ []

abbrev handshake_failed : Result Bytes (Handshake Bytes Bytes Bytes Bytes Bytes Bytes)
handshake_failed = err (codes "connection closed")

connect-Settles_example : Settles era_modern (
    connect
      (codes "git")
      (some (after (λ id. true) silence (new_conn era_modern)))
      handshake_failed)
connect-Settles_example =
    connect-Settles (λ id. true) (codes "git") era_modern silence handshake_failed
