-- ===== src/Pool/Lifecycle/Requests.antt =====
-- internal/pool/backend.go: the requests that a backend serves, each over one session.
use mcp_reverse_proxy.Prelude.{ℕ, Bool, true, false, Result, ok, err, nat_eq, list_eq, Bytes}
use mcp_reverse_proxy.Prelude.Maps.{Map}
use mcp_reverse_proxy.Backend.Normalize.{
  BackendError, not_connected, protocol, connection_lost, plain,
}
use mcp_reverse_proxy.Backend.Types.{
  Source, ToolList, ToolResult, PromptList, PromptResult, ResourceList, ResourceTemplateList,
  ResourceContents,
}
use mcp_reverse_proxy.Pool.Lifecycle.{State, Start, Session, SessionError, session, classify}

-- Why a request has no answer; `retryable` is `ErrRetryable` joined to the cause.
pub data Failure (E : Type 0) : Type 0 where
  no_session : SessionError → Failure E
  retryable : BackendError E → Failure E
  refused : BackendError E → Failure E

-- `errors.Is(err, backend.ErrConnectionLost)`.
unfoldable pub is_lost : {E : Type 0} → BackendError E → Bool
is_lost not_connected = false
is_lost (protocol id code message) = false
is_lost (connection_lost e) = true
is_lost (plain e) = false

-- Other requests and exits come between the session and the classification of its failure:
-- `meanwhile` is what they do. `sources` are the sessions, by number.
module _ {E : Type 0} (sources : ℕ → Source (BackendError E)) (a : Start)
    (meanwhile : State → State) where
  module _ {R : Type 0} (ask : Source (BackendError E) → Result (BackendError E) R) where
    unfoldable pub failed : BackendError E → State × Bool → State × Result (Failure E) R
    failed e (s, true) = (s, err (retryable e))
    failed e (s, false) = (s, err (refused e))

    unfoldable pub answered : ℕ → State → Result (BackendError E) R → State × Result (Failure E) R
    unfolding failed
    answered p s (ok r) = (s, ok r)
    answered p s (err e) = failed e (classify p (is_lost e) s)

    unfoldable pub over : Session → State × Result (Failure E) R
    unfolding answered failed
    over (s, err e) = (s, err (no_session e))
    over (s, ok (c, p)) = answered p (meanwhile s) (ask (sources c))

    -- The body that the request methods share.
    unfoldable pub request : State → State × Result (Failure E) R
    unfolding over answered failed
    request s = over (session a s)

  -- `ListTools`.
  unfoldable pub list_tools : State → State × Result (Failure E) ToolList
  list_tools = request (λ c. c.list_tools)

  -- `CallTool`.
  unfoldable pub call_tool : Bytes → Bytes → State → State × Result (Failure E) ToolResult
  call_tool name arguments = request (λ c. c.call_tool name arguments)

  -- `ListPrompts`.
  unfoldable pub list_prompts : State → State × Result (Failure E) PromptList
  list_prompts = request (λ c. c.list_prompts)

  -- `GetPrompt`.
  unfoldable pub get_prompt :
      Bytes → Map Bytes Bytes → State → State × Result (Failure E) PromptResult
  get_prompt name arguments = request (λ c. c.get_prompt name arguments)

  -- `ListResources`.
  unfoldable pub list_resources : State → State × Result (Failure E) ResourceList
  list_resources = request (λ c. c.list_resources)

  -- `ListResourceTemplates`.
  unfoldable pub list_resource_templates : State → State × Result (Failure E) ResourceTemplateList
  list_resource_templates = request (λ c. c.list_resource_templates)

  -- `ReadResource`.
  unfoldable pub read_resource : Bytes → State → State × Result (Failure E) ResourceContents
  read_resource uri = request (λ c. c.read_resource uri)
