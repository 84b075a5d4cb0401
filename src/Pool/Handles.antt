-- ===== src/Pool/Handles.antt =====
-- internal/pool/pool.go: `For`, `Handle` and its requests, and `acquire`: the pool and the
-- backends of its entries together.
pub mod Shared
use mcp_reverse_proxy.Prelude.{
  ℕ, Option, none, some, if◌then◌else◌, Result, ok, err, ◌==◌, nat_eq, list_eq, Bytes,
}
use mcp_reverse_proxy.Prelude.Maps.{Map}
use mcp_reverse_proxy.Auth.Claims.{Subject, subject_key}
use mcp_reverse_proxy.Config.Types.{Server}
use mcp_reverse_proxy.Config.Fingerprint.{fingerprint}
use mcp_reverse_proxy.Backend.Normalize.{BackendError}
use mcp_reverse_proxy.Backend.Types.{
  Source, ToolList, ToolResult, PromptList, PromptResult, ResourceList, ResourceTemplateList,
  ResourceContents,
}
use mcp_reverse_proxy.Pool.Types.{Key, Entry, Pool, PoolError}
use mcp_reverse_proxy.Pool.Ops.{try_acquire}
use mcp_reverse_proxy.Pool.Ops
use mcp_reverse_proxy.Pool.Entries.{find_entry}
use mcp_reverse_proxy.Pool.Lifecycle.{State, Start}
use mcp_reverse_proxy.Pool.Lifecycle
use mcp_reverse_proxy.Pool.Lifecycle.Requests.{Failure}
use mcp_reverse_proxy.Pool.Lifecycle.Requests

-- `Handle`, without the pool that it belongs to.
pub record Handle : Type 0 where
  pub server : Server
  pub key : Key

-- `For`, with the fingerprinter's MAC and key.
unfoldable pub handle_for : (Bytes → Bytes → Bytes) → Bytes → Subject → Server → Handle
handle_for mac secret subject server = record {
  server = server;
  key = record { subject = subject_key subject; fingerprint = fingerprint mac secret server };
}

-- The pool, and the backend of the entry at each address.
pub record World (F : Type 0) : Type 0 where
  pub pool : Pool F
  pub backends : ℕ → State

-- Why a request through a handle has no answer.
pub data HandleError (E : Type 0) : Type 0 where
  refused_by_pool : PoolError → HandleError E
  failed_at_backend : Failure E → HandleError E

unfoldable pub set_backend : ℕ → State → (ℕ → State) → ℕ → State
set_backend r s backends q = if q == r then s else backends q

-- `closeEntry`: the error is for the log.
unfoldable pub close_entry : {F : Type 0} → Option (Entry F) → (ℕ → State) → ℕ → State
close_entry none backends = backends
close_entry (some e) backends = set_backend e.ref (Lifecycle.close (backends e.ref)) backends

unfoldable pub after_acquire :
    {F : Type 0}
    → (ℕ → State)
    → Pool F × Result PoolError (ℕ × Option (Entry F))
    → World F × Result PoolError ℕ
after_acquire backends (p, err e) = (record { pool = p; backends = backends }, err e)
after_acquire backends (p, ok (r, victim)) =
    (record { pool = p; backends = close_entry victim backends }, ok r)

-- `acquire`.
unfoldable pub acquire : {F : Type 0} → Key → Server → ℕ → World F → World F × Result PoolError ℕ
acquire k server now w = after_acquire w.backends (try_acquire k server now w.pool)

-- `sources` are the backends' sessions, by the address of the entry; `a` is how the next start of
-- a process goes; `meanwhile` is what others do to the backend during the request, and `others`
-- what they do to the pool; `now` and `later` are the times of the acquisition and the release.
module _ {F E : Type 0} (sources : ℕ → ℕ → Source (BackendError E)) (a : Start)
    (meanwhile : State → State) (others : World F → World F) (now later : ℕ) where
  module _ {R : Type 0} (ask : ℕ → State → State × Result (Failure E) R) where
    unfoldable pub answered : Result (Failure E) R → Result (HandleError E) R
    answered (ok r) = ok r
    answered (err e) = err (failed_at_backend e)

    unfoldable pub finished :
        ℕ → World F → State × Result (Failure E) R → World F × Result (HandleError E) R
    finished r w (s, answer) =
        let w' = others (record w { backends = set_backend r s w.backends }) in
        (record w' { pool = Ops.release r later w'.pool }, answered answer)

    unfoldable pub served : World F × Result PoolError ℕ → World F × Result (HandleError E) R
    served (w, err e) = (w, err (refused_by_pool e))
    served (w, ok r) = finished r w (ask r (w.backends r))

    -- The body that the methods of `Handle` share: the entry is held during the request.
    unfoldable pub through : Handle → World F → World F × Result (HandleError E) R
    through h w = served (acquire h.key h.server now w)

  -- `Handle.ListTools`.
  unfoldable pub list_tools : Handle → World F → World F × Result (HandleError E) ToolList
  list_tools = through (λ r. Requests.list_tools (sources r) a meanwhile)

  -- `Handle.CallTool`.
  unfoldable pub call_tool :
      Bytes → Bytes → Handle → World F → World F × Result (HandleError E) ToolResult
  call_tool name arguments =
      through (λ r. Requests.call_tool (sources r) a meanwhile name arguments)

  -- `Handle.ListPrompts`.
  unfoldable pub list_prompts : Handle → World F → World F × Result (HandleError E) PromptList
  list_prompts = through (λ r. Requests.list_prompts (sources r) a meanwhile)

  -- `Handle.GetPrompt`.
  unfoldable pub get_prompt :
      Bytes → Map Bytes Bytes → Handle → World F → World F × Result (HandleError E) PromptResult
  get_prompt name arguments =
      through (λ r. Requests.get_prompt (sources r) a meanwhile name arguments)

  -- `Handle.ListResources`.
  unfoldable pub list_resources : Handle → World F → World F × Result (HandleError E) ResourceList
  list_resources = through (λ r. Requests.list_resources (sources r) a meanwhile)

  -- `Handle.ListResourceTemplates`.
  unfoldable pub list_resource_templates :
      Handle → World F → World F × Result (HandleError E) ResourceTemplateList
  list_resource_templates = through (λ r. Requests.list_resource_templates (sources r) a meanwhile)

  -- `Handle.ReadResource`.
  unfoldable pub read_resource :
      Bytes → Handle → World F → World F × Result (HandleError E) ResourceContents
  read_resource uri = through (λ r. Requests.read_resource (sources r) a meanwhile uri)

-- `numbers` are the operating system's numbers of a backend's processes, by the entry's address.
unfoldable pub pid_of : {F : Type 0} → (ℕ → ℕ → ℕ) → (ℕ → State) → Option (Entry F) → ℕ
pid_of numbers backends none = 0
pid_of numbers backends (some e) = Lifecycle.pid (numbers e.ref) (backends e.ref)

-- `Handle.PID`.
unfoldable pub handle_pid : {F : Type 0} → (ℕ → ℕ → ℕ) → Handle → World F → ℕ
handle_pid numbers h w = pid_of numbers w.backends (find_entry h.key w.pool.entries)
