-- ===== src/Frontend/Tenant/Pooled.antt =====
-- internal/frontend/tenant.go over internal/pool/pool.go: a tool call is served by the process that the
-- pool keeps for the caller's own subject.
use mcp_reverse_proxy.Prelude.{
  ℕ, ◌≡◌, refl, sym, ap, subst, Option, some, List, Bool, true, false, Result, ok, err, nat_eq,
  list_eq, Bytes, In,
}
use mcp_reverse_proxy.Prelude.Int.{ℤ}
use mcp_reverse_proxy.Auth.Claims.{Subject, subject_key}
use mcp_reverse_proxy.Config.Types.{Server}
use mcp_reverse_proxy.Config.Fingerprint.{fingerprint}
use mcp_reverse_proxy.Backend.Normalize.{BackendError}
use mcp_reverse_proxy.Backend.Types.{Source, ToolResult}
use mcp_reverse_proxy.Aggregate.Name.{qualify}
use mcp_reverse_proxy.Pool.Types.{Entry, Pool, PoolError, Key}
use mcp_reverse_proxy.Pool.Entries.{find_entry}
use mcp_reverse_proxy.Pool.Ops.{try_acquire}
use mcp_reverse_proxy.Pool.Ops.Outcomes.{Serves, try_acquire-Serves}
use mcp_reverse_proxy.Pool.Lifecycle.{State, Start, Session, session, classify}
use mcp_reverse_proxy.Pool.Lifecycle.Requests
use mcp_reverse_proxy.Pool.Lifecycle.Requests.{Failure, is_lost}
use mcp_reverse_proxy.Pool.Handles
use mcp_reverse_proxy.Pool.Handles.{
  Handle, handle_for, World, HandleError, through, served, finished, answered, acquire,
  after_acquire,
}
use mcp_reverse_proxy.Frontend.Tenant.{Context, call_tool, subject_from}
use mcp_reverse_proxy.Frontend.Tenant.Isolated.{call_tool-OwnAnswer}

-- The parameters are those of Pool/Handles.
module _ {F E : Type 0} (sources : ℕ → ℕ → Source (BackendError E)) (a : Start)
    (meanwhile : State → State) (others : World F → World F) (now later : ℕ) where
  -- A handle as a source: its requests to the pool as it stands.
  unfoldable pub pooled : World F → Handle → Source (HandleError E)
  pooled w h = record {
    list_tools = (Handles.list_tools sources a meanwhile others now later h w).1;
    call_tool = λ name arguments.
        (Handles.call_tool sources a meanwhile others now later name arguments h w).1;
    list_prompts = (Handles.list_prompts sources a meanwhile others now later h w).1;
    get_prompt = λ name arguments.
        (Handles.get_prompt sources a meanwhile others now later name arguments h w).1;
    list_resources = (Handles.list_resources sources a meanwhile others now later h w).1;
    list_resource_templates =
        (Handles.list_resource_templates sources a meanwhile others now later h w).1;
    read_resource = λ uri. (Handles.read_resource sources a meanwhile others now later uri h w).1;
  }

  -- Where the answer to a tool call comes from: an entry of the pool that stands under the caller's own
  -- subject and a server resolved for the call, and a session of that entry's backend.
  pub record OwnProcess (mac : Bytes → Bytes → Bytes) (secret : Bytes) (w : World F) (ctx : Context)
      (q arguments : Bytes) (r : ToolResult) : Type 0 where
    pub subject : Subject
    pub servers : List Server
    pub server : Server
    pub name : Bytes
    pub authenticated : subject_from ctx ≡ some subject
    pub resolved : ctx.resolved ≡ some servers
    pub listed : In server servers
    pub spelled : q ≡ qualify server.id name
    pub entry : Entry F
    pub kept : find_entry entry.key (acquire entry.key server now w).0.pool.entries ≡ some entry
    pub own : entry.key.subject ≡ subject_key subject
    pub same_server : entry.key.fingerprint ≡ fingerprint mac secret server
    pub session : ℕ
    pub answer : (sources entry.ref session).call_tool name arguments ≡ ok r

  failed-no_answer :
      {R : Type 0} (ask : Source (BackendError E) → Result (BackendError E) R) (e : BackendError E)
      (y : State × Bool) (ref : ℕ) (r : R)
      → (Requests.failed (sources ref) a meanwhile ask e y).1 ≡ ok r
      → ⊥
  unfolding Requests.failed
  failed-no_answer ask e (s, true) ref r h = cc
  failed-no_answer ask e (s, false) ref r h = cc

  -- A request that has an answer has it from one of the backend's sessions.
  over-ok :
      {R : Type 0} (ask : Source (BackendError E) → Result (BackendError E) R) (ref : ℕ)
      (x : Session) (r : R)
      → (Requests.over (sources ref) a meanwhile ask x).1 ≡ ok r
      → (c : ℕ) × (ask (sources ref c) ≡ ok r)
  unfolding Requests.over Requests.answered
  over-ok ask ref (s, err e) r h = absurd cc
  over-ok {R} ask ref (s, ok (c, p)) r h = (c, answer (ask (sources ref c)) h)
    where
      answer :
          (y : Result (BackendError E) R)
          → (Requests.answered (sources ref) a meanwhile ask p (meanwhile s) y).1 ≡ ok r
          → y ≡ ok r
      answer (ok z) k = cc
      answer (err e) k =
          absurd (failed-no_answer ask e (classify p (is_lost e) (meanwhile s)) ref r k)

  served-ok :
      (name arguments : Bytes) (x : World F × Result PoolError ℕ) (r : ToolResult)
      → (served sources a meanwhile others now later
          (λ ref. Requests.call_tool (sources ref) a meanwhile name arguments)
          x).1
        ≡ ok r
      → (ref : ℕ) × ((x.1 ≡ ok ref) × ((c : ℕ) × ((sources ref c).call_tool name arguments ≡ ok r)))
  unfolding served finished Requests.call_tool Requests.request answered
  served-ok name arguments (w, err e) r h = absurd cc
  served-ok name arguments (w, ok ref) r h = (
    ref,
    (
      refl,
      over-ok (λ c. c.call_tool name arguments) ref (session a (w.backends ref)) r
          (unanswered
            (Requests.over (sources ref) a meanwhile (λ c. c.call_tool name arguments)
              (session a (w.backends ref))).1
            h),
    ),
  )
    where
      unanswered :
          (y : Result (Failure E) ToolResult)
          → answered sources a meanwhile others now later
              (λ ref. Requests.call_tool (sources ref) a meanwhile name arguments)
              y
            ≡ ok r
          → y ≡ ok r
      unanswered (ok z) k = cc
      unanswered (err e) k = absurd cc

  after_acquire-ok :
      (backends : ℕ → State) (x : Pool F × Result PoolError (ℕ × Option (Entry F))) (ref : ℕ)
      → (after_acquire backends x).1 ≡ ok ref
      → (v : Option (Entry F)) × ((x.1 ≡ ok (ref, v)) × ((after_acquire backends x).0.pool ≡ x.0))
  unfolding after_acquire
  after_acquire-ok backends (p, err e) ref h = absurd cc
  after_acquire-ok backends (p, ok (q, v)) ref h = (v, (cc, refl))

  acquire-Serves :
      (k : Key) (server : Server) (w : World F) (ref : ℕ)
      → (acquire k server now w).1 ≡ ok ref
      → Serves k ref (acquire k server now w).0.pool
  unfolding acquire
  acquire-Serves k server w ref h =
      let (v, (e, same)) = after_acquire-ok w.backends (try_acquire k server now w.pool) ref h in
      subst (Serves k ref) (sym same) (try_acquire-Serves k server now w.pool ref v e)

  -- In a gateway whose handles reach the pool as it stands: the answer to a tool call is that of a
  -- session of the entry that the pool keeps under the request's own subject and the fingerprint of a
  -- server that was resolved for the request; that server's identifier and the name it knows spell the
  -- name called.
  pub call_tool-OwnProcess :
      (mac : Bytes → Bytes → Bytes) (secret : Bytes) (w : World F) (timeout : ℤ)
      (protocol_code : HandleError E → Option ℤ) (ctx : Context) (q arguments : Bytes)
      (r : ToolResult)
      → call_tool mac secret (pooled w) timeout protocol_code ctx q arguments ≡ ok r
      → OwnProcess mac secret w ctx q arguments r
  unfolding pooled handle_for Handles.call_tool through
  call_tool-OwnProcess mac secret w timeout protocol_code ctx q arguments r h =
      let o = call_tool-OwnAnswer mac secret (pooled w) timeout protocol_code ctx q arguments r h in
      let handle = handle_for mac secret o.subject o.server in
      let (ref, (acquired, (c, answer))) =
        served-ok o.name arguments (acquire handle.key handle.server now w) r o.answer in
      let (e, kept, key, at, _) = acquire-Serves handle.key handle.server w ref acquired in
      record {
        subject = o.subject;
        servers = o.servers;
        server = o.server;
        name = o.name;
        authenticated = o.authenticated;
        resolved = o.resolved;
        listed = o.listed;
        spelled = o.spelled;
        entry = e;
        kept =
            subst (λ k. find_entry k (acquire k o.server now w).0.pool.entries ≡ some e) (sym key)
              kept;
        own = ap (λ k. k.subject) key;
        same_server = ap (λ k. k.fingerprint) key;
        session = c;
        answer = subst (λ n. (sources n c).call_tool o.name arguments ≡ ok r) (sym at) answer;
      }
