-- ===== src/Frontend/Tenant.antt =====
-- internal/frontend/tenant.go: the surface that a request is entitled to.
pub mod Isolated
pub mod Pooled
use mcp_reverse_proxy.Prelude.{
  Option, none, some, List, [], ◌∷◌, Result, ok, err, ◌>>=◌, nat_eq, list_eq, Bytes,
}
use mcp_reverse_proxy.Prelude.Int.{ℤ}
use mcp_reverse_proxy.Prelude.Maps.{Map, insert}
use mcp_reverse_proxy.Auth.Claims.{Claims, Subject}
use mcp_reverse_proxy.Config.Types.{Server}
use mcp_reverse_proxy.Backend.Types.{Source, ToolResult, PromptResult, ResourceContents}
use mcp_reverse_proxy.Pool.Handles.{Handle, handle_for}
use mcp_reverse_proxy.Aggregate.Uri.{Url}
use mcp_reverse_proxy.Aggregate.Surface.{Surface, AssembleError}
use mcp_reverse_proxy.Aggregate.Gateway.{Gateway, GatewayError, new_gateway}
use mcp_reverse_proxy.Aggregate.Gateway

-- What the layers above put on a request: `ClaimsFromContext` and `ResolvedFromContext`.
pub record Context : Type 0 where
  pub claims : Option Claims
  pub resolved : Option (List Server)

pub data TenantError (F : Type 0) : Type 0 where
  unauthenticated : TenantError F
  unresolved : TenantError F
  no_surface : AssembleError → TenantError F
  gateway_error : GatewayError F → TenantError F

-- `WithClaims`.
unfoldable pub with_claims : Claims → Context → Context
with_claims c ctx = record ctx { claims = some c }

-- `WithSubject`.
unfoldable pub with_subject : Subject → Context → Context
with_subject s ctx = record ctx { claims = some (record { subject = s; scopes = [] }) }

-- `WithResolved`.
unfoldable pub with_resolved : List Server → Context → Context
with_resolved servers ctx = record ctx { resolved = some servers }

unfoldable pub subject_of_claims : Option Claims → Option Subject
subject_of_claims none = none
subject_of_claims (some c) = some c.subject

-- `SubjectFromContext`.
unfoldable pub subject_from : Context → Option Subject
subject_from ctx = subject_of_claims ctx.claims

-- `mac` and `secret` are the fingerprinter's, and `reach` is how the pool serves a handle.
module _ {F : Type 0} (mac : Bytes → Bytes → Bytes) (secret : Bytes) (reach : Handle → Source F)
    (timeout : ℤ) where
  -- The loop of `gateway` over the resolved servers.
  unfoldable pub sources_for : Subject → List Server → Map Bytes (Source F) → Map Bytes (Source F)
  sources_for subject [] sources = sources
  sources_for subject (server ∷ servers) sources =
      sources_for subject servers
        (insert server.id (reach (handle_for mac secret subject server)) sources)

  unfoldable pub gateway_of :
      Option Subject → Option (List Server) → Result (TenantError F) (Gateway F)
  gateway_of none resolved = err unauthenticated
  gateway_of (some subject) none = err unresolved
  gateway_of (some subject) (some servers) =
      ok (new_gateway (sources_for subject servers []) timeout)

  -- `gateway`.
  unfoldable pub gateway : Context → Result (TenantError F) (Gateway F)
  gateway ctx = gateway_of (subject_from ctx) ctx.resolved

  unfoldable pub listed : Result AssembleError Surface → Result (TenantError F) Surface
  listed (ok s) = ok s
  listed (err e) = err (no_surface e)

  unfoldable pub relayed : {R : Type 0} → Result (GatewayError F) R → Result (TenantError F) R
  relayed (ok r) = ok r
  relayed (err e) = err (gateway_error e)

  module _ (protocol_code : F → Option ℤ) where
    -- `Tenant.Surface`.
    unfoldable pub surface : Context → Result (TenantError F) Surface
    surface ctx = gateway ctx >>= (λ g. listed (Gateway.surface protocol_code g))

    -- `Tenant.CallTool`.
    unfoldable pub call_tool : Context → Bytes → Bytes → Result (TenantError F) ToolResult
    call_tool ctx name arguments =
        gateway ctx >>= (λ g. relayed (Gateway.call_tool protocol_code g name arguments))

    -- `Tenant.GetPrompt`.
    unfoldable pub get_prompt :
        Context → Bytes → Map Bytes Bytes → Result (TenantError F) PromptResult
    get_prompt ctx name arguments =
        gateway ctx >>= (λ g. relayed (Gateway.get_prompt protocol_code g name arguments))

    -- `Tenant.ReadResource`.
    unfoldable pub read_resource :
        (Bytes → Option Url) → Context → Bytes → Result (TenantError F) ResourceContents
    read_resource parse ctx uri =
        gateway ctx >>= (λ g. relayed (Gateway.read_resource protocol_code parse g uri))
