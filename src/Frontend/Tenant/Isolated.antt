-- ===== src/Frontend/Tenant/Isolated.antt =====
-- internal/frontend/tenant.go: a request reaches the processes of its own subject alone.
use mcp_reverse_proxy.Aggregate.Name.{qualify}
use mcp_reverse_proxy.Prelude.{
  ◌≡◌, refl, sym, ap, ◌∙◌, ◌≢◌, ◌⊎◌, inl, inr, Option, some, List, [], ◌∷◌, arith, Option-cases,
  Result, ok, err, bind-ok, nat_eq, list_eq, ==-cases, Bytes, In,
}
use mcp_reverse_proxy.Prelude.Int.{ℤ}
use mcp_reverse_proxy.Prelude.Maps.{Map, lookup, insert, lookup-insert}
use mcp_reverse_proxy.Auth.Claims.{Subject}
use mcp_reverse_proxy.Config.Types.{Server}
use mcp_reverse_proxy.Backend.Types.{ToolResult, Source}
use mcp_reverse_proxy.Pool.Handles.{Handle, handle_for}
use mcp_reverse_proxy.Aggregate.Gateway
use mcp_reverse_proxy.Aggregate.Gateway.{GatewayError, relay, not_found, new_gateway, Gateway}
use mcp_reverse_proxy.Aggregate.Gateway.Routed.{call_tool-relay}
use mcp_reverse_proxy.Frontend.Tenant.{
  call_tool, relayed, gateway_of, Context, gateway, sources_for, subject_from,
}

module _ {F : Type 0} (mac : Bytes → Bytes → Bytes) (secret : Bytes) (reach : Handle → Source F)
    (timeout : ℤ) where
  -- A handle of the subject for a resolved server, whose identifier the source stands under.
  pub record OwnSource (subject : Subject) (servers : List Server) (id : Bytes) (s : Source F)
      : Type 0 where
    pub server : Server
    pub resolved : In server servers
    pub named : server.id ≡ id
    pub own : reach (handle_for mac secret subject server) ≡ s

  sources_for-own :
      (subject : Subject) (servers : List Server) (sources : Map Bytes (Source F)) (id : Bytes)
      (s : Source F)
      → lookup id (sources_for mac secret reach timeout subject servers sources) ≡ some s
      → OwnSource subject servers id s ⊎ (lookup id sources ≡ some s)
  unfolding sources_for
  sources_for-own subject [] sources id s h = inr h
  sources_for-own subject (server ∷ servers) sources id s h =
      let source = reach (handle_for mac secret subject server) in
      elim (sources_for-own subject servers (insert server.id source sources) id s h) [
        | inl o ↦
            inl (record {
              server = o.server;
              resolved = inr o.resolved;
              named = o.named;
              own = o.own;
            })
        | inr k ↦ elim (==-cases server.id id) [
          | inl (here, same) ↦ inl (record {
            server = server;
            resolved = inl refl;
            named = same;
            own =
                some-injective _ _
                  (sym (lookup-insert server.id id source sources ∙ rw here refl) ∙ k);
          })
          | inr (other, _) ↦
              inr (sym (lookup-insert server.id id source sources ∙ rw other refl) ∙ k)
        ]
      ]
    where
      some-injective : (x y : Source F) → some x ≡ some y → x ≡ y
      some-injective x y h = cc

  -- Where the answer to a request comes from.
  pub record OwnAnswer (ctx : Context) (q : Bytes) (R : Type 0)
      (ask : Source F → Bytes → Result F R) (r : R) : Type 0 where
    pub subject : Subject
    pub servers : List Server
    pub server : Server
    pub name : Bytes
    pub authenticated : subject_from ctx ≡ some subject
    pub resolved : ctx.resolved ≡ some servers
    pub listed : In server servers
    pub spelled : q ≡ qualify server.id name
    pub answer : ask (reach (handle_for mac secret subject server)) name ≡ ok r

  gateway_parts :
      (ctx : Context) (g : Gateway F)
      → gateway mac secret reach timeout ctx ≡ ok g
      → (subject : Subject) × ((servers : List Server) × ((subject_from ctx ≡ some subject)
            × ((ctx.resolved ≡ some servers)
                × (g
                    ≡ new_gateway
                        (sources_for mac secret reach timeout subject servers [])
                        timeout))))
  unfolding gateway gateway_of
  gateway_parts ctx g h = elim (Option-cases (subject_from ctx)) [
    | inl nobody ↦ absurd (ground (arith, nobody, h))
    | inr (subject, e) ↦ elim (Option-cases ctx.resolved) [
      | inl nothing ↦ absurd (ground (arith, e, nothing, h))
      | inr (servers, k) ↦ (subject, (servers, (e, (k, ground (arith, e, k, h)))))
    ]
  ]

  relayed-ok :
      {R : Type 0} (x : Result (GatewayError F) R) (r : R)
      → relayed mac secret reach timeout x ≡ ok r
      → x ≡ ok r
  unfolding relayed
  relayed-ok (ok y) r h = cc
  relayed-ok (err e) r h = absurd cc

  relay-ok :
      {R : Type 0} (protocol_code : F → Option ℤ) (id : Bytes) (x : Result F R) (r : R)
      → relay protocol_code id x ≡ ok r
      → x ≡ ok r
  unfolding relay
  relay-ok protocol_code id (ok y) r h = cc
  relay-ok protocol_code id (err e) r h = absurd cc

  -- The answer to a tool call is that of a process of the request's own subject, for a server that
  -- was resolved for the request, whose identifier and the name it knows spell the name called.
  pub call_tool-OwnAnswer :
      (protocol_code : F → Option ℤ) (ctx : Context) (q arguments : Bytes) (r : ToolResult)
      → call_tool mac secret reach timeout protocol_code ctx q arguments ≡ ok r
      → OwnAnswer ctx q ToolResult (λ s name. s.call_tool name arguments) r
  unfolding call_tool lookup
  call_tool-OwnAnswer protocol_code ctx q arguments r h =
      let (g, e, h') = bind-ok (gateway mac secret reach timeout ctx) _ r h in
      let (subject, (servers, (authenticated, (resolved, built)))) = gateway_parts ctx g e in
      let sources = sources_for mac secret reach timeout subject servers [] in
      let asked =
        ap (λ x. Gateway.call_tool protocol_code x q arguments) (sym built) ∙ relayed-ok _ r h' in
      elim (call_tool-relay protocol_code sources timeout q arguments) [
        | inl (_, nowhere) ↦ absurd (no_result (sym nowhere ∙ asked))
        | inr (id, (name, (s, (a, answered)))) ↦
            elim (sources_for-own subject servers [] id s a.source) [
              | inr k ↦ absurd (no_source id k)
              | inl o ↦ record {
                subject = subject;
                servers = servers;
                server = o.server;
                name = name;
                authenticated = authenticated;
                resolved = resolved;
                listed = o.resolved;
                spelled = a.owner.spelled ∙ ap (λ x. qualify x name) (sym o.named);
                answer =
                    ap (λ x. x.call_tool name arguments) o.own
                    ∙ relay-ok protocol_code id _ r (sym answered ∙ asked);
              }
            ]
      ]
    where
      no_result : ◌≢◌ {A = Result (GatewayError F) ToolResult} (err not_found) (ok r)
      no_result h = cc

      no_source : {s : Source F} (id : Bytes) → ◌≢◌ {A = Option (Source F)} (lookup id []) (some s)
      no_source id k = cc
