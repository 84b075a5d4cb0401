-- ===== src/Backend/Session/Listed.antt =====
-- internal/backend/sdk.go: `ListTools` hands a backend's tools on as the backend lists them.
use mcp_reverse_proxy.Prelude.{
  ◌≡◌, refl, ◌↔◌, arith, Option, none, some, List, [], ◌∷◌, Result, ok, err, bind-ok, nat_eq,
  list_eq, Bytes,
}
use mcp_reverse_proxy.Prelude.Int.{ℤ}
use mcp_reverse_proxy.Backend.Normalize.{CallError, normalize_result_type}
use mcp_reverse_proxy.Backend.Types.{Tool, ToolList}
use mcp_reverse_proxy.Backend.Session.{
  Encoder, SdkConnection, SdkList, SdkTool, ClientSession, normalized, ask, schema_bytes, tool_of,
  tools_of, list_cache, list_tools,
}

normalized-ok :
    {X E : Type 0} (invalid : ℤ) (id : Bytes) (r : Result (CallError E) X) (x : X)
    → normalized invalid id r ≡ ok x
    → r ≡ ok x
unfolding normalized
normalized-ok invalid id (ok y) x h = cc
normalized-ok invalid id (err e) x h = absurd (cc)

module _ {T X E : Type 0} (invalid : ℤ) (id : Bytes) (request : T → Result (CallError E) X) where
  ask-ok :
      (session : Option T) (x : X)
      → ask invalid id request session ≡ ok x
      → (s : T) × ((session ≡ some s) × (request s ≡ ok x))
  unfolding ask
  ask-ok none x h = absurd (cc)
  ask-ok (some s) x h = (s, (refl, normalized-ok invalid id (request s) x h))

  ok-ask :
      (session : Option T) (s : T) (x : X)
      → session ≡ some s
      → request s ≡ ok x
      → ask invalid id request session ≡ ok x
  unfolding ask normalized
  ok-ask session s x open_session answer = rw open_session (rw answer refl)

module _ {S C A M R E : Type 0} (encoder : Encoder S C A M R E) where
  -- A tool as the backend describes it, its schema encoded, or empty if it has none.
  pub record Describes (t : SdkTool S) (tool : Tool) : Type 0 where
    pub named : tool.name ≡ t.name
    pub titled : tool.title ≡ t.title
    pub described : tool.description ≡ t.description
    pub schema : schema_bytes encoder t.input_schema ≡ ok tool.input_schema

  -- Entry by entry.
  abbrev pub Describe : List (SdkTool S) → List Tool → Type 0
  Describe [] [] = Unit {0}
  Describe [] (tool ∷ tools) = ⊥
  Describe (t ∷ ts) [] = ⊥
  Describe (t ∷ ts) (tool ∷ tools) = Describes t tool × Describe ts tools

  tool_of-ok : (t : SdkTool S) (tool : Tool) → (tool_of encoder t ≡ ok tool) ↔ Describes t tool
  unfolding tool_of
  tool_of-ok t tool = (
    λ h.
        let (raw, e, same) = bind-ok (schema_bytes encoder t.input_schema) _ tool h in
        record { named = cc; titled = cc; described = cc; schema = cc },
    λ d. rw d.schema (ground arith),
  )

  tools_of-ok :
      (ts : List (SdkTool S)) (tools : List Tool)
      → (tools_of encoder ts ≡ ok tools) ↔ Describe ts tools
  unfolding tools_of
  tools_of-ok [] [] = ((λ _. tt), λ _. refl)
  tools_of-ok [] (tool ∷ tools) = ((λ h. absurd (cc)), λ h. elim h [ ])
  tools_of-ok (t ∷ ts) [] = (
    λ h.
        let (tool, _, later) = bind-ok (tool_of encoder t) _ [] h in
        let (tools, _, same) = bind-ok (tools_of encoder ts) _ [] later in absurd (cc),
    λ h. elim h [ ],
  )
  tools_of-ok (t ∷ ts) (tool ∷ tools) = (
    λ h.
        let (tool', first, later) = bind-ok (tool_of encoder t) _ (tool ∷ tools) h in
        let (tools', rest, same) = bind-ok (tools_of encoder ts) _ (tool ∷ tools) later in
        ((tool_of-ok t tool).0 (cc), (tools_of-ok ts tools).0 (cc)),
    λ (d, ds). rw ((tool_of-ok t tool).1 d) (rw ((tools_of-ok ts tools).1 ds) refl),
  )

  -- A session lists tools exactly if it is open, the backend answers with tools, and their schemas
  -- can be encoded; and then it lists the backend's tools, each as the backend describes it and in
  -- the backend's order, with the result type and the hints filled in.
  pub list_tools_iff :
      (invalid : ℤ) (c : SdkConnection S C A M R E) (l : ToolList)
      → (list_tools encoder invalid c ≡ ok l) ↔ (
          (s : ClientSession S C A M R E) × (res : SdkList (SdkTool S)) × (c.session ≡ some s)
          × (s.list_tools ≡ ok res)
          × Describe res.entries l.tools
          × (l.result_type ≡ normalize_result_type res.result_type)
          × (l.cache ≡ list_cache res))
  unfolding list_tools
  list_tools_iff invalid c l = (
    λ h.
        let (res, asked, later) =
          bind-ok (ask invalid c.server_id (λ s. s.list_tools) c.session) _ l h in
        let (s, (open_session, answer)) =
          ask-ok invalid c.server_id (λ s. s.list_tools) c.session res asked in
        let (tools, described, same) = bind-ok (tools_of encoder res.entries) _ l later in
        (s, res, open_session, answer, (tools_of-ok res.entries l.tools).0 (cc), cc, cc),
    λ (s, res, open_session, answer, described, named, cached).
        rw (ok-ask invalid c.server_id (λ s. s.list_tools) c.session s res open_session answer)
          (rw ((tools_of-ok res.entries l.tools).1 described) (ground arith)),
  )
