-- ===== src/Aggregate/Gateway/Routed.antt =====
-- internal/aggregate/gateway.go: which backend answers a request for a name.
use mcp_reverse_proxy.Aggregate.Name.{new_router, route}
use mcp_reverse_proxy.Aggregate.Gateway.{ask_source, new_gateway, ask_routed}
use mcp_reverse_proxy.Prelude.Maps.{lookup-none_iff, lookup, keys, Map}
use mcp_reverse_proxy.Prelude.{
  ◌≤◌, ◌≡◌, ◌∙◌, refl, none, ok, ◌⊎◌, inl, inr, Option, some, arith, Option-cases, Result, err,
  nat_eq, list_eq, Bytes, length,
}
use mcp_reverse_proxy.Prelude.Int.{ℤ}
use mcp_reverse_proxy.Backend.Types.{Source}
use mcp_reverse_proxy.Aggregate.Gateway.{
  call_tool, get_prompt, ask_routed, ask_source, new_gateway, relay, not_found, GatewayError,
  answered, backend_unavailable, relay_error, unavailable,
}
use mcp_reverse_proxy.Aggregate.Name.Route.{Owns, route_iff, route-none}

-- The backend of the longest identifier that a name starts with, and the name that it knows.
pub record Answers {F : Type 0} (sources : Map Bytes (Source F)) (q id name : Bytes) (s : Source F)
    : Type 0 where
  pub owner : Owns (keys sources) q id name
  pub longest : (other rest : Bytes) → Owns (keys sources) q other rest → length other ≤ length id
  pub source : lookup id sources ≡ some s

-- What becomes of a backend's outcome `x`: its result and its JSON-RPC error are handed on, and any
-- other failure is an unavailable backend.
pub data Becomes {F R : Type 0} (protocol_code : F → Option ℤ) (id : Bytes) (x : Result F R)
    (y : Result (GatewayError F) R) : Type 0 where
  a_result : (r : R) → x ≡ ok r → y ≡ ok r → Becomes protocol_code id x y
  its_own_error :
      (e : F) (code : ℤ)
      → x ≡ err e
      → protocol_code e ≡ some code
      → y ≡ err (answered e)
      → Becomes protocol_code id x y
  a_failure :
      (e : F)
      → x ≡ err e
      → protocol_code e ≡ none
      → y ≡ err (backend_unavailable id e)
      → Becomes protocol_code id x y

relay-Becomes :
    {F R : Type 0} (protocol_code : F → Option ℤ) (id : Bytes) (x : Result F R)
    (y : Result (GatewayError F) R)
    → y ≡ relay protocol_code id x
    → Becomes protocol_code id x y
unfolding relay unavailable relay_error
relay-Becomes protocol_code id (ok r) y h = a_result r refl h
relay-Becomes protocol_code id (err e) y h = elim (Option-cases (protocol_code e)) [
  | inl no_code ↦ a_failure e refl no_code (h ∙ rw no_code refl)
  | inr (code, has) ↦ its_own_error e code refl has (h ∙ rw has refl)
]

module _ {F : Type 0} (protocol_code : F → Option ℤ) (sources : Map Bytes (Source F))
    (timeout : ℤ) where
  routed :
      {R : Type 0} (ask : Source F → Bytes → Result F R) (q : Bytes)
      → ((id name : Bytes) → ¬ Owns (keys sources) q id name)
          × (ask_routed protocol_code ask
                (new_gateway sources timeout)
                (route (new_router (keys sources)) q)
              ≡ err not_found)
        ⊎ ((id : Bytes) × ((name : Bytes) × ((s : Source F) × (Answers sources q id name s
                  × (ask_routed protocol_code ask
                        (new_gateway sources timeout)
                        (route (new_router (keys sources)) q)
                      ≡ relay protocol_code id (ask s name))))))
  unfolding ask_routed ask_source new_gateway
  routed ask q = elim (Option-cases (route (new_router (keys sources)) q)) [
    | inl nowhere ↦ inl ((λ id name. route-none (keys sources) q id name nowhere), rw nowhere refl)
    | inr ((id, name), e) ↦
        let (o, longest) = (route_iff (keys sources) q id name).0 e in
        elim (lookup-none_iff id sources) [
          | inl (missing, _) ↦ absurd (ground (arith, o.known, missing))
          | inr (_, (s, l)) ↦ inr (
            id,
            (name, (s, (record { owner = o; longest = longest; source = l }, rw (e, l) refl))),
          )
        ]
  ]

  pub call_tool-relay :
      (q arguments : Bytes)
      → ((id name : Bytes) → ¬ Owns (keys sources) q id name)
          × (call_tool protocol_code (new_gateway sources timeout) q arguments ≡ err not_found)
        ⊎ ((id : Bytes) × ((name : Bytes) × ((s : Source F) × (Answers sources q id name s
                  × (call_tool protocol_code (new_gateway sources timeout) q arguments
                      ≡ relay protocol_code id (s.call_tool name arguments))))))
  unfolding call_tool new_gateway
  call_tool-relay q arguments = routed (λ s name. s.call_tool name arguments) q

  -- A tool call is answered by the backend with the longest identifier that the name starts with,
  -- under the name that the backend knows. What that backend answers is handed on, its result and its
  -- JSON-RPC error alike; any other failure becomes the error that this backend is unavailable. If no
  -- backend owns the name it is not found. No call is made of a backend that does not exist.
  pub call_tool_lem :
      (q arguments : Bytes)
      → ((id name : Bytes) → ¬ Owns (keys sources) q id name)
          × (call_tool protocol_code (new_gateway sources timeout) q arguments ≡ err not_found)
        ⊎ ((id : Bytes) × ((name : Bytes) × ((s : Source F) × (Answers sources q id name s
                  × Becomes protocol_code id
                      (s.call_tool name arguments)
                      (call_tool protocol_code (new_gateway sources timeout) q arguments)))))
  call_tool_lem q arguments = elim (call_tool-relay q arguments) [
    | inl nowhere ↦ inl nowhere
    | inr (id, (name, (s, (a, h)))) ↦
        inr (id, (name, (s, (a, relay-Becomes protocol_code id _ _ h))))
  ]

  -- The same for a prompt.
  pub get_prompt_lem :
      (q : Bytes) (arguments : Map Bytes Bytes)
      → ((id name : Bytes) → ¬ Owns (keys sources) q id name)
          × (get_prompt protocol_code (new_gateway sources timeout) q arguments ≡ err not_found)
        ⊎ ((id : Bytes) × ((name : Bytes) × ((s : Source F) × (Answers sources q id name s
                  × (get_prompt protocol_code (new_gateway sources timeout) q arguments
                      ≡ relay protocol_code id (s.get_prompt name arguments))))))
  unfolding get_prompt new_gateway
  get_prompt_lem q arguments = routed (λ s name. s.get_prompt name arguments) q
