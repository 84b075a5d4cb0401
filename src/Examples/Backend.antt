-- ===== src/Examples/Backend.antt =====
-- internal/backend at concrete inputs.
use mcp_reverse_proxy.Prelude.{
  ℕ, ◌≡◌, refl, Bool, true, false, not, List, [], ◌∷◌, ◌==◌, nat_eq, list_eq, All, codes,
}
use mcp_reverse_proxy.Config.Types.{era_modern}
use mcp_reverse_proxy.Backend.Interpose.{
  request, response, method_discover, method_initialize, new_conn, inspect, arm_probe,
  on_probe_expired, probe_unsupported,
}
use mcp_reverse_proxy.Backend.Interpose.Traces.{
  Event, client_writes, backend_says, timer_fires, to_backend, to_client, run, permitted,
  run-permitted,
}

-- Requests with the identifier 0 are notifications.
abbrev wants_answer : ℕ → Bool
wants_answer id = not (id == 0)

-- The client probes, the deadline passes, and the client asks for the handshake; then the backend
-- answers the probe, and asks for a sample.
abbrev history : List (Event ℕ)
history =
    client_writes (request 1 method_discover)
    ∷ timer_fires 1
    ∷ client_writes (request 2 method_initialize)
    ∷ backend_says (response 1 false)
    ∷ backend_says (request 7 (codes "sampling/createMessage"))
    ∷ []

auto_test :
    run wants_answer history (new_conn (codes "auto"))
    ≡ to_backend (request 1 method_discover)
      ∷ to_client (response 1 true)
      ∷ to_backend (request 2 method_initialize)
      ∷ to_client (response 1 false)
      ∷ to_backend (response 7 true)
      ∷ []
unfolding run mcp_reverse_proxy.Backend.Interpose.Traces.step
    mcp_reverse_proxy.Backend.Interpose.write mcp_reverse_proxy.Backend.Interpose.pinned_legacy
    new_conn on_probe_expired arm_probe probe_unsupported
    mcp_reverse_proxy.Backend.Interpose.refuse_fallback
    mcp_reverse_proxy.Backend.Interpose.pinned_modern
    mcp_reverse_proxy.Backend.Interpose.fail_locked inspect
    mcp_reverse_proxy.Backend.Interpose.on_probe_answer
    mcp_reverse_proxy.Backend.Interpose.is_masked
auto_test = refl

run-permitted_example :
    All
      (λ o. permitted wants_answer era_modern o ≡ true)
      (run wants_answer history (new_conn era_modern))
run-permitted_example = run-permitted wants_answer era_modern history
