-- ===== src/Examples/Lifecycle.antt =====
-- A backend's process over time, and how it is stopped, at concrete inputs.
use mcp_reverse_proxy.Prelude.{
  ◌≡◌, refl, ◌↔◌, ◌⊎◌, inl, true, false, some, List, [], ◌∷◌, ok, nat_eq, list_eq, contains,
}
use mcp_reverse_proxy.Prelude.Int.{pos}
use mcp_reverse_proxy.Pool.Lifecycle.{State, new_backend, session, classify}
use mcp_reverse_proxy.Pool.Lifecycle.Invariant.{
  Command, opens, classifies, closes, exits, run, Tidy, history-Tidy,
}
use mcp_reverse_proxy.Pool.Lifecycle.Sessions.{succeeds, retry_starts_fresh}
use mcp_reverse_proxy.Pool.Stop.{
  Course, stdin_closed, terminated, killed, timer, stop, wait_for, default_stop_policy,
}
use mcp_reverse_proxy.Pool.Stop.Escalates.{Resists, stop_lem}

-- A process exits during a request, is replaced, and the backend is closed.
abbrev trouble : List Command
trouble = opens succeeds ∷ exits 0 ∷ classifies 0 false ∷ opens succeeds ∷ closes ∷ []

trouble_test : (run trouble new_backend).stopped ≡ 1 ∷ 0 ∷ []
unfolding run new_backend mcp_reverse_proxy.Pool.Lifecycle.Invariant.step session classify
    mcp_reverse_proxy.Pool.Lifecycle.close mcp_reverse_proxy.Pool.Lifecycle.discard
    mcp_reverse_proxy.Pool.Lifecycle.exit
trouble_test = refl

history-Tidy_example : Tidy (run trouble new_backend)
history-Tidy_example = history-Tidy trouble

-- A backend whose one process has exited.
abbrev crashed : State
crashed = record {
  proc = some 0;
  conn = some 0;
  closed = false;
  next = 1;
  exited = 0 ∷ [];
  stopped = [];
}

retry_starts_fresh_example :
    let (after, retry) = classify 0 false crashed in
    (retry ≡ true)
    × ((session succeeds after).1 ≡ ok (1, 1))
    × (contains (session succeeds after).0.stopped 0 ≡ true)
retry_starts_fresh_example = retry_starts_fresh 0 false crashed refl refl (inl refl)

-- A process that does nothing but die when it is killed.
abbrev stubborn : Course
stubborn = record {
  fails = λ d. false;
  gone_after = λ d. false;
  wait_after = λ d. timer;
  gone_at_last = true;
}

stop_lem_example :
    (wait_for stubborn stdin_closed default_stop_policy.after_stdin ≡ true)
      × (((stop stubborn default_stop_policy).deeds ≡ stdin_closed ∷ [])
          × ((stop stubborn default_stop_policy).gone ≡ true))
    ⊎ (wait_for stubborn stdin_closed default_stop_policy.after_stdin ≡ false)
      × (((false ≡ false) × (wait_for stubborn terminated default_stop_policy.after_term ≡ true))
            × (((stop stubborn default_stop_policy).deeds ≡ stdin_closed ∷ terminated ∷ [])
                × ((stop stubborn default_stop_policy).gone ≡ true))
          ⊎ Resists stubborn terminated default_stop_policy.after_term
            × (((stop stubborn default_stop_policy).deeds ≡ stdin_closed ∷ terminated ∷ killed ∷ [])
                × (((stop stubborn default_stop_policy).gone ≡ false)
                    ↔ (Resists stubborn killed (pos 0) × (true ≡ false)))))
stop_lem_example = stop_lem stubborn default_stop_policy
