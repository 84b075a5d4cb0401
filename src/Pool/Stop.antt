-- ===== src/Pool/Stop.antt =====
-- internal/pool/stop.go: how a process is stopped. What happens while the gateway waits is an
-- argument: whether the process has exited by the end of each wait.
pub mod Escalates
use mcp_reverse_proxy.Prelude.{
  Bool, true, false, List, [], ◌∷◌, ◌++◌, if◌then◌else◌, nat_eq, list_eq,
}
use mcp_reverse_proxy.Prelude.Int.{ℤ, pos, gtb}

-- In nanoseconds.
pub record StopPolicy : Type 0 where
  pub after_stdin : ℤ
  pub after_term : ℤ

abbrev pub default_stop_policy : StopPolicy
default_stop_policy = record { after_stdin = pos 5000000000; after_term = pos 5000000000 }

-- What is done to the process; `terminated` is SIGTERM and `killed` is SIGKILL.
pub data Deed : Type 0 where
  stdin_closed : Deed
  terminated : Deed
  killed : Deed

-- What ends a wait: the process's exit, the grace period, or the context.
pub data WaitEnd : Type 0 where
  exit : WaitEnd
  timer : WaitEnd
  cancelled : WaitEnd

-- How a process and its surroundings behave: whether a deed is reported as failed, whether the
-- process is gone right after it, what ends the wait for it, and what ends the last wait, which
-- has no timer: `true` for the exit.
pub record Course : Type 0 where
  pub fails : Deed → Bool
  pub gone_after : Deed → Bool
  pub wait_after : Deed → WaitEnd
  pub gone_at_last : Bool

unfoldable pub is_exit : WaitEnd → Bool
is_exit exit = true
is_exit timer = false
is_exit cancelled = false

-- `waitFor`.
unfoldable pub wait_for : Course → Deed → ℤ → Bool
wait_for c d grace = if gtb grace (pos 0) then is_exit (c.wait_after d) else c.gone_after d

-- What `stop` did, in order; whether the process is gone; and the deeds that failed before.
pub record Stopped : Type 0 where
  pub deeds : List Deed
  pub gone : Bool
  pub failed : List Deed

-- The signals and how long each may take.
unfoldable pub steps : StopPolicy → List (Deed × ℤ)
steps policy = (terminated, policy.after_term) ∷ (killed, pos 0) ∷ []

-- The loop over the signals and the end.
unfoldable pub signal_each : Course → List (Deed × ℤ) → List Deed → List Deed → Stopped
signal_each c [] deeds failed = record { deeds = deeds; gone = c.gone_at_last; failed = failed }
signal_each c ((sig, grace) ∷ rest) deeds failed =
    let skipped = signal_each c rest (deeds ++ (sig ∷ [])) (failed ++ (sig ∷ [])) in
    let later = signal_each c rest (deeds ++ (sig ∷ [])) failed in
    if c.fails sig
    then skipped
    else if wait_for c sig grace
    then record { deeds = deeds ++ (sig ∷ []); gone = true; failed = failed }
    else later

unfoldable pub stdin_failures : Course → List Deed
stdin_failures c = if c.fails stdin_closed then stdin_closed ∷ [] else []

-- `stop`.
unfoldable pub stop : Course → StopPolicy → Stopped
stop c policy =
    if wait_for c stdin_closed policy.after_stdin
    then record { deeds = stdin_closed ∷ []; gone = true; failed = stdin_failures c }
    else signal_each c (steps policy) (stdin_closed ∷ []) (stdin_failures c)
