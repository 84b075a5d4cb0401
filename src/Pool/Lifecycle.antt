-- ===== src/Pool/Lifecycle.antt =====
-- internal/pool/backend.go: one backend, its process and its session, over the time in which
-- processes are started, exit by themselves, and are stopped. A call of a method that holds the
-- mutex is one step. A process is named by a number, and a session by the process that it is opened
-- over. The operating system and the connector decide whether a start succeeds; that a process has
-- exited is seen by a goroutine of its own.
pub mod Invariant
pub mod Requests
pub mod Sessions
use mcp_reverse_proxy.Prelude.{
  ℕ, suc, Bool, true, false, not, ◌&&◌, Option, none, some, List, [], ◌∷◌, if◌then◌else◌, Result,
  ok, err, ◌==◌, nat_eq, list_eq, contains,
}

-- `Backend`, and what has become of the processes: `next` counts those started, `exited` are those
-- seen to have exited, and `stopped` those that `Stop` was called on.
pub record State : Type 0 where
  pub proc : Option ℕ
  pub conn : Option ℕ
  pub closed : Bool
  pub next : ℕ
  pub exited : List ℕ
  pub stopped : List ℕ

pub data SessionError : Type 0 where
  backend_closed : SessionError
  spawn_failed : SessionError
  connect_failed : SessionError

-- Whether `Spawn` and `Connect` succeed.
pub record Start : Type 0 where
  pub spawns : Bool
  pub connects : Bool

-- `NewBackend`.
unfoldable pub new_backend : State
new_backend = record {
  proc = none;
  conn = none;
  closed = false;
  next = 0;
  exited = [];
  stopped = [];
}

stop_current : Option ℕ → List ℕ → List ℕ
stop_current none stopped = stopped
stop_current (some p) stopped = p ∷ stopped

-- `discardLocked`: the errors of closing go to a log or to the caller of `Close`.
unfoldable pub discard : State → State
unfolding stop_current
discard s = record s { proc = none; conn = none; stopped = stop_current s.proc s.stopped }

-- What `session` returns: a session and a process.
abbrev pub Session : Type 0
Session = State × Result SessionError (ℕ × ℕ)

-- Where `session` starts a process, after the old one is discarded.
pub start : Start → State → Session
start a s =
    if not a.spawns
    then (s, err spawn_failed)
    else if not a.connects
    then (record s { next = suc s.next; stopped = s.next ∷ s.stopped }, err connect_failed)
    else (
      record s { proc = some s.next; conn = some s.next; next = suc s.next },
      ok (s.next, s.next),
    )

pub discard_old : Option ℕ → State → State
discard_old none s = s
discard_old (some p) s = discard s

-- The session and the process that serve now: there are both, and the process has not exited.
pub serving : Option ℕ → Option ℕ → List ℕ → Option (ℕ × ℕ)
serving none conn exited = none
serving (some p) none exited = none
serving (some p) (some c) exited = if contains exited p then none else some (c, p)

pub session_of : Start → State → Option (ℕ × ℕ) → Session
session_of a s (some live) = (s, ok live)
session_of a s none = start a (discard_old s.proc s)

-- `session`.
unfoldable pub session : Start → State → Session
unfolding session_of start discard_old serving
session a s =
    if s.closed then (s, err backend_closed) else session_of a s (serving s.proc s.conn s.exited)

-- `b.proc == proc`.
is_current : Option ℕ → ℕ → Bool
is_current none p = false
is_current (some q) p = q == p

-- `classify`: whether the failure of a call on a process's session is retryable. `lost` says that
-- the connection was lost.
unfoldable pub classify : ℕ → Bool → State → State × Bool
unfolding is_current
classify p lost s =
    if not (contains s.exited p) && not lost
    then (s, false)
    else (if is_current s.proc p then record s { conn = none } else s, true)

-- `Close`.
unfoldable pub close : State → State
close s = discard (record s { closed = true })

running : (ℕ → ℕ) → Option ℕ → List ℕ → ℕ
running pid_of none exited = 0
running pid_of (some p) exited = if contains exited p then 0 else pid_of p

-- `PID`, of processes with the given identifiers.
unfoldable pub pid : (ℕ → ℕ) → State → ℕ
unfolding running
pid pid_of s = running pid_of s.proc s.exited

-- The operating system's part: a process exits.
unfoldable pub exit : ℕ → State → State
exit p s = record s { exited = p ∷ s.exited }
