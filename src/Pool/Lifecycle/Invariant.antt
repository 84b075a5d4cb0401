-- ===== src/Pool/Lifecycle/Invariant.antt =====
-- internal/pool/backend.go: no process is left behind.
use mcp_reverse_proxy.Prelude.{
  ℕ, ◌<◌, ◌≡◌, refl, ◌∙◌, ◌⊎◌, inl, inr, Bool, true, false, not, ◌&&◌, Option, none, some, List, [],
  ◌∷◌, arith, ltb, if◌then◌else◌, ltb→lt, Bool-cases, Option-cases, nat_eq, list_eq, contains,
  Distinct,
}
use mcp_reverse_proxy.Pool.Lifecycle.{
  State, Start, new_backend, discard, session, classify, close, exit, start, discard_old, serving,
  session_of, stop_current, is_current,
}

-- A call of the backend by a request, or by the operating system.
pub data Command : Type 0 where
  opens : Start → Command
  classifies : ℕ → Bool → Command
  closes : Command
  exits : ℕ → Command

-- Only a process that was started can exit.
unfoldable pub step : Command → State → State
step (opens a) s = (session a s).0
step (classifies p lost) s = (classify p lost s).0
step closes s = close s
step (exits p) s = if ltb p s.next then exit p s else s

unfoldable pub run : List Command → State → State
run [] s = s
run (c ∷ cs) s = run cs (step c s)

-- Every process that was started is the current one or was stopped, once; the session is over the
-- current process; and a closed backend has none.
pub record Tidy (s : State) : Type 0 where
  pub none_lost : (p : ℕ) → p < s.next → (s.proc ≡ some p) ⊎ (contains s.stopped p ≡ true)
  pub current_runs : (p : ℕ) → s.proc ≡ some p → (p < s.next) × (contains s.stopped p ≡ false)
  pub same : (c : ℕ) → s.conn ≡ some c → s.proc ≡ some c
  pub stopped_once : Distinct s.stopped
  pub stopped_started : (p : ℕ) → contains s.stopped p ≡ true → p < s.next
  pub exited_started : (p : ℕ) → contains s.exited p ≡ true → p < s.next
  pub shut : s.closed ≡ true → s.proc ≡ none

pub new_backend-Tidy : Tidy new_backend
unfolding new_backend
new_backend-Tidy = record {
  none_lost = λ p h. absurd (omega arith);
  current_runs = λ p h. cc;
  same = λ c h. cc;
  stopped_once = tt;
  stopped_started = λ p h. cc;
  exited_started = λ p h. cc;
  shut = λ h. cc;
}

exit-Tidy : (p : ℕ) (s : State) → p < s.next → Tidy s → Tidy (exit p s)
unfolding exit
exit-Tidy p s h t = record {
  none_lost = t.none_lost;
  current_runs = t.current_runs;
  same = t.same;
  stopped_once = t.stopped_once;
  stopped_started = t.stopped_started;
  exited_started = λ q i. ground (arith, t.exited_started q);
  shut = t.shut;
}

pub classify-Tidy : (p : ℕ) (lost : Bool) (s : State) → Tidy s → Tidy (classify p lost s).0
unfolding classify
classify-Tidy p lost s t = elim (Bool-cases (not (contains s.exited p) && not lost)) [
  | inl plain ↦ simp plain t
  | inr gone ↦ elim (Bool-cases (is_current s.proc p)) [
    | inl current ↦
        simp (gone, current)
          (record {
            none_lost = t.none_lost;
            current_runs = t.current_runs;
            same = λ c h. cc;
            stopped_once = t.stopped_once;
            stopped_started = t.stopped_started;
            exited_started = t.exited_started;
            shut = t.shut;
          })
    | inr other ↦ simp (gone, other) t
  ]
]

discard-Tidy : (s : State) → Tidy s → Tidy (discard s)
unfolding discard stop_current
discard-Tidy s t = elim (Option-cases s.proc) [
  | inl absent ↦ simp absent (record {
    none_lost = λ q h. ground (arith, t.none_lost q);
    current_runs = λ q h. cc;
    same = λ c h. cc;
    stopped_once = t.stopped_once;
    stopped_started = t.stopped_started;
    exited_started = t.exited_started;
    shut = λ h. refl;
  })
  | inr (p, e) ↦ simp e (record {
    none_lost = λ q h. ground (arith, t.none_lost q);
    current_runs = λ q h. cc;
    same = λ c h. cc;
    stopped_once = ((t.current_runs p e).1, t.stopped_once);
    stopped_started = λ q i. ground (arith, t.current_runs p e, t.stopped_started q);
    exited_started = t.exited_started;
    shut = λ h. refl;
  })
]

pub close-Tidy : (s : State) → Tidy s → Tidy (close s)
unfolding close discard
close-Tidy s t =
    let d = discard-Tidy s t in
    record {
      none_lost = d.none_lost;
      current_runs = d.current_runs;
      same = d.same;
      stopped_once = d.stopped_once;
      stopped_started = d.stopped_started;
      exited_started = d.exited_started;
      shut = λ h. refl;
    }

start-Tidy :
    (a : Start) (s : State) → s.proc ≡ none → s.closed ≡ false → Tidy s → Tidy (start a s).0
unfolding start
start-Tidy a s idle live t = elim (Bool-cases a.spawns) [
  | inr fails ↦ simp fails t
  | inl spawned ↦ elim (Bool-cases a.connects) [
    | inr fails ↦
        simp (spawned, fails)
          (record {
            none_lost = λ q h. ground (arith, t.none_lost q);
            current_runs = λ q h. absurd (ground (arith, idle, h));
            same = λ c h. absurd (ground (arith, idle, t.same c h));
            stopped_once = (ground (arith, t.stopped_started s.next), t.stopped_once);
            stopped_started = λ q i. ground (arith, t.stopped_started q);
            exited_started = λ q i. ground (arith, t.exited_started q);
            shut = t.shut;
          })
    | inl connected ↦
        simp (spawned, connected)
          (record {
            none_lost = λ q h. ground (arith, t.none_lost q);
            current_runs = λ q h. ground (arith, h, t.stopped_started q);
            same = λ c h. h;
            stopped_once = t.stopped_once;
            stopped_started = λ q i. ground (arith, t.stopped_started q);
            exited_started = λ q i. ground (arith, t.exited_started q);
            shut = λ h. absurd (ground (arith, live, h));
          })
  ]
]

pub discard_old-Tidy : (o : Option ℕ) (s : State) → Tidy s → Tidy (discard_old o s)
unfolding discard_old
discard_old-Tidy none s t = t
discard_old-Tidy (some p) s t = discard-Tidy s t

-- After the old process is discarded there is none, and the backend is as open as before.
pub discard_old-idle :
    (s : State) → ((discard_old s.proc s).proc ≡ none) × ((discard_old s.proc s).closed ≡ s.closed)
unfolding discard_old discard
discard_old-idle s = elim (Option-cases s.proc) [
  | inl idle ↦ simp idle (refl, refl)
  | inr (p, e) ↦ simp e (refl, refl)
]

session_of-Tidy :
    (a : Start) (s : State) (live : Option (ℕ × ℕ))
    → s.closed ≡ false
    → Tidy s
    → Tidy (session_of a s live).0
unfolding session_of
session_of-Tidy a s (some live) h t = t
session_of-Tidy a s none h t =
    let (idle, same) = discard_old-idle s in
    start-Tidy a (discard_old s.proc s) idle (same ∙ h) (discard_old-Tidy s.proc s t)

session-Tidy : (a : Start) (s : State) → Tidy s → Tidy (session a s).0
unfolding session
session-Tidy a s t = elim (Bool-cases s.closed) [
  | inl shut ↦ simp shut t
  | inr live ↦ simp live (session_of-Tidy a s (serving s.proc s.conn s.exited) live t)
]

pub step-Tidy : (c : Command) (s : State) → Tidy s → Tidy (step c s)
unfolding step
step-Tidy (opens a) s t = session-Tidy a s t
step-Tidy (classifies p lost) s t = classify-Tidy p lost s t
step-Tidy closes s t = close-Tidy s t
step-Tidy (exits p) s t = elim (Bool-cases (ltb p s.next)) [
  | inl started ↦ rw started (exit-Tidy p s (ltb→lt p s.next started) t)
  | inr unknown ↦ rw unknown t
]

pub run-Tidy : (cs : List Command) (s : State) → Tidy s → Tidy (run cs s)
unfolding run
run-Tidy [] s t = t
run-Tidy (c ∷ cs) s t = run-Tidy cs (step c s) (step-Tidy c s t)

-- After any history, each process that was started is the current one or was stopped, no process is
-- stopped twice, the current one was not stopped, the session is over the current process, and a
-- closed backend has no process.
pub history-Tidy : (cs : List Command) → Tidy (run cs new_backend)
history-Tidy cs = run-Tidy cs new_backend new_backend-Tidy
