-- ===== src/Pool/Lifecycle/Sessions.antt =====
-- internal/pool/backend.go: which process serves a request.
use mcp_reverse_proxy.Prelude.{
  ℕ, suc, ◌<◌, ◌≡◌, refl, ◌∙◌, subst, ◌⊎◌, inl, inr, Bool, true, false, not, ◌&&◌, Option, none,
  some, List, [], ◌∷◌, arith, Bool-cases, ok, err, nat_eq, list_eq, ==-refl, contains,
}
use mcp_reverse_proxy.Pool.Lifecycle.{
  State, Start, Session, new_backend, discard, session, classify, close, exit, backend_closed,
  start, discard_old, serving, session_of, stop_current, is_current,
}
use mcp_reverse_proxy.Pool.Lifecycle.Invariant.{
  close-Tidy, discard_old-Tidy, discard_old-idle, Command, opens, classifies, closes, exits, step,
  run, Tidy, run-Tidy, history-Tidy,
}

-- What `session` hands out: the current process, which has neither exited nor been stopped, with
-- the session over it.
pub record Serves (s : State) (c p : ℕ) : Type 0 where
  pub over_it : c ≡ p
  pub current : s.proc ≡ some p
  pub connected : s.conn ≡ some c
  pub live : contains s.exited p ≡ false
  pub unstopped : contains s.stopped p ≡ false
  pub open_backend : s.closed ≡ false

Outcome : Session → Type 0
Outcome (s, ok (c, p)) = Serves s c p
Outcome (s, err e) = Unit

start-Outcome : (a : Start) (s : State) → s.closed ≡ false → Tidy s → Outcome (start a s)
unfolding start Outcome
start-Outcome a s live t = elim (Bool-cases a.spawns) [
  | inr fails ↦ simp fails tt
  | inl spawned ↦ elim (Bool-cases a.connects) [
    | inr fails ↦ simp (spawned, fails) tt
    | inl connected ↦
        simp (spawned, connected)
          (record {
            over_it = refl;
            current = refl;
            connected = refl;
            live = ground (arith, t.exited_started s.next);
            unstopped = ground (arith, t.stopped_started s.next);
            open_backend = live;
          })
  ]
]

serving-some :
    (proc conn : Option ℕ) (exited : List ℕ) (c p : ℕ)
    → serving proc conn exited ≡ some (c, p)
    → (proc ≡ some p) × (conn ≡ some c) × (contains exited p ≡ false)
unfolding serving
serving-some none conn exited c p h = cc
serving-some (some q) none exited c p h = cc
serving-some (some q) (some d) exited c p h = elim (Bool-cases (contains exited q)) [
  | inl gone ↦ ground (arith, gone, h)
  | inr live ↦ ground (arith, live, h)
]

session_of-Outcome :
    (a : Start) (s : State) (o : Option (ℕ × ℕ))
    → serving s.proc s.conn s.exited ≡ o
    → s.closed ≡ false
    → Tidy s
    → Outcome (session_of a s o)
unfolding session_of Outcome
session_of-Outcome a s (some (c, p)) e live t =
    let (current, connected, alive) = serving-some s.proc s.conn s.exited c p e in
    record {
      over_it = ground (arith, t.same c connected, current);
      current = current;
      connected = connected;
      live = alive;
      unstopped = (t.current_runs p current).1;
      open_backend = live;
    }
session_of-Outcome a s none e live t =
    let (_, same) = discard_old-idle s in
    start-Outcome a (discard_old s.proc s) (same ∙ live) (discard_old-Tidy s.proc s t)

session-Outcome : (a : Start) (s : State) → Tidy s → Outcome (session a s)
unfolding session Outcome
session-Outcome a s t = elim (Bool-cases s.closed) [
  | inl shut ↦ simp shut tt
  | inr live ↦ simp live (session_of-Outcome a s (serving s.proc s.conn s.exited) refl live t)
]

-- After any history, a session that is handed out is over the current process, which has neither
-- exited nor been stopped, and the backend is open.
pub session-Serves :
    (cs : List Command) (a : Start) {s : State} (c p : ℕ)
    → session a (run cs new_backend) ≡ (s, ok (c, p))
    → Serves s c p
unfolding Outcome
session-Serves cs a {s} c p h =
    subst Outcome h (session-Outcome a (run cs new_backend) (history-Tidy cs))

-- A start that succeeds.
abbrev pub succeeds : Start
succeeds = record { spawns = true; connects = true }

start-succeeds :
    (s : State)
    → start succeeds s ≡ (
      record s { proc = some s.next; conn = some s.next; next = suc s.next },
      ok (s.next, s.next),
    )
unfolding start
start-succeeds s = refl

-- A backend whose process cannot serve starts another, once the old one is stopped.
replaced :
    (p : ℕ) (s : State)
    → s.closed ≡ false
    → s.proc ≡ some p
    → serving s.proc s.conn s.exited ≡ none
    → ((session succeeds s).1 ≡ ok (s.next, s.next))
      × (contains (session succeeds s).0.stopped p ≡ true)
unfolding session session_of discard_old discard stop_current start
replaced p s live current idle = simp (live, idle) (simp current (refl, ground (arith, ==-refl p)))

classify_current :
    (p : ℕ) (lost : Bool) (s : State)
    → s.proc ≡ some p
    → (contains s.exited p ≡ true) ⊎ (lost ≡ true)
    → classify p lost s ≡ (record s { conn = none }, true)
unfolding classify is_current
classify_current p lost s current why =
    let gone : (not (contains s.exited p) && not lost) ≡ false = ground (arith, why) in
    let it : is_current s.proc p ≡ true = rw current (==-refl p) in simp (gone, it) refl

-- A request that fails on the current process of an open backend, which is seen to have exited or
-- whose connection was lost, is told to be repeated; the next one then finds a process started for
-- it, with the old one stopped, if the start succeeds.
pub retry_starts_fresh :
    (p : ℕ) (lost : Bool) (s : State)
    → s.closed ≡ false
    → s.proc ≡ some p
    → (contains s.exited p ≡ true) ⊎ (lost ≡ true)
    → let (after, retry) = classify p lost s in
      (retry ≡ true)
      × ((session succeeds after).1 ≡ ok (s.next, s.next))
      × (contains (session succeeds after).0.stopped p ≡ true)
unfolding serving
retry_starts_fresh p lost s live current why =
    let (fresh, stopped) = replaced p (record s { conn = none }) live current (rw current refl) in
    rw (classify_current p lost s current why) (refl, fresh, stopped)

step_closed :
    (c : Command) (s : State)
    → s.closed ≡ true
    → ((step c s).next ≡ s.next) × ((step c s).closed ≡ true)
unfolding step session classify close discard exit
step_closed (opens a) s h = ground (arith, h)
step_closed (classifies p lost) s h = ground (arith, h)
step_closed closes s h = (refl, refl)
step_closed (exits p) s h = ground (arith, h)

run_closed :
    (cs : List Command) (s : State)
    → s.closed ≡ true
    → ((run cs s).next ≡ s.next) × ((run cs s).closed ≡ true)
unfolding run
run_closed [] s h = (refl, h)
run_closed (c ∷ cs) s h =
    let (same, shut) = step_closed c s h in
    let (later, still) = run_closed cs (step c s) shut in (later ∙ same, still)

stopped_when_idle :
    (s : State) (p : ℕ) → Tidy s → s.proc ≡ none → p < s.next → contains s.stopped p ≡ true
stopped_when_idle s p t idle h = ground (arith, t.none_lost p h, idle)

-- Once a backend is closed, whatever happens next, every process that it ever started has been
-- stopped, it starts no other, and it refuses every request for a session.
pub closed_for_good :
    (cs later : List Command) (a : Start) (p : ℕ)
    → p < (run cs new_backend).next
    → let s = run later (close (run cs new_backend)) in
      (contains s.stopped p ≡ true)
      × (s.next ≡ (run cs new_backend).next)
      × (session a s ≡ (s, err backend_closed))
unfolding session close discard
closed_for_good cs later a p started =
    let before = close (run cs new_backend) in
    let (same, shut) = run_closed later before refl in
    let t = run-Tidy later before (close-Tidy (run cs new_backend) (history-Tidy cs)) in
    (
      stopped_when_idle (run later before) p t (t.shut shut) (omega (arith, same)),
      same,
      simp shut refl,
    )
