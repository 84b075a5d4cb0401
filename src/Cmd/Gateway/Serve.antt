-- ===== src/Cmd/Gateway/Serve.antt =====
-- cmd/mcp-reverse-proxy/gateway.go, `serve`: from the open listener to the closed pool. Opening and
-- announcing the listener come before; there is nothing to stop if they fail. HTTP's server is part of
-- the environment, which takes the steps that its documentation allows: it takes no request after
-- `Shutdown` is called, and `Shutdown` returns without an error only once none is in flight.
use mcp_reverse_proxy.Prelude.{
  ℕ, suc, ◌≡◌, refl, ◌≢◌, ◌⊎◌, Bool, true, false, ◌&&◌, Option, none, some, arith, if◌then◌else◌,
  ◌==◌, nat_eq,
}

pub data Phase : Type 0 where
  serving : Phase
  draining : Phase
  closed : Phase

-- The error that `serve` returns.
pub data ServeError : Type 0 where
  server_failed : ServeError
  grace_over : ServeError
  pool_failed : ServeError

-- `cut` is how many requests were in flight when the pool was closed.
pub record Service : Type 0 where
  pub phase : Phase
  pub in_flight : ℕ
  pub cut : ℕ
  pub error : Option ServeError

-- The server runs in its goroutine, and `serve` is at its select.
unfoldable pub started : Service
started = record { phase = serving; in_flight = 0; cut = 0; error = none }

-- `g.pool.Close`, and the return.
unfoldable pub close_pool : Option ServeError → Service → Service
close_pool e s = record s { phase = closed; cut = s.in_flight; error = e }

-- The case of `ctx.Done`: `server.Shutdown` is called.
unfoldable pub on_signal : Service → Service
on_signal s = record s { phase = draining }

-- `errors.Join` of the errors of `server.Shutdown` and of closing the pool; the first stands for both.
unfoldable pub joined : Option ServeError → Bool → Option ServeError
joined (some e) pool_fails = some e
joined none pool_fails = if pool_fails then some pool_failed else none

-- What follows the return of `server.Shutdown`.
unfoldable pub on_shutdown : Option ServeError → Bool → Service → Service
on_shutdown e pool_fails s = close_pool (joined e pool_fails) s

-- The case of an error of `server.Serve`.
unfoldable pub on_failure : Service → Service
on_failure s = close_pool (some server_failed) s

pub data Step (s : Service) : Service → Type 0 where
  arrives : s.phase ≡ serving → Step s (record s { in_flight = suc s.in_flight })
  finishes : (n : ℕ) → s.in_flight ≡ suc n → Step s (record s { in_flight = n })
  signalled : s.phase ≡ serving → Step s (on_signal s)
  drained :
      (pool_fails : Bool)
      → s.phase ≡ draining
      → s.in_flight ≡ 0
      → Step s (on_shutdown none pool_fails s)
  grace_ends :
      (pool_fails : Bool) → s.phase ≡ draining → Step s (on_shutdown (some grace_over) pool_fails s)
  server_fails : s.phase ≡ serving → Step s (on_failure s)

pub data Reach : Service → Type 0 where
  here : Reach started
  next : {s t : Service} → Reach s → Step s t → Reach t

-- How a service may stand, by its phase and its error.
stands_in : Phase → Option ServeError → ℕ → ℕ → Bool
stands_in serving none cut n = cut == 0
stands_in serving (some e) cut n = false
stands_in draining none cut n = cut == 0
stands_in draining (some e) cut n = false
stands_in closed none cut n = (cut == 0) && (n == 0)
stands_in closed (some e) cut n = true

stands : Service → Bool
unfolding stands_in
stands s = stands_in s.phase s.error s.cut s.in_flight

Step-stands : {s t : Service} → Step s t → stands s ≡ true → stands t ≡ true
unfolding stands on_signal on_shutdown on_failure close_pool joined
Step-stands (arrives e) h = ground (arith, e, h)
Step-stands (finishes n e) h = ground (arith, e, h)
Step-stands (signalled e) h = ground (arith, e, h)
Step-stands (drained true e d) h = refl
Step-stands (drained false e d) h = ground (arith, e, d, h)
Step-stands (grace_ends pool_fails e) h = refl
Step-stands (server_fails e) h = refl

Reach-stands : {s : Service} → Reach s → stands s ≡ true
unfolding stands started
Reach-stands here = refl
Reach-stands (next r st) = Step-stands st (Reach-stands r)

-- If the gateway reports no error then, in whatever order requests arrive and end, the signal comes
-- and the time passes, closing the pool cut no request off, and once it is closed no request is in
-- flight.
pub Reach-graceful :
    {s : Service}
    → Reach s
    → s.error ≡ none
    → (s.cut ≡ 0) × ((s.phase ≢ closed) ⊎ (s.in_flight ≡ 0))
unfolding stands
Reach-graceful {s} r h = ground (arith, h, Reach-stands r)
