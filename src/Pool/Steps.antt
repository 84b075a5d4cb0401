-- ===== src/Pool/Steps.antt =====
-- internal/pool: the pool's histories. An operation holds the mutex, so a history is a sequence of
-- operations in any order.
use mcp_reverse_proxy.Prelude.{ℕ, List, ◌∷◌, nat_eq, list_eq}
use mcp_reverse_proxy.Config.Types.{Server, Limits}
use mcp_reverse_proxy.Pool.Types.{Key, Entry, Pool}
use mcp_reverse_proxy.Pool.Ops.{
  new_pool, try_acquire, release, expired, close, subscribe, unsubscribe,
}

-- A call of the pool by one of its clients, with the clock's reading where the code takes it.
pub data Command (F : Type 0) : Type 0 where
  acquires : Key → Server → ℕ → Command F
  releases : ℕ → ℕ → Command F
  reaps : ℕ → Command F
  closes : Command F
  subscribes : Key → F → Command F
  unsubscribes : Key → ℕ → Command F

module _ {F : Type 0} where
  unfoldable pub step : Command F → Pool F → Pool F
  step (acquires k server now) p = (try_acquire k server now p).0
  step (releases r now) p = release r now p
  step (reaps now) p = (expired now p).0
  step closes p = (close p).0
  step (subscribes k f) p = (subscribe k f p).0
  step (unsubscribes k id) p = unsubscribe k id p

  -- Go leaves the order of a map open: neighbours may change places at any time.
  pub data Reorder : List (Entry F) → List (Entry F) → Type 0 where
    swap : (x y : Entry F) (es : List (Entry F)) → Reorder (x ∷ y ∷ es) (y ∷ x ∷ es)
    below : (x : Entry F) {es fs : List (Entry F)} → Reorder es fs → Reorder (x ∷ es) (x ∷ fs)

  pub data Reach (l : Limits) : Pool F → Type 0 where
    start_up : Reach l (new_pool l)
    call : {p : Pool F} → Reach l p → (c : Command F) → Reach l (step c p)
    reorder :
        {p : Pool F} {es : List (Entry F)}
        → Reach l p
        → Reorder p.entries es
        → Reach l (record p { entries = es })
