-- ===== src/Pool/Ops/Subscriptions.antt =====
-- internal/pool/pool.go: a subscription lasts from `subscribe` to its release, whatever becomes of the
-- backends meanwhile.
use mcp_reverse_proxy.Prelude.{
  ℕ, suc, ◌≡◌, ◌&&◌, Option, none, some, List, [], ◌∷◌, if◌then◌else◌, ◌==◌, nat_eq, list_eq,
}
use mcp_reverse_proxy.Prelude.Maps.{lookup}
use mcp_reverse_proxy.Config.Types.{Limits}
use mcp_reverse_proxy.Pool.Types.{Key, key_eq, Entry, Pool}
use mcp_reverse_proxy.Pool.Entries.{all_of}
use mcp_reverse_proxy.Pool.Ops.{new_pool}
use mcp_reverse_proxy.Pool.Steps.{Command, subscribes, unsubscribes, step, Reorder}

-- What the clients want, and how many subscriptions they have made.
pub record Wanted (F : Type 0) : Type 0 where
  pub who : Key → ℕ → Option F
  pub made : ℕ

module _ {F : Type 0} where
  -- Whom the pool has listening for a key, by the number of the subscription.
  unfoldable pub listening : Key → ℕ → Pool F → Option F
  listening k id p = lookup id (all_of (lookup k p.listeners))

  unfoldable pub nobody : Wanted F
  nobody = record { who = λ k id. none; made = 0 }

  unfoldable pub wanted_after : Command F → Wanted F → Wanted F
  wanted_after (subscribes k f) w = record {
    who = λ j id. if (k == j) && (w.made == id) then some f else w.who j id;
    made = suc w.made;
  }
  wanted_after (unsubscribes k n) w = record w {
    who = λ j id. if (k == j) && (n == id) then none else w.who j id;
  }
  wanted_after c w = w

  -- A history of the pool, the latest call first; the order of its map may change at any time.
  pub data Ran (l : Limits) : List (Command F) → Pool F → Type 0 where
    opened : Ran l [] (new_pool l)
    called :
        {cs : List (Command F)} {p : Pool F}
        → Ran l cs p
        → (c : Command F) → Ran l (c ∷ cs) (step c p)
    reordered :
        {cs : List (Command F)} {p : Pool F} {es : List (Entry F)}
        → Ran l cs p
        → Reorder p.entries es
        → Ran l cs (record p { entries = es })

  unfoldable pub wanted : List (Command F) → Wanted F
  wanted [] = nobody
  wanted (c ∷ cs) = wanted_after c (wanted cs)

  -- Neither pool has another listener.
  abbrev Same : Pool F → Pool F → Type 0
  Same p q = (q.listeners ≡ p.listeners) × (q.next_listen ≡ p.next_listen)

  -- The pool listens for whom its clients want.
  abbrev Heard : Pool F → Wanted F → Type 0
  Heard p w = ((k : Key) (id : ℕ) → listening k id p ≡ w.who k id) × (p.next_listen ≡ w.made)
