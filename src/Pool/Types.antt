-- ===== src/Pool/Types.antt =====
-- internal/pool/pool.go: the pool's state. The mutex makes each operation one step; the clock's
-- reading is an argument of the operation that takes it. An entry is an object that the pool and
-- the requests it serves share: `ref` is its address, `entries` holds the objects that the map
-- names, and `detached` those that it no longer names and that a caller may still hold.
use mcp_reverse_proxy.Prelude.{
  ℕ, ◌≡◌, ◌↔◌, Bool, true, ◌&&◌, List, arith, Decides, ◌==◌, nat_eq, list_beq_iff, list_eq, Bytes,
}
use mcp_reverse_proxy.Prelude.Maps.{Map}
use mcp_reverse_proxy.Config.Types.{Server, Limits}
use mcp_reverse_proxy.Pool.Listeners.{Listeners}

pub record Key : Type 0 where
  pub subject : Bytes
  pub fingerprint : Bytes

unfoldable pub key_beq : Key → Key → Bool
key_beq a b = (a.subject == b.subject) && (a.fingerprint == b.fingerprint)

pub key_beq_iff : (a b : Key) → (key_beq a b ≡ true) ↔ (a ≡ b)
unfolding key_beq
key_beq_iff a b =
    ground (arith, list_beq_iff a.subject b.subject, list_beq_iff a.fingerprint b.fingerprint)

instance abbrev pub key_eq : Decides Key
key_eq = record { eqb = key_beq; eqb_iff = key_beq_iff }

-- `inflight` counts the requests that hold the entry; only a holder lowers it.
pub record Entry (F : Type 0) : Type 0 where
  pub ref : ℕ
  pub key : Key
  pub server : Server
  pub backend : Listeners F
  pub last_used : ℕ
  pub inflight : ℕ
  pub releases : Map ℕ ℕ

-- The counters are `uint64`.
pub record Stats : Type 0 where
  pub size : ℕ
  pub created : ℕ
  pub evicted : ℕ
  pub idle_expired : ℕ
  pub rejected : ℕ

pub record Pool (F : Type 0) : Type 0 where
  pub limits : Limits
  pub entries : List (Entry F)
  pub detached : List (Entry F)
  pub per_subject : Map Bytes ℕ
  pub listeners : Map Key (Map ℕ F)
  pub next_listen : ℕ
  pub stats : Stats
  pub closed : Bool
  pub next_ref : ℕ

pub data PoolError : Type 0 where
  pool_closed : PoolError
  subject_quota_exhausted : PoolError
  pool_exhausted : PoolError
