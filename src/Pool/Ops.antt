-- ===== src/Pool/Ops.antt =====
-- internal/pool/pool.go: the operations.
pub mod Invariant
pub mod History
pub mod Outcomes
pub mod Evictions
pub mod Refusals
pub mod Subscriptions
use mcp_reverse_proxy.Prelude.{
  ℕ, suc, ◌+◌, ◌-◌, Bool, true, false, ◌&&◌, Option, none, some, List, [], ◌∷◌, ◌++◌, if◌then◌else◌,
  Result, ok, err, ◌==◌, nat_eq, list_eq, length, select,
}
use mcp_reverse_proxy.Prelude.Int.{reaches, elapsed}
use mcp_reverse_proxy.Prelude.Maps.{Map, lookup, insert, delete}
use mcp_reverse_proxy.Config.Types.{Server, Limits}
use mcp_reverse_proxy.Pool.Listeners.{Listeners, silent}
use mcp_reverse_proxy.Pool.Listeners
use mcp_reverse_proxy.Pool.Types.{
  Key, key_eq, Entry, Stats, Pool, PoolError, pool_closed, subject_quota_exhausted, pool_exhausted,
}
use mcp_reverse_proxy.Pool.Entries.{
  bump, value_or_zero, all_of, find_entry, remove_entry, update_ref, update_key, lower, raise,
  least_recently_used,
}

-- What `tryAcquire` returns: the address of the entry to serve from, and the entry to stop.
abbrev pub Acquired : Type 0 → Type 0
Acquired F = Pool F × Result PoolError (ℕ × Option (Entry F))

module _ {F : Type 0} where
  -- `New`: nothing runs yet.
  unfoldable pub new_pool : Limits → Pool F
  new_pool l = record {
    limits = l;
    entries = [];
    detached = [];
    per_subject = [];
    listeners = [];
    next_listen = 0;
    stats = record { size = 0; created = 0; evicted = 0; idle_expired = 0; rejected = 0 };
    closed = false;
    next_ref = 0;
  }

  -- `detachLocked`: the caller holds the entry from here on.
  unfoldable pub detach : Entry F → Pool F → Pool F
  detach e p = record p {
    entries = remove_entry e.key p.entries;
    detached = e ∷ p.detached;
    per_subject = lower e.key.subject p.per_subject;
  }

  -- The loop of `insertLocked`: whoever listened for the key listens to the new backend.
  attach : Map ℕ F → Listeners F → Map ℕ ℕ → Listeners F × Map ℕ ℕ
  attach [] b releases = (b, releases)
  attach ((id, f) ∷ m) b releases =
      attach m (Listeners.subscribe f b).0 (insert id (Listeners.subscribe f b).1 releases)

  -- The entry that `insertLocked` starts, already busy.
  unfoldable pub fresh_entry : Key → Server → ℕ → Pool F → Entry F
  unfolding attach
  fresh_entry k server now p = record {
    ref = p.next_ref;
    key = k;
    server = server;
    backend = (attach (all_of (lookup k p.listeners)) silent []).0;
    last_used = now;
    inflight = 1;
    releases = (attach (all_of (lookup k p.listeners)) silent []).1;
  }

  -- `insertLocked`.
  unfoldable pub insert_entry : Key → Server → ℕ → Pool F → Pool F
  insert_entry k server now p = record p {
    entries = fresh_entry k server now p ∷ remove_entry k p.entries;
    per_subject = raise k.subject p.per_subject;
    stats = record (p.stats) { created = bump p.stats.created };
    next_ref = suc p.next_ref;
  }

  -- The request's touch on an entry that is there already.
  pub touch : ℕ → Entry F → Entry F
  touch now e = record e { last_used = now; inflight = e.inflight + 1 }

  pub reject : Pool F → Pool F
  reject p = record p { stats = record (p.stats) { rejected = bump p.stats.rejected } }

  pub evicting : Entry F → Pool F → Pool F
  evicting v p = record (detach v p) { stats = record (p.stats) { evicted = bump p.stats.evicted } }

  -- The end of `tryAcquire`, for a key that has no entry.
  start : Key → Server → ℕ → Pool F → Acquired F
  start k server now p =
      if reaches (value_or_zero (lookup k.subject p.per_subject)) p.limits.max_processes_per_subject
      then (reject p, err subject_quota_exhausted)
      else if reaches (length p.entries) p.limits.max_processes
      then elim (least_recently_used p.entries) [
        | none ↦ (reject p, err pool_exhausted)
        | some v ↦ (insert_entry k server now (evicting v p), ok (p.next_ref, some v))
      ]
      else (insert_entry k server now p, ok (p.next_ref, none))

  -- `tryAcquire`.
  unfoldable pub try_acquire : Key → Server → ℕ → Pool F → Acquired F
  unfolding start touch reject evicting
  try_acquire k server now p =
      if p.closed then (p, err pool_closed) else elim (find_entry k p.entries) [
        | some e ↦ (record p { entries = update_ref e.ref (touch now) p.entries }, ok (e.ref, none))
        | none ↦ start k server now p
      ]

  finish : ℕ → Entry F → Entry F
  finish now e = record e { inflight = e.inflight - 1; last_used = now }

  -- `Pool.release`, on the entry at an address, wherever it is by then.
  unfoldable pub release : ℕ → ℕ → Pool F → Pool F
  unfolding finish
  release r now p = record p {
    entries = update_ref r (finish now) p.entries;
    detached = update_ref r (finish now) p.detached;
  }

  is_stale : Limits → ℕ → Entry F → Bool
  is_stale l now e = (e.inflight == 0) && elapsed now e.last_used l.idle_ttl

  -- One round of the loop of `expired`.
  expire_one : ℕ → Entry F → Pool F → Pool F
  expire_one now e p =
      if is_stale p.limits now e
      then record (detach e p) {
        stats = record (p.stats) { idle_expired = bump p.stats.idle_expired };
      }
      else p

  -- The loop, over the entries that the map held when it began.
  expire_each : ℕ → List (Entry F) → Pool F → Pool F
  expire_each now [] p = p
  expire_each now (e ∷ es) p = expire_each now es (expire_one now e p)

  -- `expired`: the new pool, and the entries for the caller to stop.
  unfoldable pub expired : ℕ → Pool F → Pool F × List (Entry F)
  unfolding is_stale expire_one expire_each
  expired now p =
      if p.closed
      then (p, [])
      else (expire_each now p.entries p, select (is_stale p.limits now) p.entries)

  -- `Stats`.
  unfoldable pub stats_of : Pool F → Stats
  stats_of p = record (p.stats) { size = length p.entries }

  -- `Close`: the new pool, and the backends that it stops.
  unfoldable pub close : Pool F → Pool F × List (Entry F)
  close p = if p.closed then (p, []) else (
    record p { closed = true; entries = []; per_subject = []; detached = p.entries ++ p.detached },
    p.entries,
  )

  listen_on : ℕ → F → Entry F → Entry F
  listen_on id f e = record e {
    backend = (Listeners.subscribe f e.backend).0;
    releases = insert id (Listeners.subscribe f e.backend).1 e.releases;
  }

  -- `subscribe`: the number stands for the release that it returns, `unsubscribe k` of it.
  unfoldable pub subscribe : Key → F → Pool F → Pool F × ℕ
  unfolding listen_on
  subscribe k f p = (
    record p {
      next_listen = suc p.next_listen;
      listeners = insert k (insert p.next_listen f (all_of (lookup k p.listeners))) p.listeners;
      entries = update_key k (listen_on p.next_listen f) p.entries;
    },
    p.next_listen,
  )

  forget_on : ℕ → Entry F → Entry F
  forget_on id e = elim (lookup id e.releases) [
    | none ↦ e
    | some b ↦ record e { backend = Listeners.release b e.backend; releases = delete id e.releases }
  ]

  -- `delete(p.listeners, k)` once nobody listens for the key.
  put_or_drop : Key → Map ℕ F → Map Key (Map ℕ F) → Map Key (Map ℕ F)
  put_or_drop k [] m = delete k m
  put_or_drop k (l ∷ ls) m = insert k (l ∷ ls) m

  drop_listener : Key → ℕ → Map Key (Map ℕ F) → Map Key (Map ℕ F)
  drop_listener k id m = put_or_drop k (delete id (all_of (lookup k m))) m

  -- `unsubscribe`.
  unfoldable pub unsubscribe : Key → ℕ → Pool F → Pool F
  unfolding forget_on drop_listener put_or_drop
  unsubscribe k id p = record p {
    listeners = drop_listener k id p.listeners;
    entries = update_key k (forget_on id) p.entries;
  }
