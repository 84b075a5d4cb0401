-- ===== src/Pool/Ops/Evictions.antt =====
-- Whom `tryAcquire` evicts.
use mcp_reverse_proxy.Prelude.{
  ℕ, suc, ◌≤◌, ◌≡◌, sym, ◌∙◌, subst, true, false, some, List, [], arith, ok, nat_eq, list_eq,
  ==-refl, length, All, contains, Distinct, In,
}
use mcp_reverse_proxy.Prelude.Int.{ℤ, pos, negsuc, pos_part, reaches}
use mcp_reverse_proxy.Config.Types.{Server}
use mcp_reverse_proxy.Pool.Types.{key_beq_iff, Key, key_eq, key_beq, Entry, Pool}
use mcp_reverse_proxy.Pool.Entries.{remove_entry}
use mcp_reverse_proxy.Pool.Counts.{
  remove_absent, keys_of, contains-remove, In-contains, count-remove,
}
use mcp_reverse_proxy.Pool.Eviction.{Idler}
use mcp_reverse_proxy.Pool.Ops.{Acquired, detach, insert_entry, fresh_entry, try_acquire, evicting}
use mcp_reverse_proxy.Pool.Ops.Invariant.{Inv}
use mcp_reverse_proxy.Pool.Ops.Outcomes.{
  Outcome, was_closed, was_there, over_quota, all_busy, evicted, started, try_acquire-Outcome,
}

reached : (n : ℕ) (z : ℤ) → reaches n z ≡ true → pos_part z ≤ n
reached n (pos z) h = ground arith
reached n (negsuc z) h = omega arith

module _ {F : Type 0} where
  -- The list of entries after the entry `x` made room for the key `k`.
  after_eviction :
      (k : Key) (x : Entry F) (es : List (Entry F))
      → Distinct (keys_of es)
      → In x es
      → contains (keys_of es) k ≡ false
      → (key_beq k x.key ≡ false)
        × (contains (keys_of (remove_entry k (remove_entry x.key es))) x.key ≡ false)
        × (suc (length (remove_entry k (remove_entry x.key es))) ≡ length es)
  after_eviction k x es d i new =
      let there = In-contains x es i in
      let gone : contains (keys_of (remove_entry x.key es)) k ≡ false =
        contains-remove x.key k es ∙ ground (arith, new) in
      rw (remove_absent k (remove_entry x.key es) gone) (
        ground (arith, key_beq_iff k x.key, there, new),
        contains-remove x.key x.key es ∙ rw (==-refl x.key),
        sym (count-remove x.key [] es d there).0,
      )

  Outcome-victim :
      (k : Key) (server : Server) (now : ℕ) (p : Pool F) (a : Acquired F) (r : ℕ) (v : Entry F)
      → Inv p
      → Outcome k server now p a
      → a.1 ≡ ok (r, some v)
      → In v p.entries
        × (v.inflight ≡ 0)
        × All (Idler v) p.entries
        × (contains (keys_of a.0.entries) v.key ≡ false)
        × (length a.0.entries ≡ length p.entries)
        × (pos_part p.limits.max_processes ≤ length p.entries)
  Outcome-victim k server now p a r v inv (was_closed _) h = cc
  Outcome-victim k server now p a r v inv (was_there e _ f same _) h = cc
  Outcome-victim k server now p a r v inv (over_quota _ _ _) h = cc
  Outcome-victim k server now p a r v inv (all_busy _ _ _ _ _) h = cc
  Outcome-victim k server now p a r v inv (evicted x _ new _ crowded i idle least) h =
      let same : x ≡ v = ground arith in
      let (other, gone, size) = after_eviction k x p.entries inv.keys_distinct i new in
      subst
        (λ w.
          In w p.entries
          × (w.inflight ≡ 0)
          × All (Idler w) p.entries
          × (contains (keys_of (insert_entry k server now (evicting x p)).entries) w.key ≡ false)
          × (length (insert_entry k server now (evicting x p)).entries ≡ length p.entries)
          × (pos_part p.limits.max_processes ≤ length p.entries))
        same
        (unfold insert_entry fresh_entry evicting detach in
          (
            i,
            idle,
            least,
            rw (other, gone),
            size,
            reached (length p.entries) p.limits.max_processes crowded,
          ))
  Outcome-victim k server now p a r v inv (started _ _ _ _) h = cc

  -- An entry is evicted only when the pool is full; it is one that serves no request, and no other
  -- idle entry was used before it. Its key has no entry afterwards, and the pool is as full as before.
  pub try_acquire_victim :
      (k : Key) (server : Server) (now : ℕ) (p : Pool F) (r : ℕ) (v : Entry F)
      → Inv p
      → (try_acquire k server now p).1 ≡ ok (r, some v)
      → In v p.entries
        × (v.inflight ≡ 0)
        × All (Idler v) p.entries
        × (contains (keys_of (try_acquire k server now p).0.entries) v.key ≡ false)
        × (length (try_acquire k server now p).0.entries ≡ length p.entries)
        × (pos_part p.limits.max_processes ≤ length p.entries)
  try_acquire_victim k server now p r v inv =
      Outcome-victim k server now p _ r v inv (try_acquire-Outcome k server now p)
