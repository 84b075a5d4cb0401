-- ===== src/Pool/Ops/Refusals.antt =====
-- When `tryAcquire` refuses a request.
use mcp_reverse_proxy.Prelude.{
  ℕ, ◌≡◌, refl, sym, subst, ◌↔◌, Bool, true, false, arith, err, nat_eq, list_eq, length, All,
  contains, All-In,
}
use mcp_reverse_proxy.Prelude.Int.{reaches}
use mcp_reverse_proxy.Config.Types.{Server}
use mcp_reverse_proxy.Pool.Types.{
  Key, key_eq, Pool, PoolError, pool_closed, subject_quota_exhausted, pool_exhausted,
}
use mcp_reverse_proxy.Pool.Entries.{value_or_zero}
use mcp_reverse_proxy.Prelude.Maps.{lookup}
use mcp_reverse_proxy.Pool.Counts.{keys_of, count_subject, In-contains}
use mcp_reverse_proxy.Pool.Eviction.{Busy}
use mcp_reverse_proxy.Pool.Ops.{Acquired, try_acquire}
use mcp_reverse_proxy.Pool.Ops.Invariant.{Inv}
use mcp_reverse_proxy.Pool.Ops.Outcomes.{
  Outcome, was_closed, was_there, over_quota, all_busy, evicted, started, try_acquire-Outcome,
}

module _ {F : Type 0} where
  -- Why a request is refused, when it is.
  abbrev pub Refused : Key → Pool F → PoolError → Type 0
  Refused k p pool_closed = p.closed ≡ true
  Refused k p subject_quota_exhausted =
      (p.closed ≡ false)
      × (contains (keys_of p.entries) k ≡ false)
      × (reaches (count_subject k.subject p.entries) p.limits.max_processes_per_subject ≡ true)
  Refused k p pool_exhausted =
      (p.closed ≡ false)
      × (contains (keys_of p.entries) k ≡ false)
      × (reaches (count_subject k.subject p.entries) p.limits.max_processes_per_subject ≡ false)
      × (reaches (length p.entries) p.limits.max_processes ≡ true)
      × All Busy p.entries

  -- The subject's limit is tested on the count that the pool keeps, which is exact.
  own_exact :
      (k : Key) (p : Pool F) (b : Bool)
      → Inv p
      → (reaches (value_or_zero (lookup k.subject p.per_subject)) p.limits.max_processes_per_subject
          ≡ b)
        ↔ (reaches (count_subject k.subject p.entries) p.limits.max_processes_per_subject ≡ b)
  own_exact k p b inv =
      let same = inv.counted k.subject in
      (
        subst (λ n. reaches n p.limits.max_processes_per_subject ≡ b) same,
        subst (λ n. reaches n p.limits.max_processes_per_subject ≡ b) (sym same),
      )

  Refused-why :
      (k : Key) (server : Server) (now : ℕ) (p : Pool F) (a : Acquired F) (e : PoolError)
      → Inv p
      → Outcome k server now p a
      → a.1 ≡ err e
      → Refused k p e
  Refused-why k server now p a pool_closed inv (was_closed shut) h = shut
  Refused-why k server now p a subject_quota_exhausted inv (over_quota live new full) h =
      (live, new, (own_exact k p true inv).0 full)
  Refused-why k server now p a pool_exhausted inv (all_busy live new free crowded busy) h =
      (live, new, (own_exact k p false inv).0 free, crowded, busy)
  Refused-why k server now p a e inv o h = cc

  Refused-when :
      (k : Key) (server : Server) (now : ℕ) (p : Pool F) (a : Acquired F) (e : PoolError)
      → Inv p
      → Outcome k server now p a
      → Refused k p e
      → a.1 ≡ err e
  Refused-when k server now p a pool_closed inv (was_closed shut) h = refl
  Refused-when k server now p a subject_quota_exhausted inv (over_quota live new full) h = refl
  Refused-when k server now p a pool_exhausted inv (all_busy live new free crowded busy) h = refl
  Refused-when k server now p a pool_exhausted inv (evicted v live new free crowded i idle least)
        h =
      absurd (omega (arith, All-In Busy v p.entries h.4 i, idle))
  Refused-when k server now p a pool_exhausted inv (over_quota live new full) h =
      let free = (own_exact k p false inv).1 h.2 in cc
  Refused-when k server now p a subject_quota_exhausted inv (all_busy live new free crowded busy)
        h =
      let full = (own_exact k p true inv).1 h.2 in cc
  Refused-when k server now p a subject_quota_exhausted inv
        (evicted v live new free crowded i idle least) h =
      let full = (own_exact k p true inv).1 h.2 in cc
  Refused-when k server now p a subject_quota_exhausted inv (started live new free roomy) h =
      let full = (own_exact k p true inv).1 h.2 in cc
  Refused-when k server now p a pool_closed inv (was_there x live f same i) h = cc
  Refused-when k server now p a subject_quota_exhausted inv (was_there x live f same i) h =
      cc (In-contains x p.entries i)
  Refused-when k server now p a pool_exhausted inv (was_there x live f same i) h =
      cc (In-contains x p.entries i)
  Refused-when k server now p a subject_quota_exhausted inv (was_closed shut) h = cc (sym shut, h.0)
  Refused-when k server now p a pool_exhausted inv (was_closed shut) h = cc (sym shut, h.0)
  Refused-when k server now p a pool_closed inv (over_quota live new full) h = cc (sym live, h)
  Refused-when k server now p a pool_closed inv (all_busy live new free crowded busy) h = cc
  Refused-when k server now p a pool_closed inv (evicted v live new free crowded i idle least) h =
      cc
  Refused-when k server now p a pool_closed inv (started live new free roomy) h = cc
  Refused-when k server now p a pool_exhausted inv (started live new free roomy) h = cc (h.3)

  -- A request is refused as closed exactly on a closed pool; for its subject's quota exactly on an
  -- open pool without an entry for the key, with the subject at its limit; and for want of a slot
  -- exactly on such a pool with the subject below its limit, the pool full and every entry serving
  -- a request.
  pub try_acquire_refusal :
      (k : Key) (server : Server) (now : ℕ) (p : Pool F) (e : PoolError)
      → Inv p
      → ((try_acquire k server now p).1 ≡ err e) ↔ Refused k p e
  try_acquire_refusal k server now p e inv =
      let o = try_acquire-Outcome k server now p in
      (Refused-why k server now p _ e inv o, Refused-when k server now p _ e inv o)
