-- ===== src/Pool/Ops/Outcomes.antt =====
-- The ways in which `tryAcquire` can end, and what it hands out.
use mcp_reverse_proxy.Prelude.{
  ℕ, ◌≡◌, refl, inl, inr, true, false, Option, none, some, List, [], ◌∷◌, arith, Bool-cases, ok,
  err, ◌==◌, nat_eq, list_eq, ==-refl, length, All, contains, In,
}
use mcp_reverse_proxy.Prelude.Int.{reaches}
use mcp_reverse_proxy.Config.Types.{Server}
use mcp_reverse_proxy.Pool.Types.{
  Key, key_eq, Entry, Pool, pool_closed, subject_quota_exhausted, pool_exhausted,
}
use mcp_reverse_proxy.Pool.Entries.{value_or_zero, find_entry, update_ref}
use mcp_reverse_proxy.Prelude.Maps.{lookup}
use mcp_reverse_proxy.Pool.Counts.{keys_of, find-contains}
use mcp_reverse_proxy.Pool.Eviction.{Busy, Idler, least_recently_used_cases}
use mcp_reverse_proxy.Pool.Ops.{
  Acquired, detach, insert_entry, fresh_entry, try_acquire, evicting, start, reject, touch,
}

module _ {F : Type 0} (k : Key) (server : Server) (now : ℕ) (p : Pool F) where
  abbrev own : ℕ
  own = value_or_zero (lookup k.subject p.per_subject)

  abbrev touched : Entry F → Pool F
  touched e = record p { entries = update_ref e.ref (touch now) p.entries }

  -- The ways in which `tryAcquire` can end.
  pub data Outcome : Acquired F → Type 0 where
    was_closed : p.closed ≡ true → Outcome (p, err pool_closed)
    was_there :
        (e : Entry F)
        → p.closed ≡ false
        → find_entry k p.entries ≡ some e
        → e.key ≡ k
        → In e p.entries
        → Outcome (touched e, ok (e.ref, none))
    over_quota :
        p.closed ≡ false
        → contains (keys_of p.entries) k ≡ false
        → reaches own p.limits.max_processes_per_subject ≡ true
        → Outcome (reject p, err subject_quota_exhausted)
    all_busy :
        p.closed ≡ false
        → contains (keys_of p.entries) k ≡ false
        → reaches own p.limits.max_processes_per_subject ≡ false
        → reaches (length p.entries) p.limits.max_processes ≡ true
        → All Busy p.entries
        → Outcome (reject p, err pool_exhausted)
    evicted :
        (v : Entry F)
        → p.closed ≡ false
        → contains (keys_of p.entries) k ≡ false
        → reaches own p.limits.max_processes_per_subject ≡ false
        → reaches (length p.entries) p.limits.max_processes ≡ true
        → In v p.entries
        → v.inflight ≡ 0
        → All (Idler v) p.entries
        → Outcome (insert_entry k server now (evicting v p), ok (p.next_ref, some v))
    started :
        p.closed ≡ false
        → contains (keys_of p.entries) k ≡ false
        → reaches own p.limits.max_processes_per_subject ≡ false
        → reaches (length p.entries) p.limits.max_processes ≡ false
        → Outcome (insert_entry k server now p, ok (p.next_ref, none))

  start-Outcome :
      p.closed ≡ false → contains (keys_of p.entries) k ≡ false → Outcome (start k server now p)
  unfolding start
  start-Outcome live new = elim (Bool-cases (reaches own p.limits.max_processes_per_subject)) [
    | inl full ↦ rw full (over_quota live new full)
    | inr free ↦ rw free (elim (Bool-cases (reaches (length p.entries) p.limits.max_processes)) [
      | inl crowded ↦ rw crowded (elim (least_recently_used_cases p.entries) [
        | inl (e, busy) ↦ rw e (all_busy live new free crowded busy)
        | inr (v, e, i, idle, least) ↦ rw e (evicted v live new free crowded i idle least)
      ])
      | inr roomy ↦ rw roomy (started live new free roomy)
    ])
  ]

  pub try_acquire-Outcome : Outcome (try_acquire k server now p)
  unfolding try_acquire
  try_acquire-Outcome = elim (Bool-cases p.closed) [
    | inl shut ↦ simp shut (was_closed shut)
    | inr live ↦ simp live (elim (find-contains k p.entries) [
      | inl (e, new) ↦ rw e (start-Outcome live new)
      | inr (x, e, same, i, _) ↦ rw e (was_there x live e same i)
    ])
  ]

module _ {F : Type 0} where
  find-update_ref :
      (k : Key) (now : ℕ) (e : Entry F) (es : List (Entry F))
      → find_entry k es ≡ some e
      → find_entry k (update_ref e.ref (touch now) es) ≡ some (touch now e)
  unfolding find_entry update_ref touch
  find-update_ref k now e [] h = cc
  find-update_ref k now e (x ∷ es) h = elim (Bool-cases (x.key == k)) [
    | inl same ↦ let it : x ≡ e = ground arith in ground (arith, ==-refl e.ref)
    | inr other ↦ ground (arith, find-update_ref k now e es)
  ]

  find_fresh :
      (k : Key) (server : Server) (now : ℕ) (p : Pool F)
      → find_entry k (insert_entry k server now p).entries ≡ some (fresh_entry k server now p)
  unfolding find_entry insert_entry fresh_entry
  find_fresh k server now p = rw (==-refl k)

  -- The entry stands under the key, at the address, and serves a request.
  abbrev pub Serves : Key → ℕ → Pool F → Type 0
  Serves k r q =
      (e : Entry F) × (find_entry k q.entries ≡ some e) × (e.key ≡ k) × (e.ref ≡ r) × Busy e

  Outcome-Serves :
      (k : Key) (server : Server) (now : ℕ) (p : Pool F) (a : Acquired F) (r : ℕ)
      (v : Option (Entry F))
      → Outcome k server now p a
      → a.1 ≡ ok (r, v)
      → Serves k r a.0
  Outcome-Serves k server now p a r v (was_closed _) h = cc
  Outcome-Serves k server now p a r v (was_there e _ f same _) h = (
    touch now e,
    find-update_ref k now e p.entries f,
    unfold touch in same,
    unfold touch in ground arith,
    unfold touch in omega arith,
  )
  Outcome-Serves k server now p a r v (over_quota _ _ _) h = cc
  Outcome-Serves k server now p a r v (all_busy _ _ _ _ _) h = cc
  Outcome-Serves k server now p a r v (evicted x _ _ _ _ _ _ _) h = (
    fresh_entry k server now (evicting x p),
    find_fresh k server now (evicting x p),
    unfold fresh_entry in refl,
    unfold fresh_entry evicting detach in ground arith,
    unfold fresh_entry in omega arith,
  )
  Outcome-Serves k server now p a r v (started _ _ _ _) h = (
    fresh_entry k server now p,
    find_fresh k server now p,
    unfold fresh_entry in refl,
    unfold fresh_entry in ground arith,
    unfold fresh_entry in omega arith,
  )

  -- Whatever the pool hands out for a key is the entry that it keeps under that very key, and the
  -- entry counts the request: a subject is never served from another subject's backend.
  pub try_acquire-Serves :
      (k : Key) (server : Server) (now : ℕ) (p : Pool F) (r : ℕ) (v : Option (Entry F))
      → (try_acquire k server now p).1 ≡ ok (r, v)
      → Serves k r (try_acquire k server now p).0
  try_acquire-Serves k server now p r v =
      Outcome-Serves k server now p _ r v (try_acquire-Outcome k server now p)
