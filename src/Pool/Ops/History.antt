-- ===== src/Pool/Ops/History.antt =====
-- The other operations keep the pool's invariant, and so does every history.
use mcp_reverse_proxy.Prelude.{
  ℕ, suc, ◌≡◌, refl, sym, ap, ◌∙◌, ◌≢◌, inl, inr, false, List, [], ◌∷◌, arith, Bool-cases, ◌==◌,
  nat_eq, list_eq, Bytes, length, All, All-map, contains, Distinct, In,
}
use mcp_reverse_proxy.Prelude.Maps.{lookup}
use mcp_reverse_proxy.Config.Types.{Server, Limits}
use mcp_reverse_proxy.Pool.Types.{key_beq, key_beq_iff, Key, key_eq, Entry, Pool}
use mcp_reverse_proxy.Pool.Entries.{remove_entry}
use mcp_reverse_proxy.Pool.Counts.{keys-update_key, keys-update_ref, keys_of, count_subject}
use mcp_reverse_proxy.Pool.Ops.{
  is_stale, expire_one, expired, expire_each, finish, listen_on, reject, start, unsubscribe,
  subscribe, evicting, try_acquire, forget_on, close, release, new_pool, detach, insert_entry,
}
use mcp_reverse_proxy.Pool.Ops.Invariant.{
  Inv, same_keys-Inv, detach-Inv, new_pool-Inv, try_acquire-Inv,
}
use mcp_reverse_proxy.Pool.Steps.{
  Command, acquires, releases, reaps, closes, subscribes, unsubscribes, step, Reorder, swap, below,
  Reach, start_up, call, reorder,
}

module _ {F : Type 0} where
  release-Inv : (r now : ℕ) (p : Pool F) → Inv p → Inv (release r now p)
  unfolding release
  release-Inv r now p inv =
      same_keys-Inv p _ inv (keys-update_ref r (finish now) p.entries (λ _. refl)) refl refl refl

  subscribe-Inv : (k : Key) (f : F) (p : Pool F) → Inv p → Inv (subscribe k f p).0
  unfolding subscribe
  subscribe-Inv k f p inv =
      same_keys-Inv p _ inv (keys-update_key k (listen_on p.next_listen f) p.entries (λ _. refl))
        refl refl refl

  forget_on-key : (id : ℕ) (e : Entry F) → (forget_on id e).key ≡ e.key
  unfolding forget_on
  forget_on-key id e = ground arith

  unsubscribe-Inv : (k : Key) (id : ℕ) (p : Pool F) → Inv p → Inv (unsubscribe k id p)
  unfolding unsubscribe
  unsubscribe-Inv k id p inv =
      same_keys-Inv p _ inv (keys-update_key k (forget_on id) p.entries (forget_on-key id)) refl
        refl refl

  close-Inv : (p : Pool F) → Inv p → Inv (close p).0
  unfolding close count_subject lookup
  close-Inv p inv = elim (Bool-cases p.closed) [
    | inl shut ↦ simp shut inv
    | inr live ↦ simp live (record {
      keys_distinct = tt;
      counted = λ s. refl;
      total_bounded = omega arith;
      subject_bounded = λ s. omega arith;
      shut = λ _. refl;
    })
  ]

  In-remove :
      (v e : Entry F) (es : List (Entry F))
      → In e es
      → key_beq v.key e.key ≡ false
      → In e (remove_entry v.key es)
  unfolding remove_entry
  In-remove v e [] i h = i
  In-remove v e (x ∷ es) (inl eq) h =
      rw eq (ground (arith, key_beq_iff v.key e.key, key_beq_iff e.key v.key))
  In-remove v e (x ∷ es) (inr i) h = elim (Bool-cases (x.key == v.key)) [
    | inl gone ↦ rw gone (In-remove v e es i h)
    | inr kept ↦ rw kept (inr (In-remove v e es i h))
  ]

  All-In-remove :
      (v : Entry F) (es ps : List (Entry F))
      → contains (keys_of es) v.key ≡ false
      → All (λ e. In e ps) es
      → All (λ e. In e (remove_entry v.key ps)) es
  All-In-remove v [] ps new _ = tt
  All-In-remove v (e ∷ es) ps new (here, rest) = (
    In-remove v e ps here (ground (arith, key_beq_iff v.key e.key, key_beq_iff e.key v.key)),
    All-In-remove v es ps (ground arith) rest,
  )

  expire_each-Inv :
      (now : ℕ) (es : List (Entry F)) (p : Pool F)
      → Inv p
      → Distinct (keys_of es)
      → All (λ e. In e p.entries) es
      → Inv (expire_each now es p)
  unfolding expire_each expire_one
  expire_each-Inv now [] p inv _ _ = inv
  expire_each-Inv now (e ∷ es) p inv (new, d) (here, rest) =
      elim (Bool-cases (is_stale p.limits now e)) [
        | inl stale ↦ rw stale (
            expire_each-Inv now es _
              (same_keys-Inv (detach e p) _ (detach-Inv p e inv here) refl refl refl refl) d
              (unfold detach in All-In-remove e es p.entries new rest))
        | inr used ↦ rw used (expire_each-Inv now es p inv d rest)
      ]

  All-In-self : (es : List (Entry F)) → All (λ e. In e es) es
  All-In-self [] = tt
  All-In-self (e ∷ es) = (inl refl, All-map _ _ (λ x i. inr i) es (All-In-self es))

  expired-Inv : (now : ℕ) (p : Pool F) → Inv p → Inv (expired now p).0
  unfolding expired
  expired-Inv now p inv = elim (Bool-cases p.closed) [
    | inl shut ↦ simp shut inv
    | inr live ↦
        simp live (expire_each-Inv now p.entries p inv inv.keys_distinct (All-In-self p.entries))
  ]

  step-Inv : (c : Command F) (p : Pool F) → Inv p → Inv (step c p)
  unfolding step
  step-Inv (acquires k server now) p inv = try_acquire-Inv k server now p inv
  step-Inv (releases r now) p inv = release-Inv r now p inv
  step-Inv (reaps now) p inv = expired-Inv now p inv
  step-Inv closes p inv = close-Inv p inv
  step-Inv (subscribes k f) p inv = subscribe-Inv k f p inv
  step-Inv (unsubscribes k id) p inv = unsubscribe-Inv k id p inv

  Reorder-counts :
      (s : Bytes) (k : Key) {es fs : List (Entry F)}
      → Reorder es fs
      → (length fs ≡ length es)
        × (count_subject s fs ≡ count_subject s es)
        × (contains (keys_of fs) k ≡ contains (keys_of es) k)
  unfolding count_subject
  Reorder-counts s k (swap x y es) = (refl, omega arith, ground arith)
  Reorder-counts s k (below x r) =
      let (a, b, c) = Reorder-counts s k r in (ap suc a, omega (arith, b), ground (arith, c))

  Reorder-Distinct :
      {es fs : List (Entry F)} → Reorder es fs → Distinct (keys_of es) → Distinct (keys_of fs)
  Reorder-Distinct (swap x y es) d =
      ground (arith, key_beq_iff x.key y.key, key_beq_iff y.key x.key)
  Reorder-Distinct (below x r) d =
      let (_, _, c) = Reorder-counts [] x.key r in (c ∙ d.0, Reorder-Distinct r d.1)

  Reorder-nil : {es fs : List (Entry F)} → Reorder es fs → es ≢ []
  Reorder-nil (swap x y es) = λ e. cc
  Reorder-nil (below x r) = λ e. cc

  Reorder-Inv :
      (p : Pool F) (es : List (Entry F))
      → Inv p
      → Reorder p.entries es
      → Inv (record p { entries = es })
  Reorder-Inv p es inv r = record {
    keys_distinct = Reorder-Distinct r inv.keys_distinct;
    counted =
        λ s. inv.counted s ∙ sym (Reorder-counts s (record { subject = []; fingerprint = [] }) r).1;
    total_bounded = omega (
      arith,
      (Reorder-counts [] (record { subject = []; fingerprint = [] }) r).0,
      inv.total_bounded,
    );
    subject_bounded = λ s. omega (
      arith,
      (Reorder-counts s (record { subject = []; fingerprint = [] }) r).1,
      inv.subject_bounded s,
    );
    shut = λ c. absurd (Reorder-nil r (inv.shut c));
  }

  try_acquire-limits :
      (k : Key) (server : Server) (now : ℕ) (p : Pool F)
      → (try_acquire k server now p).0.limits ≡ p.limits
  unfolding try_acquire start insert_entry evicting detach reject
  try_acquire-limits k server now p = ground arith

  expire_each-limits :
      (now : ℕ) (es : List (Entry F)) (p : Pool F) → (expire_each now es p).limits ≡ p.limits
  unfolding expire_each expire_one detach
  expire_each-limits now [] p = refl
  expire_each-limits now (e ∷ es) p = expire_each-limits now es (expire_one now e p) ∙ ground arith

  expired-limits : (now : ℕ) (p : Pool F) → (expired now p).0.limits ≡ p.limits
  unfolding expired
  expired-limits now p = ground (arith, expire_each-limits now p.entries p)

  step-limits : (c : Command F) (p : Pool F) → (step c p).limits ≡ p.limits
  unfolding step
  step-limits (acquires k server now) p = try_acquire-limits k server now p
  step-limits (releases r now) p = unfold release in refl
  step-limits (reaps now) p = expired-limits now p
  step-limits closes p = unfold close in ground arith
  step-limits (subscribes k f) p = unfold subscribe in refl
  step-limits (unsubscribes k id) p = unfold unsubscribe in refl

  -- In every state that the pool can reach, each key has at most one entry, the count kept for a
  -- subject is the number of its entries, no more backends are live than the configured limit and
  -- no subject has more than its own, and a closed pool has none.
  pub Reach-Inv : {l : Limits} {p : Pool F} → Reach l p → Inv p × (p.limits ≡ l)
  Reach-Inv {l} start_up = (new_pool-Inv l, unfold new_pool in refl)
  Reach-Inv (call {p = p} r c) =
      let (inv, same) = Reach-Inv r in (step-Inv c p inv, step-limits c p ∙ same)
  Reach-Inv (reorder {p = p} {es = es} r o) =
      let (inv, same) = Reach-Inv r in (Reorder-Inv p es inv o, same)
