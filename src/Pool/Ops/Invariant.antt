-- ===== src/Pool/Ops/Invariant.antt =====
-- What every operation keeps: one entry for a key, exact counts, and the two limits.
use mcp_reverse_proxy.Prelude.{
  ℕ, ◌+◌, ◌≤◌, ◌<◌, ◌≡◌, refl, sym, ap, ◌∙◌, subst, inl, inr, true, false, List, [], ◌∷◌, arith,
  Bool-cases, nat_eq, list_eq, ==-cases, Bytes, length, contains, Distinct, In,
}
use mcp_reverse_proxy.Prelude.Int.{ℤ, pos, negsuc, pos_part, reaches}
use mcp_reverse_proxy.Prelude.Maps.{lookup}
use mcp_reverse_proxy.Config.Types.{Server, Limits}
use mcp_reverse_proxy.Pool.Types.{Key, key_eq, Entry, Pool}
use mcp_reverse_proxy.Pool.Entries.{value_or_zero}
use mcp_reverse_proxy.Pool.Counts.{
  contains-remove, find-contains, keys-update_ref, keys_of, count_subject, count_raise, count_lower,
  remove_absent, remove-Distinct, count-remove, In-contains, count_by_keys,
}
use mcp_reverse_proxy.Pool.Eviction.{least_recently_used_cases}
use mcp_reverse_proxy.Pool.Ops.{
  touch, reject, start, evicting, try_acquire, fresh_entry, new_pool, detach, insert_entry,
}

pub below_limit : (n : ℕ) (z : ℤ) → reaches n z ≡ false → n < pos_part z
below_limit n (pos z) h = ground arith
below_limit n (negsuc z) h = cc

module _ {F : Type 0} where
  pub record Inv (p : Pool F) : Type 0 where
    pub keys_distinct : Distinct (keys_of p.entries)
    pub counted : (s : Bytes) → value_or_zero (lookup s p.per_subject) ≡ count_subject s p.entries
    pub total_bounded : length p.entries ≤ pos_part p.limits.max_processes
    pub subject_bounded :
        (s : Bytes) → count_subject s p.entries ≤ pos_part p.limits.max_processes_per_subject
    pub shut : p.closed ≡ true → p.entries ≡ []

  pub new_pool-Inv : (l : Limits) → Inv (new_pool l)
  unfolding new_pool count_subject lookup
  new_pool-Inv l = record {
    keys_distinct = tt;
    counted = λ s. refl;
    total_bounded = omega arith;
    subject_bounded = λ s. omega arith;
    shut = λ _. refl;
  }

  -- A change that keeps the keys, the counts and the limits keeps the invariant.
  pub same_keys-Inv :
      (p q : Pool F)
      → Inv p
      → keys_of q.entries ≡ keys_of p.entries
      → q.per_subject ≡ p.per_subject
      → q.limits ≡ p.limits
      → q.closed ≡ p.closed
      → Inv q
  same_keys-Inv p q v ks ps ls cl = record {
    keys_distinct = rw ks v.keys_distinct;
    counted = λ s. rw ps (v.counted s ∙ sym (counts s).1);
    total_bounded = rw ls (omega (arith, (counts []).0, v.total_bounded));
    subject_bounded = λ s. rw ls (omega (arith, (counts s).1, v.subject_bounded s));
    shut = λ c. no_keys q.entries (ks ∙ ap keys_of (v.shut (sym cl ∙ c)));
  }
    where
      counts :
          (s : Bytes)
          → (length q.entries ≡ length p.entries)
            × (count_subject s q.entries ≡ count_subject s p.entries)
      counts s = count_by_keys s q.entries p.entries ks

      no_keys : (es : List (Entry F)) → keys_of es ≡ [] → es ≡ []
      no_keys [] h = refl
      no_keys (e ∷ es) h = cc

  pub detach-Inv : (p : Pool F) (v : Entry F) → Inv p → In v p.entries → Inv (detach v p)
  unfolding detach
  detach-Inv p v inv i =
      let here = In-contains v p.entries i in
      record {
        keys_distinct = remove-Distinct v.key p.entries inv.keys_distinct;
        counted = λ s.
            count_lower s v.key.subject p.per_subject
            ∙ (omega
                (arith, inv.counted s, (count-remove v.key s p.entries inv.keys_distinct here).1));
        total_bounded =
            omega (
              arith,
              inv.total_bounded,
              (count-remove v.key [] p.entries inv.keys_distinct here).0,
            );
        subject_bounded = λ s. omega (
          arith,
          inv.subject_bounded s,
          (count-remove v.key s p.entries inv.keys_distinct here).1,
        );
        shut = λ c. absurd (subst (In v) (inv.shut c) i);
      }

  insert_entry-Inv :
      (k : Key) (server : Server) (now : ℕ) (p : Pool F)
      → Inv p
      → contains (keys_of p.entries) k ≡ false
      → p.closed ≡ false
      → length p.entries < pos_part p.limits.max_processes
      → count_subject k.subject p.entries < pos_part p.limits.max_processes_per_subject
      → Inv (insert_entry k server now p)
  unfolding insert_entry fresh_entry count_subject
  insert_entry-Inv k server now p inv new live room own =
      let gone = remove_absent k p.entries new in
      record {
        keys_distinct = rw gone (new, inv.keys_distinct);
        counted =
            λ s. count_raise s k.subject p.per_subject ∙ rw gone (omega (arith, inv.counted s));
        total_bounded = rw gone room;
        subject_bounded = λ s. rw gone (elim (==-cases k.subject s) [
          | inl (same, e) ↦ rw same (
              subst
                (λ t. 1 + count_subject t p.entries ≤ pos_part p.limits.max_processes_per_subject) e
                (omega (arith, own)))
          | inr (other, _) ↦ rw other (omega (arith, inv.subject_bounded s))
        ]);
        shut = λ c. cc;
      }

  evicting-Inv : (p : Pool F) (v : Entry F) → Inv p → In v p.entries → Inv (evicting v p)
  unfolding evicting
  evicting-Inv p v inv i = same_keys-Inv (detach v p) _ (detach-Inv p v inv i) refl refl refl refl

  -- After an eviction there is room, and the new key is still new.
  evicting-room :
      (k : Key) (p : Pool F) (v : Entry F)
      → Inv p
      → In v p.entries
      → contains (keys_of p.entries) k ≡ false
      → (contains (keys_of (evicting v p).entries) k ≡ false)
        × (length (evicting v p).entries < pos_part p.limits.max_processes)
        × (count_subject k.subject (evicting v p).entries ≤ count_subject k.subject p.entries)
  unfolding evicting detach
  evicting-room k p v inv i new =
      let sizes =
        count-remove v.key k.subject p.entries inv.keys_distinct (In-contains v p.entries i) in
      (
        contains-remove v.key k p.entries ∙ ground (arith, new),
        omega (arith, sizes.0, inv.total_bounded),
        omega (arith, sizes.1),
      )

  start-Inv :
      (k : Key) (server : Server) (now : ℕ) (p : Pool F)
      → Inv p
      → p.closed ≡ false
      → contains (keys_of p.entries) k ≡ false
      → Inv (start k server now p).0
  unfolding start reject evicting detach
  start-Inv k server now p inv live new =
      let own = value_or_zero (lookup k.subject p.per_subject) in
      elim (Bool-cases (reaches own p.limits.max_processes_per_subject)) [
        | inl full ↦ rw full (same_keys-Inv p _ inv refl refl refl refl)
        | inr free ↦
            let room : count_subject k.subject p.entries
                < pos_part p.limits.max_processes_per_subject =
              subst (λ n. n < pos_part p.limits.max_processes_per_subject) (inv.counted k.subject)
                (below_limit own p.limits.max_processes_per_subject free) in
            rw free (elim (Bool-cases (reaches (length p.entries) p.limits.max_processes)) [
              | inl crowded ↦ rw crowded (elim (least_recently_used_cases p.entries) [
                | inl (e, _) ↦ rw e (same_keys-Inv p _ inv refl refl refl refl)
                | inr (v, e, i, _, _) ↦
                    let after = evicting-room k p v inv i new in
                    rw e (
                      insert_entry-Inv k server now (evicting v p) (evicting-Inv p v inv i) after.0
                        live (after.1) (omega (arith, after.2, room)))
              ])
              | inr roomy ↦
                  rw roomy
                    (insert_entry-Inv k server now p inv new live (below_limit _ _ roomy) room)
            ])
      ]

  pub try_acquire-Inv :
      (k : Key) (server : Server) (now : ℕ) (p : Pool F)
      → Inv p
      → Inv (try_acquire k server now p).0
  unfolding try_acquire
  try_acquire-Inv k server now p inv = elim (Bool-cases p.closed) [
    | inl shut ↦ simp shut inv
    | inr live ↦ simp live (elim (find-contains k p.entries) [
      | inl (e, new) ↦ rw e (start-Inv k server now p inv live new)
      | inr (x, e, _, _, _) ↦ rw e (
          same_keys-Inv p _ inv
            (keys-update_ref x.ref (touch now) p.entries (λ _. unfold touch in refl)) refl refl
            refl)
    ])
  ]
