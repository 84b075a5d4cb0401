-- ===== src/Pool/Counts.antt =====
-- The entries seen by key and by subject.
use mcp_reverse_proxy.Prelude.{
  ℕ, suc, ◌+◌, ◌-◌, ◌≤◌, ◌≡◌, refl, ap, subst, ◌⊎◌, inl, inr, true, false, none, some, List, [],
  ◌∷◌, arith, if◌then◌else◌, ◌==◌, nat_eq, list_beq_iff, list_eq, ==-refl, ==-cases, Bytes, length,
  contains, Distinct, In,
}
use mcp_reverse_proxy.Prelude.Maps.{Map, lookup, insert, lookup-insert, lookup-delete}
use mcp_reverse_proxy.Pool.Types.{Key, key_eq, key_beq, key_beq_iff, Entry}
use mcp_reverse_proxy.Pool.Entries.{
  value_or_zero, find_entry, remove_entry, update_ref, update_key, lower, raise,
}

pub count_raise :
    (s t : Bytes) (m : Map Bytes ℕ)
    → value_or_zero (lookup s (raise t m)) ≡ value_or_zero (lookup s m) + (if t == s then 1 else 0)
unfolding raise
count_raise s t m = elim (==-cases t s) [
  | inl (same, e) ↦ rw (lookup-insert t s _ m, same, e) (omega arith)
  | inr (other, _) ↦ rw (lookup-insert t s _ m, other) (omega arith)
]

pub count_lower :
    (s t : Bytes) (m : Map Bytes ℕ)
    → value_or_zero (lookup s (lower t m)) ≡ value_or_zero (lookup s m) - (if t == s then 1 else 0)
unfolding lower
count_lower s t m =
    let n = value_or_zero (lookup t m) - 1 in
    ground (arith, lookup-insert t s n m, lookup-delete t s (insert t n m), list_beq_iff t s)

module _ {F : Type 0} where
  abbrev pub keys_of : List (Entry F) → List Key
  keys_of [] = []
  keys_of (e ∷ es) = e.key ∷ keys_of es

  -- How many entries a subject has.
  unfoldable pub count_subject : Bytes → List (Entry F) → ℕ
  count_subject s [] = 0
  count_subject s (e ∷ es) = (if e.key.subject == s then 1 else 0) + count_subject s es

  pub count_subject-le-length : (s : Bytes) (es : List (Entry F)) → count_subject s es ≤ length es
  unfolding count_subject
  count_subject-le-length s [] = omega arith
  count_subject-le-length s (e ∷ es) = ground (arith, count_subject-le-length s es)

  pub remove_absent :
      (k : Key) (es : List (Entry F)) → contains (keys_of es) k ≡ false → remove_entry k es ≡ es
  unfolding remove_entry
  remove_absent k [] h = refl
  remove_absent k (e ∷ es) h = ground (arith, remove_absent k es)

  pub contains-remove :
      (k j : Key) (es : List (Entry F))
      → contains (keys_of (remove_entry k es)) j
        ≡ (if key_beq k j then false else contains (keys_of es) j)
  unfolding remove_entry
  contains-remove k j [] = ground arith
  contains-remove k j (e ∷ es) =
      ground
        (arith, key_beq_iff k j, key_beq_iff e.key k, key_beq_iff e.key j, contains-remove k j es)

  pub remove-Distinct :
      (k : Key) (es : List (Entry F))
      → Distinct (keys_of es)
      → Distinct (keys_of (remove_entry k es))
  unfolding remove_entry
  remove-Distinct k [] h = tt
  remove-Distinct k (e ∷ es) h =
      ground (arith, contains-remove k e.key es, remove-Distinct k es h.1)

  -- Of distinct keys exactly one entry goes.
  pub count-remove :
      (k : Key) (s : Bytes) (es : List (Entry F))
      → Distinct (keys_of es)
      → contains (keys_of es) k ≡ true
      → (length es ≡ suc (length (remove_entry k es)))
        × (count_subject s es
            ≡ count_subject s (remove_entry k es) + (if k.subject == s then 1 else 0))
  unfolding remove_entry count_subject
  count-remove k s [] d h = cc
  count-remove k s (e ∷ es) (once, d) h = elim (==-cases e.key k) [
    | inl (same, eq) ↦
        let gone = remove_absent k es (subst (λ j. contains (keys_of es) j ≡ false) eq once) in
        rw (same, gone, eq) (refl, omega arith)
    | inr (other, _) ↦
        let ih = count-remove k s es d (rw other at h) in
        rw other (ap suc ih.0, omega (arith, ih.1))
  ]

  pub find-contains :
      (k : Key) (es : List (Entry F))
      → (find_entry k es ≡ none) × (contains (keys_of es) k ≡ false)
        ⊎ ((e : Entry F) × (find_entry k es ≡ some e)
            × (e.key ≡ k)
            × In e es
            × (contains (keys_of es) k ≡ true))
  unfolding find_entry
  find-contains k [] = inl (refl, refl)
  find-contains k (e ∷ es) = elim (==-cases e.key k) [
    | inl (same, eq) ↦ rw same (inr (e, refl, eq, inl refl, refl))
    | inr (other, _) ↦ rw other (elim (find-contains k es) [
      | inl h ↦ inl h
      | inr (x, f, eq, i, c) ↦ inr (x, f, eq, inr i, c)
    ])
  ]

  pub In-contains :
      (e : Entry F) (es : List (Entry F)) → In e es → contains (keys_of es) e.key ≡ true
  In-contains e [] i = elim i [ ]
  In-contains e (x ∷ es) (inl eq) = rw eq (rw (==-refl e.key))
  In-contains e (x ∷ es) (inr i) = rw (In-contains e es i) (ground arith)

  -- A write that keeps the keys keeps the counts.
  pub keys-update_ref :
      (r : ℕ) (f : Entry F → Entry F) (es : List (Entry F))
      → ((e : Entry F) → (f e).key ≡ e.key)
      → keys_of (update_ref r f es) ≡ keys_of es
  unfolding update_ref
  keys-update_ref r f [] h = refl
  keys-update_ref r f (e ∷ es) h = ground (arith, h e, keys-update_ref r f es h)

  pub keys-update_key :
      (k : Key) (f : Entry F → Entry F) (es : List (Entry F))
      → ((e : Entry F) → (f e).key ≡ e.key)
      → keys_of (update_key k f es) ≡ keys_of es
  unfolding update_key
  keys-update_key k f [] h = refl
  keys-update_key k f (e ∷ es) h = ground (arith, h e, keys-update_key k f es h)

  -- The counts depend on the keys alone.
  pub count_by_keys :
      (s : Bytes) (xs ys : List (Entry F))
      → keys_of xs ≡ keys_of ys
      → (length xs ≡ length ys) × (count_subject s xs ≡ count_subject s ys)
  unfolding count_subject
  count_by_keys s [] [] h = (refl, refl)
  count_by_keys s [] (y ∷ ys) h = cc
  count_by_keys s (x ∷ xs) [] h = cc
  count_by_keys s (x ∷ xs) (y ∷ ys) h = ground (arith, count_by_keys s xs ys)
