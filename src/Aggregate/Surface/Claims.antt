-- ===== src/Aggregate/Surface/Claims.antt =====
-- internal/aggregate/surface.go: the names of one kind are claimed once each.
use mcp_reverse_proxy.Prelude.{
  ◌≤◌, ◌≡◌, refl, sym, ap, ◌∙◌, subst, inl, inr, false, List, [], ◌∷◌, ◌++◌, map, append-nil,
  append_assoc, arith, ltb, Bool-cases, ok, bind-ok, nat_eq, list_beq_iff, list_eq, Bytes, length,
  All, All-append, contains, Distinct, contains-append,
}
use mcp_reverse_proxy.Prelude.Maps.{Map, keys, lookup, insert, lookup-none_iff}
use mcp_reverse_proxy.Aggregate.Surface.{
  grant, max_name_bytes, EntryKind, claim, Shelf, add_entries,
}

-- Names that fit on one surface: short enough, and different.
abbrev pub Fits : List Bytes → Type 0
Fits names = All (λ n. length n ≤ max_name_bytes) names × Distinct names

keys-insert :
    (k v : Bytes) (m : Map Bytes Bytes)
    → contains (keys m) k ≡ false
    → keys (insert k v m) ≡ keys m ++ (k ∷ [])
unfolding insert
keys-insert k v [] h = refl
keys-insert k v ((j, w) ∷ m) h = ground (arith, keys-insert k v m)

Distinct-middle :
    (ks ns : List Bytes) (n : Bytes) → Distinct (ks ++ (n ∷ ns)) → contains ks n ≡ false
Distinct-middle [] ns n h = refl
Distinct-middle (k ∷ ks) ns n (fresh, d) = ground (
  arith,
  contains-append ks (n ∷ ns) k,
  Distinct-middle ks ns n d,
  list_beq_iff k n,
  list_beq_iff n k,
)

Distinct-snoc :
    (ks : List Bytes) (n : Bytes) → Distinct ks → contains ks n ≡ false → Distinct (ks ++ (n ∷ []))
Distinct-snoc [] n d h = (refl, tt)
Distinct-snoc (k ∷ ks) n (fresh, d) h = (
  ground (arith, contains-append ks (n ∷ []) k, list_beq_iff k n, list_beq_iff n k),
  Distinct-snoc ks n d (ground arith),
)

pub Distinct-prefix : (xs ys : List Bytes) → Distinct (xs ++ ys) → Distinct xs
Distinct-prefix [] ys d = tt
Distinct-prefix (x ∷ xs) ys (fresh, d) =
    (ground (arith, contains-append xs ys x), Distinct-prefix xs ys d)

pub All-prefix : (P : Bytes → Type 0) (xs ys : List Bytes) → All P (xs ++ ys) → All P xs
All-prefix P [] ys h = tt
All-prefix P (x ∷ xs) ys (px, h) = (px, All-prefix P xs ys h)

pub map-append_lem :
    {A : Type 0} (f : A → Bytes) (xs ys : List A) → map f (xs ++ ys) ≡ map f xs ++ map f ys
map-append_lem f [] ys = refl
map-append_lem f (x ∷ xs) ys = ap (λ r. f x ∷ r) (map-append_lem f xs ys)

-- What a granted claim says of the names claimed before.
pub record Granted (owners : Map Bytes Bytes) (name : Bytes) (owners' : Map Bytes Bytes)
    : Type 0 where
  pub short : length name ≤ max_name_bytes
  pub fresh : contains (keys owners) name ≡ false
  pub added : keys owners' ≡ keys owners ++ (name ∷ [])

grant-Granted :
    (kind : EntryKind) (backend name : Bytes) (owners owners' : Map Bytes Bytes)
    → length name ≤ max_name_bytes
    → grant kind backend name owners (lookup name owners) ≡ ok owners'
    → Granted owners name owners'
unfolding grant
grant-Granted kind backend name owners owners' short h = elim (lookup-none_iff name owners) [
  | inl (fresh, e) ↦ record {
    short = short;
    fresh = fresh;
    added = ground (arith, keys-insert name backend owners fresh, e, h);
  }
  | inr (_, (first, e)) ↦ absurd (ground (arith, e, h))
]

claim-Granted :
    (kind : EntryKind) (backend name : Bytes) (owners owners' : Map Bytes Bytes)
    → claim kind backend name owners ≡ ok owners'
    → Granted owners name owners'
unfolding claim
claim-Granted kind backend name owners owners' h =
    elim (Bool-cases (ltb max_name_bytes (length name))) [
      | inl long ↦ absurd (ground (arith, long, h))
      | inr short ↦
          grant-Granted kind backend name owners owners' (ground (arith, short))
            (ground (arith, short, h))
    ]

claim-ok :
    (kind : EntryKind) (backend name : Bytes) (owners : Map Bytes Bytes)
    → length name ≤ max_name_bytes
    → contains (keys owners) name ≡ false
    → claim kind backend name owners ≡ ok (insert name backend owners)
unfolding claim grant
claim-ok kind backend name owners short fresh = elim (lookup-none_iff name owners) [
  | inl (_, e) ↦ ground (arith, e)
  | inr (taken, _) ↦ absurd cc
]

-- The owners' names are those on the shelf, and fit.
pub record Shelved {A : Type 0} (name_of : A → Bytes) (shelf : Shelf A) : Type 0 where
  pub owned : keys shelf.0 ≡ map name_of shelf.1
  pub fits : Fits (map name_of shelf.1)

shelve :
    {A : Type 0} (name_of : A → Bytes) (owners owners' : Map Bytes Bytes) (out : List A) (x : A)
    → Shelved name_of (owners, out)
    → Granted owners (name_of x) owners'
    → Shelved name_of (owners', out ++ (x ∷ []))
shelve name_of owners owners' out x s g =
    let fresh : contains (map name_of out) (name_of x) ≡ false =
      subst (λ ks. contains ks (name_of x) ≡ false) s.owned g.fresh in
    record {
      owned =
          g.added
          ∙ ap (λ ks. ks ++ (name_of x ∷ [])) s.owned
          ∙ sym (map-append_lem name_of out (x ∷ []));
      fits = subst Fits (sym (map-append_lem name_of out (x ∷ []))) (
        All-append (λ n. length n ≤ max_name_bytes) (map name_of out) (name_of x ∷ []) s.fits.0
            (g.short, tt),
        Distinct-snoc (map name_of out) (name_of x) s.fits.1 fresh,
      );
    }

pub add_entries-Shelved :
    {A : Type 0} (kind : EntryKind) (name_of : A → Bytes) (backend : Bytes) (xs : List A)
    (shelf shelf' : Shelf A)
    → Shelved name_of shelf
    → add_entries kind name_of backend xs shelf ≡ ok shelf'
    → (shelf'.1 ≡ shelf.1 ++ xs) × Shelved name_of shelf'
unfolding add_entries
add_entries-Shelved {A} kind name_of backend [] shelf shelf' s h =
    let same : shelf ≡ shelf' = cc in
    subst (λ r. (r.1 ≡ shelf.1 ++ []) × Shelved name_of r) same (sym (append-nil shelf.1), s)
add_entries-Shelved kind name_of backend (x ∷ xs) (owners, out) shelf' s h =
    let (owners', granted, rest) =
      bind-ok (claim kind backend (name_of x) owners)
        (λ o. add_entries kind name_of backend xs (o, out ++ (x ∷ []))) shelf' h in
    let granted' = claim-Granted kind backend (name_of x) owners owners' granted in
    let (same, s') =
      add_entries-Shelved kind name_of backend xs (owners', out ++ (x ∷ [])) shelf'
        (shelve name_of owners owners' out x s granted') rest in
    (same ∙ append_assoc out (x ∷ []) xs, s')

All-middle : (P : Bytes → Type 0) (xs ys : List Bytes) (n : Bytes) → All P (xs ++ (n ∷ ys)) → P n
All-middle P [] ys n (pn, _) = pn
All-middle P (x ∷ xs) ys n (_, h) = All-middle P xs ys n h

-- The next of a list of names that fit is short, and was not claimed before.
fresh_next :
    (out ns : List Bytes) (n : Bytes)
    → Fits (out ++ (n ∷ ns))
    → (length n ≤ max_name_bytes) × (contains out n ≡ false)
fresh_next out ns n (short, d) =
    (All-middle (λ n. length n ≤ max_name_bytes) out ns n short, Distinct-middle out ns n d)

pub add_entries-ok :
    {A : Type 0} (kind : EntryKind) (name_of : A → Bytes) (backend : Bytes) (xs : List A)
    (shelf : Shelf A)
    → Shelved name_of shelf
    → Fits (map name_of (shelf.1 ++ xs))
    → (shelf' : Shelf A) × (add_entries kind name_of backend xs shelf ≡ ok shelf')
unfolding add_entries
add_entries-ok kind name_of backend [] shelf s h = (shelf, refl)
add_entries-ok kind name_of backend (x ∷ xs) (owners, out) s h =
    let (short, fresh) =
      fresh_next (map name_of out) (map name_of xs) (name_of x)
        (subst Fits (map-append_lem name_of out (x ∷ xs)) h) in
    let granted =
      claim-ok kind backend (name_of x) owners short
        (subst (λ ks. contains ks (name_of x) ≡ false) (sym s.owned) fresh) in
    let (shelf', e) =
      add_entries-ok kind name_of backend xs (insert (name_of x) backend owners, out ++ (x ∷ []))
        (shelve name_of owners (insert (name_of x) backend owners) out x s (
          claim-Granted kind backend (name_of x) owners (insert (name_of x) backend owners)
            granted))
        (subst (λ l. Fits (map name_of l)) (sym (append_assoc out (x ∷ []) xs)) h) in
    (shelf', rw granted e)
