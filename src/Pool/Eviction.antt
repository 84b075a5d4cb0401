-- ===== src/Pool/Eviction.antt =====
-- Which entry the pool gives up.
use mcp_reverse_proxy.Prelude.{
  ◌≤◌, ◌<◌, ◌≡◌, refl, ◌⊎◌, inl, inr, Option, none, some, List, [], ◌∷◌, arith, nat_eq, list_eq,
  All, In,
}
use mcp_reverse_proxy.Pool.Types.{Entry}
use mcp_reverse_proxy.Pool.Entries.{older, oldest_from, least_recently_used}

module _ {F : Type 0} where
  abbrev pub Busy : Entry F → Type 0
  Busy e = 0 < e.inflight

  -- The entry was used no later than another, if that one is idle.
  abbrev pub Idler : Entry F → Entry F → Type 0
  Idler v e = e.inflight ≡ 0 → v.last_used ≤ e.last_used

  abbrev Under : Entry F → Option (Entry F) → Type 0
  Under v none = Unit {0}
  Under v (some o) = v.last_used ≤ o.last_used

  abbrev Idle? : Option (Entry F) → Type 0
  Idle? none = Unit {0}
  Idle? (some o) = o.inflight ≡ 0

  abbrev Chosen : Option (Entry F) → List (Entry F) → Option (Entry F) → Type 0
  Chosen acc es none = (acc ≡ none) × All Busy es
  Chosen acc es (some v) =
      ((acc ≡ some v) ⊎ In v es) × (v.inflight ≡ 0) × Under v acc × All (Idler v) es

  older-Idle : (acc : Option (Entry F)) (e : Entry F) → Idle? acc → Idle? (older acc e)
  unfolding older
  older-Idle none e idle = ground arith
  older-Idle (some o) e idle = ground arith

  older-Chosen :
      (acc : Option (Entry F)) (e : Entry F) (es : List (Entry F)) (r : Option (Entry F))
      → Chosen (older acc e) es r
      → Chosen acc (e ∷ es) r
  unfolding older
  older-Chosen none e es none c = ground arith
  older-Chosen (some o) e es none c = ground arith
  older-Chosen none e es (some v) c = ground arith
  older-Chosen (some o) e es (some v) c = ground arith

  oldest_from-Chosen :
      (acc : Option (Entry F)) (es : List (Entry F))
      → Idle? acc
      → Chosen acc es (oldest_from acc es)
  unfolding oldest_from
  oldest_from-Chosen none [] idle = (refl, tt)
  oldest_from-Chosen (some o) [] idle = (inl refl, idle, omega arith, tt)
  oldest_from-Chosen acc (e ∷ es) idle =
      older-Chosen acc e es (oldest_from (older acc e) es)
        (oldest_from-Chosen (older acc e) es (older-Idle acc e idle))

  -- The entry chosen for eviction is one of the pool's, serves no request, and no other idle entry
  -- was used before it; none is chosen exactly when every entry serves a request.
  pub least_recently_used_cases :
      (es : List (Entry F))
      → ((least_recently_used es ≡ none) × All Busy es)
        ⊎ ((v : Entry F) × (least_recently_used es ≡ some v)
            × In v es
            × (v.inflight ≡ 0)
            × All (Idler v) es)
  unfolding least_recently_used
  least_recently_used_cases es = by_result (oldest_from none es) (oldest_from-Chosen none es tt)
    where
      by_result :
          (r : Option (Entry F))
          → Chosen none es r
          → ((r ≡ none) × All Busy es)
            ⊎ ((v : Entry F) × (r ≡ some v) × In v es × (v.inflight ≡ 0) × All (Idler v) es)
      by_result none c = inl c
      by_result (some v) (inl e, idle, _, least) = cc
      by_result (some v) (inr i, idle, _, least) = inr (v, refl, i, idle, least)
