-- ===== src/Backend/Interpose/Wires/Among.antt =====
-- internal/backend/interpose.go: what has passed over a connection's channels, or is on its way.
use mcp_reverse_proxy.Prelude.{
  ℕ, ◌≡◌, refl, subst, List, [], ◌∷◌, ◌++◌, map, inl, inr, nat_eq, list_eq, All, All-append,
  All-split, Bool-cases, All-map, In,
}
use mcp_reverse_proxy.Backend.Interpose.{
  Message, Action, sends, injects, fails, Verdict, delivers, drops, refuses,
}
use mcp_reverse_proxy.Backend.Interpose.Traces.{
  Output, to_backend, to_client, of_action, of_verdict,
}
use mcp_reverse_proxy.Backend.Interpose.Wires.{
  Pending, arming, injecting, writing, Heard, relayed, answered, Wires, is_discover, left_to_do,
  relayed_by, refused_by,
}

module _ {Ident : Type 0} where
  -- Where a message goes, or comes to.
  unfoldable pub reading : Heard Ident → Output Ident
  reading (relayed m) = to_client m
  reading (answered m) = to_client m

  unfoldable pub destined : Pending Ident → Output Ident
  destined (arming gen m) = to_backend m
  destined (injecting m) = to_client m
  destined (writing m) = to_backend m

  -- Whatever has passed or is on its way is among these outputs.
  unfoldable pub Among : List (Output Ident) → Wires Ident → Type 0
  Among out w =
      All (λ m. In (to_backend m) out) w.sent
      × All (λ h. In (reading h) out) w.heard
      × All (λ m. In (to_client m) out) w.injected
      × All (λ m. In (to_client m) out) w.answering
      × All (λ p. In (destined p) out) w.writers

  In-left : (o : Output Ident) (xs ys : List (Output Ident)) → In o xs → In o (xs ++ ys)
  In-left o [] ys h = elim h [ ]
  In-left o (x ∷ xs) ys (inl e) = inl e
  In-left o (x ∷ xs) ys (inr h) = inr (In-left o xs ys h)

  In-right : (o : Output Ident) (xs ys : List (Output Ident)) → In o ys → In o (xs ++ ys)
  In-right o [] ys h = h
  In-right o (x ∷ xs) ys h = inr (In-right o xs ys h)

  -- What is among some outputs is among these and more.
  pub wider :
      {X : Type 0} (f : X → Output Ident) (out more : List (Output Ident)) (xs : List X)
      → All (λ x. In (f x) out) xs
      → All (λ x. In (f x) (out ++ more)) xs
  wider f out more xs h = All-map _ _ (λ x i. In-left (f x) out more i) xs h

  pub Among-wider :
      (out more : List (Output Ident)) (w : Wires Ident) → Among out w → Among (out ++ more) w
  unfolding Among
  Among-wider out more w (sent, heard, injected, answering, writers) = (
    wider to_backend out more w.sent sent,
    wider reading out more w.heard heard,
    wider to_client out more w.injected injected,
    wider to_client out more w.answering answering,
    wider destined out more w.writers writers,
  )

  -- One that is done.
  pub taken_out :
      (P : Pending Ident → Type 0) (ps xs ys : List (Pending Ident)) (p : Pending Ident)
      → ps ≡ xs ++ (p ∷ ys)
      → All P ps
      → P p × All P (xs ++ ys)
  taken_out P ps xs ys p e h =
      let (hx, (hp, hy)) = All-split P xs (p ∷ ys) (subst (All P) e h) in
      (hp, All-append P xs ys hx hy)

  pub left_to_do-among :
      (gen : ℕ) (a : Action Ident) (out : List (Output Ident))
      → All (λ p. In (destined p) (out ++ of_action a)) (left_to_do gen a)
  unfolding left_to_do destined of_action
  left_to_do-among gen (sends m) out = elim (Bool-cases (is_discover m)) [
    | inl probe ↦ rw probe (In-right _ out _ (inl refl), tt)
    | inr other ↦ rw other (In-right _ out _ (inl refl), tt)
  ]
  left_to_do-among gen (injects m) out = (In-right _ out _ (inl refl), tt)
  left_to_do-among gen (fails reason) out = tt

  pub relayed_by-among :
      (m : Message Ident) (v : Verdict Ident) (out : List (Output Ident))
      → All (λ h. In (reading h) (out ++ of_verdict m v)) (relayed_by m v)
  unfolding relayed_by reading of_verdict
  relayed_by-among m delivers out = (In-right _ out _ (inl refl), tt)
  relayed_by-among m drops out = tt
  relayed_by-among m (refuses r) out = tt

  pub refused_by-among :
      (m : Message Ident) (v : Verdict Ident) (out : List (Output Ident))
      → All (λ r. In (to_backend r) (out ++ of_verdict m v)) (refused_by v)
  unfolding refused_by of_verdict
  refused_by-among m delivers out = tt
  refused_by-among m drops out = tt
  refused_by-among m (refuses r) out = (In-right _ out _ (inl refl), tt)

  mapped : (ms : List (Message Ident)) → All (λ m. In (to_client m) (map to_client ms)) ms
  mapped [] = tt
  mapped (m ∷ ms) = (inl refl, All-map _ _ (λ x i. inr i) ms (mapped ms))

  pub answers-among :
      (ms : List (Message Ident)) (out : List (Output Ident))
      → All (λ m. In (to_client m) (out ++ map to_client ms)) ms
  answers-among ms out = All-map _ _ (λ m i. In-right (to_client m) out _ i) ms (mapped ms)
