-- ===== src/Backend/Interpose/Traces.antt =====
-- internal/backend/interpose.go: what an interposed connection lets through, over any interleaving
-- of the client's writes, the backend's messages and the probe timers.
use mcp_reverse_proxy.Prelude.{
  ℕ, ◌≡◌, refl, subst, inl, inr, Bool, true, false, not, ◌&&◌, ◌||◌, Option, none, some, List, [],
  ◌∷◌, ◌++◌, map, arith, Bool-cases, Decides, ◌==◌, nat_eq, list_beq_iff, list_eq, Bytes, All,
  All-append,
}
use mcp_reverse_proxy.Backend.Interpose.{
  after_refusal, recorded, probe_unsupported, delivers, drops, is_masked, method_discover,
  pinned_legacy, response, injects, refuses, sends, fails, pinned_modern, method_initialize,
  request, arm_probe, refuse_fallback, Mismatch, or_answer, write_discover, write_initialize,
  fail_locked, write, on_probe_expired, Verdict, Conn, on_probe_answer, Action, inspect, new_conn,
  Message,
}

pub data Event (Ident : Type 0) : Type 0 where
  client_writes : Message Ident → Event Ident
  backend_says : Message Ident → Event Ident
  timer_fires : ℕ → Event Ident

pub data Output (Ident : Type 0) : Type 0 where
  to_backend : Message Ident → Output Ident
  to_client : Message Ident → Output Ident

module _ {Ident : Type 0} where
  unfoldable pub of_action : Action Ident → List (Output Ident)
  of_action (sends m) = to_backend m ∷ []
  of_action (injects m) = to_client m ∷ []
  of_action (fails _) = []

  unfoldable pub of_verdict : Message Ident → Verdict Ident → List (Output Ident)
  of_verdict m delivers = to_client m ∷ []
  of_verdict m drops = []
  of_verdict m (refuses r) = to_backend r ∷ []

module _ {Ident : Type 0} ⦃e : Decides Ident⦄ (is_valid : Ident → Bool) where
  unfoldable pub step : Event Ident → Conn Ident → Conn Ident × List (Output Ident)
  unfolding of_action of_verdict
  step (client_writes m) c = let (c', a) = write m c in (c', of_action a)
  step (backend_says m) c = let (c', v) = inspect is_valid m c in (c', of_verdict m v)
  step (timer_fires gen) c =
      let (c', answers) = on_probe_expired gen c in (c', map to_client answers)

  -- The outputs of a history, in order.
  unfoldable pub run : List (Event Ident) → Conn Ident → List (Output Ident)
  run [] c = []
  run (v ∷ vs) c = let (c', out) = step v c in out ++ run vs c'

  -- What the policy promises of one output: a backend pinned to an era is never sent the other
  -- era's first request, and a request for a capability that is not advertised stops here.
  unfoldable pub permitted : Bytes → Output Ident → Bool
  permitted era (to_backend (response _ _)) = true
  permitted era (to_backend (request _ method)) =
      not (pinned_modern era && method == method_initialize)
      && not (pinned_legacy era && method == method_discover)
  permitted era (to_client (response _ _)) = true
  permitted era (to_client (request id method)) = not (is_valid id && is_masked method)

  Permitted : Bytes → List (Output Ident) → Type 0
  Permitted era out = All (λ o. permitted era o ≡ true) out

  fail_locked-era : (m : Mismatch) (c : Conn Ident) → (fail_locked m c).era ≡ c.era
  unfolding fail_locked
  fail_locked-era m c = ground arith

  write-era : (m : Message Ident) (c : Conn Ident) → (write m c).0.era ≡ c.era
  unfolding write write_discover write_initialize refuse_fallback arm_probe
  write-era (response id bad) c = refl
  write-era (request id method) c = ground arith

  on_probe_answer-era :
      (id : Ident) (bad : Bool) (c : Conn Ident) → (on_probe_answer id bad c).0.era ≡ c.era
  unfolding on_probe_answer fail_locked
  on_probe_answer-era id bad c = ground arith

  on_probe_expired-era : (gen : ℕ) (c : Conn Ident) → (on_probe_expired gen c).0.era ≡ c.era
  unfolding on_probe_expired fail_locked
  on_probe_expired-era gen c = ground arith

  pub step-era : (v : Event Ident) (c : Conn Ident) → (step v c).0.era ≡ c.era
  unfolding step inspect
  step-era (client_writes m) c = write-era m c
  step-era (backend_says (response id bad)) c = on_probe_answer-era id bad c
  step-era (backend_says (request id method)) c = ground arith
  step-era (timer_fires gen) c = on_probe_expired-era gen c

  not_initialize :
      (method : Bytes) → method == method_discover ≡ true → method == method_initialize ≡ false
  not_initialize method h = rw ((list_beq_iff method method_discover).0 h) refl

  write_discover-Permitted :
      (id : Ident) (method : Bytes) (c : Conn Ident)
      → method == method_discover ≡ true
      → Permitted c.era (of_action (write_discover id method c).1)
  unfolding Permitted permitted write_discover of_action
      mcp_reverse_proxy.Backend.Interpose.probe_unsupported
  write_discover-Permitted id method c h = elim (Bool-cases (pinned_legacy c.era)) [
    | inl legacy ↦ simp legacy (refl, tt)
    | inr other ↦ simp (other, not_initialize method h) (ground arith, tt)
  ]

  refuse_fallback-modern :
      (c : Conn Ident)
      → pinned_modern c.era ≡ true
      → refuse_fallback c
        ≡ (record c { mismatch = some (recorded c.mismatch) }, some (recorded c.mismatch))
  unfolding refuse_fallback
  refuse_fallback-modern c h = rw h refl

  refuse_fallback-other :
      (c : Conn Ident) → pinned_modern c.era ≡ false → refuse_fallback c ≡ (c, none)
  unfolding refuse_fallback
  refuse_fallback-other c h = rw h refl

  write_initialize-Permitted :
      (id : Ident) (method : Bytes) (c : Conn Ident)
      → method == method_discover ≡ false
      → Permitted c.era (of_action (write_initialize id method c).1)
  unfolding Permitted permitted write_initialize after_refusal of_action
  write_initialize-Permitted id method c h = elim (Bool-cases (pinned_modern c.era)) [
    | inl modern ↦ rw (refuse_fallback-modern c modern) tt
    | inr other ↦ rw (refuse_fallback-other c other, other, h) (ground arith, tt)
  ]

  write-Permitted :
      (m : Message Ident) (c : Conn Ident) → Permitted c.era (step (client_writes m) c).1
  unfolding step Permitted permitted write of_action
  write-Permitted (response id bad) c = (refl, tt)
  write-Permitted (request id method) c = elim (Bool-cases (method == method_discover)) [
    | inl discover ↦ simp discover (write_discover-Permitted id method c discover)
    | inr other ↦ elim (Bool-cases (method == method_initialize)) [
      | inl initialize ↦ simp (other, initialize) (write_initialize-Permitted id method c other)
      | inr plain ↦ simp (other, plain) (ground arith, tt)
    ]
  ]

  inspect-Permitted :
      (m : Message Ident) (c : Conn Ident) → Permitted c.era (step (backend_says m) c).1
  unfolding step Permitted permitted inspect of_verdict
  inspect-Permitted (response id bad) c = elim (Bool-cases (on_probe_answer id bad c).1) [
    | inl wanted ↦ rw wanted (refl, tt)
    | inr unwanted ↦ rw unwanted tt
  ]
  inspect-Permitted (request id method) c = ground arith

  or_answer-Permitted :
      (era : Bytes) (o : Option Ident) → Permitted era (map to_client (or_answer o))
  unfolding Permitted permitted or_answer probe_unsupported
  or_answer-Permitted era none = tt
  or_answer-Permitted era (some id) = (refl, tt)

  expired-Permitted : (gen : ℕ) (c : Conn Ident) → Permitted c.era (step (timer_fires gen) c).1
  unfolding step Permitted permitted on_probe_expired or_answer
  expired-Permitted gen c = elim (Bool-cases (not c.probing || not (c.probe_gen == gen))) [
    | inl stale ↦ rw stale tt
    | inr live ↦ rw live (or_answer-Permitted c.era c.probe_id)
  ]

  step-Permitted : (v : Event Ident) (c : Conn Ident) → Permitted c.era (step v c).1
  step-Permitted (client_writes m) c = write-Permitted m c
  step-Permitted (backend_says m) c = inspect-Permitted m c
  step-Permitted (timer_fires gen) c = expired-Permitted gen c

  run-Permitted : (vs : List (Event Ident)) (c : Conn Ident) → Permitted c.era (run vs c)
  unfolding run Permitted
  run-Permitted [] c = tt
  run-Permitted (v ∷ vs) c = All-append _ (step v c).1 _ (step-Permitted v c) (
      subst (λ era. Permitted era (run vs (step v c).0)) (step-era v c)
        (run-Permitted vs (step v c).0))

  -- Whatever the client writes, the backend says and the timers do, in any order: a backend pinned
  -- to the modern era is never sent `initialize`, one pinned to the legacy era is never sent
  -- `server/discover`, and no request for a capability that is not advertised reaches the client.
  pub run-permitted :
      (era : Bytes) (vs : List (Event Ident))
      → All (λ o. permitted era o ≡ true) (run vs (new_conn era))
  unfolding new_conn Permitted
  run-permitted era vs = run-Permitted vs (new_conn era)
