-- ===== src/Backend/Interpose/Probe.antt =====
-- internal/backend/interpose.go: probes that are answered, and probes that are not.
use mcp_reverse_proxy.Prelude.{
  ℕ, ◌≡◌, refl, sym, ◌≢◌, inl, inr, Bool, true, false, ◌&&◌, List, [], ◌∷◌, arith, Decides, nat_eq,
  list_eq, ==-refl, ==-cases, Bytes,
}
use mcp_reverse_proxy.Backend.Interpose.{
  Message, refuse_fallback, after_refusal, probe_unsupported, or_answer, write_initialize,
  write_discover, new_conn, arm_probe, Mismatch, on_probe_answer, fail_locked, on_probe_expired,
  Conn, inspect, write, delivers, response, request,
}
use mcp_reverse_proxy.Backend.Interpose.Traces.{
  Event, client_writes, backend_says, timer_fires, step,
}

module _ {Ident : Type 0} ⦃e : Decides Ident⦄ (is_valid : Ident → Bool) where
  -- The connection after a history.
  unfoldable pub after : List (Event Ident) → Conn Ident → Conn Ident
  after [] c = c
  after (v ∷ vs) c = after vs (step is_valid v c).0

  -- No probe is both open and expired.
  abbrev pub Settled : Conn Ident → Type 0
  Settled c = c.probing && c.expired ≡ false

  fail_locked-Settled : (m : Mismatch) (c : Conn Ident) → Settled c → Settled (fail_locked m c)
  unfolding fail_locked
  fail_locked-Settled m c h = ground arith

  write-Settled : (m : Message Ident) (c : Conn Ident) → Settled c → Settled (write m c).0
  unfolding write write_discover write_initialize after_refusal refuse_fallback arm_probe
  write-Settled (response id bad) c h = h
  write-Settled (request id method) c h = ground arith

  on_probe_answer-Settled :
      (id : Ident) (bad : Bool) (c : Conn Ident) → Settled c → Settled (on_probe_answer id bad c).0
  unfolding on_probe_answer fail_locked
  on_probe_answer-Settled id bad c h = ground arith

  on_probe_expired-Settled :
      (gen : ℕ) (c : Conn Ident) → Settled c → Settled (on_probe_expired gen c).0
  unfolding on_probe_expired fail_locked
  on_probe_expired-Settled gen c h = ground arith

  pub step-Settled : (v : Event Ident) (c : Conn Ident) → Settled c → Settled (step is_valid v c).0
  unfolding step inspect
  step-Settled (client_writes m) c h = write-Settled m c h
  step-Settled (backend_says (response id bad)) c h = on_probe_answer-Settled id bad c h
  step-Settled (backend_says (request id method)) c h = ground arith
  step-Settled (timer_fires gen) c h = on_probe_expired-Settled gen c h

  after-Settled : (vs : List (Event Ident)) (c : Conn Ident) → Settled c → Settled (after vs c)
  unfolding after
  after-Settled [] c h = h
  after-Settled (v ∷ vs) c h = after-Settled vs (step is_valid v c).0 (step-Settled v c h)

  pub on_probe_answer-wanted :
      (id : Ident) (bad : Bool) (c : Conn Ident) → Settled c → (on_probe_answer id bad c).1 ≡ true
  unfolding on_probe_answer
  on_probe_answer-wanted id bad c h = ground arith

  -- After any history of a new connection every response of the backend is still delivered to the
  -- client, also one that answers a probe whose deadline has passed and which the policy has
  -- answered in the backend's place.
  pub responses_all_delivered :
      (era : Bytes) (vs : List (Event Ident)) (id : Ident) (bad : Bool)
      → (inspect is_valid (response id bad) (after vs (new_conn era))).1 ≡ delivers
  unfolding inspect new_conn
  responses_all_delivered era vs id bad =
      rw
        (on_probe_answer-wanted id bad (after vs (new_conn era))
          (after-Settled vs (new_conn era) refl))
        refl

  silent-after : (c : Conn Ident) (gen : ℕ) → c.probing ≡ false → (on_probe_expired gen c).1 ≡ []
  unfolding on_probe_expired
  silent-after c gen h = ground (arith, h)

  expired-probing : (c : Conn Ident) → (on_probe_expired c.probe_gen c).0.probing ≡ false
  unfolding on_probe_expired fail_locked
  expired-probing c = ground (arith, ==-refl c.probe_gen)

  timer-stale : (gen : ℕ) (c : Conn Ident) → gen ≢ c.probe_gen → on_probe_expired gen c ≡ (c, [])
  unfolding on_probe_expired
  timer-stale gen c h = elim (==-cases c.probe_gen gen) [
    | inl (_, same) ↦ absurd (h (sym same))
    | inr (differs, _) ↦ ground (arith, differs)
  ]

  -- A timer that fires expires the probe that armed it and no other: after a probe is written, the
  -- timer of its generation answers that probe in the backend's place, once, and a timer of another
  -- generation changes nothing.
  pub timer_expires_own_probe :
      (id : Ident) (c : Conn Ident) (gen : ℕ)
      → gen ≢ (arm_probe id c).probe_gen
      → let armed = arm_probe id c in
        let (once, answers) = on_probe_expired armed.probe_gen armed in
        (answers ≡ probe_unsupported id ∷ [])
        × ((on_probe_expired armed.probe_gen once).1 ≡ [])
        × (on_probe_expired gen armed ≡ (armed, []))
  unfolding on_probe_expired arm_probe or_answer
  timer_expires_own_probe id c gen other = (
    rw (==-refl (arm_probe id c).probe_gen) refl,
    silent-after _ (arm_probe id c).probe_gen (expired-probing (arm_probe id c)),
    timer-stale gen (arm_probe id c) other,
  )
