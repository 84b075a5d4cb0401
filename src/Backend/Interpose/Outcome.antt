-- ===== src/Backend/Interpose/Outcome.antt =====
-- internal/backend/interpose.go: the era that a connection reports.
use mcp_reverse_proxy.Prelude.{
  ℕ, ◌≡◌, refl, sym, ◌∙◌, subst, ◌⊎◌, inl, inr, Bool, true, false, not, ◌&&◌, ◌||◌, none, List, [],
  ◌∷◌, arith, Decides, ◌==◌, nat_eq, list_beq_iff, list_eq, Bytes, is_empty,
}
use mcp_reverse_proxy.Config.Types.{era_modern, era_legacy}
use mcp_reverse_proxy.Backend.Interpose.{
  new_conn, Message, arm_probe, refuse_fallback, after_refusal, write_initialize, write_discover,
  Mismatch, pinned_legacy, write, inspect, on_probe_answer, pinned_modern, on_probe_expired,
  fail_locked, Conn, response, request,
}
use mcp_reverse_proxy.Backend.Interpose.Traces.{
  step-era, Event, client_writes, backend_says, timer_fires, step,
}
use mcp_reverse_proxy.Backend.Interpose.Probe.{after}

module _ {Ident : Type 0} ⦃e : Decides Ident⦄ (is_valid : Ident → Bool) where
  modern_kept : Conn Ident → Bool
  modern_kept c = not (pinned_modern c.era) || is_empty c.detected || pinned_modern c.detected

  -- A backend pinned to the legacy era is never probed.
  legacy_kept : Conn Ident → Bool
  legacy_kept c =
      not (pinned_legacy c.era)
      || (not c.probing && (is_empty c.detected || pinned_legacy c.detected))

  Kept : Conn Ident → Type 0
  Kept c = (modern_kept c ≡ true) × (legacy_kept c ≡ true)

  modern_is_pinned : pinned_modern era_modern ≡ true
  unfolding pinned_modern
  modern_is_pinned = refl

  legacy_is_pinned : pinned_legacy era_legacy ≡ true
  unfolding pinned_legacy
  legacy_is_pinned = refl

  pinned_apart : (era : Bytes) → pinned_legacy era ≡ true → pinned_modern era ≡ false
  unfolding pinned_legacy pinned_modern
  pinned_apart era h = rw ((list_beq_iff era era_legacy).0 h) refl

  fail_locked-Kept : (m : Mismatch) (c : Conn Ident) → Kept c → Kept (fail_locked m c)
  unfolding fail_locked Kept modern_kept legacy_kept
  fail_locked-Kept m c h = ground (arith, h)

  write-Kept : (m : Message Ident) (c : Conn Ident) → Kept c → Kept (write m c).0
  unfolding Kept modern_kept legacy_kept write write_discover write_initialize after_refusal
      refuse_fallback arm_probe
  write-Kept (response id bad) c h = h
  write-Kept (request id method) c h =
      ground (arith, h, modern_is_pinned, legacy_is_pinned, pinned_apart c.era)

  on_probe_answer-Kept :
      (id : Ident) (bad : Bool) (c : Conn Ident) → Kept c → Kept (on_probe_answer id bad c).0
  unfolding Kept modern_kept legacy_kept on_probe_answer fail_locked
  on_probe_answer-Kept id bad c h =
      ground (arith, h, modern_is_pinned, legacy_is_pinned, pinned_apart c.era)

  on_probe_expired-Kept : (gen : ℕ) (c : Conn Ident) → Kept c → Kept (on_probe_expired gen c).0
  unfolding Kept modern_kept legacy_kept on_probe_expired fail_locked
  on_probe_expired-Kept gen c h = ground (arith, h)

  step-Kept : (v : Event Ident) (c : Conn Ident) → Kept c → Kept (step is_valid v c).0
  unfolding step inspect
  step-Kept (client_writes m) c h = write-Kept m c h
  step-Kept (backend_says (response id bad)) c h = on_probe_answer-Kept id bad c h
  step-Kept (backend_says (request id method)) c h = ground arith
  step-Kept (timer_fires gen) c h = on_probe_expired-Kept gen c h

  after-Kept : (vs : List (Event Ident)) (c : Conn Ident) → Kept c → Kept (after is_valid vs c)
  unfolding after
  after-Kept [] c h = h
  after-Kept (v ∷ vs) c h = after-Kept vs (step is_valid v c).0 (step-Kept v c h)

  after-era : (vs : List (Event Ident)) (c : Conn Ident) → (after is_valid vs c).era ≡ c.era
  unfolding after
  after-era [] c = refl
  after-era (v ∷ vs) c = after-era vs (step is_valid v c).0 ∙ step-era is_valid v c

  new_conn-Kept : (era : Bytes) → Kept (new_conn era)
  unfolding Kept modern_kept legacy_kept new_conn is_empty
  new_conn-Kept era = ground arith

  pinned-found :
      (c : Conn Ident)
      → Kept c
      → (c.era ≡ era_modern) ⊎ (c.era ≡ era_legacy)
      → (is_empty c.detected ≡ true) ⊎ (c.detected ≡ c.era)
  unfolding Kept modern_kept legacy_kept pinned_modern pinned_legacy
  pinned-found c (modern, legacy) (inl pin) = rw pin (
      ground (
        arith,
        subst
            (λ era.
              not (era == era_modern) || is_empty c.detected || c.detected == era_modern ≡ true)
            pin modern,
        list_beq_iff c.detected era_modern,
      ))
  pinned-found c (modern, legacy) (inr pin) = rw pin (
      ground (
        arith,
        subst
            (λ era.
              not (era == era_legacy)
                || (not c.probing && (is_empty c.detected || c.detected == era_legacy))
              ≡ true)
            pin legacy,
        list_beq_iff c.detected era_legacy,
      ))

  -- After any history, a connection to a backend pinned to an era reports either no era or the era
  -- it is pinned to.
  pub outcome_era :
      (era : Bytes) (vs : List (Event Ident))
      → (era ≡ era_modern) ⊎ (era ≡ era_legacy)
      → let found = (after is_valid vs (new_conn era)).detected in
        (is_empty found ≡ true) ⊎ (found ≡ era)
  unfolding new_conn
  outcome_era era vs pinned =
      let c = after is_valid vs (new_conn era) in
      let same : c.era ≡ era = after-era vs (new_conn era) in
      subst (λ it. (is_empty c.detected ≡ true) ⊎ (c.detected ≡ it)) same
        (pinned-found c (after-Kept vs (new_conn era) (new_conn-Kept era))
          (subst (λ it. (it ≡ era_modern) ⊎ (it ≡ era_legacy)) (sym same) pinned))

  -- Only a backend that is pinned to the modern era has a mismatch.
  Blamed : Conn Ident → Type 0
  Blamed c = (c.mismatch ≡ none) ⊎ (pinned_modern c.era ≡ true)

  step-Blamed : (v : Event Ident) (c : Conn Ident) → Blamed c → Blamed (step is_valid v c).0
  unfolding Blamed step write write_discover write_initialize after_refusal refuse_fallback
      arm_probe inspect on_probe_answer on_probe_expired fail_locked
  step-Blamed (client_writes (response id bad)) c h = h
  step-Blamed (client_writes (request id method)) c h = ground arith
  step-Blamed (backend_says (response id bad)) c h = ground arith
  step-Blamed (backend_says (request id method)) c h = ground arith
  step-Blamed (timer_fires gen) c h = ground arith

  after-Blamed :
      (vs : List (Event Ident)) (c : Conn Ident) → Blamed c → Blamed (after is_valid vs c)
  unfolding after
  after-Blamed [] c h = h
  after-Blamed (v ∷ vs) c h = after-Blamed vs (step is_valid v c).0 (step-Blamed v c h)

  -- Only a backend that is pinned to the modern era is found to mismatch.
  pub after_blame :
      (era : Bytes) (vs : List (Event Ident))
      → ((after is_valid vs (new_conn era)).mismatch ≡ none) ⊎ (pinned_modern era ≡ true)
  unfolding new_conn Blamed
  after_blame era vs = elim (after-Blamed vs (new_conn era) (inl refl)) [
    | inl clean ↦ inl clean
    | inr pinned ↦ inr (subst (λ it. pinned_modern it ≡ true) (after-era vs (new_conn era)) pinned)
  ]
