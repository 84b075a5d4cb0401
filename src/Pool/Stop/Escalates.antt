-- ===== src/Pool/Stop/Escalates.antt =====
-- internal/pool/stop.go: the steps are taken in order, and only as far as needed.
use mcp_reverse_proxy.Prelude.{◌≡◌, ◌↔◌, ◌⊎◌, true, false, [], ◌∷◌, arith, nat_eq, list_eq}
use mcp_reverse_proxy.Prelude.Int.{ℤ, pos}
use mcp_reverse_proxy.Pool.Stop.{
  Course, Deed, terminated, killed, stdin_closed, StopPolicy, stop, wait_for, signal_each, steps,
}

-- The process was signalled, and did not exit within the time that it was given for it.
abbrev pub Resists : Course → Deed → ℤ → Type 0
Resists c d grace = (c.fails d ≡ true) ⊎ (wait_for c d grace ≡ false)

-- A process that outlives the close of its input is sent SIGTERM, and one that outlives that too,
-- or cannot be sent it, is sent SIGKILL; nothing else is done to it, and nothing after it is seen
-- to be gone. It is reported as running exactly if it outlives all three and the last wait is cut
-- short.
pub stop_lem :
    (c : Course) (policy : StopPolicy)
    → (wait_for c stdin_closed policy.after_stdin ≡ true)
        × (((stop c policy).deeds ≡ stdin_closed ∷ []) × ((stop c policy).gone ≡ true))
      ⊎ (wait_for c stdin_closed policy.after_stdin ≡ false)
        × (((c.fails terminated ≡ false) × (wait_for c terminated policy.after_term ≡ true))
              × (((stop c policy).deeds ≡ stdin_closed ∷ terminated ∷ [])
                  × ((stop c policy).gone ≡ true))
            ⊎ Resists c terminated policy.after_term
              × (((stop c policy).deeds ≡ stdin_closed ∷ terminated ∷ killed ∷ [])
                  × (((stop c policy).gone ≡ false)
                      ↔ (Resists c killed (pos 0) × (c.gone_at_last ≡ false)))))
unfolding stop signal_each steps
stop_lem c policy = ground arith
