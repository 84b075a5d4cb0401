-- ===== src/Examples/Channels.antt =====
-- The channels of internal/backend/interpose.go, with a backend that is silent until too late.
use mcp_reverse_proxy.Prelude.{
  ℕ, suc, ◌≤◌, ◌≡◌, refl, Bool, true, false, not, some, [], ◌∷◌, ◌++◌, ◌==◌, nat_eq, list_eq, codes,
  select,
}
use mcp_reverse_proxy.Config.Types.{era_auto}
use mcp_reverse_proxy.Backend.Interpose.{
  Message, request, response, method_discover, write, new_conn, arm_probe, on_probe_expired,
  probe_unsupported,
}
use mcp_reverse_proxy.Backend.Interpose.Wires.{
  Wires, new_wires, Reach, here, next, begin_write, expire, writing, left_to_do, is_discover,
  take_in, hand_over, answered, write_begins, deadline_sent, write_ends, deadline_set,
  deadline_passes, answer_sent, read_injected, backend_says, read_inbound,
}
use mcp_reverse_proxy.Backend.Interpose.Wires.Ordered.{read_in_order, relayed_of, waiting, passes}
use mcp_reverse_proxy.Backend.Interpose.Wires.Answered.{answers, answers_bounded}
use mcp_reverse_proxy.Backend.Interpose.Wires.Refined.{Follows, Reach-Follows}

abbrev wants_reply : ℕ → Bool
wants_reply id = not (id == 0)

abbrev probe : Message ℕ
probe = request 1 method_discover

-- The client probes; the deadline is sent, and the probe; the deadline is set, and passes.
abbrev probed : Wires ℕ
probed = begin_write probe (new_wires era_auto)

abbrev armed : Wires ℕ
armed = record probed { armed = 1 ∷ []; writers = writing probe ∷ [] }

abbrev written : Wires ℕ
written = record armed { writers = []; sent = probe ∷ [] }

abbrev timed : Wires ℕ
timed = record written { armed = []; timer = some 1 }

abbrev expired : Wires ℕ
expired = expire 1 timed

-- The answer is sent in the backend's place, and read; then the backend answers after all, and asks
-- for a sample.
abbrev replied : Wires ℕ
replied = record expired { injected = response 1 true ∷ []; answering = [] }

abbrev read : Wires ℕ
read = record replied { injected = []; heard = answered (response 1 true) ∷ [] }

abbrev sample : Message ℕ
sample = request 7 (codes "sampling/createMessage")

abbrev late : Wires ℕ
late = hand_over wants_reply (response 1 false) (take_in (response 1 false) read)

abbrev sampled : Wires ℕ
sampled = hand_over wants_reply sample (take_in sample late)

expired_reached : Reach wants_reply era_auto expired
unfolding begin_write new_wires expire write new_conn arm_probe left_to_do is_discover
    mcp_reverse_proxy.Backend.Interpose.pinned_legacy
expired_reached =
    next
      (next
        (next (next (next here (write_begins probe)) (deadline_sent 1 probe [] [] refl refl))
          (write_ends probe [] [] refl))
        (deadline_set 1 [] refl refl))
      (deadline_passes 1 refl refl)

sampled_reached : Reach wants_reply era_auto sampled
unfolding begin_write new_wires expire write new_conn arm_probe on_probe_expired probe_unsupported
    hand_over take_in mcp_reverse_proxy.Backend.Interpose.pinned_legacy
    mcp_reverse_proxy.Backend.Interpose.fail_locked
sampled_reached =
    next
      (next
        (next
          (next
            (next (next expired_reached (answer_sent (response 1 true) [] refl refl))
              (read_injected (response 1 true) [] refl))
            (backend_says (response 1 false) refl))
          (read_inbound (response 1 false) refl))
        (backend_says sample refl))
      (read_inbound sample refl)

sampled_test : sampled.sent ≡ probe ∷ response 7 true ∷ []
unfolding begin_write new_wires expire hand_over take_in mcp_reverse_proxy.Backend.Interpose.inspect
    mcp_reverse_proxy.Backend.Interpose.is_masked
    mcp_reverse_proxy.Backend.Interpose.Wires.refused_by
    mcp_reverse_proxy.Backend.Interpose.on_probe_answer on_probe_expired write
    mcp_reverse_proxy.Backend.Interpose.pinned_legacy new_conn arm_probe
    mcp_reverse_proxy.Backend.Interpose.fail_locked
    mcp_reverse_proxy.Backend.Interpose.pinned_modern
sampled_test = refl

read_in_order_example :
    relayed_of sampled.heard ++ select (passes wants_reply) (waiting sampled.held)
    ≡ select (passes wants_reply) sampled.said
read_in_order_example = read_in_order wants_reply sampled_reached

answers_bounded_example :
    (answers sampled ≤ sampled.probes)
    × (sampled.conn.probing ≡ true → suc (answers sampled) ≤ sampled.probes)
answers_bounded_example = answers_bounded wants_reply sampled_reached

Reach-Follows_example : Follows wants_reply era_auto sampled
Reach-Follows_example = Reach-Follows wants_reply sampled_reached
