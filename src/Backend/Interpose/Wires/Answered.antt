-- ===== src/Backend/Interpose/Wires/Answered.antt =====
-- internal/backend/interpose.go: how often the policy answers in the backend's place.
use mcp_reverse_proxy.Prelude.{
  ℕ, suc, ◌+◌, ◌≤◌, ◌≡◌, refl, ap, Bool, true, List, [], ◌∷◌, ◌++◌, arith, if◌then◌else◌, Decides,
  nat_eq, list_eq, length, Bytes,
}
use mcp_reverse_proxy.Backend.Interpose.{
  Message, response, request, Conn, new_conn, write, write_discover, write_initialize,
  after_refusal, refuse_fallback, arm_probe, fail_locked, inspect, on_probe_answer,
  on_probe_expired, or_answer, Verdict, delivers, drops, refuses,
}
use mcp_reverse_proxy.Backend.Interpose.Wires.{
  Pending, arming, injecting, writing, Heard, relayed, answered, Wires, new_wires, take_in,
  is_discover, left_to_do, probes_in, begin_write, expire, relayed_by, hand_over, Step,
  backend_says, read_inbound, read_injected, write_begins, deadline_sent, write_ends, write_fails,
  inject_ends, inject_cancelled, deadline_set, deadline_passes, answer_sent, Reach, here, next,
}

unfoldable pub flag : Bool → ℕ
flag b = if b then 1 else 0

module _ {Ident : Type 0} where
  unfoldable pub answers_in : List (Heard Ident) → ℕ
  answers_in [] = 0
  answers_in (relayed m ∷ hs) = answers_in hs
  answers_in (answered m ∷ hs) = suc (answers_in hs)

  unfoldable pub injections : List (Pending Ident) → ℕ
  injections [] = 0
  injections (arming gen m ∷ ps) = injections ps
  injections (injecting m ∷ ps) = suc (injections ps)
  injections (writing m ∷ ps) = injections ps

  -- The answers in the backend's place that the client has read, and those on their way.
  unfoldable pub answers : Wires Ident → ℕ
  answers w = answers_in w.heard + length w.injected + length w.answering + injections w.writers

  Bounded : Wires Ident → Type 0
  Bounded w = answers w + flag w.conn.probing ≤ w.probes

  answers_in-append :
      (xs ys : List (Heard Ident)) → answers_in (xs ++ ys) ≡ answers_in xs + answers_in ys
  unfolding answers_in
  answers_in-append [] ys = omega arith
  answers_in-append (relayed m ∷ xs) ys = omega (arith, answers_in-append xs ys)
  answers_in-append (answered m ∷ xs) ys = omega (arith, answers_in-append xs ys)

  injections-append :
      (xs ys : List (Pending Ident)) → injections (xs ++ ys) ≡ injections xs + injections ys
  unfolding injections
  injections-append [] ys = omega arith
  injections-append (arming gen m ∷ xs) ys = omega (arith, injections-append xs ys)
  injections-append (injecting m ∷ xs) ys = omega (arith, injections-append xs ys)
  injections-append (writing m ∷ xs) ys = omega (arith, injections-append xs ys)

  -- One that is done.
  injections-done :
      (ps xs ys : List (Pending Ident)) (p : Pending Ident)
      → ps ≡ xs ++ (p ∷ ys)
      → injections ps ≡ injections (p ∷ []) + injections (xs ++ ys)
  unfolding injections
  injections-done ps xs ys p e = ground (
    arith,
    ap injections e,
    injections-append xs (p ∷ ys),
    injections-append xs ys,
    injections-append (p ∷ []) ys,
  )

  write_counts :
      (m : Message Ident) (c : Conn Ident) (gen : ℕ)
      → injections (left_to_do gen (write m c).1) + flag (write m c).0.probing
        ≤ probes_in m + flag c.probing
  unfolding injections left_to_do is_discover probes_in flag write write_discover write_initialize
      after_refusal refuse_fallback arm_probe
  write_counts (response id bad) c gen = ground arith
  write_counts (request id method) c gen = ground arith

  expired_counts :
      (gen : ℕ) (c : Conn Ident)
      → length (on_probe_expired gen c).1 + flag (on_probe_expired gen c).0.probing ≤ flag c.probing
  unfolding flag on_probe_expired fail_locked or_answer
  expired_counts gen c = ground arith

  relayed_by-answers : (m : Message Ident) (v : Verdict Ident) → answers_in (relayed_by m v) ≡ 0
  unfolding answers_in relayed_by
  relayed_by-answers m delivers = refl
  relayed_by-answers m drops = refl
  relayed_by-answers m (refuses a) = refl

module _ {Ident : Type 0} ⦃e : Decides Ident⦄ (is_valid : Ident → Bool) where
  inspect_counts :
      (m : Message Ident) (c : Conn Ident) → flag (inspect is_valid m c).0.probing ≤ flag c.probing
  unfolding flag inspect on_probe_answer fail_locked
  inspect_counts (response id bad) c = ground arith
  inspect_counts (request id method) c = ground arith

  Step-Bounded : {w v : Wires Ident} → Step is_valid w v → Bounded w → Bounded v
  unfolding Bounded answers answers_in injections take_in begin_write expire hand_over
  Step-Bounded (backend_says m e) h = h
  Step-Bounded {w} (read_inbound m e) h =
      let v = inspect is_valid m w.conn in
      omega (
        arith,
        h,
        inspect_counts m w.conn,
        answers_in-append w.heard (relayed_by m v.1),
        relayed_by-answers m v.1,
      )
  Step-Bounded {w} (read_injected m rest e) h =
      omega (arith, h, ap length e, answers_in-append w.heard (answered m ∷ []))
  Step-Bounded {w} (write_begins m) h =
      let v = write m w.conn in
      omega (
        arith,
        h,
        write_counts m w.conn v.0.probe_gen,
        injections-append w.writers (left_to_do v.0.probe_gen v.1),
      )
  Step-Bounded {w} (deadline_sent gen m xs ys e free) h = omega (
    arith,
    h,
    injections-done w.writers xs ys (arming gen m) e,
    injections-done (xs ++ (writing m ∷ ys)) xs ys (writing m) refl,
  )
  Step-Bounded {w} (write_ends m xs ys e) h =
      omega (arith, h, injections-done w.writers xs ys (writing m) e)
  Step-Bounded {w} (write_fails m xs ys e) h =
      omega (arith, h, injections-done w.writers xs ys (writing m) e)
  Step-Bounded {w} (inject_ends m xs ys e free) h =
      omega (arith, h, ap length free, injections-done w.writers xs ys (injecting m) e)
  Step-Bounded {w} (inject_cancelled m xs ys e) h =
      omega (arith, h, injections-done w.writers xs ys (injecting m) e)
  Step-Bounded (deadline_set gen rest e free) h = h
  Step-Bounded {w} (deadline_passes gen e free) h =
      omega (arith, h, ap length free, expired_counts gen w.conn)
  Step-Bounded {w} (answer_sent m rest e free) h = omega (arith, h, ap length e, ap length free)

  Reach-Bounded : {era : Bytes} {w : Wires Ident} → Reach is_valid era w → Bounded w
  unfolding Bounded answers answers_in injections new_wires new_conn flag
  Reach-Bounded here = omega arith
  Reach-Bounded (next r s) = Step-Bounded s (Reach-Bounded r)

  -- Whatever the order in which the client writes, the backend speaks, deadlines pass and the
  -- goroutines run: the answers that the policy has given in the backend's place, with those that are
  -- on their way to the client, are no more than the probes that the client has written, and fewer
  -- while a probe is open.
  pub answers_bounded :
      {era : Bytes} {w : Wires Ident}
      → Reach is_valid era w
      → (answers w ≤ w.probes) × (w.conn.probing ≡ true → suc (answers w) ≤ w.probes)
  unfolding Bounded flag
  answers_bounded {era} {w} r =
      (omega (arith, Reach-Bounded r), λ probing. ground (arith, probing, Reach-Bounded r))
