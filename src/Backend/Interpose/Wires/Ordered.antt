-- ===== src/Backend/Interpose/Wires/Ordered.antt =====
-- internal/backend/interpose.go: the client reads what the backend said, in the backend's order.
use mcp_reverse_proxy.Prelude.{
  ◌≡◌, refl, ap, sym, ◌∙◌, Bool, true, not, ◌&&◌, Option, none, some, List, [], ◌∷◌, ◌++◌, arith,
  Decides, nat_eq, list_eq, Bytes, select, append-nil,
}
use mcp_reverse_proxy.Backend.Interpose.{
  Message, response, request, Conn, new_conn, is_masked, inspect,
}
use mcp_reverse_proxy.Backend.Interpose.Traces
use mcp_reverse_proxy.Backend.Interpose.Probe.{Settled, step-Settled, on_probe_answer-wanted}
use mcp_reverse_proxy.Backend.Interpose.Wires.{
  Heard, relayed, answered, Wires, new_wires, take_in, begin_write, expire, relayed_by, hand_over,
  Step, backend_says, read_inbound, read_injected, write_begins, deadline_sent, write_ends,
  write_fails, inject_ends, inject_cancelled, deadline_set, deadline_passes, answer_sent, Reach,
  here, next,
}

module _ {Ident : Type 0} where
  -- The messages of the backend among those that the client read.
  unfoldable pub relayed_of : List (Heard Ident) → List (Message Ident)
  relayed_of [] = []
  relayed_of (relayed m ∷ hs) = m ∷ relayed_of hs
  relayed_of (answered m ∷ hs) = relayed_of hs

  unfoldable pub waiting : Option (Message Ident) → List (Message Ident)
  waiting none = []
  waiting (some m) = m ∷ []

  relayed_of-append :
      (xs ys : List (Heard Ident)) → relayed_of (xs ++ ys) ≡ relayed_of xs ++ relayed_of ys
  unfolding relayed_of
  relayed_of-append [] ys = refl
  relayed_of-append (relayed m ∷ xs) ys = ap (λ l. m ∷ l) (relayed_of-append xs ys)
  relayed_of-append (answered m ∷ xs) ys = relayed_of-append xs ys

  select-append :
      (p : Message Ident → Bool) (xs ys : List (Message Ident))
      → select p (xs ++ ys) ≡ select p xs ++ select p ys
  select-append p [] ys = refl
  select-append p (x ∷ xs) ys = ground (arith, select-append p xs ys)

module _ {Ident : Type 0} ⦃e : Decides Ident⦄ (is_valid : Ident → Bool) where
  -- A message that is not a request for a capability that the gateway does not advertise.
  unfoldable pub passes : Message Ident → Bool
  passes (response id bad) = true
  passes (request id method) = not (is_valid id && is_masked method)

  record Ordered (w : Wires Ident) : Type 0 where
    settled : Settled is_valid w.conn
    kept : relayed_of w.heard ++ select passes (waiting w.held) ≡ select passes w.said

  relayed_by-passes :
      (m : Message Ident) (c : Conn Ident)
      → Settled is_valid c
      → relayed_of (relayed_by m (inspect is_valid m c).1) ≡ select passes (m ∷ [])
  unfolding passes relayed_of relayed_by inspect
  relayed_by-passes (response id bad) c h = rw (on_probe_answer-wanted is_valid id bad c h) refl
  relayed_by-passes (request id method) c h = ground arith

  kept_at :
      (w : Wires Ident) (h : Option (Message Ident))
      → w.held ≡ h
      → Ordered w
      → relayed_of w.heard ++ select passes (waiting h) ≡ select passes w.said
  kept_at w h e o = ap (λ h'. relayed_of w.heard ++ select passes (waiting h')) (sym e) ∙ o.kept

  Step-Ordered : {w v : Wires Ident} → Step is_valid w v → Ordered w → Ordered v
  unfolding relayed_of waiting take_in begin_write expire hand_over
      mcp_reverse_proxy.Backend.Interpose.Traces.step
  Step-Ordered {w} (backend_says m e) o = record {
    settled = o.settled;
    kept =
        ap (λ l. l ++ select passes (m ∷ []))
          (sym (append-nil (relayed_of w.heard)) ∙ kept_at w none e o)
        ∙ sym (select-append passes w.said (m ∷ []));
  }
  Step-Ordered {w} (read_inbound m e) o = record {
    settled = step-Settled is_valid (Traces.backend_says m) w.conn o.settled;
    kept =
        append-nil (relayed_of (hand_over is_valid m w).heard)
        ∙ relayed_of-append w.heard (relayed_by m (inspect is_valid m w.conn).1)
        ∙ ap (λ l. relayed_of w.heard ++ l) (relayed_by-passes m w.conn o.settled)
        ∙ kept_at w (some m) e o;
  }
  Step-Ordered {w} (read_injected m rest e) o = record {
    settled = o.settled;
    kept =
        ap (λ l. l ++ select passes (waiting w.held))
          (relayed_of-append w.heard (answered m ∷ []) ∙ append-nil (relayed_of w.heard))
        ∙ o.kept;
  }
  Step-Ordered {w} (write_begins m) o = record {
    settled = step-Settled is_valid (Traces.client_writes m) w.conn o.settled;
    kept = o.kept;
  }
  Step-Ordered (deadline_sent gen m xs ys e free) o = record { settled = o.settled; kept = o.kept }
  Step-Ordered (write_ends m xs ys e) o = record { settled = o.settled; kept = o.kept }
  Step-Ordered (write_fails m xs ys e) o = record { settled = o.settled; kept = o.kept }
  Step-Ordered (inject_ends m xs ys e free) o = record { settled = o.settled; kept = o.kept }
  Step-Ordered (inject_cancelled m xs ys e) o = record { settled = o.settled; kept = o.kept }
  Step-Ordered (deadline_set gen rest e free) o = record { settled = o.settled; kept = o.kept }
  Step-Ordered {w} (deadline_passes gen e free) o = record {
    settled = step-Settled is_valid (Traces.timer_fires gen) w.conn o.settled;
    kept = o.kept;
  }
  Step-Ordered (answer_sent m rest e free) o = record { settled = o.settled; kept = o.kept }

  Reach-Ordered : {era : Bytes} {w : Wires Ident} → Reach is_valid era w → Ordered w
  unfolding new_wires new_conn relayed_of waiting
  Reach-Ordered here = record { settled = refl; kept = refl }
  Reach-Ordered (next r s) = Step-Ordered s (Reach-Ordered r)

  -- Whatever the order in which the client writes, the backend speaks, deadlines pass and the
  -- goroutines run: the client has read the messages of the backend in the order in which the backend
  -- said them, each once, with none left out but the requests for a capability that the gateway does
  -- not advertise, and but the one that is being handed over.
  pub read_in_order :
      {era : Bytes} {w : Wires Ident}
      → Reach is_valid era w
      → relayed_of w.heard ++ select passes (waiting w.held) ≡ select passes w.said
  read_in_order r = (Reach-Ordered r).kept
