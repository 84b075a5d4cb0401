-- ===== src/Backend/Interpose/Wires/Refined.antt =====
-- internal/backend/interpose.go: whatever the channels do, the connection follows a history of its
-- critical sections.
use mcp_reverse_proxy.Prelude.{
  ℕ, ◌≡◌, refl, sym, ap, ◌∙◌, subst, Bool, List, [], ◌∷◌, ◌++◌, map, append_assoc, append-nil,
  Decides, nat_eq, list_eq, Bytes, All, All-append, All-split, In,
}
use mcp_reverse_proxy.Backend.Interpose.{Message, Conn, new_conn, write, inspect, on_probe_expired}
use mcp_reverse_proxy.Backend.Interpose.Traces
use mcp_reverse_proxy.Backend.Interpose.Traces.{
  Event, client_writes, timer_fires, Output, to_client, step, run, of_action, of_verdict,
}
use mcp_reverse_proxy.Backend.Interpose.Probe.{after}
use mcp_reverse_proxy.Backend.Interpose.Wires.{
  arming, injecting, writing, answered, Wires, new_wires, take_in, begin_write, expire, hand_over,
  Step, backend_says, read_inbound, read_injected, write_begins, deadline_sent, write_ends,
  write_fails, inject_ends, inject_cancelled, deadline_set, deadline_passes, answer_sent, Reach,
  here, next,
}
use mcp_reverse_proxy.Backend.Interpose.Wires.Among.{
  Among, reading, destined, Among-wider, taken_out, left_to_do-among, relayed_by-among,
  refused_by-among, answers-among,
}

module _ {Ident : Type 0} ⦃e : Decides Ident⦄ (is_valid : Ident → Bool) where
  after-next :
      (vs : List (Event Ident)) (v : Event Ident) (c : Conn Ident)
      → after is_valid (vs ++ (v ∷ [])) c ≡ (step is_valid v (after is_valid vs c)).0
  unfolding after
  after-next [] v c = refl
  after-next (x ∷ vs) v c = after-next vs v (step is_valid x c).0

  run-next :
      (vs : List (Event Ident)) (v : Event Ident) (c : Conn Ident)
      → run is_valid (vs ++ (v ∷ [])) c
        ≡ run is_valid vs c ++ (step is_valid v (after is_valid vs c)).1
  unfolding run after
  run-next [] v c = append-nil (step is_valid v c).1
  run-next (x ∷ vs) v c =
      ap (λ out. (step is_valid x c).1 ++ out) (run-next vs v (step is_valid x c).0)
      ∙ sym (append_assoc (step is_valid x c).1 (run is_valid vs (step is_valid x c).0) _)

  -- The connection stands as after this history, and what has passed is among its outputs.
  pub record Follows (era : Bytes) (w : Wires Ident) : Type 0 where
    pub history : List (Event Ident)
    pub conn : after is_valid history (new_conn era) ≡ w.conn
    pub among : Among (run is_valid history (new_conn era)) w

  -- A critical section is the next event.
  extend :
      (era : Bytes) (v : Event Ident) (w w' : Wires Ident)
      → w'.conn ≡ (step is_valid v w.conn).0
      → ((out : List (Output Ident)) → Among out w → Among (out ++ (step is_valid v w.conn).1) w')
      → Follows era w
      → Follows era w'
  extend era v w w' e grow f = record {
    history = f.history ++ (v ∷ []);
    conn = after-next f.history v (new_conn era) ∙ ap (λ c. (step is_valid v c).0) f.conn ∙ sym e;
    among =
        subst (λ out. Among out w')
          (sym (
            run-next f.history v (new_conn era)
            ∙ ap (λ c. run is_valid f.history (new_conn era) ++ (step is_valid v c).1) f.conn))
          (grow (run is_valid f.history (new_conn era)) f.among);
  }

  -- A communication leaves the history as it is.
  keep :
      (era : Bytes) (w w' : Wires Ident)
      → w'.conn ≡ w.conn
      → ((out : List (Output Ident)) → Among out w → Among out w')
      → Follows era w
      → Follows era w'
  keep era w w' e move f = record {
    history = f.history;
    conn = f.conn ∙ sym e;
    among = move (run is_valid f.history (new_conn era)) f.among;
  }

  write-Among :
      (m : Message Ident) (w : Wires Ident) (out : List (Output Ident))
      → Among out w
      → Among (out ++ (step is_valid (client_writes m) w.conn).1) (begin_write m w)
  unfolding begin_write step Among
  write-Among m w out a =
      let v = write m w.conn in
      let (sent, heard, injected, answering, writers) = Among-wider out (of_action v.1) w a in
      let more = left_to_do-among v.0.probe_gen v.1 out in
      (sent, heard, injected, answering, All-append _ w.writers _ writers more)

  read-Among :
      (m : Message Ident) (w : Wires Ident) (out : List (Output Ident))
      → Among out w
      → Among (out ++ (step is_valid (Traces.backend_says m) w.conn).1) (hand_over is_valid m w)
  unfolding hand_over step Among
  read-Among m w out a =
      let v = inspect is_valid m w.conn in
      let (sent, heard, injected, answering, writers) = Among-wider out (of_verdict m v.1) w a in
      let refused = refused_by-among m v.1 out in
      let read = relayed_by-among m v.1 out in
      (
        All-append _ w.sent _ sent refused,
        All-append _ w.heard _ heard read,
        injected,
        answering,
        writers,
      )

  expire-Among :
      (gen : ℕ) (w : Wires Ident) (out : List (Output Ident))
      → Among out w
      → Among (out ++ (step is_valid (timer_fires gen) w.conn).1) (expire gen w)
  unfolding expire step Among
  expire-Among gen w out a =
      let v = on_probe_expired gen w.conn in
      let (sent, heard, injected, answering, writers) = Among-wider out (map to_client v.1) w a in
      (sent, heard, injected, answers-among v.1 out, writers)

  Step-Follows :
      {era : Bytes} {w w' : Wires Ident} → Step is_valid w w' → Follows era w → Follows era w'
  unfolding take_in begin_write expire hand_over step destined reading Among
  Step-Follows {era} {w} {w'} (backend_says m e) = keep era w w' refl (λ out a. a)
  Step-Follows {era} {w} {w'} (read_inbound m e) =
      extend era (Traces.backend_says m) w w' refl (read-Among m w)
  Step-Follows {era} {w} {w'} (read_injected m rest e) = keep era w w' refl (λ out a.
      let (sent, heard, injected, answering, writers) = a in
      let (first, left) = subst (All (λ m'. In (to_client m') out)) e injected in
      (sent, All-append _ w.heard (answered m ∷ []) heard (first, tt), left, answering, writers))
  Step-Follows {era} {w} {w'} (write_begins m) =
      extend era (client_writes m) w w' refl (write-Among m w)
  Step-Follows {era} {w} {w'} (deadline_sent gen m xs ys e free) = keep era w w' refl (λ out a.
      let (sent, heard, injected, answering, writers) = a in
      let (hx, hy) = All-split _ xs (arming gen m ∷ ys) (subst (All _) e writers) in
      (sent, heard, injected, answering, All-append _ xs (writing m ∷ ys) hx hy))
  Step-Follows {era} {w} {w'} (write_ends m xs ys e) = keep era w w' refl (λ out a.
      let (sent, heard, injected, answering, writers) = a in
      let (done, left) = taken_out _ w.writers xs ys (writing m) e writers in
      (All-append _ w.sent (m ∷ []) sent (done, tt), heard, injected, answering, left))
  Step-Follows {era} {w} {w'} (write_fails m xs ys e) = keep era w w' refl (λ out a.
      let (sent, heard, injected, answering, writers) = a in
      let (_, left) = taken_out _ w.writers xs ys (writing m) e writers in
      (sent, heard, injected, answering, left))
  Step-Follows {era} {w} {w'} (inject_ends m xs ys e free) = keep era w w' refl (λ out a.
      let (sent, heard, injected, answering, writers) = a in
      let (done, left) = taken_out _ w.writers xs ys (injecting m) e writers in
      (sent, heard, (done, tt), answering, left))
  Step-Follows {era} {w} {w'} (inject_cancelled m xs ys e) = keep era w w' refl (λ out a.
      let (sent, heard, injected, answering, writers) = a in
      let (_, left) = taken_out _ w.writers xs ys (injecting m) e writers in
      (sent, heard, injected, answering, left))
  Step-Follows {era} {w} {w'} (deadline_set gen rest e free) = keep era w w' refl (λ out a. a)
  Step-Follows {era} {w} {w'} (deadline_passes gen e free) =
      extend era (timer_fires gen) w w' refl (expire-Among gen w)
  Step-Follows {era} {w} {w'} (answer_sent m rest e free) = keep era w w' refl (λ out a.
      let (sent, heard, injected, answering, writers) = a in
      let (first, left) = subst (All (λ m'. In (to_client m') out)) e answering in
      (sent, heard, (first, tt), left, writers))

  -- Whatever the order in which the client writes, the backend speaks, deadlines pass and the
  -- goroutines run, there is a history of writes, messages of the backend and expired deadlines after
  -- which the connection stands as it does, and among whose outputs is whatever was sent to the
  -- backend, read by the client or is on its way to either. What holds of every history, such as
  -- `run-permitted`, so holds of the channels.
  pub Reach-Follows : {era : Bytes} {w : Wires Ident} → Reach is_valid era w → Follows era w
  unfolding new_wires after run Among
  Reach-Follows here = record { history = []; conn = refl; among = (tt, tt, tt, tt, tt) }
  Reach-Follows (next r s) = Step-Follows s (Reach-Follows r)
