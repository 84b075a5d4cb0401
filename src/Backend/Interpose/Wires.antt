-- ===== src/Backend/Interpose/Wires.antt =====
-- internal/backend/interpose.go: the channels of a connection, and the goroutines on them, up to
-- `Close`. A step is one critical section or one communication, so that `Read`, `readLoop`,
-- `watchProbe` and any number of calls of `Write` may interleave.
pub mod Ordered
pub mod Among
pub mod Answered
pub mod Refined
use mcp_reverse_proxy.Prelude.{
  ℕ, ◌+◌, ◌≡◌, Bool, false, Option, none, some, List, [], ◌∷◌, ◌++◌, if◌then◌else◌, Decides, ◌==◌,
  nat_eq, list_eq, Bytes,
}
use mcp_reverse_proxy.Backend.Interpose.{
  Message, response, request, Conn, new_conn, Action, sends, injects, fails, Verdict, delivers,
  drops, refuses, write, inspect, on_probe_expired, method_discover,
}

-- What a call of `Write` has left to do: to send the probe's deadline and then the probe, to answer
-- in the backend's place, or to write to the backend.
pub data Pending (Ident : Type 0) : Type 0 where
  arming : ℕ → Message Ident → Pending Ident
  injecting : Message Ident → Pending Ident
  writing : Message Ident → Pending Ident

-- What `Read` returns: a message of the backend, or one in its place.
pub data Heard (Ident : Type 0) : Type 0 where
  relayed : Message Ident → Heard Ident
  answered : Message Ident → Heard Ident

-- The connection with what is on its way: `held` is what `readLoop` offers on the channel `inbound`,
-- which has no buffer; `injected` and `armed` are the buffers of those channels; `timer` is the
-- generation that `watchProbe` waits for, and `answering` what it offers on `injected`. The rest is
-- what has passed: what the backend said, what the client read, what was written to the backend, and
-- how many probes the client has written.
pub record Wires (Ident : Type 0) : Type 0 where
  pub conn : Conn Ident
  pub held : Option (Message Ident)
  pub injected : List (Message Ident)
  pub armed : List ℕ
  pub timer : Option ℕ
  pub answering : List (Message Ident)
  pub writers : List (Pending Ident)
  pub said : List (Message Ident)
  pub heard : List (Heard Ident)
  pub sent : List (Message Ident)
  pub probes : ℕ

module _ {Ident : Type 0} where
  -- `newInterposedConn`.
  unfoldable pub new_wires : Bytes → Wires Ident
  new_wires era = record {
    conn = new_conn era;
    held = none;
    injected = [];
    armed = [];
    timer = none;
    answering = [];
    writers = [];
    said = [];
    heard = [];
    sent = [];
    probes = 0;
  }

  -- A turn of `readLoop`.
  unfoldable pub take_in : Message Ident → Wires Ident → Wires Ident
  take_in m w = record w { held = some m; said = w.said ++ (m ∷ []) }

  unfoldable pub is_discover : Message Ident → Bool
  is_discover (response id bad) = false
  is_discover (request id method) = method == method_discover

  -- What `Write` goes on to do after its critical section.
  unfoldable pub left_to_do : ℕ → Action Ident → List (Pending Ident)
  left_to_do gen (sends m) = (if is_discover m then arming gen m else writing m) ∷ []
  left_to_do gen (injects m) = injecting m ∷ []
  left_to_do gen (fails reason) = []

  unfoldable pub probes_in : Message Ident → ℕ
  probes_in m = if is_discover m then 1 else 0

  -- The critical section of `Write`.
  unfoldable pub begin_write : Message Ident → Wires Ident → Wires Ident
  begin_write m w =
      let (c, action) = write m w.conn in
      record w {
        conn = c;
        writers = w.writers ++ left_to_do c.probe_gen action;
        probes = probes_in m + w.probes;
      }

  -- The case of `expiry` in `watchProbe`.
  unfoldable pub expire : ℕ → Wires Ident → Wires Ident
  expire gen w =
      let (c, answers) = on_probe_expired gen w.conn in
      record w { conn = c; timer = none; answering = answers }

  unfoldable pub relayed_by : Message Ident → Verdict Ident → List (Heard Ident)
  relayed_by m delivers = relayed m ∷ []
  relayed_by m drops = []
  relayed_by m (refuses answer) = []

  unfoldable pub refused_by : Verdict Ident → List (Message Ident)
  refused_by delivers = []
  refused_by drops = []
  refused_by (refuses answer) = answer ∷ []

module _ {Ident : Type 0} ⦃e : Decides Ident⦄ (is_valid : Ident → Bool) where
  -- The case of `inbound` in `Read`.
  unfoldable pub hand_over : Message Ident → Wires Ident → Wires Ident
  hand_over m w =
      let (c, verdict) = inspect is_valid m w.conn in
      record w {
        conn = c;
        held = none;
        heard = w.heard ++ relayed_by m verdict;
        sent = w.sent ++ refused_by verdict;
      }

  pub data Step (w : Wires Ident) : Wires Ident → Type 0 where
    backend_says : (m : Message Ident) → w.held ≡ none → Step w (take_in m w)
    read_inbound : (m : Message Ident) → w.held ≡ some m → Step w (hand_over m w)
    read_injected :
        (m : Message Ident) (rest : List (Message Ident))
        → w.injected ≡ m ∷ rest
        → Step w (record w { injected = rest; heard = w.heard ++ (answered m ∷ []) })
    write_begins : (m : Message Ident) → Step w (begin_write m w)
    deadline_sent :
        (gen : ℕ) (m : Message Ident) (xs ys : List (Pending Ident))
        → w.writers ≡ xs ++ (arming gen m ∷ ys)
        → w.armed ≡ []
        → Step w (record w { armed = gen ∷ []; writers = xs ++ (writing m ∷ ys) })
    write_ends :
        (m : Message Ident) (xs ys : List (Pending Ident))
        → w.writers ≡ xs ++ (writing m ∷ ys)
        → Step w (record w { writers = xs ++ ys; sent = w.sent ++ (m ∷ []) })
    write_fails :
        (m : Message Ident) (xs ys : List (Pending Ident))
        → w.writers ≡ xs ++ (writing m ∷ ys)
        → Step w (record w { writers = xs ++ ys })
    inject_ends :
        (m : Message Ident) (xs ys : List (Pending Ident))
        → w.writers ≡ xs ++ (injecting m ∷ ys)
        → w.injected ≡ []
        → Step w (record w { injected = m ∷ []; writers = xs ++ ys })
    inject_cancelled :
        (m : Message Ident) (xs ys : List (Pending Ident))
        → w.writers ≡ xs ++ (injecting m ∷ ys)
        → Step w (record w { writers = xs ++ ys })
    deadline_set :
        (gen : ℕ) (rest : List ℕ)
        → w.armed ≡ gen ∷ rest
        → w.answering ≡ []
        → Step w (record w { armed = rest; timer = some gen })
    deadline_passes : (gen : ℕ) → w.timer ≡ some gen → w.answering ≡ [] → Step w (expire gen w)
    answer_sent :
        (m : Message Ident) (rest : List (Message Ident))
        → w.answering ≡ m ∷ rest
        → w.injected ≡ []
        → Step w (record w { injected = m ∷ []; answering = rest })

  pub data Reach (era : Bytes) : Wires Ident → Type 0 where
    here : Reach era (new_wires era)
    next : {v w : Wires Ident} → Reach era v → Step v w → Reach era w
