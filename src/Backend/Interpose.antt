-- ===== src/Backend/Interpose.antt =====
-- internal/backend/interpose.go: the era policy on one connection's messages. A method that takes
-- the mutex is one step. Identifiers are the JSON-RPC library's, with its test for a request that
-- wants an answer; of a message the model keeps what the policy reads.
pub mod Traces
pub mod Wires
pub mod Probe
pub mod Outcome
use mcp_reverse_proxy.Prelude.{
  ℕ, ◌+◌, ◌%◌, ◌^◌, Bool, true, false, not, ◌&&◌, ◌||◌, Option, none, some, List, [], ◌∷◌,
  if◌then◌else◌, Decides, ◌==◌, nat_eq, list_eq, Bytes, contains, codes,
}
use mcp_reverse_proxy.Config.Types.{era_modern, era_legacy}

abbrev pub method_discover : Bytes
method_discover = codes "server/discover"

abbrev pub method_initialize : Bytes
method_initialize = codes "initialize"

abbrev masked_requests : List Bytes
masked_requests =
    codes "sampling/createMessage" ∷ codes "roots/list" ∷ codes "elicitation/create" ∷ []

-- `isMasked`.
unfoldable pub is_masked : Bytes → Bool
is_masked method = contains masked_requests method

-- What `c.opts.era` is compared with.
unfoldable pub pinned_modern : Bytes → Bool
pinned_modern era = era == era_modern

unfoldable pub pinned_legacy : Bytes → Bool
pinned_legacy era = era == era_legacy

-- A response says whether it carries an error.
pub data Message (Ident : Type 0) : Type 0 where
  response : Ident → Bool → Message Ident
  request : Ident → Bytes → Message Ident

-- Why a backend pinned to the modern era is refused.
pub data Mismatch : Type 0 where
  answered_with_error : Mismatch
  no_answer_in_time : Mismatch
  discover_not_completed : Mismatch

-- `interposedConn`: the fields behind its mutex, with the pinned era of its options.
pub record Conn (Ident : Type 0) : Type 0 where
  pub era : Bytes
  pub probe_id : Option Ident
  pub probe_gen : ℕ
  pub probing : Bool
  pub expired : Bool
  pub detected : Bytes
  pub mismatch : Option Mismatch

-- What a call of `Write` does besides changing the connection.
pub data Action (Ident : Type 0) : Type 0 where
  sends : Message Ident → Action Ident
  injects : Message Ident → Action Ident
  fails : Mismatch → Action Ident

-- What `inspect` does with a message of the backend.
pub data Verdict (Ident : Type 0) : Type 0 where
  delivers : Verdict Ident
  drops : Verdict Ident
  refuses : Message Ident → Verdict Ident

-- `c.mismatch`, recorded now if nothing is.
unfoldable pub recorded : Option Mismatch → Mismatch
recorded none = discover_not_completed
recorded (some m) = m

module _ {Ident : Type 0} where
  -- `newInterposedConn`.
  unfoldable pub new_conn : Bytes → Conn Ident
  new_conn era = record {
    era = era;
    probe_id = none;
    probe_gen = 0;
    probing = false;
    expired = false;
    detected = [];
    mismatch = none;
  }

  -- `probeUnsupported`.
  unfoldable pub probe_unsupported : Ident → Message Ident
  probe_unsupported id = response id true

  -- `failLocked`.
  unfoldable pub fail_locked : Mismatch → Conn Ident → Conn Ident
  fail_locked reason c = if pinned_modern c.era then record c { mismatch = some reason } else c

  -- `armProbe`.
  unfoldable pub arm_probe : Ident → Conn Ident → Conn Ident
  arm_probe id c = record c {
    probe_id = some id;
    probe_gen = (c.probe_gen + 1) % 2 ^ 64;
    probing = true;
    expired = false;
  }

  or_answer : Option Ident → List (Message Ident)
  or_answer none = []
  or_answer (some id) = probe_unsupported id ∷ []

  -- `onProbeExpired`: the connection, and the answer given in the backend's place, if any.
  unfoldable pub on_probe_expired : ℕ → Conn Ident → Conn Ident × List (Message Ident)
  unfolding or_answer
  on_probe_expired gen c = if not c.probing || not (c.probe_gen == gen) then (c, []) else (
    fail_locked no_answer_in_time (record c { probing = false; expired = true }),
    or_answer c.probe_id,
  )

  -- `refuseFallback`: the connection, and the error.
  unfoldable pub refuse_fallback : Conn Ident → Conn Ident × Option Mismatch
  refuse_fallback c =
      if pinned_modern c.era
      then (record c { mismatch = some (recorded c.mismatch) }, some (recorded c.mismatch))
      else (c, none)

  write_discover : Ident → Bytes → Conn Ident → Conn Ident × Action Ident
  write_discover id method c =
      if pinned_legacy c.era
      then (record c { detected = era_legacy }, injects (probe_unsupported id))
      else (arm_probe id c, sends (request id method))

  after_refusal : Ident → Bytes → Conn Ident × Option Mismatch → Conn Ident × Action Ident
  after_refusal id method (c, some m) = (c, fails m)
  after_refusal id method (c, none) =
      (record c { detected = era_legacy }, sends (request id method))

  write_initialize : Ident → Bytes → Conn Ident → Conn Ident × Action Ident
  unfolding after_refusal
  write_initialize id method c = after_refusal id method (refuse_fallback c)

  -- `Write`.
  unfoldable pub write : Message Ident → Conn Ident → Conn Ident × Action Ident
  unfolding write_discover write_initialize after_refusal
  write (response id bad) c = (c, sends (response id bad))
  write (request id method) c =
      if method == method_discover
      then write_discover id method c
      else if method == method_initialize
      then write_initialize id method c
      else (c, sends (request id method))

module _ {Ident : Type 0} ⦃e : Decides Ident⦄ where
  -- `res.ID != c.probeID`.
  is_probe : Ident → Option Ident → Bool
  is_probe id none = false
  is_probe id (some probe) = id == probe

  -- `onProbeAnswer`: the connection, and whether the response is still wanted.
  unfoldable pub on_probe_answer : Ident → Bool → Conn Ident → Conn Ident × Bool
  unfolding is_probe
  on_probe_answer id bad c =
      if not c.probing || not (is_probe id c.probe_id)
      then (c, true)
      else if c.expired
      then (c, false)
      else if bad
      then (fail_locked answered_with_error (record c { probing = false }), true)
      else (record c { probing = false; detected = era_modern }, true)

module _ {Ident : Type 0} ⦃e : Decides Ident⦄ (is_valid : Ident → Bool) where
  -- `inspect`.
  unfoldable pub inspect : Message Ident → Conn Ident → Conn Ident × Verdict Ident
  inspect (response id bad) c =
      let (c', wanted) = on_probe_answer id bad c in (c', if wanted then delivers else drops)
  inspect (request id method) c =
      if is_valid id && is_masked method then (c, refuses (response id true)) else (c, delivers)
