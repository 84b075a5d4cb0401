-- ===== src/Examples/Pool.antt =====
-- A pool of two slots, one for each subject, whose callbacks are numbers.
use mcp_reverse_proxy.Pool.Ops.Evictions.{try_acquire_victim}
use mcp_reverse_proxy.Prelude.Int.{pos_part}
use mcp_reverse_proxy.Pool.Ops.Outcomes.{try_acquire-Serves, Serves}
use mcp_reverse_proxy.Pool.Counts.{keys_of}
use mcp_reverse_proxy.Pool.Ops.Refusals.{try_acquire_refusal, Refused}
use mcp_reverse_proxy.Prelude.{
  ℕ, ◌≤◌, ◌≡◌, refl, ◌↔◌, false, some, List, [], ◌∷◌, ok, err, nat_eq, list_eq, Bytes, length, All,
  contains, codes, In,
}
use mcp_reverse_proxy.Pool.Types.{subject_quota_exhausted, Key, key_eq, Entry, Pool}
use mcp_reverse_proxy.Pool.Eviction.{Idler}
use mcp_reverse_proxy.Pool.Entries.{least_recently_used}
use mcp_reverse_proxy.Pool.Ops.{try_acquire, new_pool}
use mcp_reverse_proxy.Pool.Ops.Invariant.{Inv}
use mcp_reverse_proxy.Pool.Ops.History.{Reach-Inv}
use mcp_reverse_proxy.Pool.Ops.Subscriptions.{wanted}
use mcp_reverse_proxy.Pool.Steps.{
  Command, acquires, releases, subscribes, unsubscribes, step, Reach, start_up, call,
}
use mcp_reverse_proxy.Examples.Config.{limits, git}

abbrev key_of : Bytes → Key
key_of s = record { subject = s; fingerprint = codes "fp" }

-- Alice and Bob are served, then Alice's request ends.
abbrev busy : Pool ℕ
busy = step (releases 0 5) (
    step (acquires (key_of (codes "bob")) git 2)
      (step (acquires (key_of (codes "alice")) git 1) (new_pool limits)))

abbrev carol : Key
carol = key_of (codes "carol")

busy_reached : Reach limits busy
busy_reached =
    call
      (call (call start_up (acquires (key_of (codes "alice")) git 1))
        (acquires (key_of (codes "bob")) git 2))
      (releases 0 5)

Reach-Inv_example : Inv busy × (busy.limits ≡ limits)
Reach-Inv_example = Reach-Inv busy_reached

-- Alice's entry, idle since time 5.
abbrev alice_entry : Entry ℕ
alice_entry = record {
  ref = 0;
  key = key_of (codes "alice");
  server = git;
  backend = record { listeners = []; next_id = 0 };
  last_used = 5;
  inflight = 0;
  releases = [];
}

eviction_test : (try_acquire carol git 9 busy).1 ≡ ok (2, some alice_entry)
unfolding try_acquire step mcp_reverse_proxy.Pool.Ops.release new_pool
    mcp_reverse_proxy.Pool.Entries.find_entry mcp_reverse_proxy.Prelude.Maps.lookup
    mcp_reverse_proxy.Pool.Ops.insert_entry mcp_reverse_proxy.Pool.Types.key_beq
    mcp_reverse_proxy.Pool.Ops.fresh_entry mcp_reverse_proxy.Pool.Entries.remove_entry
    mcp_reverse_proxy.Pool.Entries.raise mcp_reverse_proxy.Prelude.Maps.insert
    mcp_reverse_proxy.Pool.Entries.update_ref least_recently_used
    mcp_reverse_proxy.Pool.Listeners.silent
eviction_test = refl

try_acquire-Serves_example : Serves carol 2 (try_acquire carol git 9 busy).0
try_acquire-Serves_example = try_acquire-Serves carol git 9 busy 2 (some alice_entry) eviction_test

busy-Inv : Inv busy
busy-Inv = (Reach-Inv busy_reached).0

try_acquire_victim_example :
    In alice_entry busy.entries
    × (alice_entry.inflight ≡ 0)
    × All (Idler alice_entry) busy.entries
    × (contains (keys_of (try_acquire carol git 9 busy).0.entries) alice_entry.key ≡ false)
    × (length (try_acquire carol git 9 busy).0.entries ≡ length busy.entries)
    × (pos_part busy.limits.max_processes ≤ length busy.entries)
try_acquire_victim_example =
    try_acquire_victim carol git 9 busy 2 alice_entry busy-Inv eviction_test

-- Bob may have one backend only.
try_acquire_refusal_example :
    ((try_acquire (record { subject = codes "bob"; fingerprint = codes "other" }) git 9 busy).1
      ≡ err subject_quota_exhausted)
    ↔ Refused
        (record { subject = codes "bob"; fingerprint = codes "other" })
        busy
        subject_quota_exhausted
try_acquire_refusal_example =
    try_acquire_refusal (record { subject = codes "bob"; fingerprint = codes "other" }) git 9 busy
      subject_quota_exhausted busy-Inv

-- Alice subscribes twice and releases the second; then Carol's request evicts Alice's backend.
abbrev subscribed : List (Command ℕ)
subscribed =
    acquires carol git 9
    ∷ releases 0 5
    ∷ acquires (key_of (codes "bob")) git 2
    ∷ unsubscribes (key_of (codes "alice")) 1
    ∷ subscribes (key_of (codes "alice")) 8
    ∷ acquires (key_of (codes "alice")) git 1
    ∷ subscribes (key_of (codes "alice")) 7
    ∷ []

abbrev run : List (Command ℕ) → Pool ℕ
run [] = new_pool limits
run (c ∷ cs) = step c (run cs)

still_wanted : (wanted subscribed).who (key_of (codes "alice")) 0 ≡ some 7
unfolding wanted mcp_reverse_proxy.Pool.Ops.Subscriptions.wanted_after
    mcp_reverse_proxy.Pool.Ops.Subscriptions.nobody mcp_reverse_proxy.Pool.Types.key_beq
still_wanted = refl
