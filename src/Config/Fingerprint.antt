-- ===== src/Config/Fingerprint.antt =====
-- internal/config/fingerprint.go: the key that the pool knows a server's configuration by.
pub mod Distinguishes
use mcp_reverse_proxy.Prelude.{
  ℕ, zero, suc, ◌+◌, ◌/◌, ◌%◌, Option, none, some, List, [], ◌∷◌, ◌++◌, map, flat_map, ltb,
  if◌then◌else◌, nat_eq, list_eq, Bytes, length,
}
use mcp_reverse_proxy.Prelude.Maps.{lookup}
use mcp_reverse_proxy.Config.Types.{Server, Env}
use mcp_reverse_proxy.Config.Env.{env_keys}

-- `binary.BigEndian`: the last `w` bytes of a number.
unfoldable pub big_endian : ℕ → ℕ → Bytes
big_endian zero n = []
big_endian (suc w) n = big_endian w (n / 256) ++ ((n % 256) ∷ [])

-- `writeCount`: a `uint64`.
unfoldable pub count : ℕ → Bytes
count n = big_endian 8 n

-- `writeField`.
unfoldable pub field : Bytes → Bytes
field s = count (length s) ++ s

unfoldable pub or_empty : Option Bytes → Bytes
or_empty none = []
or_empty (some v) = v

-- The environment as it is written: `s.Env[k]` is empty for a missing key.
unfoldable pub env_pairs : Env → List (Bytes × Bytes)
env_pairs e = map (λ k. (k, or_empty (lookup k e))) (env_keys e)

unfoldable pub pair_fields : Bytes × Bytes → Bytes
pair_fields (k, v) = field k ++ field v

-- The bytes that `Server` writes to the MAC.
unfoldable pub message : Server → Bytes
message s =
    field s.id
    ++ (field s.command
        ++ ((count (length s.args) ++ flat_map field s.args)
            ++ ((count (length (env_keys s.env)) ++ flat_map pair_fields (env_pairs s.env))
                ++ field s.era)))

hex_digit : ℕ → ℕ
hex_digit n = if ltb n 10 then 48 + n else 87 + n

-- `hex.EncodeToString`.
unfoldable pub hex : Bytes → Bytes
unfolding hex_digit
hex [] = []
hex (b ∷ bytes) = hex_digit (b / 16 % 16) ∷ hex_digit (b % 16) ∷ hex bytes

-- `Server`, with the fingerprinter's key; `mac` is HMAC with SHA-256.
unfoldable pub fingerprint : (Bytes → Bytes → Bytes) → Bytes → Server → Bytes
fingerprint mac key s = hex (mac key (message s))
