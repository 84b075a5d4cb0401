-- ===== src/Config/Types.antt =====
-- internal/config/config.go and header.go: the data. A Go string is the list of its bytes; a nil
-- slice and an empty one are the same list, since the code only ranges over them.
use mcp_reverse_proxy.Prelude.{
  Bool, true, false, ◌||◌, Option, none, some, List, [], ◌∷◌, nat_eq, list_eq, Bytes, contains,
  codes,
}
use mcp_reverse_proxy.Prelude.Int.{ℤ}
use mcp_reverse_proxy.Prelude.Maps.{Map}

-- `Secret` values by variable name.
abbrev pub Env : Type 0
Env = Map Bytes Bytes

abbrev pub era_auto : Bytes
era_auto = codes "auto"

abbrev pub era_modern : Bytes
era_modern = codes "modern"

abbrev pub era_legacy : Bytes
era_legacy = codes "legacy"

abbrev pub eras : List Bytes
eras = era_auto ∷ era_modern ∷ era_legacy ∷ []

pub record Server : Type 0 where
  pub id : Bytes
  pub command : Bytes
  pub args : List Bytes
  pub env : Env
  pub era : Bytes

-- `none` is a field that the header leaves alone.
pub record ServerPatch : Type 0 where
  pub id : Bytes
  pub command : Option Bytes
  pub args : Option (List Bytes)
  pub env : Option Env
  pub era : Option Bytes

pub record Header : Type 0 where
  pub servers : List ServerPatch

-- Durations are nanoseconds.
pub record Limits : Type 0 where
  pub max_processes : ℤ
  pub max_processes_per_subject : ℤ
  pub idle_ttl : ℤ
  pub probe_timeout : ℤ
  pub max_header_bytes : ℤ

pub record PolicyConfig : Type 0 where
  pub mode : Bytes
  pub command_allowlist : List Bytes
  pub env_denylist : List Bytes

pub record File : Type 0 where
  pub servers : List Server
  pub limits : Limits
  pub policy : PolicyConfig

abbrev is_set {ℓ} : {A : Type ℓ} → Option A → Bool
is_set none = false
is_set (some a) = true

-- `ServerPatch.TouchesEnv`.
unfoldable pub touches_env : ServerPatch → Bool
touches_env p = is_set p.env

-- `ServerPatch.TouchesProcess`.
unfoldable pub touches_process : ServerPatch → Bool
touches_process p = is_set p.command || (is_set p.args || is_set p.era)

-- `slices.Contains(eras, era)`.
unfoldable pub known_era : Bytes → Bool
known_era era = contains eras era
