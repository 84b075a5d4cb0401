-- ===== src/Config/Validate.antt =====
-- internal/config/config.go: `validateServers`. A nil error is `none`.
pub mod Laws
use mcp_reverse_proxy.Prelude.{
  ℕ, suc, not, Option, none, some, List, [], ◌∷◌, if◌then◌else◌, nat_eq, list_eq, Bytes, is_empty,
}
use mcp_reverse_proxy.Prelude.Maps.{Map, lookup, insert}
use mcp_reverse_proxy.Config.Types.{Server, known_era}
use mcp_reverse_proxy.Config.Env.{has_empty_key}

-- The first number is the position of the server that is refused.
pub data ServersError : Type 0 where
  missing_id : ℕ → ServersError
  missing_command : ℕ → Bytes → ServersError
  unknown_era : ℕ → Bytes → Bytes → ServersError
  duplicate_id : ℕ → Bytes → ℕ → ServersError
  empty_env_key : ℕ → Bytes → ServersError

-- One round of the loop, with the test for an empty key.
check_server : ℕ → Map Bytes ℕ → Server → Option ServersError
check_server i seen s =
    if is_empty s.id
    then some (missing_id i)
    else if is_empty s.command
    then some (missing_command i s.id)
    else if not (known_era s.era)
    then some (unknown_era i s.id s.era)
    else elim (lookup s.id seen) [
      | some first ↦ some (duplicate_id i s.id first)
      | none ↦ if has_empty_key s.env then some (empty_env_key i s.id) else none
    ]

-- `seen` maps an identifier to the position where it stood first.
validate_from : ℕ → Map Bytes ℕ → List Server → Option ServersError
validate_from i seen [] = none
validate_from i seen (s ∷ ss) = elim (check_server i seen s) [
  | some e ↦ some e
  | none ↦ validate_from (suc i) (insert s.id i seen) ss
]

unfoldable pub validate_servers : List Server → Option ServersError
unfolding validate_from check_server
validate_servers = validate_from 0 []
