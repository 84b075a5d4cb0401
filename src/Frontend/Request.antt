-- ===== src/Frontend/Request.antt =====
-- internal/frontend/policy.go and `ParseHeader` of internal/config/header.go: what becomes of a
-- request's x-mcp-config header. The JSON decoder is a parameter: the header, and whether anything
-- follows it.
pub mod Asked
pub mod Served
use mcp_reverse_proxy.Prelude.{
  Bool, true, false, not, ◌||◌, Option, none, some, List, [], ◌∷◌, if◌then◌else◌, Result, ok, err,
  ◌>>=◌, nat_eq, list_eq, Bytes, is_empty, length,
}
use mcp_reverse_proxy.Prelude.Int.{ℤ, pos, gtb}
use mcp_reverse_proxy.Auth.Claims.{Claims}
use mcp_reverse_proxy.Config.Types.{File, Header, Server, ServerPatch}
use mcp_reverse_proxy.Config.Validate.{ServersError}
use mcp_reverse_proxy.Config.Resolve.{resolve}
use mcp_reverse_proxy.Policy.{
  Policy, PolicyError, missing_scope, header_disabled, insufficient_privileges, command_not_allowed,
  env_key_denied, check_header, check_resolved,
}

pub data HeaderError : Type 0 where
  header_too_large : ℤ → HeaderError
  header_malformed : HeaderError

-- `DefaultLimits.MaxHeaderBytes`.
abbrev pub default_max_header_bytes : ℤ
default_max_header_bytes = pos 8192

-- The loop of `ParseHeader`: whether every patch has an identifier.
all_named : List ServerPatch → Bool
all_named [] = true
all_named (p ∷ ps) = if is_empty p.id then false else all_named ps

decoded : Option (Header × Bool) → Result HeaderError Header
unfolding all_named
decoded none = err header_malformed
decoded (some (h, more)) = if more || not (all_named h.servers) then err header_malformed else ok h

-- What the middleware answers with.
pub data Answer : Type 0 where
  bad_header : HeaderError → Answer
  bad_servers : ServersError → Answer
  insufficient_scope : List Bytes → Answer
  forbidden : PolicyError → Answer
  serves : List Server → Answer

-- `refuse` on a verdict of the policy.
unfoldable pub refuse : PolicyError → Answer
refuse header_disabled = forbidden header_disabled
refuse (insufficient_privileges needed allowed) = forbidden (insufficient_privileges needed allowed)
refuse (missing_scope missing) = insufficient_scope missing
refuse (command_not_allowed id command) = forbidden (command_not_allowed id command)
refuse (env_key_denied id key) = forbidden (env_key_denied id key)

header_limit : ℤ → ℤ
header_limit max_bytes = if gtb max_bytes (pos 0) then max_bytes else default_max_header_bytes

judged : List Server → Option PolicyError → Answer
judged servers none = serves servers
judged servers (some e) = refuse e

after_merge : Policy → Option Header → Result ServersError (List Server) → Answer
unfolding judged
after_merge p h (ok servers) = judged servers (check_resolved p servers h)
after_merge p h (err e) = bad_servers e

after_check : Policy → File → Option Header → Option PolicyError → Answer
unfolding after_merge judged
after_check p base h (some e) = refuse e
after_check p base h none = after_merge p h (resolve base h)

after_header : Policy → Claims → File → Result HeaderError (Option Header) → Answer
unfolding after_check after_merge judged
after_header p claims base (err e) = bad_header e
after_header p claims base (ok h) = after_check p base h (check_header p claims base h)

module _ (decode : Bytes → Option (Header × Bool)) where
  -- `ParseHeader`.
  unfoldable pub parse_header : Bytes → ℤ → Result HeaderError Header
  unfolding header_limit decoded all_named
  parse_header raw max_bytes =
      if gtb (pos (length raw)) (header_limit max_bytes)
      then err (header_too_large (header_limit max_bytes))
      else decoded (decode raw)

  -- The header of a request, `none` for a request without one.
  unfoldable pub header_of : File → Bytes → Result HeaderError (Option Header)
  header_of base raw =
      if is_empty raw
      then ok none
      else parse_header raw base.limits.max_header_bytes >>= (λ h. ok (some h))

  -- The handler of `Resolve`.
  unfoldable pub answer : Policy → Claims → File → Bytes → Answer
  unfolding after_header after_check after_merge judged
  answer p claims base raw = after_header p claims base (header_of base raw)
