-- ===== src/Examples/Tenant.antt =====
-- internal/frontend/tenant.go and the pool's handles at concrete inputs.
use mcp_reverse_proxy.Prelude.{
  ◌%◌, ◌≡◌, refl, ◌≢◌, ◌⊎◌, false, some, [], ◌∷◌, arith, ok, nat_eq, list_eq, Bytes, length, codes,
}
use mcp_reverse_proxy.Prelude.{ℕ, none, err, Option}
use mcp_reverse_proxy.Backend.Normalize.{BackendError, plain}
use mcp_reverse_proxy.Pool.Ops
use mcp_reverse_proxy.Pool.Ops.{new_pool, try_acquire}
use mcp_reverse_proxy.Pool.Entries.{find_entry}
use mcp_reverse_proxy.Pool.Lifecycle.{new_backend, session}
use mcp_reverse_proxy.Pool.Lifecycle.Requests
use mcp_reverse_proxy.Pool.Lifecycle.Sessions.{succeeds}
use mcp_reverse_proxy.Pool.Handles
use mcp_reverse_proxy.Pool.Handles.{World, HandleError}
use mcp_reverse_proxy.Frontend.Tenant.Pooled.{pooled, OwnProcess, call_tool-OwnProcess}
use mcp_reverse_proxy.Examples.Config.{limits}
use mcp_reverse_proxy.Prelude.Int.{ℤ, pos}
use mcp_reverse_proxy.Auth.Claims.{Subject}
use mcp_reverse_proxy.Backend.Types.{Source}
use mcp_reverse_proxy.Config.Fingerprint.{message}
use mcp_reverse_proxy.Config.Fingerprint.Distinguishes.{IsSized, SameProcess}
use mcp_reverse_proxy.Pool.Handles.{handle_for, Handle}
use mcp_reverse_proxy.Pool.Handles.Shared.{handles_shared}
use mcp_reverse_proxy.Frontend.Tenant.{Context, call_tool}
use mcp_reverse_proxy.Examples.Config.{git, files}

-- A MAC of the message's length.
abbrev short_mac : Bytes → Bytes → Bytes
short_mac key m = (length m % 256) ∷ []

abbrev ann : Subject
ann = record { issuer = codes "i"; sub = codes "ann" }

-- The session of every backend, which answers with the name called.
abbrev sessions : ℕ → ℕ → Source (BackendError ℕ)
sessions entry number = record {
  list_tools = err (plain 0);
  call_tool = λ name arguments. ok (record { content = name; is_error = false; result_type = [] });
  list_prompts = err (plain 0);
  get_prompt = λ name arguments. err (plain 0);
  list_resources = err (plain 0);
  list_resource_templates = err (plain 0);
  read_resource = λ uri. err (plain 0);
}

-- A pool that has served nobody yet.
abbrev world : World ℕ
world = record { pool = new_pool limits; backends = λ entry. new_backend }

abbrev no_code : HandleError ℕ → Option ℤ
no_code e = none

abbrev reach : Handle → Source (HandleError ℕ)
reach = pooled sessions succeeds (λ s. s) (λ w. w) 1 2 world

abbrev context : Context
context = record {
  claims = some (record { subject = ann; scopes = [] });
  resolved = some (git ∷ files ∷ []);
}

called :
    call_tool short_mac [] reach (pos 0) no_code context (codes "git__pull") []
    ≡ ok (record { content = codes "pull"; is_error = false; result_type = [] })
unfolding call_tool handle_for mcp_reverse_proxy.Frontend.Tenant.gateway
    mcp_reverse_proxy.Frontend.Tenant.gateway_of mcp_reverse_proxy.Frontend.Tenant.subject_from
    mcp_reverse_proxy.Frontend.Tenant.subject_of_claims mcp_reverse_proxy.Frontend.Tenant.relayed
    mcp_reverse_proxy.Aggregate.Gateway.call_tool mcp_reverse_proxy.Aggregate.Gateway.ask_routed
    mcp_reverse_proxy.Aggregate.Name.route mcp_reverse_proxy.Aggregate.Gateway.new_gateway
    mcp_reverse_proxy.Aggregate.Name.new_router mcp_reverse_proxy.Prelude.Sorting.sort_by
    mcp_reverse_proxy.Frontend.Tenant.sources_for mcp_reverse_proxy.Prelude.Maps.insert
    mcp_reverse_proxy.Aggregate.Name.longest_first mcp_reverse_proxy.Aggregate.Name.longer_first
    mcp_reverse_proxy.Aggregate.Name.name_under mcp_reverse_proxy.Aggregate.Gateway.ask_source
    mcp_reverse_proxy.Aggregate.Gateway.relay mcp_reverse_proxy.Aggregate.Name.cut_prefix
    mcp_reverse_proxy.Prelude.Maps.lookup pooled Handles.call_tool Handles.through Handles.served
    Handles.finished Handles.answered Handles.acquire Handles.after_acquire try_acquire new_pool
    find_entry Ops.insert_entry Ops.fresh_entry mcp_reverse_proxy.Pool.Entries.raise
    Requests.call_tool Requests.request Requests.over Requests.answered session new_backend
    Handles.close_entry
called = refl

call_tool-OwnProcess_example :
    OwnProcess sessions succeeds
      (λ s. s)
      (λ w. w)
      1
      2
      short_mac
      []
      world
      context
      (codes "git__pull")
      []
      (record { content = codes "pull"; is_error = false; result_type = [] })
call_tool-OwnProcess_example =
    call_tool-OwnProcess sessions succeeds (λ s. s) (λ w. w) 1 2 short_mac [] world (pos 0) no_code
      context (codes "git__pull") []
      (record { content = codes "pull"; is_error = false; result_type = [] }) called

files-IsSized : IsSized files
unfolding mcp_reverse_proxy.Config.Fingerprint.env_pairs mcp_reverse_proxy.Config.Env.env_keys
    mcp_reverse_proxy.Prelude.Sorting.sort_bytes mcp_reverse_proxy.Prelude.Sorting.sort_by
files-IsSized = record {
  id = omega arith;
  command = omega arith;
  arg_count = omega arith;
  args = tt;
  env_count = omega arith;
  env = tt;
  era = omega arith;
}

handles_shared_example :
    (ann ≡ ann)
    × (SameProcess files files
        ⊎ ((message files ≢ message files)
            × (short_mac [] (message files) ≡ short_mac [] (message files))))
handles_shared_example =
    handles_shared short_mac [] ann ann files files (λ m. (omega arith, tt)) (omega arith, tt)
      (omega arith, tt) files-IsSized files-IsSized refl
