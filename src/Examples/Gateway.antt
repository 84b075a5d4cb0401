-- ===== src/Examples/Gateway.antt =====
-- The assembled gateway at concrete inputs: a deployment whose clients may replace credentials.
use mcp_reverse_proxy.Prelude.{
  ℕ, ◌≡◌, refl, ◌≢◌, ◌⊎◌, true, false, Option, none, some, List, [], ◌∷◌, ok, if◌then◌else◌, ◌==◌,
  nat_eq, list_eq, Bytes, is_empty, codes,
}
use mcp_reverse_proxy.Auth.Claims.{Claims}
use mcp_reverse_proxy.Auth.Verify.{Parser, TokenClaims, static_key}
use mcp_reverse_proxy.Auth.Require.{require, admitted}
use mcp_reverse_proxy.Auth.Metadata.{ResourceUrl, Metadata, scope_access}
use mcp_reverse_proxy.Config.Types.{File}
use mcp_reverse_proxy.Policy.{env_only, scope_env}
use mcp_reverse_proxy.Frontend.Request.{insufficient_scope}
use mcp_reverse_proxy.Cmd.Flags.{Options}
use mcp_reverse_proxy.Cmd.Gateway.{Gateway, Outside, build, HttpRequest, handle, refused}
use mcp_reverse_proxy.Cmd.Gateway.Promises.{listed_scopes_suffice}
use mcp_reverse_proxy.Cmd.Gateway.Serve.{
  Service, started, on_signal, on_shutdown, Reach, here, next, arrives, finishes, signalled,
  drained, closed, Reach-graceful,
}
use mcp_reverse_proxy.Examples.Config.{base, closed_policy, files}
use mcp_reverse_proxy.Examples.Frontend.{decode_one}

abbrev deployment : File
deployment = record base { policy = record closed_policy { mode = codes "env-only" } }

abbrev url : Bytes → ResourceUrl
url s = record {
  url_scheme = codes "https";
  host = codes "r";
  path = s;
  fragment = [];
  raw_fragment = [];
  rest = [];
}

abbrev outside : Outside Bytes Bytes ℕ
outside = record {
  read_file = λ path. ok path;
  parse_config = λ text. ok deployment;
  load_keys = λ files. ok ((codes "https://i", (codes "k1", 7) ∷ []) ∷ []);
  parse_url = λ s. some (url s);
  print_url = λ u. u.path;
  marshal = λ m. some m.resource;
  random = some (codes "secret");
  registers = λ a b. true;
}

abbrev options : Options
options = record {
  config = codes "gateway.yaml";
  addr = codes "127.0.0.1:8080";
  path = codes "/mcp";
  resource = codes "https://r/mcp";
  issuers = codes "https://i" ∷ [];
  keys = [];
}

abbrev running : Gateway ℕ
running = record {
  base = deployment;
  policy = record { mode = env_only; allowlist = []; denylist = [] };
  verifier = record {
    keys = static_key ((codes "https://i", (codes "k1", 7) ∷ []) ∷ []);
    issuers = codes "https://i" ∷ [];
    audience = codes "https://r/mcp";
  };
  metadata = record {
    resource = codes "https://r/mcp";
    authorization_servers = codes "https://i" ∷ [];
    scopes_supported = scope_access ∷ scope_env ∷ [];
    bearer_methods_supported = codes "header" ∷ [];
    body = codes "https://r/mcp";
  };
  metadata_url = codes "/.well-known/oauth-protected-resourcehttps://r/mcp";
  secret = codes "secret";
  addr = codes "127.0.0.1:8080";
  path = codes "/mcp";
}

built : build outside false options ≡ ok running
unfolding build mcp_reverse_proxy.Cmd.Gateway.wrapped mcp_reverse_proxy.Cmd.Gateway.load
    mcp_reverse_proxy.Cmd.Gateway.or_error mcp_reverse_proxy.Cmd.Gateway.mounted
    mcp_reverse_proxy.Policy.new_policy mcp_reverse_proxy.Policy.scopes is_empty
    mcp_reverse_proxy.Auth.Metadata.new_verifier mcp_reverse_proxy.Auth.Metadata.canonical_resource
    mcp_reverse_proxy.Auth.Metadata.canonical_url mcp_reverse_proxy.Auth.Metadata.verifier_for
    mcp_reverse_proxy.Auth.Metadata.new_metadata mcp_reverse_proxy.Auth.Metadata.metadata_for
    mcp_reverse_proxy.Auth.Metadata.or_base_scope mcp_reverse_proxy.Auth.Metadata.encoded
    mcp_reverse_proxy.Auth.Metadata.metadata_url mcp_reverse_proxy.Auth.Metadata.below_metadata
built = refl

-- A token that carries what the metadata lists, and a request with a header.
abbrev bob : TokenClaims
bob = record {
  issuer = codes "https://i";
  subject = codes "bob";
  audience = codes "https://r/mcp" ∷ [];
  expires_at = some 200;
  not_before = none;
  issued_at = none;
  scope = codes "mcp:access mcp:config:env";
}

abbrev bobs : Claims
bobs = record {
  subject = record { issuer = codes "https://i"; sub = codes "bob" };
  scopes = scope_access ∷ scope_env ∷ [];
}

abbrev parse_any : Parser ℕ
parse_any methods audience key_of token = ok bob

abbrev asking : HttpRequest
asking = record {
  method = codes "POST";
  path = codes "/mcp";
  credentials = record { query = []; authorization = codes "Bearer good" };
  config_header = codes "{}";
}

-- A mux that knows whole paths.
abbrev exact_mux : List Bytes → Bytes → Option Bytes
exact_mux [] path = none
exact_mux (p ∷ ps) path = if p == path then some p else exact_mux ps path

bob_admitted : require parse_any running.verifier asking.credentials ≡ admitted bobs
unfolding require mcp_reverse_proxy.Auth.Require.admission mcp_reverse_proxy.Auth.Require.bearer
    mcp_reverse_proxy.Auth.Require.credential mcp_reverse_proxy.Auth.Require.cut_bearer
    mcp_reverse_proxy.Auth.Require.after_scheme mcp_reverse_proxy.Auth.Require.non_blank
    mcp_reverse_proxy.Aggregate.Uri.cut_at is_empty mcp_reverse_proxy.Auth.Words.equal_fold
    mcp_reverse_proxy.Auth.Words.to_lower mcp_reverse_proxy.Auth.Words.trim_space
    mcp_reverse_proxy.Auth.Words.backwards mcp_reverse_proxy.Auth.Words.trim_start
    mcp_reverse_proxy.Auth.Words.after_space mcp_reverse_proxy.Auth.Words.is_space
    mcp_reverse_proxy.Auth.Words.fields mcp_reverse_proxy.Auth.Verify.verify
    mcp_reverse_proxy.Auth.Verify.accepted mcp_reverse_proxy.Auth.Verify.claims_of
    mcp_reverse_proxy.Auth.Verify.subject_of mcp_reverse_proxy.Auth.Verify.parse_scopes
    mcp_reverse_proxy.Auth.Claims.is_identified
bob_admitted = refl

listed_scopes_suffice_example :
    handle exact_mux parse_any decode_one running asking
    ≢ refused (insufficient_scope (scope_env ∷ []))
unfolding mcp_reverse_proxy.Auth.Claims.has_scope
listed_scopes_suffice_example =
    listed_scopes_suffice outside exact_mux parse_any decode_one false options running asking bobs
      (scope_env ∷ []) built (refl, (refl, tt)) bob_admitted

-- One request is served through the shutdown.
abbrev busy : Service
busy = record started { in_flight = 1 }

abbrev drained_service : Service
drained_service = on_shutdown none false (record (on_signal busy) { in_flight = 0 })

drained-Reach : Reach drained_service
unfolding on_signal started
drained-Reach =
    next (next (next (next here (arrives refl)) (signalled refl)) (finishes 0 refl))
      (drained false refl refl)

Reach-graceful_example :
    (drained_service.cut ≡ 0) × ((drained_service.phase ≢ closed) ⊎ (drained_service.in_flight ≡ 0))
unfolding on_shutdown mcp_reverse_proxy.Cmd.Gateway.Serve.close_pool
    mcp_reverse_proxy.Cmd.Gateway.Serve.joined
Reach-graceful_example = Reach-graceful drained-Reach refl
