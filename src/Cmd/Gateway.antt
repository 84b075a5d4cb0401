-- ===== src/Cmd/Gateway.antt =====
-- cmd/mcp-reverse-proxy/gateway.go: the assembled service. `build` takes each layer's parameters as
-- that layer's module does; the file system, the random source and HTTP's mux are parameters too.
pub mod Admits
pub mod Promises
pub mod Serve
use mcp_reverse_proxy.Prelude.{
  ◌||◌, Option, none, some, List, [], ◌∷◌, if◌then◌else◌, Bool, Result, ok, err, ◌>>=◌, ◌==◌,
  nat_eq, list_eq, Bytes, codes,
}
use mcp_reverse_proxy.Prelude.Maps.{Map}
use mcp_reverse_proxy.Auth.Claims.{Claims}
use mcp_reverse_proxy.Auth.Verify.{AuthError, Parser, Verifier, static_key}
use mcp_reverse_proxy.Auth.Require.{Admission, admitted, require}
use mcp_reverse_proxy.Auth.Require
use mcp_reverse_proxy.Auth.Metadata.{
  Metadata, ResourceUrl, ResourceError, metadata_path, scope_access, new_verifier, new_metadata,
  metadata_url,
}
use mcp_reverse_proxy.Config.Types.{File, Header, Server}
use mcp_reverse_proxy.Policy.{Policy, NewError, new_policy, scopes}
use mcp_reverse_proxy.Frontend.Request.{Answer, serves, answer}
use mcp_reverse_proxy.Cmd.Flags.{Options, KeyFile, KeysError}

pub data LoadError (E C : Type 0) : Type 0 where
  cancelled : LoadError E C
  unreadable : E → LoadError E C
  invalid : C → LoadError E C

pub data BuildError (E C : Type 0) : Type 0 where
  bad_config : LoadError E C → BuildError E C
  bad_policy : NewError → BuildError E C
  bad_keys : KeysError E → BuildError E C
  bad_resource : ResourceError → BuildError E C
  no_random : BuildError E C
  panicked : BuildError E C

-- `gateway`, with what `build` puts into its handler; `secret` is the fingerprinter's key.
pub record Gateway (K : Type 0) : Type 0 where
  pub base : File
  pub policy : Policy
  pub verifier : Verifier K
  pub metadata : Metadata
  pub metadata_url : Bytes
  pub secret : Bytes
  pub addr : Bytes
  pub path : Bytes

-- An error of a layer, wrapped.
unfoldable pub wrapped : {E F A : Type 0} → (E → F) → Result E A → Result F A
wrapped f (ok a) = ok a
wrapped f (err e) = err (f e)

unfoldable pub or_error : {E A : Type 0} → E → Option A → Result E A
or_error e none = err e
or_error e (some a) = ok a

-- What `build` calls: `parse_config` is `parse` of Config/File, and `load_keys` that of Cmd/Flags, at
-- their decoders. `registers` says whether the mux takes two patterns: it panics at a conflict.
pub record Outside (E C K : Type 0) : Type 0 where
  pub read_file : Bytes → Result E Bytes
  pub parse_config : Bytes → Result C File
  pub load_keys : List KeyFile → Result (KeysError E) (Map Bytes (Map Bytes K))
  pub parse_url : Bytes → Option ResourceUrl
  pub print_url : ResourceUrl → Bytes
  pub marshal : Metadata → Option Bytes
  pub random : Option Bytes
  pub registers : Bytes → Bytes → Bool

module _ {E C K : Type 0} (o : Outside E C K) where
  -- `Load`, in a context that is cancelled or not.
  unfoldable pub load : Bool → Bytes → Result (LoadError E C) File
  load stopped path =
      if stopped
      then err cancelled
      else wrapped unreadable (o.read_file path) >>= (λ text. wrapped invalid (o.parse_config text))

  unfoldable pub mounted : Gateway K → Result (BuildError E C) (Gateway K)
  mounted g = if o.registers metadata_path g.path then ok g else err panicked

  -- `build`.
  unfoldable pub build : Bool → Options → Result (BuildError E C) (Gateway K)
  build stopped opts = do
    base ← wrapped bad_config (load stopped opts.config)
    policy ← wrapped bad_policy (new_policy base.policy)
    keys ← wrapped bad_keys (o.load_keys opts.keys)
    verifier ←
        wrapped bad_resource
          (new_verifier o.parse_url o.print_url (some (static_key keys)) opts.issuers opts.resource)
    metadata ← wrapped bad_resource (
        new_metadata o.parse_url o.print_url o.marshal opts.resource opts.issuers
          (scope_access ∷ scopes policy))
    url ← wrapped bad_resource (metadata_url o.parse_url o.print_url opts.resource)
    secret ← or_error no_random o.random
    mounted (record {
      base = base;
      policy = policy;
      verifier = verifier;
      metadata = metadata;
      metadata_url = url;
      secret = secret;
      addr = opts.addr;
      path = opts.path;
    })

-- What the gateway reads of a request.
pub record HttpRequest : Type 0 where
  pub method : Bytes
  pub path : Bytes
  pub credentials : Require.Request
  pub config_header : Bytes

-- What becomes of a request: `endpoint` hands it on, for these claims and servers.
pub data Outcome : Type 0 where
  not_routed : Outcome
  document : Bytes → Outcome
  method_not_allowed : Outcome
  unauthorized : AuthError → Outcome
  refused : Answer → Outcome
  endpoint : Claims → List Server → Outcome

-- `Metadata.Handler`.
unfoldable pub metadata_answer : Metadata → Bytes → Outcome
metadata_answer m method =
    if (method == codes "GET") || (method == codes "HEAD")
    then document m.body
    else method_not_allowed

-- What `Resolve` and the endpoint behind it make of an answer.
unfoldable pub resolved : Claims → Answer → Outcome
resolved claims (serves servers) = endpoint claims servers
resolved claims a = refused a

-- `mux` is the pattern that the mux finds for a path.
module _ {K : Type 0} (mux : List Bytes → Bytes → Option Bytes) (parse_token : Parser K)
    (decode : Bytes → Option (Header × Bool)) (g : Gateway K) where
  unfoldable pub behind_auth : HttpRequest → Admission → Outcome
  behind_auth r (admitted claims) =
      resolved claims (answer decode g.policy claims g.base r.config_header)
  behind_auth r (Admission.unauthorized e) = unauthorized e

  unfoldable pub routed : HttpRequest → Option Bytes → Outcome
  routed r none = not_routed
  routed r (some pattern) =
      if pattern == metadata_path
      then metadata_answer g.metadata r.method
      else behind_auth r (require parse_token g.verifier r.credentials)

  -- The handler that `build` makes.
  unfoldable pub handle : HttpRequest → Outcome
  handle r = routed r (mux (metadata_path ∷ g.path ∷ []) r.path)
