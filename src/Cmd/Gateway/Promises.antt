-- ===== src/Cmd/Gateway/Promises.antt =====
-- cmd/mcp-reverse-proxy/gateway.go: the metadata of a gateway that was built names every scope that
-- its policy will ask for.
use mcp_reverse_proxy.Prelude.{
  ◌≡◌, sym, ◌∙◌, ap, subst, ◌≢◌, inl, inr, Bool, true, Option, none, some, List, [], ◌∷◌,
  Bool-cases, Result, ok, err, bind-ok, nat_eq, list_eq, Bytes, contains, All, codes,
}
use mcp_reverse_proxy.Auth.Claims.{Claims, has_scope}
use mcp_reverse_proxy.Auth.Verify.{Parser, static_key}
use mcp_reverse_proxy.Auth.Require.{admitted, require}
use mcp_reverse_proxy.Auth.Metadata.{
  Metadata, metadata_path, ResourceUrl, scope_access, new_metadata, metadata_for, or_base_scope,
  encoded, canonical_resource, new_verifier, metadata_url,
}
use mcp_reverse_proxy.Config.Types.{Header}
use mcp_reverse_proxy.Policy.{scopes, new_policy}
use mcp_reverse_proxy.Frontend.Request.{insufficient_scope}
use mcp_reverse_proxy.Cmd.Flags.{Options}
use mcp_reverse_proxy.Cmd.Gateway.{
  Gateway, Outside, bad_config, bad_policy, bad_keys, bad_resource, no_random, load, wrapped,
  or_error, mounted, build, HttpRequest, refused, handle,
}
use mcp_reverse_proxy.Cmd.Gateway.Admits.{routed-unasked}

module _ (parse_url : Bytes → Option ResourceUrl) (print_url : ResourceUrl → Bytes)
    (marshal : Metadata → Option Bytes) where
  encoded-scopes :
      (m : Metadata) (o : Option Bytes) (x : Metadata)
      → encoded parse_url print_url m o ≡ ok x
      → x.scopes_supported ≡ m.scopes_supported
  unfolding encoded
  encoded-scopes m none x h = absurd (cc)
  encoded-scopes m (some body) x h = cc

  metadata_for-scopes :
      (issuers ss : List Bytes) (canonical : Bytes) (m : Metadata)
      → metadata_for parse_url print_url marshal issuers ss canonical ≡ ok m
      → m.scopes_supported ≡ ss
  unfolding metadata_for
  metadata_for-scopes [] ss canonical m h = absurd (cc)
  metadata_for-scopes (i ∷ issuers) ss canonical m h =
      elim (Bool-cases (contains ss (codes "offline_access"))) [
        | inl offline ↦ absurd (cc (rw offline at h))
        | inr clean ↦ encoded-scopes _ _ m (rw clean at h)
      ]

  new_metadata-scopes :
      (resource : Bytes) (issuers : List Bytes) (s : Bytes) (ss : List Bytes) (m : Metadata)
      → new_metadata parse_url print_url marshal resource issuers (s ∷ ss) ≡ ok m
      → m.scopes_supported ≡ s ∷ ss
  unfolding new_metadata or_base_scope
  new_metadata-scopes resource issuers s ss m h =
      let (canonical, _, later) = bind-ok (canonical_resource parse_url print_url resource) _ m h in
      metadata_for-scopes issuers (s ∷ ss) canonical m later

wrapped-ok : {E F A : Type 0} (f : E → F) (r : Result E A) (a : A) → wrapped f r ≡ ok a → r ≡ ok a
unfolding wrapped
wrapped-ok f (ok x) a h = cc
wrapped-ok f (err e) a h = absurd (cc)

module _ {E C K : Type 0} (o : Outside E C K) where
  mounted-ok : (g g' : Gateway K) → mounted o g ≡ ok g' → g ≡ g'
  unfolding mounted
  mounted-ok g g' h = elim (Bool-cases (o.registers metadata_path g.path)) [
    | inl taken ↦ cc (rw taken at h)
    | inr clash ↦ absurd (cc (rw clash at h))
  ]

  build-scopes :
      (stopped : Bool) (opts : Options) (g : Gateway K)
      → build o stopped opts ≡ ok g
      → g.metadata.scopes_supported ≡ scope_access ∷ scopes g.policy
  unfolding build
  build-scopes stopped opts g h =
      let (base, _, h1) = bind-ok (wrapped bad_config (load o stopped opts.config)) _ g h in
      let (policy, _, h2) = bind-ok (wrapped bad_policy (new_policy base.policy)) _ g h1 in
      let (keys, _, h3) = bind-ok (wrapped bad_keys (o.load_keys opts.keys)) _ g h2 in
      let (verifier, _, h4) =
        bind-ok
          (wrapped bad_resource (
            new_verifier o.parse_url o.print_url (some (static_key keys)) opts.issuers
              opts.resource))
          _ g h3 in
      let (metadata, made, h5) =
        bind-ok
          (wrapped bad_resource (
            new_metadata o.parse_url o.print_url o.marshal opts.resource opts.issuers
              (scope_access ∷ scopes policy)))
          _ g h4 in
      let (url, _, h6) =
        bind-ok (wrapped bad_resource (metadata_url o.parse_url o.print_url opts.resource)) _ g
          h5 in
      let (secret, _, h7) = bind-ok (or_error no_random o.random) _ g h6 in
      let same = mounted-ok _ g h7 in
      ap (λ x. x.metadata.scopes_supported) (sym same)
      ∙ new_metadata-scopes o.parse_url o.print_url o.marshal opts.resource opts.issuers
          scope_access (scopes policy) metadata (wrapped-ok bad_resource _ metadata made)
      ∙ ap (λ x. scope_access ∷ scopes x.policy) same

  -- A request to a gateway that was built, with a token that carries every scope which the
  -- gateway's metadata lists, is never refused for want of a scope, whatever its header asks for.
  pub listed_scopes_suffice :
      (mux : List Bytes → Bytes → Option Bytes) (parse_token : Parser K)
      (decode : Bytes → Option (Header × Bool)) (stopped : Bool) (opts : Options) (g : Gateway K)
      (r : HttpRequest) (claims : Claims) (missing : List Bytes)
      → build o stopped opts ≡ ok g
      → All (λ s. has_scope claims s ≡ true) g.metadata.scopes_supported
      → require parse_token g.verifier r.credentials ≡ admitted claims
      → handle mux parse_token decode g r ≢ refused (insufficient_scope missing)
  unfolding handle
  listed_scopes_suffice mux parse_token decode stopped opts g r claims missing built held admits h =
      let carried =
        subst (All (λ s. has_scope claims s ≡ true)) (build-scopes stopped opts g built) held in
      routed-unasked mux parse_token decode g r claims missing _ (carried.1) admits h
