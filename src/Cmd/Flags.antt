-- ===== src/Cmd/Flags.antt =====
-- cmd/mcp-reverse-proxy/flags.go and gateway.go: the flags, `parseKey` and `loadKeys`. Splitting
-- the arguments is the flag package's; the file system and the key decoders are parameters.
pub mod Keys
use mcp_reverse_proxy.Prelude.{
  ℕ, not, ◌||◌, Option, none, some, List, [], ◌∷◌, map, if◌then◌else◌, Result, ok, err, ◌>>=◌, ◌==◌,
  nat_eq, list_eq, Bytes, is_empty, select, codes, non_empty,
}
use mcp_reverse_proxy.Prelude.Maps.{Map, lookup, insert}
use mcp_reverse_proxy.Aggregate.Uri.{cut_at}

pub record KeyFile : Type 0 where
  pub issuer : Bytes
  pub kid : Bytes
  pub path : Bytes

pub record Options : Type 0 where
  pub config : Bytes
  pub addr : Bytes
  pub path : Bytes
  pub resource : Bytes
  pub issuers : List Bytes
  pub keys : List KeyFile

pub data FlagsError : Type 0 where
  malformed_key : Bytes → FlagsError
  no_issuer : Bytes → FlagsError
  missing : List Bytes → FlagsError

-- The text before the last of a byte, and after it: `strings.LastIndex` and the two slices.
unfoldable pub cut_last : ℕ → Bytes → Option (Bytes × Bytes)
cut_last b [] = none
cut_last b (c ∷ s) = elim (cut_last b s) [
  | some (before, after) ↦ some (c ∷ before, after)
  | none ↦ if c == b then some ([], s) else none
]

-- An issuer and its key identifier, which follows the first '#'.
unfoldable pub split_kid : Bytes → Option (Bytes × Bytes) → Bytes × Bytes
split_kid issuer none = (issuer, [])
split_kid issuer (some (before, after)) = (before, after)

unfoldable pub key_file : Bytes → Bytes → Bytes × Bytes → Result FlagsError KeyFile
key_file raw path (issuer, kid) =
    if is_empty issuer
    then err (no_issuer raw)
    else ok (record { issuer = issuer; kid = kid; path = path })

unfoldable pub key_sides : Bytes → Option (Bytes × Bytes) → Result FlagsError KeyFile
key_sides raw none = err (malformed_key raw)
key_sides raw (some (issuer, path)) =
    if is_empty issuer || is_empty path
    then err (malformed_key raw)
    else key_file raw path (split_kid issuer (cut_at 35 issuer))

-- `parseKey`.
unfoldable pub parse_key : Bytes → Result FlagsError KeyFile
parse_key raw = key_sides raw (cut_last 61 raw)

-- The loop of `parseFlags` over the `-key` flags.
unfoldable pub parse_keys : List Bytes → Result FlagsError (List KeyFile)
parse_keys [] = ok []
parse_keys (raw ∷ rest) = do key ← parse_key raw; keys ← parse_keys rest; ok (key ∷ keys)

-- The required flags that are missing, in the order of the loop.
unfoldable pub missing_flags : Options → List Bytes
missing_flags o =
    map (λ (flag, empty). flag)
      (select (λ (flag, empty). empty)
        ((codes "-config", is_empty o.config)
          ∷ (codes "-resource", is_empty o.resource)
          ∷ (codes "-issuer", not (non_empty o.issuers))
          ∷ (codes "-key", not (non_empty o.keys))
          ∷ []))

unfoldable pub required : Options → List Bytes → Result FlagsError Options
required o [] = ok o
required o (m ∷ ms) = err (missing (m ∷ ms))

-- The end of `parseFlags`, from the values that the flag package found.
unfoldable pub parse_flags : Options → List Bytes → Result FlagsError Options
parse_flags o raw_keys = do
  keys ← parse_keys raw_keys
  required (record o { keys = keys }) (missing_flags (record o { keys = keys }))

pub data KeysError (E : Type 0) : Type 0 where
  unreadable_key : Bytes → E → KeysError E
  bad_key : Bytes → E → KeysError E
  two_keys : Bytes → Bytes → KeysError E

-- `pem.Block`.
pub record PemBlock : Type 0 where
  pub kind : Bytes
  pub bytes : Bytes

pub data KeyTextError (E : Type 0) : Type 0 where
  not_pem : KeyTextError E
  not_public : Bytes → KeyTextError E
  undecodable_key : E → KeyTextError E

-- `pem.Decode`, `x509.ParsePKIXPublicKey`, and the key of `x509.ParseCertificate`.
module _ {K E : Type 0} (decode_pem : Bytes → Option PemBlock) (parse_pkix : Bytes → Result E K)
    (parse_certificate : Bytes → Result E K) where
  unfoldable pub public_key : Result E K → Result (KeyTextError E) K
  public_key (ok key) = ok key
  public_key (err e) = err (undecodable_key e)

  unfoldable pub key_of_block : Option PemBlock → Result (KeyTextError E) K
  key_of_block none = err not_pem
  key_of_block (some b) =
      if b.kind == codes "PUBLIC KEY"
      then public_key (parse_pkix b.bytes)
      else if b.kind == codes "CERTIFICATE"
      then public_key (parse_certificate b.bytes)
      else err (not_public b.kind)

  -- `parsePublicKey`.
  unfoldable pub parse_public_key : Bytes → Result (KeyTextError E) K
  parse_public_key text = key_of_block (decode_pem text)

-- `read_file` is `os.ReadFile`, and `parse_key_text` is `parse_public_key` of the decoders.
module _ {K E : Type 0} (read_file : Bytes → Result E Bytes)
    (parse_key_text : Bytes → Result E K) where
  unfoldable pub of_issuer : Option (Map Bytes K) → Map Bytes K
  of_issuer none = []
  of_issuer (some keys) = keys

  unfoldable pub put_key :
      KeyFile
      → K
      → Map Bytes (Map Bytes K)
      → Option K
      → Result (KeysError E) (Map Bytes (Map Bytes K))
  put_key f key by_issuer (some taken) = err (two_keys f.issuer f.kid)
  put_key f key by_issuer none =
      ok (insert f.issuer (insert f.kid key (of_issuer (lookup f.issuer by_issuer))) by_issuer)

  unfoldable pub add_key :
      KeyFile
      → Map Bytes (Map Bytes K)
      → Result E K
      → Result (KeysError E) (Map Bytes (Map Bytes K))
  add_key f by_issuer (err e) = err (bad_key f.path e)
  add_key f by_issuer (ok key) =
      put_key f key by_issuer (lookup f.kid (of_issuer (lookup f.issuer by_issuer)))

  unfoldable pub add_file :
      KeyFile
      → Map Bytes (Map Bytes K)
      → Result E Bytes
      → Result (KeysError E) (Map Bytes (Map Bytes K))
  add_file f by_issuer (err e) = err (unreadable_key f.issuer e)
  add_file f by_issuer (ok text) = add_key f by_issuer (parse_key_text text)

  unfoldable pub load_each :
      List KeyFile → Map Bytes (Map Bytes K) → Result (KeysError E) (Map Bytes (Map Bytes K))
  load_each [] by_issuer = ok by_issuer
  load_each (f ∷ files) by_issuer =
      add_file f by_issuer (read_file f.path) >>= (λ by_issuer'. load_each files by_issuer')

  -- `loadKeys`: the map of the `StaticKeys`.
  unfoldable pub load_keys : List KeyFile → Result (KeysError E) (Map Bytes (Map Bytes K))
  load_keys files = load_each files []
