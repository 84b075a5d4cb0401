-- ===== src/Cmd/Flags/Keys.antt =====
-- cmd/mcp-reverse-proxy/flags.go: a key that is written as the usage says is read as it is meant.
use mcp_reverse_proxy.Prelude.{
  ℕ, ◌≡◌, refl, false, none, some, [], ◌∷◌, ◌++◌, arith, ok, nat_eq, list_eq, ==-refl, Bytes,
  is_empty, contains,
}
use mcp_reverse_proxy.Aggregate.Uri.{cut_at}
use mcp_reverse_proxy.Aggregate.Uri.Cuts.{cut_at-append}
use mcp_reverse_proxy.Cmd.Flags.{KeyFile, cut_last, parse_key, key_sides, key_file, split_kid}

cut_last-none : (b : ℕ) (s : Bytes) → contains s b ≡ false → cut_last b s ≡ none
unfolding cut_last
cut_last-none b [] h = refl
cut_last-none b (c ∷ s) h = ground (arith, h, cut_last-none b s)

cut_last-append :
    (b : ℕ) (before after : Bytes)
    → contains after b ≡ false
    → cut_last b (before ++ (b ∷ after)) ≡ some (before, after)
unfolding cut_last
cut_last-append b [] after h = rw (cut_last-none b after h, ==-refl b) refl
cut_last-append b (c ∷ before) after h = rw (cut_last-append b before after h) refl

cut_at-none : (b : ℕ) (s : Bytes) → contains s b ≡ false → cut_at b s ≡ none
unfolding cut_at
cut_at-none b [] h = refl
cut_at-none b (c ∷ s) h = ground (arith, h, cut_at-none b s)

write_issuer : Bytes → Bytes → Bytes
write_issuer issuer [] = issuer
write_issuer issuer (c ∷ kid) = issuer ++ (35 ∷ c ∷ kid)

-- `issuer=path`, or `issuer#kid=path` for a key that is named.
unfoldable pub write_key : KeyFile → Bytes
unfolding write_issuer
write_key k = write_issuer k.issuer k.kid ++ (61 ∷ k.path)

split-write_issuer :
    (issuer kid : Bytes)
    → contains issuer 35 ≡ false
    → split_kid (write_issuer issuer kid) (cut_at 35 (write_issuer issuer kid)) ≡ (issuer, kid)
unfolding write_issuer split_kid
split-write_issuer issuer [] h = rw (cut_at-none 35 issuer h) refl
split-write_issuer issuer (c ∷ kid) h = rw (cut_at-append 35 issuer (c ∷ kid) h) refl

written_issuer :
    (issuer kid : Bytes) → is_empty issuer ≡ false → is_empty (write_issuer issuer kid) ≡ false
unfolding write_issuer is_empty
written_issuer [] kid h = absurd cc
written_issuer (x ∷ issuer) [] h = refl
written_issuer (x ∷ issuer) (c ∷ kid) h = refl

-- A `-key` flag is read back as it was written, with a key identifier or without one, if the issuer
-- and the path are not empty, the issuer holds no '#', and the path no '='.
pub parse_key-write_key :
    (k : KeyFile)
    → is_empty k.issuer ≡ false
    → contains k.issuer 35 ≡ false
    → is_empty k.path ≡ false
    → contains k.path 61 ≡ false
    → parse_key (write_key k) ≡ ok k
unfolding parse_key write_key key_sides key_file
parse_key-write_key k named plain given clean =
    rw
      (
        cut_last-append 61 (write_issuer k.issuer k.kid) k.path clean,
        written_issuer k.issuer k.kid named,
        given,
        split-write_issuer k.issuer k.kid plain,
        named,
      )
      refl
