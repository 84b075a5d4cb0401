-- ===== src/Aggregate/Uri/RoundTrip.antt =====
-- internal/aggregate/uri.go: an escaped URI is recovered.
use mcp_reverse_proxy.Prelude.{
  ℕ, ◌/◌, ◌%◌, ◌<◌, ◌≡◌, refl, ap, ◌∙◌, ◌≢◌, inl, inr, Bool, true, false, ◌||◌, Option, none, some,
  [], ◌∷◌, ◌++◌, arith, Bool-cases, ◌==◌, nat_eq, list_eq, Bytes, is_empty, All, codes, non_empty,
}
use mcp_reverse_proxy.Aggregate.Uri.{
  trim_slash, wrap_uri, unwrap_path, scheme, unwrap_url, Url, unwrap_uri, unreserved, hex_digit,
  escape, unhex, path_unescape, pair, after_byte, between,
}

pub unhex-hex_digit : (n : ℕ) → n < 16 → unhex (hex_digit n) ≡ some n
unfolding unhex hex_digit between
unhex-hex_digit n h = ground arith

pub path_unescape-plain :
    (c : ℕ) (s : Bytes) → (c == 37) ≡ false → path_unescape (c ∷ s) ≡ after_byte c (path_unescape s)
unfolding path_unescape after_byte
path_unescape-plain c [] h = rw h refl
path_unescape-plain c (d ∷ []) h = rw h refl
path_unescape-plain c (d ∷ e ∷ s) h = rw h refl

pub path_unescape-percent :
    (d e : ℕ) (s : Bytes)
    → path_unescape (37 ∷ d ∷ e ∷ s) ≡ pair (unhex d) (unhex e) (path_unescape s)
unfolding path_unescape pair
path_unescape-percent d e s = refl

pub unreserved-plain : (c : ℕ) → unreserved c ≡ true → (c == 37) ≡ false
unfolding unreserved between
unreserved-plain c h = ground arith

path_unescape-coded :
    (c : ℕ) (s rest : Bytes)
    → c < 256
    → path_unescape rest ≡ some s
    → path_unescape (37 ∷ hex_digit (c / 16) ∷ hex_digit (c % 16) ∷ rest) ≡ some (c ∷ s)
unfolding path_unescape pair
path_unescape-coded c s rest small h =
    rw (unhex-hex_digit (c / 16) (omega arith), unhex-hex_digit (c % 16) (omega arith), h)
      (ap (λ n. some (n ∷ s)) (omega arith))

-- Unescaping gives back every string of bytes that was escaped.
pub path_unescape-escape : (s : Bytes) → All (λ c. c < 256) s → path_unescape (escape s) ≡ some s
unfolding escape after_byte
path_unescape-escape [] _ = unfold path_unescape in refl
path_unescape-escape (c ∷ s) (small, rest) = elim (Bool-cases (unreserved c)) [
  | inl plain ↦ rw plain (
      path_unescape-plain c (escape s) (unreserved-plain c plain)
      ∙ ap (after_byte c) (path_unescape-escape s rest))
  | inr coded ↦ rw coded (path_unescape-coded c s (escape s) small (path_unescape-escape s rest))
]

abbrev pub escaped : ℕ → Bool
escaped c = unreserved c || (c == 37)

hex_digit-escaped : (n : ℕ) → n < 16 → escaped (hex_digit n) ≡ true
unfolding unreserved between hex_digit
hex_digit-escaped n h = ground arith

-- An escaped string has unreserved bytes and percent signs only.
pub escape-escaped : (s : Bytes) → All (λ c. c < 256) s → All (λ c. escaped c ≡ true) (escape s)
unfolding escape unreserved
escape-escaped [] _ = tt
escape-escaped (c ∷ s) (small, rest) = elim (Bool-cases (unreserved c)) [
  | inl plain ↦ rw plain (rw plain refl, escape-escaped s rest)
  | inr coded ↦ rw coded (
    refl,
    (
      hex_digit-escaped (c / 16) (omega arith),
      (hex_digit-escaped (c % 16) (omega arith), escape-escaped s rest),
    ),
  )
]

escape-empty : (s : Bytes) → non_empty s ≡ true → is_empty (escape s) ≡ false
unfolding escape is_empty
escape-empty [] h = cc
escape-empty (c ∷ s) h = ground arith

pub not_empty : (s : Bytes) → non_empty s ≡ true → is_empty s ≡ false
unfolding is_empty
not_empty [] h = cc
not_empty (c ∷ s) h = refl

-- What `url.Parse` does with a gateway URI whose host is of unreserved bytes, and whose path is
-- escaped.
unfoldable pub ParsesWrapped : (Bytes → Option Url) → Type 0
ParsesWrapped parse =
    (host path : Bytes)
    → All (λ c. unreserved c ≡ true) host
    → All (λ c. escaped c ≡ true) path
    → path_unescape path ≢ none
    → parse (scheme ++ codes "://" ++ host ++ codes "/" ++ path)
      ≡ some (record { url_scheme = scheme; host = host; escaped_path = 47 ∷ path })

-- `UnwrapURI` recovers the backend and the URI from what `WrapURI` makes of them, if the identifier
-- is not empty and made of unreserved bytes, and the URI is not empty.
pub unwrap_uri-wrap_uri :
    (parse : Bytes → Option Url)
    → ParsesWrapped parse
    → (id uri : Bytes) → non_empty id ≡ true
    → All (λ c. unreserved c ≡ true) id
    → non_empty uri ≡ true
    → All (λ c. c < 256) uri
    → unwrap_uri parse (wrap_uri id uri) ≡ some (id, uri)
unfolding unwrap_uri unwrap_url unwrap_path wrap_uri trim_slash ParsesWrapped
unwrap_uri-wrap_uri parse parses id uri named host given bytes =
    let back = path_unescape-escape uri bytes in
    rw
      (
        parses id (escape uri) host (escape-escaped uri bytes) (rw back (λ h. cc)),
        not_empty id named,
        escape-empty uri given,
        back,
      )
      refl
