-- ===== src/Aggregate/Uri.antt =====
-- internal/aggregate/uri.go: a backend's URI inside the gateway's. `url.PathUnescape` is the
-- library's, as it treats `%` and all else.
pub mod RoundTrip
pub mod Cuts
pub mod Template
use mcp_reverse_proxy.Prelude.{
  ℕ, zero, suc, ◌+◌, ◌-◌, ◌*◌, ◌/◌, ◌%◌, Bool, not, ◌&&◌, ◌||◌, Option, none, some, [], ◌∷◌, ◌++◌,
  ltb, leb, if◌then◌else◌, ◌==◌, nat_eq, list_eq, Bytes, is_empty, length, codes,
}

abbrev pub scheme : Bytes
scheme = codes "mcp-proxy"

between : ℕ → ℕ → ℕ → Bool
between low high c = leb low c && leb c high

-- `unreserved`.
unfoldable pub unreserved : ℕ → Bool
unfolding between
unreserved c =
    between 65 90 c
    || between 97 122 c
    || between 48 57 c
    || (c == 45)
    || (c == 46)
    || (c == 95)
    || (c == 126)

-- An upper-case digit of `%02X`.
unfoldable pub hex_digit : ℕ → ℕ
hex_digit n = if ltb n 10 then 48 + n else 55 + n

-- `escape`.
unfoldable pub escape : Bytes → Bytes
escape [] = []
escape (c ∷ s) =
    let rest = escape s in
    if unreserved c then c ∷ rest else 37 ∷ hex_digit (c / 16) ∷ hex_digit (c % 16) ∷ rest

-- `WrapURI`.
unfoldable pub wrap_uri : Bytes → Bytes → Bytes
wrap_uri backend_id uri = scheme ++ codes "://" ++ backend_id ++ codes "/" ++ escape uri

-- The value of a hexadecimal digit.
unfoldable pub unhex : ℕ → Option ℕ
unfolding between
unhex c =
    if between 48 57 c
    then some (c - 48)
    else if between 65 70 c
    then some (c - 55)
    else if between 97 102 c
    then some (c - 87)
    else none

pub pair : Option ℕ → Option ℕ → Option Bytes → Option Bytes
pair (some a) (some b) (some rest) = some ((a * 16 + b) ∷ rest)
pair _ _ _ = none

pub after_byte : ℕ → Option Bytes → Option Bytes
after_byte c none = none
after_byte c (some rest) = some (c ∷ rest)

-- `url.PathUnescape`, `none` for an escape that is cut short or not hexadecimal.
unfoldable pub path_unescape : Bytes → Option Bytes
unfolding pair after_byte
path_unescape [] = some []
path_unescape (c ∷ []) = if c == 37 then none else some (c ∷ [])
path_unescape (c ∷ d ∷ []) = if c == 37 then none else after_byte c (path_unescape (d ∷ []))
path_unescape (c ∷ d ∷ e ∷ s) =
    let plain = path_unescape (d ∷ e ∷ s) in
    let escaped = path_unescape s in
    if c == 37 then pair (unhex d) (unhex e) escaped else after_byte c plain

-- `url.URL`, as far as the code reads it.
pub record Url : Type 0 where
  pub url_scheme : Bytes
  pub host : Bytes
  pub escaped_path : Bytes

-- `strings.TrimPrefix(s, "/")`.
unfoldable pub trim_slash : Bytes → Bytes
trim_slash [] = []
trim_slash (c ∷ s) = if c == 47 then s else c ∷ s

unwrap_path : Bytes → Bytes → Option (Bytes × Bytes)
unwrap_path host encoded =
    let inner = path_unescape encoded in
    if is_empty encoded then none else elim inner [ none ↦ none | some uri ↦ some (host, uri) ]

unwrap_url : Option Url → Option (Bytes × Bytes)
unfolding unwrap_path
unwrap_url none = none
unwrap_url (some u) =
    if not (u.url_scheme == scheme) || is_empty u.host
    then none
    else unwrap_path u.host (trim_slash u.escaped_path)

-- `UnwrapURI`, `none` for `ErrBadURI`; `url.Parse` is a parameter.
unfoldable pub unwrap_uri : (Bytes → Option Url) → Bytes → Option (Bytes × Bytes)
unfolding unwrap_url unwrap_path
unwrap_uri parse gateway = unwrap_url (parse gateway)

-- `strings.IndexByte`, with what stands before the byte and after it.
unfoldable pub cut_at : ℕ → Bytes → Option (Bytes × Bytes)
cut_at b [] = none
cut_at b (c ∷ s) =
    let rest = cut_at b s in
    if c == b then some ([], s) else elim rest [ none ↦ none | some (x, y) ↦ some (c ∷ x, y) ]

-- A template's next literal text, expression and rest; `none` where the loop of `WrapURITemplate`
-- breaks.
unfoldable pub next_expression : Bytes → Option (Bytes × Bytes × Bytes)
next_expression rest = elim (cut_at 123 rest) [
  | none ↦ none
  | some (literal, after) ↦ elim (cut_at 125 after) [
    | none ↦ none
    | some (expression, tail) ↦ some (literal, expression, tail)
  ]
]

template_step : Bytes → Option (Bytes × Bytes × Bytes) → (Bytes → Bytes) → Bytes
template_step rest none loop = escape rest
template_step rest (some (literal, expression, tail)) loop =
    escape literal ++ (123 ∷ expression ++ (125 ∷ loop tail))

-- The loop of `WrapURITemplate`, a round for each unit of fuel: a round takes two bytes at least.
unfoldable pub template_body : ℕ → Bytes → Bytes
unfolding template_step
template_body zero rest = []
template_body (suc fuel) rest = template_step rest (next_expression rest) (template_body fuel)

-- `WrapURITemplate`.
unfoldable pub wrap_uri_template : Bytes → Bytes → Bytes
wrap_uri_template backend_id template =
    scheme
    ++ codes "://"
    ++ backend_id
    ++ codes "/"
    ++ template_body (suc (length template)) template
