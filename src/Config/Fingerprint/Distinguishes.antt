-- ===== src/Config/Fingerprint/Distinguishes.antt =====
-- internal/config/fingerprint.go: servers that would be started differently are written differently.
use mcp_reverse_proxy.Prelude.{
  ℕ, zero, suc, ◌/◌, ◌%◌, ◌^◌, ◌<◌, ◌≡◌, refl, sym, ap, ap₂, ◌∙◌, ◌≢◌, ◌⊎◌, inl, inr, List, [], ◌∷◌,
  ◌++◌, map, append-nil, append_assoc, flat_map, arith, nat_eq, list_eq, ==-cases, Bytes, length,
  length-append, prefix_unique, All,
}
use mcp_reverse_proxy.Config.Types.{Env, Server}
use mcp_reverse_proxy.Config.Env.{env_keys}
use mcp_reverse_proxy.Config.Fingerprint.{
  hex_digit, big_endian, count, field, pair_fields, env_pairs, message, hex, fingerprint,
}

length-big_endian : (w n : ℕ) → length (big_endian w n) ≡ w
unfolding big_endian
length-big_endian zero n = refl
length-big_endian (suc w) n =
    omega (
      arith,
      length-append (big_endian w (n / 256)) ((n % 256) ∷ []),
      length-big_endian w (n / 256),
    )

-- A number is known from its last bytes if it fits in them.
big_endian-injective :
    (w m n : ℕ) → m < 256 ^ w → n < 256 ^ w → big_endian w m ≡ big_endian w n → m ≡ n
unfolding big_endian
big_endian-injective zero m n h k e = omega arith
big_endian-injective (suc w) m n h k e =
    let (high, low) =
      prefix_unique (big_endian w (m / 256)) (big_endian w (n / 256)) ((m % 256) ∷ [])
        ((n % 256) ∷ []) e (length-big_endian w (m / 256) ∙ sym (length-big_endian w (n / 256))) in
    let quotients = big_endian-injective w (m / 256) (n / 256) (omega arith) (omega arith) high in
    let last : m % 256 ≡ n % 256 = cc in omega (arith, quotients, last)

-- A text of this form shows where it ends, and what was written.
pub Readable : {A : Type 0} → (A → Bytes) → (A → Type 0) → Type 0
Readable {A} write Sized =
    (a b : A) (s t : Bytes) → Sized a → Sized b → write a ++ s ≡ write b ++ t → (a ≡ b) × (s ≡ t)

abbrev pub Counted : ℕ → Type 0
Counted n = n < 2 ^ 64

abbrev pub Short : Bytes → Type 0
Short s = Counted (length s)

count-Readable : Readable count Counted
unfolding Readable count
count-Readable m n s t h k e =
    let (counts, rest) =
      prefix_unique (big_endian 8 m) (big_endian 8 n) s t e
        (length-big_endian 8 m ∙ sym (length-big_endian 8 n)) in
    (big_endian-injective 8 m n h k counts, rest)

field-Readable : Readable field Short
unfolding Readable field
field-Readable a b s t h k e =
    let e' : count (length a) ++ (a ++ s) ≡ count (length b) ++ (b ++ t) =
      sym (append_assoc (count (length a)) a s) ∙ (e ∙ append_assoc (count (length b)) b t) in
    let (lengths, rest) = count-Readable (length a) (length b) (a ++ s) (b ++ t) h k e' in
    prefix_unique a b s t rest lengths

pair_fields-Readable : Readable pair_fields (λ (k, v). Short k × Short v)
unfolding Readable pair_fields
pair_fields-Readable (k, v) (j, w) s t (hk, hv) (hj, hw) e =
    let e' : field k ++ (field v ++ s) ≡ field j ++ (field w ++ t) =
      sym (append_assoc (field k) (field v) s) ∙ (e ∙ append_assoc (field j) (field w) t) in
    let (names, rest) = field-Readable k j (field v ++ s) (field w ++ t) hk hj e' in
    let (values, rest') = field-Readable v w s t hv hw rest in
    (ap₂ (λ x y. (x, y)) names values, rest')

-- So are lists of one length, one after the other.
flat_map-Readable :
    {A : Type 0} (write : A → Bytes) (Sized : A → Type 0)
    → Readable write Sized
    → (xs ys : List A) (s t : Bytes) → length xs ≡ length ys
    → All Sized xs
    → All Sized ys
    → flat_map write xs ++ s ≡ flat_map write ys ++ t
    → (xs ≡ ys) × (s ≡ t)
unfolding Readable mathlib.Core.List.flat_map
flat_map-Readable write Sized r [] [] s t l h k e = (refl, e)
flat_map-Readable write Sized r [] (y ∷ ys) s t l h k e = absurd (omega (arith, l))
flat_map-Readable write Sized r (x ∷ xs) [] s t l h k e = absurd (omega (arith, l))
flat_map-Readable write Sized r (x ∷ xs) (y ∷ ys) s t l (hx, h) (hy, k) e =
    let e' : write x ++ (flat_map write xs ++ s) ≡ write y ++ (flat_map write ys ++ t) =
      sym (append_assoc (write x) (flat_map write xs) s)
      ∙ (e ∙ append_assoc (write y) (flat_map write ys) t) in
    let (heads, rest) = r x y (flat_map write xs ++ s) (flat_map write ys ++ t) hx hy e' in
    let (tails, rest') = flat_map-Readable write Sized r xs ys s t (omega (arith, l)) h k rest in
    (ap₂ (λ z zs. z ∷ zs) heads tails, rest')

-- The texts of a configuration are shorter than 2 ^ 64 bytes, as all texts that a machine holds.
pub record IsSized (s : Server) : Type 0 where
  pub id : Short s.id
  pub command : Short s.command
  pub arg_count : Counted (length s.args)
  pub args : All Short s.args
  pub env_count : Counted (length (env_keys s.env))
  pub env : All (λ (k, v). Short k × Short v) (env_pairs s.env)
  pub era : Short s.era

-- Two configurations with which the same process would be started.
pub record SameProcess (s t : Server) : Type 0 where
  pub id : s.id ≡ t.id
  pub command : s.command ≡ t.command
  pub args : s.args ≡ t.args
  pub env : env_pairs s.env ≡ env_pairs t.env
  pub era : s.era ≡ t.era

-- A list after its length.
flat_map-after_length :
    {A : Type 0} (write : A → Bytes) (Sized : A → Type 0)
    → Readable write Sized
    → (m n : ℕ) (xs ys : List A) (s t : Bytes) → length xs ≡ m
    → length ys ≡ n
    → Counted m
    → Counted n
    → All Sized xs
    → All Sized ys
    → (count m ++ flat_map write xs) ++ s ≡ (count n ++ flat_map write ys) ++ t
    → (xs ≡ ys) × (s ≡ t)
unfolding Readable
flat_map-after_length write Sized r m n xs ys s t l l' c c' h k e =
    let e' : count m ++ (flat_map write xs ++ s) ≡ count n ++ (flat_map write ys ++ t) =
      sym (append_assoc (count m) (flat_map write xs) s)
      ∙ (e ∙ append_assoc (count n) (flat_map write ys) t) in
    let (lengths, rest) =
      count-Readable m n (flat_map write xs ++ s) (flat_map write ys ++ t) c c' e' in
    flat_map-Readable write Sized r xs ys s t (l ∙ (lengths ∙ sym l')) h k rest

length-map : {A B : Type 0} (f : A → B) (xs : List A) → length (map f xs) ≡ length xs
length-map f [] = refl
length-map f (x ∷ xs) = ap suc (length-map f xs)

length-env_pairs : (e : Env) → length (env_pairs e) ≡ length (env_keys e)
unfolding env_pairs
length-env_pairs e = length-map _ (env_keys e)

message-SameProcess :
    (s t : Server) → IsSized s → IsSized t → message s ≡ message t → SameProcess s t
unfolding message Readable
message-SameProcess s t h k e =
    let (id, e₁) = field-Readable s.id t.id _ _ h.id k.id e in
    let (command, e₂) = field-Readable s.command t.command _ _ h.command k.command e₁ in
    let (args, e₃) =
      flat_map-after_length field Short field-Readable (length s.args) (length t.args) s.args t.args
        _ _ refl refl h.arg_count k.arg_count h.args k.args e₂ in
    let (env, e₄) =
      flat_map-after_length pair_fields (λ (k, v). Short k × Short v) pair_fields-Readable
        (length (env_keys s.env)) (length (env_keys t.env)) (env_pairs s.env) (env_pairs t.env) _ _
        (length-env_pairs s.env) (length-env_pairs t.env) h.env_count k.env_count h.env k.env e₃ in
    let (era, _) =
      field-Readable s.era t.era [] [] h.era k.era
        (append-nil (field s.era) ∙ (e₄ ∙ sym (append-nil (field t.era)))) in
    record { id = id; command = command; args = args; env = env; era = era }

SameProcess-message : (s t : Server) → SameProcess s t → message s ≡ message t
unfolding message
SameProcess-message s t h =
    let names = ap (λ ps. length ps) h.env in
    let counts = sym (length-env_pairs s.env) ∙ (names ∙ length-env_pairs t.env) in
    simp (h.id, h.command, h.args, h.env, h.era, counts) refl

hex_digit-injective : (m n : ℕ) → m < 16 → n < 16 → hex_digit m ≡ hex_digit n → m ≡ n
unfolding hex_digit
hex_digit-injective m n h k e = ground (arith, e)

hex-injective :
    (xs ys : Bytes) → All (λ b. b < 256) xs → All (λ b. b < 256) ys → hex xs ≡ hex ys → xs ≡ ys
unfolding hex
hex-injective [] [] h k e = refl
hex-injective [] (y ∷ ys) h k e = absurd cc
hex-injective (x ∷ xs) [] h k e = absurd cc
hex-injective (x ∷ xs) (y ∷ ys) (hx, h) (hy, k) e =
    let high = hex_digit-injective (x / 16 % 16) (y / 16 % 16) (omega arith) (omega arith) cc in
    let low = hex_digit-injective (x % 16) (y % 16) (omega arith) (omega arith) cc in
    let rest = hex-injective xs ys h k cc in ap₂ (λ b bs. b ∷ bs) (omega (arith, high, low)) rest

-- Servers that start the same process have the same fingerprint, and servers with the same
-- fingerprint start the same process, unless their messages are a collision of the MAC; if the
-- texts are shorter than 2 ^ 64 bytes, and a MAC is made of bytes.
pub fingerprint-SameProcess :
    (mac : Bytes → Bytes → Bytes) (key : Bytes) (s t : Server)
    → ((m : Bytes) → All (λ b. b < 256) (mac key m))
    → IsSized s
    → IsSized t
    → (SameProcess s t → fingerprint mac key s ≡ fingerprint mac key t)
      × (fingerprint mac key s ≡ fingerprint mac key t
          → SameProcess s t
            ⊎ ((message s ≢ message t) × (mac key (message s) ≡ mac key (message t))))
unfolding fingerprint
fingerprint-SameProcess mac key s t bytes h k = (
  λ same. ap (λ m. hex (mac key m)) (SameProcess-message s t same),
  λ e.
      let collide =
        hex-injective (mac key (message s)) (mac key (message t)) (bytes (message s))
          (bytes (message t)) e in
      elim (==-cases (message s) (message t)) [
        | inl (_, same) ↦ inl (message-SameProcess s t h k same)
        | inr (_, differ) ↦ inr (differ, collide)
      ],
)
