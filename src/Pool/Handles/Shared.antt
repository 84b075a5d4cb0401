-- ===== src/Pool/Handles/Shared.antt =====
-- internal/pool/pool.go, internal/auth/auth.go and internal/config/fingerprint.go: which handles
-- reach one process.
use mcp_reverse_proxy.Prelude.{◌<◌, ◌≡◌, ap, ◌≢◌, ◌⊎◌, nat_eq, list_eq, Bytes, All}
use mcp_reverse_proxy.Auth.Claims.{Subject, LacksNul, subject_key_injective}
use mcp_reverse_proxy.Config.Types.{Server}
use mcp_reverse_proxy.Config.Fingerprint.{message}
use mcp_reverse_proxy.Config.Fingerprint.Distinguishes.{
  IsSized, SameProcess, fingerprint-SameProcess,
}
use mcp_reverse_proxy.Pool.Handles.{handle_for}

-- Two handles of the pool have one key, and with it one process, only if they are for the same
-- subject, and for servers that start the same process or whose messages are a collision of the
-- MAC; if no issuer holds a NUL byte, the texts are shorter than 2 ^ 64 bytes, and a MAC is made
-- of bytes.
pub handles_shared :
    (mac : Bytes → Bytes → Bytes) (secret : Bytes) (s t : Subject) (a b : Server)
    → ((m : Bytes) → All (λ byte. byte < 256) (mac secret m))
    → LacksNul s.issuer
    → LacksNul t.issuer
    → IsSized a
    → IsSized b
    → (handle_for mac secret s a).key ≡ (handle_for mac secret t b).key
    → (s ≡ t)
      × (SameProcess a b
          ⊎ ((message a ≢ message b) × (mac secret (message a) ≡ mac secret (message b))))
unfolding handle_for
handles_shared mac secret s t a b bytes hs ht ha hb h = (
  subject_key_injective s t hs ht (ap (λ k. k.subject) h),
  (fingerprint-SameProcess mac secret a b bytes ha hb).1 (ap (λ k. k.fingerprint) h),
)
