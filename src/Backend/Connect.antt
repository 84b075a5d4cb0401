-- ===== src/Backend/Connect.antt =====
-- internal/backend/sdk.go, `Connect`: what the era policy and the SDK's handshake come to. The
-- handshake is the SDK's: its session or its error is an argument, with what the transport holds
-- afterwards, which is a connection of internal/backend/interpose.go after the handshake's messages.
use mcp_reverse_proxy.Prelude.{
  ◌≡◌, refl, ◌≢◌, ◌⊎◌, inl, inr, Bool, true, false, Option, none, some, List, [], Result, ok, err,
  Decides, ==-cases, nat_eq, list_eq, Bytes, is_empty,
}
use mcp_reverse_proxy.Config.Types.{era_modern, era_legacy}
use mcp_reverse_proxy.Backend.Interpose.{Conn, Mismatch, new_conn, pinned_modern}
use mcp_reverse_proxy.Backend.Interpose.Traces.{Event}
use mcp_reverse_proxy.Backend.Interpose.Probe.{after}
use mcp_reverse_proxy.Backend.Interpose.Outcome.{outcome_era, after_blame}
use mcp_reverse_proxy.Backend.Session.{ClientSession, SdkConnection}

-- `panicked` is the use of a transport that holds no connection.
pub data ConnectError (E : Type 0) : Type 0 where
  era_mismatch : Mismatch → ConnectError E
  not_opened : E → ConnectError E
  panicked : ConnectError E

-- What the handshake gives: a session, and the revision of its `InitializeResult`, if it has one.
pub record Handshake (S C A M R E : Type 0) : Type 0 where
  pub session : ClientSession S C A M R E
  pub revision : Option Bytes

unfoldable pub or_no_revision : Option Bytes → Bytes
or_no_revision none = []
or_no_revision (some r) = r

-- Why a handshake that failed with `e` is reported to have failed.
unfoldable pub verdict : {E : Type 0} → E → Option Mismatch → ConnectError E
verdict e none = not_opened e
verdict e (some m) = era_mismatch m

module _ {Ident S C A M R E : Type 0} (server_id : Bytes) where
  -- `Connect`: the connection or the error, and whether the transport's connection was closed.
  unfoldable pub connect :
      Option (Conn Ident)
      → Result E (Handshake S C A M R E)
      → Result (ConnectError E) (SdkConnection S C A M R E) × Bool
  connect none (err e) = (err (not_opened e), false)
  connect (some conn) (err e) = (err (verdict e conn.mismatch), true)
  connect none (ok h) = (err panicked, false)
  connect (some conn) (ok h) = (
    ok (record {
      server_id = server_id;
      era = conn.detected;
      revision = or_no_revision h.revision;
      session = some h.session;
    }),
    false,
  )

-- An era mismatch is a modern backend's, and the transport is there to be used.
abbrev pub Blames : {E : Type 0} → Bytes → ConnectError E → Type 0
Blames era (era_mismatch m) = pinned_modern era ≡ true
Blames era (not_opened e) = Unit
Blames era panicked = ⊥

verdict-Blames :
    {E : Type 0} (era : Bytes) (x : E) (m : Option Mismatch)
    → (m ≡ none) ⊎ (pinned_modern era ≡ true)
    → Blames era (verdict x m)
unfolding verdict
verdict-Blames era x none h = tt
verdict-Blames era x (some m) (inl clean) = absurd (cc)
verdict-Blames era x (some m) (inr pinned) = pinned

module _ {S C A M R E : Type 0} where
  -- What `Connect` may come to for a backend whose configuration pins this era.
  abbrev pub Settles : Bytes → Result (ConnectError E) (SdkConnection S C A M R E) × Bool → Type 0
  Settles era (ok c, closed) =
      (closed ≡ false)
      × (((era ≢ era_modern) × (era ≢ era_legacy)) ⊎ ((is_empty c.era ≡ true) ⊎ (c.era ≡ era)))
  Settles era (err e, closed) = (closed ≡ true) × Blames era e

module _ {Ident : Type 0} ⦃e : Decides Ident⦄ (is_valid : Ident → Bool) where
  reported :
      (era : Bytes) (vs : List (Event Ident))
      → ((era ≢ era_modern) × (era ≢ era_legacy))
        ⊎ ((is_empty (after is_valid vs (new_conn era)).detected ≡ true)
            ⊎ ((after is_valid vs (new_conn era)).detected ≡ era))
  reported era vs = elim (==-cases era era_modern) [
    | inl (_, modern) ↦ inr (outcome_era is_valid era vs (inl modern))
    | inr (_, other) ↦ elim (==-cases era era_legacy) [
      | inl (_, legacy) ↦ inr (outcome_era is_valid era vs (inr legacy))
      | inr (_, neither) ↦ inl (other, neither)
    ]
  ]

  -- Whatever passes between the client and the backend before the handshake ends: a session is
  -- opened with the era that the backend is pinned to or with none, and a failed handshake leaves
  -- the transport's connection closed, and is reported as an era mismatch only for a backend that
  -- is pinned to the modern era.
  pub connect-Settles :
      {S C A M R E : Type 0} (server_id era : Bytes) (vs : List (Event Ident))
      (h : Result E (Handshake S C A M R E))
      → Settles era (connect server_id (some (after is_valid vs (new_conn era))) h)
  unfolding connect
  connect-Settles server_id era vs (ok h) = (refl, reported era vs)
  connect-Settles server_id era vs (err x) = (
    refl,
    verdict-Blames era x (after is_valid vs (new_conn era)).mismatch (after_blame is_valid era vs),
  )
