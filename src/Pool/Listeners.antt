-- ===== src/Pool/Listeners.antt =====
-- internal/pool/backend.go: the listeners of one backend (`Subscribe` and its release). A callback is a
-- value of an arbitrary type.
use mcp_reverse_proxy.Prelude.{ℕ, suc, [], nat_eq, list_eq}
use mcp_reverse_proxy.Prelude.Maps.{Map, insert, delete}

-- The fields `listeners` and `nextID` of a `Backend`.
pub record Listeners (F : Type 0) : Type 0 where
  pub listeners : Map ℕ F
  pub next_id : ℕ

module _ {F : Type 0} where
  -- A backend that nobody listens to yet.
  unfoldable pub silent : Listeners F
  silent = record { listeners = []; next_id = 0 }

  -- `Backend.Subscribe`: the number stands for the release that it returns.
  unfoldable pub subscribe : F → Listeners F → Listeners F × ℕ
  subscribe f l =
      (record { listeners = insert l.next_id f l.listeners; next_id = suc l.next_id }, l.next_id)

  -- The function that `Subscribe` returns.
  unfoldable pub release : ℕ → Listeners F → Listeners F
  release id l = record l { listeners = delete id l.listeners }
