-- ===== src/Aggregate/Listen.antt =====
-- internal/aggregate/listen.go: one client's stream of changes. A critical section of the mutex
-- and an operation of the channel are one step each, so that other goroutines come between them.
pub mod Stream
use mcp_reverse_proxy.Prelude.{
  Bool, true, false, Option, none, some, List, [], ◌∷◌, ◌++◌, ltb, if◌then◌else◌, nat_eq, list_eq,
  length,
}

-- `backend.ChangeKind`.
pub data Kind : Type 0 where
  tools : Kind
  prompts : Kind
  resources : Kind

-- `kinds`.
abbrev pub kinds : List Kind
kinds = tools ∷ prompts ∷ resources ∷ []

unfoldable pub kind_beq : Kind → Kind → Bool
kind_beq tools tools = true
kind_beq tools prompts = false
kind_beq tools resources = false
kind_beq prompts tools = false
kind_beq prompts prompts = true
kind_beq prompts resources = false
kind_beq resources tools = false
kind_beq resources prompts = false
kind_beq resources resources = true

-- `Listener`: its buffered channel and its map, with the calls of `deliver` that have marked a
-- kind and not sent it yet, and those of `Next` that have received one and not cleared it yet.
pub record Listener : Type 0 where
  pub changes : List Kind
  pub pending : Kind → Bool
  pub sending : List Kind
  pub taken : List Kind

-- `make` in `Listen`.
unfoldable pub new_listener : Listener
new_listener = record { changes = []; pending = λ _. false; sending = []; taken = [] }

unfoldable pub set_pending : Kind → Bool → (Kind → Bool) → Kind → Bool
set_pending kind value pending other = if kind_beq kind other then value else pending other

-- One occurrence less, `none` if there is none.
unfoldable pub remove_one : Kind → List Kind → Option (List Kind)
remove_one kind [] = none
remove_one kind (x ∷ xs) =
    let rest = remove_one kind xs in
    if kind_beq x kind then some xs else elim rest [ none ↦ none | some ys ↦ some (x ∷ ys) ]

-- `deliver` up to its last line.
unfoldable pub deliver_marks : Kind → Listener → Listener
deliver_marks kind l =
    if l.pending kind
    then l
    else record l { pending = set_pending kind true l.pending; sending = kind ∷ l.sending }

send : Kind → Listener → Option (List Kind) → Option Listener
send kind l none = none
send kind l (some rest) =
    if ltb (length l.changes) (length kinds)
    then some (record l { changes = l.changes ++ (kind ∷ []); sending = rest })
    else none

-- The last line of `deliver`: `none` while the buffer is full, or if no such call is under way.
unfoldable pub deliver_sends : Kind → Listener → Option Listener
unfolding send
deliver_sends kind l = send kind l (remove_one kind l.sending)

take : Listener → List Kind → Option (Kind × Listener)
take l [] = none
take l (kind ∷ rest) = some (kind, record l { changes = rest; taken = kind ∷ l.taken })

-- The receive of `Next`, `none` while the buffer is empty.
unfoldable pub next_receives : Listener → Option (Kind × Listener)
unfolding take
next_receives l = take l l.changes

clear : Kind → Listener → Option (List Kind) → Option Listener
clear kind l none = none
clear kind l (some rest) =
    some (record l { pending = set_pending kind false l.pending; taken = rest })

-- The rest of `Next`, after which it returns the kind.
unfoldable pub next_clears : Kind → Listener → Option Listener
unfolding clear
next_clears kind l = clear kind l (remove_one kind l.taken)
