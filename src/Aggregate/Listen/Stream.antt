-- ===== src/Aggregate/Listen/Stream.antt =====
-- internal/aggregate/listen.go: a stream neither blocks a backend nor loses a change.
use mcp_reverse_proxy.Prelude.{
  ℕ, suc, ◌+◌, ◌≤◌, ◌<◌, ◌≡◌, refl, ap, ◌∙◌, subst, ◌≢◌, inl, inr, Bool, true, Option, none, some,
  List, [], ◌∷◌, ◌++◌, arith, ltb, if◌then◌else◌, lt→ltb, Bool-cases, Option-cases, nat_eq, list_eq,
  length,
}
use mcp_reverse_proxy.Aggregate.Listen.{
  Kind, tools, prompts, resources, kinds, kind_beq, Listener, new_listener, set_pending, remove_one,
  deliver_marks, deliver_sends, next_receives, next_clears, send, take, clear,
}

-- The listeners that any interleaving of `deliver` and `Next` leads to.
pub data Reach : Listener → Type 0 where
  fresh : Reach new_listener
  marks : {l : Listener} → Reach l → (k : Kind) → Reach (deliver_marks k l)
  sends : {l l' : Listener} → Reach l → (k : Kind) → deliver_sends k l ≡ some l' → Reach l'
  receives : {l l' : Listener} → Reach l → (k : Kind) → next_receives l ≡ some (k, l') → Reach l'
  clears : {l l' : Listener} → Reach l → (k : Kind) → next_clears k l ≡ some l' → Reach l'

pub count : Kind → List Kind → ℕ
count k [] = 0
count k (x ∷ xs) = if kind_beq x k then suc (count k xs) else count k xs

-- How often a kind is on its way to the client.
pub under_way : Kind → Listener → ℕ
under_way k l = count k l.sending + count k l.changes + count k l.taken

pub flag : Bool → ℕ
flag b = if b then 1 else 0

-- A kind is on its way once while it is pending, and not at all otherwise.
Tracked : Listener → Type 0
Tracked l = (k : Kind) → under_way k l ≡ flag (l.pending k)

count-append : (k : Kind) (xs ys : List Kind) → count k (xs ++ ys) ≡ count k xs + count k ys
unfolding count
count-append k [] ys = omega arith
count-append k (x ∷ xs) ys = ground (arith, count-append k xs ys)

length-counts :
    (xs : List Kind) → length xs ≡ count tools xs + count prompts xs + count resources xs
unfolding count kind_beq
length-counts [] = refl
length-counts (tools ∷ xs) = omega (arith, length-counts xs)
length-counts (prompts ∷ xs) = omega (arith, length-counts xs)
length-counts (resources ∷ xs) = omega (arith, length-counts xs)

kind_beq_refl : (k : Kind) → kind_beq k k ≡ true
unfolding kind_beq
kind_beq_refl tools = refl
kind_beq_refl prompts = refl
kind_beq_refl resources = refl

kind_beq_sound : (j k : Kind) → kind_beq j k ≡ true → j ≡ k
unfolding kind_beq
kind_beq_sound tools tools h = refl
kind_beq_sound tools prompts h = cc
kind_beq_sound tools resources h = cc
kind_beq_sound prompts tools h = cc
kind_beq_sound prompts prompts h = refl
kind_beq_sound prompts resources h = cc
kind_beq_sound resources tools h = cc
kind_beq_sound resources prompts h = cc
kind_beq_sound resources resources h = refl

flag_below : (b : Bool) → flag b ≤ 1
unfolding flag
flag_below b = ground arith

remove_one-count :
    (k j : Kind) (xs ys : List Kind)
    → remove_one k xs ≡ some ys
    → count j xs ≡ count j ys + flag (kind_beq k j)
unfolding remove_one count flag
remove_one-count k j [] ys h = cc
remove_one-count k j (x ∷ xs) ys h = elim (Bool-cases (kind_beq x k)) [
  | inl same ↦ rw (kind_beq_sound x k same) (ground (arith, same))
  | inr other ↦ elim (Option-cases (remove_one k xs)) [
    | inl none_left ↦ ground (arith, none_left, other)
    | inr (rest, e) ↦ ground (arith, e, other, remove_one-count k j xs rest e)
  ]
]

deliver_marks-Tracked : (k : Kind) (l : Listener) → Tracked l → Tracked (deliver_marks k l)
unfolding Tracked under_way count flag deliver_marks set_pending
deliver_marks-Tracked k l t j = ground (arith, t j, t k, kind_beq_sound k j)

abbrev OnSome : {A : Type 0} → (A → Type 0) → Option A → Type 0
OnSome P none = Unit
OnSome P (some a) = P a

send-Tracked :
    (k : Kind) (l : Listener) (o : Option (List Kind))
    → remove_one k l.sending ≡ o
    → Tracked l
    → OnSome Tracked (send k l o)
unfolding Tracked under_way count flag send
send-Tracked k l none e t = tt
send-Tracked k l (some rest) e t = elim (Bool-cases (ltb (length l.changes) (length kinds))) [
  | inl room ↦ rw room (λ j.
      ground (arith, t j, remove_one-count k j l.sending rest e, count-append j l.changes (k ∷ [])))
  | inr full ↦ rw full tt
]

take-Tracked :
    (l : Listener) (changes : List Kind)
    → l.changes ≡ changes
    → Tracked l
    → OnSome (λ r. Tracked r.1) (take l changes)
unfolding Tracked under_way count take
take-Tracked l [] e t = tt
take-Tracked l (k ∷ rest) e t = λ j. ground (arith, t j, ap (count j) e)

clear-Tracked :
    (k : Kind) (l : Listener) (o : Option (List Kind))
    → remove_one k l.taken ≡ o
    → Tracked l
    → OnSome Tracked (clear k l o)
unfolding Tracked under_way clear set_pending flag
clear-Tracked k l none e t = tt
clear-Tracked k l (some rest) e t =
    λ j. ground (arith, t j, flag_below (l.pending j), remove_one-count k j l.taken rest e)

new_listener-Tracked : Tracked new_listener
unfolding Tracked under_way new_listener count flag
new_listener-Tracked j = refl

Reach-Tracked : {l : Listener} → Reach l → Tracked l
unfolding deliver_sends next_receives next_clears
Reach-Tracked fresh = new_listener-Tracked
Reach-Tracked (marks {l = l} r k) = deliver_marks-Tracked k l (Reach-Tracked r)
Reach-Tracked (sends {l = l} r k h) =
    subst (OnSome Tracked) h (send-Tracked k l _ refl (Reach-Tracked r))
Reach-Tracked (receives {l = l} r k h) =
    subst (OnSome (λ s. Tracked s.1)) h (take-Tracked l _ refl (Reach-Tracked r))
Reach-Tracked (clears {l = l} r k h) =
    subst (OnSome Tracked) h (clear-Tracked k l _ refl (Reach-Tracked r))

remove_one-positive : (k : Kind) (xs ys : List Kind) → remove_one k xs ≡ some ys → 1 ≤ length xs
unfolding remove_one
remove_one-positive k [] ys h = cc
remove_one-positive k (x ∷ xs) ys h = omega arith

-- While a kind is about to be sent the buffer has room: it holds each other kind at most once.
room_to_send :
    (k : Kind) (l : Listener) (rest : List Kind)
    → Tracked l
    → remove_one k l.sending ≡ some rest
    → length l.changes < length kinds
unfolding Tracked under_way flag
room_to_send k l rest t e = omega (
  arith,
  length-counts l.changes,
  length-counts l.sending,
  remove_one-positive k l.sending rest e,
  below tools,
  below prompts,
  below resources,
)
  where
    below : (j : Kind) → count j l.sending + count j l.changes ≤ 1
    below j = omega (arith, t j, flag_below (l.pending j))

-- At every moment of every interleaving of `deliver` and `Next` a kind that is pending is on its
-- way to the client once, and one that is not pending is not on its way.
pub on_its_way_once : {l : Listener} → Reach l → (k : Kind) → under_way k l ≡ flag (l.pending k)
unfolding Tracked
on_its_way_once r = Reach-Tracked r

-- At every moment of every interleaving of `deliver` and `Next`, a call of `deliver` that has marked
-- its kind finds room in the buffer.
pub deliver_finds_room :
    {l : Listener}
    → Reach l
    → (k : Kind) (rest : List Kind) → remove_one k l.sending ≡ some rest
    → deliver_sends k l ≢ none
unfolding deliver_sends send
deliver_finds_room {l} r k rest e =
    rw (e, lt→ltb _ _ (room_to_send k l rest (Reach-Tracked r) e)) (λ h. cc)

-- Whatever is on its way already, after `deliver` has run its critical section the kind is on its
-- way to the client.
pub deliver_not_lost : {l : Listener} → Reach l → (k : Kind) → under_way k (deliver_marks k l) ≡ 1
unfolding deliver_marks flag set_pending Tracked
deliver_not_lost {l} r k = Reach-Tracked (marks r k) k ∙ ground (arith, kind_beq_refl k)
