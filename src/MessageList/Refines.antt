-- ===== src/MessageList/Refines.antt =====
-- Any sequence of calls on a queue behaves as the same sequence on a plain list of messages.
use rmw_zenoh_pico.Prelude.{
  ℕ, ◌+◌, ◌≤◌, ◌<◌, ◌≡◌, refl, ap₂, ◌∙◌, Bool, false, Option, none, some, List, [], ◌∷◌, ◌++◌,
  arith, length, length-append,
}
use rmw_zenoh_pico.Message.{ReceiveMessageData}
use rmw_zenoh_pico.Memory.{Ptr, null, Memory, Cmd, pure, ◌>>=◌, Holds}
use rmw_zenoh_pico.MessageList.{
  ReceiveMessageDataList, recv_msg_list_append, recv_msg_list_pop, recv_msg_list_pickup,
}
use rmw_zenoh_pico.MessageList.Chain.{Messages, has, cell_of, IsQueue, has-append}
use rmw_zenoh_pico.MessageList.Ends.{
  Ensures, Ensures-mono, Ensures-bind, append-IsQueue, pop-IsQueue, pop_empty,
}
use rmw_zenoh_pico.MessageList.Pickup.{picked, without_picked, IsPicked, pickup-IsQueue}

-- A call: the message that is appended stands in memory at its address.
pub data Call : Type 0 where
  append : Ptr → ReceiveMessageData → Call
  pop : Call
  pickup : (ReceiveMessageData → Bool) → Call

unfoldable pub call : ℕ → ReceiveMessageDataList → Call → Cmd (ReceiveMessageDataList × Ptr)
call fuel l (append p m) = recv_msg_list_append l p
call fuel l pop = recv_msg_list_pop l
call fuel l (pickup func) = recv_msg_list_pickup fuel l func

-- The calls one after the other, with the pointers that they give.
unfoldable pub run :
    ℕ → ReceiveMessageDataList → List Call → Cmd (ReceiveMessageDataList × List Ptr)
run fuel l [] = pure (l, [])
run fuel l (c ∷ cs) = call fuel l c >>= λ r. run fuel (r.0) cs >>= λ r'. pure (r'.0, r.1 ∷ r'.1)

abbrev address : Option (Ptr × ReceiveMessageData) → Ptr
address none = null
address (some (a, m)) = a

-- The same calls on a list: what it becomes, and what a call gives.
abbrev pub after : Messages → Call → Messages
after xs (append p m) = xs ++ (p, m) ∷ []
after [] pop = []
after (x ∷ xs) pop = xs
after xs (pickup func) = without_picked func xs

abbrev pub answer : Messages → Call → Ptr
answer xs (append p m) = p
answer [] pop = null
answer ((a, m) ∷ xs) pop = a
answer xs (pickup func) = address (picked func xs)

abbrev pub replay : Messages → List Call → Messages
replay xs [] = xs
replay xs (c ∷ cs) = replay (after xs c) cs

abbrev pub answers : Messages → List Call → List Ptr
answers xs [] = []
answers xs (c ∷ cs) = answer xs c ∷ answers (after xs c) cs

-- The messages that calls append.
abbrev pub appended : List Call → Messages
appended [] = []
appended (append p m ∷ cs) = (p, m) ∷ appended cs
appended (pop ∷ cs) = appended cs
appended (pickup func ∷ cs) = appended cs

-- They are in memory, each at an address of its own that is not in the queue.
abbrev pub Waiting : Memory → Messages → Messages → Type 0
Waiting s xs [] = Unit {0}
Waiting s xs ((p, m) ∷ ws) =
    ((next : Ptr) × Holds s p (cell_of next m))
    × (has p xs ≡ false)
    × (has p ws ≡ false)
    × Waiting s xs ws

-- The messages that a call can write to.
abbrev touched : Messages → Call → Messages
touched xs (append p m) = (p, m) ∷ xs
touched xs pop = xs
touched xs (pickup func) = xs

abbrev Refined : Memory → Messages → Call → ReceiveMessageDataList × Ptr → Memory → Type 0
Refined s xs c (l, q) s' =
    (q ≡ answer xs c)
    × IsQueue s' l (after xs c)
    × ((a : Ptr) → has a (touched xs c) ≡ false → s'.cell a ≡ s.cell a)

picked-address :
    (o : Option (Ptr × ReceiveMessageData)) (q : Ptr) (s : Memory) → IsPicked o q s → q ≡ address o
picked-address none q s h = h
picked-address (some (a, m)) q s h = h.0

append-Refined :
    (fuel : ℕ) (s : Memory) (l : ReceiveMessageDataList) (xs : Messages) (p : Ptr)
    (m : ReceiveMessageData) (next : Ptr)
    → IsQueue s l xs
    → Holds s p (cell_of next m)
    → has p xs ≡ false
    → Ensures (Refined s xs (append p m)) (call fuel l (append p m) s)
unfolding call
append-Refined fuel s l xs p m next is holds out =
    Ensures-mono (recv_msg_list_append l p s)
      (append-IsQueue s l xs p (cell_of next m) is holds out) (λ (l', q) s' r. (r.0, r.1, r.2.0))

pop-Refined :
    (fuel : ℕ) (s : Memory) (l : ReceiveMessageDataList) (xs : Messages)
    → IsQueue s l xs
    → Ensures (Refined s xs pop) (call fuel l pop s)
unfolding call
pop-Refined fuel s l [] is = rw (pop_empty s l is) (refl, is, (λ a o. refl))
pop-Refined fuel s l ((p, m) ∷ xs) is =
    Ensures-mono (recv_msg_list_pop l s) (pop-IsQueue s l p m xs is)
      (λ (l', q) s' r. (r.0, r.1, (λ a o. r.3.0 a (ground (arith, o)))))

pickup-Refined :
    (fuel : ℕ) (func : ReceiveMessageData → Bool) (s : Memory) (l : ReceiveMessageDataList)
    (xs : Messages)
    → IsQueue s l xs
    → length xs < fuel
    → Ensures (Refined s xs (pickup func)) (call fuel l (pickup func) s)
unfolding call
pickup-Refined fuel func s l xs is lt =
    Ensures-mono (recv_msg_list_pickup fuel l func s) (pickup-IsQueue func fuel s l xs is lt)
      (λ (l', q) s' r. (picked-address (picked func xs) q s' r.0, r.1, r.2.0))

Waiting-cons :
    (s : Memory) (xs ws : Messages) (p : Ptr) (m : ReceiveMessageData)
    → has p ws ≡ false
    → Waiting s xs ws
    → Waiting s ((p, m) ∷ xs) ws
Waiting-cons s xs [] p m out w = tt
Waiting-cons s xs ((a, n) ∷ ws) p m out (holds, free, once, w) =
    (holds, ground (arith, out), once, Waiting-cons s xs ws p m (ground (arith, out)) w)

Waiting-moves :
    (s s' : Memory) (xs xs' ws : Messages)
    → ((a : Ptr) → has a xs ≡ false → (has a xs' ≡ false) × (s'.cell a ≡ s.cell a))
    → Waiting s xs ws
    → Waiting s' xs' ws
Waiting-moves s s' xs xs' [] still w = tt
Waiting-moves s s' xs xs' ((p, m) ∷ ws) still ((next, (live, at)), free, once, w) = (
  (next, (live, (still p free).1 ∙ at)),
  (still p free).0,
  once,
  Waiting-moves s s' xs xs' ws still w,
)

has-without :
    (func : ReceiveMessageData → Bool) (a : Ptr) (xs : Messages)
    → has a xs ≡ false
    → has a (without_picked func xs) ≡ false
has-without func a [] h = refl
has-without func a ((b, n) ∷ xs) h =
    let out : has a xs ≡ false = ground (arith, h) in ground (arith, h, has-without func a xs out)

-- A call brings nothing into the queue but what it appends.
has-after :
    (xs : Messages) (c : Call) (a : Ptr) → has a (touched xs c) ≡ false → has a (after xs c) ≡ false
has-after xs (append p m) a h = ground (arith, h, has-append a xs ((p, m) ∷ []))
has-after [] pop a h = refl
has-after ((b, n) ∷ xs) pop a h = ground (arith, h)
has-after xs (pickup func) a h = has-without func a xs h

length-without :
    (func : ReceiveMessageData → Bool) (xs : Messages) → length (without_picked func xs) ≤ length xs
length-without func [] = omega arith
length-without func ((a, m) ∷ xs) = ground (arith, length-without func xs)

length-after : (xs : Messages) (c : Call) → length (after xs c) ≤ length xs + 1
length-after xs (append p m) = omega (arith, length-append xs ((p, m) ∷ []))
length-after [] pop = omega arith
length-after (x ∷ xs) pop = omega arith
length-after xs (pickup func) = omega (arith, length-without func xs)

call-Refined :
    (fuel : ℕ) (s : Memory) (l : ReceiveMessageDataList) (xs : Messages) (c : Call) (cs : List Call)
    → IsQueue s l xs
    → Waiting s xs (appended (c ∷ cs))
    → length xs < fuel
    → Ensures (Refined s xs c) (call fuel l c s) × Waiting s (touched xs c) (appended cs)
call-Refined fuel s l xs (append p m) cs is ((next, holds), free, once, w) lt =
    (append-Refined fuel s l xs p m next is holds free, Waiting-cons s xs (appended cs) p m once w)
call-Refined fuel s l xs pop cs is w lt = (pop-Refined fuel s l xs is, w)
call-Refined fuel s l xs (pickup func) cs is w lt = (pickup-Refined fuel func s l xs is lt, w)

-- From a well-formed queue, every sequence of appends, pops and pickups of messages that stand in
-- memory at addresses of their own, with fuel for as many messages as there are at first and calls,
-- ends without a fault, gives the pointers that the same calls on a plain list give, and leaves a
-- well-formed queue that holds what the list holds.
pub run-refines :
    (fuel : ℕ) (s : Memory) (l : ReceiveMessageDataList) (xs : Messages) (cs : List Call)
    → IsQueue s l xs
    → Waiting s xs (appended cs)
    → length xs + length cs < fuel
    → Ensures (λ (l', qs) s'. (qs ≡ answers xs cs) × IsQueue s' l' (replay xs cs)) (run fuel l cs s)
unfolding run
run-refines fuel s l xs [] is w lt = (refl, is)
run-refines fuel s l xs (c ∷ cs) is w lt =
    let (one, w1) = call-Refined fuel s l xs c cs is w (omega arith) in
    Ensures-bind _ (call fuel l c s) _ one (λ (l1, q) s1 r.
      Ensures-bind _ (run fuel l1 cs s1) _
        (run-refines fuel s1 l1 (after xs c) cs r.1
          (Waiting-moves s s1 (touched xs c) (after xs c) (appended cs)
            (λ a out. (has-after xs c a out, r.2 a out)) w1)
          (omega (arith, length-after xs c)))
        (λ (l2, qs) s2 r2. (ap₂ (λ (x : Ptr) (y : List Ptr). x ∷ y) r.0 r2.0, r2.1)))
