-- ===== src/MessageList/Ends.antt =====
-- `recv_msg_list_append` and `recv_msg_list_pop` work on the two ends of the queue: the list is a
-- first-in first-out queue of its messages.
use rmw_zenoh_pico.Prelude.{
  ◌≡◌, ◌≢◌, refl, true, false, some, Option, [], ◌∷◌, ◌++◌, arith, ◌==◌, pos, length-append, inc,
  ap, ◌∙◌, sym, if◌then◌else◌,
}
use mathlib.Core.Path.{subst}
use rmw_zenoh_pico.Message.{ReceiveMessageData}
use rmw_zenoh_pico.Memory.{
  Ptr, null, Cell, Memory, Run, Cmd, continue, ok, fault, out_of_fuel, upd, write, Holds, load-ok,
  set_next-ok, upd_self, upd_ne,
}
use rmw_zenoh_pico.MessageList.{
  ReceiveMessageDataList, recv_msg_list_append, recv_msg_list_pop, unlink_top,
}
use rmw_zenoh_pico.MessageList.Chain.{
  Messages, first, final, has, Distinct, cell_of, Chain, IsQueue, Chain-upd, final-ne,
  final-ne-null, has-append, ne_of_not_has, not_has_tail,
}

-- A run that ends, without a fault and within its fuel, in a state that satisfies `P`.
abbrev pub Ensures : {A : Type 0} → (A → Memory → Type 0) → Run A → Type 0
Ensures P (ok a s) = P a s
Ensures P fault = ⊥
Ensures P out_of_fuel = ⊥

pub Ensures-mono :
    {A : Type 0} {P Q : A → Memory → Type 0} (r : Run A)
    → Ensures P r
    → ((a : A) (s : Memory) → P a s → Q a s)
    → Ensures Q r
Ensures-mono (ok a s) h weaken = weaken a s h
Ensures-mono fault h weaken = absurd h
Ensures-mono out_of_fuel h weaken = absurd h

pub Ensures-bind :
    {A B : Type 0} {P : A → Memory → Type 0} (Q : B → Memory → Type 0) (r : Run A) (k : A → Cmd B)
    → Ensures P r
    → ((a : A) (s : Memory) → P a s → Ensures Q (k a s))
    → Ensures Q (continue r k)
Ensures-bind Q (ok a s) k h next = next a s h
Ensures-bind Q fault k h next = absurd h
Ensures-bind Q out_of_fuel k h next = absurd h

-- Nothing changes outside the structs of `xs`, and nothing is given back.
abbrev pub SameOutside : Messages → Memory → Memory → Type 0
SameOutside xs s s' =
    ((a : Ptr) → has a xs ≡ false → s'.cell a ≡ s.cell a) × (s'.released ≡ s.released)

abbrev final_msg : ReceiveMessageData → Messages → ReceiveMessageData
final_msg m [] = m
final_msg m ((a, n) ∷ xs) = final_msg n xs

-- The cell of the last message.
final-holds :
    (f : Ptr → Option Cell) (a : Ptr) (m : ReceiveMessageData) (xs : Messages) (stop : Ptr)
    → Chain f ((a, m) ∷ xs) stop
    → f (final a xs) ≡ some (cell_of stop (final_msg m xs))
final-holds f a m [] stop h = h.1
final-holds f a m ((b, n) ∷ xs) stop h = final-holds f b n xs stop h.2

-- The last `next` pointer is turned to a new last message.
Chain-link :
    (f : Ptr → Option Cell) (a : Ptr) (m : ReceiveMessageData) (xs : Messages) (p : Ptr)
    (n : ReceiveMessageData)
    → Chain f ((a, m) ∷ xs) null
    → Distinct ((a, m) ∷ xs)
    → p ≢ null
    → f p ≡ some (cell_of null n)
    → has p ((a, m) ∷ xs) ≡ false
    → Chain
        (upd f (final a xs) (some (cell_of p (final_msg m xs))))
        ((a, m) ∷ (xs ++ (p, n) ∷ []))
        null
Chain-link f a m [] p n h d ne hp out =
    (h.0, upd_self f a _, (ne, upd_ne f a p _ (ne_of_not_has p a m [] out) ∙ hp, tt))
Chain-link f a m ((b, k) ∷ xs) p n h d ne hp out =
    let apart : final b xs ≢ a =
      final-ne a b xs (ne_of_not_has a b k xs d.0) (not_has_tail a b k xs d.0) in
    (
      h.0,
      upd_ne f (final b xs) a _ (λ e. apart (sym e)) ∙ h.1,
      Chain-link f b k xs p n h.2 d.1 ne hp (not_has_tail p a m ((b, k) ∷ xs) out),
    )

Distinct-append :
    (xs : Messages) (p : Ptr) (n : ReceiveMessageData)
    → Distinct xs
    → has p xs ≡ false
    → Distinct (xs ++ (p, n) ∷ [])
Distinct-append [] p n d out = (refl, tt)
Distinct-append ((a, m) ∷ xs) p n d out =
    (ground (arith, has-append a xs ((p, n) ∷ []), d.0), Distinct-append xs p n d.1 (ground arith))

final-append :
    (before : Ptr) (xs : Messages) (p : Ptr) (n : ReceiveMessageData)
    → final before (xs ++ (p, n) ∷ []) ≡ p
final-append before [] p n = refl
final-append before ((a, m) ∷ xs) p n = final-append a xs p n

-- Appending a message that is in memory and not yet queued puts it behind the others, and writes
-- only to it and to the queue's structs.
pub append-IsQueue :
    (s : Memory) (l : ReceiveMessageDataList) (xs : Messages) (p : Ptr) (c : Cell)
    → IsQueue s l xs
    → Holds s p c
    → has p xs ≡ false
    → Ensures
        (λ (l', q) s'.
          (q ≡ p) × IsQueue s' l' (xs ++ (p, c.msg) ∷ []) × SameOutside ((p, c.msg) ∷ xs) s s')
        (recv_msg_list_append l p s)
unfolding recv_msg_list_append
append-IsQueue s l [] p c is hp out =
    let live : (p == null) ≡ false = ground (arith, hp.0) in
    let no_top : (l.que_top == null) ≡ true = ground (arith, is.top) in
    let no_bottom : (l.que_bottom == null) ≡ true = ground (arith, is.bottom) in
    rw (live, set_next-ok s p null hp, no_bottom, no_top)
      (
        refl,
        record {
          top = refl;
          bottom = refl;
          counted = ap inc is.counted;
          chain = (hp.0, ground arith, tt);
          distinct = (refl, tt);
        },
        ((λ a o. ground (arith, hp.1)), refl),
      )
append-IsQueue s l ((a, m) ∷ xs) p c is hp out =
    let live : (p == null) ≡ false = ground (arith, hp.0) in
    let some_top : (l.que_top == null) ≡ false = ground (arith, is.top, is.chain.0) in
    let b_ne : final a xs ≢ null = final-ne-null s.cell a xs null is.chain.0 is.chain.2 in
    let some_bottom : (l.que_bottom == null) ≡ false = ground (arith, is.bottom, b_ne) in
    let s1 = write s p (some (cell_of null c.msg)) in
    let chain1 : Chain s1.cell ((a, m) ∷ xs) null =
      Chain-upd s.cell ((a, m) ∷ xs) null p _ is.chain out in
    let b_holds : Holds s1 l.que_bottom (cell_of null (final_msg m xs)) =
      (ground (arith, is.bottom, b_ne), rw is.bottom (final-holds s1.cell a m xs null chain1)) in
    rw (live, set_next-ok s p null hp, some_bottom, set_next-ok s1 l.que_bottom p b_holds, some_top)
      (
        refl,
        record {
          top = is.top;
          bottom = sym (final-append a xs p c.msg);
          counted =
              ap inc is.counted
              ∙ ap (λ n. pos n) (omega (arith, length-append xs ((p, c.msg) ∷ [])));
          chain =
              subst
                (λ q.
                  Chain (upd s1.cell q (some (cell_of p (final_msg m xs))))
                    ((a, m) ∷ (xs ++ (p, c.msg) ∷ [])) null)
                (sym is.bottom)
                (Chain-link s1.cell a m xs p c.msg chain1 is.distinct hp.0 (upd_self s.cell p _)
                  out);
          distinct = Distinct-append ((a, m) ∷ xs) p c.msg is.distinct out;
        },
        (
          (λ b o.
              upd_ne s1.cell l.que_bottom b _ (λ e.
                final-ne b a xs (ne_of_not_has b a m xs (not_has_tail b p c.msg ((a, m) ∷ xs) o))
                  (not_has_tail b a m xs (not_has_tail b p c.msg ((a, m) ∷ xs) o))
                  (sym (e ∙ is.bottom)))
              ∙ upd_ne s.cell p b _ (ne_of_not_has b p c.msg ((a, m) ∷ xs) o)),
          refl,
        ),
      )

-- The bottom once the message at `p`, behind `before`, is gone.
pub bottom_after :
    (before p : Ptr) (m : ReceiveMessageData) (xs : Messages)
    → Distinct ((p, m) ∷ xs)
    → (if final p xs == p then before else final p xs) ≡ final before xs
bottom_after before p m [] d = ground arith
bottom_after before p m ((b, n) ∷ ys) d =
    let apart : final b ys ≢ p =
      final-ne p b ys (ne_of_not_has p b n ys d.0) (not_has_tail p b n ys d.0) in
    ground (arith, apart)

-- The top of the queue and its struct, read.
pub top-Holds :
    (s : Memory) (l : ReceiveMessageDataList) (p : Ptr) (m : ReceiveMessageData) (xs : Messages)
    → IsQueue s l ((p, m) ∷ xs)
    → ((l.que_top == null) ≡ false) × Holds s l.que_top (cell_of (first xs null) m)
top-Holds s l p m xs is =
    (ground (arith, is.top, is.chain.0), (ground (arith, is.top, is.chain.0), rw is.top is.chain.1))

pub unlink_top-IsQueue :
    (s : Memory) (l : ReceiveMessageDataList) (p : Ptr) (m : ReceiveMessageData) (xs : Messages)
    → IsQueue s l ((p, m) ∷ xs)
    → Ensures
        (λ (l', q) s'.
          (q ≡ p) × IsQueue s' l' xs × Holds s' p (cell_of null m) × SameOutside ((p, m) ∷ []) s s')
        (unlink_top l (first xs null) s)
unfolding unlink_top
unlink_top-IsQueue s l p m xs is =
    let (some_top, holds) = top-Holds s l p m xs is in
    rw (set_next-ok s l.que_top null holds) (
      is.top,
      record {
        top = refl;
        bottom = rw (is.bottom, is.top) (bottom_after null p m xs is.distinct);
        counted = rw is.counted;
        chain = Chain-upd s.cell xs null l.que_top _ is.chain.2 (rw is.top is.distinct.0);
        distinct = is.distinct.1;
      },
      (is.chain.0, rw is.top (upd_self s.cell p _)),
      ((λ b o. upd_ne s.cell l.que_top b _ (λ e. ne_of_not_has b p m [] o (e ∙ is.top))), refl),
    )

-- Popping a queue that is not empty hands out the first message, unlinked, and leaves the rest;
-- it writes only to that message.
pub pop-IsQueue :
    (s : Memory) (l : ReceiveMessageDataList) (p : Ptr) (m : ReceiveMessageData) (xs : Messages)
    → IsQueue s l ((p, m) ∷ xs)
    → Ensures
        (λ (l', q) s'.
          (q ≡ p) × IsQueue s' l' xs × Holds s' p (cell_of null m) × SameOutside ((p, m) ∷ []) s s')
        (recv_msg_list_pop l s)
unfolding recv_msg_list_pop
pop-IsQueue s l p m xs is =
    let (some_top, holds) = top-Holds s l p m xs is in
    rw (some_top, load-ok s l.que_top holds) (unlink_top-IsQueue s l p m xs is)

-- Popping an empty queue hands out NULL and changes nothing.
pub pop_empty :
    (s : Memory) (l : ReceiveMessageDataList)
    → IsQueue s l []
    → recv_msg_list_pop l s ≡ ok (l, null) s
unfolding recv_msg_list_pop
pop_empty s l is = ground (arith, is.top)
