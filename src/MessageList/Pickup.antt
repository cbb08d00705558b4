-- ===== src/MessageList/Pickup.antt =====
-- `recv_msg_list_pickup` takes the first message that satisfies a test out of the queue.
use mathlib.Core.Path.{subst}
use rmw_zenoh_pico.Prelude.{
  ℕ, zero, suc, ◌+◌, ◌<◌, ◌≡◌, ◌≢◌, refl, sym, ap, ◌∙◌, Bool, true, false, Option, none, some, [],
  ◌∷◌, arith, ◌==◌, if◌then◌else◌, pos, dec, length, Bool-cases, inl, inr,
}
use rmw_zenoh_pico.Message.{ReceiveMessageData}
use rmw_zenoh_pico.Memory.{Ptr, null, Memory, write, Holds, load-ok, set_next-ok, upd_self, upd_ne}
use rmw_zenoh_pico.MessageList.{
  ReceiveMessageDataList, recv_msg_list_pickup, pickup_loop, unlink_top, unlink_after,
}
use rmw_zenoh_pico.MessageList.Chain.{
  Messages, first, final, has, Distinct, cell_of, Chain, IsQueue, Chain-upd, ne_of_not_has,
  not_has_tail, not_has_head,
}
use rmw_zenoh_pico.MessageList.Ends.{
  Ensures, top-Holds, unlink_top-IsQueue, Ensures-mono, SameOutside, bottom_after,
}

-- The first message that satisfies the test, with its address.
abbrev pub picked : (ReceiveMessageData → Bool) → Messages → Option (Ptr × ReceiveMessageData)
picked func [] = none
picked func ((a, m) ∷ xs) = if func m then some (a, m) else picked func xs

-- The messages that stay, in their order.
abbrev pub without_picked : (ReceiveMessageData → Bool) → Messages → Messages
without_picked func [] = []
without_picked func ((a, m) ∷ xs) = if func m then xs else (a, m) ∷ without_picked func xs

-- `q` is the address of the message that was taken, unlinked, or NULL if there was none.
abbrev pub IsPicked : Option (Ptr × ReceiveMessageData) → Ptr → Memory → Type 0
IsPicked none q s = q ≡ null
IsPicked (some (p, m)) q s = (q ≡ p) × Holds s p (cell_of null m)

not_has_without :
    (func : ReceiveMessageData → Bool) (a : Ptr) (xs : Messages)
    → has a xs ≡ false
    → has a (without_picked func xs) ≡ false
not_has_without func a [] h = refl
not_has_without func a ((b, n) ∷ xs) h =
    ground (arith, not_has_without func a xs (not_has_tail a b n xs h), not_has_tail a b n xs h)

pub Distinct-without :
    (func : ReceiveMessageData → Bool) (xs : Messages)
    → Distinct xs
    → Distinct (without_picked func xs)
Distinct-without func [] d = tt
Distinct-without func ((a, m) ∷ xs) d = elim (Bool-cases (func m)) [
  | inl hit ↦ rw hit d.1
  | inr miss ↦ rw miss (not_has_without func a xs d.0, Distinct-without func xs d.1)
]

-- What the loop leaves behind, when it starts at the message `(a, m)` with `xs` behind it.
record Scanned (func : ReceiveMessageData → Bool) (s : Memory) (l : ReceiveMessageDataList)
    (a : Ptr) (m : ReceiveMessageData) (xs : Messages) (l' : ReceiveMessageDataList) (q : Ptr)
    (s' : Memory) : Type 0 where
  top : l'.que_top ≡ l.que_top
  bottom : l'.que_bottom ≡ final a (without_picked func xs)
  counted :
      (k : ℕ) → l.count ≡ pos (k + length xs) → l'.count ≡ pos (k + length (without_picked func xs))
  chain : Chain s'.cell ((a, m) ∷ without_picked func xs) null
  got : IsPicked (picked func xs) q s'
  same : SameOutside ((a, m) ∷ xs) s s'

count_next : (k n : ℕ) → k + suc n ≡ suc (k + n)
count_next k n = omega arith

module _ (func : ReceiveMessageData → Bool) where
  Scanned-next :
      (s : Memory) (l : ReceiveMessageDataList) (a b : Ptr) (m n : ReceiveMessageData)
      (ys : Messages) (l' : ReceiveMessageDataList) (q : Ptr) (s' : Memory)
      → Chain s.cell ((a, m) ∷ (b, n) ∷ ys) null
      → Distinct ((a, m) ∷ (b, n) ∷ ys)
      → func n ≡ false
      → Scanned func s l b n ys l' q s'
      → Scanned func s l a m ((b, n) ∷ ys) l' q s'
  Scanned-next s l a b m n ys l' q s' h d miss sc = record {
    top = sc.top;
    bottom = rw miss sc.bottom;
    counted = λ k e. rw miss (
        sc.counted (suc k) (e ∙ ap (λ t. pos t) (shift k (length ys)))
        ∙ ap (λ t. pos t) (sym (shift k (length (without_picked func ys)))));
    chain = rw miss (h.0, sc.same.0 a d.0 ∙ h.1, sc.chain);
    got = rw miss sc.got;
    same = ((λ c o. sc.same.0 c (not_has_tail c a m ((b, n) ∷ ys) o)), sc.same.1);
  }
    where
      shift : (k t : ℕ) → k + suc t ≡ suc k + t
      shift k t = omega arith

  unlink_after-Scanned :
      (s : Memory) (l : ReceiveMessageDataList) (a b : Ptr) (m n : ReceiveMessageData)
      (ys : Messages)
      → l.que_bottom ≡ final b ys
      → Chain s.cell ((a, m) ∷ (b, n) ∷ ys) null
      → Distinct ((a, m) ∷ (b, n) ∷ ys)
      → func n ≡ true
      → Ensures
          (λ (l', q) s'. Scanned func s l a m ((b, n) ∷ ys) l' q s')
          (unlink_after l a b (first ys null) s)
  unfolding unlink_after
  unlink_after-Scanned s l a b m n ys bot h d hit =
      let a_holds : Holds s a (cell_of b m) = (h.0, h.1) in
      let a_out : has a ((b, n) ∷ ys) ≡ false = d.0 in
      let b_ne : b ≢ a = λ e. ne_of_not_has a b n ys a_out (sym e) in
      let s1 = write s a (some (cell_of (first ys null) m)) in
      let b_holds : Holds s1 b (cell_of (first ys null) n) =
        (h.2.0, upd_ne s.cell a b _ b_ne ∙ h.2.1) in
      let ys1 : Chain s1.cell ys null =
        Chain-upd s.cell ys null a _ h.2.2 (not_has_tail a b n ys a_out) in
      rw (set_next-ok s a (first ys null) a_holds, set_next-ok s1 b null b_holds)
        (record {
          top = refl;
          bottom = rw (hit, bot) (bottom_after a b n ys d.1);
          counted = λ k e. rw hit (ap dec (e ∙ ap (λ t. pos t) (count_next k (length ys))));
          chain = rw hit (
            h.0,
            upd_ne s1.cell b a _ (λ e. b_ne (sym e)) ∙ upd_self s.cell a _,
            Chain-upd s1.cell ys null b _ ys1 d.1.0,
          );
          got = rw hit (refl, (h.2.0, upd_self s1.cell b _));
          same = (
            (λ c o.
                let o' : has c ((b, n) ∷ ys) ≡ false = not_has_tail c a m ((b, n) ∷ ys) o in
                upd_ne s1.cell b c _ (ne_of_not_has c b n ys o')
                ∙ upd_ne s.cell a c _ (ne_of_not_has c a m ((b, n) ∷ ys) o)),
            refl,
          );
        })

  pickup_loop-Scanned :
      (fuel : ℕ) (s : Memory) (l : ReceiveMessageDataList) (a : Ptr) (m : ReceiveMessageData)
      (xs : Messages)
      → l.que_bottom ≡ final a xs
      → Chain s.cell ((a, m) ∷ xs) null
      → Distinct ((a, m) ∷ xs)
      → length xs < fuel
      → Ensures (λ (l', q) s'. Scanned func s l a m xs l' q s') (pickup_loop fuel func l a a s)
  unfolding pickup_loop
  pickup_loop-Scanned zero s l a m xs bot h d lt = absurd (omega arith)
  pickup_loop-Scanned (suc fuel) s l a m [] bot h d lt = rw (load-ok s a (h.0, h.1)) (record {
    top = refl;
    bottom = bot;
    counted = λ k e. e;
    chain = h;
    got = refl;
    same = ((λ c o. refl), refl);
  })
  pickup_loop-Scanned (suc fuel) s l a m ((b, n) ∷ ys) bot h d lt =
      let more : (b == null) ≡ false = ground (arith, h.2.0) in
      rw (load-ok s a (h.0, h.1), more, load-ok s b (h.2.0, h.2.1))
        (elim (Bool-cases (func n)) [
          | inl hit ↦ rw hit (unlink_after-Scanned s l a b m n ys bot h d hit)
          | inr miss ↦ rw miss (
              Ensures-mono (pickup_loop fuel func l b b s)
                (pickup_loop-Scanned fuel s l b n ys bot h.2 d.1 (omega arith))
                (λ (l', q) s' sc. Scanned-next s l a b m n ys l' q s' h d miss sc))
        ])

  -- What a pickup leaves behind.
  abbrev pub Extracted : Memory → Messages → ReceiveMessageDataList × Ptr → Memory → Type 0
  Extracted s xs (l', q) s' =
      IsPicked (picked func xs) q s' × IsQueue s' l' (without_picked func xs) × SameOutside xs s s'

  pickup_behind :
      (fuel : ℕ) (s : Memory) (l : ReceiveMessageDataList) (a : Ptr) (m : ReceiveMessageData)
      (xs : Messages)
      → IsQueue s l ((a, m) ∷ xs)
      → func m ≡ false
      → length xs < fuel
      → Ensures (Extracted s ((a, m) ∷ xs)) (pickup_loop fuel func l a a s)
  pickup_behind fuel s l a m xs is miss lt =
      Ensures-mono (pickup_loop fuel func l a a s)
        (pickup_loop-Scanned fuel s l a m xs is.bottom is.chain is.distinct lt)
        λ (l', q) s' sc. (
          rw miss sc.got,
          rw miss (record {
            top = sc.top ∙ is.top;
            bottom = sc.bottom;
            counted =
                sc.counted 1 (is.counted ∙ ap (λ t. pos t) (one_more (length xs)))
                ∙ ap (λ t. pos t) (sym (one_more (length (without_picked func xs))));
            chain = sc.chain;
            distinct =
                (not_has_without func a xs is.distinct.0, Distinct-without func xs is.distinct.1);
          }),
          sc.same,
        )
    where
      one_more : (n : ℕ) → suc n ≡ 1 + n
      one_more n = omega arith

  -- Picking up hands out the first message that satisfies the test, unlinked, and NULL if there is
  -- none; the other messages stay queued in their order, and nothing outside the queue changes.
  -- One round of the loop for each message is enough.
  pub pickup-IsQueue :
      (fuel : ℕ) (s : Memory) (l : ReceiveMessageDataList) (xs : Messages)
      → IsQueue s l xs
      → length xs < fuel
      → Ensures (Extracted s xs) (recv_msg_list_pickup fuel l func s)
  unfolding recv_msg_list_pickup
  pickup-IsQueue fuel s l [] is lt =
      let no_top : (l.que_top == null) ≡ true = ground (arith, is.top) in
      rw no_top (refl, is, ((λ a o. refl), refl))
  pickup-IsQueue fuel s l ((a, m) ∷ xs) is lt =
      let (some_top, holds) = top-Holds s l a m xs is in
      rw (some_top, load-ok s l.que_top holds)
        (elim (Bool-cases (func m)) [
          | inl hit ↦ rw hit (
              Ensures-mono (unlink_top l (first xs null) s) (unlink_top-IsQueue s l a m xs is)
                λ (l', q) s' (got, queue, at, same). (
                  rw hit (got, at),
                  rw hit queue,
                  ((λ b o. same.0 b (not_has_head b a m xs o)), same.1),
                ))
          | inr miss ↦
              let behind : Ensures (Extracted s ((a, m) ∷ xs))
                  (pickup_loop fuel func l l.que_top l.que_top s) =
                subst (λ q. Ensures (Extracted s ((a, m) ∷ xs)) (pickup_loop fuel func l q q s))
                  (sym is.top) (pickup_behind fuel s l a m xs is miss (omega arith)) in
              rw miss behind
        ])
