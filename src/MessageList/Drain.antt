-- ===== src/MessageList/Drain.antt =====
-- The two loops that empty a queue when its owner is destroyed: the one of
-- `zenoh_pico_destroy_service_data`, and the one of `zenoh_pico_destroy_subscription_data`.
use mathlib.Core.List.{reverse_aux}
use rmw_zenoh_pico.Prelude.{
  ℕ, zero, suc, ◌<◌, ◌≡◌, ◌≢◌, refl, sym, ap, ◌∙◌, true, false, some, none, List, [], ◌∷◌, arith,
  ◌==◌, if◌then◌else◌, length, Bool-cases, inl, inr, ==_iff, pos, is_zero, is_positive,
}
use rmw_zenoh_pico.Message.{ReceiveMessageData}
use rmw_zenoh_pico.Memory.{Ptr, null, Memory, Cmd, pure, out_of_fuel, Released, ◌>>=◌, ◌>>◌, Holds}
use rmw_zenoh_pico.MessageList.{
  ReceiveMessageDataList, owned_by, receive_message_data_destroy, recv_msg_list_empty,
  recv_msg_list_pop, recv_msg_list_count, zenoh_pico_delete_recv_msg_data,
}
use rmw_zenoh_pico.MessageList.Chain.{
  Messages, IsQueue-same, ne_of_has, not_has_head, not_has_tail, has, cell_of, IsQueue,
}
use rmw_zenoh_pico.MessageList.Ends.{
  Ensures, Ensures-mono, Ensures-bind, SameOutside, pop-IsQueue, pop_empty,
}
use rmw_zenoh_pico.MessageList.Destroy.{delete-last_reference, destroy_referenced}

-- `while(true){ pop; if NULL break; delete }`
pub drain_loop : ℕ → ReceiveMessageDataList → Cmd ReceiveMessageDataList
drain_loop zero l = λ _. out_of_fuel
drain_loop (suc fuel) l = do
  (l', recv_data) ← recv_msg_list_pop l
  if recv_data == null
      then pure l'
      else do zenoh_pico_delete_recv_msg_data recv_data; drain_loop fuel l'

-- What `zenoh_pico_destroy_service_data` does with each of its two queues: the loop runs only if the count is
-- positive.
pub drain_queue : ℕ → ReceiveMessageDataList → Cmd ReceiveMessageDataList
unfolding drain_loop
drain_queue fuel l = if is_positive (recv_msg_list_count l) then drain_loop fuel l else pure l

-- `while(!empty){ pop; ZenohPicoDataDestroy }`: the reference that the queue held is not dropped.
pub discard_queue : ℕ → ReceiveMessageDataList → Cmd ReceiveMessageDataList
discard_queue zero l = λ _. out_of_fuel
discard_queue (suc fuel) l = if recv_msg_list_empty l then pure l else do
  (l', msg_data) ← recv_msg_list_pop l
  receive_message_data_destroy msg_data
  discard_queue fuel l'

-- No message has another holder.
abbrev pub Unshared : Messages → Type 0
Unshared [] = Unit
Unshared ((a, m) ∷ xs) = (m.ref ≡ pos 1) × Unshared xs

-- What the messages own, message by message.
abbrev pub owned_by_all : Messages → List Released → List Released
owned_by_all [] rs = rs
owned_by_all ((a, m) ∷ xs) rs = owned_by_all xs (reverse_aux (owned_by m) rs)

-- The queue is empty, its structs are freed, all that they owned is given back, and no other struct
-- changes.
abbrev pub Drained : Memory → Messages → ReceiveMessageDataList → Memory → Type 0
Drained s xs l' s' =
    IsQueue s' l' []
    × ((a : Ptr) → s'.cell a ≡ (if has a xs then none else s.cell a))
    × (s'.released ≡ owned_by_all xs s.released)

-- One round: the first message is popped and deleted.
Drained-cons :
    (s s1 s2 s3 : Memory) (l' : ReceiveMessageDataList) (p : Ptr) (m : ReceiveMessageData)
    (xs : Messages)
    → has p xs ≡ false
    → SameOutside ((p, m) ∷ []) s s1
    → s2.cell p ≡ none
    → ((a : Ptr) → a ≢ p → s2.cell a ≡ s1.cell a)
    → s2.released ≡ reverse_aux (owned_by m) s1.released
    → Drained s2 xs l' s3
    → Drained s ((p, m) ∷ xs) l' s3
Drained-cons s s1 s2 s3 l' p m xs out same gone keep back (queue, cells, released) = (
  queue,
  (λ a. elim (Bool-cases (a == p)) [
    | inl here ↦
        let e : a ≡ p = (==_iff a p).0 here in
        let absent : has a xs ≡ false = ap (λ q. has q xs) e ∙ out in
        let gone' : s2.cell a ≡ none = ap s2.cell e ∙ gone in rw here (cells a ∙ rw absent gone')
    | inr away ↦
        let ne : a ≢ p = λ e. ground (arith, e) in
        let kept : s2.cell a ≡ s.cell a = keep a ne ∙ same.0 a (rw away) in
        rw away (cells a ∙ ap (λ c. if has a xs then none else c) kept)
  ]),
  released ∙ ap (owned_by_all xs) (back ∙ ap (reverse_aux (owned_by m)) same.1),
)

one_drain_round :
    (fuel : ℕ) (s s1 : Memory) (l1 : ReceiveMessageDataList) (q p : Ptr) (m : ReceiveMessageData)
    (xs : Messages)
    → q ≡ p
    → has p xs ≡ false
    → IsQueue s1 l1 xs
    → Holds s1 p (cell_of null m)
    → Unshared ((p, m) ∷ xs)
    → SameOutside ((p, m) ∷ []) s s1
    → ((s2 : Memory) → IsQueue s2 l1 xs → Ensures (Drained s2 xs) (drain_loop fuel l1 s2))
    → Ensures (Drained s ((p, m) ∷ xs)) (
        (if q == null
            then pure l1
            else (zenoh_pico_delete_recv_msg_data q >>= λ _. drain_loop fuel l1))
          s1)
one_drain_round fuel s s1 l1 q p m xs got out queue at one same rest =
    let live : (q == null) ≡ false = ground (arith, at.0, got) in
    let at_q : Holds s1 q (cell_of null m) = (ground (arith, at.0, got), ap s1.cell got ∙ at.1) in
    rw live (
      Ensures-bind (Drained s ((p, m) ∷ xs)) (zenoh_pico_delete_recv_msg_data q s1) _
        (delete-last_reference s1 q (cell_of null m) at_q one.0)
        λ done s2 (_, gone, keep, back).
          let keep_p : (a : Ptr) → a ≢ p → s2.cell a ≡ s1.cell a =
            λ a ne. keep a (λ e. ne (e ∙ got)) in
          let queue2 : IsQueue s2 l1 xs =
            IsQueue-same s1 s2 l1 xs queue (λ a i. keep_p a (ne_of_has a p xs i out)) in
          Ensures-mono (drain_loop fuel l1 s2) (rest s2 queue2) (λ l' s3 end.
            Drained-cons s s1 s2 s3 l' p m xs out same (ap s2.cell (sym got) ∙ gone) keep_p back
              end))

-- Draining a queue whose messages have no other holder ends, one round for each message and one more,
-- with the queue empty, every message freed, and what it owned given back in queue order.
pub drain_loop-Drained :
    (fuel : ℕ) (s : Memory) (l : ReceiveMessageDataList) (xs : Messages)
    → IsQueue s l xs
    → Unshared xs
    → length xs < fuel
    → Ensures (Drained s xs) (drain_loop fuel l s)
unfolding drain_loop
drain_loop-Drained zero s l xs is one lt = absurd (omega arith)
drain_loop-Drained (suc fuel) s l [] is one lt = rw (pop_empty s l is) (is, (λ a. refl), refl)
drain_loop-Drained (suc fuel) s l ((p, m) ∷ xs) is one lt =
    Ensures-bind (Drained s ((p, m) ∷ xs)) (recv_msg_list_pop l s) _ (pop-IsQueue s l p m xs is)
      λ (l1, q) s1 (got, queue, at, same).
        one_drain_round fuel s s1 l1 q p m xs got is.distinct.0 queue at one same
          (λ s2 queue2. drain_loop-Drained fuel s2 l1 xs queue2 one.1 (omega arith))

-- Emptying one queue of a service or client whose messages have no other holder ends with every message freed and with what the messages owned given back in queue order; no other
-- struct changes. One round for each message and one more is enough.
pub drain_queue-Drained :
    (fuel : ℕ) (s : Memory) (l : ReceiveMessageDataList) (xs : Messages)
    → IsQueue s l xs
    → Unshared xs
    → length xs < fuel
    → Ensures (Drained s xs) (drain_queue fuel l s)
unfolding drain_queue recv_msg_list_count
drain_queue-Drained fuel s l [] is one lt =
    let idle : is_positive l.count ≡ false = rw is.counted in rw idle (is, (λ a. refl), refl)
drain_queue-Drained fuel s l ((p, m) ∷ xs) is one lt =
    let busy : is_positive l.count ≡ true = rw is.counted in
    rw busy (drain_loop-Drained fuel s l ((p, m) ∷ xs) is one lt)

-- Every message is still in memory, unlinked.
abbrev pub Leaked : Memory → Messages → Type 0
Leaked s [] = Unit
Leaked s ((a, m) ∷ xs) = (s.cell a ≡ some (cell_of null m)) × Leaked s xs

Leaked-same :
    (s s' : Memory) (xs : Messages)
    → Leaked s xs
    → ((a : Ptr) → has a xs ≡ true → s'.cell a ≡ s.cell a)
    → Leaked s' xs
Leaked-same s s' [] h same = tt
Leaked-same s s' ((a, m) ∷ xs) h same =
    (same a (ground arith) ∙ h.0, Leaked-same s s' xs h.1 (λ b i. same b (ground (arith, i))))

-- What destroying a subscription does to its queue: the queue is empty, every message is still in
-- memory and nothing that it owns is given back; no other struct changes.
abbrev pub Discarded : Memory → Messages → ReceiveMessageDataList → Memory → Type 0
Discarded s xs l' s' = IsQueue s' l' [] × Leaked s' xs × SameOutside xs s s'

one_discard_round :
    (fuel : ℕ) (s s1 : Memory) (l1 : ReceiveMessageDataList) (q p : Ptr) (m : ReceiveMessageData)
    (xs : Messages)
    → q ≡ p
    → has p xs ≡ false
    → Holds s1 p (cell_of null m)
    → m.ref ≡ pos 1
    → SameOutside ((p, m) ∷ []) s s1
    → Ensures (Discarded s1 xs) (discard_queue fuel l1 s1)
    → Ensures
        (Discarded s ((p, m) ∷ xs))
        ((receive_message_data_destroy q >>= λ _. discard_queue fuel l1) s1)
one_discard_round fuel s s1 l1 q p m xs got out at one same rest =
    let at_q : Holds s1 q (cell_of null m) = (ground (arith, at.0, got), ap s1.cell got ∙ at.1) in
    let held : is_zero m.ref ≡ false = rw one in
    rw (destroy_referenced s1 q (cell_of null m) at_q held) (
      Ensures-mono (discard_queue fuel l1 s1) rest λ l' s' (queue, leaked, same'). (
        queue,
        (same'.0 p out ∙ at.1, leaked),
        (
          (λ a o. same'.0 a (not_has_tail a p m xs o) ∙ same.0 a (not_has_head a p m xs o)),
          same'.1 ∙ same.1,
        ),
      ))

-- The loop by which a subscription is destroyed ends with an empty queue and leaks all its messages:
-- it frees only structs without a reference, and the queue's own reference is never dropped.
pub discard_queue-Discarded :
    (fuel : ℕ) (s : Memory) (l : ReceiveMessageDataList) (xs : Messages)
    → IsQueue s l xs
    → Unshared xs
    → length xs < fuel
    → Ensures (Discarded s xs) (discard_queue fuel l s)
unfolding discard_queue recv_msg_list_empty
discard_queue-Discarded zero s l xs is one lt = absurd (omega arith)
discard_queue-Discarded (suc fuel) s l [] is one lt =
    let none_left : is_zero l.count ≡ true = rw is.counted in
    rw none_left (is, tt, ((λ a o. refl), refl))
discard_queue-Discarded (suc fuel) s l ((p, m) ∷ xs) is one lt =
    let some_left : is_zero l.count ≡ false = rw is.counted in
    rw some_left (
      Ensures-bind (Discarded s ((p, m) ∷ xs)) (recv_msg_list_pop l s) _ (pop-IsQueue s l p m xs is)
        λ (l1, q) s1 (got, queue, at, same).
          one_discard_round fuel s s1 l1 q p m xs got is.distinct.0 at one.0 same
            (discard_queue-Discarded fuel s1 l1 xs queue one.1 (omega arith)))
