-- ===== src/Take/One.antt =====
-- `rmw_zenoh_pico_take_one` on a queue that is empty, one whose first message can be read, and one whose
-- first message cannot.
use mathlib.Core.List.{reverse_aux}
use rmw_zenoh_pico.Prelude.{
  ◌≡◌, ◌≢◌, refl, sym, ap, ◌∙◌, false, some, none, Option, [], ◌∷◌, arith, ◌==◌, if◌then◌else◌, pos,
}
use rmw_zenoh_pico.Message.{ReceiveMessageData}
use rmw_zenoh_pico.Memory.{Ptr, null, Memory, pure, ok, ◌>>=◌, Holds, load, load-ok}
use rmw_zenoh_pico.MessageList.{
  ReceiveMessageDataList, owned_by, recv_msg_list_pop, zenoh_pico_delete_recv_msg_data,
}
use rmw_zenoh_pico.MessageList.Chain.{Messages, ne_of_has, cell_of, IsQueue, IsQueue-same}
use rmw_zenoh_pico.MessageList.Ends.{Ensures, Ensures-bind, SameOutside, pop-IsQueue, pop_empty}
use rmw_zenoh_pico.MessageList.Destroy.{delete-last_reference}
use rmw_zenoh_pico.Rmw.{ret_ok, ret_error}
use rmw_zenoh_pico.Serialize.{MessageTypeSupport}
use rmw_zenoh_pico.Take.{
  RmwMessageInfo, Taken, rmw_zenoh_pico_deserialize_topic_msg, hand_out, rmw_zenoh_pico_take_one,
}

module _ {RosMessage : Type 0} (callbacks : MessageTypeSupport RosMessage) where
  -- On an empty queue, taking reports RMW_RET_ERROR and no message, and changes nothing.
  pub take_one_empty :
      (s : Memory) (l : ReceiveMessageDataList) (info : Option RmwMessageInfo)
      → IsQueue s l []
      → rmw_zenoh_pico_take_one callbacks l info s
        ≡ ok (record { queue = l; ret = ret_error; message = none }) s
  unfolding rmw_zenoh_pico_take_one
  take_one_empty s l info is = rw (pop_empty s l is) refl

  -- The first message was taken: it is read, its struct is freed, and what it owned is given back.
  abbrev pub FirstTaken :
      Memory
      → Ptr
      → ReceiveMessageData
      → Messages
      → RosMessage × Option RmwMessageInfo
      → Taken RosMessage
      → Memory
      → Type 0
  FirstTaken s p m xs read t s' =
      (t.ret ≡ ret_ok)
      × (t.message ≡ some read)
      × IsQueue s' t.queue xs
      × (s'.cell p ≡ none)
      × ((a : Ptr) → a ≢ p → s'.cell a ≡ s.cell a)
      × (s'.released ≡ reverse_aux (owned_by m) s.released)

  read_popped :
      (s1 : Memory) (l1 : ReceiveMessageDataList) (q p : Ptr) (m : ReceiveMessageData)
      (info : Option RmwMessageInfo) (read : Option (RosMessage × Option RmwMessageInfo))
      → q ≡ p
      → Holds s1 p (cell_of null m)
      → rmw_zenoh_pico_deserialize_topic_msg callbacks m info ≡ read
      → (if q == null
            then pure (record { queue = l1; ret = ret_error; message = none })
            else (load q >>= λ c.
                hand_out callbacks l1 q
                  (rmw_zenoh_pico_deserialize_topic_msg callbacks c.msg info)))
          s1
        ≡ hand_out callbacks l1 q read s1
  read_popped s1 l1 q p m info read got at readable =
      let live : (q == null) ≡ false = ground (arith, at.0, got) in
      let at_q : Holds s1 q (cell_of null m) = (ground (arith, at.0, got), ap s1.cell got ∙ at.1) in
      rw (live, load-ok s1 q at_q, readable) refl

  -- Taking from a queue whose first message can be read and has no other holder gives that message with
  -- RMW_RET_OK, leaves the other messages queued in their order, frees the struct and gives
  -- back what it owned; no other struct changes.
  pub take_one-first :
      (s : Memory) (l : ReceiveMessageDataList) (p : Ptr) (m : ReceiveMessageData) (xs : Messages)
      (info : Option RmwMessageInfo) (read : RosMessage × Option RmwMessageInfo)
      → IsQueue s l ((p, m) ∷ xs)
      → m.ref ≡ pos 1
      → rmw_zenoh_pico_deserialize_topic_msg callbacks m info ≡ some read
      → Ensures (FirstTaken s p m xs read) (rmw_zenoh_pico_take_one callbacks l info s)
  unfolding rmw_zenoh_pico_take_one
  take_one-first s l p m xs info read is one readable =
      Ensures-bind (FirstTaken s p m xs read) (recv_msg_list_pop l s) _ (pop-IsQueue s l p m xs is)
        λ (l1, q) s1 (got, queue, at, same).
          rw (read_popped s1 l1 q p m info (some read) got at readable) (
            Ensures-bind (FirstTaken s p m xs read) (zenoh_pico_delete_recv_msg_data q s1) _
              (delete-last_reference s1 q (cell_of null m)
                (ground (arith, at.0, got), ap s1.cell got ∙ at.1) one)
              λ done s2 (_, gone, keep, back).
                let keep_p : (a : Ptr) → a ≢ p → s2.cell a ≡ s1.cell a =
                  λ a ne. keep a (λ e. ne (e ∙ got)) in
                (
                  refl,
                  refl,
                  IsQueue-same s1 s2 l1 xs queue
                      (λ a i. keep_p a (ne_of_has a p xs i is.distinct.0)),
                  ap s2.cell (sym got) ∙ gone,
                  (λ a ne. keep_p a ne ∙ same.0 a (ground (arith, ne))),
                  back ∙ ap (reverse_aux (owned_by m)) same.1,
                ))

  -- If the first message cannot be read, taking reports RMW_RET_ERROR and no message; the message has
  -- left the queue, but its struct is still in memory and nothing of it is given back.
  pub take_one_unreadable :
      (s : Memory) (l : ReceiveMessageDataList) (p : Ptr) (m : ReceiveMessageData) (xs : Messages)
      (info : Option RmwMessageInfo)
      → IsQueue s l ((p, m) ∷ xs)
      → rmw_zenoh_pico_deserialize_topic_msg callbacks m info ≡ none
      → Ensures
          (λ t s'.
            (t.ret ≡ ret_error)
            × (t.message ≡ none)
            × IsQueue s' t.queue xs
            × Holds s' p (cell_of null m)
            × SameOutside ((p, m) ∷ []) s s')
          (rmw_zenoh_pico_take_one callbacks l info s)
  unfolding rmw_zenoh_pico_take_one
  take_one_unreadable s l p m xs info is unreadable =
      Ensures-bind
        (λ t s'.
          (t.ret ≡ ret_error)
          × (t.message ≡ none)
          × IsQueue s' t.queue xs
          × Holds s' p (cell_of null m)
          × SameOutside ((p, m) ∷ []) s s')
        (recv_msg_list_pop l s) _ (pop-IsQueue s l p m xs is)
        λ (l1, q) s1 (got, queue, at, same).
          rw (read_popped s1 l1 q p m info none got at unreadable) (refl, refl, queue, at, same)
