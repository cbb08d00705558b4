-- ===== src/Handler/Queued.antt =====
-- A sample that arrives is queued, and its arrival is told.
use rmw_zenoh_pico.Prelude.{
  ℕ, suc, ◌≡◌, ◌≢◌, refl, ap, subst, ◌∙◌, true, false, some, [], ◌∷◌, ◌++◌, ◌==◌, arith,
}
use rmw_zenoh_pico.Message.{ZenohPicoAttachemtData, ReceiveMessageData}
use rmw_zenoh_pico.Memory.{Ptr, null, Memory, Holds}
use rmw_zenoh_pico.MessageList.{
  ReceiveMessageDataList, recv_msg_list_append, receive_message_data_generate,
}
use rmw_zenoh_pico.MessageList.Chain.{Messages, cell_of, has, ne_of_has, IsQueue, IsQueue-same}
use rmw_zenoh_pico.MessageList.Ends.{Ensures, Ensures-bind, append-IsQueue}
use rmw_zenoh_pico.Attachment.{ZeSerializer, attachment_data_get}
use rmw_zenoh_pico.Event.{data_callback_trigger}
use rmw_zenoh_pico.Receive.{ReceivedSample, rmw_zenoh_pico_generate_recv_sample_msg_data}
use rmw_zenoh_pico.Receive.Sent.{received, generate_recv-ok}
use rmw_zenoh_pico.Handler.{Inbox, Handled, add_new_message, subscription_data_handler}

-- The message stands last in the queue, the data callback was triggered, and so was the condition.
abbrev pub Arrived : Inbox → Messages → Ptr → ReceiveMessageData → Handled → Memory → Type 0
Arrived inbox xs p m h s' =
    (l : ReceiveMessageDataList) × (h.inbox
      ≡ some (record {
        queue = l;
        data_event_mgr = (data_callback_trigger inbox.data_event_mgr).0;
        triggers = suc inbox.triggers;
      }))
    × (h.calls ≡ (data_callback_trigger inbox.data_event_mgr).1)
    × IsQueue s' l (xs ++ (p, m) ∷ [])

-- When a sample arrives whose attachment can be read, and memory is at hand, its message is put behind the
-- others of the subscription, with the sample's payload, attachment and time of arrival;
-- data_callback_trigger has run once on the subscription's manager, and the wait condition is
-- triggered once.
pub subscription_handler-Arrived :
    (ze : ZeSerializer) (s : Memory) (inbox : Inbox) (xs : Messages) (p : Ptr) (z : ReceivedSample)
    (recv_ts : ℕ) (attached : ZenohPicoAttachemtData)
    → IsQueue s inbox.queue xs
    → p ≢ null
    → has p xs ≡ false
    → attachment_data_get ze z.attachment receive_message_data_generate.attachment
      ≡ (attached, true)
    → Ensures
        (Arrived inbox xs p (received z recv_ts attached))
        (subscription_data_handler ze p true recv_ts z (some inbox) s)
unfolding subscription_data_handler add_new_message
subscription_handler-Arrived ze s inbox xs p z recv_ts attached is ne out readable =
    let m = received z recv_ts attached in
    let Q = Arrived inbox xs p m in
    Ensures-bind Q (rmw_zenoh_pico_generate_recv_sample_msg_data ze p true z recv_ts s) _
      (generate_recv-ok ze s p z recv_ts attached ne readable)
      λ q s1 (got, at, same, back).
        let live : (q == null) ≡ false = ground (arith, ne, got) in
        let at_q : Holds s1 q (cell_of null m) = (ground (arith, ne, got), ap s1.cell got ∙ at.1) in
        let queue1 : IsQueue s1 inbox.queue xs =
          IsQueue-same s s1 inbox.queue xs is (λ a i. same a (ne_of_has a p xs i out)) in
        rw live (
          Ensures-bind Q (recv_msg_list_append inbox.queue q s1) _
            (append-IsQueue s1 inbox.queue xs q (cell_of null m) queue1 at_q
              (ap (λ a. has a xs) got ∙ out))
            λ (l, b) s2 (_, queue2, same2).
              (l, refl, refl, subst (λ a. IsQueue s2 l (xs ++ (a, m) ∷ [])) got queue2))
