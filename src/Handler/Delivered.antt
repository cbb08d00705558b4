-- ===== src/Handler/Delivered.antt =====
-- A message on its whole way: published, received by the subscription's callback, and taken.
use rmw_zenoh_pico.Prelude.{ℕ, suc, ◌+◌, ◌<◌, ◌^◌, ◌≡◌, ◌≢◌, refl, Bool, true, some, none, []}
use rmw_zenoh_pico.Message.{ZenohPicoAttachemtData}
use rmw_zenoh_pico.Memory.{Ptr, null, Memory}
use rmw_zenoh_pico.MessageList.{receive_message_data_generate}
use rmw_zenoh_pico.MessageList.Chain.{IsQueue}
use rmw_zenoh_pico.MessageList.Ends.{Ensures, Ensures-mono}
use rmw_zenoh_pico.Attachment.{ZeSerializer, ReadsBack}
use rmw_zenoh_pico.Rmw.{ret_ok}
use rmw_zenoh_pico.Serialize.{MessageTypeSupport}
use rmw_zenoh_pico.Serialize.RoundTrip.{IsCdr}
use rmw_zenoh_pico.Take.{RmwMessageInfo, Taken, rmw_zenoh_pico_take_one}
use rmw_zenoh_pico.Take.One.{take_one-first}
use rmw_zenoh_pico.Service.{Outgoing, rmw_zenoh_pico_publish}
use rmw_zenoh_pico.Receive.{ReceivedSample}
use rmw_zenoh_pico.Receive.Sent.{received, deserialize-publish}
use rmw_zenoh_pico.Handler.{Inbox, subscription_data_handler}
use rmw_zenoh_pico.Handler.Queued.{subscription_handler-Arrived}

-- The sample that zenoh brings of what was sent.
abbrev pub carried : Outgoing → ReceivedSample
carried o = record { payload = o.payload; attachment = o.attachment }

-- The message was taken, with the number and the times of its publishing, and its struct is gone.
abbrev pub IsDelivered :
    {RosMessage : Type 0}
    → (now recv_ts : ℕ) → ZenohPicoAttachemtData
    → RosMessage
    → Ptr
    → Taken RosMessage
    → Memory
    → Type 0
IsDelivered now recv_ts d message p t s =
    (filled : RmwMessageInfo) × (t.ret ≡ ret_ok)
    × (t.message ≡ some (message, some filled))
    × (filled.publication_sequence_number ≡ suc d.sequence_num)
    × (filled.source_timestamp ≡ now)
    × (filled.received_timestamp ≡ recv_ts)
    × IsQueue s t.queue []
    × (s.cell p ≡ none)

module _ {RosMessage : Type 0} (callbacks : MessageTypeSupport RosMessage) (ze : ZeSerializer)
    (z_send : Outgoing → Bool) (cdr : IsCdr callbacks) (laws : ReadsBack ze) where
  -- A message of a valid CDR type that is published, and whose sample the callback of a subscription with
  -- an empty queue receives, triggers the subscription's wait condition once; taken then, it is the
  -- message itself, with the time of publishing, the time of receiving and the number after the
  -- publisher's last one in its info, its struct is freed and the queue is empty again. There is memory for
  -- the struct, and the payload with its header is shorter than 2 ^ 64 bytes.
  pub take_one-publish :
      (now recv_ts : ℕ) (d : ZenohPicoAttachemtData) (message : RosMessage) (o : Outgoing)
      (info : RmwMessageInfo) (s : Memory) (inbox : Inbox) (p : Ptr)
      → IsQueue s inbox.queue []
      → p ≢ null
      → (rmw_zenoh_pico_publish callbacks ze z_send now true d message).2 ≡ some o
      → callbacks.get_serialized_size message + 4 < 2 ^ 64
      → Ensures
          (λ h s1.
            (inbox' : Inbox) × (h.inbox ≡ some inbox')
            × (inbox'.triggers ≡ suc inbox.triggers)
            × Ensures
                (IsDelivered now recv_ts d message p)
                (rmw_zenoh_pico_take_one callbacks inbox'.queue (some info) s1))
          (subscription_data_handler ze p true recv_ts (carried o) (some inbox) s)
  unfolding receive_message_data_generate
  take_one-publish now recv_ts d message o info s inbox p is ne sent short =
      let (attached, filled, readable, read, number, published, arrived) =
        deserialize-publish callbacks ze z_send cdr laws now recv_ts d
          receive_message_data_generate.attachment message o info sent short in
      Ensures-mono (subscription_data_handler ze p true recv_ts (carried o) (some inbox) s)
        (subscription_handler-Arrived ze s inbox [] p (carried o) recv_ts attached is ne refl
          readable)
        λ h s1 (l, left, calls, queue). (
          _,
          left,
          refl,
          Ensures-mono (rmw_zenoh_pico_take_one callbacks l (some info) s1)
              (take_one-first callbacks s1 l p (received (carried o) recv_ts attached) []
                (some info) (message, some filled) queue refl read)
              λ t s2 (code, got, rest, gone, same, back).
                (filled, code, got, number, published, arrived, rest, gone),
        )
