-- ===== src/Handler/Tests.antt =====
-- The theorems on samples and replies that arrive, applied to messages of one byte.
use rmw_zenoh_pico.Prelude.{Bool, replicate, ◌≡◌, refl, some, [], ◌∷◌, true, arith}
use rmw_zenoh_pico.Message.{ZenohPicoAttachemtData}
use rmw_zenoh_pico.MessageList.{receive_message_data_generate}
use rmw_zenoh_pico.MessageList.Ends.{Ensures}
use rmw_zenoh_pico.Attachment.{attachment_data_get}
use rmw_zenoh_pico.Event.{data_callback_init}
use rmw_zenoh_pico.Receive.{ReceivedSample}
use rmw_zenoh_pico.Receive.Sent.{received}
use rmw_zenoh_pico.Handler.{Inbox, subscription_data_handler}
use rmw_zenoh_pico.Handler.Queued.{Arrived, subscription_handler-Arrived}
use rmw_zenoh_pico.Attachment.{attachment_gen, attachment_sequence_num_inc}
use rmw_zenoh_pico.Serialize.{rmw_zenoh_pico_serialize}
use rmw_zenoh_pico.Take.{RmwMessageInfo, rmw_zenoh_pico_take_one}
use rmw_zenoh_pico.Service.{Outgoing, RmwServiceInfo, rmw_zenoh_pico_publish}
use rmw_zenoh_pico.Handler.{reply_handler, take_response}
use rmw_zenoh_pico.Handler.Delivered.{carried, IsDelivered, take_one-publish}
use rmw_zenoh_pico.Handler.Response.{IsReturned}
use rmw_zenoh_pico.Handler.Call.{Answers, asked, queried, reply, take_response-send_request}
use rmw_zenoh_pico.Service.{Reply, send_request}
use rmw_zenoh_pico.Handler.{request_handler}
use rmw_zenoh_pico.Fixtures.{
  byte, byte-IsCdr, ze-ReadsBack, empty_queue, empty_queue-IsQueue, memory, two, queue_of_two,
  queue_of_two-IsQueue, ze,
}

abbrev arrived : ReceivedSample
arrived = record { payload = 0 ∷ 1 ∷ 0 ∷ 0 ∷ 9 ∷ []; attachment = 6 ∷ 70 ∷ 2 ∷ 3 ∷ 4 ∷ [] }

abbrev published : ZenohPicoAttachemtData
published = record { sequence_num = 6; timestamp = 70; gid = 3 ∷ 4 ∷ [] }

abbrev inbox : Inbox
inbox = record { queue = queue_of_two; data_event_mgr = data_callback_init; triggers = 0 }

readable :
    attachment_data_get ze (6 ∷ 70 ∷ 2 ∷ 3 ∷ 4 ∷ []) receive_message_data_generate.attachment
    ≡ (published, true)
unfolding attachment_data_get
readable = refl

subscription_handler-Arrived_example :
    Ensures
      (Arrived inbox two 32 (received arrived 90 published))
      (subscription_data_handler ze 32 true 90 arrived (some inbox) memory)
subscription_handler-Arrived_example =
    subscription_handler-Arrived ze memory inbox two 32 arrived 90 published queue_of_two-IsQueue
      (λ e. ground (arith, e)) refl readable

abbrev publisher : ZenohPicoAttachemtData
publisher = record { sequence_num = 5; timestamp = 0; gid = 3 ∷ 4 ∷ [] }

abbrev out : Outgoing
out = record { payload = 0 ∷ 1 ∷ 0 ∷ 0 ∷ 9 ∷ []; attachment = 6 ∷ 70 ∷ 2 ∷ 3 ∷ 4 ∷ [] }

abbrev sends : Outgoing → Bool
sends o = true

abbrev info : RmwMessageInfo
info = record {
  source_timestamp = 0;
  received_timestamp = 0;
  publication_sequence_number = 0;
  reception_sequence_number = 0;
  publisher_gid = replicate 16 0;
  from_intra_process = true;
}

goes_out : (rmw_zenoh_pico_publish byte ze sends 70 true publisher 9).2 ≡ some out
unfolding rmw_zenoh_pico_publish rmw_zenoh_pico_serialize attachment_sequence_num_inc attachment_gen
goes_out = refl

abbrev waiting : Inbox
waiting = record { queue = empty_queue; data_event_mgr = data_callback_init; triggers = 0 }

take_one-publish_example :
    Ensures
      (λ h s1.
        (inbox' : Inbox) × (h.inbox ≡ some inbox')
        × (inbox'.triggers ≡ 1)
        × Ensures
            (IsDelivered 70 90 publisher 9 32)
            (rmw_zenoh_pico_take_one byte inbox'.queue (some info) s1))
      (subscription_data_handler ze 32 true 90 (carried out) (some waiting) memory)
take_one-publish_example =
    take_one-publish byte ze sends byte-IsCdr ze-ReadsBack 70 90 publisher 9 out info memory waiting
      32 empty_queue-IsQueue (λ e. ground (arith, e)) goes_out (omega arith)

abbrev header : RmwServiceInfo
header = record {
  source_timestamp = 0;
  received_timestamp = 0;
  request_id = record { writer_guid = replicate 2 0; sequence_number = 0 };
}

serialized : rmw_zenoh_pico_serialize byte true 9 ≡ some (0 ∷ 1 ∷ 0 ∷ 0 ∷ 9 ∷ [], 5)
unfolding rmw_zenoh_pico_serialize
serialized = refl

generated : (attachment_gen ze 80 (asked publisher 70)).1 ≡ some (6 ∷ 80 ∷ 2 ∷ 3 ∷ 4 ∷ [])
unfolding attachment_gen
generated = refl

abbrev accepts : Reply → Bool
accepts r = true

asks : (send_request byte ze sends 70 true publisher 9).outgoing ≡ some out
unfolding send_request rmw_zenoh_pico_serialize attachment_sequence_num_inc attachment_gen
asks = refl

take_response-send_request_example :
    ((send_request byte ze sends 70 true publisher 9).sequence_id ≡ some 5)
    × Ensures
        (Answers byte byte ze accepts 2 80 75
          (asked publisher 70)
          (queried out (7 ∷ []) 3)
          header
          9
          9
          32
          (reply 3 (0 ∷ 1 ∷ 0 ∷ 0 ∷ 9 ∷ []) (6 ∷ 80 ∷ 2 ∷ 3 ∷ 4 ∷ []))
          empty_queue)
        (request_handler ze 32 true 75 (queried out (7 ∷ []) 3) (some waiting) memory)
    × Ensures
        (λ h s1.
          (inbox' : Inbox) × (h.inbox ≡ some inbox')
          × (inbox'.triggers ≡ 1)
          × Ensures
              (IsReturned 80 90 (asked publisher 70) header 9 40)
              (take_response byte inbox'.queue (some header) s1))
        (reply_handler ze 40 true 90
          (some (record { payload = 0 ∷ 1 ∷ 0 ∷ 0 ∷ 9 ∷ []; attachment = 6 ∷ 80 ∷ 2 ∷ 3 ∷ 4 ∷ [] }))
          (some waiting)
          memory)
take_response-send_request_example =
    take_response-send_request byte byte ze sends accepts byte-IsCdr byte-IsCdr ze-ReadsBack
      publisher 9 out 70 75 80 90 2 (7 ∷ []) 3 memory memory waiting waiting empty_queue 32 40
      header header 9 (0 ∷ 1 ∷ 0 ∷ 0 ∷ 9 ∷ []) (6 ∷ 80 ∷ 2 ∷ 3 ∷ 4 ∷ []) 5 asks (omega arith)
      empty_queue-IsQueue empty_queue-IsQueue (λ e. ground (arith, e)) refl refl (omega arith)
      serialized (omega arith) generated empty_queue-IsQueue (λ e. ground (arith, e))
