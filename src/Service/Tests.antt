-- ===== src/Service/Tests.antt =====
-- The theorems on requests and responses, applied to the queue of two requests.
use rmw_zenoh_pico.Prelude.{ℕ, ◌≡◌, refl, true, none, some, [], ◌∷◌, Bool, true, arith}
use rmw_zenoh_pico.Message.{ZenohPicoAttachemtData}
use rmw_zenoh_pico.Memory.{fault}
use rmw_zenoh_pico.MessageList.Ends.{Ensures}
use rmw_zenoh_pico.MessageList.Pickup.{picked}
use rmw_zenoh_pico.Attachment.{attachment_data_get, attachment_gen, attachment_sequence_num_inc}
use rmw_zenoh_pico.Serialize.{rmw_zenoh_pico_serialize, rmw_zenoh_pico_deserialize}
use rmw_zenoh_pico.Service.{
  RmwRequestId, RmwServiceInfo, ServiceQueues, Reply, Outgoing, compare_responce_msg, take_request,
  send_response, send_request,
}
use rmw_zenoh_pico.Service.Response.{send_response-no_request}
use rmw_zenoh_pico.Service.Answer.{TakenAndAnswered, send_response-take_request}
use rmw_zenoh_pico.Service.Sequence.{send_request-get}
use rmw_zenoh_pico.Fixtures.{
  message, two, memory, queue_of_two, empty_queue, queue_of_two-IsQueue, empty_queue-IsQueue, byte,
  ze, ze-ReadsBack,
}

abbrev queues : ServiceQueues
queues = record { request_queue = queue_of_two; response_queue = empty_queue }

abbrev id_of : ℕ → RmwRequestId
id_of n = record { writer_guid = 3 ∷ 4 ∷ []; sequence_number = n }

abbrev header : RmwServiceInfo
header = record {
  source_timestamp = 0;
  received_timestamp = 0;
  request_id = record { writer_guid = 0 ∷ 0 ∷ []; sequence_number = 0 };
}

abbrev accepts : Reply → Bool
accepts r = true

abbrev sends : Outgoing → Bool
sends o = true

abbrev client : ZenohPicoAttachemtData
client = record { sequence_num = 5; timestamp = 0; gid = 3 ∷ 4 ∷ [] }

abbrev request : Outgoing
request = record { payload = 0 ∷ 1 ∷ 0 ∷ 0 ∷ 9 ∷ []; attachment = 6 ∷ 70 ∷ 2 ∷ 3 ∷ 4 ∷ [] }

second_fits : picked (compare_responce_msg (id_of 2)) two ≡ some (16, message 2)
unfolding compare_responce_msg
second_fits = refl

none_fits : picked (compare_responce_msg (id_of 9)) two ≡ none
unfolding compare_responce_msg
none_fits = refl

serialized : rmw_zenoh_pico_serialize byte true 7 ≡ some (0 ∷ 1 ∷ 0 ∷ 0 ∷ 7 ∷ [], 5)
unfolding rmw_zenoh_pico_serialize
serialized = refl

generated : (attachment_gen ze 70 (message 2).attachment).1 ≡ some (2 ∷ 70 ∷ 2 ∷ 3 ∷ 4 ∷ [])
unfolding attachment_gen
generated = refl

goes_out : (send_request byte ze sends 70 true client 9).outgoing ≡ some request
unfolding send_request rmw_zenoh_pico_serialize attachment_sequence_num_inc attachment_gen
goes_out = refl

send_response-no_request_example :
    send_response byte ze accepts 3 70 true queue_of_two (id_of 9) 7 memory ≡ fault
send_response-no_request_example =
    send_response-no_request byte ze accepts 3 70 memory queue_of_two two (id_of 9) 7
      queue_of_two-IsQueue (omega arith) none_fits

send_request-get_example :
    ((send_request byte ze sends 70 true client 9).sequence_id ≡ some 5)
    × (attachment_data_get ze request.attachment client
        ≡ (record { sequence_num = 6; timestamp = 70; gid = 3 ∷ 4 ∷ [] }, true))
send_request-get_example =
    send_request-get byte ze ze-ReadsBack sends 70 client client 9 request goes_out

serialized_first : (attachment_gen ze 70 (message 1).attachment).1 ≡ some (1 ∷ 70 ∷ 2 ∷ 3 ∷ 4 ∷ [])
unfolding attachment_gen
serialized_first = refl

first_read : rmw_zenoh_pico_deserialize byte (some (0 ∷ 1 ∷ 0 ∷ 0 ∷ 1 ∷ [])) 5 ≡ some 1
unfolding rmw_zenoh_pico_deserialize
first_read = refl

send_response-take_request_example :
    Ensures
      (TakenAndAnswered byte byte ze accepts 3 70 8 (message 1) [] 1 7 (record {
        query_rc = 1;
        payload = 0 ∷ 1 ∷ 0 ∷ 0 ∷ 7 ∷ [];
        attachment = 1 ∷ 70 ∷ 2 ∷ 3 ∷ 4 ∷ [];
      }))
      (take_request byte queues (some header) memory)
send_response-take_request_example =
    send_response-take_request byte byte ze accepts 3 70 memory queues 8 (message 1)
      ((16, message 2) ∷ []) [] header 1 7 (0 ∷ 1 ∷ 0 ∷ 0 ∷ 7 ∷ []) (1 ∷ 70 ∷ 2 ∷ 3 ∷ 4 ∷ []) 5
      queue_of_two-IsQueue empty_queue-IsQueue refl (λ a i. refl) first_read refl refl refl
      (omega arith) refl serialized serialized_first
