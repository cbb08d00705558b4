-- ===== src/Handler/Call.antt =====
-- A service call on its whole way: sent, received, taken, answered, received by the client, and taken.
use rmw_zenoh_pico.Prelude.{
  ◌+◌, ℕ, suc, ◌<◌, ◌^◌, ◌≡◌, ◌≢◌, refl, Bool, true, false, Bytes, some, [], ◌==◌, arith, length,
}
use rmw_zenoh_pico.Message.{ZenohPicoAttachemtData}
use rmw_zenoh_pico.Memory.{Ptr, null, Memory}
use rmw_zenoh_pico.MessageList.{ReceiveMessageDataList, receive_message_data_generate}
use rmw_zenoh_pico.MessageList.Chain.{IsQueue, IsQueue-same}
use rmw_zenoh_pico.MessageList.Ends.{Ensures, Ensures-mono}
use rmw_zenoh_pico.Attachment.{ZeSerializer, ReadsBack, attachment_gen}
use rmw_zenoh_pico.Serialize.{MessageTypeSupport, rmw_zenoh_pico_serialize}
use rmw_zenoh_pico.Serialize.RoundTrip.{IsCdr}
use rmw_zenoh_pico.Service.{RmwServiceInfo, Reply, Outgoing, take_request, send_request}
use rmw_zenoh_pico.Service.Answer.{TakenAndAnswered, send_response-take_request}
use rmw_zenoh_pico.Service.Sequence.{send_request-get, send_request-deserialize}
use rmw_zenoh_pico.Receive.{ReceivedQuery}
use rmw_zenoh_pico.Handler.{Inbox, Handled, request_handler, reply_handler, take_response}
use rmw_zenoh_pico.Handler.Query.{received_query, request_handler-Arrived}
use rmw_zenoh_pico.Handler.Response.{IsReturned, take_response-reply}

-- What the attachment of a client's next request says.
abbrev pub asked : ZenohPicoAttachemtData → (now : ℕ) → ZenohPicoAttachemtData
asked client now = record {
  sequence_num = suc client.sequence_num;
  timestamp = now;
  gid = client.gid;
}

-- What the service's query and the client's sample carry.
abbrev pub queried : Outgoing → (keyexpr : Bytes) → (query_rc : ℕ) → ReceivedQuery
queried o keyexpr query_rc = record {
  payload = o.payload;
  attachment = o.attachment;
  keyexpr = keyexpr;
  query_rc = query_rc;
}

abbrev pub reply : (query_rc : ℕ) → (payload attachment : Bytes) → Reply
reply query_rc payload attachment = record {
  query_rc = query_rc;
  payload = payload;
  attachment = attachment;
}

module _ {Request Response : Type 0} (requests : MessageTypeSupport Request)
    (responses : MessageTypeSupport Response) (ze : ZeSerializer)
    (z_query_reply : Reply → Bool) where
  -- A service answers a query: received by its callback, taken, and answered with the header that was handed
  -- out with it.
  abbrev pub Answers :
      (fuel now recv_ts : ℕ)
      → ZenohPicoAttachemtData
      → ReceivedQuery
      → RmwServiceInfo
      → Request
      → Response
      → Ptr
      → Reply
      → ReceiveMessageDataList
      → Handled
      → Memory
      → Type 0
  Answers fuel now recv_ts d z header request response p r answered h s1 =
      (service' : Inbox) × (h.inbox ≡ some service')
      × Ensures
          (TakenAndAnswered requests responses ze z_query_reply fuel now p
            (received_query z recv_ts d) [] request response r)
          (take_request requests
            (record { request_queue = service'.queue; response_queue = answered }) (some header) s1)

module _ {Request Response : Type 0} (requests : MessageTypeSupport Request)
    (responses : MessageTypeSupport Response) (ze : ZeSerializer) (z_get : Outgoing → Bool)
    (z_query_reply : Reply → Bool) (request_cdr : IsCdr requests) (cdr : IsCdr responses)
    (laws : ReadsBack ze) where
  request_answered :
      (client : ZenohPicoAttachemtData) (request : Request) (o : Outgoing)
      (sent_at recv_ts now fuel : ℕ) (keyexpr : Bytes) (query_rc : ℕ) (s : Memory) (service : Inbox)
      (answered : ReceiveMessageDataList) (p : Ptr) (header : RmwServiceInfo) (response : Response)
      (b attachment : Bytes) (size : ℕ)
      → (send_request requests ze z_get sent_at true client request).outgoing ≡ some o
      → requests.get_serialized_size request + 4 < 2 ^ 64
      → IsQueue s service.queue []
      → IsQueue s answered []
      → p ≢ null
      → (length client.gid == 0) ≡ false
      → length client.gid ≡ length header.request_id.writer_guid
      → 1 < fuel
      → rmw_zenoh_pico_serialize responses true response ≡ some (b, size)
      → (attachment_gen ze now (asked client sent_at)).1 ≡ some attachment
      → Ensures
          (Answers requests responses ze z_query_reply fuel now recv_ts
            (asked client sent_at)
            (queried o keyexpr query_rc)
            header
            request
            response
            p
            (reply query_rc b attachment)
            answered)
          (request_handler ze p true recv_ts (queried o keyexpr query_rc) (some service) s)
  unfolding receive_message_data_generate
  request_answered client request o sent_at recv_ts now fuel keyexpr query_rc s service answered p
        header response b attachment size sent small is is_answered ne some_gid fits enough
        serialized generated =
      let z : ReceivedQuery = queried o keyexpr query_rc in
      let d : ZenohPicoAttachemtData = asked client sent_at in
      let (given, read) =
        send_request-get requests ze laws z_get sent_at client
          receive_message_data_generate.attachment request o sent in
      Ensures-mono (request_handler ze p true recv_ts z (some service) s)
        (request_handler-Arrived ze s p z recv_ts d ne read service [] is refl)
        λ h s1 (l, left, calls, queue). (
          _,
          left,
          send_response-take_request requests responses ze z_query_reply fuel now s1
              (record { request_queue = l; response_queue = answered }) p
              (received_query z recv_ts d) [] [] header request response b attachment size queue
              (IsQueue-same s s1 answered [] is_answered (λ a i. ground (arith, i))) refl
              (λ a i. refl)
              (send_request-deserialize requests ze laws z_get request_cdr sent_at client request o
                sent small)
              some_gid fits refl (omega (arith, enough)) refl serialized generated,
        )

  -- A service call. Where the client's request goes out, a service without other requests receives the query;
  -- `rmw_take_request` hands out the request itself and a header with the number, the gid and the time of its
  -- attachment; with that header `rmw_send_response` replies to that query, and the struct of the request is
  -- freed. Where a client without other replies receives that reply, it takes the response itself, and the
  -- header's number is one more than the sequence id that the client was given for its request. Requests and
  -- responses have valid CDR types and fewer than 2 ^ 64 bytes, the gid of the client is not empty and fills
  -- the service's header, the reply's attachment can be written, and there is memory on both sides.
  pub take_response-send_request :
      (client : ZenohPicoAttachemtData) (request : Request) (o : Outgoing)
      (sent_at recv_ts now returned fuel : ℕ) (keyexpr : Bytes) (query_rc : ℕ) (s s' : Memory)
      (service inbox : Inbox) (answered : ReceiveMessageDataList) (p p' : Ptr)
      (header header' : RmwServiceInfo) (response : Response) (b attachment : Bytes) (size : ℕ)
      → (send_request requests ze z_get sent_at true client request).outgoing ≡ some o
      → requests.get_serialized_size request + 4 < 2 ^ 64
      → IsQueue s service.queue []
      → IsQueue s answered []
      → p ≢ null
      → (length client.gid == 0) ≡ false
      → length client.gid ≡ length header.request_id.writer_guid
      → 1 < fuel
      → rmw_zenoh_pico_serialize responses true response ≡ some (b, size)
      → size < 2 ^ 64
      → (attachment_gen ze now (asked client sent_at)).1 ≡ some attachment
      → IsQueue s' inbox.queue []
      → p' ≢ null
      → ((send_request requests ze z_get sent_at true client request).sequence_id
          ≡ some client.sequence_num)
        × Ensures
            (Answers requests responses ze z_query_reply fuel now recv_ts
              (asked client sent_at)
              (queried o keyexpr query_rc)
              header
              request
              response
              p
              (reply query_rc b attachment)
              answered)
            (request_handler ze p true recv_ts (queried o keyexpr query_rc) (some service) s)
        × Ensures
            (λ h s1.
              (inbox' : Inbox) × (h.inbox ≡ some inbox')
              × (inbox'.triggers ≡ suc inbox.triggers)
              × Ensures
                  (IsReturned now returned (asked client sent_at) header' response p')
                  (take_response responses inbox'.queue (some header') s1))
            (reply_handler ze p' true returned
              (some (record { payload = b; attachment = attachment }))
              (some inbox)
              s')
  take_response-send_request client request o sent_at recv_ts now returned fuel keyexpr query_rc s
        s' service inbox answered p p' header header' response b attachment size sent small is
        is_answered ne some_gid fits enough serialized short generated is' ne' =
      (
        (send_request-get requests ze laws z_get sent_at client client request o sent).0,
        request_answered client request o sent_at recv_ts now fuel keyexpr query_rc s service
            answered p header response b attachment size sent small is is_answered ne some_gid fits
            enough serialized generated,
        take_response-reply responses ze cdr laws now returned (asked client sent_at) response b
            attachment size header' s' inbox p' is' ne' serialized short generated,
      )
