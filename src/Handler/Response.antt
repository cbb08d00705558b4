-- ===== src/Handler/Response.antt =====
-- A response on its way back: received by the client's callback, and taken.
use rmw_zenoh_pico.Prelude.{
  ℕ, suc, ◌<◌, ◌^◌, ◌≡◌, ◌≢◌, refl, sym, ap, subst, ◌∙◌, true, false, Bytes, Option, some, none, [],
  ◌∷◌, ◌==◌, arith, length, pos,
}
use rmw_zenoh_pico.Message.{ZenohPicoAttachemtData, ReceiveMessageData}
use rmw_zenoh_pico.Memory.{Ptr, null, Memory, Holds, load-ok}
use rmw_zenoh_pico.MessageList.{
  ReceiveMessageDataList, receive_message_data_generate, recv_msg_list_pop,
  zenoh_pico_delete_recv_msg_data,
}
use rmw_zenoh_pico.MessageList.Chain.{Messages, IsQueue, IsQueue-same, cell_of, ne_of_has}
use rmw_zenoh_pico.MessageList.Ends.{Ensures, Ensures-bind, Ensures-mono, pop-IsQueue}
use rmw_zenoh_pico.MessageList.Destroy.{delete-last_reference}
use rmw_zenoh_pico.Attachment.{ZeSerializer, ReadsBack, attachment_gen}
use rmw_zenoh_pico.Attachment.RoundTrip.{get-gen}
use rmw_zenoh_pico.Rmw.{ret_ok}
use rmw_zenoh_pico.Serialize.{
  MessageTypeSupport, rmw_zenoh_pico_serialize, rmw_zenoh_pico_deserialize,
}
use rmw_zenoh_pico.Serialize.RoundTrip.{IsCdr, deserialize-serialize}
use rmw_zenoh_pico.Take.{copy_gid}
use rmw_zenoh_pico.Service.{RmwServiceInfo, fill_request_header}
use rmw_zenoh_pico.Receive.{ReceivedSample}
use rmw_zenoh_pico.Receive.Sent.{received}
use rmw_zenoh_pico.Handler.{
  Inbox, subscription_data_handler, reply_handler, TakenResponse, take_response,
  rmw_zenoh_pico_deserialize_response_msg,
}
use rmw_zenoh_pico.Handler.Queued.{subscription_handler-Arrived}

module _ {Response : Type 0} (callbacks : MessageTypeSupport Response) where
  -- The first response was taken, and its struct is gone.
  abbrev pub FirstResponse :
      Ptr → Messages → Response × Option RmwServiceInfo → TakenResponse Response → Memory → Type 0
  FirstResponse p xs read t s =
      (t.ret ≡ ret_ok) × (t.response ≡ some read) × IsQueue s t.queue xs × (s.cell p ≡ none)

  -- Taking a response from a queue whose first message can be read and has no other holder gives that
  -- response with RMW_RET_OK, leaves the others queued in their order, and frees the struct.
  pub take_response-first :
      (s : Memory) (l : ReceiveMessageDataList) (p : Ptr) (m : ReceiveMessageData) (xs : Messages)
      (header : Option RmwServiceInfo) (read : Response × Option RmwServiceInfo)
      → IsQueue s l ((p, m) ∷ xs)
      → m.ref ≡ pos 1
      → rmw_zenoh_pico_deserialize_response_msg callbacks m header ≡ some read
      → Ensures (FirstResponse p xs read) (take_response callbacks l header s)
  unfolding take_response
  take_response-first s l p m xs header read is one readable =
      Ensures-bind (FirstResponse p xs read) (recv_msg_list_pop l s) _ (pop-IsQueue s l p m xs is)
        λ (l1, q) s1 (got, queue, at, same).
          let live : (q == null) ≡ false = ground (arith, at.0, got) in
          let at_q : Holds s1 q (cell_of null m) =
            (ground (arith, at.0, got), ap s1.cell got ∙ at.1) in
          rw (live, load-ok s1 q at_q, readable)
            (Ensures-bind (FirstResponse p xs read) (zenoh_pico_delete_recv_msg_data q s1) _
              (delete-last_reference s1 q (cell_of null m) at_q one)
              λ done s2 (_, gone, keep, back). (
                refl,
                refl,
                IsQueue-same s1 s2 l1 xs queue
                    (λ a i. keep a (λ e. ne_of_has a p xs i is.distinct.0 (e ∙ got))),
                ap s2.cell (sym got) ∙ gone,
              ))

-- The response was taken: its header has the number and the gid of the request's attachment, and the times
-- of sending and receiving; its struct is gone.
abbrev pub IsReturned :
    {Response : Type 0}
    → (now recv_ts : ℕ) → ZenohPicoAttachemtData
    → RmwServiceInfo
    → Response
    → Ptr
    → TakenResponse Response
    → Memory
    → Type 0
IsReturned now recv_ts d header response p t s =
    (t.ret ≡ ret_ok)
    × (t.response
        ≡ some (
          response,
          some (record {
            source_timestamp = now;
            received_timestamp = recv_ts;
            request_id = record {
              writer_guid = copy_gid header.request_id.writer_guid d.gid;
              sequence_number = d.sequence_num;
            };
          }),
        ))
    × IsQueue s t.queue []
    × (s.cell p ≡ none)

module _ {Response : Type 0} (callbacks : MessageTypeSupport Response) (ze : ZeSerializer)
    (cdr : IsCdr callbacks) (laws : ReadsBack ze) where
  readable_response :
      (now recv_ts : ℕ) (d : ZenohPicoAttachemtData) (response : Response) (b attachment : Bytes)
      (size : ℕ) (header : RmwServiceInfo)
      → rmw_zenoh_pico_serialize callbacks true response ≡ some (b, size)
      → size < 2 ^ 64
      → rmw_zenoh_pico_deserialize_response_msg callbacks
          (received
            (record { payload = b; attachment = attachment })
            recv_ts
            (record { sequence_num = d.sequence_num; timestamp = now; gid = d.gid }))
          (some header)
        ≡ some (
          response,
          some (record {
            source_timestamp = now;
            received_timestamp = recv_ts;
            request_id = record {
              writer_guid = copy_gid header.request_id.writer_guid d.gid;
              sequence_number = d.sequence_num;
            };
          }),
        )
  unfolding rmw_zenoh_pico_deserialize_response_msg fill_request_header
      receive_message_data_generate
  readable_response now recv_ts d response b attachment size header serialized short =
      let (front, whole, read) =
        deserialize-serialize callbacks cdr response b size serialized short in
      let all : rmw_zenoh_pico_deserialize callbacks (some b) (length b) ≡ some response =
        subst (λ k. rmw_zenoh_pico_deserialize callbacks (some b) k ≡ some response) (sym whole)
          read in
      rw (rmw_zenoh_pico_deserialize_response_msg, all) refl

  -- The reply that carries a serialized response and the attachment of its request, received by the
  -- callback of a client that waits for no other, triggers the client's wait condition once; taken then,
  -- it is the response itself, and the header tells the number and the gid of the request's attachment.
  -- There is memory for the struct, and the payload is shorter than 2 ^ 64 bytes.
  pub take_response-reply :
      (now recv_ts : ℕ) (d : ZenohPicoAttachemtData) (response : Response) (b attachment : Bytes)
      (size : ℕ) (header : RmwServiceInfo) (s : Memory) (inbox : Inbox) (p : Ptr)
      → IsQueue s inbox.queue []
      → p ≢ null
      → rmw_zenoh_pico_serialize callbacks true response ≡ some (b, size)
      → size < 2 ^ 64
      → (attachment_gen ze now d).1 ≡ some attachment
      → Ensures
          (λ h s1.
            (inbox' : Inbox) × (h.inbox ≡ some inbox')
            × (inbox'.triggers ≡ suc inbox.triggers)
            × Ensures
                (IsReturned now recv_ts d header response p)
                (take_response callbacks inbox'.queue (some header) s1))
          (reply_handler ze p true recv_ts
            (some (record { payload = b; attachment = attachment }))
            (some inbox)
            s)
  unfolding receive_message_data_generate reply_handler subscription_data_handler
  take_response-reply now recv_ts d response b attachment size header s inbox p is ne serialized
        short generated =
      let z : ReceivedSample = record { payload = b; attachment = attachment } in
      let attached : ZenohPicoAttachemtData = record {
        sequence_num = d.sequence_num;
        timestamp = now;
        gid = d.gid;
      } in
      Ensures-mono (subscription_data_handler ze p true recv_ts z (some inbox) s)
        (subscription_handler-Arrived ze s inbox [] p z recv_ts attached is ne refl
          (get-gen ze laws now d receive_message_data_generate.attachment attachment generated))
        λ h s1 (l, left, calls, queue). (
          _,
          left,
          refl,
          take_response-first callbacks s1 l p (received z recv_ts attached) [] (some header) _
              queue refl
              (readable_response now recv_ts d response b attachment size header serialized short),
        )
