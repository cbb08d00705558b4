-- ===== src/Service/Answer.antt =====
-- A request from its taking to its response.
use rmw_zenoh_pico.Prelude.{
  ℕ, ◌+◌, ◌<◌, ◌≡◌, refl, ap, subst, ◌∙◌, Bool, true, false, Bytes, some, none, [], ◌∷◌, ◌++◌,
  arith, ◌==◌, length, length-append, pos, Bool-cases, inl, inr,
}
use rmw_zenoh_pico.Message.{ReceiveMessageData}
use rmw_zenoh_pico.Memory.{Ptr, Memory}
use rmw_zenoh_pico.MessageList.Chain.{Messages, has, IsQueue}
use rmw_zenoh_pico.MessageList.Ends.{Ensures, Ensures-mono}
use rmw_zenoh_pico.MessageList.Pickup.{picked, without_picked}
use rmw_zenoh_pico.Attachment.{ZeSerializer, attachment_gen}
use rmw_zenoh_pico.Serialize.{
  MessageTypeSupport, rmw_zenoh_pico_serialize, rmw_zenoh_pico_deserialize,
}
use rmw_zenoh_pico.Service.{
  TakenRequest, rmw_zenoh_pico_deserialize_request_msg, RmwServiceInfo, ServiceQueues, Reply,
  fill_request_header, compare_responce_msg, take_request, send_response,
}
use rmw_zenoh_pico.Service.Request.{take_request-moves}
use rmw_zenoh_pico.Rmw.{ret_ok}
use rmw_zenoh_pico.Service.Response.{copy_gid-fits, Answered, compare-fill, send_response-Answered}

picked-last :
    (func : ReceiveMessageData → Bool) (ys : Messages) (p : Ptr) (m : ReceiveMessageData)
    → picked func ys ≡ none
    → func m ≡ true
    → (picked func (ys ++ (p, m) ∷ []) ≡ some (p, m))
      × (without_picked func (ys ++ (p, m) ∷ []) ≡ ys)
picked-last func [] p m miss hit = rw hit (refl, refl)
picked-last func ((a, n) ∷ ys) p m miss hit = elim (Bool-cases (func n)) [
  | inl here ↦ ground (arith, here, miss)
  | inr other ↦
      let (found, rest) = picked-last func ys p m (ground (arith, other, miss)) hit in
      rw other (found, ap (λ l. (a, n) ∷ l) rest)
]

-- What a request tells about its sender: the number, the gid and the time of its attachment.
abbrev pub header_of : ReceiveMessageData → RmwServiceInfo
header_of m = record {
  source_timestamp = m.attachment.timestamp;
  received_timestamp = m.recv_timestamp;
  request_id = record {
    writer_guid = m.attachment.gid;
    sequence_number = m.attachment.sequence_num;
  };
}

header_filled :
    (m : ReceiveMessageData) (h : RmwServiceInfo)
    → length m.attachment.gid ≡ length h.request_id.writer_guid
    → fill_request_header m h ≡ header_of m
unfolding fill_request_header
header_filled m h fits =
    rw (fill_request_header, copy_gid-fits h.request_id.writer_guid m.attachment.gid fits) refl

handed_out :
    {Request : Type 0} (requests : MessageTypeSupport Request) (m : ReceiveMessageData)
    (h : RmwServiceInfo) (request : Request)
    → length m.attachment.gid ≡ length h.request_id.writer_guid
    → rmw_zenoh_pico_deserialize requests m.payload_start m.payload_size ≡ some request
    → rmw_zenoh_pico_deserialize_request_msg requests m (some h)
      ≡ some (request, some (header_of m))
unfolding rmw_zenoh_pico_deserialize_request_msg
handed_out requests m h request fits readable =
    rw (rmw_zenoh_pico_deserialize_request_msg, readable)
      (ap (λ (x : RmwServiceInfo). some (request, some x)) (header_filled m h fits))

module _ {Request Response : Type 0} (requests : MessageTypeSupport Request)
    (responses : MessageTypeSupport Response) (ze : ZeSerializer)
    (z_query_reply : Reply → Bool) where
  -- A service takes a request: it hands out the request and a header with the number, the gid and the time
  -- of the request's attachment, and with the header that was handed out `rmw_send_response` answers.
  abbrev pub TakenAndAnswered :
      (fuel now : ℕ)
      → Ptr
      → ReceiveMessageData
      → (ys : Messages) → Request
      → Response
      → Reply
      → TakenRequest Request
      → Memory
      → Type 0
  TakenAndAnswered fuel now p m ys request response r taken s1 =
      (given : RmwServiceInfo) × (taken.ret ≡ ret_ok)
      × (taken.request ≡ some (request, some given))
      × (given ≡ header_of m)
      × Ensures (Answered responses ze z_query_reply p ys r) (
          send_response responses ze z_query_reply fuel now true taken.queues.response_queue
            given.request_id response s1)

  -- A request that can be read is taken and then answered. `rmw_take_request` returns RMW_RET_OK and hands
  -- out the request and a header with the number, the gid and the time of the request's attachment; with the
  -- header that was handed out, `rmw_send_response` replies to the query of that request, with the
  -- serialized response and the request's own attachment at the time of sending, and the requests that
  -- waited before wait on. The service's queues are well formed and share no message, no other waiting
  -- request fits the header, the gid is not empty and fills the header's array, the request has no other
  -- holder, and its attachment can be written.
  pub send_response-take_request :
      (fuel now : ℕ) (s : Memory) (q : ServiceQueues) (p : Ptr) (m : ReceiveMessageData)
      (xs ys : Messages) (header : RmwServiceInfo) (request : Request) (response : Response)
      (msg_bytes attachment : Bytes) (size : ℕ)
      → IsQueue s q.request_queue ((p, m) ∷ xs)
      → IsQueue s q.response_queue ys
      → has p ys ≡ false
      → ((a : Ptr) → has a xs ≡ true → has a ys ≡ false)
      → rmw_zenoh_pico_deserialize requests m.payload_start m.payload_size ≡ some request
      → (length m.attachment.gid == 0) ≡ false
      → length m.attachment.gid ≡ length header.request_id.writer_guid
      → picked (compare_responce_msg (header_of m).request_id) ys ≡ none
      → length ys + 1 < fuel
      → m.ref ≡ pos 1
      → rmw_zenoh_pico_serialize responses true response ≡ some (msg_bytes, size)
      → (attachment_gen ze now m.attachment).1 ≡ some attachment
      → Ensures
          (TakenAndAnswered fuel now p m ys request response
            (record { query_rc = m.query_rc; payload = msg_bytes; attachment = attachment }))
          (take_request requests q (some header) s)
  send_response-take_request fuel now s q p m xs ys header request response msg_bytes attachment
        size waiting answered out apart readable some_gid fits no_other enough one serialized
        generated =
      let id = (header_of m).request_id in
      let accepted : compare_responce_msg id m ≡ true =
        subst (λ h. compare_responce_msg h.request_id m ≡ true) (header_filled m header fits)
          (compare-fill m header some_gid fits) in
      let (found, rest) = picked-last (compare_responce_msg id) ys p m no_other accepted in
      let r : Reply = record {
        query_rc = m.query_rc;
        payload = msg_bytes;
        attachment = attachment;
      } in
      Ensures-mono (take_request requests q (some header) s)
        (take_request-moves requests s q p m xs ys (some header) waiting answered out apart)
        λ taken s1 (code, got, left, queue). (
          header_of m,
          code,
          got ∙ handed_out requests m header request fits readable,
          refl,
          subst
              (λ l. Ensures (Answered responses ze z_query_reply p l r) (
                send_response responses ze z_query_reply fuel now true taken.queues.response_queue
                  id response s1))
              rest
              (send_response-Answered responses ze z_query_reply fuel now s1
                taken.queues.response_queue (ys ++ (p, m) ∷ []) id response p m msg_bytes attachment
                size queue (omega (arith, length-append ys ((p, m) ∷ []), enough)) found one
                serialized generated),
        )
