-- ===== src/Service/Sequence.antt =====
-- The sequence numbers of requests and of published messages, as the other side reads them.
use rmw_zenoh_pico.Prelude.{
  ℕ, ◌+◌, ◌<◌, ◌^◌, subst, length, suc, ◌≡◌, refl, Bool, true, some, arith, Option-cases, inl, inr,
}
use rmw_zenoh_pico.Message.{ZenohPicoAttachemtData}
use rmw_zenoh_pico.Attachment.{
  ZeSerializer, ReadsBack, attachment_data_get, attachment_gen, attachment_sequence_num_inc,
}
use rmw_zenoh_pico.Attachment.RoundTrip.{get-gen}
use rmw_zenoh_pico.Serialize.{
  MessageTypeSupport, rmw_zenoh_pico_serialize, rmw_zenoh_pico_deserialize,
}
use rmw_zenoh_pico.Serialize.RoundTrip.{IsCdr, deserialize_all}
use rmw_zenoh_pico.Service.{Outgoing, send_request}

module _ {RosMessage : Type 0} (callbacks : MessageTypeSupport RosMessage) (ze : ZeSerializer)
    (laws : ReadsBack ze) (z_send : Outgoing → Bool) where
  -- A request that goes out carries the number that follows the sequence id given to the caller, and the
  -- time and the gid of the client: whoever reads its attachment reads `suc sequence_id`.
  pub send_request-get :
      (now : ℕ) (client old : ZenohPicoAttachemtData) (request : RosMessage) (o : Outgoing)
      → (send_request callbacks ze z_send now true client request).outgoing ≡ some o
      → ((send_request callbacks ze z_send now true client request).sequence_id
          ≡ some client.sequence_num)
        × (attachment_data_get ze o.attachment old ≡ (
          record { sequence_num = suc client.sequence_num; timestamp = now; gid = client.gid },
          true,
        ))
  unfolding send_request rmw_zenoh_pico_serialize attachment_sequence_num_inc
  send_request-get now client old request o sent =
      let counted : ZenohPicoAttachemtData = record client {
        sequence_num = suc client.sequence_num;
      } in
      elim (Option-cases (attachment_gen ze now counted).1) [
        | inl e ↦ ground (arith, e, sent)
        | inr (b, e) ↦
            let same : o.attachment ≡ b = ground (arith, e, sent) in
            (rw (send_request, e) refl, rw same (get-gen ze laws now counted old b e))
      ]

  -- The payload of a request that goes out is read as the request itself, where its type is a valid CDR
  -- type and the payload with its header is shorter than 2 ^ 64 bytes.
  pub send_request-deserialize :
      IsCdr callbacks
      → (now : ℕ) (client : ZenohPicoAttachemtData) (request : RosMessage) (o : Outgoing)
      → (send_request callbacks ze z_send now true client request).outgoing ≡ some o
      → callbacks.get_serialized_size request + 4 < 2 ^ 64
      → rmw_zenoh_pico_deserialize callbacks (some o.payload) (length o.payload) ≡ some request
  unfolding send_request
  send_request-deserialize cdr now client request o sent short =
      let counted : ZenohPicoAttachemtData = (attachment_sequence_num_inc client).0 in
      elim (Option-cases (rmw_zenoh_pico_serialize callbacks true request)) [
        | inl e ↦ ground (arith, e, sent)
        | inr ((b, n), e) ↦ elim (Option-cases (attachment_gen ze now counted).1) [
          | inl e2 ↦ ground (arith, e, e2, sent)
          | inr (a, e2) ↦
              let same : b ≡ o.payload = ground (arith, e, e2, sent) in
              subst (λ x. rmw_zenoh_pico_deserialize callbacks (some x) (length x) ≡ some request)
                same (deserialize_all callbacks cdr request b n e short)
        ]
      ]
