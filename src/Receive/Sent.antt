-- ===== src/Receive/Sent.antt =====
-- A message that one side publishes, as the other side receives and reads it.
use rmw_zenoh_pico.Prelude.{
  ℕ, suc, ◌+◌, ◌<◌, ◌^◌, ◌≡◌, ◌≢◌, refl, sym, subst, ◌∙◌, Bool, true, false, Bytes, Option, some,
  ◌∷◌, ◌==◌, length, arith, Option-cases, inl, inr,
}
use rmw_zenoh_pico.Message.{ZenohPicoAttachemtData, ReceiveMessageData, sample}
use rmw_zenoh_pico.Memory.{Ptr, null, Cell, Memory, payload, write, Holds, upd_self, upd_ne}
use rmw_zenoh_pico.MessageList.{receive_message_data_generate}
use rmw_zenoh_pico.MessageList.Chain.{cell_of}
use rmw_zenoh_pico.MessageList.Ends.{Ensures}
use rmw_zenoh_pico.Attachment.{
  ZeSerializer, ReadsBack, attachment_data_get, attachment_gen, attachment_sequence_num_inc,
}
use rmw_zenoh_pico.Attachment.RoundTrip.{get-gen}
use rmw_zenoh_pico.Serialize.{
  MessageTypeSupport, rmw_zenoh_pico_serialize, rmw_zenoh_pico_deserialize,
}
use rmw_zenoh_pico.Serialize.RoundTrip.{IsCdr, deserialize-serialize}
use rmw_zenoh_pico.Take.{RmwMessageInfo, fill_message_info, rmw_zenoh_pico_deserialize_topic_msg}
use rmw_zenoh_pico.Service.{Outgoing, rmw_zenoh_pico_publish}
use rmw_zenoh_pico.Receive.{
  ReceivedSample, read_attachment, rmw_zenoh_pico_generate_recv_sample_msg_data,
}

-- The struct that a sample becomes.
abbrev pub received :
    (z : ReceivedSample) → (recv_ts : ℕ) → ZenohPicoAttachemtData → ReceiveMessageData
received z recv_ts attached = record receive_message_data_generate {
  payload_start = some z.payload;
  payload_size = length z.payload;
  recv_timestamp = recv_ts;
  attachment = attached;
  message_type = sample;
}

abbrev new : ReceiveMessageData
new = record receive_message_data_generate { message_type = sample }

-- The memory with the new struct, before it is filled.
abbrev blank : Memory → Ptr → Memory
blank s p = write s p (some (cell_of null new))

serialize-size :
    {RosMessage : Type 0} (callbacks : MessageTypeSupport RosMessage) (m : RosMessage) (b : Bytes)
    (n : ℕ)
    → rmw_zenoh_pico_serialize callbacks true m ≡ some (b, n)
    → n ≡ callbacks.get_serialized_size m + 4
unfolding rmw_zenoh_pico_serialize
serialize-size callbacks m b n e = ground (arith, e)

module _ (ze : ZeSerializer) where
  -- With memory at hand and an attachment that can be read, receiving a sample gives a new struct with one
  -- reference, the sample's payload, the time of receiving and the attachment; no other struct
  -- changes and nothing is given back.
  pub generate_recv-ok :
      (s : Memory) (p : Ptr) (z : ReceivedSample) (recv_ts : ℕ) (attached : ZenohPicoAttachemtData)
      → p ≢ null
      → attachment_data_get ze z.attachment receive_message_data_generate.attachment
        ≡ (attached, true)
      → Ensures
          (λ q s'.
            (q ≡ p)
            × Holds s' p (cell_of null (received z recv_ts attached))
            × ((a : Ptr) → a ≢ p → s'.cell a ≡ s.cell a)
            × (s'.released ≡ s.released))
          (rmw_zenoh_pico_generate_recv_sample_msg_data ze p true z recv_ts s)
  unfolding rmw_zenoh_pico_generate_recv_sample_msg_data read_attachment
  generate_recv-ok s p z recv_ts attached ne readable =
      let live : (p == null) ≡ false = ground (arith, ne) in
      let filled : Option Cell = some (cell_of null (received z recv_ts attached)) in
      rw (live, readable)
        (
          refl,
          (ne, upd_self (blank s p).cell p filled),
          (λ a other.
              upd_ne (blank s p).cell p a filled other
              ∙ upd_ne s.cell p a (some (cell_of null new)) other),
          refl,
        )

  -- With memory at hand and an attachment that cannot be read, receiving a sample gives NULL and gives the
  -- payload back, but the struct stays in memory.
  pub generate_recv_unreadable :
      (s : Memory) (p : Ptr) (z : ReceivedSample) (recv_ts : ℕ)
      → p ≢ null
      → (attachment_data_get ze z.attachment receive_message_data_generate.attachment).1 ≡ false
      → Ensures
          (λ q s'.
            (q ≡ null)
            × ((c : Cell) × (s'.cell p ≡ some c))
            × (s'.released ≡ payload z.payload ∷ s.released))
          (rmw_zenoh_pico_generate_recv_sample_msg_data ze p true z recv_ts s)
  unfolding rmw_zenoh_pico_generate_recv_sample_msg_data read_attachment
  generate_recv_unreadable s p z recv_ts ne unreadable =
      let live : (p == null) ≡ false = ground (arith, ne) in
      let attached =
        (attachment_data_get ze z.attachment receive_message_data_generate.attachment).0 in
      let c = cell_of null (received z recv_ts attached) in
      rw (live, unreadable) (refl, (c, upd_self (blank s p).cell p (some c)), refl)

-- A message that is published with a valid CDR type and then received is read back: the subscriber gets the
-- message itself, and in its info the time of publishing, the time of receiving, and the number
-- after the publisher's last sequence number. The payload with its header is shorter than 2 ^ 64 bytes.
pub deserialize-publish :
    {RosMessage : Type 0} (callbacks : MessageTypeSupport RosMessage) (ze : ZeSerializer)
    (z_send : Outgoing → Bool)
    → IsCdr callbacks
    → ReadsBack ze
    → (now recv_ts : ℕ) (d old : ZenohPicoAttachemtData) (m : RosMessage) (o : Outgoing)
      (info : RmwMessageInfo)
    → (rmw_zenoh_pico_publish callbacks ze z_send now true d m).2 ≡ some o
    → callbacks.get_serialized_size m + 4 < 2 ^ 64
    → (attached : ZenohPicoAttachemtData) × (filled : RmwMessageInfo) × (attachment_data_get ze
          o.attachment old
        ≡ (attached, true))
      × (rmw_zenoh_pico_deserialize_topic_msg callbacks
            (received (record { payload = o.payload; attachment = o.attachment }) recv_ts attached)
            (some info)
          ≡ some (m, some filled))
      × (filled.publication_sequence_number ≡ suc d.sequence_num)
      × (filled.source_timestamp ≡ now)
      × (filled.received_timestamp ≡ recv_ts)
unfolding rmw_zenoh_pico_publish attachment_sequence_num_inc fill_message_info
    rmw_zenoh_pico_deserialize_topic_msg receive_message_data_generate
deserialize-publish callbacks ze z_send cdr laws now recv_ts d old m o info sent short =
    let counted : ZenohPicoAttachemtData = record d { sequence_num = suc d.sequence_num } in
    let attached : ZenohPicoAttachemtData = record counted { timestamp = now } in
    let z : ReceivedSample = record { payload = o.payload; attachment = o.attachment } in
    elim (Option-cases (rmw_zenoh_pico_serialize callbacks true m)) [
      | inl e ↦ ground (arith, e, sent)
      | inr ((b, n), e) ↦ elim (Option-cases (attachment_gen ze now counted).1) [
        | inl e2 ↦ ground (arith, e, e2, sent)
        | inr (a, e2) ↦
            let same_payload : b ≡ o.payload = ground (arith, e, e2, sent) in
            let same_attachment : a ≡ o.attachment = ground (arith, e, e2, sent) in
            let (header, size, read) =
              deserialize-serialize callbacks cdr m b n e
                (omega (arith, serialize-size callbacks m b n e, short)) in
            let whole : rmw_zenoh_pico_deserialize callbacks (some b) (length b) ≡ some m =
              subst (λ k. rmw_zenoh_pico_deserialize callbacks (some b) k ≡ some m) (sym size)
                read in
            let readable : rmw_zenoh_pico_deserialize callbacks (some o.payload) (length o.payload)
                ≡ some m =
              subst (λ x. rmw_zenoh_pico_deserialize callbacks (some x) (length x) ≡ some m)
                same_payload whole in
            (
              attached,
              fill_message_info (received z recv_ts attached) info,
              rw (sym same_attachment) (get-gen ze laws now counted old a e2),
              rw (rmw_zenoh_pico_deserialize_topic_msg, readable) refl,
              refl,
              refl,
              refl,
            )
      ]
    ]
