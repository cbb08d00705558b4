-- ===== src/Receive.antt =====
-- What a callback makes of a sample or a query: `rmw_zenoh_pico_generate_recv_sample_msg_data` and
-- `rmw_zenoh_pico_generate_recv_query_msg_data` of zenoh_pico_rosMessage.c. What `malloc` returns is an
-- argument: the address of the struct, NULL or not, and whether the payload's buffer could be had.
-- That the query's key expression becomes an alias of the clone is left out.
pub mod Sent
mod Tests
use rmw_zenoh_pico.Prelude.{
  ℕ, Bool, Bytes, Option, some, none, List, [], ◌∷◌, ◌==◌, if◌then◌else◌, length,
}
use rmw_zenoh_pico.Message.{ReceiveMessageData, sample, query}
use rmw_zenoh_pico.Memory.{
  Ptr, null, Cell, Memory, Run, Cmd, pure, ok, fault, out_of_fuel, ◌>>=◌, ◌>>◌, put, give_back,
  Released, payload, keyexpr, query_rc,
}
use rmw_zenoh_pico.MessageList.{receive_message_data_generate}
use rmw_zenoh_pico.Attachment.{ZeSerializer, attachment_data_get}

-- What is read of a `z_loaned_sample_t` and of a `z_loaned_query_t`.
pub record ReceivedSample : Type 0 where
  pub payload : Bytes
  pub attachment : Bytes

pub record ReceivedQuery : Type 0 where
  pub payload : Bytes
  pub attachment : Bytes
  pub keyexpr : Bytes
  pub query_rc : ℕ

-- The struct when the payload is copied and the receive time is set.
abbrev pub with_payload : Bytes → (recv_ts : ℕ) → ReceiveMessageData → ReceiveMessageData
with_payload b recv_ts m = record m {
  payload_start = some b;
  payload_size = length b;
  recv_timestamp = recv_ts;
}

module _ (ze : ZeSerializer) where
  -- The attachment is read into the struct; if that fails, `back` is given back and the result is NULL.
  unfoldable pub read_attachment :
      Ptr → ReceiveMessageData → (attachment : Bytes) → (back : List Released) → Cmd Ptr
  read_attachment recv_data m attachment back =
      let (attached, got) = attachment_data_get ze attachment m.attachment in
      do
        put recv_data (some (record { next = null; msg = record m { attachment = attached } }))
        if got then pure recv_data else do give_back back; pure null

  unfoldable pub rmw_zenoh_pico_generate_recv_sample_msg_data :
      (recv_data : Ptr) → (allocated : Bool) → ReceivedSample → (recv_ts : ℕ) → Cmd Ptr
  unfolding read_attachment
  rmw_zenoh_pico_generate_recv_sample_msg_data recv_data allocated z recv_ts =
      let m = record receive_message_data_generate { message_type = sample } in
      let filled = with_payload z.payload recv_ts m in
      if recv_data == null then pure null else do
        put recv_data (some (record { next = null; msg = m }))
        if allocated
            then read_attachment recv_data filled z.attachment (payload z.payload ∷ [])
            else pure null

  unfoldable pub rmw_zenoh_pico_generate_recv_query_msg_data :
      (recv_data : Ptr) → (allocated : Bool) → ReceivedQuery → (recv_ts : ℕ) → Cmd Ptr
  unfolding read_attachment
  rmw_zenoh_pico_generate_recv_query_msg_data recv_data allocated z recv_ts =
      let m = record receive_message_data_generate { message_type = query } in
      let filled = record (with_payload z.payload recv_ts m) {
        query_rc = z.query_rc;
        keyexpr = z.keyexpr;
      } in
      if recv_data == null then pure null else do
        put recv_data (some (record { next = null; msg = m }))
        if allocated
            then read_attachment recv_data filled z.attachment
                (payload z.payload ∷ keyexpr z.keyexpr ∷ query_rc z.query_rc ∷ [])
            else pure null
