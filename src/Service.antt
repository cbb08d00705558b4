-- ===== src/Service.antt =====
-- Requests and their responses: `rmw_take_request`, `rmw_send_response` and `_compare_responce_msg` of
-- rmw_service.c, `rmw_send_request` of rmw_client.c, and the request header of
-- zenoh_pico_rosMessage.c. The serializer, the CDR callbacks and the zenoh calls are parameters.
-- The checks at the head of the functions stand in Service/Checks.
pub mod Checks
pub mod Request
pub mod Response
pub mod Sequence
pub mod Answer
pub mod Destroy
mod Tests
use rmw_zenoh_pico.Prelude.{
  ℕ, zero, suc, ◌+◌, Bool, true, false, not, ◌&&◌, Bytes, Option, none, some, List, [], ◌∷◌, ◌++◌,
  ◌==◌, if◌then◌else◌, length, take, drop, bytes_eq,
}
use rmw_zenoh_pico.Message.{ZenohPicoAttachemtData, ReceiveMessageData}
use rmw_zenoh_pico.Memory.{
  Ptr, null, Cell, Memory, Run, Cmd, pure, ok, fault, out_of_fuel, ◌>>=◌, ◌>>◌, load, put,
}
use rmw_zenoh_pico.MessageList.{
  ReceiveMessageDataList, recv_msg_list_pop, recv_msg_list_append, recv_msg_list_pickup,
  zenoh_pico_delete_recv_msg_data,
}
use rmw_zenoh_pico.Rmw.{RmwRet, ret_ok, ret_error}
use rmw_zenoh_pico.Attachment.{ZeSerializer, attachment_gen, attachment_sequence_num_inc}
use rmw_zenoh_pico.Serialize.{
  MessageTypeSupport, rmw_zenoh_pico_serialize, rmw_zenoh_pico_deserialize,
}
use rmw_zenoh_pico.Take.{copy_gid}

pub record RmwRequestId : Type 0 where
  pub writer_guid : Bytes
  pub sequence_number : ℕ

pub record RmwServiceInfo : Type 0 where
  pub source_timestamp : ℕ
  pub received_timestamp : ℕ
  pub request_id : RmwRequestId

-- `rmw_zneoh_fill_request_header`
unfoldable pub fill_request_header : ReceiveMessageData → RmwServiceInfo → RmwServiceInfo
unfolding copy_gid
fill_request_header m header = record {
  source_timestamp = m.attachment.timestamp;
  received_timestamp = m.recv_timestamp;
  request_id = record {
    writer_guid = copy_gid header.request_id.writer_guid m.attachment.gid;
    sequence_number = m.attachment.sequence_num;
  };
}

-- `_compare_responce_msg`: the first bytes of the gid, as many as the array in the header has, and the
-- sequence number. The data pointer of an empty gid is NULL. For a gid that is shorter than the array the
-- source's memcmp reads past it; here it does not fit.
unfoldable pub compare_responce_msg : RmwRequestId → ReceiveMessageData → Bool
compare_responce_msg service m =
    not (length m.attachment.gid == 0)
    && (bytes_eq (take (length service.writer_guid) m.attachment.gid) service.writer_guid
        && (m.attachment.sequence_num == service.sequence_number))

module _ {Request : Type 0} (callbacks : MessageTypeSupport Request) where
  -- The header is filled only if the payload could be read; a NULL header is `none`.
  unfoldable pub rmw_zenoh_pico_deserialize_request_msg :
      ReceiveMessageData → Option RmwServiceInfo → Option (Request × Option RmwServiceInfo)
  rmw_zenoh_pico_deserialize_request_msg m request_header =
      elim (rmw_zenoh_pico_deserialize callbacks m.payload_start m.payload_size) [
        | none ↦ none
        | some ros_request ↦ some (
          ros_request,
          elim request_header [ none ↦ none | some h ↦ some (fill_request_header m h) ],
        )
      ]

-- The two queues of a `ZenohPicoServiceData`: requests that wait to be taken, and requests that wait
-- for their response.
pub record ServiceQueues : Type 0 where
  pub request_queue : ReceiveMessageDataList
  pub response_queue : ReceiveMessageDataList

pub record TakenRequest (Request : Type 0) : Type 0 where
  pub queues : ServiceQueues
  pub ret : RmwRet
  pub request : Option (Request × Option RmwServiceInfo)

module _ {Request : Type 0} (callbacks : MessageTypeSupport Request) where
  -- `rmw_take_request` behind its checks. The message moves to the response queue whether or not it could be read; the code is RMW_RET_OK.
  unfoldable pub take_request : ServiceQueues → Option RmwServiceInfo → Cmd (TakenRequest Request)
  take_request q request_header = do
    (l, msg_data) ← recv_msg_list_pop q.request_queue
    if msg_data == null
        then pure
            (record { queues = record q { request_queue = l }; ret = ret_error; request = none })
        else do
          c ← load msg_data
          (responses, _) ← recv_msg_list_append q.response_queue msg_data
          pure (record {
            queues = record { request_queue = l; response_queue = responses };
            ret = ret_ok;
            request = rmw_zenoh_pico_deserialize_request_msg callbacks c.msg request_header;
          })

-- What `z_query_reply` is given: the query, the payload and the attachment.
pub record Reply : Type 0 where
  pub query_rc : ℕ
  pub payload : Bytes
  pub attachment : Bytes

pub record SentResponse : Type 0 where
  pub response_queue : ReceiveMessageDataList
  pub ret : RmwRet
  pub reply : Option Reply

module _ {Response : Type 0} (callbacks : MessageTypeSupport Response) (ze : ZeSerializer)
    (z_query_reply : Reply → Bool) where
  -- The part behind the serialized response: the attachment is generated in the message itself, and a
  -- failure there leaves the message in memory.
  unfoldable pub reply_to :
      (now : ℕ) → ReceiveMessageDataList → Ptr → (msg_bytes : Bytes) → Cmd SentResponse
  reply_to now l msg_data msg_bytes = do
    c ← load msg_data
    let m = c.msg
    let (attached, generated) = attachment_gen ze now m.attachment
    put msg_data (some (record c { msg = record m { attachment = attached } }))
    elim generated [
      | none ↦ pure (record { response_queue = l; ret = ret_error; reply = none })
      | some attachment ↦
          let r : Reply = record {
            query_rc = m.query_rc;
            payload = msg_bytes;
            attachment = attachment;
          } in
          do
            zenoh_pico_delete_recv_msg_data msg_data
            pure (record {
              response_queue = l;
              ret = if z_query_reply r then ret_ok else ret_error;
              reply = some r;
            })
    ]

  -- `rmw_send_response` behind its checks. The test for NULL behind the pickup sets an error message and goes on.
  unfoldable pub send_response :
      (fuel now : ℕ)
      → (allocated : Bool) → ReceiveMessageDataList
      → RmwRequestId
      → Response
      → Cmd SentResponse
  unfolding reply_to
  send_response fuel now allocated responses request_header ros_response = do
    (l, msg_data) ← recv_msg_list_pickup fuel responses (compare_responce_msg request_header)
    elim (rmw_zenoh_pico_serialize callbacks allocated ros_response) [
      | none ↦ do
        zenoh_pico_delete_recv_msg_data msg_data
        pure (record { response_queue = l; ret = ret_error; reply = none })
      | some (msg_bytes, data_length) ↦ reply_to now l msg_data msg_bytes
    ]

-- What `z_get` and `z_publisher_put` are given.
pub record Outgoing : Type 0 where
  pub payload : Bytes
  pub attachment : Bytes

pub record SentRequest : Type 0 where
  pub attachment : ZenohPicoAttachemtData
  pub ret : RmwRet
  pub sequence_id : Option ℕ
  pub outgoing : Option Outgoing

module _ {RosMessage : Type 0} (callbacks : MessageTypeSupport RosMessage) (ze : ZeSerializer)
    (z_send : Outgoing → Bool) where
  -- `rmw_send_request` behind its checks, over the attachment data of the client.
  unfoldable pub send_request :
      (now : ℕ) → (allocated : Bool) → ZenohPicoAttachemtData → RosMessage → SentRequest
  send_request now allocated client ros_request =
      elim (rmw_zenoh_pico_serialize callbacks allocated ros_request) [
        | none ↦ record {
          attachment = client;
          ret = ret_error;
          sequence_id = none;
          outgoing = none;
        }
        | some (msg_bytes, data_length) ↦
            let (counted, sequence_id) = attachment_sequence_num_inc client in
            let (attached, generated) = attachment_gen ze now counted in
            elim generated [
              | none ↦ record {
                attachment = attached;
                ret = ret_error;
                sequence_id = some sequence_id;
                outgoing = none;
              }
              | some attachment ↦
                  let o : Outgoing = record { payload = msg_bytes; attachment = attachment } in
                  record {
                    attachment = attached;
                    ret = if z_send o then ret_ok else ret_error;
                    sequence_id = some sequence_id;
                    outgoing = some o;
                  }
            ]
      ]

  -- `rmw_zenoh_pico_publish`, over the attachment data of the publisher.
  unfoldable pub rmw_zenoh_pico_publish :
      (now : ℕ)
      → (allocated : Bool) → ZenohPicoAttachemtData
      → RosMessage
      → ZenohPicoAttachemtData × RmwRet × Option Outgoing
  rmw_zenoh_pico_publish now allocated client ros_message =
      elim (rmw_zenoh_pico_serialize callbacks allocated ros_message) [
        | none ↦ (client, ret_error, none)
        | some (msg_bytes, data_length) ↦
            let (attached, generated) =
              attachment_gen ze now (attachment_sequence_num_inc client).0 in
            elim generated [
              | none ↦ (attached, ret_error, none)
              | some attachment ↦
                  let o : Outgoing = record { payload = msg_bytes; attachment = attachment } in
                  (attached, if z_send o then ret_ok else ret_error, some o)
            ]
      ]
