-- ===== src/Handler.antt =====
-- The callbacks that zenoh-pico's threads run: `_subscription_data_handler` of rmw_subscription.c,
-- `request_handler` of rmw_service.c and `_reply_handler` of rmw_client.c, and `rmw_take_response`. Of a
-- subscription, service or client they see the queue, the data callback and the wait condition;
-- what triggering the condition does stands in Wait, here it is counted.
pub mod Queued
pub mod Delivered
pub mod Response
pub mod Query
pub mod Call
mod Tests
use rmw_zenoh_pico.Prelude.{
  ℕ, suc, Bool, true, false, Bytes, Option, some, none, List, [], ◌∷◌, ◌==◌, if◌then◌else◌,
}
use rmw_zenoh_pico.Message.{ReceiveMessageData}
use rmw_zenoh_pico.Memory.{
  Ptr, null, Cell, Memory, Run, Cmd, pure, ok, fault, out_of_fuel, ◌>>=◌, ◌>>◌, load,
}
use rmw_zenoh_pico.MessageList.{
  ReceiveMessageDataList, recv_msg_list_append, recv_msg_list_pop, zenoh_pico_delete_recv_msg_data,
}
use rmw_zenoh_pico.Rmw.{RmwRet, ret_ok, ret_error}
use rmw_zenoh_pico.Attachment.{ZeSerializer}
use rmw_zenoh_pico.Event.{DataEventManager, CallbackCall, data_callback_trigger}
use rmw_zenoh_pico.Serialize.{MessageTypeSupport, rmw_zenoh_pico_deserialize}
use rmw_zenoh_pico.Service.{RmwServiceInfo, fill_request_header}
use rmw_zenoh_pico.Receive.{
  ReceivedSample, ReceivedQuery, rmw_zenoh_pico_generate_recv_sample_msg_data,
  rmw_zenoh_pico_generate_recv_query_msg_data,
}

pub record Inbox : Type 0 where
  pub queue : ReceiveMessageDataList
  pub data_event_mgr : DataEventManager
  pub triggers : ℕ

-- What a handler leaves: the inbox, the calls of the user's callback, and whether it sent an error reply.
pub record Handled : Type 0 where
  pub inbox : Option Inbox
  pub calls : List CallbackCall
  pub error_reply : Bool

abbrev nothing_done : Option Inbox → (error_reply : Bool) → Handled
nothing_done inbox error_reply = record { inbox = inbox; calls = []; error_reply = error_reply }

-- `add_new_subscription_message`, `add_new_request_message` and `add_new_replay_message`
unfoldable pub add_new_message : Inbox → Ptr → Cmd Handled
add_new_message inbox recv_data = do
  (l, _) ← recv_msg_list_append inbox.queue recv_data
  let (mgr, calls) = data_callback_trigger inbox.data_event_mgr
  pure (record {
    inbox = some (record { queue = l; data_event_mgr = mgr; triggers = suc inbox.triggers });
    calls = calls;
    error_reply = false;
  })

-- The received struct is queued, unless it is NULL.
abbrev queue_received : Inbox → (error_reply : Bool) → Cmd Ptr → Cmd Handled
queue_received inbox error_reply generate = do
  recv_data ← generate
  if recv_data == null
      then pure (nothing_done (some inbox) error_reply)
      else add_new_message inbox recv_data

module _ (ze : ZeSerializer) where
  unfoldable pub subscription_data_handler :
      (recv_data : Ptr)
      → (allocated : Bool) → (recv_ts : ℕ) → ReceivedSample
      → Option Inbox
      → Cmd Handled
  unfolding add_new_message
  subscription_data_handler recv_data allocated recv_ts sample none = pure (nothing_done none false)
  subscription_data_handler recv_data allocated recv_ts sample (some inbox) =
      queue_received inbox false
        (rmw_zenoh_pico_generate_recv_sample_msg_data ze recv_data allocated sample recv_ts)

  -- `none` is a reply that is not ok.
  unfoldable pub reply_handler :
      (recv_data : Ptr)
      → (allocated : Bool) → (recv_ts : ℕ) → Option ReceivedSample
      → Option Inbox
      → Cmd Handled
  unfolding add_new_message
  reply_handler recv_data allocated recv_ts none inbox = pure (nothing_done inbox false)
  reply_handler recv_data allocated recv_ts (some sample) none = pure (nothing_done none false)
  reply_handler recv_data allocated recv_ts (some sample) (some inbox) =
      queue_received inbox false
        (rmw_zenoh_pico_generate_recv_sample_msg_data ze recv_data allocated sample recv_ts)

  unfoldable pub request_handler :
      (recv_data : Ptr)
      → (allocated : Bool) → (recv_ts : ℕ) → ReceivedQuery
      → Option Inbox
      → Cmd Handled
  unfolding add_new_message
  request_handler recv_data allocated recv_ts query none = pure (nothing_done none true)
  request_handler recv_data allocated recv_ts query (some inbox) =
      queue_received inbox true
        (rmw_zenoh_pico_generate_recv_query_msg_data ze recv_data allocated query recv_ts)

pub record TakenResponse (Response : Type 0) : Type 0 where
  pub queue : ReceiveMessageDataList
  pub ret : RmwRet
  pub response : Option (Response × Option RmwServiceInfo)

module _ {Response : Type 0} (callbacks : MessageTypeSupport Response) where
  unfoldable pub rmw_zenoh_pico_deserialize_response_msg :
      ReceiveMessageData → Option RmwServiceInfo → Option (Response × Option RmwServiceInfo)
  rmw_zenoh_pico_deserialize_response_msg m request_header =
      elim (rmw_zenoh_pico_deserialize callbacks m.payload_start m.payload_size) [
        | none ↦ none
        | some ros_response ↦ some (
          ros_response,
          elim request_header [ none ↦ none | some h ↦ some (fill_request_header m h) ],
        )
      ]

  abbrev hand_response :
      ReceiveMessageDataList
      → Ptr
      → Option (Response × Option RmwServiceInfo)
      → Cmd (TakenResponse Response)
  hand_response l msg_data none = pure (record { queue = l; ret = ret_error; response = none })
  hand_response l msg_data (some r) = do
    zenoh_pico_delete_recv_msg_data msg_data
    pure (record { queue = l; ret = ret_ok; response = some r })

  -- `rmw_take_response` behind its checks.
  unfoldable pub take_response :
      ReceiveMessageDataList → Option RmwServiceInfo → Cmd (TakenResponse Response)
  take_response response_queue request_header = do
    (l, msg_data) ← recv_msg_list_pop response_queue
    if msg_data == null then pure (record { queue = l; ret = ret_error; response = none }) else do
      c ← load msg_data
      hand_response l msg_data (rmw_zenoh_pico_deserialize_response_msg c.msg request_header)
