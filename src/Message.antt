-- ===== src/Message.antt =====
-- The received message: `ReceiveMessageData` of rmw_zenoh_pico_rosMessage.h and its attachment,
-- `zenoh_pico_attachemt_data` of rmw_zenoh_pico_attach.h. A zenoh query is known by a number.
use rmw_zenoh_pico.Prelude.{ℕ, Bytes, Option, ℤ}

pub record ZenohPicoAttachemtData : Type 0 where
  pub sequence_num : ℕ  -- int64_t, counted from 0
  pub timestamp : ℕ  -- int64_t, nanoseconds since the epoch
  pub gid : Bytes

pub data ZenohPicoMessageType : Type 0 where
  sample : ZenohPicoMessageType
  query : ZenohPicoMessageType

-- All fields but `next`, which stands in `Cell`, and the mutex. `payload_start` is `none` for NULL.
pub record ReceiveMessageData : Type 0 where
  pub ref : ℤ
  pub payload_start : Option Bytes
  pub payload_size : ℕ
  pub recv_timestamp : ℕ
  pub sequence_num : ℕ
  pub attachment : ZenohPicoAttachemtData
  pub message_type : ZenohPicoMessageType
  pub query_rc : ℕ
  pub keyexpr : Bytes
