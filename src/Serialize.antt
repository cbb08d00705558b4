-- ===== src/Serialize.antt =====
-- Payloads: `rmw_zenoh_pico_serialize`, `rmw_zenoh_pico_deserialize` and the header of a ROS 2 message,
-- in zenoh_pico_rosMessage.c. The CDR callbacks of a message type are a parameter.
pub mod RoundTrip
mod Tests
use rmw_zenoh_pico.Prelude.{
  ℕ, ◌+◌, ◌-◌, ◌%◌, ◌^◌, ◌≡◌, Bool, true, false, Bytes, Option, none, some, List, [], ◌∷◌, ◌++◌,
  length, take, drop, replicate, if◌then◌else◌,
}

-- `message_type_support_callbacks_t`. `cdr_serialize` is given the zeroed buffer and leaves it filled;
-- `cdr_deserialize` is given what stands in the buffer and the size that it is told.
pub record MessageTypeSupport (RosMessage : Type 0) : Type 0 where
  pub get_serialized_size : RosMessage → ℕ
  pub cdr_serialize : RosMessage → Bytes → Bytes × Bool
  pub cdr_deserialize : Bytes → ℕ → Option RosMessage

abbrev pub ros2_msg_offset : ℕ
ros2_msg_offset = 4

-- `set_ros2_header`
unfoldable pub set_ros2_header : Bytes → Bytes
set_ros2_header msg_bytes = 0 ∷ 1 ∷ 0 ∷ 0 ∷ drop 4 msg_bytes

module _ {RosMessage : Type 0} (callbacks : MessageTypeSupport RosMessage) where
  -- The bytes and their number; `none` if `malloc` fails. That `cdr_serialize` failed is not looked at.
  unfoldable pub rmw_zenoh_pico_serialize : (allocated : Bool) → RosMessage → Option (Bytes × ℕ)
  unfolding set_ros2_header
  rmw_zenoh_pico_serialize allocated ros_message =
      let serialized_size = callbacks.get_serialized_size ros_message in
      let alloc_size = serialized_size + ros2_msg_offset in
      let zeroed : Bytes = replicate alloc_size 0 in
      let filled = (callbacks.cdr_serialize ros_message (drop ros2_msg_offset zeroed)).0 in
      let msg_bytes = take ros2_msg_offset zeroed ++ filled in
      if allocated then some (set_ros2_header msg_bytes, alloc_size) else none

  -- `payload_size - ROS2_MSG_OFFSET` is computed in `size_t`.
  unfoldable pub rmw_zenoh_pico_deserialize : Option Bytes → (payload_size : ℕ) → Option RosMessage
  rmw_zenoh_pico_deserialize none payload_size = none
  rmw_zenoh_pico_deserialize (some payload_start) payload_size =
      callbacks.cdr_deserialize (drop ros2_msg_offset payload_start)
        ((payload_size + 2 ^ 64 - ros2_msg_offset) % 2 ^ 64)
