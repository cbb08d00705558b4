-- ===== src/Take.antt =====
-- Taking a message from a subscription: rmw_take.c, and `rmw_zenoh_pico_deserialize_topic_msg` of
-- zenoh_pico_rosMessage.c. A handle's pointers are optional values; `none` is NULL. What a failed
-- `cdr_deserialize` leaves in the caller's message is not modelled.
pub mod One
pub mod Sequence
mod Tests
use rmw_zenoh_pico.Prelude.{
  ℕ, zero, suc, ◌+◌, ◌<◌, ◌≤◌, Bool, true, false, not, Bytes, Option, none, some, List, [], ◌∷◌,
  ◌++◌, ◌==◌, if◌then◌else◌, length, take, drop, ltb, ◌⊎◌, inl, inr,
}
use rmw_zenoh_pico.Message.{ReceiveMessageData}
use rmw_zenoh_pico.Memory.{
  Ptr, null, Cell, Memory, Run, Cmd, pure, ok, fault, out_of_fuel, ◌>>=◌, ◌>>◌, load,
}
use rmw_zenoh_pico.MessageList.{
  ReceiveMessageDataList, recv_msg_list_pop, zenoh_pico_delete_recv_msg_data,
}
use rmw_zenoh_pico.Rmw.{
  RmwRet, ret_ok, ret_error, ret_invalid_argument, ret_incorrect_rmw_implementation,
  identifier_matches, require, present,
}
use rmw_zenoh_pico.Serialize.{MessageTypeSupport, rmw_zenoh_pico_deserialize}

-- The fields of `rmw_message_info_t` that the source sets; `publisher_gid` is the array `data`.
pub record RmwMessageInfo : Type 0 where
  pub source_timestamp : ℕ
  pub received_timestamp : ℕ
  pub publication_sequence_number : ℕ
  pub reception_sequence_number : ℕ
  pub publisher_gid : Bytes
  pub from_intra_process : Bool

-- `memcpy` of the gid into an array, at most as many bytes as the array has.
unfoldable pub copy_gid : (array gid : Bytes) → Bytes
copy_gid array gid =
    if ltb (length array) (length gid)
    then take (length array) gid
    else (gid ++ drop (length gid) array)

unfoldable pub fill_message_info : ReceiveMessageData → RmwMessageInfo → RmwMessageInfo
unfolding copy_gid
fill_message_info m info = record {
  source_timestamp = m.attachment.timestamp;
  received_timestamp = m.recv_timestamp;
  publication_sequence_number = m.attachment.sequence_num;
  reception_sequence_number = m.sequence_num;
  publisher_gid = copy_gid info.publisher_gid m.attachment.gid;
  from_intra_process = false;
}

-- What a take function gives its caller: the queue that it leaves, its code, and the message with the
-- message info, if the caller wants one. `*taken` is whether there is a message.
pub record Taken (RosMessage : Type 0) : Type 0 where
  pub queue : ReceiveMessageDataList
  pub ret : RmwRet
  pub message : Option (RosMessage × Option RmwMessageInfo)

-- What a sequence gives: the messages in the order in which they were taken.
pub record TakenSequence (RosMessage : Type 0) : Type 0 where
  pub queue : ReceiveMessageDataList
  pub ret : RmwRet
  pub messages : List (RosMessage × Option RmwMessageInfo)

-- `rmw_subscription_t`, with the queue of its `ZenohPicoSubData`.
pub record RmwSubscription : Type 0 where
  pub implementation_identifier : Option Bytes
  pub topic_name : Option Bytes
  pub message_queue : Option ReceiveMessageDataList

module _ {RosMessage : Type 0} (callbacks : MessageTypeSupport RosMessage) where
  unfoldable pub rmw_zenoh_pico_deserialize_topic_msg :
      ReceiveMessageData → Option RmwMessageInfo → Option (RosMessage × Option RmwMessageInfo)
  unfolding fill_message_info
  rmw_zenoh_pico_deserialize_topic_msg m message_info =
      elim (rmw_zenoh_pico_deserialize callbacks m.payload_start m.payload_size) [
        | none ↦ none
        | some ros_message ↦ some (
          ros_message,
          elim message_info [ none ↦ none | some info ↦ some (fill_message_info m info) ],
        )
      ]

  abbrev hand_out :
      ReceiveMessageDataList
      → Ptr
      → Option (RosMessage × Option RmwMessageInfo)
      → Cmd (Taken RosMessage)
  hand_out l msg_data none = pure (record { queue = l; ret = ret_error; message = none })
  hand_out l msg_data (some m) = do
    zenoh_pico_delete_recv_msg_data msg_data
    pure (record { queue = l; ret = ret_ok; message = some m })

  unfoldable pub rmw_zenoh_pico_take_one :
      ReceiveMessageDataList → Option RmwMessageInfo → Cmd (Taken RosMessage)
  rmw_zenoh_pico_take_one l message_info = do
    (l', msg_data) ← recv_msg_list_pop l
    if msg_data == null then pure (record { queue = l'; ret = ret_error; message = none }) else do
      c ← load msg_data
      hand_out l' msg_data (rmw_zenoh_pico_deserialize_topic_msg c.msg message_info)

  -- The two `break`s of a round of `rmw_take_sequence`: a code that is not RMW_RET_OK, and no message.
  abbrev take_rest :
      RmwRet
      → Option (RosMessage × Option RmwMessageInfo)
      → Cmd (TakenSequence RosMessage)
      → TakenSequence RosMessage
      → Cmd (TakenSequence RosMessage)
  take_rest ret_ok none more stop = pure stop
  take_rest ret_ok (some m) more stop = do
    rest ← more
    pure (record rest { messages = m ∷ rest.messages })
  take_rest ret message more stop = pure stop

  -- The checks of `rmw_take` and `rmw_take_with_info`, in their order.
  abbrev pub take_checks : Option RmwSubscription → (arguments : Bool) → Option RmwRet
  take_checks none arguments = some ret_invalid_argument
  take_checks (some sub) arguments = require (present sub.topic_name) ret_error (
      require (present sub.message_queue) ret_error (
        require arguments ret_invalid_argument (
          require (identifier_matches sub.implementation_identifier)
            ret_incorrect_rmw_implementation none)))

  -- After the checks, `sub_data` is tested once more.
  abbrev with_sub_data :
      {A : Type 0} → Option RmwSubscription → (ReceiveMessageDataList → Cmd A) → Cmd (RmwRet ⊎ A)
  with_sub_data none k = pure (inl ret_invalid_argument)
  with_sub_data (some sub) k = elim sub.message_queue [
    | none ↦ pure (inl ret_invalid_argument)
    | some l ↦ do a ← k l; pure (inr a)
  ]

  -- `rmw_take`: the caller's message and `taken` must not be NULL. `inl` is the code of a failed check.
  unfoldable pub rmw_take :
      Option RmwSubscription → (arguments : Bool) → Cmd (RmwRet ⊎ Taken RosMessage)
  unfolding rmw_zenoh_pico_take_one
  rmw_take subscription arguments = elim (take_checks subscription arguments) [
    | some code ↦ pure (inl code)
    | none ↦ with_sub_data subscription (λ l. rmw_zenoh_pico_take_one l none)
  ]

  unfoldable pub rmw_take_with_info :
      Option RmwSubscription → (arguments : Bool) → RmwMessageInfo → Cmd (RmwRet ⊎ Taken RosMessage)
  unfolding rmw_zenoh_pico_take_one
  rmw_take_with_info subscription arguments message_info =
      elim (take_checks subscription arguments) [
        | some code ↦ pure (inl code)
        | none ↦ with_sub_data subscription (λ l. rmw_zenoh_pico_take_one l (some message_info))
      ]

  -- The loop of `rmw_take_sequence`: `room` is `count - *taken`, `infos` the array of message infos
  -- from `*taken` on, and `ret` the code so far, which is the one of the last round.
  unfoldable pub take_loop :
      (room : ℕ)
      → (infos : ℕ → RmwMessageInfo) → ReceiveMessageDataList
      → RmwRet
      → Cmd (TakenSequence RosMessage)
  take_loop zero infos l ret = pure (record { queue = l; ret = ret; messages = [] })
  take_loop (suc room) infos l ret = do
    one ← rmw_zenoh_pico_take_one l (some (infos 0))
    take_rest one.ret one.message (take_loop room (λ i. infos (suc i)) one.queue one.ret)
        (record { queue = one.queue; ret = one.ret; messages = [] })

  abbrev sequence_checks : (count capacity info_capacity : ℕ) → Option RmwRet
  sequence_checks count capacity info_capacity = require (not (count == 0)) ret_invalid_argument (
      require (not (ltb capacity count)) ret_invalid_argument (
        require (not (ltb info_capacity count)) ret_invalid_argument
          (require (not (ltb 4294967295 count)) ret_error none)))

  unfoldable pub rmw_take_sequence :
      Option RmwSubscription
      → (arguments : Bool) → (count capacity info_capacity : ℕ) → (infos : ℕ → RmwMessageInfo)
      → Cmd (RmwRet ⊎ TakenSequence RosMessage)
  unfolding take_loop
  rmw_take_sequence subscription arguments count capacity info_capacity infos =
      elim (take_checks subscription arguments) [
        | some code ↦ pure (inl code)
        | none ↦ elim (sequence_checks count capacity info_capacity) [
          | some code ↦ pure (inl code)
          | none ↦ with_sub_data subscription (λ l. take_loop count infos l ret_error)
        ]
      ]
