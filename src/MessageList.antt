-- ===== src/MessageList.antt =====
-- The message queue of zenoh_pico_rosMessage.c: `ReceiveMessageDataList`, a singly linked list of
-- `ReceiveMessageData` structs with both ends and a count, and the reference count of a message
-- (the functions that zenoh_pico_data.c makes for it). Every caller passes the address of a field
-- of a live struct, so a list pointer is never NULL and its test is left out. `count` is an `int`
-- that counts structs in memory, so it cannot overflow.
pub mod Chain
pub mod Ends
pub mod Pickup
pub mod Refines
pub mod Destroy
pub mod Drain
mod Tests
use rmw_zenoh_pico.Prelude.{
  ℕ, zero, suc, ◌+◌, Bool, true, false, ◌&&◌, Option, none, some, List, [], ◌∷◌, ◌==◌,
  if◌then◌else◌, ℤ, pos, inc, dec, is_zero, is_positive,
}
use rmw_zenoh_pico.Message.{ReceiveMessageData, ZenohPicoMessageType, sample, query}
use rmw_zenoh_pico.Memory.{
  Ptr, null, Cell, Released, payload, gid, keyexpr, query_rc, Cmd, out_of_fuel, pure, ◌>>=◌, ◌>>◌,
  put, load, set_next, give_back,
}

pub record ReceiveMessageDataList : Type 0 where
  pub que_top : Ptr
  pub que_bottom : Ptr
  pub count : ℤ

unfoldable pub recv_msg_list_init : ReceiveMessageDataList
recv_msg_list_init = record { que_top = null; que_bottom = null; count = pos 0 }

-- A NULL message is refused; otherwise the message is linked behind the bottom.
unfoldable pub recv_msg_list_append :
    ReceiveMessageDataList → Ptr → Cmd (ReceiveMessageDataList × Ptr)
recv_msg_list_append l recv_data = if recv_data == null then pure (l, null) else do
  set_next recv_data null
  if l.que_bottom == null then pure tt else set_next l.que_bottom recv_data
  pure (
    record {
      que_top = if l.que_top == null then recv_data else l.que_top;
      que_bottom = recv_data;
      count = inc l.count;
    },
    recv_data,
  )

-- The top message leaves the list: the lines that pop and pickup share.
unfoldable pub unlink_top : ReceiveMessageDataList → Ptr → Cmd (ReceiveMessageDataList × Ptr)
unlink_top l next = do
  set_next l.que_top null
  pure (
    record {
      que_top = next;
      que_bottom = if l.que_bottom == l.que_top then null else l.que_bottom;
      count = dec l.count;
    },
    l.que_top,
  )

unfoldable pub recv_msg_list_pop : ReceiveMessageDataList → Cmd (ReceiveMessageDataList × Ptr)
unfolding unlink_top
recv_msg_list_pop l =
    if l.que_top == null
    then pure (l, null)
    else do top_msg ← load l.que_top; unlink_top l top_msg.next

-- The message at `current_msg` leaves the list from behind `before_msg`.
unfoldable pub unlink_after :
    ReceiveMessageDataList
    → (before_msg current_msg next : Ptr) → Cmd (ReceiveMessageDataList × Ptr)
unlink_after l before_msg current_msg next = do
  set_next before_msg next
  set_next current_msg null
  pure (
    record {
      que_top = l.que_top;
      que_bottom = if l.que_bottom == current_msg then before_msg else l.que_bottom;
      count = dec l.count;
    },
    current_msg,
  )

-- The `while` loop of `recv_msg_list_pickup`, over the variables that it changes.
unfoldable pub pickup_loop :
    ℕ
    → (ReceiveMessageData → Bool)
    → ReceiveMessageDataList
    → (before_msg current_msg : Ptr) → Cmd (ReceiveMessageDataList × Ptr)
unfolding unlink_after
pickup_loop zero func l before_msg current_msg = λ _. out_of_fuel
pickup_loop (suc fuel) func l before_msg current_msg = do
  c ← load current_msg
  if c.next == null then pure (l, null) else do
    n ← load c.next
    if func n.msg
        then unlink_after l before_msg c.next n.next
        else pickup_loop fuel func l c.next c.next

-- The callback `func` reads the message only. The loop gets `fuel` rounds.
unfoldable pub recv_msg_list_pickup :
    ℕ → ReceiveMessageDataList → (ReceiveMessageData → Bool) → Cmd (ReceiveMessageDataList × Ptr)
unfolding unlink_top pickup_loop
recv_msg_list_pickup fuel l func = if l.que_top == null then pure (l, null) else do
  c ← load l.que_top
  if func c.msg then unlink_top l c.next else pickup_loop fuel func l l.que_top l.que_top

unfoldable pub recv_msg_list_count : ReceiveMessageDataList → ℤ
recv_msg_list_count l = l.count

unfoldable pub recv_msg_list_empty : ReceiveMessageDataList → Bool
unfolding recv_msg_list_count
recv_msg_list_empty l = is_zero (recv_msg_list_count l)

-- `ReceiveMessageDataGenerate` over memory that `z_malloc` returned: zeroed, with one reference.
unfoldable pub receive_message_data_generate : ReceiveMessageData
receive_message_data_generate = record {
  ref = pos 1;
  payload_start = none;
  payload_size = 0;
  recv_timestamp = 0;
  sequence_num = 0;
  attachment = record { sequence_num = 0; timestamp = 0; gid = [] };
  message_type = sample;
  query_rc = 0;
  keyexpr = [];
}

unfoldable pub receive_message_data_ref_clone : Ptr → Cmd Ptr
receive_message_data_ref_clone p = do
  c ← load p
  let m = c.msg
  put p (some (record c { msg = record m { ref = inc m.ref } }))
  pure p

-- `ReceiveMessageDataRefDec`, and whether the count is now 0 (`ZenohPicoDataRelease`).
unfoldable pub receive_message_data_release : Ptr → Cmd Bool
receive_message_data_release p = do
  c ← load p
  let m = c.msg
  put p (some (record c { msg = record m { ref = dec m.ref } }))
  pure (is_zero (dec m.ref))

-- The struct is freed only when no reference is left.
unfoldable pub receive_message_data_destroy : Ptr → Cmd (Unit {0})
receive_message_data_destroy p = do c ← load p; if is_zero c.msg.ref then put p none else pure tt

unfoldable pub owned_query : ReceiveMessageData → List Released
owned_query m = elim m.message_type [
  | sample ↦ []
  | query ↦ keyexpr m.keyexpr ∷ query_rc m.query_rc ∷ []
]

-- What `zenoh_pico_delete_recv_msg_data` gives back before the struct itself.
unfoldable pub owned_by : ReceiveMessageData → List Released
unfolding owned_query
owned_by m =
    let rest = gid m.attachment.gid ∷ owned_query m in
    elim m.payload_start [ none ↦ rest | some b ↦ payload b ∷ rest ]

unfoldable pub delete_last : Ptr → Cmd (Unit {0})
unfolding receive_message_data_destroy owned_by
delete_last recv_data = do
  c ← load recv_data
  give_back (owned_by c.msg)
  receive_message_data_destroy recv_data

unfoldable pub zenoh_pico_delete_recv_msg_data : Ptr → Cmd Bool
unfolding receive_message_data_release delete_last
zenoh_pico_delete_recv_msg_data recv_data = if recv_data == null then pure false else do
  last ← receive_message_data_release recv_data
  if last then delete_last recv_data else pure tt
  pure true

-- The loop of `recv_msg_list_destroy`: it reads `next` from the struct that it has just deleted.
unfoldable pub destroy_loop : ℕ → Ptr → Cmd (Unit {0})
destroy_loop zero msg_data = λ _. out_of_fuel
destroy_loop (suc fuel) msg_data =
    if msg_data == null
    then pure tt
    else do zenoh_pico_delete_recv_msg_data msg_data; c ← load msg_data; destroy_loop fuel c.next

unfoldable pub recv_msg_list_destroy : ℕ → ReceiveMessageDataList → Cmd (Unit {0})
unfolding destroy_loop
recv_msg_list_destroy fuel l = destroy_loop fuel l.que_top
