-- ===== src/Take/Tests.antt =====
-- The theorems on taking, applied to the queue of two messages.
use rmw_zenoh_pico.Prelude.{
  ℕ, ◌≡◌, refl, true, none, some, [], ◌∷◌, codes, replicate, take, drop, ltb, length, inr,
  if◌then◌else◌,
}
use rmw_zenoh_pico.Message.{ReceiveMessageData}
use rmw_zenoh_pico.Memory.{Ptr, Holds}
use rmw_zenoh_pico.MessageList.Chain.{IsQueue, cell_of, has}
use rmw_zenoh_pico.MessageList.Ends.{Ensures, SameOutside}
use rmw_zenoh_pico.MessageList.Drain.{owned_by_all}
use rmw_zenoh_pico.Rmw.{ret_ok, ret_error, identifier_matches}
use rmw_zenoh_pico.Serialize.{MessageTypeSupport, rmw_zenoh_pico_deserialize}
use rmw_zenoh_pico.Take.{
  RmwMessageInfo, RmwSubscription, TakenSequence, rmw_zenoh_pico_deserialize_topic_msg,
  rmw_zenoh_pico_take_one, rmw_take_sequence, take_checks,
}
use rmw_zenoh_pico.Take.One.{take_one_unreadable}
use rmw_zenoh_pico.Take.Sequence.{in_order, take_sequence-in_order}
use rmw_zenoh_pico.Fixtures.{message, two, memory, queue_of_two, queue_of_two-IsQueue, byte}

abbrev blank : RmwMessageInfo
blank = record {
  source_timestamp = 0;
  received_timestamp = 0;
  publication_sequence_number = 0;
  reception_sequence_number = 0;
  publisher_gid = replicate 16 0;
  from_intra_process = true;
}

-- A message type that reads nothing.
abbrev unreadable : MessageTypeSupport ℕ
unreadable = record {
  get_serialized_size = λ m. 1;
  cdr_serialize = λ m b. (b, true);
  cdr_deserialize = λ b n. none;
}

abbrev subscription : RmwSubscription
subscription = record {
  implementation_identifier = none;
  topic_name = some (codes "/t");
  message_queue = some queue_of_two;
}

abbrev number_in : ReceiveMessageData → ℕ
number_in m = m.query_rc

first_reads : rmw_zenoh_pico_deserialize_topic_msg byte (message 1) none ≡ some (1, none)
unfolding rmw_zenoh_pico_deserialize_topic_msg rmw_zenoh_pico_deserialize
first_reads = refl

first_fails : rmw_zenoh_pico_deserialize_topic_msg unreadable (message 1) none ≡ none
unfolding rmw_zenoh_pico_deserialize_topic_msg rmw_zenoh_pico_deserialize
first_fails = refl

both_read :
    (rmw_zenoh_pico_deserialize byte (message 1).payload_start 5 ≡ some 1)
    × (rmw_zenoh_pico_deserialize byte (message 2).payload_start 5 ≡ some 2)
unfolding rmw_zenoh_pico_deserialize
both_read = (refl, refl)

checked : take_checks byte (some subscription) true ≡ none
unfolding identifier_matches
checked = refl

take_one_unreadable_example :
    Ensures
      (λ t s'.
        (t.ret ≡ ret_error)
        × (t.message ≡ none)
        × IsQueue s' t.queue ((16, message 2) ∷ [])
        × Holds s' 8 (cell_of 0 (message 1))
        × SameOutside ((8, message 1) ∷ []) memory s')
      (rmw_zenoh_pico_take_one unreadable queue_of_two none memory)
take_one_unreadable_example =
    take_one_unreadable unreadable memory queue_of_two 8 (message 1) ((16, message 2) ∷ []) none
      queue_of_two-IsQueue first_fails

take_sequence-in_order_example :
    Ensures
      (λ result s'.
        (t : TakenSequence ℕ) × (result ≡ inr t)
        × (t.messages ≡ in_order byte number_in (λ i. blank) (take 1 two))
        × IsQueue s' t.queue (drop 1 two)
        × (t.ret ≡ (if ltb (length two) 1 then ret_error else ret_ok))
        × ((a : Ptr) → s'.cell a ≡ (if has a (take 1 two) then none else memory.cell a))
        × (s'.released ≡ owned_by_all (take 1 two) memory.released))
      (rmw_take_sequence byte (some subscription) true 1 4 4 (λ i. blank) memory)
take_sequence-in_order_example =
    take_sequence-in_order byte number_in subscription 1 4 4 (λ i. blank) memory queue_of_two two
      checked refl refl refl queue_of_two-IsQueue (refl, (refl, tt))
      (both_read.0, (both_read.1, tt))
