-- ===== src/Fixtures.antt =====
-- Concrete messages, a memory with a queue of two, a serializer and a message type, on which the
-- theorems are applied.
use rmw_zenoh_pico.Prelude.{
  ℕ, ◌≡◌, refl, subst, true, Bytes, Option, none, some, [], ◌∷◌, ◌++◌, ◌==◌, if◌then◌else◌, length,
  take, drop, pos, arith, take-append_of_le, take-eq_self, drop-append,
}
use rmw_zenoh_pico.Message.{ReceiveMessageData, query}
use rmw_zenoh_pico.Memory.{Ptr, Cell, Memory, Holds}
use rmw_zenoh_pico.MessageList.{ReceiveMessageDataList}
use rmw_zenoh_pico.MessageList.Chain.{Messages, cell_of, IsQueue}
use rmw_zenoh_pico.Attachment.{ZeSerializer, ReadsBack}
use rmw_zenoh_pico.Serialize.{MessageTypeSupport}
use rmw_zenoh_pico.Serialize.RoundTrip.{IsCdr}

abbrev pub message : (number : ℕ) → ReceiveMessageData
message number = record {
  ref = pos 1;
  payload_start = some (0 ∷ 1 ∷ 0 ∷ 0 ∷ number ∷ []);
  payload_size = 5;
  recv_timestamp = 90;
  sequence_num = 0;
  attachment = record { sequence_num = number; timestamp = 80; gid = 3 ∷ 4 ∷ [] };
  message_type = query;
  query_rc = number;
  keyexpr = [];
}

abbrev pub two : Messages
two = (8, message 1) ∷ (16, message 2) ∷ []

abbrev pub cells : Ptr → Option Cell
cells p =
    if p == 8
    then some (cell_of 16 (message 1))
    else if p == 16
    then some (cell_of 0 (message 2))
    else if p == 24
    then some (cell_of 0 (message 3))
    else none

abbrev pub memory : Memory
memory = record { cell = cells; released = [] }

abbrev pub queue_of_two : ReceiveMessageDataList
queue_of_two = record { que_top = 8; que_bottom = 16; count = pos 2 }

abbrev pub empty_queue : ReceiveMessageDataList
empty_queue = record { que_top = 0; que_bottom = 0; count = pos 0 }

pub queue_of_two-IsQueue : IsQueue memory queue_of_two two
queue_of_two-IsQueue = record {
  top = refl;
  bottom = refl;
  counted = refl;
  chain = (ground arith, refl, (ground arith, refl, tt));
  distinct = (refl, (refl, tt));
}

pub empty_queue-IsQueue : IsQueue memory empty_queue []
empty_queue-IsQueue = record {
  top = refl;
  bottom = refl;
  counted = refl;
  chain = tt;
  distinct = tt;
}

pub third-Holds : Holds memory 24 (cell_of 0 (message 3))
third-Holds = (ground arith, refl)

pub first-Holds : Holds memory 8 (cell_of 16 (message 1))
first-Holds = (ground arith, refl)

-- A serializer: a number is one entry, a slice its length and then its bytes.
abbrev pub number_of : Bytes → Option (ℕ × Bytes)
number_of [] = none
number_of (n ∷ rest) = some (n, rest)

abbrev pub slice_of : Bytes → Option (Bytes × Bytes)
slice_of [] = none
slice_of (n ∷ rest) = some (take n rest, drop n rest)

abbrev pub ze : ZeSerializer
ze = record {
  serialize_int64 = λ n. some (n ∷ []);
  serialize_slice = λ g. some (length g ∷ g);
  deserialize_int64 = number_of;
  deserialize_slice = slice_of;
}

slice-append : (g rest : Bytes) → slice_of ((length g ∷ g) ++ rest) ≡ some (g, rest)
slice-append g rest =
    rw
      (
        take-append_of_le (length g) g rest (omega arith),
        take-eq_self (length g) g (omega arith),
        drop-append g rest,
      )
      refl

pub ze-ReadsBack : ReadsBack ze
ze-ReadsBack = record {
  int64 = λ n b rest e.
      let same : n ∷ [] ≡ b = ground (arith, e) in
      subst (λ x. number_of (x ++ rest) ≡ some (n, rest)) same refl;
  slice = λ g b rest e.
      let same : length g ∷ g ≡ b = ground (arith, e) in
      subst (λ x. slice_of (x ++ rest) ≡ some (g, rest)) same (slice-append g rest);
}

-- A message type: one byte.
abbrev pub fill : ℕ → Bytes → Bytes
fill m [] = []
fill m (x ∷ b) = m ∷ b

abbrev pub byte_of : Bytes → ℕ → Option ℕ
byte_of [] size = none
byte_of (n ∷ rest) size = if size == 1 then some n else none

abbrev pub byte : MessageTypeSupport ℕ
byte = record {
  get_serialized_size = λ m. 1;
  cdr_serialize = λ m b. (fill m b, true);
  cdr_deserialize = byte_of;
}

fill-length : (m : ℕ) (b : Bytes) → length (fill m b) ≡ length b
fill-length m [] = refl
fill-length m (x ∷ b) = refl

fill-reads : (m : ℕ) (b : Bytes) → length b ≡ 1 → byte_of (fill m b) (length b) ≡ some m
fill-reads m [] one = ground (arith, one)
fill-reads m (x ∷ b) one = rw one refl

pub byte-IsCdr : IsCdr byte
byte-IsCdr = record { fills = λ m b e. fill-length m b; reads_back = fill-reads }
