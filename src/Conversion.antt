-- ===== src/Conversion.antt =====
-- The rest of src/zenoh_pico/zenoh_pico_liveliness.c: the texts of domains, type hashes, type names and
-- QoS profiles.
pub mod Hash
pub mod Names
pub mod Qos
mod Tests
use rmw_zenoh_pico.Prelude.{
  ℕ, zero, suc, ◌+◌, ◌-◌, ◌/◌, ◌%◌, ◌^◌, ◌≡◌, refl, Bytes, Bool, true, false, ◌&&◌, Option, none,
  some, [], ◌∷◌, ◌++◌, codes, ltb, leb, ◌==◌, if◌then◌else◌, length, take, replicate, ℤ, pos,
  is_zero,
}
use rmw_zenoh_pico.Text.{c_string, int_of, decimal, snprintf, overwrite}

unfoldable pub conv_domain : ℕ → Bytes
conv_domain d = take (16 - 1) (decimal (int_of d))

abbrev pub rihs_prefix_len : ℕ
rihs_prefix_len = 7

abbrev pub rihs01_string_len : ℕ
rihs01_string_len = 71

unfoldable pub hex_digit : ℕ → ℕ
hex_digit nibble = if ltb nibble 0xa then b'0' + nibble else b'a' + (nibble - 0xa)

-- The loop over the bytes of the hash, which writes two characters at `dest`.
unfoldable pub hash_loop : ℕ → Bytes → Bytes → Option Bytes
hash_loop dest [] hash_data = some hash_data
hash_loop dest (v ∷ vs) hash_data =
    elim (overwrite dest (hex_digit (v / 16 % 16) ∷ hex_digit (v % 16) ∷ []) hash_data) [
      | none ↦ none
      | some b ↦ hash_loop (dest + 2) vs b
    ]

unfoldable pub convert_hash : Bytes → Option Bytes
convert_hash value = elim (overwrite 0 (codes "RIHS01_") (replicate (rihs01_string_len + 1) 0)) [
  | none ↦ none
  | some b ↦ elim (hash_loop rihs_prefix_len value b) [ none ↦ none | some r ↦ some (c_string r) ]
]

-- What becomes of a type name: its text, an error, or a fault such as `%s` of NULL.
pub data Converted : Type 0 where
  type_name : Bytes → Converted
  err_generic : Converted
  fault : Converted

abbrev pub type_name_len : ℕ
type_name_len = 128

-- `_convert_message_type`
unfoldable pub convert_type : Bytes → Option Bytes → Converted
convert_type message_namespace (some message_name) = type_name (
    take (type_name_len - 1)
      (message_namespace ++ (codes "::dds_::" ++ (message_name ++ codes "_"))))
convert_type message_namespace none = fault

unfoldable pub convert_message_type : Bytes → Option Bytes → Converted
unfolding convert_type
convert_message_type message_namespace message_name = convert_type message_namespace message_name

abbrev pub starts_with : Bytes → Bytes → Bool
starts_with [] s = true
starts_with (x ∷ p) [] = false
starts_with (x ∷ p) (y ∷ s) = (x == y) && starts_with p s

-- What stands before the first occurrence of `p`, as `strstr` finds it.
unfoldable pub before : Bytes → Bytes → Option Bytes
before p [] = if starts_with p [] then some [] else none
before p (c ∷ s) =
    let rest = before p s in
    if starts_with p (c ∷ s) then some [] else elim rest [ none ↦ none | some t ↦ some (c ∷ t) ]

-- 128 bytes leave no zero byte in `service_type`, and more overflow it.
unfoldable pub convert_client_type : Bytes → Bytes → Converted
unfolding before convert_type
convert_client_type message_namespace message_name = elim (before (codes "_Request") message_name) [
  | none ↦ err_generic
  | some service_type ↦
      if leb 128 (length service_type)
      then fault
      else convert_type message_namespace (some service_type)
]

pub record RmwTime : Type 0 where
  pub sec : ℕ
  pub nsec : ℕ

pub record RmwQosProfile : Type 0 where
  pub reliability : ℕ
  pub durability : ℕ
  pub history : ℕ
  pub depth : ℕ
  pub deadline : RmwTime
  pub lifespan : RmwTime
  pub liveliness : ℕ
  pub liveliness_lease_duration : RmwTime

-- `left` is a `size_t`.
pub record QosCursor : Type 0 where
  pub buf : Bytes
  pub buf_ptr : ℕ
  pub left : ℕ

unfoldable pub qos_append_value : ℤ → QosCursor → Option QosCursor
qos_append_value value c =
    if c.left == 0
    then some c
    else if is_zero value
    then some c
    else elim (snprintf c.buf_ptr c.left (decimal value) c.buf) [
      | none ↦ none
      | some b ↦ some (record {
        buf = b;
        buf_ptr = c.buf_ptr + length (decimal value);
        left = (c.left + 2 ^ 64 - length (decimal value)) % 2 ^ 64;
      })
    ]

unfoldable pub qos_add_delimiter : ℕ → QosCursor → Option QosCursor
qos_add_delimiter delimiter c =
    if c.left == 0 then some c else elim (overwrite c.buf_ptr (delimiter ∷ []) c.buf) [
      | none ↦ none
      | some b ↦ some (record { buf = b; buf_ptr = c.buf_ptr + 1; left = c.left - 1 })
    ]

infixr 5 ◌then_qos◌
abbrev pub ◌then_qos◌ :
    (QosCursor → Option QosCursor) → (QosCursor → Option QosCursor) → QosCursor → Option QosCursor
(f then_qos g) c = elim (f c) [ none ↦ none | some c' ↦ g c' ]

unfoldable pub qos_part : RmwQosProfile → QosCursor → Option QosCursor
qos_part q =
    qos_append_value (int_of q.reliability)
    then_qos qos_add_delimiter b':'
    then_qos qos_append_value (int_of q.durability)
    then_qos qos_add_delimiter b':'
    then_qos qos_append_value (int_of q.history)
    then_qos qos_add_delimiter b','
    then_qos qos_append_value (int_of q.depth)
    then_qos qos_add_delimiter b':'
    then_qos qos_append_value (int_of q.deadline.sec)
    then_qos qos_add_delimiter b','
    then_qos qos_append_value (int_of q.deadline.nsec)
    then_qos qos_add_delimiter b':'
    then_qos qos_append_value (int_of q.lifespan.sec)
    then_qos qos_add_delimiter b','
    then_qos qos_append_value (int_of q.lifespan.nsec)
    then_qos qos_add_delimiter b':'
    then_qos qos_append_value (int_of q.liveliness)
    then_qos qos_add_delimiter b','
    then_qos qos_append_value (int_of q.liveliness_lease_duration.sec)
    then_qos qos_add_delimiter b','
    then_qos qos_append_value (int_of q.liveliness_lease_duration.nsec)

abbrev pub qos_start : QosCursor
qos_start = record { buf = replicate 64 0; buf_ptr = 0; left = 64 - 1 }

-- `none` for a NULL profile is the empty text; the outer `none` is a write past the end of the buffer.
unfoldable pub qos_to_keyexpr : Option RmwQosProfile → Option Bytes
qos_to_keyexpr none = some []
qos_to_keyexpr (some q) = elim (qos_part q qos_start) [
  | none ↦ none
  | some c ↦ some (c_string c.buf)
]

-- src/utilities/test_qos_profile.c
abbrev pub test_qos_profile : RmwQosProfile
test_qos_profile = record {
  reliability = 0;
  durability = 2;
  history = 0;
  depth = 10;
  deadline = record { sec = 0; nsec = 0 };
  lifespan = record { sec = 0; nsec = 0 };
  liveliness = 0;
  liveliness_lease_duration = record { sec = 0; nsec = 0 };
}
