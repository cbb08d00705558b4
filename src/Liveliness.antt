-- ===== src/Liveliness.antt =====
-- src/zenoh_pico/zenoh_pico_liveliness.c: the liveliness key of an entity, printed into a buffer of
-- RMW_ZENOH_PICO_MAX_LINENESS_LEN bytes.
pub mod Printed
pub mod Key
pub mod Parts
mod Tests
use rmw_zenoh_pico.Prelude.{
  ℕ, ◌+◌, ◌-◌, ◌≡◌, refl, Bytes, Option, none, some, [], ◌∷◌, codes, ◌==◌, if◌then◌else◌, length,
  take, replicate, ℤ, pos, is_positive, sub_nat,
}
use rmw_zenoh_pico.Text.{c_string, int_of, decimal, snprintf, size_of}
use rmw_zenoh_pico.Entity.{
  ZenohPicoEntityType, node, publisher, subscription, service, client, ZenohPicoNodeInfo,
  ZenohPicoTopicInfo, ZenohPicoEntity,
}

unfoldable pub conv_entity_type : ZenohPicoEntityType → Bytes
conv_entity_type node = codes "NN"
conv_entity_type publisher = codes "MP"
conv_entity_type subscription = codes "MS"
conv_entity_type service = codes "SS"
conv_entity_type client = codes "SC"

-- One byte of the loops of the two functions below.
abbrev pub mangled : ℕ → ℕ
mangled c = if c == b'/' then b'%' else c

abbrev pub demangled : ℕ → ℕ
demangled c = if c == b'%' then b'/' else c

unfoldable pub mangle_name : Bytes → Bytes
mangle_name [] = []
mangle_name (c ∷ buf) = mangled c ∷ mangle_name buf

unfoldable pub demangle_name : Bytes → Bytes
demangle_name [] = []
demangle_name (c ∷ buf) = demangled c ∷ demangle_name buf

-- The buffer, and the variables `buf_ptr` (as an offset) and `left_size` of the printing functions.
pub record Cursor : Type 0 where
  pub buf : Bytes
  pub buf_ptr : ℕ
  pub left_size : ℤ

-- `ret = snprintf(*buf, *left, ...); *buf += ret; *left -= ret;`
unfoldable pub print : Bytes → Cursor → Option Cursor
print t c = elim (snprintf c.buf_ptr (size_of c.left_size) t c.buf) [
  | none ↦ none
  | some b ↦ some (record {
    buf = b;
    buf_ptr = c.buf_ptr + length t;
    left_size = sub_nat c.left_size (length t);
  })
]

abbrev pub string_max_len : ℕ
string_max_len = 128

unfoldable pub add_int_value : ℕ → Cursor → Option Cursor
add_int_value value c = if is_positive c.left_size then print (decimal (int_of value)) c else some c

-- The worker buffer keeps the first 127 bytes.
unfoldable pub add_string_value : Bytes → Cursor → Option Cursor
add_string_value value c =
    let worker = mangle_name (take (string_max_len - 1) (c_string value)) in
    if is_positive c.left_size then print worker c else some c

unfoldable pub add_loan_string_value : Bytes → Cursor → Option Cursor
add_loan_string_value value c =
    let worker = mangle_name (take (string_max_len - 1) value) in
    if is_positive c.left_size then print (c_string worker) c else some c

unfoldable pub add_delimiter : Cursor → Option Cursor
add_delimiter c = if is_positive c.left_size then print (codes "/") c else some c

-- One statement after the other.
infixr 5 ◌⟫◌
abbrev pub ◌⟫◌ : (Cursor → Option Cursor) → (Cursor → Option Cursor) → Cursor → Option Cursor
(f ⟫ g) c = elim (f c) [ none ↦ none | some c' ↦ g c' ]

abbrev pub skip : Cursor → Option Cursor
skip c = some c

unfoldable pub topic_part : Option ZenohPicoTopicInfo → Cursor → Option Cursor
topic_part none = skip
topic_part (some t) =
    add_delimiter
    ⟫ add_loan_string_value t.name
    ⟫ add_delimiter
    ⟫ add_loan_string_value t.type
    ⟫ add_delimiter
    ⟫ add_loan_string_value t.hash
    ⟫ add_delimiter
    ⟫ add_loan_string_value t.qos
    ⟫ skip

unfoldable pub node_part : ZenohPicoEntity → Option ZenohPicoNodeInfo → Cursor → Option Cursor
node_part e none = skip
node_part e (some n) =
    add_string_value (codes "@ros2_lv")
    ⟫ add_delimiter
    ⟫ add_loan_string_value n.domain
    ⟫ add_delimiter
    ⟫ add_loan_string_value e.zid
    ⟫ add_delimiter
    ⟫ add_int_value e.nid
    ⟫ add_delimiter
    ⟫ add_int_value e.id
    ⟫ add_delimiter
    ⟫ add_string_value (conv_entity_type e.type)
    ⟫ add_delimiter
    ⟫ add_loan_string_value n.enclave
    ⟫ add_delimiter
    ⟫ add_loan_string_value n.ns
    ⟫ add_delimiter
    ⟫ add_loan_string_value n.name
    ⟫ topic_part e.topic_info

-- RMW_ZENOH_PICO_MAX_LINENESS_LEN, as the build sets it.
abbrev pub max_lineness_len : ℕ
max_lineness_len = 256

-- The buffer as the function starts with it; a fault of a write past its end is `none`.
unfoldable pub start : ℕ → Cursor
start size = record { buf = replicate size 0; buf_ptr = 0; left_size = pos (size - 1) }

unfoldable pub generate_liveliness : ZenohPicoEntity → Option Bytes
unfolding start
generate_liveliness e = elim (node_part e e.node_info (start max_lineness_len)) [
  | none ↦ none
  | some c ↦ some (c_string c.buf)
]
