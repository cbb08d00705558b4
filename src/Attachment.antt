-- ===== src/Attachment.antt =====
-- The attachment of a message: zenoh_pico_attach.c. The serializer of zenoh-pico is a parameter,
-- with its documented behaviour: what it has written for a value it reads back.
pub mod RoundTrip
pub mod Clock
mod Tests
use rmw_zenoh_pico.Prelude.{
  ℕ, suc, ◌+◌, ◌*◌, ◌%◌, ◌^◌, ◌≡◌, Bool, true, false, Bytes, Option, none, some, [], ◌++◌,
}
use rmw_zenoh_pico.Message.{ZenohPicoAttachemtData}

-- `ze_serializer_serialize_*` gives the bytes that it appends, and `ze_deserializer_deserialize_*` the
-- value and what is left to read; `none` is an error code.
pub record ZeSerializer : Type 0 where
  pub serialize_int64 : ℕ → Option Bytes
  pub serialize_slice : Bytes → Option Bytes
  pub deserialize_int64 : Bytes → Option (ℕ × Bytes)
  pub deserialize_slice : Bytes → Option (Bytes × Bytes)

pub record ReadsBack (ze : ZeSerializer) : Type 0 where
  pub int64 :
      (n : ℕ) (b rest : Bytes)
      → ze.serialize_int64 n ≡ some b
      → ze.deserialize_int64 (b ++ rest) ≡ some (n, rest)
  pub slice :
      (g b rest : Bytes)
      → ze.serialize_slice g ≡ some b
      → ze.deserialize_slice (b ++ rest) ≡ some (g, rest)

-- `uint64_t` arithmetic on what `clock_gettime` filled in.
unfoldable pub zenoh_pico_gen_timestamp : (tv_sec tv_nsec : ℕ) → ℕ
zenoh_pico_gen_timestamp tv_sec tv_nsec = ((tv_sec * 1000000000) % 2 ^ 64 + tv_nsec) % 2 ^ 64

-- `data->sequence_num ++`: the data with the next number, and the number before.
unfoldable pub attachment_sequence_num_inc : ZenohPicoAttachemtData → ZenohPicoAttachemtData × ℕ
attachment_sequence_num_inc d = (record d { sequence_num = suc d.sequence_num }, d.sequence_num)

module _ (ze : ZeSerializer) where
  -- The fields are written as they are read; a `false` is an error code.
  unfoldable pub attachment_data_get :
      Bytes → ZenohPicoAttachemtData → ZenohPicoAttachemtData × Bool
  attachment_data_get attachment d = elim (ze.deserialize_int64 attachment) [
    | none ↦ (d, false)
    | some (n, rest) ↦
        let d1 = record d { sequence_num = n } in
        elim (ze.deserialize_int64 rest) [
          | none ↦ (d1, false)
          | some (t, rest2) ↦
              let d2 = record d1 { timestamp = t; gid = [] } in
              elim (ze.deserialize_slice rest2) [
                | none ↦ (d2, false)
                | some (g, rest3) ↦ (record d2 { gid = g }, true)
              ]
        ]
  ]

  serialize_fields : ZenohPicoAttachemtData → Option Bytes
  serialize_fields d = elim (ze.serialize_int64 d.sequence_num) [
    | none ↦ none
    | some a ↦ elim (ze.serialize_int64 d.timestamp) [
      | none ↦ none
      | some b ↦ elim (ze.serialize_slice d.gid) [ none ↦ none | some c ↦ some (a ++ (b ++ c)) ]
    ]
  ]

  -- The timestamp of the data is set also when the serializer then fails.
  unfoldable pub attachment_gen :
      (now : ℕ) → ZenohPicoAttachemtData → ZenohPicoAttachemtData × Option Bytes
  unfolding serialize_fields
  attachment_gen now d = let d1 = record d { timestamp = now } in (d1, serialize_fields d1)
