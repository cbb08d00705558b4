-- ===== src/TopicKey.antt =====
-- src/zenoh_pico/zenoh_pico_topicInfo.c: the key under which a topic's messages travel, and topic infos.
pub mod Fits
pub mod Faults
pub mod Distinct
mod Tests
use rmw_zenoh_pico.Prelude.{
  ℕ, ◌+◌, ◌-◌, ◌≡◌, refl, Bytes, Bool, true, false, Option, none, some, [], ◌∷◌, ◌++◌, codes, ◌==◌,
  if◌then◌else◌, length, replicate, pos,
}
use rmw_zenoh_pico.Text.{c_string}
use rmw_zenoh_pico.Entity.{ZenohPicoTopicInfo}
use rmw_zenoh_pico.Liveliness.{Cursor, print, ◌⟫◌, skip, max_lineness_len}
use rmw_zenoh_pico.Conversion.{RmwQosProfile, qos_to_keyexpr, test_qos_profile}

-- `*data == '/'`, `len - 1` bytes at `data + 1`, and `*(data + len - 1) == '/'`
unfoldable pub strip_slash : Bytes → Bytes
strip_slash [] = []
strip_slash (c ∷ data') = if c == b'/' then data' else c ∷ data'

unfoldable pub ends_with_slash : Bytes → Bool
ends_with_slash [] = false
ends_with_slash (c ∷ []) = c == b'/'
ends_with_slash (c ∷ d ∷ s) = ends_with_slash (d ∷ s)

-- `%.*s` prints at most the given length, and stops at a zero byte.
unfoldable pub name_part : Bytes → Cursor → Option Cursor
unfolding strip_slash ends_with_slash
name_part [] = skip
name_part (c ∷ s) =
    print (c_string (strip_slash (c ∷ s)))
    ⟫ (if ends_with_slash (c ∷ s) then skip else print (codes "/"))

abbrev pub key_start : Cursor
key_start = record {
  buf = replicate max_lineness_len 0;
  buf_ptr = 0;
  left_size = pos max_lineness_len;
}

-- `none` is a write past the end of the buffer: nothing tests `left_size`.
unfoldable pub ros_topic_name_to_zenoh_key : Bytes → Bytes → Bytes → Bytes → Option Bytes
unfolding name_part
ros_topic_name_to_zenoh_key domain name type hash =
    elim ((print (c_string domain ++ codes "/")
        ⟫ name_part name
        ⟫ print (c_string type ++ (codes "/" ++ c_string hash)))
      key_start) [ none ↦ none | some c ↦ some (c_string c.buf) ]

-- The strings of a new topic info, or NULL where its memory cannot be had.
unfoldable pub zenoh_pico_generate_topic_info :
    Bool → Bytes → Option RmwQosProfile → Bytes → Bytes → Option ZenohPicoTopicInfo
zenoh_pico_generate_topic_info false name' qos' type' hash' = none
zenoh_pico_generate_topic_info true name' qos' type' hash' =
    elim (qos_to_keyexpr (some test_qos_profile)) [
      | none ↦ none
      | some q ↦ some (record { name = c_string name'; type = type'; hash = hash'; qos = q })
    ]
