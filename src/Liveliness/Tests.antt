-- ===== src/Liveliness/Tests.antt =====
-- The theorems on liveliness keys, applied to a publisher.
use rmw_zenoh_pico.Prelude.{◌≡◌, refl, Bytes, some, codes, take, arith}
use rmw_zenoh_pico.Text.{digits, decimal}
use rmw_zenoh_pico.Entity.{ZenohPicoEntity, ZenohPicoNodeInfo, ZenohPicoTopicInfo, publisher}
use rmw_zenoh_pico.Liveliness.{generate_liveliness, conv_entity_type, mangle_name, demangle_name}
use rmw_zenoh_pico.Liveliness.Key.{liveliness_key, fields, each, generate_liveliness-key}
use rmw_zenoh_pico.Liveliness.Parts.{split, liveliness-split}

abbrev node_info : ZenohPicoNodeInfo
node_info = record {
  domain = codes "7";
  ns = codes "/";
  name = codes "talker";
  enclave = codes "/";
}

abbrev topic_info : ZenohPicoTopicInfo
topic_info = record {
  name = codes "/chatter";
  type = codes "std_msgs::msg::dds_::String_";
  hash = codes "RIHS01_0a";
  qos = codes ":2:,10:,:,:,,";
}

abbrev talker : ZenohPicoEntity
talker = record {
  zid = codes "ab12";
  id = 10;
  nid = 3;
  type = publisher;
  node_info = some node_info;
  topic_info = some topic_info;
}

abbrev key : Bytes
key =
    codes
      "@ros2_lv/7/ab12/3/10/MP/%/%/talker/%chatter/std_msgs::msg::dds_::String_/RIHS01_0a/:2:,10:,:,:,,"

key_text : liveliness_key talker ≡ key
unfolding conv_entity_type mangle_name decimal digits
key_text = refl

generate_liveliness-key_example :
    generate_liveliness talker ≡ some (take 254 (liveliness_key talker))
generate_liveliness-key_example = generate_liveliness-key talker

liveliness-split_example :
    (k : Bytes) × (generate_liveliness talker ≡ some k)
    × (each demangle_name (split k) ≡ fields talker (some node_info))
unfolding conv_entity_type mangle_name decimal digits
liveliness-split_example = liveliness-split talker node_info refl (ground arith) (omega arith)
