-- ===== src/Conversion/Tests.antt =====
-- The theorems on hashes, type names and QoS profiles, applied to concrete ones.
use rmw_zenoh_pico.Prelude.{
  ◌≡◌, refl, Bytes, some, [], ◌∷◌, ◌++◌, codes, length, drop, replicate, arith,
}
use rmw_zenoh_pico.Text.{digits, decimal}
use rmw_zenoh_pico.Conversion.{
  type_name, err_generic, convert_hash, convert_message_type, convert_client_type, qos_to_keyexpr,
  test_qos_profile,
}
use rmw_zenoh_pico.Conversion.Hash.{read_hex, convert_hash-reads}
use rmw_zenoh_pico.Conversion.Names.{convert_client_type-base}
use rmw_zenoh_pico.Conversion.Qos.{qos_text, qos_to_keyexpr-text}

abbrev hash : Bytes
hash = 0 ∷ 171 ∷ 255 ∷ replicate 29 16

convert_hash-reads_example :
    (text : Bytes) × (convert_hash hash ≡ some text)
    × (length text ≡ 71)
    × (read_hex (drop 7 text) ≡ hash)
convert_hash-reads_example = convert_hash-reads hash refl (omega arith)

convert_client_type-base_example :
    (convert_client_type (codes "srv") (codes "Add" ++ (codes "_Request" ++ []))
      ≡ convert_message_type (codes "srv") (some (codes "Add")))
    × (convert_message_type (codes "srv") (some (codes "Add"))
        ≡ type_name (codes "srv" ++ (codes "::dds_::" ++ (codes "Add" ++ codes "_"))))
    × (convert_client_type (codes "srv") (codes "Add") ≡ err_generic)
convert_client_type-base_example =
    convert_client_type-base (codes "srv") (codes "Add") [] (refl, (refl, (refl, tt))) (omega arith)

qos_to_keyexpr-text_example :
    qos_to_keyexpr (some test_qos_profile) ≡ some (qos_text test_qos_profile)
unfolding decimal digits
qos_to_keyexpr-text_example = qos_to_keyexpr-text test_qos_profile (omega arith)
