-- ===== src/Conversion/Names.antt =====
-- The type name of a service, from the name of its request type.
use rmw_zenoh_pico.Prelude.{
  ◌+◌, ◌≤◌, ◌≡◌, refl, ap, arith, Bytes, false, none, some, [], ◌∷◌, ◌++◌, codes, leb, ◌==◌, length,
  length-append, take-eq_self,
}
use rmw_zenoh_pico.Text.{Without}
use rmw_zenoh_pico.Conversion.{
  type_name, err_generic, before, convert_type, convert_message_type, convert_client_type,
}

before-suffix :
    (base rest : Bytes)
    → Without b'_' base
    → before (codes "_Request") (base ++ (codes "_Request" ++ rest)) ≡ some base
unfolding before
before-suffix [] rest p = refl
before-suffix (c ∷ base) rest (h, p) =
    let differs : (b'_' == c) ≡ false = ground arith in rw (differs, before-suffix base rest p) refl

before-Without : (s : Bytes) → Without b'_' s → before (codes "_Request") s ≡ none
unfolding before
before-Without [] p = refl
before-Without (c ∷ s) (h, p) =
    let differs : (b'_' == c) ≡ false = ground arith in rw (differs, before-Without s p) refl

-- For a service `base` without an underscore whose full type name has at most 127 characters,
-- `convert_client_type` makes of the name of its request type what `convert_message_type` makes of the
-- name of the service itself, untruncated; a name without an underscore is refused.
pub convert_client_type-base :
    (space base rest : Bytes)
    → Without b'_' base
    → length space + length base ≤ 118
    → (convert_client_type space (base ++ (codes "_Request" ++ rest))
        ≡ convert_message_type space (some base))
      × (convert_message_type space (some base)
          ≡ type_name (space ++ (codes "::dds_::" ++ (base ++ codes "_"))))
      × (convert_client_type space base ≡ err_generic)
unfolding convert_client_type convert_type convert_message_type
convert_client_type-base space base rest p fits =
    let t : Bytes = space ++ (codes "::dds_::" ++ (base ++ codes "_")) in
    let size : length t ≡ length space + (8 + (length base + 1)) =
      rw (length-append space, length-append base) (omega arith) in
    let short : leb 128 (length base) ≡ false = ground arith in
    (
      rw (convert_client_type, before-suffix base rest p, short) refl,
      ap type_name (take-eq_self 127 t (omega (arith, size))),
      rw (convert_client_type, before-Without base p) refl,
    )
