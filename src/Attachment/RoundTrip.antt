-- ===== src/Attachment/RoundTrip.antt =====
-- An attachment that one side generates is read back by the other.
use rmw_zenoh_pico.Prelude.{
  ℕ, ◌≡◌, true, Bytes, some, [], ◌++◌, append-nil, arith, Option-cases, inl, inr,
}
use mathlib.Core.Path.{subst}
use rmw_zenoh_pico.Message.{ZenohPicoAttachemtData}
use rmw_zenoh_pico.Attachment.{ZeSerializer, ReadsBack, attachment_data_get, attachment_gen}

module _ (ze : ZeSerializer) (laws : ReadsBack ze) where
  -- Reading a generated attachment gives the sender's sequence number, the time of sending and the
  -- sender's gid, whatever the receiver's data held.
  pub get-gen :
      (now : ℕ) (d old : ZenohPicoAttachemtData) (attachment : Bytes)
      → (attachment_gen ze now d).1 ≡ some attachment
      → attachment_data_get ze attachment old
        ≡ (record { sequence_num = d.sequence_num; timestamp = now; gid = d.gid }, true)
  unfolding attachment_gen attachment_data_get
  get-gen now d old attachment h = elim (Option-cases (ze.serialize_int64 d.sequence_num)) [
    | inl e ↦ ground (arith, e, h)
    | inr (a, ea) ↦ elim (Option-cases (ze.serialize_int64 now)) [
      | inl e ↦ ground (arith, ea, e, h)
      | inr (b, eb) ↦ elim (Option-cases (ze.serialize_slice d.gid)) [
        | inl e ↦ ground (arith, ea, eb, e, h)
        | inr (c, ec) ↦
            let whole : a ++ (b ++ c) ≡ attachment = ground (arith, ea, eb, ec, h) in
            let l1 : ze.deserialize_int64 attachment ≡ some (d.sequence_num, b ++ c) =
              subst (λ x. ze.deserialize_int64 x ≡ some (d.sequence_num, b ++ c)) whole
                (laws.int64 d.sequence_num a (b ++ c) ea) in
            let l3 : ze.deserialize_slice c ≡ some (d.gid, []) =
              subst (λ x. ze.deserialize_slice x ≡ some (d.gid, [])) (append-nil c)
                (laws.slice d.gid c [] ec) in
            ground (arith, l1, laws.int64 now b c eb, l3)
      ]
    ]
  ]
