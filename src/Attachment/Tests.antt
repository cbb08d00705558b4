-- ===== src/Attachment/Tests.antt =====
-- The bytes of an attachment, tested with a serializer that writes numbers as they are.
use rmw_zenoh_pico.Prelude.{◌≡◌, refl, [], ◌∷◌, some}
use rmw_zenoh_pico.Message.{ZenohPicoAttachemtData}
use rmw_zenoh_pico.Attachment.{attachment_gen}
use rmw_zenoh_pico.Fixtures.{ze}

abbrev sent : ZenohPicoAttachemtData
sent = record { sequence_num = 5; timestamp = 0; gid = 3 ∷ 4 ∷ [] }

generated : (attachment_gen ze 70 sent).1 ≡ some (5 ∷ 70 ∷ 2 ∷ 3 ∷ 4 ∷ [])
unfolding attachment_gen
generated = refl
