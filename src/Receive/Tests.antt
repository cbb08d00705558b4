-- ===== src/Receive/Tests.antt =====
-- A sample without an attachment is received.
use rmw_zenoh_pico.Prelude.{◌≡◌, refl, true, false, Bytes, some, [], ◌∷◌, arith}
use rmw_zenoh_pico.Memory.{Cell, payload}
use rmw_zenoh_pico.MessageList.{receive_message_data_generate}
use rmw_zenoh_pico.MessageList.Ends.{Ensures}
use rmw_zenoh_pico.Attachment.{attachment_data_get}
use rmw_zenoh_pico.Receive.{ReceivedSample, rmw_zenoh_pico_generate_recv_sample_msg_data}
use rmw_zenoh_pico.Receive.Sent.{generate_recv_unreadable}
use rmw_zenoh_pico.Fixtures.{memory, ze}

abbrev arrived : (attachment : Bytes) → ReceivedSample
arrived attachment = record { payload = 0 ∷ 1 ∷ 0 ∷ 0 ∷ 9 ∷ []; attachment = attachment }

unreadable : (attachment_data_get ze [] receive_message_data_generate.attachment).1 ≡ false
unfolding attachment_data_get
unreadable = refl

generate_recv_unreadable_example :
    Ensures
      (λ q s'.
        (q ≡ 0)
        × ((c : Cell) × (s'.cell 32 ≡ some c))
        × (s'.released ≡ payload (0 ∷ 1 ∷ 0 ∷ 0 ∷ 9 ∷ []) ∷ []))
      (rmw_zenoh_pico_generate_recv_sample_msg_data ze 32 true (arrived []) 90 memory)
generate_recv_unreadable_example =
    generate_recv_unreadable ze memory 32 (arrived []) 90 (λ e. ground (arith, e)) unreadable
