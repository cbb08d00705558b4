-- ===== src/MessageList/Tests.antt =====
-- The theorems on message lists, applied to the queue of two messages.
use rmw_zenoh_pico.Prelude.{◌≡◌, refl, Bool, List, [], ◌∷◌, ◌==◌, arith}
use rmw_zenoh_pico.Message.{ReceiveMessageData}
use rmw_zenoh_pico.Memory.{fault}
use rmw_zenoh_pico.MessageList.{recv_msg_list_destroy}
use rmw_zenoh_pico.MessageList.Chain.{IsQueue}
use rmw_zenoh_pico.MessageList.Ends.{Ensures}
use rmw_zenoh_pico.MessageList.Destroy.{destroy-use_after_free}
use rmw_zenoh_pico.MessageList.Drain.{discard_queue, Discarded, discard_queue-Discarded}
use rmw_zenoh_pico.MessageList.Refines.{Call, append, pop, pickup, run, run-refines}
use rmw_zenoh_pico.Fixtures.{message, two, memory, queue_of_two, queue_of_two-IsQueue, third-Holds}

abbrev is_second : ReceiveMessageData → Bool
is_second m = m.query_rc == 2

destroy-use_after_free_example : recv_msg_list_destroy 5 queue_of_two memory ≡ fault
destroy-use_after_free_example =
    destroy-use_after_free memory queue_of_two 8 (message 1) ((16, message 2) ∷ []) 4
      queue_of_two-IsQueue refl

discard_queue-Discarded_example :
    Ensures (Discarded memory two) (discard_queue 3 queue_of_two memory)
discard_queue-Discarded_example =
    discard_queue-Discarded 3 memory queue_of_two two queue_of_two-IsQueue (refl, (refl, tt))
      (omega arith)

abbrev calls : List Call
calls = append 24 (message 3) ∷ pop ∷ pickup is_second ∷ []

run-refines_example :
    Ensures
      (λ (l', qs) s'. (qs ≡ 24 ∷ 8 ∷ 16 ∷ []) × IsQueue s' l' ((24, message 3) ∷ []))
      (run 6 queue_of_two calls memory)
run-refines_example =
    run-refines 6 memory queue_of_two two calls queue_of_two-IsQueue
      ((0, third-Holds), refl, refl, tt) (omega arith)
