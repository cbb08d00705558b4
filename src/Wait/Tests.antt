-- ===== src/Wait/Tests.antt =====
-- The theorems on waiting, applied to a wait set with two subscriptions and one of each other kind.
use rmw_zenoh_pico.Prelude.{
  ◌^◌, arith, ◌+◌, ◌*◌, ◌<◌, ℕ, ◌≡◌, refl, true, false, none, some, List, [], ◌∷◌, ◌==◌,
  if◌then◌else◌, codes, ◌∙◌,
}
use rmw_zenoh_pico.MessageList.{recv_msg_list_empty}
use rmw_zenoh_pico.Rmw.{ret_ok, ret_timeout, identifier_matches}
use rmw_zenoh_pico.Wait.{World, Collections, check_and_attach_condition}
use rmw_zenoh_pico.Wait.Call.{wait_loop, returned, RmwWaitSet, rmw_wait}
use rmw_zenoh_pico.Wait.Call.{RmwTime, timewait_deadline}
use rmw_zenoh_pico.Wait.Deadline.{timewait_deadline_lem}
use rmw_zenoh_pico.Wait.Ready.{any_ready}
use rmw_zenoh_pico.Wait.Detach.{SameReady, some_ready, ready_collections, IsDetached}
use rmw_zenoh_pico.Wait.Check.{check_and_attach-ready}
use rmw_zenoh_pico.Wait.Trigger.{deliver, guard_turns, guards-never_wake}
use rmw_zenoh_pico.Wait.Wake.{rmw_wait-poll, rmw_wait-wakes}
use rmw_zenoh_pico.Fixtures.{queue_of_two, empty_queue}

-- A world in which nothing is ready and everything that points to a wait set points to `wait_set`.
abbrev idle_world : (wait_set : ℕ) → World
idle_world wait_set = record {
  wait_sets = λ p. record { triggered = false; signals = 0 };
  conditions = λ p. record { msg_queue = empty_queue; wait_set_data = wait_set };
  guards = λ p. record { triggered = false; wait_set_data = wait_set };
  event_wait_sets = λ p. 0;
}

-- The same, with two messages for the condition 20.
abbrev busy_world : World
busy_world = record (idle_world 0) {
  conditions =
      λ p. record { msg_queue = if p == 20 then queue_of_two else empty_queue; wait_set_data = 0 };
}

abbrev entities : (events : List ℕ) → Collections
entities events = record {
  subscriptions = 10 ∷ 20 ∷ [];
  guard_conditions = 30 ∷ [];
  services = 40 ∷ [];
  clients = 50 ∷ [];
  events = events;
}

abbrev wait_set : RmwWaitSet
wait_set = record { implementation_identifier = some (codes "rmw_zenoh_pico"); wait_data = 60 }

matches : identifier_matches wait_set.implementation_identifier ≡ true
unfolding identifier_matches
matches = refl

nothing_ready : some_ready (entities []) (idle_world 0) ≡ false
unfolding recv_msg_list_empty
nothing_ready = refl

two_queued : recv_msg_list_empty queue_of_two ≡ false
unfolding recv_msg_list_empty
two_queued = refl

rmw_wait-wakes_example :
    (kept : Collections) × (v : World) × (rmw_wait
        (deliver 20 queue_of_two ∷ [])
        (entities [])
        (some wait_set)
        none
        (idle_world 0)
      ≡ returned ret_ok kept v)
    × (any_ready (λ q. q == 20) kept.subscriptions ≡ true)
    × IsDetached (entities []) v
rmw_wait-wakes_example =
    rmw_wait-wakes (entities []) wait_set (idle_world 0) 20 queue_of_two matches refl refl tt
      nothing_ready refl two_queued []

rmw_wait-poll_example :
    (v : World) × (rmw_wait []
        (entities [])
        (some wait_set)
        (some (record { sec = 0; nsec = 0 }))
        busy_world
      ≡ returned
          (if some_ready (entities []) busy_world then ret_ok else ret_timeout)
          (ready_collections (entities []) busy_world)
          v)
    × IsDetached (entities []) v
    × SameReady busy_world v
rmw_wait-poll_example = rmw_wait-poll [] (entities []) wait_set busy_world matches refl tt

idle_check : (check_and_attach_condition (entities []) 60 (idle_world 0)).1 ≡ false
idle_check = (check_and_attach-ready 60 (entities []) (idle_world 0)).0 ∙ nothing_ready

guards-never_wake_example : wait_loop (guard_turns (30 ∷ 30 ∷ [])) 60 (idle_world 60) ≡ none
guards-never_wake_example = guards-never_wake (30 ∷ 30 ∷ []) 60 (idle_world 60) refl

timewait_deadline_lem_example :
    (deadline : RmwTime) × (timewait_deadline
        (record { sec = 5; nsec = 900000000 })
        (record { sec = 1; nsec = 200000000 })
      ≡ some deadline)
    × (deadline.nsec < 1000000000)
    × (deadline.sec < 2 ^ 63)
    × (deadline.sec * 1000000000 + deadline.nsec
        ≡ (5 * 1000000000 + 900000000) + (1 * 1000000000 + 200000000))
timewait_deadline_lem_example =
    timewait_deadline_lem (record { sec = 5; nsec = 900000000 })
      (record { sec = 1; nsec = 200000000 }) (omega arith) (omega arith)
