-- ===== src/Service/Destroy/Tests.antt =====
-- The theorem on the destruction of a service, applied to a service with two waiting requests and one that
-- has been taken, in a node that stays.
use rmw_zenoh_pico.Prelude.{◌≡◌, refl, true, some, none, [], ◌∷◌, pos, ◌==◌, if◌then◌else◌, arith}
use rmw_zenoh_pico.MessageList.{ReceiveMessageDataList}
use rmw_zenoh_pico.MessageList.Chain.{Messages, IsQueue}
use rmw_zenoh_pico.MessageList.Ends.{Ensures}
use rmw_zenoh_pico.Object.{
  Object, Heap, upd, load, release, destroy, destroy_info, destroy_parts, zenoh_pico_destroy_entity,
  destroy_node_parts, zenoh_pico_destroy_node_data, destroy_endpoint_parts, destroy_endpoint_data,
  fresh,
}
use rmw_zenoh_pico.Service.{ServiceQueues}
use rmw_zenoh_pico.Service.Destroy.{
  BothDrained, zenoh_pico_destroy_service_data, destroy_service_data-BothDrained,
}
use rmw_zenoh_pico.Fixtures.{message, two, memory, queue_of_two, queue_of_two-IsQueue}

abbrev one : Messages
one = (24, message 3) ∷ []

abbrev queue_of_one : ReceiveMessageDataList
queue_of_one = record { que_top = 24; que_bottom = 24; count = pos 1 }

queue_of_one-IsQueue : IsQueue memory queue_of_one one
queue_of_one-IsQueue = record {
  top = refl;
  bottom = refl;
  counted = refl;
  chain = (ground arith, refl, tt);
  distinct = (refl, tt);
}

abbrev queues : ServiceQueues
queues = record { request_queue = queue_of_two; response_queue = queue_of_one }

abbrev service : Object
service = record fresh { node = 8; entity = 40 }

abbrev entity : Object
entity = record fresh { node_info = 56; topic_info = 64 }

abbrev shared : Object
shared = record fresh { ref = pos 2 }

abbrev let_go : Object → Object
let_go o = record o { ref = pos 0 }

abbrev structs : Heap
structs p =
    if p == 48
    then some service
    else if p == 8
    then some shared
    else if p == 40
    then some entity
    else if p == 56
    then some shared
    else if p == 64
    then some fresh
    else none

abbrev left_over : Heap
left_over =
    let h1 : Heap = upd structs 48 (some (let_go service)) in
    let h2 : Heap = upd h1 8 (some fresh) in
    let h3 : Heap = upd h2 40 (some (let_go entity)) in
    let h4 : Heap = upd h3 56 (some fresh) in
    let h5 : Heap = upd (upd h4 64 (some (let_go fresh))) 64 none in upd (upd h5 40 none) 48 none

structs_let_go : destroy_endpoint_data 48 structs ≡ some (true, left_over)
unfolding destroy_endpoint_data release load destroy destroy_endpoint_parts
    zenoh_pico_destroy_node_data destroy_node_parts zenoh_pico_destroy_entity destroy_parts
    destroy_info
structs_let_go = refl

destroy_service_data-BothDrained_example :
    Ensures
      (λ (done, q', end) s'. (done ≡ true) × (end ≡ left_over) × BothDrained memory two one q' s')
      (zenoh_pico_destroy_service_data 3 48 queues structs memory)
destroy_service_data-BothDrained_example =
    destroy_service_data-BothDrained 3 48 service queues structs left_over memory two one refl refl
      refl structs_let_go queue_of_two-IsQueue queue_of_one-IsQueue (λ a i. ground (arith, i))
      (refl, (refl, tt)) (refl, tt) (omega arith) (omega arith)
