-- ===== src/Creation.antt =====
-- How the data of nodes, subscriptions, publishers, services and clients is made, and what the error
-- paths let go of (src/rmw_node.c, rmw_subscription.c, rmw_publisher.c, rmw_service.c, rmw_client.c).
pub mod Made
pub mod Cycle
pub mod Failed
pub mod Service
pub mod Checks
pub mod Handles
pub mod Refused
pub mod Nodes
pub mod Lifecycle
mod Tests
use rmw_zenoh_pico.Prelude.{
  ◌≡◌, refl, Bool, true, false, not, ◌&&◌, Option, none, some, ◌==◌, if◌then◌else◌,
}
use rmw_zenoh_pico.Memory.{Ptr, null}
use rmw_zenoh_pico.Object.{
  Action, ◌>>=◌, ◌>>◌, pure, unassigned, load, store, fresh, generate, ref_clone, destroy,
  destroy_info, zenoh_pico_destroy_entity, generate_entity, generate_topic_entity,
  generate_service_entity, zenoh_pico_destroy_node_data, destroy_endpoint_data,
}

-- What the calls that may fail give: memory from the allocator (NULL if there is none), and whether the
-- texts of the keys can be copied.
pub record Outcomes : Type 0 where
  pub topic_memory : Ptr
  pub entity_memory : Ptr
  pub data_memory : Ptr
  pub liveliness_copied : Bool
  pub topic_key_copied : Bool

-- The end of the error paths: `if (p != NULL) ...`
unfoldable pub destroy_unless_null : Ptr → Action (Unit {0})
destroy_unless_null p = if p == null then pure tt else destroy p

unfoldable pub let_go : Ptr → Ptr → Ptr → Action Ptr
let_go node_info entity data_ = do
  destroy_info node_info
  zenoh_pico_destroy_entity entity
  destroy_unless_null data_
  pure null

-- The node info of a node, with one more reference.
unfoldable pub clone_node_info : Ptr → Action Ptr
clone_node_info node = do n ← load node; e ← load n.entity; ref_clone e.node_info

-- Where the entity cannot be had, the error path reads `sub_data` before it is assigned.
unfoldable pub zenoh_pico_generate_subscription_data : Ptr → Outcomes → Action Ptr
zenoh_pico_generate_subscription_data node x = if node == null then pure null else do
  node_info ← clone_node_info node
  entity ← generate_topic_entity x.topic_memory x.entity_memory node_info
  if entity == null then (do destroy_info node_info; unassigned) else do
    sub_data ← generate x.data_memory
    if sub_data == null then let_go node_info entity null else do
      store sub_data (some (record fresh { node = node; entity = entity }))
      if x.liveliness_copied && x.topic_key_copied
          then pure sub_data
          else let_go node_info entity sub_data

-- The error path reads `topic_info`, which is assigned only after the liveliness key.
unfoldable pub zenoh_pico_generate_publisher_data : Ptr → Outcomes → Action Ptr
zenoh_pico_generate_publisher_data node x = if node == null then pure null else do
  node_info ← clone_node_info node
  entity ← generate_topic_entity x.topic_memory x.entity_memory node_info
  if entity == null then unassigned else do
    pub_data ← generate x.data_memory
    if pub_data == null then unassigned else do
      store pub_data (some (record fresh { node = node; entity = entity }))
      if not x.liveliness_copied then unassigned else do
        e ← load entity
        if x.topic_key_copied
            then pure pub_data
            else do destroy_info e.topic_info; let_go node_info entity pub_data

-- The topic key is made from the topic info, which may be NULL.
unfoldable pub zenoh_pico_generate_service_data : Ptr → Outcomes → Action Ptr
zenoh_pico_generate_service_data node x = if node == null then pure null else do
  node_info ← clone_node_info node
  entity ← generate_service_entity x.topic_memory x.entity_memory node_info
  if entity == null then let_go node_info null null else do
    service_data ← generate x.data_memory
    if service_data == null then let_go node_info entity null else do
      store service_data (some (record fresh { node = node; entity = entity }))
      if not x.liveliness_copied then let_go node_info entity service_data else do
        e ← load entity
        load e.topic_info
        if x.topic_key_copied then pure service_data else let_go node_info entity service_data

-- The memory of the node info stands for the topic's; the session is not NULL.
unfoldable pub zenoh_pico_generate_node_data : Outcomes → Action Ptr
zenoh_pico_generate_node_data x = do
  node_info ← generate x.topic_memory
  if node_info == null then unassigned else do
    entity ← generate_entity x.entity_memory node_info null
    if entity == null then (do destroy_info node_info; unassigned) else do
      node_data ← generate x.data_memory
      if node_data == null then let_go node_info entity null else do
        store node_data (some (record fresh { entity = entity }))
        if x.liveliness_copied then pure node_data else let_go node_info entity node_data

-- From the data of a node on, `rmw_create_subscription` and `rmw_create_publisher`: the handle may not
-- be had, and the declaration to zenoh may fail.
unfoldable pub finish : Bool → Bool → Ptr → Action Ptr
finish handle_allocated declared p =
    if p == null
    then pure null
    else if handle_allocated && declared
    then pure p
    else do destroy_endpoint_data p; pure null

unfoldable pub create_subscription : Ptr → Outcomes → Bool → Bool → Action Ptr
create_subscription node x handle_allocated declared = do
  n ← ref_clone node
  p ← zenoh_pico_generate_subscription_data n x
  finish handle_allocated declared p

unfoldable pub create_publisher : Ptr → Outcomes → Bool → Bool → Action Ptr
create_publisher node x handle_allocated declared = do
  n ← ref_clone node
  p ← zenoh_pico_generate_publisher_data n x
  finish handle_allocated declared p

-- `rmw_create_service` and `rmw_create_client` pass the node on without a reference of its own.
unfoldable pub create_service : Ptr → Outcomes → Bool → Bool → Action Ptr
create_service node x handle_allocated declared = do
  p ← zenoh_pico_generate_service_data node x
  finish handle_allocated declared p
