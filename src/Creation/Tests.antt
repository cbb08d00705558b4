-- ===== src/Creation/Tests.antt =====
-- The theorems on endpoints, applied to a node in memory.
use rmw_zenoh_pico.Prelude.{◌≡◌, refl, true, false, none, some, ◌==◌, if◌then◌else◌, pos, arith}
use rmw_zenoh_pico.Memory.{Ptr, null}
use rmw_zenoh_pico.Object.{Object, Heap}
use rmw_zenoh_pico.Creation.{zenoh_pico_generate_subscription_data}
use rmw_zenoh_pico.Creation.Made.{data_of}
use rmw_zenoh_pico.Creation.Cycle.{IsReady, all_well}
use rmw_zenoh_pico.Creation.Failed.{key_not_copied, subscription_failed}
use rmw_zenoh_pico.Prelude.{Bool, Bytes, codes, [], ◌∷◌}
use rmw_zenoh_pico.Rmw.{ret_ok, identifier_matches, implementation_identifier}
use rmw_zenoh_pico.Creation.Checks.{
  RmwNode, Arguments, publisher_checks, subscription_checks, service_checks,
}
use rmw_zenoh_pico.Creation.Handles.{
  rmw_create_publisher, rmw_create_subscription, rmw_destroy_publisher, rmw_destroy_subscription,
}
use rmw_zenoh_pico.Session.{Zenoh, ZenohPicoSession, zero_session, session_connect}
use rmw_zenoh_pico.Init.Context.{RmwContext}
use rmw_zenoh_pico.Object.{fresh}
use rmw_zenoh_pico.Creation.Made.{entity_of}
use rmw_zenoh_pico.Creation.Handles.{rmw_create_service, rmw_destroy_service}
use rmw_zenoh_pico.Creation.Nodes.{node_checks, rmw_create_node, rmw_destroy_node}
use rmw_zenoh_pico.Creation.Lifecycle.{
  IsRoom, with_node, node_of, node_handle, node_lifecycle, service_lifecycle-faults,
}
use rmw_zenoh_pico.Creation.Refused.{handle_of, checks_foreign, endpoint_lifecycle}

abbrev object : Ptr → Ptr → Object
object node_info entity = record {
  ref = pos 1;
  node_info = node_info;
  topic_info = null;
  node = null;
  entity = entity;
}

-- A node at 8, its entity at 16 and its node info at 24.
abbrev heap : Heap
heap p =
    if p == 8
    then some (object null 16)
    else if p == 16
    then some (object 24 null)
    else if p == 24
    then some (object null null)
    else none

heap-IsReady : IsReady heap 8 32 40 48 (object null 16) (object 24 null) (object null null)
heap-IsReady = ground arith

subscription_failed_example :
    (h1 : Heap) × (zenoh_pico_generate_subscription_data 8 (key_not_copied 32 40 48 true false) heap
      ≡ some (null, h1))
    × (h1 48 ≡ some (data_of 8 40))
    × (h1 24 ≡ none)
    × (h1 16 ≡ heap 16)
subscription_failed_example =
    subscription_failed heap 8 32 40 48 (object null 16) (object 24 null) (object null null)
      heap-IsReady true false refl

abbrev owner : RmwNode
owner = record {
  implementation_identifier = some (codes "rmw_zenoh_pico");
  context = some true;
  node_data = some 8;
}

abbrev foreign_owner : RmwNode
foreign_owner = record owner { implementation_identifier = some (codes "rmw_other") }

abbrev arguments : Arguments
arguments = record {
  type_supports = true;
  name = some (codes "/chatter");
  qos_profile = some false;
  options = some false;
}

abbrev begins_with_slash : Bytes → Bool
begins_with_slash [] = false
begins_with_slash (c ∷ s) = c == b'/'

endpoint_lifecycle_example :
    (h1 : Heap) × (rmw_create_publisher begins_with_slash true true
        (some owner)
        arguments
        (all_well 32 40 48)
        true
        true
        heap
      ≡ some (48, h1))
    × (rmw_destroy_publisher (some owner) (some (handle_of 48)) h1 ≡ some (ret_ok, heap))
    × (rmw_create_subscription begins_with_slash true true
          (some owner)
          arguments
          (all_well 32 40 48)
          true
          true
          heap
        ≡ some (48, h1))
    × (rmw_destroy_subscription (some owner) (some (handle_of 48)) h1 ≡ some (ret_ok, heap))
unfolding identifier_matches publisher_checks subscription_checks
endpoint_lifecycle_example =
    endpoint_lifecycle begins_with_slash true true heap 8 32 40 48 (object null 16) (object 24 null)
      (object null null) owner arguments heap-IsReady refl refl refl refl

checks_foreign_example :
    (publisher_checks begins_with_slash true true (some foreign_owner) arguments ≡ false)
    × (service_checks begins_with_slash true true (some foreign_owner) arguments ≡ false)
    × (subscription_checks begins_with_slash true true (some foreign_owner) arguments
        ≡ publisher_checks begins_with_slash true true
            (some
              (record foreign_owner { implementation_identifier = some implementation_identifier }))
            arguments)
unfolding identifier_matches
checks_foreign_example =
    checks_foreign begins_with_slash true true foreign_owner arguments refl refl

-- An empty memory, with room for a node at 8, 16 and 24 and for an endpoint at 32, 40 and 48.
abbrev empty : Heap
empty p = none

empty-IsRoom : IsRoom empty 24 16 8
empty-IsRoom = ground arith

node-IsReady : IsReady (with_node empty 24 16 8) 8 32 40 48 (node_of 16) (entity_of 24 null) fresh
node-IsReady = ground arith

abbrev context : RmwContext
context = record {
  implementation_identifier = some implementation_identifier;
  actual_domain_id = 0;
  impl = true;
}

abbrev reachable : Zenoh
reachable = record { z_open = λ c. true; zp_start_read_task = true; zp_start_lease_task = true }

abbrev session : ZenohPicoSession
session = record zero_session { ref = pos 1 }

abbrev open_ : ZenohPicoSession
open_ = record session { session = true; enable_session = true }

connects : session_connect reachable (some session) ≡ (ret_ok, some open_)
unfolding session_connect
connects = refl

accepts : node_checks (some context) (some (codes "talker")) (some (codes "/")) ≡ true
unfolding node_checks identifier_matches
accepts = refl

node_lifecycle_example :
    (h1 h2 : Heap) × (rmw_create_node reachable
        (some context)
        (some (codes "talker"))
        (some (codes "/"))
        (all_well 24 16 8)
        true
        true
        empty
        session
      ≡ some (8, h1, open_))
    × (rmw_create_publisher begins_with_slash true true
          (some (node_handle 8))
          arguments
          (all_well 32 40 48)
          true
          true
          h1
        ≡ some (48, h2))
    × (rmw_destroy_publisher (some (node_handle 8)) (some (handle_of 48)) h2 ≡ some (ret_ok, h1))
    × (rmw_destroy_node (some (node_handle 8)) h1 ≡ some (ret_ok, empty))
unfolding identifier_matches publisher_checks
node_lifecycle_example =
    node_lifecycle reachable (some context) (some (codes "talker")) (some (codes "/")) session open_
      accepts connects empty 24 16 8 empty-IsRoom begins_with_slash arguments 32 40 48 node-IsReady
      refl

service_lifecycle-faults_example :
    (h1 h2 h3 : Heap) × (rmw_create_node reachable
        (some context)
        (some (codes "talker"))
        (some (codes "/"))
        (all_well 24 16 8)
        true
        true
        empty
        session
      ≡ some (8, h1, open_))
    × (rmw_create_service begins_with_slash true true
          (some (node_handle 8))
          arguments
          (all_well 32 40 48)
          true
          true
          h1
        ≡ some (48, h2))
    × (rmw_destroy_service (some (node_handle 8)) (some (handle_of 48)) h2 ≡ some (ret_ok, h3))
    × (rmw_destroy_node (some (node_handle 8)) h3 ≡ none)
unfolding identifier_matches service_checks
service_lifecycle-faults_example =
    service_lifecycle-faults reachable (some context) (some (codes "talker")) (some (codes "/"))
      session open_ accepts connects empty 24 16 8 empty-IsRoom begins_with_slash arguments 32 40 48
      node-IsReady refl
