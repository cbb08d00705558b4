-- ===== src/Creation/Handles.antt =====
-- `rmw_create_publisher`, `rmw_create_subscription`, `rmw_create_service` and `rmw_create_client` with their
-- checks, and the functions that destroy what they made (src/rmw_publisher.c, rmw_subscription.c,
-- rmw_service.c, rmw_client.c). The memory of the rmw handles themselves and of their names is left out.
use rmw_zenoh_pico.Prelude.{Bool, not, Bytes, Option, none, some, ◌==◌, if◌then◌else◌}
use rmw_zenoh_pico.Memory.{Ptr, null}
use rmw_zenoh_pico.Rmw.{
  RmwRet, ret_ok, ret_invalid_argument, ret_incorrect_rmw_implementation, identifier_matches,
  present, require,
}
use rmw_zenoh_pico.Object.{Action, pure, ◌>>◌, destroy_endpoint_data}
use rmw_zenoh_pico.Creation.{Outcomes, create_publisher, create_subscription, create_service}
use rmw_zenoh_pico.Creation.Checks.{
  RmwNode, Arguments, publisher_checks, subscription_checks, service_checks,
}

abbrev with_node : Option RmwNode → (Ptr → Action Ptr) → Action Ptr
with_node none k = pure null
with_node (some node) k = elim node.node_data [ none ↦ pure null | some n ↦ k n ]

module _ (validate_full_topic_name : Bytes → Bool) (find_type_support : Bool)
    (is_enable_session : Bool) where
  -- The outcome is the data of the new endpoint, NULL if there is none.
  unfoldable pub rmw_create_publisher :
      Option RmwNode → Arguments → Outcomes → (handle_allocated declared : Bool) → Action Ptr
  rmw_create_publisher node a x handle_allocated declared =
      if publisher_checks validate_full_topic_name find_type_support is_enable_session node a
      then with_node node (λ n. create_publisher n x handle_allocated declared)
      else pure null

  unfoldable pub rmw_create_subscription :
      Option RmwNode → Arguments → Outcomes → (handle_allocated declared : Bool) → Action Ptr
  rmw_create_subscription node a x handle_allocated declared =
      if subscription_checks validate_full_topic_name find_type_support is_enable_session node a
      then with_node node (λ n. create_subscription n x handle_allocated declared)
      else pure null

  -- `rmw_create_client` has the same checks.
  unfoldable pub rmw_create_service :
      Option RmwNode → Arguments → Outcomes → (handle_allocated declared : Bool) → Action Ptr
  rmw_create_service node a x handle_allocated declared =
      if service_checks validate_full_topic_name find_type_support is_enable_session node a
      then with_node node (λ n. create_service n x handle_allocated declared)
      else pure null

-- `rmw_publisher_t` and the other handles, with their `data` pointer.
pub record Handle : Type 0 where
  pub implementation_identifier : Option Bytes
  pub handle_data : Ptr

abbrev pub both_ours : RmwNode → Handle → Option RmwRet
both_ours node h =
    require (identifier_matches node.implementation_identifier) ret_incorrect_rmw_implementation (
      require (identifier_matches h.implementation_identifier) ret_incorrect_rmw_implementation
        none)

abbrev pub destroy_publisher_checks : RmwNode → Handle → Option RmwRet
destroy_publisher_checks node h =
    require (not (h.handle_data == null)) ret_invalid_argument (both_ours node h)

-- `rmw_destroy_service` and `rmw_destroy_client`; the node's context is tested before the handle.
abbrev pub destroy_service_checks : RmwNode → Handle → Option RmwRet
destroy_service_checks node h =
    require (present node.context) ret_invalid_argument (both_ours node h)

abbrev destroy_checked : Option RmwRet → Ptr → Action RmwRet
destroy_checked (some code) p = pure code
destroy_checked none p = if p == null then pure ret_ok else do destroy_endpoint_data p; pure ret_ok

unfoldable pub rmw_destroy_publisher : Option RmwNode → Option Handle → Action RmwRet
rmw_destroy_publisher none handle = pure ret_invalid_argument
rmw_destroy_publisher (some node) none = pure ret_invalid_argument
rmw_destroy_publisher (some node) (some h) =
    destroy_checked (destroy_publisher_checks node h) h.handle_data

unfoldable pub rmw_destroy_subscription : Option RmwNode → Option Handle → Action RmwRet
rmw_destroy_subscription none handle = pure ret_invalid_argument
rmw_destroy_subscription (some node) none = pure ret_invalid_argument
rmw_destroy_subscription (some node) (some h) = destroy_checked (both_ours node h) h.handle_data

unfoldable pub rmw_destroy_service : Option RmwNode → Option Handle → Action RmwRet
rmw_destroy_service none handle = pure ret_invalid_argument
rmw_destroy_service (some node) none = pure ret_invalid_argument
rmw_destroy_service (some node) (some h) =
    destroy_checked (destroy_service_checks node h) h.handle_data
