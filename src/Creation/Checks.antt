-- ===== src/Creation/Checks.antt =====
-- The checks at the heads of `rmw_create_publisher`, `rmw_create_subscription`, `rmw_create_service` and
-- `rmw_create_client`. Each failed check returns NULL, so that a test stands for all of them.
use rmw_zenoh_pico.Prelude.{Bool, false, not, ◌&&◌, ◌||◌, Bytes, Option, none, some, [], ◌∷◌, ◌==◌}
use rmw_zenoh_pico.Memory.{Ptr}
use rmw_zenoh_pico.Rmw.{identifier_matches, present}

-- `rmw_node_t`: `context` is `none` for NULL, and otherwise whether its `impl` is there.
pub record RmwNode : Type 0 where
  pub implementation_identifier : Option Bytes
  pub context : Option Bool
  pub node_data : Option Ptr

-- What the caller passes besides the node: `type_supports` is whether it is not NULL, the profile stands
-- for its `avoid_ros_namespace_conventions`, the options for whether they require unique network flows.
pub record Arguments : Type 0 where
  pub type_supports : Bool
  pub name : Option Bytes
  pub qos_profile : Option Bool
  pub options : Option Bool

abbrev pub not_empty : Option Bytes → Bool
not_empty none = false
not_empty (some []) = false
not_empty (some (c ∷ s)) = not (c == 0)

abbrev pub has_impl : Option Bool → Bool
has_impl none = false
has_impl (some impl) = impl

abbrev pub not_strict : Option Bool → Bool
not_strict none = false
not_strict (some strict) = not strict

-- `rmw_validate_full_topic_name` of rmw with RMW_TOPIC_VALID, the typesupport handle that rosidl finds, and
-- whether the node's session is open.
module _ (validate_full_topic_name : Bytes → Bool) (find_type_support : Bool)
    (is_enable_session : Bool) where
  unfoldable pub rmw_zenoh_pico_check_validate_name : Option Bytes → Bool
  rmw_zenoh_pico_check_validate_name none = false
  rmw_zenoh_pico_check_validate_name (some name) = validate_full_topic_name name

  -- The name is validated unless the profile avoids the conventions.
  unfoldable pub valid_name : Option Bool → Option Bytes → Bool
  unfolding rmw_zenoh_pico_check_validate_name
  valid_name none name = false
  valid_name (some avoid) name = avoid || rmw_zenoh_pico_check_validate_name name

  unfoldable pub publisher_checks : Option RmwNode → Arguments → Bool
  unfolding valid_name
  publisher_checks none a = false
  publisher_checks (some node) a =
      identifier_matches node.implementation_identifier
      && (a.type_supports
          && (not_empty a.name
              && (present a.qos_profile
                  && (present node.node_data
                      && (has_impl node.context
                          && (valid_name a.qos_profile a.name
                              && (not_strict a.options && find_type_support)))))))

  -- The node's identifier and the options' requirement are not looked at.
  unfoldable pub subscription_checks : Option RmwNode → Arguments → Bool
  unfolding valid_name
  subscription_checks none a = false
  subscription_checks (some node) a =
      a.type_supports
      && (not_empty a.name
          && (present a.qos_profile
              && (present a.options
                  && (has_impl node.context
                      && (present node.node_data
                          && (valid_name a.qos_profile a.name && find_type_support))))))

  -- Services and clients take no options.
  unfoldable pub service_checks : Option RmwNode → Arguments → Bool
  unfolding valid_name
  service_checks none a = false
  service_checks (some node) a =
      identifier_matches node.implementation_identifier
      && (a.type_supports
          && (not_empty a.name
              && (present a.qos_profile
                  && (valid_name a.qos_profile a.name
                      && (has_impl node.context
                          && (present node.node_data
                              && (is_enable_session && find_type_support)))))))
