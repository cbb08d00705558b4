-- ===== src/Creation/Refused.antt =====
-- Which arguments the functions that create endpoints accept, and endpoints through their handles.
use rmw_zenoh_pico.Prelude.{◌≡◌, refl, arith, Bool, true, false, ◌&&◌, Bytes, Option, none, some}
use rmw_zenoh_pico.Memory.{Ptr}
use rmw_zenoh_pico.Rmw.{ret_ok, implementation_identifier, identifier_matches, present}
use rmw_zenoh_pico.Object.{Object, Heap, ◌>>=◌, ◌>>◌}
use rmw_zenoh_pico.Creation.Cycle.{IsReady, all_well, endpoint_cycle}
use rmw_zenoh_pico.Creation.Checks.{
  RmwNode, Arguments, not_strict, not_empty, has_impl, valid_name, publisher_checks,
  subscription_checks, service_checks,
}
use rmw_zenoh_pico.Creation.Handles.{
  Handle, rmw_create_publisher, rmw_create_subscription, rmw_destroy_publisher,
  rmw_destroy_subscription,
}

given : (options : Option Bool) → not_strict options ≡ true → present options ≡ true
given none lax = cc
given (some strict) lax = refl

same_checks :
    (t n q d i v f : Bool)
    → (t && (n && (q && (true && (i && (d && (v && f)))))))
      ≡ (t && (n && (q && (d && (i && (v && (true && f)))))))
same_checks t n q d i v f = ground arith

module _ (validate_full_topic_name : Bytes → Bool) (find_type_support : Bool)
    (is_enable_session : Bool) where
  -- A node of another implementation is refused for publishers, services and clients, but for
  -- subscriptions it counts as one of this implementation: of that, publishers and subscriptions accept
  -- the same arguments, where the options do not require unique network flows.
  pub checks_foreign :
      (node : RmwNode) (a : Arguments)
      → identifier_matches node.implementation_identifier ≡ false
      → not_strict a.options ≡ true
      → (publisher_checks validate_full_topic_name find_type_support is_enable_session (some node) a
          ≡ false)
        × (service_checks validate_full_topic_name find_type_support is_enable_session (some node) a
            ≡ false)
        × (subscription_checks validate_full_topic_name find_type_support is_enable_session
              (some node)
              a
            ≡ publisher_checks validate_full_topic_name find_type_support is_enable_session
                (some (record node { implementation_identifier = some implementation_identifier }))
                a)
  unfolding publisher_checks subscription_checks service_checks identifier_matches
  checks_foreign node a foreign lax = (
    rw foreign refl,
    rw foreign refl,
    rw (given a.options lax, lax)
        (same_checks a.type_supports (not_empty a.name) (present a.qos_profile)
          (present node.node_data) (has_impl node.context)
          (valid_name validate_full_topic_name find_type_support is_enable_session a.qos_profile
            a.name)
          find_type_support),
  )

abbrev pub handle_of : Ptr → Handle
handle_of d = record { implementation_identifier = some implementation_identifier; handle_data = d }

-- Where the checks of both accept a node and the arguments, and every call on the way succeeds,
-- `rmw_create_publisher` and `rmw_create_subscription` give an endpoint, and destroying it through a
-- handle of this implementation returns RMW_RET_OK and brings back the memory as it was.
pub endpoint_lifecycle :
    (validate_full_topic_name : Bytes → Bool) (find_type_support is_enable_session : Bool)
    (h : Heap) (n t e d : Ptr) (node entity info : Object) (owner : RmwNode) (a : Arguments)
    → IsReady h n t e d node entity info
    → owner.node_data ≡ some n
    → identifier_matches owner.implementation_identifier ≡ true
    → publisher_checks validate_full_topic_name find_type_support is_enable_session (some owner) a
      ≡ true
    → subscription_checks validate_full_topic_name find_type_support is_enable_session
        (some owner)
        a
      ≡ true
    → (h1 : Heap) × (rmw_create_publisher validate_full_topic_name find_type_support
          is_enable_session
          (some owner)
          a
          (all_well t e d)
          true
          true
          h
        ≡ some (d, h1))
      × (rmw_destroy_publisher (some owner) (some (handle_of d)) h1 ≡ some (ret_ok, h))
      × (rmw_create_subscription validate_full_topic_name find_type_support is_enable_session
            (some owner)
            a
            (all_well t e d)
            true
            true
            h
          ≡ some (d, h1))
      × (rmw_destroy_subscription (some owner) (some (handle_of d)) h1 ≡ some (ret_ok, h))
unfolding rmw_create_publisher rmw_create_subscription rmw_destroy_publisher
    rmw_destroy_subscription identifier_matches
endpoint_lifecycle valid found open_ h n t e d node entity info owner a is at ours pub_ok sub_ok =
    let (h1, subscription, publisher, freed) = endpoint_cycle h n t e d node entity info is in
    (
      h1,
      rw (rmw_create_publisher, pub_ok, at, publisher) refl,
      rw (rmw_destroy_publisher, is.d0, ours, is.d0, ◌>>◌, ◌>>=◌, freed) refl,
      rw (rmw_create_subscription, sub_ok, at, subscription) refl,
      rw (rmw_destroy_subscription, ours, is.d0, ◌>>◌, ◌>>=◌, freed) refl,
    )
