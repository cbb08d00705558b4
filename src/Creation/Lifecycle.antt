-- ===== src/Creation/Lifecycle.antt =====
-- The life of a node through its handle, on its own and with an endpoint.
use mathlib.Core.Path.{fun_ext}
use rmw_zenoh_pico.Prelude.{
  ◌≡◌, refl, arith, Bool, true, false, ◌&&◌, Bytes, Option, none, some, ◌==◌, ap, ◌∙◌,
}
use rmw_zenoh_pico.Memory.{Ptr, null}
use rmw_zenoh_pico.Rmw.{ret_ok, identifier_matches, implementation_identifier}
use rmw_zenoh_pico.Object.{Object, Heap, upd, ◌>>=◌, ◌>>◌, fresh, zenoh_pico_destroy_node_data}
use rmw_zenoh_pico.Object.Steps.{upd_twice}
use rmw_zenoh_pico.Session.{Zenoh, ZenohPicoSession, session_connect}
use rmw_zenoh_pico.Init.Context.{RmwContext}
use rmw_zenoh_pico.Creation.{zenoh_pico_generate_node_data}
use rmw_zenoh_pico.Creation.Made.{entity_of, generate-ok, generate_entity-ok}
use rmw_zenoh_pico.Creation.Cycle.{IsReady, all_well, endpoint_cycle}
use rmw_zenoh_pico.Object.Node.{without_node, node_freed}
use rmw_zenoh_pico.Creation.Service.{service_cycle-frees_node}
use rmw_zenoh_pico.Creation.Checks.{RmwNode, Arguments, publisher_checks, service_checks}
use rmw_zenoh_pico.Creation.Handles.{
  rmw_create_publisher, rmw_destroy_publisher, rmw_create_service, rmw_destroy_service,
}
use rmw_zenoh_pico.Creation.Refused.{handle_of}
use rmw_zenoh_pico.Creation.Nodes.{
  node_checks, create_node, finish_node, rmw_create_node, rmw_destroy_node,
}

abbrev pub node_of : Ptr → Object
node_of ne = record fresh { entity = ne }

-- Memory with a new node's info at `i`, its entity at `ne` and its data at `n`.
abbrev pub with_node : Heap → Ptr → Ptr → Ptr → Heap
with_node h i ne n =
    upd (upd (upd h i (some fresh)) ne (some (entity_of i null))) n (some (node_of ne))

-- Room for a node: three addresses of their own that nothing uses.
pub record IsRoom (h : Heap) (i ne n : Ptr) : Type 0 where
  pub i0 : (i == null) ≡ false
  pub ne0 : (ne == null) ≡ false
  pub n0 : (n == null) ≡ false
  pub ne_n : (ne == n) ≡ false
  pub i_n : (i == n) ≡ false
  pub ne_i : (ne == i) ≡ false
  pub i_unused : h i ≡ none
  pub ne_unused : h ne ≡ none
  pub n_unused : h n ≡ none

module _ (h : Heap) (i ne n : Ptr) (room : IsRoom h i ne n) where
  node_made : zenoh_pico_generate_node_data (all_well i ne n) h ≡ some (n, with_node h i ne n)
  unfolding zenoh_pico_generate_node_data
  node_made =
      let h1 : Heap = upd h i (some fresh) in
      let h2 : Heap = upd h1 ne (some (entity_of i null)) in
      rw
        (
          zenoh_pico_generate_node_data,
          ◌>>=◌,
          generate-ok h i room.i0,
          room.i0,
          ◌>>=◌,
          generate_entity-ok h1 ne i null room.ne0,
          room.ne0,
          ◌>>=◌,
          generate-ok h2 n room.n0,
          room.n0,
          ◌>>◌,
          ◌>>=◌,
          upd_twice h2 n (some fresh) (some (node_of ne)),
        )
        refl

  node_unmade : zenoh_pico_destroy_node_data n (with_node h i ne n) ≡ some (true, h)
  node_unmade =
      let g : Heap = with_node h i ne n in
      let at_n : g n ≡ some (node_of ne) = ground arith in
      let at_ne : g ne ≡ some (entity_of i null) = ground (arith, room.ne_n) in
      let at_i : g i ≡ some fresh = ground (arith, room.i_n, room.ne_i) in
      let same : without_node g n (node_of ne) (entity_of i null) fresh ≡ h =
        fun_ext λ a. ground (arith, room.i_unused, room.ne_unused, room.n_unused) in
      node_freed g n (node_of ne) (entity_of i null) fresh room.n0 room.ne0 room.i0 room.ne_n
        room.i_n room.ne_i refl at_n at_ne at_i refl refl
      ∙ ap (λ (x : Heap). some (true, x)) same

  pub node_created : create_node (all_well i ne n) true true h ≡ some (n, with_node h i ne n)
  unfolding create_node finish_node
  node_created = rw (create_node, ◌>>=◌, node_made, finish_node, room.n0) refl

  pub node_not_finished :
      (handle_allocated declared : Bool)
      → handle_allocated && declared ≡ false
      → create_node (all_well i ne n) handle_allocated declared h ≡ some (null, h)
  unfolding create_node finish_node
  node_not_finished handle_allocated declared failed =
      rw (create_node, ◌>>=◌, node_made, finish_node, room.n0, failed, ◌>>◌, ◌>>=◌, node_unmade)
        refl

-- The handle that `rmw_node_generate` makes for a context with a session.
abbrev pub node_handle : Ptr → RmwNode
node_handle n = record {
  implementation_identifier = some implementation_identifier;
  context = some true;
  node_data = some n;
}

module _ (z : Zenoh) (context : Option RmwContext) (name namespace : Option Bytes)
    (s s' : ZenohPicoSession) (accepted : node_checks context name namespace ≡ true)
    (connected : session_connect z (some s) ≡ (ret_ok, some s')) (h : Heap) (i ne n : Ptr)
    (room : IsRoom h i ne n) where
  create_node-ok :
      rmw_create_node z context name namespace (all_well i ne n) true true h s
      ≡ some (n, with_node h i ne n, s')
  unfolding rmw_create_node
  create_node-ok = rw (rmw_create_node, accepted, connected, node_created h i ne n room) refl

  -- Where the context and the names are accepted, the session connects and there is memory for the data of
  -- a node, but none for its handle or its liveliness token is not declared, `rmw_create_node` gives NULL
  -- and memory is as it was, while the session stays connected.
  pub create_node-undone :
      (handle_allocated declared : Bool)
      → handle_allocated && declared ≡ false
      → rmw_create_node z context name namespace (all_well i ne n) handle_allocated declared h s
        ≡ some (null, h, s')
  unfolding rmw_create_node
  create_node-undone handle_allocated declared failed =
      rw
        (
          rmw_create_node,
          accepted,
          connected,
          node_not_finished h i ne n room handle_allocated declared failed,
        )
        refl

  module _ (validate_full_topic_name : Bytes → Bool) (a : Arguments) (t e d : Ptr)
      (is : IsReady (with_node h i ne n) n t e d (node_of ne) (entity_of i null) fresh) where
    -- Where the arguments are accepted and every call on the way succeeds, a node that is made, gets a
    -- publisher, loses it again and is destroyed leaves memory as it was before; each call reports success.
    pub node_lifecycle :
        publisher_checks validate_full_topic_name true true (some (node_handle n)) a ≡ true
        → (h1 h2 : Heap) × (rmw_create_node z context name namespace (all_well i ne n) true true h s
            ≡ some (n, h1, s'))
          × (rmw_create_publisher validate_full_topic_name true true
                (some (node_handle n))
                a
                (all_well t e d)
                true
                true
                h1
              ≡ some (d, h2))
          × (rmw_destroy_publisher (some (node_handle n)) (some (handle_of d)) h2
              ≡ some (ret_ok, h1))
          × (rmw_destroy_node (some (node_handle n)) h1 ≡ some (ret_ok, h))
    unfolding rmw_create_publisher rmw_destroy_publisher rmw_destroy_node identifier_matches
    node_lifecycle ok =
        let h1 : Heap = with_node h i ne n in
        let (h2, subscription, publisher, freed) =
          endpoint_cycle h1 n t e d (node_of ne) (entity_of i null) fresh is in
        (
          h1,
          h2,
          create_node-ok,
          rw (rmw_create_publisher, ok, publisher) refl,
          rw (rmw_destroy_publisher, is.d0, is.d0, ◌>>◌, ◌>>=◌, freed) refl,
          rw (rmw_destroy_node, ◌>>◌, ◌>>=◌, node_unmade h i ne n room) refl,
        )

    -- Where the arguments are accepted and every call on the way succeeds, a node that is made, gets a
    -- service or client and loses it again cannot be destroyed: `rmw_destroy_node` reads freed memory.
    pub service_lifecycle-faults :
        service_checks validate_full_topic_name true true (some (node_handle n)) a ≡ true
        → (h1 h2 h3 : Heap) × (rmw_create_node z context name namespace
              (all_well i ne n)
              true
              true
              h
              s
            ≡ some (n, h1, s'))
          × (rmw_create_service validate_full_topic_name true true
                (some (node_handle n))
                a
                (all_well t e d)
                true
                true
                h1
              ≡ some (d, h2))
          × (rmw_destroy_service (some (node_handle n)) (some (handle_of d)) h2 ≡ some (ret_ok, h3))
          × (rmw_destroy_node (some (node_handle n)) h3 ≡ none)
    unfolding rmw_create_service rmw_destroy_service rmw_destroy_node identifier_matches
    service_lifecycle-faults ok =
        let h1 : Heap = with_node h i ne n in
        let (h2, service, freed, again) =
          service_cycle-frees_node h1 n t e d (node_of ne) (entity_of i null) fresh is refl refl
            refl in
        (
          h1,
          h2,
          without_node h1 n (node_of ne) (entity_of i null) fresh,
          create_node-ok,
          rw (rmw_create_service, ok, service) refl,
          rw (rmw_destroy_service, is.d0, ◌>>◌, ◌>>=◌, freed) refl,
          rw (rmw_destroy_node, ◌>>◌, ◌>>=◌, again) refl,
        )
