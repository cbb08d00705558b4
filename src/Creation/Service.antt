-- ===== src/Creation/Service.antt =====
-- A service or client that is made and destroyed: `rmw_create_service` and `rmw_create_client` pass on
-- their node without a reference of its own, which `zenoh_pico_destroy_service_data` lets go all the same.
use mathlib.Core.Path.{fun_ext}
use rmw_zenoh_pico.Prelude.{
  ◌≡◌, refl, ap, ◌∙◌, arith, true, false, none, some, ◌==◌, ℤ, inc, dec, is_zero, dec-inc,
}
use rmw_zenoh_pico.Memory.{Ptr, null}
use rmw_zenoh_pico.Object.{
  Object, Heap, upd, ◌>>=◌, ◌>>◌, fresh, load, release, generate_service_entity,
  zenoh_pico_destroy_node_data, destroy_endpoint_data,
}
use rmw_zenoh_pico.Object.Steps.{less, more, left, load-ok, upd_twice}
use rmw_zenoh_pico.Object.Freed.{node_kept, IsEntity, without_entity, endpoint_freed_after}
use rmw_zenoh_pico.Object.Node.{without_node, node_freed}
use rmw_zenoh_pico.Creation.{create_service, finish, zenoh_pico_generate_service_data}
use rmw_zenoh_pico.Creation.Made.{
  entity_of, data_of, generate-ok, generate_entity-ok, clone_node_info-ok,
}
use rmw_zenoh_pico.Creation.Cycle.{IsReady, all_well}

generate_service_entity-ok :
    (h : Heap) (p ni t : Ptr)
    → (t == null) ≡ false
    → (p == null) ≡ false
    → generate_service_entity t p ni h
      ≡ some (p, upd (upd h t (some fresh)) p (some (entity_of ni t)))
unfolding generate_service_entity
generate_service_entity-ok h p ni t t0 live =
    rw
      (
        generate_service_entity,
        ◌>>=◌,
        generate-ok h t t0,
        generate_entity-ok (upd h t (some fresh)) p ni t live,
      )
      refl

abbrev with_service : Heap → Ptr → Ptr → Ptr → Ptr → Object → Object → Heap
with_service h n t e d entity info =
    upd
      (upd (upd (upd h entity.node_info (some (more info))) t (some fresh)) e
        (some (entity_of entity.node_info t)))
      d (some (data_of n e))

module _ (h : Heap) (n t e d : Ptr) (node entity info : Object)
    (is : IsReady h n t e d node entity info) where
  service_made :
      create_service n (all_well t e d) true true h ≡ some (d, with_service h n t e d entity info)
  unfolding create_service zenoh_pico_generate_service_data finish
  service_made =
      let ni : Ptr = entity.node_info in
      let h1 : Heap = upd h ni (some (more info)) in
      let h2 : Heap = upd (upd h1 t (some fresh)) e (some (entity_of ni t)) in
      let h3 : Heap = with_service h n t e d entity info in
      let at_e : h3 e ≡ some (entity_of ni t) = ground (arith, is.d_e) in
      let at_t : h3 t ≡ some fresh = ground (arith, is.d_t, is.e_t) in
      rw
        (
          create_service,
          zenoh_pico_generate_service_data,
          is.n0,
          ◌>>=◌,
          clone_node_info-ok h n node entity info is.n0 is.ne0 is.ni0 is.node_at is.entity_at
              is.info_at,
          generate_service_entity-ok h1 e ni t is.t0 is.e0,
          is.e0,
          ◌>>=◌,
          generate-ok h2 d is.d0,
          is.d0,
          ◌>>◌,
          ◌>>=◌,
          upd_twice h2 d (some fresh) (some (data_of n e)),
          load-ok h3 e (entity_of ni t) is.e0 at_e,
          load-ok h3 t fresh is.t0 at_t,
          finish,
          is.d0,
        )
        refl

  info_back : left (more info) ≡ some info
  info_back =
      let used : is_zero (dec (inc info.ref)) ≡ false = rw dec-inc is.info_used in
      rw used (ap (λ (r : ℤ). some (record info { ref = r })) (dec-inc info.ref))

  abbrev released : Heap
  released = upd (with_service h n t e d entity info) d (some (less (data_of n e)))

  node_still : released n ≡ some node
  node_still = ground (arith, is.node_at, is.d_n, is.e_n, is.t_n, is.ni_n)

  info_still : released entity.node_info ≡ some (more info)
  info_still = ground (arith, is.d_ni, is.e_ni, is.t_ni)

  node_entity_still : released node.entity ≡ some entity
  node_entity_still = ground (arith, is.entity_at, is.ne_ni, is.t_unused, is.e_unused, is.d_unused)

  shared_IsEntity :
      IsEntity
        (upd released n (some (less node)))
        e
        (entity_of entity.node_info t)
        (more info)
        fresh
  shared_IsEntity = record {
    e0 = is.e0;
    ni0 = is.ni0;
    t0 = is.t0;
    ni_e = ground (arith, is.e_ni);
    t_e = ground (arith, is.e_t);
    t_ni = is.t_ni;
    entity_at = ground (arith, is.d_e, is.e_n);
    info_at = ground (arith, is.d_ni, is.e_ni, is.t_ni, is.ni_n);
    topic_at = ground (arith, is.d_t, is.e_t, is.t_n);
    last = refl;
  }

  -- Where every call on the way succeeds and the node has another reference left, making a service or
  -- client and destroying its data again brings back the memory, but for the node's data, which has one
  -- reference less than before.
  pub service_cycle :
      is_zero (dec node.ref) ≡ false
      → (h1 : Heap) × (create_service n (all_well t e d) true true h ≡ some (d, h1))
        × (destroy_endpoint_data d h1 ≡ some (true, upd h n (some (less node))))
  service_cycle shared =
      let g : Heap = with_service h n t e d entity info in
      let h2 : Heap = upd released n (some (less node)) in
      let end : Heap =
        upd (without_entity h2 e (entity_of entity.node_info t) (more info) fresh) d none in
      let at_d : g d ≡ some (data_of n e) = ground arith in
      let at_end : without_entity h2 e (entity_of entity.node_info t) (more info) fresh d
          ≡ some (less (data_of n e)) =
        ground (arith, is.d_e, is.d_t, is.d_ni, is.d_n) in
      let same : end ≡ upd h n (some (less node)) =
        rw info_back (
          fun_ext
            λ a. ground (arith, is.info_at, is.ni_n, is.t_unused, is.e_unused, is.d_unused)) in
      (
        g,
        service_made,
        endpoint_freed_after g d (data_of n e) h2 (entity_of entity.node_info t) (more info) fresh
              is.d0 at_d refl (node_kept released n node is.n0 node_still shared) shared_IsEntity
              at_end
            ∙ ap (λ (x : Heap). some (true, x)) same,
      )

  abbrev left_alone : Heap
  left_alone = without_node released n node entity (more info)

  alone_IsEntity : IsEntity left_alone e (entity_of entity.node_info t) info fresh
  alone_IsEntity = record {
    e0 = is.e0;
    ni0 = is.ni0;
    t0 = is.t0;
    ni_e = ground (arith, is.e_ni);
    t_e = ground (arith, is.e_t);
    t_ni = is.t_ni;
    entity_at = ground (arith, is.d_e, is.e_n, is.e_ni, is.entity_at, is.e_unused);
    info_at = ground (arith, is.ni_n, is.ne_ni, info_back);
    topic_at = ground (arith, is.d_t, is.e_t, is.t_n, is.t_ni, is.entity_at, is.t_unused);
    last = refl;
  }

  freed_again : zenoh_pico_destroy_node_data n (without_node h n node entity info) ≡ none
  unfolding zenoh_pico_destroy_node_data release load
  freed_again = rw (zenoh_pico_destroy_node_data, is.n0, ◌>>=◌, release, ◌>>=◌, load) (ground arith)

  -- Where every call on the way succeeds and only the node's handle refers to the node's data, making a
  -- service or client and destroying its data again frees the data of the node, its entity and, if
  -- nothing else refers to it, its node info; the handle's `data` still points there, so that
  -- `zenoh_pico_destroy_node_data`, called to destroy the node, reads freed memory.
  pub service_cycle-frees_node :
      is_zero (dec node.ref) ≡ true
      → is_zero (dec entity.ref) ≡ true
      → (entity.topic_info == null) ≡ true
      → (h1 : Heap) × (create_service n (all_well t e d) true true h ≡ some (d, h1))
        × (destroy_endpoint_data d h1 ≡ some (true, without_node h n node entity info))
        × (zenoh_pico_destroy_node_data n (without_node h n node entity info) ≡ none)
  service_cycle-frees_node last_node last no_topic =
      let g : Heap = with_service h n t e d entity info in
      let end : Heap =
        upd (without_entity left_alone e (entity_of entity.node_info t) info fresh) d none in
      let at_d : g d ≡ some (data_of n e) = ground arith in
      let at_end : without_entity left_alone e (entity_of entity.node_info t) info fresh d
          ≡ some (less (data_of n e)) =
        ground (arith, is.d_e, is.d_t, is.d_ni, is.d_n, is.entity_at, is.d_unused) in
      let same : end ≡ without_node h n node entity info = fun_ext λ a.
        ground (
          arith, is.ni_n, is.ne_n, is.ne_ni, is.entity_at, is.t_unused, is.e_unused, is.d_unused,
        ) in
      (
        g,
        service_made,
        endpoint_freed_after g d (data_of n e) left_alone (entity_of entity.node_info t) info fresh
              is.d0 at_d refl
              (node_freed released n node entity (more info) is.n0 is.ne0 is.ni0 is.ne_n is.ni_n
                is.ne_ni no_topic node_still node_entity_still info_still last_node last)
              alone_IsEntity at_end
            ∙ ap (λ (x : Heap). some (true, x)) same,
        freed_again,
      )
