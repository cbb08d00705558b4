-- ===== src/Creation/Failed.antt =====
-- What the error path of a subscription takes with it when a key cannot be copied.
use rmw_zenoh_pico.Prelude.{
  ◌≡◌, refl, ap, arith, Bool, false, ◌&&◌, some, ℤ, inc, dec, is_zero, dec-inc,
}
use rmw_zenoh_pico.Memory.{Ptr, null}
use rmw_zenoh_pico.Object.{Object, Heap, upd, ◌>>=◌, ◌>>◌, fresh, destroy}
use rmw_zenoh_pico.Object.Steps.{more, left, load-ok, info_released, upd_twice}
use rmw_zenoh_pico.Object.Freed.{IsEntity, without_entity, entity_freed}
use rmw_zenoh_pico.Creation.{
  Outcomes, let_go, destroy_unless_null, zenoh_pico_generate_subscription_data,
}
use rmw_zenoh_pico.Creation.Made.{
  entity_of, data_of, generate-ok, generate_topic_entity-ok, clone_node_info-ok,
}
use rmw_zenoh_pico.Creation.Cycle.{IsReady}

abbrev pub key_not_copied : Ptr → Ptr → Ptr → Bool → Bool → Outcomes
key_not_copied t e d liveliness topic_key = record {
  topic_memory = t;
  entity_memory = e;
  data_memory = d;
  liveliness_copied = liveliness;
  topic_key_copied = topic_key;
}

module _ (h : Heap) (n t e d : Ptr) (node entity info : Object)
    (is : IsReady h n t e d node entity info) where
  abbrev made : Heap
  made =
      upd
        (upd (upd (upd h entity.node_info (some (more info))) t (some fresh)) e
          (some (entity_of entity.node_info t)))
        d (some (data_of n e))

  abbrev let_info_go : Heap
  let_info_go = upd made entity.node_info (left (more info))

  info_let_go : left (more info) ≡ some info
  info_let_go =
      let used : is_zero (dec (inc info.ref)) ≡ false = rw dec-inc is.info_used in
      rw used (ap (λ (r : ℤ). some (record info { ref = r })) (dec-inc info.ref))

  let_info_go-IsEntity : IsEntity let_info_go e (entity_of entity.node_info t) info fresh
  let_info_go-IsEntity = record {
    e0 = is.e0;
    ni0 = is.ni0;
    t0 = is.t0;
    ni_e = ground (arith, is.e_ni);
    t_e = ground (arith, is.e_t);
    t_ni = is.t_ni;
    entity_at = ground (arith, is.d_e, is.e_ni);
    info_at = ground (arith, info_let_go);
    topic_at = ground (arith, is.d_t, is.e_t, is.t_ni);
    last = refl;
  }

  let_go-ok :
      let_go entity.node_info e d made
      ≡ some (null, without_entity let_info_go e (entity_of entity.node_info t) info fresh)
  unfolding let_go destroy_unless_null destroy
  let_go-ok =
      let h3 : Heap = without_entity let_info_go e (entity_of entity.node_info t) info fresh in
      let at_ni : made entity.node_info ≡ some (more info) =
        ground (arith, is.d_ni, is.e_ni, is.t_ni) in
      let at_d : h3 d ≡ some (data_of n e) = ground (arith, is.d_e, is.d_t, is.d_ni) in
      rw
        (
          let_go,
          ◌>>◌,
          ◌>>=◌,
          info_released made entity.node_info (more info) is.ni0 at_ni,
          entity_freed let_info_go e (entity_of entity.node_info t) info fresh let_info_go-IsEntity,
          destroy_unless_null,
          is.d0,
          destroy,
          ◌>>=◌,
          load-ok h3 d (data_of n e) is.d0 at_d,
        )
        refl

  -- Where memory is to be had but one of the two keys cannot be copied,
  -- `zenoh_pico_generate_subscription_data` gives NULL, its struct stays allocated, and the node info has
  -- one reference less than before: if the node held the only one, it is freed, while the entity of the
  -- node still points to it.
  pub subscription_failed :
      (liveliness topic_key : Bool)
      → (liveliness && topic_key) ≡ false
      → (h1 : Heap) × (zenoh_pico_generate_subscription_data n
            (key_not_copied t e d liveliness topic_key)
            h
          ≡ some (null, h1))
        × (h1 d ≡ some (data_of n e))
        × (h1 entity.node_info ≡ left info)
        × (h1 node.entity ≡ h node.entity)
  unfolding zenoh_pico_generate_subscription_data
  subscription_failed liveliness topic_key fails =
      let h2 : Heap = upd h entity.node_info (some (more info)) in
      let h3 : Heap = upd (upd h2 t (some fresh)) e (some (entity_of entity.node_info t)) in
      let result : Heap = without_entity let_info_go e (entity_of entity.node_info t) info fresh in
      (
        result,
        rw
            (
              zenoh_pico_generate_subscription_data,
              is.n0,
              ◌>>=◌,
              clone_node_info-ok h n node entity info is.n0 is.ne0 is.ni0 is.node_at is.entity_at
                  is.info_at,
              generate_topic_entity-ok h2 e entity.node_info t is.t0 is.e0,
              is.e0,
              ◌>>=◌,
              generate-ok h3 d is.d0,
              is.d0,
              ◌>>◌,
              ◌>>=◌,
              upd_twice h3 d (some fresh) (some (data_of n e)),
              fails,
              let_go-ok,
            )
            refl,
        ground (arith, is.d_e, is.d_t, is.d_ni),
        ground (arith, is.e_ni, is.t_ni),
        ground (arith, is.ne_ni, is.entity_at, is.t_unused, is.e_unused, is.d_unused),
      )
