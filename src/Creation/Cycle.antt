-- ===== src/Creation/Cycle.antt =====
-- A subscription or publisher that is made and destroyed leaves the memory as it was.
use mathlib.Core.Path.{fun_ext}
use rmw_zenoh_pico.Prelude.{
  ◌≡◌, refl, ap, ◌∙◌, arith, true, false, none, some, ◌==◌, ℤ, inc, dec, is_zero, dec-inc,
}
use rmw_zenoh_pico.Memory.{Ptr, null}
use rmw_zenoh_pico.Object.{Object, Heap, upd, ◌>>=◌, ◌>>◌, fresh, destroy_endpoint_data}
use rmw_zenoh_pico.Object.Steps.{less, more, left, ref_clone-ok, load-ok, upd_twice}
use rmw_zenoh_pico.Object.Freed.{IsEndpoint, without_endpoint, endpoint_freed}
use rmw_zenoh_pico.Creation.{
  Outcomes, finish, create_subscription, create_publisher, zenoh_pico_generate_subscription_data,
  zenoh_pico_generate_publisher_data,
}
use rmw_zenoh_pico.Creation.Made.{
  entity_of, data_of, generate-ok, generate_topic_entity-ok, clone_node_info-ok,
}

-- A node in memory with its entity and its node info, and memory for a topic info, an entity and the
-- data of an endpoint that nothing uses yet.
pub record IsReady (h : Heap) (n t e d : Ptr) (node entity info : Object) : Type 0 where
  pub n0 : (n == null) ≡ false
  pub ne0 : (node.entity == null) ≡ false
  pub ni0 : (entity.node_info == null) ≡ false
  pub t0 : (t == null) ≡ false
  pub e0 : (e == null) ≡ false
  pub d0 : (d == null) ≡ false
  pub ne_n : (node.entity == n) ≡ false
  pub ni_n : (entity.node_info == n) ≡ false
  pub ne_ni : (node.entity == entity.node_info) ≡ false
  pub t_n : (t == n) ≡ false
  pub e_n : (e == n) ≡ false
  pub d_n : (d == n) ≡ false
  pub t_ni : (t == entity.node_info) ≡ false
  pub e_ni : (e == entity.node_info) ≡ false
  pub d_ni : (d == entity.node_info) ≡ false
  pub e_t : (e == t) ≡ false
  pub d_t : (d == t) ≡ false
  pub d_e : (d == e) ≡ false
  pub node_at : h n ≡ some node
  pub entity_at : h node.entity ≡ some entity
  pub info_at : h entity.node_info ≡ some info
  pub t_unused : h t ≡ none
  pub e_unused : h e ≡ none
  pub d_unused : h d ≡ none
  pub node_used : is_zero node.ref ≡ false
  pub info_used : is_zero info.ref ≡ false

abbrev pub all_well : Ptr → Ptr → Ptr → Outcomes
all_well t e d = record {
  topic_memory = t;
  entity_memory = e;
  data_memory = d;
  liveliness_copied = true;
  topic_key_copied = true;
}

-- Memory behind the references that an endpoint takes, with its entity and topic info.
abbrev pub with_entity : Heap → Ptr → Ptr → Ptr → Object → Object → Object → Heap
with_entity h n t e node entity info =
    upd (upd (upd (upd h n (some (more node))) entity.node_info (some (more info))) t (some fresh))
      e (some (entity_of entity.node_info t))

abbrev pub with_endpoint : Heap → Ptr → Ptr → Ptr → Ptr → Object → Object → Object → Heap
with_endpoint h n t e d node entity info =
    upd (with_entity h n t e node entity info) d (some (data_of n e))

less-more : (o : Object) → less (more o) ≡ o
less-more o = ap (λ (r : ℤ). record o { ref = r }) (dec-inc o.ref)

module _ (h : Heap) (n t e d : Ptr) (node entity info : Object)
    (is : IsReady h n t e d node entity info) where
  pub subscription_made :
      create_subscription n (all_well t e d) true true h
      ≡ some (d, with_endpoint h n t e d node entity info)
  unfolding create_subscription zenoh_pico_generate_subscription_data finish
  subscription_made =
      let h1 : Heap = upd h n (some (more node)) in
      let h2 : Heap = upd h1 entity.node_info (some (more info)) in
      let h3 : Heap = with_entity h n t e node entity info in
      let at_n : h1 n ≡ some (more node) = ground arith in
      let at_e : h1 node.entity ≡ some entity = rw is.ne_n is.entity_at in
      let at_ni : h1 entity.node_info ≡ some info = rw is.ni_n is.info_at in
      rw
        (
          create_subscription,
          ◌>>=◌,
          ref_clone-ok h n node is.n0 is.node_at,
          zenoh_pico_generate_subscription_data,
          is.n0,
          ◌>>=◌,
          clone_node_info-ok h1 n (more node) entity info is.n0 is.ne0 is.ni0 at_n at_e at_ni,
          generate_topic_entity-ok h2 e entity.node_info t is.t0 is.e0,
          is.e0,
          ◌>>=◌,
          generate-ok h3 d is.d0,
          is.d0,
          ◌>>◌,
          ◌>>=◌,
          upd_twice h3 d (some fresh) (some (data_of n e)),
          finish,
          is.d0,
        )
        refl

  made-IsEndpoint :
      IsEndpoint
        (with_endpoint h n t e d node entity info)
        d
        (data_of n e)
        (more node)
        (entity_of entity.node_info t)
        (more info)
        fresh
  made-IsEndpoint = record {
    d0 = is.d0;
    n0 = is.n0;
    d_n = ground (arith, is.d_n);
    e_d = ground (arith, is.d_e);
    ni_d = ground (arith, is.d_ni);
    t_d = ground (arith, is.d_t);
    e_n = is.e_n;
    ni_n = is.ni_n;
    t_n = is.t_n;
    data_at = ground arith;
    node_at = ground (arith, is.d_n, is.e_n, is.t_n, is.ni_n);
    last = refl;
    node_shared = rw dec-inc is.node_used;
    is_entity = record {
      e0 = is.e0;
      ni0 = is.ni0;
      t0 = is.t0;
      ni_e = ground (arith, is.e_ni);
      t_e = ground (arith, is.e_t);
      t_ni = is.t_ni;
      entity_at = ground (arith, is.d_e);
      info_at = ground (arith, is.d_ni, is.e_ni, is.t_ni);
      topic_at = ground (arith, is.d_t, is.e_t);
      last = refl;
    };
  }

  left_more : left (more info) ≡ some info
  left_more =
      let used : is_zero (dec (inc info.ref)) ≡ false = rw dec-inc is.info_used in
      rw used (ap some (less-more info))

  -- Taking back what an endpoint took.
  restored :
      without_endpoint
        (with_endpoint h n t e d node entity info)
        d
        (data_of n e)
        (more node)
        (entity_of entity.node_info t)
        (more info)
        fresh
      ≡ h
  restored =
      rw (less-more node, left_more)
        (fun_ext λ a. ground (arith, is.node_at, is.info_at, is.t_unused, is.e_unused, is.d_unused))

  pub publisher_made :
      create_publisher n (all_well t e d) true true h
      ≡ some (d, with_endpoint h n t e d node entity info)
  unfolding create_publisher zenoh_pico_generate_publisher_data finish
  publisher_made =
      let h1 : Heap = upd h n (some (more node)) in
      let h2 : Heap = upd h1 entity.node_info (some (more info)) in
      let h3 : Heap = with_entity h n t e node entity info in
      let h4 : Heap = with_endpoint h n t e d node entity info in
      let at_n : h1 n ≡ some (more node) = ground arith in
      let at_e : h1 node.entity ≡ some entity = rw is.ne_n is.entity_at in
      let at_ni : h1 entity.node_info ≡ some info = rw is.ni_n is.info_at in
      let made : h4 e ≡ some (entity_of entity.node_info t) = ground (arith, is.d_e) in
      rw
        (
          create_publisher,
          ◌>>=◌,
          ref_clone-ok h n node is.n0 is.node_at,
          zenoh_pico_generate_publisher_data,
          is.n0,
          ◌>>=◌,
          clone_node_info-ok h1 n (more node) entity info is.n0 is.ne0 is.ni0 at_n at_e at_ni,
          generate_topic_entity-ok h2 e entity.node_info t is.t0 is.e0,
          is.e0,
          ◌>>=◌,
          generate-ok h3 d is.d0,
          is.d0,
          ◌>>◌,
          ◌>>=◌,
          upd_twice h3 d (some fresh) (some (data_of n e)),
          load-ok h4 e (entity_of entity.node_info t) is.e0 made,
          finish,
          is.d0,
        )
        refl

  -- Where every call on the way succeeds, `rmw_create_subscription` and `rmw_create_publisher` leave the
  -- same memory, and destroying the new endpoint's data brings back the memory as it was before,
  -- reference counts included.
  pub endpoint_cycle :
      (h1 : Heap) × (create_subscription n (all_well t e d) true true h ≡ some (d, h1))
      × (create_publisher n (all_well t e d) true true h ≡ some (d, h1))
      × (destroy_endpoint_data d h1 ≡ some (true, h))
  endpoint_cycle = (
    with_endpoint h n t e d node entity info,
    subscription_made,
    publisher_made,
    endpoint_freed _ d (data_of n e) (more node) (entity_of entity.node_info t) (more info) fresh
          made-IsEndpoint
        ∙ ap (λ (x : Heap). some (true, x)) restored,
  )
