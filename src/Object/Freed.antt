-- ===== src/Object/Freed.antt =====
-- What goes with the last reference to an entity, a node's data and an endpoint's data.
use mathlib.Core.Path.{fun_ext}
use rmw_zenoh_pico.Prelude.{
  ◌≡◌, refl, ap, ◌∙◌, arith, true, false, Option, none, some, ◌==◌, dec, is_zero,
}
use rmw_zenoh_pico.Memory.{Ptr, null}
use rmw_zenoh_pico.Object.{
  Object, Heap, upd, ◌>>=◌, ◌>>◌, destroy_parts, zenoh_pico_destroy_entity,
  zenoh_pico_destroy_node_data, destroy_endpoint_parts, destroy_endpoint_data,
}
use rmw_zenoh_pico.Object.Steps.{less, load-ok, release-ok, destroy-ok, left, info_released}

-- An entity with one reference, its node info and its topic info.
pub record IsEntity (h : Heap) (e : Ptr) (entity info topic : Object) : Type 0 where
  pub e0 : (e == null) ≡ false
  pub ni0 : (entity.node_info == null) ≡ false
  pub t0 : (entity.topic_info == null) ≡ false
  pub ni_e : (entity.node_info == e) ≡ false
  pub t_e : (entity.topic_info == e) ≡ false
  pub t_ni : (entity.topic_info == entity.node_info) ≡ false
  pub entity_at : h e ≡ some entity
  pub info_at : h entity.node_info ≡ some info
  pub topic_at : h entity.topic_info ≡ some topic
  pub last : is_zero (dec entity.ref) ≡ true

abbrev pub without_entity : Heap → Ptr → Object → Object → Object → Heap
without_entity h e entity info topic =
    upd (upd (upd h entity.node_info (left info)) entity.topic_info (left topic)) e none

module _ (h : Heap) (e : Ptr) (entity info topic : Object)
    (is : IsEntity h e entity info topic) where
  parts_freed :
      destroy_parts e (upd h e (some (less entity)))
      ≡ some (tt, without_entity h e entity info topic)
  unfolding destroy_parts
  parts_freed =
      let ni : Ptr = entity.node_info in
      let t : Ptr = entity.topic_info in
      let h1 : Heap = upd h e (some (less entity)) in
      let h2 : Heap = upd h1 ni (left info) in
      let h3 : Heap = upd h2 t (left topic) in
      let at_e : h1 e ≡ some (less entity) = ground arith in
      let at_ni : h1 ni ≡ some info = ground (arith, is.info_at, is.ni_e) in
      let at_t : h2 t ≡ some topic = ground (arith, is.topic_at, is.t_e, is.t_ni) in
      let at_end : h3 e ≡ some (less entity) = ground (arith, is.t_e, is.ni_e) in
      let same : upd h3 e none ≡ without_entity h e entity info topic = fun_ext λ a. ground arith in
      rw
        (
          destroy_parts,
          ◌>>=◌,
          load-ok h1 e (less entity) is.e0 at_e,
          ◌>>◌,
          ◌>>=◌,
          info_released h1 ni info is.ni0 at_ni,
          info_released h2 t topic is.t0 at_t,
          destroy-ok h3 e (less entity) is.e0 at_end is.last,
          same,
        )
        refl

  pub entity_freed :
      zenoh_pico_destroy_entity e h ≡ some (true, without_entity h e entity info topic)
  unfolding zenoh_pico_destroy_entity
  entity_freed =
      rw
        (
          zenoh_pico_destroy_entity,
          is.e0,
          ◌>>=◌,
          release-ok h e entity is.e0 is.entity_at,
          is.last,
          ◌>>◌,
          ◌>>=◌,
          parts_freed,
        )
        refl

pub node_kept :
    (h : Heap) (n : Ptr) (node : Object)
    → (n == null) ≡ false
    → h n ≡ some node
    → is_zero (dec node.ref) ≡ false
    → zenoh_pico_destroy_node_data n h ≡ some (true, upd h n (some (less node)))
unfolding zenoh_pico_destroy_node_data
node_kept h n node live at k =
    rw (zenoh_pico_destroy_node_data, live, ◌>>=◌, release-ok h n node live at, k) refl

-- The data of an endpoint, with one reference, whose node has others and is none of its own structs.
pub record IsEndpoint (h : Heap) (d : Ptr) (data_ node entity info topic : Object) : Type 0 where
  pub d0 : (d == null) ≡ false
  pub n0 : (data_.node == null) ≡ false
  pub d_n : (data_.node == d) ≡ false
  pub e_d : (data_.entity == d) ≡ false
  pub ni_d : (entity.node_info == d) ≡ false
  pub t_d : (entity.topic_info == d) ≡ false
  pub e_n : (data_.entity == data_.node) ≡ false
  pub ni_n : (entity.node_info == data_.node) ≡ false
  pub t_n : (entity.topic_info == data_.node) ≡ false
  pub data_at : h d ≡ some data_
  pub node_at : h data_.node ≡ some node
  pub last : is_zero (dec data_.ref) ≡ true
  pub node_shared : is_zero (dec node.ref) ≡ false
  pub is_entity : IsEntity h data_.entity entity info topic

abbrev pub without_endpoint : Heap → Ptr → Object → Object → Object → Object → Object → Heap
without_endpoint h d data_ node entity info topic =
    upd (without_entity (upd h data_.node (some (less node))) data_.entity entity info topic) d none

-- An entity is left alone by writes elsewhere.
IsEntity-upd :
    (h : Heap) (e p : Ptr) (o : Option Object) (entity info topic : Object)
    → (e == p) ≡ false
    → (entity.node_info == p) ≡ false
    → (entity.topic_info == p) ≡ false
    → IsEntity h e entity info topic
    → IsEntity (upd h p o) e entity info topic
IsEntity-upd h e p o entity info topic a b c is = record {
  e0 = is.e0;
  ni0 = is.ni0;
  t0 = is.t0;
  ni_e = is.ni_e;
  t_e = is.t_e;
  t_ni = is.t_ni;
  entity_at = rw a is.entity_at;
  info_at = rw b is.info_at;
  topic_at = rw c is.topic_at;
  last = is.last;
}

-- The last reference to an endpoint's data, with what becomes of its node.
module _ (h : Heap) (d : Ptr) (data_ : Object) (h2 : Heap) (entity info topic : Object)
    (d0 : (d == null) ≡ false) (data_at : h d ≡ some data_) (last : is_zero (dec data_.ref) ≡ true)
    (node_gone : zenoh_pico_destroy_node_data data_.node (upd h d (some (less data_)))
      ≡ some (true, h2))
    (is2 : IsEntity h2 data_.entity entity info topic)
    (at_end : without_entity h2 data_.entity entity info topic d ≡ some (less data_)) where
  endpoint_parts_freed :
      destroy_endpoint_parts d (upd h d (some (less data_)))
      ≡ some (tt, upd (without_entity h2 data_.entity entity info topic) d none)
  unfolding destroy_endpoint_parts
  endpoint_parts_freed =
      let h1 : Heap = upd h d (some (less data_)) in
      let h3 : Heap = without_entity h2 data_.entity entity info topic in
      let at_d : h1 d ≡ some (less data_) = ground arith in
      rw
        (
          destroy_endpoint_parts,
          ◌>>=◌,
          load-ok h1 d (less data_) d0 at_d,
          ◌>>◌,
          ◌>>=◌,
          node_gone,
          entity_freed h2 data_.entity entity info topic is2,
          destroy-ok h3 d (less data_) d0 at_end last,
        )
        refl

  pub endpoint_freed_after :
      destroy_endpoint_data d h
      ≡ some (true, upd (without_entity h2 data_.entity entity info topic) d none)
  unfolding destroy_endpoint_data
  endpoint_freed_after =
      rw
        (
          destroy_endpoint_data,
          d0,
          ◌>>=◌,
          release-ok h d data_ d0 data_at,
          last,
          ◌>>◌,
          ◌>>=◌,
          endpoint_parts_freed,
        )
        refl

module _ (h : Heap) (d : Ptr) (data_ node entity info topic : Object)
    (is : IsEndpoint h d data_ node entity info topic) where
  pub endpoint_freed :
      destroy_endpoint_data d h ≡ some (true, without_endpoint h d data_ node entity info topic)
  endpoint_freed =
      let e : Ptr = data_.entity in
      let h1 : Heap = upd h d (some (less data_)) in
      let h2 : Heap = upd h1 data_.node (some (less node)) in
      let at_n : h1 data_.node ≡ some node = rw is.d_n is.node_at in
      let is1 : IsEntity h1 e entity info topic =
        IsEntity-upd h e d _ entity info topic is.e_d is.ni_d is.t_d is.is_entity in
      let is2 : IsEntity h2 e entity info topic =
        IsEntity-upd h1 e data_.node _ entity info topic is.e_n is.ni_n is.t_n is1 in
      let at_end : without_entity h2 e entity info topic d ≡ some (less data_) =
        ground (arith, is.e_d, is.ni_d, is.t_d, is.d_n) in
      let same : upd (without_entity h2 e entity info topic) d none
          ≡ without_endpoint h d data_ node entity info topic =
        fun_ext λ a. ground arith in
      endpoint_freed_after h d data_ h2 entity info topic is.d0 is.data_at is.last
        (node_kept h1 data_.node node is.n0 at_n is.node_shared) is2 at_end
      ∙ ap (λ (x : Heap). some (true, x)) same
