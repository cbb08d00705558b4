-- ===== src/Object/Node.antt =====
-- The last reference to a node's data takes its entity with it, and one reference to its node info.
use mathlib.Core.Path.{fun_ext}
use rmw_zenoh_pico.Prelude.{◌≡◌, refl, arith, true, false, none, some, ◌==◌, dec, is_zero}
use rmw_zenoh_pico.Memory.{Ptr, null}
use rmw_zenoh_pico.Object.{
  Object, Heap, upd, ◌>>=◌, ◌>>◌, destroy_info, destroy_parts, zenoh_pico_destroy_entity,
  destroy_node_parts, zenoh_pico_destroy_node_data,
}
use rmw_zenoh_pico.Object.Steps.{less, left, load-ok, release-ok, destroy-ok, info_released}

abbrev pub without_node_entity : Heap → Ptr → Object → Object → Heap
without_node_entity g ne entity i = upd (upd g entity.node_info (left i)) ne none

abbrev pub without_node : Heap → Ptr → Object → Object → Object → Heap
without_node g n node entity i = upd (without_node_entity g node.entity entity i) n none

-- The entity of a node: its node info, and no topic info.
module _ (g : Heap) (ne : Ptr) (entity i : Object) (ne0 : (ne == null) ≡ false)
    (ni0 : (entity.node_info == null) ≡ false) (ne_ni : (ne == entity.node_info) ≡ false)
    (no_topic : (entity.topic_info == null) ≡ true) (entity_at : g ne ≡ some entity)
    (info_at : g entity.node_info ≡ some i) (last : is_zero (dec entity.ref) ≡ true) where
  no_topic_info : (x : Heap) → destroy_info entity.topic_info x ≡ some (false, x)
  unfolding destroy_info
  no_topic_info x = rw (destroy_info, no_topic) refl

  node_parts_freed :
      destroy_parts ne (upd g ne (some (less entity)))
      ≡ some (tt, without_node_entity g ne entity i)
  unfolding destroy_parts
  node_parts_freed =
      let ni : Ptr = entity.node_info in
      let g1 : Heap = upd g ne (some (less entity)) in
      let g2 : Heap = upd g1 ni (left i) in
      let at_ne : g1 ne ≡ some (less entity) = ground arith in
      let at_ni : g1 ni ≡ some i = ground (arith, info_at, ne_ni) in
      let at_end : g2 ne ≡ some (less entity) = ground (arith, ne_ni) in
      let same : upd g2 ne none ≡ without_node_entity g ne entity i = fun_ext λ a. ground arith in
      rw
        (
          destroy_parts,
          ◌>>=◌,
          load-ok g1 ne (less entity) ne0 at_ne,
          ◌>>◌,
          ◌>>=◌,
          info_released g1 ni i ni0 at_ni,
          no_topic_info g2,
          destroy-ok g2 ne (less entity) ne0 at_end last,
          same,
        )
        refl

  node_entity_freed :
      zenoh_pico_destroy_entity ne g ≡ some (true, without_node_entity g ne entity i)
  unfolding zenoh_pico_destroy_entity
  node_entity_freed =
      rw
        (
          zenoh_pico_destroy_entity,
          ne0,
          ◌>>=◌,
          release-ok g ne entity ne0 entity_at,
          last,
          ◌>>◌,
          ◌>>=◌,
          node_parts_freed,
        )
        refl

-- The last reference to a node's data.
module _ (g : Heap) (n : Ptr) (node entity i : Object) (n0 : (n == null) ≡ false)
    (ne0 : (node.entity == null) ≡ false) (ni0 : (entity.node_info == null) ≡ false)
    (ne_n : (node.entity == n) ≡ false) (ni_n : (entity.node_info == n) ≡ false)
    (ne_ni : (node.entity == entity.node_info) ≡ false)
    (no_topic : (entity.topic_info == null) ≡ true) (node_at : g n ≡ some node)
    (entity_at : g node.entity ≡ some entity) (info_at : g entity.node_info ≡ some i)
    (last_node : is_zero (dec node.ref) ≡ true) (last : is_zero (dec entity.ref) ≡ true) where
  pub node_freed : zenoh_pico_destroy_node_data n g ≡ some (true, without_node g n node entity i)
  unfolding zenoh_pico_destroy_node_data destroy_node_parts
  node_freed =
      let ne : Ptr = node.entity in
      let g1 : Heap = upd g n (some (less node)) in
      let at_n : g1 n ≡ some (less node) = ground arith in
      let at_ne : g1 ne ≡ some entity = ground (arith, ne_n, entity_at) in
      let at_ni : g1 entity.node_info ≡ some i = ground (arith, ni_n, info_at) in
      let g3 : Heap = upd (upd g1 entity.node_info (left i)) ne none in
      let at_end : g3 n ≡ some (less node) = ground (arith, ne_n, ni_n) in
      let same : upd g3 n none ≡ without_node g n node entity i = fun_ext λ a. ground arith in
      rw
        (
          zenoh_pico_destroy_node_data,
          n0,
          ◌>>=◌,
          release-ok g n node n0 node_at,
          last_node,
          ◌>>◌,
          ◌>>=◌,
          destroy_node_parts,
          load-ok g1 n (less node) n0 at_n,
          node_entity_freed g1 ne entity i ne0 ni0 ne_ni no_topic at_ne at_ni last,
          destroy-ok g3 n (less node) n0 at_end last_node,
          same,
        )
        refl
